-- ===== src/Carbon.antt =====
-- The caches of api/carbonintensity/carbonintensity.go. What the web service answers to a request made at
-- an instant is an argument, with `none` for an error; `V` is the type of a current intensity. A
-- call reads the clock before the request, and again when the answer is there.
pub mod Freshness
use ev_charge_controller.Prelude.{
  ℕ, ◌+◌, ◌*◌, ◌/◌, ◌%◌, Bool, true, false, Option, none, some, List, [], ◌∷◌, ltb, if◌then◌else◌,
}
use ev_charge_controller.Clock.{Time, second, minute, hour}
use ev_charge_controller.Optimizer.{ForecastBucket, slice_buckets}

-- CarbonIntensityHttpTimeout
abbrev pub carbon_intensity_http_timeout : ℕ
carbon_intensity_http_timeout = 5 * second

-- nextHalfHourUTC
unfoldable pub next_half_hour_utc : Time → Time
next_half_hour_utc now =
    let start = now / hour * hour in
    if ltb (now / minute % 60) 30 then start + 30 * minute else start + hour

-- cacheEntry and forecastCacheEntry
pub record Entry (V : Type 0) : Type 0 where
  pub value : V
  pub expires_at : Time

pub record Client (V : Type 0) : Type 0 where
  pub cached : Option (Entry V)
  pub forecast_cached : Option (Entry (List ForecastBucket))

-- The two instants of a call.
pub record Call : Type 0 where
  pub now : Time
  pub answered : Time

-- The cached value, if it has not expired.
abbrev pub unexpired : {V : Type 0} → Time → Option (Entry V) → Option V
unexpired now none = none
unexpired now (some e) = if ltb now e.expires_at then some e.value else none

-- An empty slice is an error.
abbrev pub some_buckets : List ForecastBucket → Option (List ForecastBucket)
some_buckets [] = none
some_buckets (b ∷ bs) = some (b ∷ bs)

module _ {V : Type 0} where
  abbrev pub keep_current : Client V → Time → Option V → Client V × Option V
  keep_current c answered none = (c, none)
  keep_current c answered (some v) = (
    record c { cached = some (record { value = v; expires_at = next_half_hour_utc answered }) },
    some v,
  )

  abbrev pub current_or_fetch : (Time → Option V) → Client V → Call → Option V → Client V × Option V
  current_or_fetch fetch c call (some v) = (c, some v)
  current_or_fetch fetch c call none = keep_current c call.answered (fetch call.now)

  unfoldable pub get_current : (Time → Option V) → Client V → Call → Client V × Option V
  get_current fetch c call = current_or_fetch fetch c call (unexpired call.now c.cached)

  abbrev pub keep_forecast :
      Client V
      → Time
      → Time
      → Time
      → Option (List ForecastBucket)
      → Client V × Option (List ForecastBucket)
  keep_forecast c answered from to none = (c, none)
  keep_forecast c answered from to (some bs) = (
    record c {
      forecast_cached = some (record { value = bs; expires_at = next_half_hour_utc answered });
    },
    some_buckets (slice_buckets bs from to),
  )

  abbrev pub forecast_or_fetch :
      (Time → Option (List ForecastBucket))
      → Client V
      → Call
      → Time
      → Time
      → Option (List ForecastBucket)
      → Client V × Option (List ForecastBucket)
  forecast_or_fetch fetch c call from to (some bs) = (c, some_buckets (slice_buckets bs from to))
  forecast_or_fetch fetch c call from to none =
      keep_forecast c call.answered from to (fetch call.now)

  unfoldable pub get_forecast :
      (Time → Option (List ForecastBucket))
      → Client V
      → Call
      → Time
      → Time
      → Client V × Option (List ForecastBucket)
  get_forecast fetch c call from to =
      forecast_or_fetch fetch c call from to (unexpired call.now c.forecast_cached)

-- A request to the client.
pub data Ask : Type 0 where
  current : Ask
  forecast : Time → Time → Ask

pub data Answer (V : Type 0) : Type 0 where
  intensity : Option V → Answer V
  buckets : Time → Time → Option (List ForecastBucket) → Answer V

module _ {V : Type 0} (fetch : Time → Option V)
    (fetch_forecast : Time → Option (List ForecastBucket)) where
  abbrev pub serve : Client V → Call → Ask → Client V × Answer V
  serve c call current = let (c2, v) = get_current fetch c call in (c2, intensity v)
  serve c call (forecast from to) =
      let (c2, bs) = get_forecast fetch_forecast c call from to in (c2, buckets from to bs)

  -- The answers to a sequence of requests.
  unfoldable pub serve_all : List (Call × Ask) → Client V → List (Call × Answer V)
  serve_all [] c = []
  serve_all ((call, ask) ∷ asks) c =
      let (c2, answer) = serve c call ask in (call, answer) ∷ serve_all asks c2
