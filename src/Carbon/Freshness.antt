-- ===== src/Carbon/Freshness.antt =====
-- How old an answer of the carbon client can be.
use ev_charge_controller.Prelude.{
  ◌+◌, ◌*◌, ◌%◌, ◌≤◌, ◌<◌, ◌≡◌, refl, ◌∙◌, Option, none, some, List, [], ◌∷◌, All, arith,
  Bool-cases, inl, inr, ltb,
}
use ev_charge_controller.Clock.{Time, minute}
use ev_charge_controller.Optimizer.{ForecastBucket, slice_buckets}
use ev_charge_controller.Carbon.{
  carbon_intensity_http_timeout, next_half_hour_utc, Entry, Client, Call, unexpired, keep_current,
  current_or_fetch, get_current, some_buckets, keep_forecast, forecast_or_fetch, get_forecast, Ask,
  current, forecast, Answer, intensity, buckets, serve, serve_all,
}

-- The next half-hour is a full or half hour of UTC, and comes within half an hour.
pub next_half_hour_utc_bounds :
    (now : Time)
    → (now < next_half_hour_utc now)
      × (next_half_hour_utc now ≤ now + 30 * minute)
      × (next_half_hour_utc now % (30 * minute) ≡ 0)
unfolding next_half_hour_utc
next_half_hour_utc_bounds now = (ground arith, ground arith, ground arith)

-- What a value may be served as at the instant: an answer that is not older than the cache keeps one.
abbrev pub IsFresh : {V : Type 0} → (Time → Option V) → Time → V → Type 0
IsFresh fetch now v =
    (asked : Time) × (fetch asked ≡ some v)
    × (now < asked + 30 * minute + carbon_intensity_http_timeout)

-- Every entry was an answer, and expires in time.
abbrev pub IsSound : {V : Type 0} → (Time → Option V) → Option (Entry V) → Type 0
IsSound fetch none = Unit
IsSound fetch (some e) =
    (asked : Time) × (fetch asked ≡ some e.value)
    × (e.expires_at ≤ asked + 30 * minute + carbon_intensity_http_timeout)

abbrev pub IsTimely : Call → Type 0
IsTimely call =
    (call.now ≤ call.answered) × (call.answered ≤ call.now + carbon_intensity_http_timeout)

unexpired-IsFresh :
    {V : Type 0} (fetch : Time → Option V) (now : Time) (o : Option (Entry V)) (v : V)
    → IsSound fetch o
    → unexpired now o ≡ some v
    → IsFresh fetch now v
unexpired-IsFresh fetch now none v s e = absurd (cc e)
unexpired-IsFresh fetch now (some x) v (asked, got, due) e =
    elim (Bool-cases (ltb now x.expires_at)) [
      | inl fresh ↦
          let same : some x.value ≡ some v = ground (arith, e, fresh) in
          (asked, got ∙ same, ground (arith, fresh, due))
      | inr stale ↦ absurd (ground (arith, e, stale))
    ]

entry-IsSound :
    {V : Type 0} (fetch : Time → Option V) (call : Call) (v : V)
    → IsTimely call
    → fetch call.now ≡ some v
    → IsSound fetch (some (record { value = v; expires_at = next_half_hour_utc call.answered }))
entry-IsSound fetch call v timely e =
    (call.now, e, omega (arith, (next_half_hour_utc_bounds call.answered).1, timely.1))

module _ {V : Type 0} (fetch : Time → Option V)
    (fetch_forecast : Time → Option (List ForecastBucket)) where
  -- An error may always be returned.
  abbrev pub IsServed : Call × Answer V → Type 0
  IsServed (call, intensity none) = Unit
  IsServed (call, intensity (some v)) = IsFresh fetch call.now v
  IsServed (call, buckets from to none) = Unit
  IsServed (call, buckets from to (some bs)) =
      (all : List ForecastBucket) × IsFresh fetch_forecast call.now all
      × (some_buckets (slice_buckets all from to) ≡ some bs)

  abbrev IsSoundClient : Client V → Type 0
  IsSoundClient c = IsSound fetch c.cached × IsSound fetch_forecast c.forecast_cached

  keep_current-IsServed :
      (c : Client V) (call : Call) (o : Option V)
      → IsSoundClient c
      → IsTimely call
      → fetch call.now ≡ o
      → IsSoundClient (keep_current c call.answered o).0
        × IsServed (call, intensity (keep_current c call.answered o).1)
  keep_current-IsServed c call none s timely e = (s, tt)
  keep_current-IsServed c call (some v) s timely e =
      ((entry-IsSound fetch call v timely e, s.1), (call.now, e, ground arith))

  current-IsServed :
      (c : Client V) (call : Call) (o : Option V)
      → IsSoundClient c
      → IsTimely call
      → unexpired call.now c.cached ≡ o
      → IsSoundClient (current_or_fetch fetch c call o).0
        × IsServed (call, intensity (current_or_fetch fetch c call o).1)
  current-IsServed c call none s timely e =
      keep_current-IsServed c call (fetch call.now) s timely refl
  current-IsServed c call (some v) s timely e =
      (s, unexpired-IsFresh fetch call.now c.cached v s.0 e)

  sliced :
      (call : Call) (from to : Time) (all : List ForecastBucket) (o : Option (List ForecastBucket))
      → IsFresh fetch_forecast call.now all
      → some_buckets (slice_buckets all from to) ≡ o
      → IsServed (call, buckets from to o)
  sliced call from to all none fresh e = tt
  sliced call from to all (some bs) fresh e = (all, fresh, e)

  keep_forecast-IsServed :
      (c : Client V) (call : Call) (from to : Time) (o : Option (List ForecastBucket))
      → IsSoundClient c
      → IsTimely call
      → fetch_forecast call.now ≡ o
      → IsSoundClient (keep_forecast c call.answered from to o).0
        × IsServed (call, buckets from to (keep_forecast c call.answered from to o).1)
  keep_forecast-IsServed c call from to none s timely e = (s, tt)
  keep_forecast-IsServed c call from to (some bs) s timely e = (
    (s.0, entry-IsSound fetch_forecast call bs timely e),
    sliced call from to bs (some_buckets (slice_buckets bs from to)) (call.now, e, ground arith)
        refl,
  )

  forecast-IsServed :
      (c : Client V) (call : Call) (from to : Time) (o : Option (List ForecastBucket))
      → IsSoundClient c
      → IsTimely call
      → unexpired call.now c.forecast_cached ≡ o
      → IsSoundClient (forecast_or_fetch fetch_forecast c call from to o).0
        × IsServed (call, buckets from to (forecast_or_fetch fetch_forecast c call from to o).1)
  forecast-IsServed c call from to none s timely e =
      keep_forecast-IsServed c call from to (fetch_forecast call.now) s timely refl
  forecast-IsServed c call from to (some bs) s timely e = (
    s,
    sliced call from to bs (some_buckets (slice_buckets bs from to))
        (unexpired-IsFresh fetch_forecast call.now c.forecast_cached bs s.1 e) refl,
  )

  serve-IsServed :
      (c : Client V) (call : Call) (ask : Ask)
      → IsSoundClient c
      → IsTimely call
      → IsSoundClient (serve fetch fetch_forecast c call ask).0
        × IsServed (call, (serve fetch fetch_forecast c call ask).1)
  unfolding get_current get_forecast
  serve-IsServed c call current s timely = current-IsServed c call _ s timely refl
  serve-IsServed c call (forecast from to) s timely =
      forecast-IsServed c call from to _ s timely refl

  answers-IsServed :
      (asks : List (Call × Ask)) (c : Client V)
      → IsSoundClient c
      → All (λ (a : Call × Ask). IsTimely a.0) asks
      → All IsServed (serve_all fetch fetch_forecast asks c)
  unfolding serve_all
  answers-IsServed [] c s timely = tt
  answers-IsServed ((call, ask) ∷ asks) c s timely =
      let (kept, served) = serve-IsServed c call ask s timely.0 in
      (served, answers-IsServed asks (serve fetch fetch_forecast c call ask).0 kept timely.1)

  -- Whatever is asked of the client, and in whatever order its calls are, an intensity or a forecast
  -- that it serves was an answer of the web service to a request made less than half an hour
  -- and five seconds before, and a forecast is the slice of that answer. The client starts
  -- empty, and the service answers within the timeout of the client.
  pub serve_all-IsServed :
      (asks : List (Call × Ask))
      → All (λ (a : Call × Ask). IsTimely a.0) asks
      → All IsServed
          (serve_all fetch fetch_forecast asks (record { cached = none; forecast_cached = none }))
  serve_all-IsServed asks timely = answers-IsServed asks _ (tt, tt) timely
