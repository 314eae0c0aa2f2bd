-- ===== src/Lwt.antt =====
-- The last-will messages of the plugs: api/mqtt/lwt.go, on the session table, with GetActiveByPlug of
-- api/repository/charge_session.go, and OnPlugOnline of api/services/plug_initializer.go. A power
-- controller, a notifier and an initializer are set; log lines are left out. Within one
-- OnPlugOnline the broker takes all commands or none. The timers of the Go runtime run apart from
-- the manager's map: one runs out as one step, and its function runs as a later one.
pub mod Debounce
pub mod Offline
pub mod Cooldown
use ev_charge_controller.Prelude.{
  ℕ, ◌+◌, ◌*◌, ◌/◌, ◌≡◌, ◌≤◌, Bool, true, false, not, ◌&&◌, Option, none, some, List, [], ◌∷◌, ◌++◌,
  ltb, ◌==◌, if◌then◌else◌,
}
use Prim.Native.String.{String}
use ev_charge_controller.Clock.{Time, second, minute, whole_seconds}
use ev_charge_controller.Hhmm.{Text, codes}
use ev_charge_controller.Float.{Float}
use ev_charge_controller.Models.{ChargeSession, Plug, PlugType, charging, maintenance}
use ev_charge_controller.Sessions.{World, sees, occupies, command}
use ev_charge_controller.Sessions.Lifecycle.{Environment}
use ev_charge_controller.Sessions.Cancel.{cancel_active_session}

-- lwtOfflineDebounce and lwtOfflineCooldown
abbrev pub lwt_offline_debounce : ℕ
lwt_offline_debounce = 60 * second

abbrev pub lwt_offline_cooldown : ℕ
lwt_offline_cooldown = 15 * minute

-- A timer of time.AfterFunc, with what its function captures.
pub record Timer : Type 0 where
  pub id : ℕ
  pub plug : ℕ
  pub due : Time
  pub retained : Bool

-- A Tasmota command with its value.
pub record Setting : Type 0 where
  pub name : Text
  pub value : Text

abbrev setting : String → String → Setting
setting name value = record { name = codes name; value = codes value }

abbrev pub ensure_commands : List Setting
ensure_commands =
    setting "SensorRetain" "1"
    ∷ setting "PowerRetain" "0"
    ∷ setting "StateRetain" "0"
    ∷ setting "StatusRetain" "0"
    ∷ setting "ButtonRetain" "0"
    ∷ setting "SwitchRetain" "0"
    ∷ setting "Status" "10"
    ∷ []

abbrev pub init_commands : List Setting
init_commands =
    setting "EnergyRes" "4"
    ∷ setting "AmpRes" "2"
    ∷ setting "TelePeriod" "10"
    ∷ setting "SaveState" "1"
    ∷ setting "SaveData" "1"
    ∷ setting "SetOption3" "1"
    ∷ setting "Restart" "1"
    ∷ []

abbrev pub for_plug : ℕ → List Setting → List (ℕ × Setting)
for_plug plug [] = []
for_plug plug (c ∷ cs) = (plug, c) ∷ for_plug plug cs

-- The manager's map of timers, the number of timers made, those that are running and those that have run
-- out while their function waits, the columns of the plugs table that are written here, the database,
-- the settings published to plugs, the oldest first, and the notifications sent, the newest first.
pub record LwtManager (A : Type 0) : Type 0 where
  pub timers : ℕ → Option Timer
  pub made : ℕ
  pub running : List Timer
  pub expired : List Timer
  pub online : ℕ → Bool
  pub last_offline_notified_at : ℕ → Option Time
  pub initialized : ℕ → Bool
  pub world : World A
  pub settings : List (ℕ × Setting)
  pub sent : List (ℕ × Time)

-- CURRENT_TIMESTAMP of SQLite, which is in whole seconds.
abbrev pub current_timestamp : Time → Time
current_timestamp now = whole_seconds now

-- Stop of a timer that is still running; one that has run out is not affected.
abbrev pub without : ℕ → List Timer → List Timer
without id [] = []
without id (t ∷ ts) = if t.id == id then without id ts else t ∷ without id ts

abbrev pub stop_found : Option Timer → List Timer → List Timer
stop_found none ts = ts
stop_found (some t) ts = without t.id ts

abbrev pub is_timer : Option Timer → Timer → Bool
is_timer none t = false
is_timer (some x) t = x.id == t.id

-- Stop of every timer in the map.
abbrev pub stop_all : (ℕ → Option Timer) → List Timer → List Timer
stop_all timers [] = []
stop_all timers (t ∷ ts) =
    if is_timer (timers t.plug) t then stop_all timers ts else t ∷ stop_all timers ts

-- A map with one key changed.
abbrev pub set_at : {B : Type 0} → (ℕ → B) → ℕ → B → ℕ → B
set_at f key b n = if n == key then b else f n

module _ {A : Type 0} where
  abbrev pub newer : ChargeSession A → Option (ChargeSession A) → Option (ChargeSession A)
  newer s none = some s
  newer s (some x) = if ltb s.created_at x.created_at then some x else some s

  -- ORDER BY created_at DESC LIMIT 1
  unfoldable pub newest_where :
      (ChargeSession A → Bool) → List (ChargeSession A) → Option (ChargeSession A)
  newest_where p [] = none
  newest_where p (s ∷ ss) = if p s then newer s (newest_where p ss) else newest_where p ss

  unfoldable pub get_active_by_plug : Option ℕ → World A → ℕ → Option (ChargeSession A)
  unfolding newest_where
  get_active_by_plug user w plug =
      newest_where (λ s. occupies plug s && sees user s.user_id) w.sessions

abbrev pub is_charging_plug : Option Plug → Bool
is_charging_plug none = false
is_charging_plug (some p) = is_charging_type p.plug_type
  where
    is_charging_type : PlugType → Bool
    is_charging_type charging = true
    is_charging_type maintenance = false

abbrev pub is_maintenance_plug : Plug → Bool
is_maintenance_plug p = not (is_charging_plug (some p))

module _ {A : Type 0} ⦃F : Float A⦄ (env : Environment A) where
  abbrev pub off_if_free : World A → ℕ → Option (ChargeSession A) → World A
  off_if_free w plug none = command plug false w
  off_if_free w plug (some _) = w

  unfoldable pub reconcile_relay : World A → ℕ → World A
  reconcile_relay w plug =
      if is_charging_plug (env.find_plug plug)
      then off_if_free w plug (get_active_by_plug env.user w plug)
      else w

  -- The commands of the first time, and SetInitialized.
  abbrev pub initialize : LwtManager A → Plug → LwtManager A
  initialize m p = record m {
    settings = m.settings ++ for_plug p.id init_commands;
    world = if is_maintenance_plug p then command p.id true m.world else m.world;
    initialized = set_at m.initialized p.id true;
  }

  abbrev pub configure : LwtManager A → Option Plug → LwtManager A
  configure m none = m
  configure m (some p) =
      let ensured : LwtManager A = record m {
        settings = m.settings ++ for_plug p.id ensure_commands;
      } in
      if not (env.publishes p.id)
      then m
      else if m.initialized p.id
      then ensured
      else initialize ensured p

  unfoldable pub on_plug_online : LwtManager A → ℕ → LwtManager A
  on_plug_online m plug = configure m (env.find_plug plug)

  abbrev pub mark_online : LwtManager A → ℕ → LwtManager A
  mark_online m plug = record m {
    timers = set_at m.timers plug none;
    running = stop_found (m.timers plug) m.running;
    online = set_at m.online plug true;
  }

  unfoldable pub handle_online : LwtManager A → ℕ → LwtManager A
  handle_online m plug =
      let configured = on_plug_online (mark_online m plug) plug in
      record configured { world = reconcile_relay configured.world plug }

  abbrev pub new_timer : ℕ → ℕ → Bool → Timer
  new_timer id plug retained = record {
    id = id;
    plug = plug;
    due = env.now + lwt_offline_debounce;
    retained = retained;
  }

  abbrev pub start_timer : LwtManager A → ℕ → Bool → Option Timer → LwtManager A
  start_timer m plug retained (some _) = m
  start_timer m plug retained none =
      let t = new_timer m.made plug retained in
      record m {
        timers = set_at m.timers plug (some t);
        made = m.made + 1;
        running = t ∷ m.running;
      }

  unfoldable pub handle_offline : LwtManager A → ℕ → Bool → LwtManager A
  handle_offline m plug retained = start_timer m plug retained (m.timers plug)

  abbrev pub cancel_found : World A → Option (ChargeSession A) → World A
  cancel_found w none = w
  cancel_found w (some s) = (cancel_active_session env w s).0

  abbrev pub in_cooldown : Option Time → Bool
  in_cooldown none = false
  in_cooldown (some t) = ltb env.now (t + lwt_offline_cooldown)

  abbrev pub notify : LwtManager A → ℕ → Option Plug → LwtManager A
  notify m plug none = m
  notify m plug (some _) = if in_cooldown (m.last_offline_notified_at plug) then m else record m {
    last_offline_notified_at =
        set_at m.last_offline_notified_at plug (some (current_timestamp env.now));
    sent = (plug, env.now) ∷ m.sent;
  }

  -- confirmOffline up to the notification.
  unfoldable pub take_offline : LwtManager A → ℕ → LwtManager A
  take_offline m plug = record m {
    timers = set_at m.timers plug none;
    online = set_at m.online plug false;
    world = cancel_found m.world (get_active_by_plug env.user m.world plug);
  }

  unfoldable pub confirm_offline : LwtManager A → ℕ → Bool → LwtManager A
  confirm_offline m plug retained =
      let off = take_offline m plug in
      if retained then off else notify off plug (env.find_plug plug)

module _ {A : Type 0} where
  unfoldable pub cancel_all : LwtManager A → LwtManager A
  cancel_all m = record m { timers = λ plug. none; running = stop_all m.timers m.running }

-- What happens to a plug.
pub data LwtEvent : Type 0 where
  online_received offline_received timer_expired offline_confirmed : ℕ → LwtEvent
  stopped : LwtEvent

module _ {A : Type 0} ⦃F : Float A⦄ where
  -- The manager after the events of the list, the newest first, each with its instant. Between two
  -- events the session table may change in any way.
  pub data LwtRun : List (Time × LwtEvent) → LwtManager A → Type 0 where
    initial :
        (m : LwtManager A)
        → ((plug : ℕ) → m.timers plug ≡ none)
        → m.running ≡ []
        → m.expired ≡ []
        → m.sent ≡ []
        → LwtRun [] m
    elsewhere :
        {h : List (Time × LwtEvent)} {m : LwtManager A} (w : World A)
        → LwtRun h m
        → LwtRun h (record m { world = w })
    receive_online :
        {h : List (Time × LwtEvent)} {m : LwtManager A} (env : Environment A) (plug : ℕ)
        → LwtRun h m
        → LwtRun ((env.now, online_received plug) ∷ h) (handle_online env m plug)
    receive_offline :
        {h : List (Time × LwtEvent)} {m : LwtManager A} (env : Environment A) (plug : ℕ)
        (retained : Bool)
        → LwtRun h m
        → LwtRun ((env.now, offline_received plug) ∷ h) (handle_offline env m plug retained)
    expire :
        {h : List (Time × LwtEvent)} {m : LwtManager A} (now : Time) (t : Timer)
        (before after : List Timer)
        → m.running ≡ before ++ (t ∷ after)
        → t.due ≤ now
        → LwtRun h m
        → LwtRun
            ((now, timer_expired t.plug) ∷ h)
            (record m { running = before ++ after; expired = t ∷ m.expired })
    confirm :
        {h : List (Time × LwtEvent)} {m : LwtManager A} (env : Environment A) (t : Timer)
        (before after : List Timer)
        → m.expired ≡ before ++ (t ∷ after)
        → LwtRun h m
        → LwtRun
            ((env.now, offline_confirmed t.plug) ∷ h)
            (confirm_offline env (record m { expired = before ++ after }) t.plug t.retained)
    shut_down :
        {h : List (Time × LwtEvent)} {m : LwtManager A} (now : Time)
        → LwtRun h m
        → LwtRun ((now, stopped) ∷ h) (cancel_all m)
