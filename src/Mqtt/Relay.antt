-- ===== src/Mqtt/Relay.antt =====
-- The relay states and power confirmers of the dispatcher (api/mqtt/dispatcher.go), and the wait of
-- SetPowerAndWait (api/mqtt/publisher.go). A manual power handler is set; the copy of the state in
-- the database is left out, and the read of the last state, the write of the new one and the removal
-- of the confirmer are one step. A channel is the number that its confirmer was given, and what was
-- sent to it is among the signals. The message loop that dispatches a report and the publisher
-- that reads its channel are separate steps, in any order.
pub mod Channels
pub mod Waiting
use ev_charge_controller.Prelude.{
  ℕ, ◌+◌, Bool, true, false, not, ◌&&◌, Option, none, some, List, [], ◌∷◌, ◌==◌, if◌then◌else◌,
}
use ev_charge_controller.Lwt.{set_at}

pub record Dispatcher : Type 0 where
  pub last_power_states : ℕ → Option Bool
  pub confirmers : ℕ → Option ℕ
  pub next_channel : ℕ
  -- what the channels were sent, and the calls of the manual power handler, the newest first
  pub signals : List (ℕ × Bool)
  pub external : List (ℕ × Bool)

unfoldable pub register_power_confirm : Dispatcher → ℕ → Dispatcher
register_power_confirm d plug = record d {
  confirmers = set_at d.confirmers plug (some d.next_channel);
  next_channel = d.next_channel + 1;
}

unfoldable pub remove_power_confirm : Dispatcher → ℕ → Dispatcher
remove_power_confirm d plug = record d { confirmers = set_at d.confirmers plug none }

unfoldable pub cache_power_state : Dispatcher → ℕ → Bool → Dispatcher
cache_power_state d plug on = record d {
  last_power_states = set_at d.last_power_states plug (some on);
}

abbrev pub bool_eq : Bool → Bool → Bool
bool_eq true b = b
bool_eq false b = not b

abbrev pub is_change : Option Bool → Bool → Bool
is_change none on = false
is_change (some before) on = not (bool_eq before on)

abbrev pub confirm : Dispatcher → ℕ → Bool → Bool → Option Bool → Option ℕ → Dispatcher
confirm d plug on retained before (some channel) = record d {
  confirmers = set_at d.confirmers plug none;
  signals = (channel, on) ∷ d.signals;
}
confirm d plug on retained before none =
    if not retained && is_change before on
    then record d { external = (plug, on) ∷ d.external }
    else d

-- dispatchSTAT_POWER, behind the parsing of the payload and the lookup of the plug.
unfoldable pub dispatch_stat_power : Dispatcher → ℕ → Bool → Bool → Dispatcher
unfolding cache_power_state
dispatch_stat_power d plug on retained =
    confirm (cache_power_state d plug on) plug on retained (d.last_power_states plug)
      (d.confirmers plug)

-- The steps during a wait: the message loop dispatches a stat/POWER message, the publisher runs and
-- looks at its channel, its timer fires, or its context ends.
pub data WaitEvent : Type 0 where
  report : ℕ → Bool → Bool → WaitEvent
  woken deadline context_done : WaitEvent

pub data WaitResult : Type 0 where
  confirmed timed_out cancelled still_waiting : WaitResult

-- What a channel was sent; its confirmer sends once.
unfoldable pub received : ℕ → List (ℕ × Bool) → Option Bool
received channel [] = none
received channel ((c, on) ∷ ss) = if c == channel then some on else received channel ss

-- The receiving case of the select: nothing to read, the commanded state, or the opposite one.
abbrev pub read_channel :
    Dispatcher
    → ℕ
    → Bool
    → Dispatcher × WaitResult
    → Dispatcher × WaitResult
    → Option Bool
    → Dispatcher × WaitResult
read_channel d plug on blocked again none = blocked
read_channel d plug on blocked again (some reported) =
    if bool_eq reported on then (remove_power_confirm d plug, confirmed) else again

-- The loop of SetPowerAndWait on its channel, with RemovePowerConfirm at its ends.
unfoldable pub wait : Dispatcher → ℕ → Bool → ℕ → List WaitEvent → Dispatcher × WaitResult
unfolding received
wait d plug on channel [] = (d, still_waiting)
wait d plug on channel (deadline ∷ es) = (remove_power_confirm d plug, timed_out)
wait d plug on channel (context_done ∷ es) = (remove_power_confirm d plug, cancelled)
wait d plug on channel (report p state retained ∷ es) =
    wait (dispatch_stat_power d p state retained) plug on channel es
wait d plug on channel (woken ∷ es) =
    let blocked = wait d plug on channel es in
    let again = wait (register_power_confirm d plug) plug on d.next_channel es in
    read_channel d plug on blocked again (received channel d.signals)

-- SetPowerAndWait, behind the publication of the command.
unfoldable pub set_power_and_wait : Dispatcher → ℕ → Bool → List WaitEvent → Dispatcher × WaitResult
unfolding wait
set_power_and_wait d plug on es = wait (register_power_confirm d plug) plug on d.next_channel es
