-- ===== src/Mqtt/Relay/Waiting.antt =====
-- About the end of a wait for a power confirmation.
use ev_charge_controller.Prelude.{
  ℕ, ◌≡◌, ◌⊎◌, sym, ap, ◌∙◌, Bool, true, false, ◌&&◌, ◌||◌, some, List, [], ◌∷◌, arith, inl, inr,
  ◌==◌,
}
use ev_charge_controller.Mqtt.Relay.{
  Dispatcher, register_power_confirm, bool_eq, dispatch_stat_power, WaitEvent, report, woken,
  deadline, context_done, WaitResult, confirmed, timed_out, cancelled, still_waiting, received,
  wait, set_power_and_wait,
}
use ev_charge_controller.Mqtt.Relay.Channels.{
  IsFresh, IsOwn, received-unsent, dispatch-IsFresh, register-IsFresh, register-IsOwn,
  register-signals, read-confirmed, dispatch-IsOwn, dispatch-received,
}

-- The plug reports the state before the timer fires or the context ends.
unfoldable pub is_reported : ℕ → Bool → List WaitEvent → Bool
is_reported plug on [] = false
is_reported plug on (deadline ∷ es) = false
is_reported plug on (context_done ∷ es) = false
is_reported plug on (woken ∷ es) = is_reported plug on es
is_reported plug on (report p state retained ∷ es) =
    (p == plug && bool_eq state on) || is_reported plug on es

-- What a confirmed wait on a channel shows, of the channel or of the reports still to come.
abbrev IsGrounded : ℕ → Bool → ℕ → List WaitEvent → Dispatcher → Type 0
IsGrounded plug on channel es d =
    (received channel d.signals ≡ some on) ⊎ (is_reported plug on es ≡ true)

-- Nothing was sent to a channel that has just been registered.
registered-grounded :
    (d : Dispatcher) (plug : ℕ) (on : Bool) (es : List WaitEvent)
    → IsFresh d
    → IsGrounded plug on d.next_channel es (register_power_confirm d plug)
    → is_reported plug on es ≡ true
registered-grounded d plug on es fresh (inl sent) =
    let nothing = received-unsent d.next_channel d.signals fresh.sent in
    let told = sym nothing ∙ ap (received d.next_channel) (sym (register-signals d plug)) ∙ sent in
    absurd (cc told)
registered-grounded d plug on es fresh (inr told) = told

wait-confirmed :
    (es : List WaitEvent) (d : Dispatcher) (plug : ℕ) (on : Bool) (channel : ℕ)
    → IsFresh d
    → IsOwn plug channel d
    → (wait d plug on channel es).1 ≡ confirmed
    → IsGrounded plug on channel es d
unfolding wait is_reported
wait-confirmed [] d plug on channel fresh own h =
    let q : Path WaitResult still_waiting confirmed = h in absurd (cc q)
wait-confirmed (deadline ∷ es) d plug on channel fresh own h =
    let q : Path WaitResult timed_out confirmed = h in absurd (cc q)
wait-confirmed (context_done ∷ es) d plug on channel fresh own h =
    let q : Path WaitResult cancelled confirmed = h in absurd (cc q)
wait-confirmed (report p state retained ∷ es) d plug on channel fresh own h =
    let d2 = dispatch_stat_power d p state retained in
    elim (wait-confirmed es d2 plug on channel (dispatch-IsFresh d p state retained fresh)
      (dispatch-IsOwn d plug channel p state retained own) h) [
        | inl sent ↦ elim (dispatch-received d plug channel p state retained on own sent) [
          | inl before ↦ inl before
          | inr now ↦ inr (ground (arith, now))
        ]
        | inr told ↦ inr (ground (arith, told))
      ]
wait-confirmed (woken ∷ es) d plug on channel fresh own h =
    elim (read-confirmed d plug on (wait d plug on channel es)
      (wait (register_power_confirm d plug) plug on d.next_channel es) (received channel d.signals)
      h) [
        | inl blocked ↦ wait-confirmed es d plug on channel fresh own blocked
        | inr read ↦ elim read [
          | inl sent ↦ inl sent
          | inr again ↦ inr (
              registered-grounded d plug on es fresh (
                wait-confirmed es (register_power_confirm d plug) plug on d.next_channel
                  (register-IsFresh d plug fresh) (register-IsOwn d plug fresh) again))
        ]
      ]

-- SetPowerAndWait returns true only if the plug has reported the commanded state during the wait, before
-- the timeout and the end of the context; a report of the other state, of another plug, or from
-- before does not confirm. The channels that are in use or were sent to must have been given out.
pub set_power_and_wait-reported :
    (d : Dispatcher) (plug : ℕ) (on : Bool) (es : List WaitEvent)
    → IsFresh d
    → (set_power_and_wait d plug on es).1 ≡ confirmed
    → is_reported plug on es ≡ true
unfolding set_power_and_wait
set_power_and_wait-reported d plug on es fresh h = registered-grounded d plug on es fresh (
    wait-confirmed es (register_power_confirm d plug) plug on d.next_channel
      (register-IsFresh d plug fresh) (register-IsOwn d plug fresh) h)

-- Reports of other plugs.
abbrev pub IsElsewhere : ℕ → ℕ × Bool × Bool → Type 0
IsElsewhere plug (p, state, retained) = (p == plug) ≡ false

abbrev pub reports : List (ℕ × Bool × Bool) → List WaitEvent → List WaitEvent
reports [] es = es
reports ((p, state, retained) ∷ rs) es = report p state retained ∷ reports rs es
