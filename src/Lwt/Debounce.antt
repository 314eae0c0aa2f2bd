-- ===== src/Lwt/Debounce.antt =====
-- About the debounce of a plug that announces Offline.
use ev_charge_controller.Prelude.{
  ℕ, ◌+◌, ◌≤◌, ◌≡◌, ◌⊎◌, Bool, true, false, Option, some, List, ◌∷◌, All, ◌==◌,
}
use ev_charge_controller.Clock.{Time}
use ev_charge_controller.Float.{Float}
use ev_charge_controller.Lwt.{
  lwt_offline_debounce, Timer, LwtManager, LwtEvent, online_received, offline_received,
  timer_expired, offline_confirmed, stopped,
}

abbrev pub History : Type 0
History = List (Time × LwtEvent)

-- After the event, the manager no longer holds the timer of an earlier Offline of the plug.
abbrev pub ends_offline : ℕ → LwtEvent → Bool
ends_offline plug (online_received p) = plug == p
ends_offline plug (offline_received p) = false
ends_offline plug (timer_expired p) = false
ends_offline plug (offline_confirmed p) = plug == p
ends_offline plug stopped = true

-- The plug announced Offline at the instant, and nothing after that has ended it.
pub data OfflineSince (plug : ℕ) (at : Time) : History → Type 0 where
  announced : (h : History) → OfflineSince plug at ((at, offline_received plug) ∷ h)
  later :
      {h : History} (now : Time) (e : LwtEvent)
      → ends_offline plug e ≡ false
      → OfflineSince plug at h
      → OfflineSince plug at ((now, e) ∷ h)

-- The first event to end it was a confirmation for the plug, at which the manager forgot the timer.
pub data Forgotten (plug : ℕ) (at : Time) : History → Type 0 where
  by_confirmation :
      {h : History} (now : Time)
      → OfflineSince plug at h
      → Forgotten plug at ((now, offline_confirmed plug) ∷ h)
  since : {h : History} (e : Time × LwtEvent) → Forgotten plug at h → Forgotten plug at (e ∷ h)

-- Nothing has ended the Offline but, at most, a confirmation for the plug first of all.
abbrev pub Unanswered : ℕ → Time → History → Type 0
Unanswered plug at h = OfflineSince plug at h ⊎ Forgotten plug at h

-- The timer of an Offline that was unanswered until then ran out at the instant `out`.
pub data RanOut (plug : ℕ) (at out : Time) : History → Type 0 where
  unanswered :
      {h : History} → Unanswered plug at h → RanOut plug at out ((out, timer_expired plug) ∷ h)
  after : {h : History} (e : Time × LwtEvent) → RanOut plug at out h → RanOut plug at out (e ∷ h)

-- A timer of an Offline at an instant the debounce before; it is in the map as long as nothing has ended
-- the Offline.
abbrev IsRunning : (ℕ → Option Timer) → History → Timer → Type 0
IsRunning timers h t =
    (at : Time) × (t.due ≡ at + lwt_offline_debounce)
    × (((timers t.plug ≡ some t) × OfflineSince t.plug at h) ⊎ Forgotten t.plug at h)

abbrev IsExpired : History → Timer → Type 0
IsExpired h t =
    (at : Time) × (out : Time) × (at + lwt_offline_debounce ≤ out) × RanOut t.plug at out h

module _ {A : Type 0} ⦃F : Float A⦄ where
  -- What the manager's steps keep.
  record IsAccounted (h : History) (m : LwtManager A) : Type 0 where
    pub running : All (IsRunning m.timers h) m.running
    pub expired : All (IsExpired h) m.expired

  -- Two managers with the same timers.
  pub record SameTimers (m m2 : LwtManager A) : Type 0 where
    pub timers : m2.timers ≡ m.timers
    pub running : m2.running ≡ m.running
    pub expired : m2.expired ≡ m.expired
