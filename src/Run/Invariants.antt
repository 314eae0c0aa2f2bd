-- ===== src/Run/Invariants.antt =====
-- About the states that the server reaches.
use ev_charge_controller.Prelude.{
  ℕ, ◌≡◌, refl, ap, Bool, true, false, Option, none, some, List, [], ◌∷◌, All, arith, if_either,
  ◌==◌, Bool-cases, inl, inr,
}
use ev_charge_controller.Float.{Float}
use ev_charge_controller.Models.{is_active_status, ChargeSession, Vehicle, EnergyData}
use ev_charge_controller.Sessions.{World, is_some_of, by_id, create, cancel_pending, command}
use ev_charge_controller.Sessions.Counting.{count_active}
use ev_charge_controller.Sessions.Lifecycle.{
  Environment, StartError, StartOutcome, TwoStage, new_session, backfill, confirm_power, start_new,
  start_checked, start_session, busy, or_else, resolve_plug, capture_energy_baseline,
}
use ev_charge_controller.Sessions.Unique.{IsUnique, start_session-IsUnique}
use ev_charge_controller.Sessions.Measure.{
  Tag, count_in, Fewer, Fewer-trans, Fewer-same, activate_pending-Fewer, cancel_pending-Fewer,
  update_start_total_kwh-Fewer,
}
use ev_charge_controller.Run.{
  Change, activating, cancelling, expiring, stopping, stopping_by_id, disconnecting, retargeting,
  deleting, checking_target, checking_taper, checking_idle, checking_hold, Step, starting, changing,
  Reach, here, next,
}
use ev_charge_controller.Run.Fewer.{
  activate-Fewer, expire-Fewer, cancel_active_session-Fewer, stop-Fewer, stop_by_id-Fewer,
  delete_session-Fewer, retarget-Fewer,
}
use ev_charge_controller.Run.Checks.{
  auto_stop-Fewer, stop_conditioning-Fewer, stop_idle-Fewer, resume_if_due-Fewer,
}

-- The tags of the sessions on a plug, and of a session.
abbrev on_plug : ℕ → Tag
on_plug plug id p = is_some_of p plug

abbrev with_id : ℕ → Tag
with_id id n p = n == id

module _ {A : Type 0} where
  count_active-on_plug :
      (plug : ℕ) (ss : List (ChargeSession A)) → count_active plug ss ≡ count_in (on_plug plug) ss
  unfolding count_active count_in
  count_active-on_plug plug [] = refl
  count_active-on_plug plug (s ∷ ss) = ground (arith, count_active-on_plug plug ss)

  -- No session of this identifier is in progress.
  abbrev pub IsOver : ℕ → World A → Type 0
  IsOver id w = All (λ s. by_id id s ≡ true → is_active_status s.status ≡ false) w.sessions

  IsOver-count :
      (id : ℕ) (ss : List (ChargeSession A))
      → All (λ s. by_id id s ≡ true → is_active_status s.status ≡ false) ss
      → count_in (with_id id) ss ≡ 0
  unfolding count_in
  IsOver-count id [] h = refl
  IsOver-count id (s ∷ ss) h = ground (arith, h.0, IsOver-count id ss h.1)

  count-IsOver :
      (id : ℕ) (ss : List (ChargeSession A))
      → count_in (with_id id) ss ≡ 0
      → All (λ s. by_id id s ≡ true → is_active_status s.status ≡ false) ss
  unfolding count_in
  count-IsOver id [] h = tt
  count-IsOver id (s ∷ ss) h = (λ e. ground (arith, h), count-IsOver id ss (ground (arith, h)))

module _ {A : Type 0} ⦃F : Float A⦄ (tag : Tag) where
  Change-Fewer : {w w2 : World A} → Change w w2 → Fewer tag w w2
  Change-Fewer (activating env w id) = activate-Fewer tag env w id
  Change-Fewer (cancelling env w id) = cancel_pending-Fewer tag w id env.now
  Change-Fewer (expiring env w timeout) = expire-Fewer tag env w timeout
  Change-Fewer (stopping env fig w s current) = stop-Fewer tag env w fig s current
  Change-Fewer (stopping_by_id env fig w id percent) = stop_by_id-Fewer tag env w fig id percent
  Change-Fewer (disconnecting env w s) = cancel_active_session-Fewer tag env w s
  Change-Fewer (retargeting env w id percent) = retarget-Fewer tag env w id percent
  Change-Fewer (deleting env w id) = delete_session-Fewer tag env w id
  Change-Fewer (checking_target env fig w s single below) =
      auto_stop-Fewer tag env fig w s single below
  Change-Fewer (checking_taper env fig w s) = stop_conditioning-Fewer tag env w fig s
  Change-Fewer (checking_idle env fig w s) = stop_idle-Fewer tag env w fig s
  Change-Fewer (checking_hold env plan w s) = resume_if_due-Fewer tag env w plan s

module _ {A : Type 0} ⦃F : Float A⦄ (tag : Tag) (env : Environment A) where
  backfill-Fewer :
      (w : World A) (id : ℕ) (t : Option A) (e : Option (EnergyData A))
      → Fewer tag w (backfill w id t e)
  backfill-Fewer w id none none = Fewer-same tag w w w refl
  backfill-Fewer w id none (some e) = update_start_total_kwh-Fewer tag w id e.total
  backfill-Fewer w id (some t) e = Fewer-same tag w w w refl

  confirm-Fewer :
      (w : World A) (s : ChargeSession A) (plug : ℕ) → Fewer tag w (confirm_power env w s plug).0
  unfolding confirm_power
  confirm-Fewer w s plug =
      let on : World A = command plug true w in
      let filled = backfill on s.id s.start_total_kwh (env.last_energy plug) in
      let off : World A × Bool = cancel_pending on s.id env.now in
      let same : Fewer tag w on = Fewer-same tag w on w refl in
      if_either (λ (r : World A × StartOutcome). Fewer tag w r.0) _
        (Fewer-trans tag w on _ same (
          Fewer-trans tag on filled _
            (backfill-Fewer on s.id s.start_total_kwh (env.last_energy plug))
            (activate_pending-Fewer tag filled s.id env.now)))
        (Fewer-trans tag w on _ same (
          Fewer-trans tag on off.0 _ (cancel_pending-Fewer tag on s.id env.now)
            (Fewer-same tag off.0 _ w refl)))

  module _ (w : World A) (untagged : (p : Option ℕ) → tag env.new_id p ≡ false) where
    create-Fewer :
        (v : Vehicle A) (user plug : ℕ) (from to : A) (stages : TwoStage A) (total : Option A)
        → Fewer tag w (create w (new_session env v user plug from to stages total))
    unfolding create count_in
    create-Fewer v user plug from to stages total = record {
      le = ground (arith, untagged (some plug));
    }

    start_new-Fewer :
        (v : Vehicle A) (from to : A) (stages : TwoStage A) (total : Option A)
        (user plug : Option ℕ)
        → Fewer tag w (start_new env w v from to stages total user plug).0
    start_new-Fewer v from to stages total none plug = Fewer-same tag w w w refl
    start_new-Fewer v from to stages total (some user) none = Fewer-same tag w w w refl
    start_new-Fewer v from to stages total (some user) (some plug) =
        let s = new_session env v user plug from to stages total in
        Fewer-trans tag w (create w s) _ (create-Fewer v user plug from to stages total)
          (confirm-Fewer (create w s) s plug)

    start_checked-Fewer :
        (plug : ℕ) (from to : A) (stages : TwoStage A) (e : Option StartError)
        (v : Option (Vehicle A))
        → Fewer tag w (start_checked env w plug from to stages e v).0
    start_checked-Fewer plug from to stages (some e) v = Fewer-same tag w w w refl
    start_checked-Fewer plug from to stages none none = Fewer-same tag w w w refl
    start_checked-Fewer plug from to stages none (some v) =
        let user = or_else env.user v.user_id in
        if_either (λ (r : World A × StartOutcome). Fewer tag w r.0) (busy env w plug)
          (Fewer-same tag w w w refl)
          (start_new-Fewer v from to stages (capture_energy_baseline env plug) user
            (resolve_plug env plug user))

    start_session-Fewer :
        (plug vehicle : ℕ) (from to : A) (stages : TwoStage A)
        → Fewer tag w (start_session env w plug vehicle from to stages).0
    unfolding start_session
    start_session-Fewer plug vehicle from to stages = start_checked-Fewer plug from to stages _ _

fresh : (used : ℕ → Bool) (id new : ℕ) → used id ≡ true → used new ≡ false → (new == id) ≡ false
fresh used id new known free = elim (Bool-cases (new == id)) [
  | inl same ↦ let e : new ≡ id = ground arith in absurd (cc (ap used e, known, free))
  | inr other ↦ other
]

module _ {A : Type 0} ⦃F : Float A⦄ (used : ℕ → Bool) where
  Step-over : {w w2 : World A} (id : ℕ) → used id ≡ true → Step used w w2 → Fewer (with_id id) w w2
  Step-over id known (starting env w plug vehicle from to stages new given visible) =
      start_session-Fewer (with_id id) env w (λ p. fresh used id env.new_id known new) plug vehicle
        from to stages
  Step-over id known (changing c) = Change-Fewer (with_id id) c

  Reach-Fewer :
      {w w2 : World A} (id : ℕ) → used id ≡ true → Reach used w w2 → Fewer (with_id id) w w2
  Reach-Fewer {w} id known here = Fewer-same (with_id id) w w w refl
  Reach-Fewer {w} id known (next r s) =
      Fewer-trans (with_id id) w _ _ (Reach-Fewer id known r) (Step-over id known s)

  -- A session that is over is never in progress again, whatever operations of Step follow, in any order,
  -- even if they work on what was read of it while it was in progress, provided that no new
  -- session gets its identifier, and that a start is for a plug and by a user who sees the
  -- sessions in progress on it. Target checks of sessions with a hold point or a target of 100%, which
  -- can bring a session back, are not among these operations.
  pub Reach-IsOver :
      {w w2 : World A} (id : ℕ) → used id ≡ true → Reach used w w2 → IsOver id w → IsOver id w2
  Reach-IsOver {w} {w2} id known r over =
      count-IsOver id w2.sessions
        (omega (arith, (Reach-Fewer id known r).le, IsOver-count id w.sessions over))

  Step-IsUnique : {w w2 : World A} → Step used w w2 → IsUnique w → IsUnique w2
  Step-IsUnique (starting env w plug vehicle from to stages new given visible) u =
      start_session-IsUnique env w plug vehicle from to stages given visible u
  Step-IsUnique {w} {w2} (changing c) u = λ plug. ground (
    arith,
    u plug,
    (Change-Fewer (on_plug plug) c).le,
    count_active-on_plug plug w.sessions,
    count_active-on_plug plug w2.sessions,
  )

  -- However the operations of Step follow each other, also with sessions that were read before, every
  -- plug keeps at most one session in progress, if it had at most one at first. A start must be for
  -- a plug, by a user who sees the sessions in progress on it, and get an identifier that was not used
  -- before. Target checks of sessions with a hold point or a target of 100%, which can bring a
  -- session back, are not among these operations.
  pub Reach-IsUnique : {w w2 : World A} → Reach used w w2 → IsUnique w → IsUnique w2
  Reach-IsUnique here u = u
  Reach-IsUnique (next r s) u = Step-IsUnique s (Reach-IsUnique r u)
