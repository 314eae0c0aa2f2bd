-- ===== src/Lwt/Cooldown.antt =====
-- About the distance of the notifications that a plug is unavailable.
use ev_charge_controller.Prelude.{
  ℕ, ◌+◌, ◌<◌, ◌≡◌, refl, sym, ap, ◌∙◌, subst, Bool, true, false, Option, none, some, List, [], ◌∷◌,
  ◌++◌, All, arith, Bool-cases, inl, inr, ◌==◌, if_cases,
}
use ev_charge_controller.Clock.{Time, second}
use ev_charge_controller.Float.{Float}
use ev_charge_controller.Models.{Plug}
use ev_charge_controller.Sessions.Lifecycle.{Environment}
use ev_charge_controller.Lwt.{
  lwt_offline_cooldown, current_timestamp, LwtManager, set_at, Timer, start_timer, notify,
  take_offline, confirm_offline, in_cooldown, handle_online, handle_offline, cancel_all, LwtEvent,
  LwtRun, initial, elsewhere, receive_online, receive_offline, expire, confirm, shut_down,
  configure, mark_online, on_plug_online,
}

-- Two notifications of the same plug are the cooldown apart, but for less than a second.
abbrev pub AreSpaced : List (ℕ × Time) → Type 0
AreSpaced [] = Unit
AreSpaced ((p, t) ∷ rest) =
    All (λ (e : ℕ × Time). e.0 ≡ p → e.1 + lwt_offline_cooldown < t + second) rest × AreSpaced rest

-- Every notification is on record: the plug has a later one, to the second.
abbrev IsRecorded : (ℕ → Option Time) → ℕ × Time → Type 0
IsRecorded last (p, t) = (u : Time) × (last p ≡ some u) × (t < u + second)

module _ {A : Type 0} ⦃F : Float A⦄ where
  -- What the manager's steps keep.
  pub record IsKept (m : LwtManager A) : Type 0 where
    pub spaced : AreSpaced m.sent
    pub recorded : All (IsRecorded m.last_offline_notified_at) m.sent

  same_record :
      (m m2 : LwtManager A)
      → m2.sent ≡ m.sent
      → m2.last_offline_notified_at ≡ m.last_offline_notified_at
      → IsKept m
      → IsKept m2
  same_record m m2 e f k = record {
    spaced = subst AreSpaced (sym e) k.spaced;
    recorded =
        subst (λ last. All (IsRecorded last) m2.sent) (sym f)
          (subst (All (IsRecorded m.last_offline_notified_at)) (sym e) k.recorded);
  }

  out_of_cooldown :
      (env : Environment A) (last : ℕ → Option Time) (plug p : ℕ) (t u : Time)
      → in_cooldown env (last plug) ≡ false
      → last p ≡ some u
      → t < u + second
      → p ≡ plug
      → t + lwt_offline_cooldown < env.now + second
  out_of_cooldown env last plug p t u free e le q =
      let out : in_cooldown env (some u) ≡ false =
        ap (in_cooldown env) (sym e ∙ ap last q) ∙ free in
      ground (arith, out, le)

  head-IsRecorded :
      (env : Environment A) (last : ℕ → Option Time) (plug p : ℕ) (t u : Time)
      → in_cooldown env (last plug) ≡ false
      → last p ≡ some u
      → t < u + second
      → IsRecorded (set_at last plug (some (current_timestamp env.now))) (p, t)
  head-IsRecorded env last plug p t u free e le = elim (Bool-cases (p == plug)) [
    | inl same ↦
        let q : p ≡ plug = ground arith in
        let gap = out_of_cooldown env last plug p t u free e le q in
        (current_timestamp env.now, ground arith, omega (arith, gap))
    | inr other ↦ (u, ground (arith, e, other), le)
  ]

  -- The entries of another notification, where the plug's last one is out of its cooldown.
  still-IsRecorded :
      (env : Environment A) (last : ℕ → Option Time) (plug : ℕ) (entries : List (ℕ × Time))
      → in_cooldown env (last plug) ≡ false
      → All (IsRecorded last) entries
      → All (λ (e : ℕ × Time). e.0 ≡ plug → e.1 + lwt_offline_cooldown < env.now + second) entries
        × All (IsRecorded (set_at last plug (some (current_timestamp env.now)))) entries
  still-IsRecorded env last plug [] free k = (tt, tt)
  still-IsRecorded env last plug ((p, t) ∷ rest) free ((u, e, le), k) =
      let (spaced, recorded) = still-IsRecorded env last plug rest free k in
      (
        (λ q. out_of_cooldown env last plug p t u free e le q, spaced),
        (head-IsRecorded env last plug p t u free e le, recorded),
      )

  notify-IsKept :
      (env : Environment A) (m : LwtManager A) (plug : ℕ) (o : Option Plug)
      → IsKept m
      → IsKept (notify env m plug o)
  notify-IsKept env m plug none k = k
  notify-IsKept env m plug (some x) k =
      if_cases IsKept (in_cooldown env (m.last_offline_notified_at plug)) (λ _. k)
        (λ free.
          let (spaced, recorded) =
            still-IsRecorded env m.last_offline_notified_at plug m.sent free k.recorded in
          record {
            spaced = (spaced, k.spaced);
            recorded = ((current_timestamp env.now, ground arith, omega arith), recorded);
          })

  confirm_offline-IsKept :
      (env : Environment A) (m : LwtManager A) (plug : ℕ) (retained : Bool)
      → IsKept m
      → IsKept (confirm_offline env m plug retained)
  unfolding confirm_offline take_offline
  confirm_offline-IsKept env m plug true k = same_record m _ refl refl k
  confirm_offline-IsKept env m plug false k =
      notify-IsKept env (take_offline env m plug) plug (env.find_plug plug)
        (same_record m _ refl refl k)

  configure-sent :
      (env : Environment A) (m : LwtManager A) (o : Option Plug)
      → ((configure env m o).sent ≡ m.sent)
        × ((configure env m o).last_offline_notified_at ≡ m.last_offline_notified_at)
  configure-sent env m none = (refl, refl)
  configure-sent env m (some p) = (ground arith, ground arith)

  start_timer-IsKept :
      (env : Environment A) (m : LwtManager A) (plug : ℕ) (retained : Bool) (o : Option Timer)
      → IsKept m
      → IsKept (start_timer env m plug retained o)
  start_timer-IsKept env m plug retained none k = same_record m _ refl refl k
  start_timer-IsKept env m plug retained (some t) k = k

  run-IsKept : {h : List (Time × LwtEvent)} {m : LwtManager A} → LwtRun h m → IsKept m
  unfolding handle_online on_plug_online handle_offline cancel_all
  run-IsKept (initial m none_set idle calm unsent) = record {
    spaced = subst AreSpaced (sym unsent) tt;
    recorded = subst (All (IsRecorded m.last_offline_notified_at)) (sym unsent) tt;
  }
  run-IsKept (elsewhere {m = m} w r) = same_record m _ refl refl (run-IsKept r)
  run-IsKept (receive_online {m = m} env plug r) =
      let same = configure-sent env (mark_online env m plug) (env.find_plug plug) in
      same_record m _ same.0 same.1 (run-IsKept r)
  run-IsKept (receive_offline {m = m} env plug retained r) =
      start_timer-IsKept env m plug retained (m.timers plug) (run-IsKept r)
  run-IsKept (expire {m = m} now t xs ys split due r) = same_record m _ refl refl (run-IsKept r)
  run-IsKept (confirm {m = m} env t xs ys split r) =
      let less : LwtManager A = record m { expired = xs ++ ys } in
      confirm_offline-IsKept env less t.plug t.retained
        (same_record m less refl refl (run-IsKept r))
  run-IsKept (shut_down {m = m} now r) = same_record m _ refl refl (run-IsKept r)

  -- Whatever happens to the plugs, and however the clock jumps, two notifications of one plug are never
  -- closer than 15 minutes, less the second that the stored instant of the last one is cut
  -- down by.
  pub run-AreSpaced :
      {h : List (Time × LwtEvent)} {m : LwtManager A} → LwtRun h m → AreSpaced m.sent
  run-AreSpaced r = (run-IsKept r).spaced
