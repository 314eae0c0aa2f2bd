-- ===== src/Lwt/Offline.antt =====
-- The session table when a plug goes offline or comes online.
use ev_charge_controller.Prelude.{
  ℕ, ◌+◌, ◌≤◌, ◌≡◌, refl, sym, ap, ◌∙◌, subst, Bool, true, false, not, ◌&&◌, Option, none, some,
  List, [], ◌∷◌, arith, Bool-cases, inl, inr, ◌==◌, ◌≢◌, ◌⊎◌, ltb, if◌then◌else◌,
}
use ev_charge_controller.Float.{Float}
use ev_charge_controller.Models.{ChargeSession, Plug}
use ev_charge_controller.Sessions.{
  World, sees, occupies, any_row, update_where, by_id, as_cancelled_at, command,
}
use ev_charge_controller.Sessions.Counting.{count_active, any_row-count, update_where-count}
use ev_charge_controller.Sessions.Lifecycle.{Environment}
use ev_charge_controller.Sessions.Unique.{IsUnique, AllVisible}
use ev_charge_controller.Sessions.Cancel.{owned, cancel_active_session, cancel_end_percent}
use ev_charge_controller.Sessions.Cancel.Percent.{cancel_owned-sessions, cancel_of_owned}
use ev_charge_controller.Lwt.{
  LwtManager, newer, newest_where, get_active_by_plug, is_charging_plug, off_if_free,
  reconcile_relay, configure, mark_online, on_plug_online, handle_online, cancel_found, notify,
  take_offline, confirm_offline,
}

module _ {A : Type 0} where
  newer-either :
      (s : ChargeSession A) (o : Option (ChargeSession A)) (x : ChargeSession A)
      → newer s o ≡ some x
      → (s ≡ x) ⊎ (o ≡ some x)
  newer-either s none x e = inl (cc e)
  newer-either s (some y) x e = elim (Bool-cases (ltb s.created_at y.created_at)) [
    | inl later ↦ inr (ground (arith, e, later))
    | inr not_later ↦ inl (ground (arith, e, not_later))
  ]

  newer-some : (s : ChargeSession A) (o : Option (ChargeSession A)) → newer s o ≢ none
  newer-some s none e = cc e
  newer-some s (some y) e = ground (arith, e)

  newest_where-none :
      (p : ChargeSession A → Bool) (ss : List (ChargeSession A))
      → newest_where p ss ≡ none
      → any_row p ss ≡ false
  unfolding newest_where any_row
  newest_where-none p [] e = refl
  newest_where-none p (s ∷ ss) e = elim (Bool-cases (p s)) [
    | inl holds ↦ absurd (newer-some s (newest_where p ss) (ground (arith, e, holds)))
    | inr fails ↦ ground (arith, fails, newest_where-none p ss (ground (arith, e, fails)))
  ]

  -- Taking the found session off the plug leaves one fewer there.
  newest_where-found :
      (plug : ℕ) (p : ChargeSession A → Bool) (f : ChargeSession A → ChargeSession A)
      → ((s : ChargeSession A) → p s ≡ true → occupies plug s ≡ true)
      → ((s : ChargeSession A) → occupies plug (f s) ≡ false)
      → (ss : List (ChargeSession A)) (x : ChargeSession A) → newest_where p ss ≡ some x
      → count_active plug (update_where (by_id x.id) f ss) + 1 ≤ count_active plug ss
  unfolding newest_where update_where count_active
  newest_where-found plug p f on off [] x e = absurd (cc e)
  newest_where-found plug p f on off (s ∷ ss) x e = elim (Bool-cases (p s)) [
    | inl holds ↦ elim (newer-either s (newest_where p ss) x (ground (arith, e, holds))) [
      | inl same ↦
          let rest = update_where-count plug (by_id x.id) f (λ y h. ground (arith, off y)) ss in
          let q : (s.id == x.id) ≡ true = ground (arith, ap (λ (y : ChargeSession A). y.id) same) in
          ground (arith, on s holds, off s, q, rest)
      | inr older ↦ ground (arith, off s, newest_where-found plug p f on off ss x older)
    ]
    | inr fails ↦
        ground (arith, off s, newest_where-found plug p f on off ss x (ground (arith, e, fails)))
  ]

  -- What the found session satisfies.
  newest_where-holds :
      (p : ChargeSession A → Bool) (ss : List (ChargeSession A)) (x : ChargeSession A)
      → newest_where p ss ≡ some x
      → p x ≡ true
  unfolding newest_where
  newest_where-holds p [] x e = absurd (cc e)
  newest_where-holds p (s ∷ ss) x e = elim (Bool-cases (p s)) [
    | inl holds ↦ elim (newer-either s (newest_where p ss) x (ground (arith, e, holds))) [
      | inl same ↦ subst (λ y. p y ≡ true) same holds
      | inr older ↦ newest_where-holds p ss x older
    ]
    | inr fails ↦ newest_where-holds p ss x (ground (arith, e, fails))
  ]

module _ {A : Type 0} ⦃F : Float A⦄ (env : Environment A) (plug : ℕ) where
  abbrev found_by : ChargeSession A → Bool
  found_by s = occupies plug s && sees env.user s.user_id

  -- The session that a query of the plug finds is in progress there.
  pub cancelled-count :
      (w : World A) (s : ChargeSession A)
      → get_active_by_plug env.user w plug ≡ some s
      → count_active plug (cancel_active_session env w s).0.sessions + 1
        ≤ count_active plug w.sessions
  unfolding get_active_by_plug
  cancelled-count w s e =
      let p = cancel_end_percent env w s in
      let f : ChargeSession A → ChargeSession A = as_cancelled_at env.now p in
      let mine : owned env.user s.user_id ≡ true =
        ground (arith, newest_where-holds found_by w.sessions s e) in
      let rows =
        ap (λ (r : World A × Bool). r.0.sessions) (cancel_of_owned env w s mine)
        ∙ cancel_owned-sessions env w s p in
      ground (
        arith,
        ap (count_active plug) rows,
        newest_where-found plug found_by f (λ x h. ground arith) (λ x. ground arith) w.sessions s e,
      )

  free-count :
      (w : World A)
      → AllVisible env.user plug w
      → get_active_by_plug env.user w plug ≡ none
      → count_active plug w.sessions ≡ 0
  unfolding get_active_by_plug
  free-count w visible e =
      any_row-count plug env.user w.sessions (newest_where-none found_by w.sessions e) visible

  cancel_found-count :
      (w : World A) (o : Option (ChargeSession A))
      → IsUnique w
      → AllVisible env.user plug w
      → get_active_by_plug env.user w plug ≡ o
      → count_active plug (cancel_found env w o).sessions ≡ 0
  cancel_found-count w none u visible e = free-count w visible e
  cancel_found-count w (some s) u visible e = omega (arith, u plug, cancelled-count w s e)

  notify-world : (m : LwtManager A) (o : Option Plug) → (notify env m plug o).world ≡ m.world
  notify-world m none = refl
  notify-world m (some x) = ground arith

  confirm_offline-world :
      (m : LwtManager A) (retained : Bool)
      → (confirm_offline env m plug retained).world ≡ (take_offline env m plug).world
  unfolding confirm_offline
  confirm_offline-world m true = refl
  confirm_offline-world m false = notify-world (take_offline env m plug) (env.find_plug plug)

  -- A plug that is taken offline has no session in progress any more, if it had at most one and the
  -- manager sees it.
  pub confirm_offline-frees :
      (m : LwtManager A) (retained : Bool)
      → IsUnique m.world
      → AllVisible env.user plug m.world
      → count_active plug (confirm_offline env m plug retained).world.sessions ≡ 0
  unfolding take_offline
  confirm_offline-frees m retained u visible =
      ap (λ (w : World A). count_active plug w.sessions) (confirm_offline-world m retained)
      ∙ cancel_found-count m.world _ u visible refl

  -- OFF to a charging plug without a session in progress; ON to a maintenance plug that is configured for
  -- the first time.
  abbrev pub is_new : Option Plug → Bool → Bool
  is_new none initialized = false
  is_new (some p) initialized = env.publishes plug && not initialized

  abbrev pub reconciled : Bool → World A → World A
  reconciled initialized w =
      if is_charging_plug (env.find_plug plug)
      then if count_active plug w.sessions == 0 then command plug false w else w
      else if is_new (env.find_plug plug) initialized
      then command plug true w
      else w

  off_if_free-reconciled :
      (w : World A) (o : Option (ChargeSession A))
      → AllVisible env.user plug w
      → get_active_by_plug env.user w plug ≡ o
      → off_if_free env w plug o
        ≡ (if count_active plug w.sessions == 0 then command plug false w else w)
  off_if_free-reconciled w none visible e = ground (arith, free-count w visible e)
  off_if_free-reconciled w (some s) visible e = ground (arith, cancelled-count w s e)

  after_configure :
      (m : LwtManager A) (o : Option Plug)
      → ((p : Plug) → o ≡ some p → p.id ≡ plug)
      → AllVisible env.user plug m.world
      → env.find_plug plug ≡ o
      → reconcile_relay env (configure env m o).world plug ≡ reconciled (m.initialized plug) m.world
  unfolding reconcile_relay
  after_configure m none named visible e = ground (arith, e)
  after_configure m (some p) named visible e =
      let same : p.id ≡ plug = named p refl in
      elim (Bool-cases (is_charging_plug (some p))) [
        | inl charging ↦
            let unpowered : (configure env m (some p)).world ≡ m.world = ground (arith, charging) in
            subst (λ w. reconcile_relay env w plug ≡ reconciled (m.initialized plug) m.world)
              (sym unpowered)
              (ground (
                arith,
                e,
                charging,
                off_if_free-reconciled m.world (get_active_by_plug env.user m.world plug) visible
                    refl,
              ))
        | inr maintenance ↦ ground (arith, e, maintenance, same)
      ]

  -- When a plug comes online, no session is changed, and the only power commands are these: a charging plug
  -- on which no session is in progress is sent OFF, and a plug that is none and was not configured before is
  -- sent ON, if the broker takes its commands. The manager must see the sessions in progress on the
  -- plug, and the plug that is found must be the one asked for.
  pub handle_online-reconciled :
      (m : LwtManager A)
      → ((p : Plug) → env.find_plug plug ≡ some p → p.id ≡ plug)
      → AllVisible env.user plug m.world
      → (handle_online env m plug).world ≡ reconciled (m.initialized plug) m.world
  unfolding handle_online on_plug_online
  handle_online-reconciled m named visible =
      after_configure (mark_online env m plug) (env.find_plug plug) named visible refl
