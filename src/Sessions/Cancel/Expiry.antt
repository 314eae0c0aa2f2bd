-- ===== src/Sessions/Cancel/Expiry.antt =====
-- What the timeout of pending sessions does to the table.
use ev_charge_controller.Prelude.{
  ℕ, ◌≡◌, ◌≢◌, refl, sym, ap, ◌∙◌, Bool, true, false, ◌&&◌, ◌||◌, Option, none, some, List, [], ◌∷◌,
  All, arith, ◌==◌, if◌then◌else◌,
}
use ev_charge_controller.Models.{pending, status_eq, is_active_status, ChargeSession}
use ev_charge_controller.Sessions.{
  World, sees, update_where, any_row, by_id_and_status, as_cancelled, cancel_pending,
}
use ev_charge_controller.Sessions.Counting.{is_pending-active}
use ev_charge_controller.Sessions.Lifecycle.{Environment}
use ev_charge_controller.Sessions.Cancel.{
  insert_created, listed, list_active, cut_power, timed_out, cancelled_row, expire, expire_each,
  cancel_pending_if_timed_out,
}

module _ {A : Type 0} where
  -- Two conditional updates in a row are one, where the second leaves the rows of the first alone.
  update_where-update_where :
      (p q r : ChargeSession A → Bool) (f : ChargeSession A → ChargeSession A)
      → ((s : ChargeSession A) → p s ≡ true → (q (f s) ≡ false) × (r s ≡ true))
      → ((s : ChargeSession A) → p s ≡ false → q s ≡ r s)
      → (ss : List (ChargeSession A)) → update_where q f (update_where p f ss) ≡ update_where r f ss
  unfolding update_where
  update_where-update_where p q r f h k [] = refl
  update_where-update_where p q r f h k (s ∷ ss) =
      ground (arith, h s, k s, update_where-update_where p q r f h k ss)

  -- Updates under conditions that agree on the rows.
  update_where-agree :
      (p q : ChargeSession A → Bool) (f : ChargeSession A → ChargeSession A)
      (ss : List (ChargeSession A))
      → All (λ s. p s ≡ q s) ss
      → update_where p f ss ≡ update_where q f ss
  unfolding update_where
  update_where-agree p q f [] h = refl
  update_where-agree p q f (s ∷ ss) h = ground (arith, h.0, update_where-agree p q f ss h.1)

  update_where-none :
      (p : ChargeSession A → Bool) (f : ChargeSession A → ChargeSession A)
      → ((s : ChargeSession A) → p s ≡ false)
      → (ss : List (ChargeSession A)) → update_where p f ss ≡ ss
  unfolding update_where
  update_where-none p f h [] = refl
  update_where-none p f h (s ∷ ss) = ground (arith, h s, update_where-none p f h ss)

  cut_power-sessions : (w : World A) (plug : Option ℕ) → (cut_power w plug).sessions ≡ w.sessions
  cut_power-sessions w none = refl
  cut_power-sessions w (some plug) = ground arith

  cancelled_row-sessions :
      (plug : Option ℕ) (any : Bool) (r : World A × Bool)
      → (cancelled_row plug any r).0.sessions ≡ r.0.sessions
  cancelled_row-sessions plug any (w, false) = refl
  cancelled_row-sessions plug any (w, true) = cut_power-sessions w plug

  any_row-insert_created :
      (p : ChargeSession A → Bool) (s : ChargeSession A) (ss : List (ChargeSession A))
      → any_row p (insert_created s ss) ≡ (p s || any_row p ss)
  unfolding any_row insert_created
  any_row-insert_created p s [] = refl
  any_row-insert_created p s (x ∷ ss) = ground (arith, any_row-insert_created p s ss)

  any_row-listed :
      (p q : ChargeSession A → Bool) (ss : List (ChargeSession A))
      → any_row p (listed q ss) ≡ any_row (λ s. q s && p s) ss
  unfolding any_row listed
  any_row-listed p q [] = refl
  any_row-listed p q (s ∷ ss) =
      ground (arith, any_row-insert_created p s (listed q ss), any_row-listed p q ss)

  -- The identifiers of the rows are distinct: `id` is the primary key of the table.
  abbrev pub IsKeyed : List (ChargeSession A) → Type 0
  IsKeyed [] = Unit
  IsKeyed (s ∷ ss) = All (λ x. x.id ≢ s.id) ss × IsKeyed ss

  -- Whether a row with the identifier of `s` has the property.
  abbrev same_has : (ChargeSession A → Bool) → List (ChargeSession A) → ChargeSession A → Bool
  same_has p ss s = any_row (λ x. p x && (x.id == s.id)) ss

  same_has-none :
      (p : ChargeSession A → Bool) (s : ChargeSession A) (ss : List (ChargeSession A))
      → All (λ x. x.id ≢ s.id) ss
      → same_has p ss s ≡ false
  unfolding any_row
  same_has-none p s [] h = refl
  same_has-none p s (x ∷ ss) h = ground (arith, h.0, same_has-none p s ss h.1)

  same_has-cons :
      (p : ChargeSession A → Bool) (s : ChargeSession A) (ss rest : List (ChargeSession A))
      → All (λ x. x.id ≢ s.id) rest
      → All (λ x. same_has p ss x ≡ p x) rest
      → All (λ x. same_has p (s ∷ ss) x ≡ p x) rest
  unfolding any_row
  same_has-cons p s ss [] h k = tt
  same_has-cons p s ss (x ∷ rest) h k =
      (ground (arith, h.0, k.0), same_has-cons p s ss rest h.1 k.1)

  same_has-keyed :
      (p : ChargeSession A → Bool) (ss : List (ChargeSession A))
      → IsKeyed ss
      → All (λ x. same_has p ss x ≡ p x) ss
  unfolding any_row
  same_has-keyed p [] h = tt
  same_has-keyed p (s ∷ ss) h = (
    ground (arith, same_has-none p s ss h.0),
    same_has-cons p s ss ss h.0 (same_has-keyed p ss h.1),
  )

  All-map :
      (P Q : ChargeSession A → Type 0)
      → ((s : ChargeSession A) → P s → Q s)
      → (ss : List (ChargeSession A)) → All P ss
      → All Q ss
  All-map P Q f [] h = tt
  All-map P Q f (s ∷ ss) h = (f s h.0, All-map P Q f ss h.1)

  any_row-cong :
      (p q : ChargeSession A → Bool)
      → ((s : ChargeSession A) → p s ≡ q s)
      → (ss : List (ChargeSession A)) → any_row p ss ≡ any_row q ss
  unfolding any_row
  any_row-cong p q h [] = refl
  any_row-cong p q h (s ∷ ss) = ground (arith, h s, any_row-cong p q h ss)

module _ {A : Type 0} (env : Environment A) (timeout : ℕ) where
  -- The rows that the timeout is to cancel.
  abbrev pub overdue : ChargeSession A → Bool
  overdue s = timed_out env timeout s && sees env.user s.user_id

  -- One of the sessions has the identifier of `s` and has timed out.
  abbrev pub hit : List (ChargeSession A) → ChargeSession A → Bool
  hit ss s =
      any_row (λ x. timed_out env timeout x && (x.id == s.id)) ss && status_eq s.status pending

  expire_branch :
      (late any : Bool) (s : ChargeSession A) (w : World A)
      → (if late
          then cancelled_row s.plug_id any (cancel_pending w s.id env.now)
          else (w, any)).0.sessions
        ≡ update_where
            (λ x. late && by_id_and_status s.id pending x)
            (as_cancelled env.now)
            w.sessions
  unfolding cancel_pending
  expire_branch true any s w = cancelled_row-sessions s.plug_id any (cancel_pending w s.id env.now)
  expire_branch false any s w =
      sym (update_where-none _ (as_cancelled env.now) (λ x. refl) w.sessions)

  expire-sessions :
      (s : ChargeSession A) (r : World A × Bool)
      → (expire env timeout s r).0.sessions
        ≡ update_where
            (λ x. timed_out env timeout s && by_id_and_status s.id pending x)
            (as_cancelled env.now)
            r.0.sessions
  unfolding expire
  expire-sessions s (w, any) = expire_branch (timed_out env timeout s) any s w

  pub expire_each-sessions :
      (ss : List (ChargeSession A)) (r : World A × Bool)
      → (expire_each env timeout ss r).0.sessions
        ≡ update_where (hit ss) (as_cancelled env.now) r.0.sessions
  unfolding expire_each any_row
  expire_each-sessions [] r = sym (update_where-none _ _ (λ s. refl) r.0.sessions)
  expire_each-sessions (s ∷ ss) r =
      expire_each-sessions ss (expire env timeout s r)
      ∙ ap (update_where (hit ss) (as_cancelled env.now)) (expire-sessions s r)
      ∙ update_where-update_where _ (hit ss) (hit (s ∷ ss)) (as_cancelled env.now)
          (λ x e. ground arith) (λ x e. ground arith) r.0.sessions

  -- The listed sessions that have timed out are those of the table.
  hit-list_active :
      (w : World A) (s : ChargeSession A)
      → same_has overdue w.sessions s ≡ overdue s
      → hit (list_active env.user w) s ≡ overdue s
  unfolding list_active
  hit-list_active w s h =
      let p : ChargeSession A → Bool = λ x. timed_out env timeout x && (x.id == s.id) in
      let q : ChargeSession A → Bool = λ x. is_active_status x.status && sees env.user x.user_id in
      let e : any_row (λ x. q x && p x) w.sessions ≡ same_has overdue w.sessions s =
        any_row-cong (λ x. q x && p x) (λ x. overdue x && (x.id == s.id))
          (λ x. ground (arith, is_pending-active x.status)) w.sessions in
      ground (arith, h, e, any_row-listed p q w.sessions)

  -- The timeout cancels, at once, exactly the pending sessions of the table that are older than the
  -- timeout and that the user sees, and changes no other row: its loop over the listed
  -- sessions, one statement for each, is one conditional update. Identifiers must be distinct.
  pub cancel_pending_if_timed_out-sessions :
      (w : World A)
      → IsKeyed w.sessions
      → (cancel_pending_if_timed_out env w timeout).0.sessions
        ≡ update_where overdue (as_cancelled env.now) w.sessions
  unfolding cancel_pending_if_timed_out
  cancel_pending_if_timed_out-sessions w keyed =
      expire_each-sessions (list_active env.user w) (w, false)
      ∙ update_where-agree _ overdue (as_cancelled env.now) w.sessions
          (All-map _ _ (hit-list_active w) w.sessions (same_has-keyed overdue w.sessions keyed))
