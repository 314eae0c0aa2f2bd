-- ===== src/Schedules/Usable.antt =====
-- About the times of the schedules in the table, and the plugs that have one.
use ev_charge_controller.Prelude.{
  ℕ, ◌≡◌, refl, sym, ◌∙◌, subst, Bool, true, false, not, ◌&&◌, Option, none, some, List, [], ◌∷◌,
  ◌==◌, All, arith, Bool-cases, Option-cases, inl, inr, if◌then◌else◌,
}
use ev_charge_controller.Clock.{Time, Location}
use ev_charge_controller.Hhmm.{
  Text, is_some, parse_hhmm, parse_parts, valid_parts, is_valid_time_format, split, colon, text_eq,
}
use ev_charge_controller.Window.{resolve_window, resolve_deadline}
use ev_charge_controller.Models.{Plug, Schedule, ScheduleType, daily, carbon_aware}
use ev_charge_controller.Schedules.{
  Row, Request, daily_request, carbon_aware_request, handle, ScheduleError, user_id_required,
  same_plug, with_excluded, upsert, write, ready_by_error, daily_error, daily_row, window_error,
  first_error, reject_maintenance_plug, carbon_aware_error, carbon_aware_row, upsert_by_plug_id,
  upsert_carbon_aware,
}

parse_parts-valid : (ts : List Text) → valid_parts ts ≡ true → is_some (parse_parts ts) ≡ true
unfolding valid_parts parse_parts
parse_parts-valid [] e = absurd (cc e)
parse_parts-valid (h ∷ []) e = absurd (cc e)
parse_parts-valid (h ∷ m ∷ []) e = ground (arith, e)
parse_parts-valid (h ∷ m ∷ x ∷ ts) e = absurd (cc e)

parse_hhmm-valid : (t : Text) → is_valid_time_format t ≡ true → is_some (parse_hhmm t) ≡ true
unfolding is_valid_time_format parse_hhmm
parse_hhmm-valid t e = parse_parts-valid (split colon t) e

-- resolveWindow or resolveDeadline accept the times of a schedule.
abbrev pub window_resolves : Location → Time → Option Text → Option Text → Bool
window_resolves loc now (some window_start) (some window_end) =
    is_some (resolve_window loc now window_start window_end)
window_resolves loc now _ _ = false

abbrev pub ready_by_resolves : Location → Time → Text → Option Text → Bool
ready_by_resolves loc now time none = true
ready_by_resolves loc now time (some ready_by) =
    is_some (resolve_deadline loc now ready_by) && not (text_eq ready_by time)

abbrev pub resolves : Location → Time → ScheduleType → Schedule → Bool
resolves loc now carbon_aware s = window_resolves loc now s.window_start s.window_end
resolves loc now daily s =
    is_some (resolve_deadline loc now s.time) && ready_by_resolves loc now s.time s.ready_by

abbrev pub IsUsable : Location → Time → Row → Type 0
IsUsable loc now r = resolves loc now r.schedule.schedule_type r.schedule ≡ true

resolve_deadline-valid :
    (loc : Location) (now : Time) (t : Text)
    → is_valid_time_format t ≡ true
    → is_some (resolve_deadline loc now t) ≡ true
unfolding resolve_deadline
resolve_deadline-valid loc now t e = elim (Option-cases (parse_hhmm t)) [
  | inl q ↦ absurd (ground (arith, parse_hhmm-valid t e, q))
  | inr q ↦ ground (arith, q.1)
]

resolve_window-valid :
    (loc : Location) (now : Time) (s t : Text)
    → is_valid_time_format s ≡ true
    → is_valid_time_format t ≡ true
    → is_some (resolve_window loc now s t) ≡ true
unfolding resolve_window
resolve_window-valid loc now s t e f = elim (Option-cases (parse_hhmm s)) [
  | inl q ↦ absurd (ground (arith, parse_hhmm-valid s e, q))
  | inr q ↦ elim (Option-cases (parse_hhmm t)) [
    | inl r ↦ absurd (ground (arith, parse_hhmm-valid t f, r))
    | inr r ↦ ground (arith, q.1, r.1)
  ]
]

-- No row after the first has its plug, and so on.
abbrev pub IsUnique : List Row → Type 0
IsUnique [] = Unit
IsUnique (r ∷ rs) =
    All (λ (x : Row). same_plug x.schedule.plug_id r.schedule.plug_id ≡ false) rs × IsUnique rs

-- What holds of the new row and stays when a row is overwritten, holds of the whole table.
upsert-All :
    (P : Row → Type 0) (new : Row) (rows : List Row)
    → P new
    → ((r : Row)
        → same_plug r.schedule.plug_id new.schedule.plug_id ≡ true
        → P r
        → P (with_excluded new r))
    → All P rows
    → All P (upsert new rows)
unfolding upsert
upsert-All P new [] p stays all = (p, tt)
upsert-All P new (r ∷ rs) p stays all =
    let same = same_plug r.schedule.plug_id new.schedule.plug_id in
    elim (Bool-cases same) [
      | inl e ↦
          subst (λ b. All P (if b then with_excluded new r ∷ rs else r ∷ upsert new rs)) (sym e)
            (stays r e all.0, all.1)
      | inr e ↦
          subst (λ b. All P (if b then with_excluded new r ∷ rs else r ∷ upsert new rs)) (sym e)
            (all.0, upsert-All P new rs p stays all.1)
    ]

same_plug_sym : (o q : Option ℕ) → same_plug o q ≡ same_plug q o
same_plug_sym none none = refl
same_plug_sym none (some y) = refl
same_plug_sym (some x) none = refl
same_plug_sym (some x) (some y) = ground arith

upsert-IsUnique : (new : Row) (rows : List Row) → IsUnique rows → IsUnique (upsert new rows)
unfolding upsert
upsert-IsUnique new [] u = (tt, tt)
upsert-IsUnique new (r ∷ rs) u =
    let same = same_plug r.schedule.plug_id new.schedule.plug_id in
    elim (Bool-cases same) [
      | inl e ↦
          subst (λ b. IsUnique (if b then with_excluded new r ∷ rs else r ∷ upsert new rs)) (sym e)
            u
      | inr e ↦
          subst (λ b. IsUnique (if b then with_excluded new r ∷ rs else r ∷ upsert new rs)) (sym e)
            (
              upsert-All (λ x. same_plug x.schedule.plug_id r.schedule.plug_id ≡ false) new rs
                  (same_plug_sym new.schedule.plug_id r.schedule.plug_id ∙ e) (λ x _ p. p) u.0,
              upsert-IsUnique new rs u.1,
            )
    ]

abbrev pub IsSound : Location → Time → List Row → Type 0
IsSound loc now rows = All (IsUsable loc now) rows × IsUnique rows

resolves-with_excluded :
    (loc : Location) (now : Time) (k : ScheduleType) (new r : Row)
    → resolves loc now k new.schedule ≡ true
    → resolves loc now k (with_excluded new r).schedule ≡ true
resolves-with_excluded loc now carbon_aware new r e = e
resolves-with_excluded loc now daily new r e = e

write-IsSound :
    (loc : Location) (now : Time) (o : Option ScheduleError) (new : Row) (plug : ℕ)
    (rows : List Row)
    → (o ≡ none → IsUsable loc now new)
    → IsSound loc now rows
    → IsSound loc now (write o new plug rows).0
write-IsSound loc now (some e) new plug rows usable s = s
write-IsSound loc now none new plug rows usable s = (
  upsert-All (IsUsable loc now) new rows (usable refl)
      (λ r _ _. resolves-with_excluded loc now new.schedule.schedule_type new r (usable refl)) s.0,
  upsert-IsUnique new rows s.1,
)

ready_by-resolves :
    (loc : Location) (now : Time) (time : Text) (ready_by : Option Text)
    (rest : Option ScheduleError)
    → ready_by_error time ready_by rest ≡ none
    → ready_by_resolves loc now time ready_by ≡ true
ready_by-resolves loc now time none rest e = refl
ready_by-resolves loc now time (some ready_by) rest e =
    elim (Bool-cases (is_valid_time_format ready_by)) [
      | inl v ↦ ground (arith, e, v, resolve_deadline-valid loc now ready_by v)
      | inr v ↦ absurd (ground (arith, e, v))
    ]

daily_row-IsUsable :
    (loc : Location) (now : Time) (found : Option (Option Plug)) (id plug user : ℕ) (time : Text)
    (ready_by : Option Text) (enabled : Bool)
    → daily_error found user time ready_by ≡ none
    → IsUsable loc now (daily_row id plug user time ready_by enabled)
daily_row-IsUsable loc now found id plug user time ready_by enabled e =
    elim (Bool-cases (is_valid_time_format time)) [
      | inl v ↦
          let rest = if user == 0 then some user_id_required else reject_maintenance_plug found in
          let ready = ready_by-resolves loc now time ready_by rest (ground (arith, e, v)) in
          ground (arith, ready, resolve_deadline-valid loc now time v)
      | inr v ↦ absurd (ground (arith, e, v))
    ]

first_error-none : (o rest : Option ScheduleError) → first_error o rest ≡ none → rest ≡ none
first_error-none none rest e = e
first_error-none (some x) rest e = absurd (cc e)

carbon_aware_row-IsUsable :
    (loc : Location) (now : Time) (found : Option (Option Plug)) (id plug user : ℕ)
    (window_start window_end : Text) (two_stage enabled : Bool)
    → carbon_aware_error found user window_start window_end ≡ none
    → IsUsable loc now (carbon_aware_row id plug user window_start window_end two_stage enabled)
carbon_aware_row-IsUsable loc now found id plug user s t two_stage enabled e =
    let no_error : window_error s t ≡ none =
      first_error-none (reject_maintenance_plug found) (window_error s t) (ground (arith, e)) in
    elim (Bool-cases (is_valid_time_format s)) [
      | inl v ↦ elim (Bool-cases (is_valid_time_format t)) [
        | inl w ↦ resolve_window-valid loc now s t v w
        | inr w ↦ absurd (ground (arith, no_error, v, w))
      ]
      | inr v ↦ absurd (ground (arith, no_error, v))
    ]

module _ (find_by_id : ℕ → Option (Option Plug)) where
  -- The requests in order.
  abbrev pub handle_all : List Request → List Row → List Row
  handle_all [] rows = rows
  handle_all (q ∷ qs) rows = handle_all qs (handle find_by_id q rows).0

  handle-IsSound :
      (loc : Location) (now : Time) (q : Request) (rows : List Row)
      → IsSound loc now rows
      → IsSound loc now (handle find_by_id q rows).0
  unfolding upsert_by_plug_id upsert_carbon_aware
  handle-IsSound loc now (daily_request id plug user time ready_by enabled) rows =
      write-IsSound loc now (daily_error (find_by_id plug) user time ready_by)
        (daily_row id plug user time ready_by enabled) plug rows
        (daily_row-IsUsable loc now (find_by_id plug) id plug user time ready_by enabled)
  handle-IsSound loc now (carbon_aware_request id plug user s t two_stage enabled) rows =
      write-IsSound loc now (carbon_aware_error (find_by_id plug) user s t)
        (carbon_aware_row id plug user s t two_stage enabled) plug rows
        (carbon_aware_row-IsUsable loc now (find_by_id plug) id plug user s t two_stage enabled)

  -- Whatever requests are made, accepted or refused, from a table in which it holds, it holds that no plug
  -- has two schedules and that at the given moment resolveWindow gives a window for every
  -- carbon-aware schedule, and resolveDeadline a time for the time and the ready-by time of every daily
  -- one, whose ready-by text is another than its time's.
  pub handle_all-IsSound :
      (loc : Location) (now : Time) (qs : List Request) (rows : List Row)
      → IsSound loc now rows
      → IsSound loc now (handle_all qs rows)
  handle_all-IsSound loc now [] rows s = s
  handle_all-IsSound loc now (q ∷ qs) rows s =
      handle_all-IsSound loc now qs (handle find_by_id q rows).0 (handle-IsSound loc now q rows s)
