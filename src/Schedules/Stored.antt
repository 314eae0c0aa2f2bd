-- ===== src/Schedules/Stored.antt =====
-- What is read back after a schedule is written.
use ev_charge_controller.Prelude.{
  ℕ, ◌≡◌, ◌⊎◌, inl, inr, refl, sym, ap, ◌∙◌, true, false, Option, none, some, List, [], ◌∷◌, ◌==◌,
  arith, Bool-cases,
}
use ev_charge_controller.Models.{Plug}
use ev_charge_controller.Schedules.{
  Row, Request, daily_request, carbon_aware_request, handle, ScheduleError, UpsertOutcome,
  persisted, rejected, same_plug, with_excluded, upsert, get_by_plug_id, write, persisted_or,
  daily_error, daily_row, carbon_aware_error, carbon_aware_row, upsert_by_plug_id,
  upsert_carbon_aware,
}

-- The row that was there, if any, lends its key and its user to the new one.
abbrev pub kept_id : Option Row → Row → ℕ
kept_id none new = new.id
kept_id (some old) new = old.id

abbrev pub kept_user : Option Row → Row → Option ℕ
kept_user none new = new.schedule.user_id
kept_user (some old) new = old.schedule.user_id

-- The new schedule, with the key and the user of the row that was there before.
abbrev pub rewritten : Row → Option Row → Row
rewritten new before = record {
  id = kept_id before new;
  schedule = record new.schedule { user_id = kept_user before new };
}

abbrev pub Holds : Option Row → Row → Row → Type 0
Holds before new row = row ≡ rewritten new before

-- The row of the plug.
abbrev pub IsRead : ℕ → Option Row → Row → List Row → Row → Type 0
IsRead plug before new rows row = (get_by_plug_id plug rows ≡ some row) × Holds before new row

same_plug-some : (o : Option ℕ) (plug : ℕ) → same_plug o (some plug) ≡ true → o ≡ some plug
same_plug-some none plug e = absurd (cc e)
same_plug-some (some p) plug e = ground (arith, e)

get_by_plug_id-upsert :
    (plug : ℕ) (new : Row) (rows : List Row)
    → new.schedule.plug_id ≡ some plug
    → (row : Row) × IsRead plug (get_by_plug_id plug rows) new (upsert new rows) row
unfolding upsert get_by_plug_id
get_by_plug_id-upsert plug new [] e = (new, (ground (arith, e), refl))
get_by_plug_id-upsert plug new (r ∷ rs) e =
    elim (Bool-cases (same_plug r.schedule.plug_id (some plug))) [
      | inl same ↦
          let q : r.schedule.plug_id ≡ some plug = same_plug-some r.schedule.plug_id plug same in
          let first : some r ≡ get_by_plug_id plug (r ∷ rs) = ground (arith, same) in
          (
            with_excluded new r,
            (
              ground (arith, e, same),
              ap
                    (λ o. record {
                      id = r.id;
                      schedule = record new.schedule { plug_id = o; user_id = r.schedule.user_id };
                    })
                    (q ∙ sym e)
                  ∙ ap (rewritten new) first,
            ),
          )
      | inr other ↦
          let later = get_by_plug_id-upsert plug new rs e in
          let next : get_by_plug_id plug rs ≡ get_by_plug_id plug (r ∷ rs) =
            ground (arith, other) in
          (later.0, (ground (arith, e, other, later.1.0), later.1.1 ∙ ap (rewritten new) next))
    ]

get_by_plug_id-upsert_other :
    (q plug : ℕ) (new : Row) (rows : List Row)
    → (q == plug) ≡ false
    → new.schedule.plug_id ≡ some plug
    → get_by_plug_id q (upsert new rows) ≡ get_by_plug_id q rows
unfolding upsert get_by_plug_id
get_by_plug_id-upsert_other q plug new [] d e = ground (arith, d, e)
get_by_plug_id-upsert_other q plug new (r ∷ rs) d e =
    elim (Bool-cases (same_plug r.schedule.plug_id (some plug))) [
      | inl same ↦
          let k : r.schedule.plug_id ≡ some plug = same_plug-some r.schedule.plug_id plug same in
          ground (arith, d, e, same, k)
      | inr other ↦ ground (arith, e, other, get_by_plug_id-upsert_other q plug new rs d e)
    ]

-- The plug and the row that a request is about, and the row that it asks for.
abbrev pub plug_of : Request → ℕ
plug_of (daily_request id plug user time ready_by enabled) = plug
plug_of (carbon_aware_request id plug user s t two_stage enabled) = plug

abbrev pub row_of : Request → Row
row_of (daily_request id plug user time ready_by enabled) =
    daily_row id plug user time ready_by enabled
row_of (carbon_aware_request id plug user s t two_stage enabled) =
    carbon_aware_row id plug user s t two_stage enabled

-- The error that a request is refused with, if any.
abbrev pub error_of : (ℕ → Option (Option Plug)) → Request → Option ScheduleError
error_of find_by_id (daily_request id plug user time ready_by enabled) =
    daily_error (find_by_id plug) user time ready_by
error_of find_by_id (carbon_aware_request id plug user s t two_stage enabled) =
    carbon_aware_error (find_by_id plug) user s t

-- With an error the table is as it was; without one the row is read back, and the row of another plug is
-- as it was.
abbrev pub IsAnswered :
    Option ScheduleError → ℕ → ℕ → Row → List Row → List Row × UpsertOutcome → Type 0
IsAnswered o plug other new rows result =
    ((e : ScheduleError) × (o ≡ some e) × (result ≡ (rows, rejected e)))
    ⊎ ((row : Row) × (o ≡ none)
        × (result.1 ≡ persisted row)
        × IsRead plug (get_by_plug_id plug rows) new result.0 row
        × (get_by_plug_id other result.0 ≡ get_by_plug_id other rows))

write-IsAnswered :
    (o : Option ScheduleError) (new : Row) (plug other : ℕ) (rows : List Row)
    → (other == plug) ≡ false
    → new.schedule.plug_id ≡ some plug
    → IsAnswered o plug other new rows (write o new plug rows)
write-IsAnswered (some e) new plug other rows d k = inl (e, refl, refl)
write-IsAnswered none new plug other rows d k =
    let found = get_by_plug_id-upsert plug new rows k in
    inr (
      found.0,
      refl,
      ap (persisted_or new) found.1.0,
      found.1,
      get_by_plug_id-upsert_other other plug new rows d k,
    )

-- A request to write the schedule of a plug that fails one of its checks is refused and changes
-- nothing. One that passes them is answered with the row that is then read for the plug, which has all that
-- was asked for, except that it keeps the key and the user of the row of the plug if there was one,
-- and what is read for any other plug does not change.
pub handle-IsAnswered :
    (find_by_id : ℕ → Option (Option Plug)) (q : Request) (other : ℕ) (rows : List Row)
    → (other == plug_of q) ≡ false
    → IsAnswered
        (error_of find_by_id q)
        (plug_of q)
        other
        (row_of q)
        rows
        (handle find_by_id q rows)
unfolding upsert_by_plug_id upsert_carbon_aware
handle-IsAnswered find_by_id (daily_request id plug user time ready_by enabled) other rows d =
    write-IsAnswered (daily_error (find_by_id plug) user time ready_by)
      (daily_row id plug user time ready_by enabled) plug other rows d refl
handle-IsAnswered find_by_id (carbon_aware_request id plug user s t two_stage enabled) other rows
      d =
    write-IsAnswered (carbon_aware_error (find_by_id plug) user s t)
      (carbon_aware_row id plug user s t two_stage enabled) plug other rows d refl
