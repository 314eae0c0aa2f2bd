-- ===== src/Cost/Order.antt =====
-- About the cost and the order of the readings.
use mathlib.Core.List.{Permᴰ}
use ev_charge_controller.Prelude.{◌≡◌, ◌≢◌, sym, ◌∙◌, ap₂, subst, refl, List, [], ◌∷◌, All, arith}
use ev_charge_controller.Clock.{Location}
use ev_charge_controller.Float.{Float}
use ev_charge_controller.Models.{PowerReading, TariffSettings}
use ev_charge_controller.Cost.{insert_reading, sort_readings, calculate_session_cost}

module _ {A : Type 0} where
  -- No two readings have the same timestamp.
  abbrev pub IsDistinct : List (PowerReading A) → Type 0
  IsDistinct [] = Unit
  IsDistinct (x ∷ xs) = All (λ y. x.timestamp ≢ y.timestamp) xs × IsDistinct xs

  All-perm :
      (P : PowerReading A → Type 0) {xs ys : List (PowerReading A)}
      → Permᴰ xs ys
      → All P xs
      → All P ys
  All-perm P Permᴰ.nil h = h
  All-perm P (Permᴰ.cons e p) h = (subst P e h.0, All-perm P p h.1)
  All-perm P (Permᴰ.swap e f) h = (subst P f h.1.0, (subst P e h.0, h.1.1))
  All-perm P (Permᴰ.trans p q) h = All-perm P q (All-perm P p h)

  IsDistinct-perm : {xs ys : List (PowerReading A)} → Permᴰ xs ys → IsDistinct xs → IsDistinct ys
  IsDistinct-perm Permᴰ.nil h = h
  IsDistinct-perm (Permᴰ.cons {a = a} {l₂ = l} e p) h =
      subst (λ z. IsDistinct (z ∷ l)) e
        (All-perm (λ y. a.timestamp ≢ y.timestamp) p h.0, IsDistinct-perm p h.1)
  IsDistinct-perm (Permᴰ.swap {a = a} {b = b} {b' = b'} {l = l} e f) h =
      subst (λ z. IsDistinct (z ∷ b' ∷ l)) f
        (subst (λ z. IsDistinct (b ∷ z ∷ l)) e ((λ q. h.0.0 (sym q), h.1.0), (h.0.1, h.1.1)))
  IsDistinct-perm (Permᴰ.trans p q) h = IsDistinct-perm q (IsDistinct-perm p h)

module _ {A : Type 0} ⦃F : Float A⦄ where
  insert-insert :
      (x y : PowerReading A) (l : List (PowerReading A))
      → x.timestamp ≢ y.timestamp
      → insert_reading x (insert_reading y l) ≡ insert_reading y (insert_reading x l)
  unfolding insert_reading
  insert-insert x y [] ne = ground arith
  insert-insert x y (z ∷ l) ne = ground (arith, insert-insert x y l)

  sort_readings-perm :
      {xs ys : List (PowerReading A)}
      → Permᴰ xs ys
      → IsDistinct xs
      → sort_readings xs ≡ sort_readings ys
  unfolding sort_readings
  sort_readings-perm Permᴰ.nil h = refl
  sort_readings-perm (Permᴰ.cons e p) h = ap₂ insert_reading e (sort_readings-perm p h.1)
  sort_readings-perm (Permᴰ.swap {a = a} {b = b} {l = l} e f) h =
      insert-insert a b (sort_readings l) h.0.0
      ∙ ap₂ (λ x y. insert_reading x (insert_reading y (sort_readings l))) f e
  sort_readings-perm (Permᴰ.trans p q) h =
      sort_readings-perm p h ∙ sort_readings-perm q (IsDistinct-perm p h)

  -- For readings with distinct timestamps, the cost and the off-peak energy are the same in whatever
  -- order the readings are given.
  pub calculate_session_cost-perm :
      (loc : Location) (start : A) (tariff : TariffSettings A) {xs ys : List (PowerReading A)}
      → Permᴰ xs ys
      → IsDistinct xs
      → calculate_session_cost loc start xs tariff ≡ calculate_session_cost loc start ys tariff
  unfolding calculate_session_cost
  calculate_session_cost-perm loc start tariff p h = rw (sort_readings-perm p h)
