-- ===== src/Schedule/CatchUp.antt =====
-- Rule 3 of the planner: which days the catch-up prompt lists, and in which order.
use dayseam.Prelude.{
  ℕ, zero, suc, ◌+◌, ◌≤◌, ◌<◌, ◌≡◌, inl, inr, refl, ap, ◌∙◌, arith, Bool, true, ◌||◌, List, [], ◌∷◌,
  ◌++◌, contains, contains-append, Every, Every-append, Bool-cases, beq_refl,
}
use dayseam.Schedule.{insert_date, sort_dates, missed_days}
use mathlib.Core.Bool.{false≢true}
use native.Mathlib.Nat.{add-zero}
use native.Mathlib.Decide.{ℕ_discrete}
use dayseam.Schedule.Dates.{Calendar}

module _ (c : Calendar) where
  open c use {Date, date_eq, earlier, sub_days, earlier_trans, sub_days-earlier}

  abbrev pub Earlier : Date → Date → Type 0
  Earlier a b = earlier a b ≡ true

  -- Strictly from the oldest to the newest, so no date stands twice.
  abbrev pub IsAscending : List Date → Type 0
  IsAscending [] = Unit
  IsAscending (x ∷ xs) = Every (Earlier x) xs × IsAscending xs

  abbrev pub IsDescending : List Date → Type 0
  IsDescending [] = Unit
  IsDescending (x ∷ xs) = Every (λ y. Earlier y x) xs × IsDescending xs

  Every-insert_date {κ} :
      (P : Date → Type κ) (d : Date) (xs : List Date)
      → P d
      → Every P xs
      → Every P (insert_date c d xs)
  unfolding insert_date
  Every-insert_date P d [] p h = (p, tt)
  Every-insert_date P d (x ∷ xs) p h = elim (Bool-cases (earlier x d)) [
    | inl e ↦ rw e (h.0, Every-insert_date P d xs p h.1)
    | inr e ↦ rw e (p, h)
  ]

  pub Every-sort_dates {κ} :
      (P : Date → Type κ) (xs : List Date) → Every P xs → Every P (sort_dates c xs)
  unfolding sort_dates
  Every-sort_dates P [] h = tt
  Every-sort_dates P (x ∷ xs) h =
      Every-insert_date P x (sort_dates c xs) h.0 (Every-sort_dates P xs h.1)

  pub Every-weaken {κ ι} :
      (P : Date → Type κ) (Q : Date → Type ι)
      → ((d : Date) → P d → Q d)
      → (xs : List Date) → Every P xs
      → Every Q xs
  Every-weaken P Q f [] h = tt
  Every-weaken P Q f (x ∷ xs) h = (f x h.0, Every-weaken P Q f xs h.1)

  -- A date that is later than all others goes to the end.
  insert_date-IsAscending :
      (d : Date) (xs : List Date)
      → Every (λ y. Earlier y d) xs
      → IsAscending xs
      → IsAscending (insert_date c d xs)
  unfolding insert_date
  insert_date-IsAscending d [] h a = (tt, tt)
  insert_date-IsAscending d (x ∷ xs) h a =
      rw h.0 (Every-insert_date (Earlier x) d xs h.0 a.0, insert_date-IsAscending d xs h.1 a.1)

  pub sort_dates-IsAscending : (xs : List Date) → IsDescending xs → IsAscending (sort_dates c xs)
  unfolding sort_dates
  sort_dates-IsAscending [] h = tt
  sort_dates-IsAscending (x ∷ xs) h =
      insert_date-IsAscending x (sort_dates c xs) (Every-sort_dates (λ y. Earlier y x) xs h.0)
        (sort_dates-IsAscending xs h.1)

  contains-insert_date :
      (d : Date) (xs : List Date) (x : Date)
      → contains ⦃e = date_eq⦄ (insert_date c d xs) x
        ≡ (date_eq.beq d x || contains ⦃e = date_eq⦄ xs x)
  unfolding insert_date
  contains-insert_date d [] x = refl
  contains-insert_date d (y ∷ xs) x = ground (arith, contains-insert_date d xs x)

  pub contains-sort_dates :
      (xs : List Date) (x : Date)
      → contains ⦃e = date_eq⦄ (sort_dates c xs) x ≡ contains ⦃e = date_eq⦄ xs x
  unfolding sort_dates
  contains-sort_dates [] x = refl
  contains-sort_dates (y ∷ xs) x =
      contains-insert_date y (sort_dates c xs) x
      ∙ ap (λ b. date_eq.beq y x || b) (contains-sort_dates xs x)

  IsDescending-append :
      (xs : List Date) (d : Date)
      → IsDescending xs
      → Every (λ x. Earlier d x) xs
      → IsDescending (xs ++ d ∷ [])
  IsDescending-append [] d h e = (tt, tt)
  IsDescending-append (x ∷ xs) d h e =
      (Every-append (λ y. Earlier y x) xs (d ∷ []) h.0 (e.0, tt), IsDescending-append xs d h.1 e.1)

  -- What the loop has collected when it comes to `offset`.
  abbrev pub Collected : (Date → Bool) → Date → ℕ → List Date → Type 0
  Collected keep today offset missed =
      IsDescending missed
      × Every (λ x. (k : ℕ) × (1 ≤ k) × (k < offset) × (x ≡ sub_days today k) × (keep x ≡ true))
          missed

  Collected-append :
      (keep : Date → Bool) (today : Date) (offset : ℕ) (missed : List Date)
      → 1 ≤ offset
      → keep (sub_days today offset) ≡ true
      → Collected keep today offset missed
      → Collected keep today (offset + 1) (missed ++ sub_days today offset ∷ [])
  Collected-append keep today offset missed p k h = (
    IsDescending-append missed (sub_days today offset) h.0 (
        Every-weaken _ _ (λ x (j, j1, jo, e, _). rw e (sub_days-earlier today j offset jo)) missed
          h.1),
    Every-append _ missed (sub_days today offset ∷ [])
        (Every-weaken _ _ (λ x (j, j1, jo, e, kx). (j, j1, omega arith, e, kx)) missed h.1)
        ((offset, p, omega arith, refl, k), tt),
  )

  pub missed_days-Collected :
      (keep : Date → Bool) (today : Date) (n offset : ℕ) (missed : List Date)
      → 1 ≤ offset
      → Collected keep today offset missed
      → Collected keep today (offset + n) (missed_days c keep today n offset missed)
  unfolding missed_days
  missed_days-Collected keep today zero offset missed p h = rw add-zero h
  missed_days-Collected keep today (suc n) offset missed p h =
      let shift : offset + suc n ≡ offset + 1 + n = omega arith in
      elim (Bool-cases (keep (sub_days today offset))) [
        | inl k ↦
            rw (shift, k)
              (missed_days-Collected keep today n (offset + 1)
                (missed ++ sub_days today offset ∷ []) (omega arith)
                (Collected-append keep today offset missed p k h))
        | inr k ↦
            rw (shift, k)
              (missed_days-Collected keep today n (offset + 1) missed (omega arith) (
                h.0,
                Every-weaken _ _ (λ x (j, j1, jo, e, kx). (j, j1, omega arith, e, kx)) missed h.1,
              ))
      ]

  missed_days_mono :
      (keep : Date → Bool) (today : Date) (n offset : ℕ) (missed : List Date) (x : Date)
      → contains ⦃e = date_eq⦄ missed x ≡ true
      → contains ⦃e = date_eq⦄ (missed_days c keep today n offset missed) x ≡ true
  unfolding missed_days
  missed_days_mono keep today zero offset missed x h = h
  missed_days_mono keep today (suc n) offset missed x h =
      missed_days_mono keep today n (offset + 1) _ x
        (ground (arith, contains-append ⦃e = date_eq⦄ missed (sub_days today offset ∷ []) x))

  pub missed_days_complete :
      (keep : Date → Bool) (today : Date) (n offset : ℕ) (missed : List Date) (k : ℕ)
      → offset ≤ k
      → k < offset + n
      → keep (sub_days today k) ≡ true
      → contains ⦃e = date_eq⦄ (missed_days c keep today n offset missed) (sub_days today k) ≡ true
  unfolding missed_days
  missed_days_complete keep today zero offset missed k lo hi h = absurd (omega arith)
  missed_days_complete keep today (suc n) offset missed k lo hi h = elim (ℕ_discrete offset k) [
    | yes e ↦ missed_days_mono keep today n (offset + 1) _ (sub_days today k) (
        rw (e, h)
          (rw
            (
              contains-append ⦃e = date_eq⦄ missed (sub_days today k ∷ []) (sub_days today k),
              beq_refl ⦃e = date_eq⦄ (sub_days today k),
            )
            (ground arith)))
    | no ne ↦ missed_days_complete keep today n (offset + 1) _ k (omega arith) (omega arith) h
  ]

  pub Every-contains {κ} :
      (P : Date → Type κ) (xs : List Date) (x : Date)
      → Every P xs
      → contains ⦃e = date_eq⦄ xs x ≡ true
      → P x
  Every-contains P [] x h m = absurd (false≢true m)
  Every-contains P (y ∷ xs) x h m = elim (Bool-cases (date_eq.beq y x)) [
    | inl e ↦ rw (← (date_eq.beq_iff y x).0 e) h.0
    | inr e ↦ Every-contains P xs x h.1 (ground arith)
  ]
