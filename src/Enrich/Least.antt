-- ===== src/Enrich/Least.antt =====
-- The choice among the candidates of a transition.
use mathlib.Core.Path.{subst}
use dayseam.Prelude.{
  sym, ℕ, ◌+◌, ◌<◌, ◌≤◌, ◌≡◌, ◌⊎◌, refl, arith, true, false, List, [], ◌∷◌, filter, Every,
  Bool-cases, inl, inr,
}
use dayseam.Enrich.Links.{MrCandidate, is_less, least_from, in_window}

-- The candidate is no later than the other, and among those of one instant its identifier is no larger.
abbrev pub IsBefore : MrCandidate → MrCandidate → Type 0
IsBefore c d = (c.occurred_at < d.occurred_at) ⊎ ((c.occurred_at ≡ d.occurred_at) × (c.id ≤ d.id))

abbrev pub IsAmong : MrCandidate → List MrCandidate → Type 0
IsAmong c [] = ⊥
IsAmong c (d ∷ pool) = (c ≡ d) ⊎ IsAmong c pool

is_less_lem :
    (c d : MrCandidate) → (is_less c d ≡ true → IsBefore c d) × (is_less c d ≡ false → IsBefore d c)
is_less_lem c d = (λ less. ground arith, λ not_less. ground arith)

IsBefore-trans : (a b c : MrCandidate) → IsBefore a b → IsBefore b c → IsBefore a c
IsBefore-trans a b c p q = ground arith

Every-IsBefore :
    (a b : MrCandidate) (pool : List MrCandidate)
    → IsBefore a b
    → Every (IsBefore b) pool
    → Every (IsBefore a) pool
Every-IsBefore a b [] first all = tt
Every-IsBefore a b (c ∷ pool) first (next, all) =
    (IsBefore-trans a b c first next, Every-IsBefore a b pool first all)

abbrev IsLeast : MrCandidate → List MrCandidate → Type 0
IsLeast c pool = IsAmong c pool × Every (IsBefore c) pool

pub least_from_lem :
    (best : MrCandidate) (pool : List MrCandidate) → IsLeast (least_from best pool) (best ∷ pool)
least_from_lem best [] = (inl refl, (inr (refl, omega arith), tt))
least_from_lem best (c ∷ pool) = elim (Bool-cases (is_less c best)) [
  | inl less ↦
      let (among, (here, all)) = least_from_lem c pool in
      subst (λ m. IsLeast (least_from m pool) (best ∷ c ∷ pool)) (sym (rw less refl))
        (
          inr among,
          (
            IsBefore-trans (least_from c pool) c best here ((is_less_lem c best).0 less),
            (here, all),
          ),
        )
  | inr not_less ↦
      let (among, (here, all)) = least_from_lem best pool in
      subst (λ m. IsLeast (least_from m pool) (best ∷ c ∷ pool)) (sym (rw not_less refl))
        (
          elim among [ inl same ↦ inl same | inr later ↦ inr (inr later) ],
          (
            here,
            (
              IsBefore-trans (least_from best pool) best c here ((is_less_lem c best).1 not_less),
              all,
            ),
          ),
        )
]

-- A day, in nanoseconds.
abbrev pub day : ℕ
day = 86400000000000

-- The candidate stands in the day up to the instant, or it does not.
abbrev pub IsRecent : ℕ → MrCandidate → Type 0
IsRecent t c = (c.occurred_at ≤ t) × (t ≤ c.occurred_at + day)

abbrev pub IsAside : ℕ → MrCandidate → Type 0
IsAside t c = (t < c.occurred_at) ⊎ (c.occurred_at + day < t)

in_window_lem :
    (t : ℕ) (c : MrCandidate)
    → (in_window t c ≡ true → IsRecent t c) × (in_window t c ≡ false → IsAside t c)
in_window_lem t c = (λ inside. ground arith, λ outside. ground arith)

pub filter-IsAmong :
    (t : ℕ) (c : MrCandidate) (pool : List MrCandidate)
    → IsAmong c (filter (in_window t) pool)
    → IsAmong c pool × IsRecent t c
filter-IsAmong t c [] among = absurd among
filter-IsAmong t c (d ∷ pool) among = elim (Bool-cases (in_window t d)) [
  | inl inside ↦ elim (rw inside at among) [
    | inl same ↦ (inl same, rw same ((in_window_lem t d).0 inside))
    | inr later ↦ let (stands, recent) = filter-IsAmong t c pool later in (inr stands, recent)
  ]
  | inr outside ↦
      let (stands, recent) = filter-IsAmong t c pool (rw outside at among) in (inr stands, recent)
]

pub filter-Every :
    (t : ℕ) (P : MrCandidate → Type 0) (pool : List MrCandidate)
    → Every P (filter (in_window t) pool)
    → Every (λ d. IsAside t d ⊎ P d) pool
filter-Every t P [] all = tt
filter-Every t P (d ∷ pool) all = elim (Bool-cases (in_window t d)) [
  | inl inside ↦ let (here, rest) = rw inside at all in (inr here, filter-Every t P pool rest)
  | inr outside ↦ (inl ((in_window_lem t d).1 outside), filter-Every t P pool (rw outside at all))
]

pub filter-nil :
    (t : ℕ) (pool : List MrCandidate) → filter (in_window t) pool ≡ [] → Every (IsAside t) pool
filter-nil t [] empty = tt
filter-nil t (c ∷ pool) empty = elim (Bool-cases (in_window t c)) [
  | inl inside ↦ ground (arith, inside, empty)
  | inr outside ↦ ((in_window_lem t c).1 outside, filter-nil t pool (rw outside at empty))
]
