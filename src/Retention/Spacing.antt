-- ===== src/Retention/Spacing.antt =====
-- The guard over any sequence of claims and external sweeps, and the sweep itself.
use dayseam.Prelude.{
  ◌<◌, ◌∙◌, ℕ, suc, ◌+◌, ◌≤◌, ◌≡◌, refl, ap, arith, Bool, true, false, List, [], ◌∷◌, Option, none,
  some, ltb, Bool-cases, Option-cases, ◌⊎◌, inl, inr,
}
use dayseam.Retention.{RetentionSchedule, claim_sweep_slot, note_external_sweep}

pub data Call : Type 0 where
  claim external : ℕ → Call

abbrev pub call : RetentionSchedule → Call → RetentionSchedule × Bool
call s (claim now) = claim_sweep_slot s now
call s (external now) = (note_external_sweep s now, true)

-- The sweeps that a sequence of calls leads to, refused claims left out, and the guard at the end.
abbrev swept : Bool → Call → List Call → List Call
swept true c rest = c ∷ rest
swept false c rest = rest

unfoldable pub sweeps : RetentionSchedule → List Call → List Call
sweeps s [] = []
sweeps s (c ∷ cs) = swept (call s c).1 c (sweeps (call s c).0 cs)

pub after : RetentionSchedule → List Call → RetentionSchedule
after s [] = s
after s (c ∷ cs) = after (call s c).0 cs

abbrev time : Call → ℕ
time (claim t) = t
time (external t) = t

abbrev pub claims : List Call → ℕ
claims [] = 0
claims (claim t ∷ cs) = suc (claims cs)
claims (external t ∷ cs) = claims cs

-- The interval has passed since the sweep before, whoever made that, or there was none.
abbrev IsDue : ℕ → Option ℕ → ℕ → Type 0
IsDue gap none t = Unit
IsDue gap (some prev) t = prev + gap ≤ t

-- The sweeps of a sequence of calls: each external one, and of the claims exactly those that are due.
abbrev pub IsSpaced : ℕ → Option ℕ → List Call → List Call → Type 0
IsSpaced gap last [] out = out ≡ []
IsSpaced gap last (external t ∷ cs) out =
    (rest : List Call) × (out ≡ external t ∷ rest) × IsSpaced gap (some t) cs rest
IsSpaced gap last (claim t ∷ cs) out =
    ((rest : List Call) × IsDue gap last t × (out ≡ claim t ∷ rest) × IsSpaced gap (some t) cs rest)
    ⊎ ((prev : ℕ) × (last ≡ some prev) × (t < prev + gap) × IsSpaced gap last cs out)

-- The instant of the last sweep, if there is one.
abbrev pub last_of : Option ℕ → List Call → Option ℕ
last_of last [] = last
last_of last (c ∷ cs) = last_of (some (time c)) cs

abbrev granted : RetentionSchedule → ℕ → RetentionSchedule
granted s t = record s { last = some t; sweeps_performed = s.sweeps_performed + 1 }

claim_sweep_slot-cases :
    (s : RetentionSchedule) (t : ℕ)
    → ((prev : ℕ) × (claim_sweep_slot s t ≡ (s, false))
        × (s.last ≡ some prev)
        × (t < prev + s.min_interval))
      ⊎ ((claim_sweep_slot s t ≡ (granted s t, true)) × IsDue s.min_interval s.last t)
unfolding claim_sweep_slot
claim_sweep_slot-cases s t = elim (Option-cases s.last) [
  | inl e ↦ inr (rw e refl, rw e tt)
  | inr (prev, e) ↦ elim (Bool-cases (ltb t (prev + s.min_interval))) [
    | inl early ↦ inl (prev, rw (e, early) refl, e, ground arith)
    | inr due ↦ inr (rw (e, due) refl, rw e (ground arith))
  ]
]

sweeps-refused :
    (s : RetentionSchedule) (t : ℕ) (cs : List Call)
    → claim_sweep_slot s t ≡ (s, false)
    → (sweeps s (claim t ∷ cs) ≡ sweeps s cs) × (after s (claim t ∷ cs) ≡ after s cs)
sweeps-refused s t cs refused =
    (unfold sweeps in (rw refused refl), unfold after in (rw refused refl))

sweeps-granted :
    (s : RetentionSchedule) (t : ℕ) (cs : List Call)
    → claim_sweep_slot s t ≡ (granted s t, true)
    → (sweeps s (claim t ∷ cs) ≡ claim t ∷ sweeps (granted s t) cs)
      × (after s (claim t ∷ cs) ≡ after (granted s t) cs)
sweeps-granted s t cs passed = (unfold sweeps in (rw passed refl), unfold after in (rw passed refl))

sweeps_external :
    (s : RetentionSchedule) (t : ℕ) (cs : List Call)
    → (sweeps s (external t ∷ cs) ≡ external t ∷ sweeps (note_external_sweep s t) cs)
      × (after s (external t ∷ cs) ≡ after (note_external_sweep s t) cs)
unfolding sweeps after
sweeps_external s t cs = (refl, refl)

sweeps-nil : (s : RetentionSchedule) → (sweeps s [] ≡ []) × (after s [] ≡ s)
unfolding sweeps after
sweeps-nil s = (refl, refl)

-- The guard after these sweeps.
abbrev pub ended : RetentionSchedule → List Call → RetentionSchedule
ended s done = record {
  min_interval = s.min_interval;
  last = last_of s.last done;
  sweeps_performed = s.sweeps_performed + claims done;
}

ended-granted :
    (s : RetentionSchedule) (t : ℕ) (rest : List Call)
    → ended (granted s t) rest ≡ ended s (claim t ∷ rest)
ended-granted s t rest =
    ap
      (λ n. record {
        min_interval = s.min_interval;
        last = last_of (some t) rest;
        sweeps_performed = n;
      })
      (omega arith)

-- Whatever the sequence of claims and of sweeps by others: a claim is granted if and only if there was
-- no sweep before it or the last one is `min_interval` or more ago. At the end the guard holds the
-- instant of the last sweep, has counted the claims that were granted, and has its interval; so a claim
-- that is refused has changed nothing.
pub sweeps-IsSpaced :
    (s : RetentionSchedule) (cs : List Call)
    → IsSpaced s.min_interval s.last cs (sweeps s cs) × (after s cs ≡ ended s (sweeps s cs))
sweeps-IsSpaced s [] =
    let (none_swept, same) = sweeps-nil s in
    rw (none_swept, same) (refl, ap (λ n. record s { sweeps_performed = n }) (omega arith))
sweeps-IsSpaced s (external t ∷ cs) =
    let (spaced, ends) = sweeps-IsSpaced (note_external_sweep s t) cs in
    let (first, last) = sweeps_external s t cs in rw (first, last) ((_, refl, spaced), ends)
sweeps-IsSpaced s (claim t ∷ cs) = elim (claim_sweep_slot-cases s t) [
  | inl (prev, refused, known, early) ↦
      let (first, last) = sweeps-refused s t cs refused in
      let (spaced, ends) = sweeps-IsSpaced s cs in
      rw (first, last) (inr (prev, known, early, spaced), ends)
  | inr (passed, due) ↦
      let (spaced, ends) = sweeps-IsSpaced (granted s t) cs in
      let (first, last) = sweeps-granted s t cs passed in
      rw (first, last)
        (inl (_, due, refl, spaced), ends ∙ ended-granted s t (sweeps (granted s t) cs))
]
