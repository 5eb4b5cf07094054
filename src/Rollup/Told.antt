-- ===== src/Rollup/Told.antt =====
-- What a list of events, or the groups, tell of, and that neither a sort nor the merge of two groups
-- loses it.
use dayseam.Prelude.{
  ◌≡◌, refl, sym, ◌∙◌, ap, arith, Bool, true, false, ◌||◌, List, [], ◌∷◌, ◌++◌, ◌==◌, any,
  any-append, contains, Bool-cases, inl, inr,
}
use Prim.Native.Nat.{Ordering}
use dayseam.Text.{Text, text_eq, text_eqb_iff}
use dayseam.Activity.{ActivityEvent}
use dayseam.Rollup.Groups.{RolledUpArtifact, sift, sort_by}
use dayseam.Rollup.Stages.{
  set_key_eq, sort_events, event_cmp, extend_unseen, external_ids, merged_into,
}

any-sift :
    {X : Type 0} (p : X → Bool) (cmp : X → X → Ordering) (x : X) (ys : List X)
    → any p (sift cmp x ys) ≡ (p x || any p ys)
unfolding sift
any-sift p cmp x [] = refl
any-sift p cmp x (y ∷ ys) = ground (arith, any-sift p cmp x ys)

pub any-sort_by :
    {X : Type 0} (p : X → Bool) (cmp : X → X → Ordering) (xs : List X)
    → any p (sort_by cmp xs) ≡ any p xs
unfolding sort_by
any-sort_by p cmp [] = refl
any-sort_by p cmp (x ∷ xs) =
    any-sift p cmp x (sort_by cmp xs) ∙ ap (λ rest. p x || rest) (any-sort_by p cmp xs)

-- Whether a list of events, or a group among some, tells of an upstream record.
abbrev pub tells : {V : Type 0} → Text → List (ActivityEvent V) → Bool
tells sought = any (λ e. e.external_id == sought)

abbrev pub mentions : {V : Type 0} → Text → List (RolledUpArtifact V) → Bool
mentions sought = any (λ group. tells sought group.events)

module _ {V : Type 0} where
  pub tells-sort_events :
      (sought : Text) (events : List (ActivityEvent V))
      → tells sought (sort_events events) ≡ tells sought events
  unfolding sort_events
  tells-sort_events sought events = any-sort_by (λ e. e.external_id == sought) event_cmp events

  extend_keeps :
      (sought : Text) (seen : List Text) (events more : List (ActivityEvent V))
      → tells sought events ≡ true
      → tells sought (extend_unseen seen events more) ≡ true
  unfolding extend_unseen
  extend_keeps sought seen events [] told = told
  extend_keeps sought seen events (event ∷ more) told =
      elim (Bool-cases (contains seen event.external_id)) [
        | inl known ↦ rw known (extend_keeps sought seen events more told)
        | inr new ↦ rw new (
            extend_keeps sought (event.external_id ∷ seen) (events ++ (event ∷ [])) more
              (any-append (λ e. e.external_id == sought) events (event ∷ []) ∙ rw told refl))
      ]

  extend_adds :
      (sought : Text) (seen : List Text) (events more : List (ActivityEvent V))
      → (contains seen sought ≡ true → tells sought events ≡ true)
      → tells sought more ≡ true
      → tells sought (extend_unseen seen events more) ≡ true
  unfolding extend_unseen
  extend_adds sought seen events [] covered told = ground arith
  extend_adds sought seen events (event ∷ more) covered told =
      elim (Bool-cases (event.external_id == sought)) [
        | inl same ↦
            let at = (text_eqb_iff event.external_id sought).0 same in
            elim (Bool-cases (contains seen event.external_id)) [
              | inl known ↦ rw known (
                  extend_keeps sought seen events more
                    (covered (ap (contains seen) (sym at) ∙ known)))
              | inr new ↦ rw new (
                  extend_keeps sought (event.external_id ∷ seen) (events ++ (event ∷ [])) more (
                    any-append (λ e. e.external_id == sought) events (event ∷ [])
                    ∙ ground (arith, same)))
            ]
        | inr apart ↦
            let later : tells sought more ≡ true = ground (arith, apart, told) in
            elim (Bool-cases (contains seen event.external_id)) [
              | inl known ↦ rw known (extend_adds sought seen events more covered later)
              | inr new ↦ rw new (
                  extend_adds sought (event.external_id ∷ seen) (events ++ (event ∷ [])) more
                    (λ known.
                      let before : contains seen sought ≡ true = ground (arith, apart, known) in
                      any-append (λ e. e.external_id == sought) events (event ∷ [])
                      ∙ rw (covered before) refl)
                    later)
            ]
      ]

  external_ids-tells :
      (sought : Text) (events : List (ActivityEvent V))
      → contains (external_ids events) sought ≡ tells sought events
  external_ids-tells sought [] = refl
  external_ids-tells sought (event ∷ events) = ground (arith, external_ids-tells sought events)

  -- A merged group tells of what either of the two told.
  pub merged_tells :
      (sought : Text) (existing group : RolledUpArtifact V)
      → (tells sought existing.events || tells sought group.events) ≡ true
      → tells sought (merged_into existing group).events ≡ true
  merged_tells sought existing group told =
      tells-sort_events sought
        (extend_unseen (external_ids existing.events) existing.events group.events)
      ∙ elim (Bool-cases (tells sought existing.events)) [
        | inl before ↦
            extend_keeps sought (external_ids existing.events) existing.events group.events before
        | inr others ↦
            extend_adds sought (external_ids existing.events) existing.events group.events
              (λ known. sym (external_ids-tells sought existing.events) ∙ known)
              (ground (arith, others, told))
      ]

pub or_true : (b : Bool) → (b || true) ≡ true
or_true true = refl
or_true false = refl
