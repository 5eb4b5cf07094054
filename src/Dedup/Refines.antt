-- ===== src/Dedup/Refines.antt =====
-- The loop with its index computes the reference, and never panics.
use dayseam.Prelude.{
  ℕ, suc, Bool, true, false, ◌&&◌, List, [], ◌∷◌, ◌++◌, ◌≡◌, inl, inr, refl, sym, ap, ◌∙◌, arith,
  Option, none, some, map, length, get_elem?, set, any, if◌then◌else◌, ◌==◌, Bool-cases,
  Option-cases,
}
use dayseam.Prelude.Maps.{lookup, insert, lookup-insert}
use dayseam.Text.{Text, text_eq, text_eqb_iff}
use dayseam.Activity.{ActivityEvent}
use dayseam.Dedup.{Progress, step, run, flatten, dedup_commit_authored, merge_two}
use dayseam.Dedup.Reference.{is_commit, commits, collides, commits-collides, absorb, absorb_all}

abbrev next : Option ℕ → Option ℕ
next none = none
next (some i) = some (suc i)

-- The index of the commit in a list that is one event longer, of length `n` before.
abbrev after : Bool → ℕ → Option ℕ → Option ℕ
after new n (some i) = some i
after new n none = if new then some n else none

after_old : (n : ℕ) (o : Option ℕ) → after false n o ≡ o
after_old n none = refl
after_old n (some i) = refl

module _ {V : Type 0} where
  index_of : Text → List (ActivityEvent V) → Option ℕ
  index_of sha [] = none
  index_of sha (x ∷ xs) = if commits sha x then some 0 else next (index_of sha xs)

  index_of-append :
      (sha : Text) (out : List (ActivityEvent V)) (e : ActivityEvent V)
      → index_of sha (out ++ e ∷ []) ≡ after (commits sha e) (length out) (index_of sha out)
  unfolding index_of
  index_of-append sha [] e = refl
  index_of-append sha (x ∷ xs) e = ground (arith, index_of-append sha xs e)

  index_of-none :
      (sha : Text) (out : List (ActivityEvent V))
      → index_of sha out ≡ none
      → any (commits sha) out ≡ false
  unfolding index_of
  index_of-none sha [] h = refl
  index_of-none sha (x ∷ xs) h = ground (arith, index_of-none sha xs)

  -- An event that meets no earlier row of its commit goes to the end.
  pub absorb_fresh :
      (out : List (ActivityEvent V)) (e : ActivityEvent V)
      → (is_commit e && any (commits e.external_id) out) ≡ false
      → absorb out e ≡ out ++ e ∷ []
  unfolding absorb
  absorb_fresh [] e h = refl
  absorb_fresh (x ∷ xs) e h = ground (arith, absorb_fresh xs e)

  -- At the index of its commit the event is merged into the row that stands there.
  absorb_at :
      (out : List (ActivityEvent V)) (e : ActivityEvent V) {i : ℕ}
      → is_commit e ≡ true
      → index_of e.external_id out ≡ some i
      → (x : ActivityEvent V) × (get_elem? (map {B = Option (ActivityEvent V)} some out) i
          ≡ some (some x))
        × (set (map some out) i (some (merge_two x e)) ≡ map some (absorb out e))
        × ((sha : Text) → index_of sha (absorb out e) ≡ index_of sha out)
  unfolding index_of absorb
  absorb_at [] e c h = cc
  absorb_at (x ∷ xs) e {i} c h = elim (Bool-cases (collides e x)) [
    | inl k ↦
        let first : 0 ≡ i = ground arith in
        rw (← first) (
          x,
          refl,
          rw k refl,
          λ sha. rw k (
              let (old, new) = commits-collides sha e x k in
              ap (λ b. if b then some 0 else next (index_of sha xs)) (new ∙ sym old)),
        )
    | inr k ↦ elim (Option-cases (index_of e.external_id xs)) [
      | inl missing ↦ ground arith
      | inr (j, found) ↦
          let later : suc j ≡ i = ground arith in
          let (y, at, written, same) = absorb_at xs e c found in
          rw (← later) (
            y,
            at,
            rw (k, written),
            λ sha. rw k (ap (λ n. if commits sha x then some 0 else next n) (same sha)),
          )
    ]
  ]

  record Tracks (s : Progress V) (out : List (ActivityEvent V)) : Type 0 where
    slots : s.merged ≡ map some out
    index : (sha : Text) → lookup sha s.by_sha ≡ index_of sha out

  length-map-some :
      (out : List (ActivityEvent V))
      → length (map {B = Option (ActivityEvent V)} some out) ≡ length out
  length-map-some [] = refl
  length-map-some (x ∷ xs) = ap suc (length-map-some xs)

  map-some-append :
      (xs ys : List (ActivityEvent V))
      → map {B = Option (ActivityEvent V)} some (xs ++ ys) ≡ map some xs ++ map some ys
  map-some-append [] ys = refl
  map-some-append (x ∷ xs) ys = ap (◌∷◌ (some x)) (map-some-append xs ys)

  flatten-map-some : (out : List (ActivityEvent V)) → flatten (map some out) ≡ out
  flatten-map-some [] = refl
  flatten-map-some (x ∷ xs) = ap (◌∷◌ x) (flatten-map-some xs)

  abbrev Moves : Progress V → List (ActivityEvent V) → ActivityEvent V → Type 0
  Moves s out e = (t : Progress V) × (step s e ≡ some t) × Tracks t (absorb out e)

  step_other :
      (s : Progress V) (out : List (ActivityEvent V)) (e : ActivityEvent V)
      → Tracks s out
      → is_commit e ≡ false
      → Moves s out e
  unfolding step
  step_other s out e r c =
      let fresh = absorb_fresh out e (ground arith) in
      (
        record { merged = s.merged ++ (some e ∷ []); by_sha = s.by_sha },
        rw c refl,
        record {
          slots = rw (fresh, map-some-append out (e ∷ []), ← r.slots);
          index = λ sha.
              rw (fresh, index_of-append sha out e, c)
                (r.index sha ∙ sym (after_old (length out) (index_of sha out)));
        },
      )

  step_new :
      (s : Progress V) (out : List (ActivityEvent V)) (e : ActivityEvent V)
      → Tracks s out
      → is_commit e ≡ true
      → index_of e.external_id out ≡ none
      → Moves s out e
  unfolding step
  step_new s out e r c missing =
      let fresh =
        absorb_fresh out e (rw (index_of-none e.external_id out missing) (ground arith)) in
      let sized : length s.merged ≡ length out = rw r.slots (length-map-some out) in
      (
        record {
          merged = s.merged ++ (some e ∷ []);
          by_sha = insert e.external_id (length s.merged) s.by_sha;
        },
        rw (c, r.index e.external_id, missing) refl,
        record {
          slots = rw (fresh, map-some-append out (e ∷ []), ← r.slots);
          index = λ sha.
              rw (fresh, index_of-append sha out e, c, lookup-insert e.external_id sha, sized)
                (elim (Bool-cases (e.external_id == sha)) [
                  | inl same ↦ rw (same, ← (text_eqb_iff e.external_id sha).0 same, missing) refl
                  | inr other ↦
                      rw (other, r.index sha) (sym (after_old (length out) (index_of sha out)))
                ]);
        },
      )

  step_seen :
      (s : Progress V) (out : List (ActivityEvent V)) (e : ActivityEvent V) {i : ℕ}
      → Tracks s out
      → is_commit e ≡ true
      → index_of e.external_id out ≡ some i
      → Moves s out e
  unfolding step
  step_seen s out e {i} r c found =
      let (x, at, written, same) = absorb_at out e c found in
      (
        record s { merged = set s.merged i (some (merge_two x e)) },
        rw (c, r.index e.external_id, found, r.slots, at) refl,
        record { slots = rw r.slots written; index = λ sha. r.index sha ∙ sym (same sha) },
      )

  step-absorb :
      (s : Progress V) (out : List (ActivityEvent V)) (e : ActivityEvent V)
      → Tracks s out
      → Moves s out e
  step-absorb s out e r = elim (Bool-cases (is_commit e)) [
    | inl c ↦ elim (Option-cases (index_of e.external_id out)) [
      | inl missing ↦ step_new s out e r c missing
      | inr (i, found) ↦ step_seen s out e r c found
    ]
    | inr c ↦ step_other s out e r c
  ]

  run-absorb_all :
      (es : List (ActivityEvent V)) (s : Progress V) (out : List (ActivityEvent V))
      → Tracks s out
      → (t : Progress V) × (run s es ≡ some t) × Tracks t (absorb_all out es)
  unfolding run absorb_all
  run-absorb_all [] s out r = (s, refl, r)
  run-absorb_all (e ∷ es) s out r =
      let (t, moved, r') = step-absorb s out e r in
      let (u, ran, r'') = run-absorb_all es t (absorb out e) r' in (u, rw (moved, run) ran, r'')

  -- The pass never panics: it returns the list into which the events are folded one by one, each
  -- merged into the kept row of its commit where there is one, and put at the end where not.
  pub dedup_commit_authored-absorb_all :
      (es : List (ActivityEvent V)) → dedup_commit_authored es ≡ some (absorb_all [] es)
  unfolding dedup_commit_authored
  dedup_commit_authored-absorb_all es =
      let (t, ran, r) =
        run-absorb_all es (record { merged = []; by_sha = [] }) []
          (record { slots = refl; index = λ sha. unfold lookup index_of in refl }) in
      rw (ran, dedup_commit_authored) (ap some (rw r.slots (flatten-map-some (absorb_all [] es))))
