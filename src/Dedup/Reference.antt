-- ===== src/Dedup/Reference.antt =====
-- What the pass means, with no index: each event is folded into the list of those kept so far.
use dayseam.Prelude.{
  Bool, true, false, not, ◌&&◌, ◌||◌, List, [], ◌∷◌, ◌++◌, ◌≡◌, refl, arith, if◌then◌else◌, ◌==◌,
  filter, any, Bool-cases, inl, inr, filter-append, sym, ap, ◌∙◌, append_assoc, append-nil,
}
use dayseam.Activity.{ActivityEvent, is_commit_authored, redacted_private_repo, normal}
use dayseam.Dedup.{merge_two}
use dayseam.Text.{Text, text_eq, text_eqb_iff}
use dayseam.Dedup.Survivor.{is_commit_authored-merge_two, external_id-merge_two}

module _ {V : Type 0} where
  abbrev pub is_commit : ActivityEvent V → Bool
  is_commit e = is_commit_authored e.kind

  -- A commit of this SHA.
  abbrev pub commits : Text → ActivityEvent V → Bool
  commits sha e = is_commit_authored e.kind && e.external_id == sha

  -- `x` is the earlier row of the commit that `e` reports.
  abbrev pub collides : ActivityEvent V → ActivityEvent V → Bool
  collides e x = is_commit e && commits e.external_id x

  pub collides_lem :
      (e x : ActivityEvent V)
      → collides e x ≡ true
      → (is_commit e ≡ true) × (is_commit x ≡ true) × (x.external_id ≡ e.external_id)
  collides_lem e x h = ground (arith, text_eqb_iff x.external_id e.external_id)

  pub commits-collides :
      (sha : Text) (e x : ActivityEvent V)
      → collides e x ≡ true
      → (commits sha x ≡ commits sha e) × (commits sha (merge_two x e) ≡ commits sha e)
  commits-collides sha e x h =
      let (ce, cx, same) = collides_lem e x h in
      let kinds = is_commit_authored-merge_two x e (cx ∙ sym ce) in
      let ids = external_id-merge_two x e same in (rw (ce, cx, same), rw (kinds, ids))

  pub is_commit-collides :
      (e x : ActivityEvent V)
      → collides e x ≡ true
      → (is_commit e ≡ true) × (is_commit x ≡ true) × (is_commit (merge_two x e) ≡ true)
  is_commit-collides e x h =
      let (ce, cx, same) = collides_lem e x h in
      (ce, cx, is_commit_authored-merge_two x e (cx ∙ sym ce) ∙ ce)

  unfoldable pub absorb : List (ActivityEvent V) → ActivityEvent V → List (ActivityEvent V)
  absorb [] e = e ∷ []
  absorb (x ∷ xs) e = if collides e x then merge_two x e ∷ xs else x ∷ absorb xs e

  unfoldable pub absorb_all :
      List (ActivityEvent V) → List (ActivityEvent V) → List (ActivityEvent V)
  absorb_all out [] = out
  absorb_all out (e ∷ es) = absorb_all (absorb out e) es

  abbrev pub others : ActivityEvent V → Bool
  others e = not (is_commit_authored e.kind)

  -- Absorbing an event keeps the events that are no commits, in order.
  filter-absorb :
      (out : List (ActivityEvent V)) (e : ActivityEvent V)
      → filter others (absorb out e) ≡ filter others out ++ filter others (e ∷ [])
  unfolding absorb
  filter-absorb [] e = refl
  filter-absorb (x ∷ xs) e = elim (Bool-cases (collides e x)) [
    | inl h ↦
        let (ce, cx, cm) = is_commit-collides e x h in rw h (rw (ce, cx, cm) (sym (append-nil _)))
    | inr h ↦ rw h (ground (arith, filter-absorb xs e))
  ]

  pub filter-absorb_all :
      (es out : List (ActivityEvent V))
      → filter others (absorb_all out es) ≡ filter others out ++ filter others es
  unfolding absorb_all
  filter-absorb_all [] out = sym (append-nil _)
  filter-absorb_all (e ∷ es) out =
      rw (filter-absorb_all es (absorb out e), filter-absorb out e)
        (rw append_assoc
          (ap (λ l. filter others out ++ l) (sym (filter-append others (e ∷ []) es))))

  abbrev pub redacted : ActivityEvent V → Bool
  redacted e = elim e.privacy [ normal ↦ false | redacted_private_repo ↦ true ]

  -- A commit of this SHA that is marked private.
  abbrev pub redacted_commits : Text → ActivityEvent V → Bool
  redacted_commits sha e = commits sha e && redacted e

  pub any-absorb :
      (sha : Text) (out : List (ActivityEvent V)) (e : ActivityEvent V)
      → any (commits sha) (absorb out e) ≡ (any (commits sha) out || commits sha e)
  unfolding absorb
  any-absorb sha [] e = ground arith
  any-absorb sha (x ∷ xs) e = elim (Bool-cases (collides e x)) [
    | inl h ↦ let (cx, cm) = commits-collides sha e x h in rw h (rw (cx, cm) (ground arith))
    | inr h ↦ rw h (ground (arith, any-absorb sha xs e))
  ]
