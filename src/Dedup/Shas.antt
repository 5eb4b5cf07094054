-- ===== src/Dedup/Shas.antt =====
-- What the result of the pass holds, and that a second pass finds nothing to do.
use dayseam.Prelude.{
  Bool, true, false, ◌&&◌, ◌||◌, List, [], ◌∷◌, ◌++◌, ◌≡◌, refl, sym, ap, ◌∙◌, arith, some, any,
  any-append, filter, Bool-cases, inl, inr, append-nil, append_assoc,
}
use dayseam.Text.{Text, text_eq, text_eqb_iff}
use dayseam.Activity.{ActivityEvent, normal, redacted_private_repo}
use dayseam.Dedup.{dedup_commit_authored, merge_two, louder_privacy}
use dayseam.Dedup.Survivor.{privacy-merge_two, external_id-merge_two}
use dayseam.Dedup.Reference.{
  is_commit, commits, collides, collides_lem, others, commits-collides, is_commit-collides, absorb,
  absorb_all, any-absorb, filter-absorb_all,
}
use dayseam.Dedup.Refines.{absorb_fresh, dedup_commit_authored-absorb_all}

module _ {V : Type 0} where
  -- A commit of this SHA that is marked private.
  abbrev pub private_commits : Text → ActivityEvent V → Bool
  private_commits sha e =
      commits sha e && elim e.privacy [ normal ↦ false | redacted_private_repo ↦ true ]

  any-private-absorb :
      (sha : Text) (out : List (ActivityEvent V)) (e : ActivityEvent V)
      → any (private_commits sha) (absorb out e)
        ≡ (any (private_commits sha) out || private_commits sha e)
  unfolding absorb louder_privacy
  any-private-absorb sha [] e = ground arith
  any-private-absorb sha (x ∷ xs) e = elim (Bool-cases (collides e x)) [
    | inl h ↦
        let (cx, cm) = commits-collides sha e x h in
        rw h (rw (cx, cm, privacy-merge_two x e) (ground arith))
    | inr h ↦ rw h (ground (arith, any-private-absorb sha xs e))
  ]

  any-absorb_all :
      (p : ActivityEvent V → Bool)
      → ((out : List (ActivityEvent V)) (e : ActivityEvent V)
          → any p (absorb out e) ≡ (any p out || p e))
      → (es out : List (ActivityEvent V)) → any p (absorb_all out es) ≡ (any p out || any p es)
  unfolding absorb_all
  any-absorb_all p h [] out = ground arith
  any-absorb_all p h (e ∷ es) out = ground (arith, any-absorb_all p h es (absorb out e), h out e)

  -- No commit stands twice.
  abbrev pub IsDistinct : List (ActivityEvent V) → Type 0
  IsDistinct [] = Unit
  IsDistinct (x ∷ xs) = ((is_commit x && any (commits x.external_id) xs) ≡ false) × IsDistinct xs

  absorb_hit :
      (x e : ActivityEvent V) (xs : List (ActivityEvent V))
      → collides e x ≡ true
      → absorb (x ∷ xs) e ≡ merge_two x e ∷ xs
  unfolding absorb
  absorb_hit x e xs h = rw h refl

  absorb_miss :
      (x e : ActivityEvent V) (xs : List (ActivityEvent V))
      → collides e x ≡ false
      → absorb (x ∷ xs) e ≡ x ∷ absorb xs e
  unfolding absorb
  absorb_miss x e xs h = rw h refl

  absorb-IsDistinct :
      (out : List (ActivityEvent V)) (e : ActivityEvent V)
      → IsDistinct out
      → IsDistinct (absorb out e)
  absorb-IsDistinct [] e d = unfold absorb in ground arith
  absorb-IsDistinct (x ∷ xs) e d = elim (Bool-cases (collides e x)) [
    | inl h ↦
        let (ce, cx, same) = collides_lem e x h in
        let (_, _, cm) = is_commit-collides e x h in
        let here : any (commits x.external_id) xs ≡ false = ground arith in
        rw (absorb_hit x e xs h) (rw (cm, external_id-merge_two x e same, ← same) here, d.1)
    | inr h ↦ rw (absorb_miss x e xs h) (
      rw (any-absorb x.external_id xs e) (
          ground (
            arith,
            text_eqb_iff x.external_id e.external_id,
            text_eqb_iff e.external_id x.external_id,
          )),
      absorb-IsDistinct xs e d.1,
    )
  ]

  pub absorb_all-IsDistinct :
      (es out : List (ActivityEvent V)) → IsDistinct out → IsDistinct (absorb_all out es)
  unfolding absorb_all
  absorb_all-IsDistinct [] out d = d
  absorb_all-IsDistinct (e ∷ es) out d =
      absorb_all-IsDistinct es (absorb out e) (absorb-IsDistinct out e d)

  -- Of a distinct list that continues `out`, no event meets an earlier row of its commit.
  IsDistinct-fresh :
      (out es : List (ActivityEvent V)) (e : ActivityEvent V)
      → IsDistinct (out ++ e ∷ es)
      → (is_commit e && any (commits e.external_id) out) ≡ false
  IsDistinct-fresh [] es e d = ground arith
  IsDistinct-fresh (x ∷ xs) es e d = ground (
    arith,
    IsDistinct-fresh xs es e d.1,
    any-append (commits x.external_id) xs (e ∷ es),
    text_eqb_iff x.external_id e.external_id,
    text_eqb_iff e.external_id x.external_id,
  )

  pub absorb_all-IsDistinct_self :
      (es out : List (ActivityEvent V)) → IsDistinct (out ++ es) → absorb_all out es ≡ out ++ es
  unfolding absorb_all
  absorb_all-IsDistinct_self [] out d = sym (append-nil out)
  absorb_all-IsDistinct_self (e ∷ es) out d =
      rw (absorb_fresh out e (IsDistinct-fresh out es e d)) (
        absorb_all-IsDistinct_self es (out ++ e ∷ []) (rw append_assoc d)
        ∙ append_assoc out (e ∷ []) es)

  module _ (es out : List (ActivityEvent V)) (ran : dedup_commit_authored es ≡ some out) where
    out_lem : absorb_all [] es ≡ out
    out_lem = cc (dedup_commit_authored-absorb_all es)

    -- The pass invents no commit and drops none: for every SHA, the result has a commit of this
    -- SHA if and only if the input has one. A commit is private in the result if and only if one
    -- of its rows was in the input. No two commits of the result share a SHA. The events that are
    -- no commits come out as they went in, in their order.
    pub dedup_commit_authored_keeps :
        ((sha : Text) → any (commits sha) out ≡ any (commits sha) es)
        × ((sha : Text) → any (private_commits sha) out ≡ any (private_commits sha) es)
        × IsDistinct out
        × (filter others out ≡ filter others es)
    dedup_commit_authored_keeps = (
      λ sha. rw (← out_lem) (any-absorb_all (commits sha) (any-absorb sha) es []),
      λ sha. rw (← out_lem) (any-absorb_all (private_commits sha) (any-private-absorb sha) es []),
      rw (← out_lem) (absorb_all-IsDistinct es [] tt),
      rw (← out_lem) (filter-absorb_all es []),
    )

    -- The pass is idempotent: run on its own result, it returns that result.
    dedup_commit_authored_idem : dedup_commit_authored out ≡ some out
    dedup_commit_authored_idem =
        dedup_commit_authored-absorb_all out
        ∙ ap some (absorb_all-IsDistinct_self out [] (dedup_commit_authored_keeps.2))
