-- ===== src/Enrich/Carried.antt =====
-- The references that a pass pushes are there when it runs again.
use dayseam.Prelude.{
  ◌≡◌, refl, Bool, true, ◌&&◌, List, [], ◌∷◌, ◌==◌, any, any-append, Bool-cases, inl, inr,
}
use dayseam.Text.{text_eq, text_eqb_iff}
use dayseam.Activity.{EntityRef, entity_kind_eq}
use dayseam.Enrich.{push_absent, push_all}

-- The two columns that tell references apart.
abbrev pub same_ref : EntityRef → EntityRef → Bool
same_ref r e = e.kind == r.kind && e.external_id == r.external_id

abbrev pub Carries : List EntityRef → List EntityRef → Type 0
Carries entities [] = Unit
Carries entities (r ∷ refs) = (any (same_ref r) entities ≡ true) × Carries entities refs

same_ref_refl : (r : EntityRef) → same_ref r r ≡ true
same_ref_refl r =
    let kinds = (entity_kind_eq.beq_iff r.kind r.kind).1 refl in
    let ids = (text_eqb_iff r.external_id r.external_id).1 refl in rw (kinds, ids) refl

any-push_absent :
    (entities : List EntityRef) (r sought : EntityRef)
    → any (same_ref sought) entities ≡ true
    → any (same_ref sought) (push_absent entities r) ≡ true
any-push_absent entities r sought found = elim (Bool-cases (any (same_ref r) entities)) [
  | inl there ↦ rw there found
  | inr absent ↦ rw absent (rw (any-append (same_ref sought) entities (r ∷ []), found) refl)
]

any-push_absent_self :
    (entities : List EntityRef) (r : EntityRef) → any (same_ref r) (push_absent entities r) ≡ true
any-push_absent_self entities r = elim (Bool-cases (any (same_ref r) entities)) [
  | inl there ↦ rw there there
  | inr absent ↦
      rw absent (rw (any-append (same_ref r) entities (r ∷ []), absent, same_ref_refl r) refl)
]

any-push_all :
    (entities refs : List EntityRef) (sought : EntityRef)
    → any (same_ref sought) entities ≡ true
    → any (same_ref sought) (push_all entities refs) ≡ true
any-push_all entities [] sought found = found
any-push_all entities (r ∷ refs) sought found =
    any-push_all (push_absent entities r) refs sought (any-push_absent entities r sought found)

pub push_all-Carries : (entities refs : List EntityRef) → Carries (push_all entities refs) refs
push_all-Carries entities [] = tt
push_all-Carries entities (r ∷ refs) = (
  any-push_all (push_absent entities r) refs r (any-push_absent_self entities r),
  push_all-Carries (push_absent entities r) refs,
)

pub push_all-Carries_more :
    (entities more refs : List EntityRef)
    → Carries entities refs
    → Carries (push_all entities more) refs
push_all-Carries_more entities more [] there = tt
push_all-Carries_more entities more (r ∷ refs) there =
    (any-push_all entities more r there.0, push_all-Carries_more entities more refs there.1)

pub push_all-still :
    (entities refs : List EntityRef) → Carries entities refs → push_all entities refs ≡ entities
push_all-still entities [] there = refl
push_all-still entities (r ∷ refs) there = rw (there.0) (push_all-still entities refs there.1)
