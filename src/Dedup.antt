-- ===== src/Dedup.antt =====
-- crates/dayseam-report/src/dedup.rs: one row for each commit that two sources report.
mod Survivor
pub mod Reference
pub mod Refines
pub mod Shas
mod Tests
use dayseam.Prelude.{
  ℕ, suc, Bool, true, false, not, ◌&&◌, List, [], ◌∷◌, ◌++◌, Option, none, some, leb, nat_eqb,
  length, get_elem?, set, any, if◌then◌else◌, Eq, ◌==◌,
}
use dayseam.Prelude.Maps.{lookup, insert}
use dayseam.Text.{Text, utf8_len, text_eq}
use dayseam.Activity.{
  ActivityEvent, is_commit_authored, Actor, Link, EntityRef, Privacy, normal, redacted_private_repo,
  link_eq, entity_ref_eq,
}

-- `for x in b { if !a.iter().any(|y| y == &x) { a.push(x) } }`
push_unseen {ℓ} : {A : Type ℓ} ⦃e : Eq A⦄ → List A → List A → List A
push_unseen a [] = a
push_unseen a (x ∷ b) = push_unseen (if not (any (λ y. y == x) a) then a ++ (x ∷ []) else a) b

pub union_links : List Link → List Link → List Link
unfolding push_unseen
union_links = push_unseen

pub union_entities : List EntityRef → List EntityRef → List EntityRef
unfolding push_unseen
union_entities = push_unseen

pub louder_privacy : Privacy → Privacy → Privacy
louder_privacy redacted_private_repo _ = redacted_private_repo
louder_privacy normal redacted_private_repo = redacted_private_repo
louder_privacy normal normal = normal

abbrev or_else {ℓ} : {A : Type ℓ} → Option A → Option A → Option A
or_else none b = b
or_else (some a) b = some a

pub merge_actors : Actor → Actor → Actor
merge_actors winner loser = record winner {
  email = or_else winner.email loser.email;
  external_id = or_else winner.external_id loser.external_id;
}

abbrev body_len : Option Text → ℕ
body_len none = 0
body_len (some body) = utf8_len body

module _ {V : Type 0} where
  pub body_rank : ActivityEvent V → ℕ
  body_rank e = body_len e.body

  -- `source_key` compares the bytes of two identifiers from the most significant on, which is the
  -- order of the numbers.
  pick_a_on_tie : ActivityEvent V → ActivityEvent V → Bool
  pick_a_on_tie a b =
      if not (nat_eqb (body_rank a) (body_rank b)) then true else leb a.source_id b.source_id

  -- The survivor takes over what the loser adds.
  absorb_loser : ActivityEvent V → ActivityEvent V → ActivityEvent V
  absorb_loser winner loser = record winner {
    links = union_links winner.links loser.links;
    entities = union_entities winner.entities loser.entities;
    privacy = louder_privacy winner.privacy loser.privacy;
    actor = merge_actors winner.actor loser.actor;
  }

  pub merge_two : ActivityEvent V → ActivityEvent V → ActivityEvent V
  unfolding absorb_loser body_rank pick_a_on_tie
  merge_two a b =
      if leb (body_rank b) (body_rank a) && pick_a_on_tie a b
      then absorb_loser a b
      else absorb_loser b a

-- The loop's variables. `merged` holds `None` only while a slot is taken out.
pub record Progress (V : Type 0) : Type 0 where
  merged : List (Option (ActivityEvent V))
  by_sha : List (Text × ℕ)

module _ {V : Type 0} where
  push : Progress V → ActivityEvent V → List (Text × ℕ) → Progress V
  push s e index = record { merged = s.merged ++ (some e ∷ []); by_sha = index }

  -- `merged[idx].take().expect(…)`: an index out of range and an empty slot are panics, `none`.
  merge_into :
      Progress V → ActivityEvent V → ℕ → Option (Option (ActivityEvent V)) → Option (Progress V)
  merge_into s e idx (some (some existing)) =
      some (record s { merged = set s.merged idx (some (merge_two existing e)) })
  merge_into s e idx (some none) = none
  merge_into s e idx none = none

  place : Progress V → ActivityEvent V → Option ℕ → Option (Progress V)
  unfolding push merge_into
  place s e none = some (push s e (insert e.external_id (length s.merged) s.by_sha))
  place s e (some idx) = merge_into s e idx (get_elem? s.merged idx)

  pub step : Progress V → ActivityEvent V → Option (Progress V)
  unfolding place push
  step s e =
      if not (is_commit_authored e.kind)
      then some (push s e s.by_sha)
      else place s e (lookup e.external_id s.by_sha)

  abbrev flatten : List (Option (ActivityEvent V)) → List (ActivityEvent V)
  flatten [] = []
  flatten (none ∷ xs) = flatten xs
  flatten (some e ∷ xs) = e ∷ flatten xs

  pub run : Progress V → List (ActivityEvent V) → Option (Progress V)
  run s [] = some s
  run s (e ∷ es) = elim (step s e) [ none ↦ none | some t ↦ run t es ]

  -- `none` is a panic.
  pub dedup_commit_authored : List (ActivityEvent V) → Option (List (ActivityEvent V))
  unfolding run
  dedup_commit_authored es = elim (run (record { merged = []; by_sha = [] }) es) [
    | none ↦ none
    | some s ↦ some (flatten s.merged)
  ]
