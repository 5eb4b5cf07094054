-- ===== src/Dedup/Survivor.antt =====
-- What `merge_two` keeps of two rows for one commit.
use dayseam.Prelude.{
  ◌<◌, ◌≤◌, Option, some, ◌≡◌, ◌⊎◌, ◌↔◌, refl, arith, ◌||◌, List, [], ◌∷◌, ◌++◌, none, Eq, ◌==◌,
  any, contains, contains-append,
}
use dayseam.Activity.{
  ActivityEvent, is_commit_authored, normal, Link, EntityRef, link_eq, entity_ref_eq,
}
use dayseam.Dedup.{
  merge_two, body_rank, louder_privacy, union_links, union_entities, push_unseen, merge_actors,
}

any-contains {ℓ} :
    {A : Type ℓ} ⦃e : Eq A⦄ (a : A) (xs : List A) → any (λ y. y == a) xs ≡ contains xs a
any-contains a [] = refl
any-contains a (x ∷ xs) = ground (arith, any-contains a xs)

-- The union has exactly the members of both lists.
contains-push_unseen {ℓ} :
    {A : Type ℓ} ⦃e : Eq A⦄ (a b : List A) (x : A)
    → contains (push_unseen a b) x ≡ (contains a x || contains b x)
unfolding push_unseen
contains-push_unseen a [] x = ground arith
contains-push_unseen ⦃e⦄ a (y ∷ b) x = ground (
  arith,
  contains-push_unseen (a ++ (y ∷ [])) b x,
  contains-push_unseen a b x,
  any-contains y a,
  contains-append a (y ∷ []) x,
  e.beq_iff y x,
)

abbrev pub first_known {ℓ} : {A : Type ℓ} → Option A → Option A → Option A
first_known none b = b
first_known (some a) b = some a

module _ {V : Type 0} where
  pub is_commit_authored-merge_two :
      (a b : ActivityEvent V)
      → is_commit_authored a.kind ≡ is_commit_authored b.kind
      → is_commit_authored (merge_two a b).kind ≡ is_commit_authored b.kind
  unfolding merge_two
  is_commit_authored-merge_two a b h = ground arith

  pub external_id-merge_two :
      (a b : ActivityEvent V)
      → a.external_id ≡ b.external_id
      → (merge_two a b).external_id ≡ b.external_id
  unfolding merge_two
  external_id-merge_two a b h = ground arith

  -- The body is longer in bytes, or as long and the source is smaller.
  abbrev pub IsRicher : ActivityEvent V → ActivityEvent V → Type 0
  IsRicher w l =
      (body_rank l < body_rank w) ⊎ ((body_rank w ≡ body_rank l) × (w.source_id < l.source_id))

  -- Of two rows that differ in the length of their bodies or in their source, the one with the longer
  -- body survives, or, if these are as long, that of the smaller source: whichever comes first, the
  -- result is the same row, and it is the survivor but for its links, entities, privacy and actor.
  pub merge_two_survivor :
      (w l : ActivityEvent V)
      → IsRicher w l
      → (merge_two l w ≡ merge_two w l)
        × (merge_two w l ≡ record w {
          links = (merge_two w l).links;
          entities = (merge_two w l).entities;
          privacy = (merge_two w l).privacy;
          actor = (merge_two w l).actor;
        })
  unfolding merge_two
  merge_two_survivor w l richer = ground arith

  pub privacy-merge_two :
      (a b : ActivityEvent V) → (merge_two a b).privacy ≡ louder_privacy a.privacy b.privacy
  unfolding merge_two louder_privacy
  privacy-merge_two a b = ground arith

  merge_two_unions :
      (a b : ActivityEvent V) (l : Link) (r : EntityRef)
      → (contains (merge_two a b).links l ≡ (contains a.links l || contains b.links l))
        × (contains (merge_two a b).entities r ≡ (contains a.entities r || contains b.entities r))
        × (((merge_two a b).privacy ≡ normal) ↔ ((a.privacy ≡ normal) × (b.privacy ≡ normal)))
        × (((merge_two a b).actor.email ≡ none) ↔ ((a.actor.email ≡ none) × (b.actor.email ≡ none)))
        × (((merge_two a b).actor.external_id ≡ none)
            ↔ ((a.actor.external_id ≡ none) × (b.actor.external_id ≡ none)))
  unfolding merge_two union_links union_entities louder_privacy merge_actors
  merge_two_unions a b l r = (
    ground (arith, contains-push_unseen a.links b.links l, contains-push_unseen b.links a.links l),
    ground (
      arith,
      contains-push_unseen a.entities b.entities r,
      contains-push_unseen b.entities a.entities r,
    ),
    ground arith,
    ground arith,
    ground arith,
  )

  -- The survivor of a merge that may go either way: the first row too, if the two have bodies of one
  -- length and one source.
  abbrev pub IsSurvivor : ActivityEvent V → ActivityEvent V → Type 0
  IsSurvivor w l =
      (body_rank l < body_rank w) ⊎ ((body_rank w ≡ body_rank l) × (w.source_id ≤ l.source_id))

  actor-merge_two :
      (w l : ActivityEvent V)
      → IsSurvivor w l
      → (merge_two w l).actor ≡ record {
        display_name = w.actor.display_name;
        email = first_known w.actor.email l.actor.email;
        external_id = first_known w.actor.external_id l.actor.external_id;
      }
  unfolding merge_two merge_actors
  actor-merge_two w l survives = ground arith

  -- If the first row survives, by a longer body, or by one as long and a source that is smaller or the
  -- same: the merged row has exactly the links and the entities of both, it is private if and only if
  -- one of the two is, and its actor has the survivor's name, e-mail address and external id, the last
  -- two from the other row where the survivor has none.
  pub merge_two_keeps :
      (w l : ActivityEvent V) (link : Link) (r : EntityRef)
      → IsSurvivor w l
      → (contains (merge_two w l).links link ≡ (contains w.links link || contains l.links link))
        × (contains (merge_two w l).entities r ≡ (contains w.entities r || contains l.entities r))
        × (((merge_two w l).privacy ≡ normal) ↔ ((w.privacy ≡ normal) × (l.privacy ≡ normal)))
        × ((merge_two w l).actor ≡ record {
          display_name = w.actor.display_name;
          email = first_known w.actor.email l.actor.email;
          external_id = first_known w.actor.external_id l.actor.external_id;
        })
  merge_two_keeps w l link r survives =
      let (links, entities, privacy, _, _) = merge_two_unions w l link r in
      (links, entities, privacy, actor-merge_two w l survives)
