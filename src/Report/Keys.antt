-- ===== src/Report/Keys.antt =====
-- The keys of the sections.
use dayseam.Prelude.{◌≡◌, refl, false, Option, none, some, find, Bool-cases, inl, inr, ◌==◌}
use dayseam.Text.{is_empty}
use dayseam.Activity.{ActivityEvent, EntityRef, entity_kind_eq}
use dayseam.Report.{GroupKind, key_of, entity_group, group_key_from_event, grouping}

key_of_named :
    (kind : GroupKind) (found : Option EntityRef)
    → (is_empty (key_of kind found).value ≡ false) × ((key_of kind found).kind ≡ kind)
unfolding key_of
key_of_named kind none = (refl, refl)
key_of_named kind (some e) = elim (Bool-cases (is_empty e.external_id)) [
  | inl empty ↦ rw empty (refl, refl)
  | inr named ↦ rw named (named, refl)
]

-- The key of every event has a value that is not empty, and the section that goes with the kind of
-- the event, whatever entities the event has.
pub group_key_from_event_named :
    {V : Type 0} (event : ActivityEvent V)
    → (is_empty (group_key_from_event event).value ≡ false)
      × ((group_key_from_event event).kind ≡ (grouping event.kind).1)
unfolding group_key_from_event entity_group
group_key_from_event_named event =
    let (entity_kind, group_kind) = grouping event.kind in
    key_of_named group_kind (find (λ e. e.kind == entity_kind) event.entities)
