-- ===== src/Enrich.antt =====
-- crates/dayseam-report/src/enrich.rs: the passes that read tickets and pull requests out of an
-- event's text, and link a Jira transition to the merge request before it; and pipeline.rs, which
-- runs them. A text is scanned by its code points, as all that the scans look for is ASCII. An
-- instant is a number of nanoseconds, from an origin a day or more after chrono's earliest instant, so
-- that the 24 hours that the source takes off a transition's instant lead to no instant out of range,
-- which is a panic there. A loop over a text has one round for each of its characters.
mod Links
mod Windows
mod Least
mod Triggers
mod Passes
mod Rounds
mod Carried
mod Again
mod Settled
mod Tests
use Prim.Native.Nat.{compare}
use dayseam.Prelude.{
  ℕ, zero, suc, ◌+◌, ◌*◌, ◌^◌, ◌≡◌, Bool, true, false, not, ◌&&◌, ◌||◌, List, [], ◌∷◌, ◌++◌, Option,
  none, some, ◌==◌, nat_eqb, leb, ltb, length, any, find, map, if◌then◌else◌,
}
use dayseam.Prelude.Maps.{lookup, insert}
use dayseam.Text.{Text, codes, text_eq, is_empty, strip_prefix}
use dayseam.Activity.{
  ActivityEvent, ActivityKind, EntityKind, EntityRef, entity_kind_eq, mr_opened, mr_merged,
  jira_issue_transitioned, git_hub_pull_request_opened, git_hub_pull_request_merged,
  git_hub_pull_request_closed,
}
use dayseam.Dedup.{dedup_commit_authored}
use dayseam.Report.{MergeRequestArtifact, annotate_rolled_into_mr}
use dayseam.Rollup.Groups.{sort_by, text_cmp}

abbrev pub max_ticket_keys_per_event : ℕ
max_ticket_keys_per_event = 3

-- 24 hours.
abbrev pub mr_trigger_window : ℕ
mr_trigger_window = 24 * 3600 * 10 ^ 9

abbrev pub is_ascii_upper : ℕ → Bool
is_ascii_upper c = leb b'A' c && leb c b'Z'

abbrev pub is_ascii_digit : ℕ → Bool
is_ascii_digit c = leb b'0' c && leb c b'9'

abbrev pub is_ascii_alnum : ℕ → Bool
is_ascii_alnum c = is_ascii_upper c || is_ascii_digit c || leb b'a' c && leb c b'z'

-- The longest run at the head, and the rest.
abbrev pub put_head : ℕ → Text × Text → Text × Text
put_head c (run, rest) = (c ∷ run, rest)

abbrev pub run_of : (ℕ → Bool) → Text → Text × Text
run_of p [] = ([], [])
run_of p (c ∷ s) = let further = run_of p s in if p c then put_head c further else ([], c ∷ s)

-- One round of `scan_ticket_keys`: a key, if any, and where the next round starts: whether the
-- character before is alphanumeric, and the text from there.
abbrev pub starts_alnum : Text → Bool
starts_alnum [] = false
starts_alnum (c ∷ s) = is_ascii_alnum c

abbrev pub with_digits : Text → Text → Text × Text → Option Text × (Bool × Text)
with_digits prefix rest ([], after) = (none, (false, rest))
with_digits prefix rest (d ∷ digits, after) =
    if starts_alnum after
    then (none, (true, after))
    else (some (prefix ++ (b'-' ∷ d ∷ digits)), (true, after))

abbrev pub with_prefix : Text × Text → Option Text × (Bool × Text)
with_prefix (prefix, []) = (none, (true, []))
with_prefix (prefix, c ∷ rest) =
    if not (leb 2 (length prefix) && leb (length prefix) 10) || not (nat_eqb c b'-')
    then (none, (true, c ∷ rest))
    else with_digits prefix rest (run_of is_ascii_digit rest)

abbrev pub ticket_round : Bool → ℕ → Text → Option Text × (Bool × Text)
ticket_round after_alnum c s =
    if not (is_ascii_upper c) || after_alnum
    then (none, (is_ascii_alnum c, s))
    else with_prefix (run_of is_ascii_upper (c ∷ s))

abbrev pub put {ℓ} : {A : Type ℓ} → Option A → List A → List A
put none out = out
put (some a) out = a ∷ out

unfoldable pub ticket_rounds : ℕ → Bool → Text → List Text
ticket_rounds zero after_alnum s = []
ticket_rounds (suc rounds) after_alnum [] = []
ticket_rounds (suc rounds) after_alnum (c ∷ s) =
    let round = ticket_round after_alnum c s in
    put round.0 (ticket_rounds rounds round.1.0 round.1.1)

abbrev pub scan_ticket_keys : Text → List Text
scan_ticket_keys text = ticket_rounds (length text) false text

-- `dedup_by`, which keeps the first of neighbours that are equal.
abbrev pub dedup_from {ℓ} : {A : Type ℓ} → (A → A → Bool) → A → List A → List A
dedup_from same kept [] = []
dedup_from same kept (a ∷ xs) =
    if same kept a then dedup_from same kept xs else a ∷ dedup_from same a xs

abbrev pub dedup_by {ℓ} : {A : Type ℓ} → (A → A → Bool) → List A → List A
dedup_by same [] = []
dedup_by same (a ∷ xs) = a ∷ dedup_from same a xs

abbrev pub or_empty : Option Text → Text
or_empty none = []
or_empty (some body) = body

-- A reference is pushed if no other has its kind and identifier.
abbrev pub push_absent : List EntityRef → EntityRef → List EntityRef
push_absent entities r =
    if any (λ e. e.kind == r.kind && e.external_id == r.external_id) entities
    then entities
    else entities ++ (r ∷ [])

abbrev pub push_all : List EntityRef → List EntityRef → List EntityRef
push_all entities [] = entities
push_all entities (r ∷ refs) = push_all (push_absent entities r) refs

abbrev pub ticket_ref : Text → EntityRef
ticket_ref key = record { kind = EntityKind.jira_issue; external_id = key; label = none }

module _ {V : Type 0} where
  abbrev pub ticket_keys : ActivityEvent V → List Text
  ticket_keys event =
      dedup_by (λ a b. a == b)
        (sort_by text_cmp (scan_ticket_keys event.title ++ scan_ticket_keys (or_empty event.body)))

  abbrev pub with_tickets : List Text → ActivityEvent V → ActivityEvent V
  with_tickets keys event =
      if leb (length keys) max_ticket_keys_per_event
      then record event { entities = push_all event.entities (map ticket_ref keys) }
      else event

  abbrev pub extract_ticket_keys : List (ActivityEvent V) → List (ActivityEvent V)
  extract_ticket_keys = map (λ event. with_tickets (ticket_keys event) event)
