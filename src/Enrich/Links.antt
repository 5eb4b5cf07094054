-- ===== src/Enrich/Links.antt =====
-- The rest of crates/dayseam-report/src/enrich.rs: the links to pull requests, and the merge request
-- that triggers a transition; and the pipeline of crates/dayseam-report/src/pipeline.rs.
use Prim.Native.Nat.{compare, lt, eq, gt}
use dayseam.Prelude.{
  ℕ, zero, suc, ◌+◌, Bool, true, false, not, ◌&&◌, ◌||◌, List, [], ◌∷◌, ◌++◌, Option, none, some,
  ◌==◌, nat_eqb, leb, length, find, map, filter, if◌then◌else◌,
}
use dayseam.Prelude.Maps.{lookup, insert}
use dayseam.Text.{Text, codes, text_eq, is_empty, strip_prefix}
use dayseam.Activity.{
  ActivityEvent, ActivityKind, EntityKind, EntityRef, entity_kind_eq, mr_opened, mr_merged,
  jira_issue_transitioned, git_hub_pull_request_opened, git_hub_pull_request_merged,
  git_hub_pull_request_closed,
}
use dayseam.Dedup.{dedup_commit_authored}
use dayseam.Report.{MergeRequestArtifact, annotate_rolled_into_mr}
use dayseam.Rollup.Groups.{sort_by, text_cmp, then_with}
use dayseam.Enrich.{
  mr_trigger_window, is_ascii_upper, is_ascii_digit, is_ascii_alnum, run_of, put, dedup_by,
  or_empty, push_all, extract_ticket_keys,
}

pub record GithubPrRef : Type 0 where
  pub external_id : Text
  pub label : Text

abbrev pub to_lower : ℕ → ℕ
to_lower c = if is_ascii_upper c then c + 32 else c

abbrev pub eq_ignore_ascii_case : Text → Text → Bool
eq_ignore_ascii_case [] [] = true
eq_ignore_ascii_case [] (d ∷ b) = false
eq_ignore_ascii_case (c ∷ a) [] = false
eq_ignore_ascii_case (c ∷ a) (d ∷ b) = nat_eqb (to_lower c) (to_lower d) && eq_ignore_ascii_case a b

abbrev pub is_url_ident : ℕ → Bool
is_url_ident c = is_ascii_alnum c || nat_eqb c b'-' || nat_eqb c b'_' || nat_eqb c b'.'

abbrev pub every : (ℕ → Bool) → Text → Bool
every p [] = true
every p (c ∷ s) = p c && every p s

-- What stands before a place is kept in reverse: `rfind_byte` gives what lies between the last slash
-- and the place, and what stands before that slash.
abbrev pub rfind_slash : Text → Text → Option (Text × Text)
rfind_slash between [] = none
rfind_slash between (c ∷ before) =
    let further = rfind_slash (c ∷ between) before in
    if nat_eqb c b'/' then some (between, before) else further

abbrev pub reversed_onto : Text → Text → Text
reversed_onto before [] = before
reversed_onto before (c ∷ s) = reversed_onto (c ∷ before) s

-- The host, the owner and the repository in front of `/pull/`.
abbrev pub with_host : Text → Text → Option (Text × Text) → Option Text
with_host repo owner none = none
with_host repo owner (some (host, before)) =
    if not (eq_ignore_ascii_case host (codes "github.com"))
    then none
    else if is_empty owner
        || is_empty repo
        || not (every is_url_ident owner)
        || not (every is_url_ident repo)
    then none
    else some repo

abbrev pub with_owner : Text → Option (Text × Text) → Option Text
with_owner repo none = none
with_owner repo (some (owner, before)) = with_host repo owner (rfind_slash [] before)

abbrev pub with_repo : Option (Text × Text) → Option Text
with_repo none = none
with_repo (some (repo, before)) = with_owner repo (rfind_slash [] before)

-- One round of `scan_github_pr_urls`, from a place with the reversed text before it: the reference, if
-- any, and the next place.
abbrev pub numbered_pr :
    Text → Text → Option Text → Text × Text → Option GithubPrRef × (Text × Text)
numbered_pr before after none number = (none, (before, after))
numbered_pr before after (some repo) ([], rest) = (none, (before, after))
numbered_pr before after (some repo) (d ∷ digits, rest) = (
  some (record { external_id = repo ++ (b'#' ∷ d ∷ digits); label = b'#' ∷ d ∷ digits }),
  (reversed_onto before (d ∷ digits), rest),
)

abbrev pub pr_round : Text → ℕ → Text → Option Text → Option GithubPrRef × (Text × Text)
pr_round before c s none = (none, (c ∷ before, s))
pr_round before c s (some after) =
    numbered_pr (reversed_onto before (codes "/pull/")) after (with_repo (rfind_slash [] before))
      (run_of is_ascii_digit after)

unfoldable pub pr_rounds : ℕ → Text → Text → List GithubPrRef
pr_rounds zero before s = []
pr_rounds (suc rounds) before [] = []
pr_rounds (suc rounds) before (c ∷ s) =
    let round = pr_round before c s (strip_prefix (codes "/pull/") (c ∷ s)) in
    put round.0 (pr_rounds rounds round.1.0 round.1.1)

abbrev pub scan_github_pr_urls : Text → List GithubPrRef
scan_github_pr_urls text = pr_rounds (length text) [] text

abbrev pub pr_ref : GithubPrRef → EntityRef
pr_ref pr = record {
  kind = EntityKind.git_hub_pull_request;
  external_id = pr.external_id;
  label = some pr.label;
}

abbrev pub opens_or_merges : ActivityKind → Bool
opens_or_merges mr_opened = true
opens_or_merges mr_merged = true
opens_or_merges _ = false

abbrev pub is_mr_like : ActivityKind → Bool
is_mr_like mr_opened = true
is_mr_like mr_merged = true
is_mr_like git_hub_pull_request_opened = true
is_mr_like git_hub_pull_request_merged = true
is_mr_like git_hub_pull_request_closed = true
is_mr_like _ = false

abbrev pub is_transition : ActivityKind → Bool
is_transition jira_issue_transitioned = true
is_transition _ = false

pub record MrCandidate : Type 0 where
  pub occurred_at : ℕ
  pub id : ℕ
  pub external_id : Text

abbrev pub pool_of : Option (List MrCandidate) → List MrCandidate
pool_of none = []
pool_of (some pool) = pool

-- `min_by_key(|c| (c.occurred_at, c.id))`: the first of the least.
abbrev pub is_less : MrCandidate → MrCandidate → Bool
is_less a b = elim (then_with (compare a.occurred_at b.occurred_at) (compare a.id b.id)) [
  | lt ↦ true
  | eq ↦ false
  | gt ↦ false
]

abbrev pub least_from : MrCandidate → List MrCandidate → MrCandidate
least_from best [] = best
least_from best (c ∷ pool) = least_from (if is_less c best then c else best) pool

abbrev pub least : List MrCandidate → Option MrCandidate
least [] = none
least (c ∷ pool) = some (least_from c pool)

abbrev pub in_window : ℕ → MrCandidate → Bool
in_window transition_at c =
    leb transition_at (c.occurred_at + mr_trigger_window) && leb c.occurred_at transition_at

-- The loop over an event's entities, and the loop over the events.
unfoldable pub index_entities :
    MrCandidate → List EntityRef → List (Text × List MrCandidate) → List (Text × List MrCandidate)
index_entities c [] out = out
index_entities c (ent ∷ entities) out = index_entities c entities (
    if ent.kind == EntityKind.jira_issue
    then insert ent.external_id (pool_of (lookup ent.external_id out) ++ (c ∷ [])) out
    else out)

module _ {V : Type 0} where
  abbrev pub github_prs : ActivityEvent V → List GithubPrRef
  github_prs event =
      dedup_by (λ a b. a.external_id == b.external_id)
        (sort_by (λ a b. text_cmp a.external_id b.external_id)
          (scan_github_pr_urls event.title ++ scan_github_pr_urls (or_empty event.body)))

  abbrev pub with_prs : ActivityEvent V → ActivityEvent V
  with_prs event =
      if opens_or_merges event.kind
      then record event { entities = push_all event.entities (map pr_ref (github_prs event)) }
      else event

  abbrev pub extract_github_pr_urls : List (ActivityEvent V) → List (ActivityEvent V)
  extract_github_pr_urls = map with_prs

  abbrev pub candidate : ActivityEvent V → MrCandidate
  candidate event = record {
    occurred_at = event.occurred_at;
    id = event.id;
    external_id = event.external_id;
  }

  unfoldable pub index_events :
      List (ActivityEvent V) → List (Text × List MrCandidate) → List (Text × List MrCandidate)
  index_events [] out = out
  index_events (event ∷ events) out =
      index_events events
        (if is_mr_like event.kind then index_entities (candidate event) event.entities out else out)

  abbrev pub build_issue_to_mr_candidates : List (ActivityEvent V) → List (Text × List MrCandidate)
  build_issue_to_mr_candidates events = index_events events []

  abbrev pub with_winner : Option MrCandidate → ActivityEvent V → ActivityEvent V
  with_winner none event = event
  with_winner (some c) event = record event { parent_external_id = some c.external_id }

  abbrev pub with_issue :
      (Text → List MrCandidate) → Option EntityRef → ActivityEvent V → ActivityEvent V
  with_issue pools none event = event
  with_issue pools (some issue) event =
      with_winner (least (filter (in_window event.occurred_at) (pools issue.external_id))) event

  -- An issue with no candidates has the empty pool.
  abbrev pub annotate_one : (Text → List MrCandidate) → ActivityEvent V → ActivityEvent V
  annotate_one pools event =
      if is_transition event.kind
      then with_issue pools (find (λ e. e.kind == EntityKind.jira_issue) event.entities) event
      else event

  abbrev pub annotate_all :
      List (Text × List MrCandidate) → List (ActivityEvent V) → List (ActivityEvent V)
  annotate_all [] events = events
  annotate_all (entry ∷ candidates) events =
      map (annotate_one (λ key. pool_of (lookup key (entry ∷ candidates)))) events

  abbrev pub annotate_transition_with_mr : List (ActivityEvent V) → List (ActivityEvent V)
  annotate_transition_with_mr events = annotate_all (build_issue_to_mr_candidates events) events

  -- `none` is a panic of the first pass.
  abbrev pub pipeline_after :
      List MergeRequestArtifact → Option (List (ActivityEvent V)) → Option (List (ActivityEvent V))
  pipeline_after mrs none = none
  pipeline_after mrs (some events) = some (
      annotate_rolled_into_mr
        (annotate_transition_with_mr (extract_github_pr_urls (extract_ticket_keys events))) mrs)

  unfoldable pub pipeline :
      List (ActivityEvent V) → List MergeRequestArtifact → Option (List (ActivityEvent V))
  pipeline events mrs = pipeline_after mrs (dedup_commit_authored events)
