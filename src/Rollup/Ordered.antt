-- ===== src/Rollup/Ordered.antt =====
-- The order of the groups, told without the comparison that the sort uses.
use Prim.Native.Nat.{compare, Ordering, lt, eq, gt}
use mathlib.Core.Bool.{false≢true}
use dayseam.Prelude.{
  Option, none, some, ℕ, ◌<◌, ◌≤◌, ◌≡◌, ◌⊎◌, refl, sym, ◌∙◌, arith, Bool, true, false, List, [],
  ◌∷◌, Every, inl, inr,
}
use dayseam.Text.{Text}
use dayseam.Rollup.{ArtifactKind, kind_token}
use dayseam.Rollup.Groups.{
  ArtifactPayload, meeting, Artifact, RolledUpArtifact, then_with, text_cmp, is_after,
}
use dayseam.Rollup.Stages.{group_cmp, start_cmp}
use dayseam.Rollup.Sorted.{IsSorted}

-- The lexicographic order of texts.
abbrev pub IsTextBefore : Text → Text → Type 0
IsTextBefore [] [] = ⊥
IsTextBefore [] (d ∷ b) = Unit
IsTextBefore (c ∷ a) [] = ⊥
IsTextBefore (c ∷ a) (d ∷ b) = (c < d) ⊎ ((c ≡ d) × IsTextBefore a b)

IsTextBefore-trans : (a b c : Text) → IsTextBefore a b → IsTextBefore b c → IsTextBefore a c
IsTextBefore-trans [] [] c p q = absurd p
IsTextBefore-trans [] (d ∷ b) [] p q = absurd q
IsTextBefore-trans [] (d ∷ b) (e ∷ c) p q = tt
IsTextBefore-trans (x ∷ a) [] c p q = absurd p
IsTextBefore-trans (x ∷ a) (d ∷ b) [] p q = absurd q
IsTextBefore-trans (x ∷ a) (d ∷ b) (e ∷ c) (inl p) (inl q) = inl (omega arith)
IsTextBefore-trans (x ∷ a) (d ∷ b) (e ∷ c) (inl p) (inr (q, r)) = inl (omega arith)
IsTextBefore-trans (x ∷ a) (d ∷ b) (e ∷ c) (inr (p, r)) (inl q) = inl (omega arith)
IsTextBefore-trans (x ∷ a) (d ∷ b) (e ∷ c) (inr (p, r)) (inr (q, t)) =
    inr (p ∙ q, IsTextBefore-trans a b c r t)

compare-cases :
    (a b : ℕ)
    → ((compare a b ≡ lt) × (a < b))
      ⊎ (((compare a b ≡ eq) × (a ≡ b)) ⊎ ((compare a b ≡ gt) × (b < a)))
compare-cases a b = ground arith

text_cmp-cases :
    (a b : Text)
    → ((text_cmp a b ≡ lt) × IsTextBefore a b)
      ⊎ (((text_cmp a b ≡ eq) × (a ≡ b)) ⊎ ((text_cmp a b ≡ gt) × IsTextBefore b a))
text_cmp-cases [] [] = inr (inl (refl, refl))
text_cmp-cases [] (d ∷ b) = inl (refl, tt)
text_cmp-cases (c ∷ a) [] = inr (inr (refl, tt))
text_cmp-cases (c ∷ a) (d ∷ b) = elim (compare-cases c d) [
  | inl (less, below) ↦ inl (rw less refl, inl below)
  | inr (inr (more, above)) ↦ inr (inr (rw more refl, inl above))
  | inr (inl (same, alike)) ↦ elim (text_cmp-cases a b) [
    | inl (less, below) ↦ inl (rw (same, less) refl, inr (alike, below))
    | inr (inl (equal, whole)) ↦ inr (inl (rw (same, equal) refl, rw (alike, whole) refl))
    | inr (inr (more, above)) ↦ inr (inr (rw (same, more) refl, inr (sym alike, above)))
  ]
]

-- The place of a kind among the kinds, by the alphabet.
abbrev pub kind_rank : ArtifactKind → ℕ
kind_rank ArtifactKind.commit_set = 0
kind_rank ArtifactKind.confluence_page = 1
kind_rank ArtifactKind.git_hub_issue = 2
kind_rank ArtifactKind.git_hub_pull_request = 3
kind_rank ArtifactKind.jira_issue = 4
kind_rank ArtifactKind.outlook_meeting = 5

kind_token-kind_rank :
    (k j : ArtifactKind)
    → text_cmp (kind_token k) (kind_token j) ≡ compare (kind_rank k) (kind_rank j)
unfolding kind_token
kind_token-kind_rank ArtifactKind.commit_set ArtifactKind.commit_set = refl
kind_token-kind_rank ArtifactKind.commit_set ArtifactKind.confluence_page = refl
kind_token-kind_rank ArtifactKind.commit_set ArtifactKind.git_hub_issue = refl
kind_token-kind_rank ArtifactKind.commit_set ArtifactKind.git_hub_pull_request = refl
kind_token-kind_rank ArtifactKind.commit_set ArtifactKind.jira_issue = refl
kind_token-kind_rank ArtifactKind.commit_set ArtifactKind.outlook_meeting = refl
kind_token-kind_rank ArtifactKind.confluence_page ArtifactKind.commit_set = refl
kind_token-kind_rank ArtifactKind.confluence_page ArtifactKind.confluence_page = refl
kind_token-kind_rank ArtifactKind.confluence_page ArtifactKind.git_hub_issue = refl
kind_token-kind_rank ArtifactKind.confluence_page ArtifactKind.git_hub_pull_request = refl
kind_token-kind_rank ArtifactKind.confluence_page ArtifactKind.jira_issue = refl
kind_token-kind_rank ArtifactKind.confluence_page ArtifactKind.outlook_meeting = refl
kind_token-kind_rank ArtifactKind.git_hub_issue ArtifactKind.commit_set = refl
kind_token-kind_rank ArtifactKind.git_hub_issue ArtifactKind.confluence_page = refl
kind_token-kind_rank ArtifactKind.git_hub_issue ArtifactKind.git_hub_issue = refl
kind_token-kind_rank ArtifactKind.git_hub_issue ArtifactKind.git_hub_pull_request = refl
kind_token-kind_rank ArtifactKind.git_hub_issue ArtifactKind.jira_issue = refl
kind_token-kind_rank ArtifactKind.git_hub_issue ArtifactKind.outlook_meeting = refl
kind_token-kind_rank ArtifactKind.git_hub_pull_request ArtifactKind.commit_set = refl
kind_token-kind_rank ArtifactKind.git_hub_pull_request ArtifactKind.confluence_page = refl
kind_token-kind_rank ArtifactKind.git_hub_pull_request ArtifactKind.git_hub_issue = refl
kind_token-kind_rank ArtifactKind.git_hub_pull_request ArtifactKind.git_hub_pull_request = refl
kind_token-kind_rank ArtifactKind.git_hub_pull_request ArtifactKind.jira_issue = refl
kind_token-kind_rank ArtifactKind.git_hub_pull_request ArtifactKind.outlook_meeting = refl
kind_token-kind_rank ArtifactKind.jira_issue ArtifactKind.commit_set = refl
kind_token-kind_rank ArtifactKind.jira_issue ArtifactKind.confluence_page = refl
kind_token-kind_rank ArtifactKind.jira_issue ArtifactKind.git_hub_issue = refl
kind_token-kind_rank ArtifactKind.jira_issue ArtifactKind.git_hub_pull_request = refl
kind_token-kind_rank ArtifactKind.jira_issue ArtifactKind.jira_issue = refl
kind_token-kind_rank ArtifactKind.jira_issue ArtifactKind.outlook_meeting = refl
kind_token-kind_rank ArtifactKind.outlook_meeting ArtifactKind.commit_set = refl
kind_token-kind_rank ArtifactKind.outlook_meeting ArtifactKind.confluence_page = refl
kind_token-kind_rank ArtifactKind.outlook_meeting ArtifactKind.git_hub_issue = refl
kind_token-kind_rank ArtifactKind.outlook_meeting ArtifactKind.git_hub_pull_request = refl
kind_token-kind_rank ArtifactKind.outlook_meeting ArtifactKind.jira_issue = refl
kind_token-kind_rank ArtifactKind.outlook_meeting ArtifactKind.outlook_meeting = refl

abbrev pub start_of : ArtifactPayload → Option ℕ
start_of (meeting i t start e d ids) = some start
start_of _ = none

-- By the start of two meetings, by the external identifier of any other two, and then by identifier.
abbrev pub IsWithin : Artifact → Artifact → Option ℕ → Option ℕ → Type 0
IsWithin a b (some start) (some later) = (start < later) ⊎ ((start ≡ later) × (a.id ≤ b.id))
IsWithin a b (some start) none =
    IsTextBefore a.external_id b.external_id ⊎ ((a.external_id ≡ b.external_id) × (a.id ≤ b.id))
IsWithin a b none start =
    IsTextBefore a.external_id b.external_id ⊎ ((a.external_id ≡ b.external_id) × (a.id ≤ b.id))

abbrev pub IsBehind : Artifact → Artifact → Type 0
IsBehind b a =
    (kind_rank a.kind < kind_rank b.kind)
    ⊎ ((kind_rank a.kind ≡ kind_rank b.kind)
        × IsWithin a b (start_of a.payload) (start_of b.payload))

abbrev start_order : Option ℕ → Option ℕ → Ordering → Ordering
start_order (some start) (some later) otherwise = compare start later
start_order (some start) none otherwise = otherwise
start_order none start otherwise = otherwise

start_cmp-start_order :
    (p q : ArtifactPayload) (otherwise : Ordering)
    → start_cmp p q otherwise ≡ start_order (start_of p) (start_of q) otherwise
start_cmp-start_order (meeting i t start e d ids) (meeting j u later f c k) otherwise = refl
start_cmp-start_order _ _ otherwise = refl

texts-IsWithin :
    (a b : Artifact)
    → is_after (then_with (text_cmp a.external_id b.external_id) (compare a.id b.id)) ≡ false
    → IsTextBefore a.external_id b.external_id ⊎ ((a.external_id ≡ b.external_id) × (a.id ≤ b.id))
texts-IsWithin a b leads = elim (text_cmp-cases a.external_id b.external_id) [
  | inl (less, below) ↦ inl below
  | inr (inl (same, alike)) ↦ inr (alike, ids (rw same at leads))
  | inr (inr (more, above)) ↦ absurd (false≢true (sym leads ∙ rw more refl))
]
  where
    ids : is_after (compare a.id b.id) ≡ false → a.id ≤ b.id
    ids first = ground arith

order-IsWithin :
    (a b : Artifact) (p q : Option ℕ)
    → is_after
        (then_with (start_order p q (text_cmp a.external_id b.external_id)) (compare a.id b.id))
      ≡ false
    → IsWithin a b p q
order-IsWithin a b (some start) (some later) leads = ground arith
order-IsWithin a b (some start) none leads = texts-IsWithin a b leads
order-IsWithin a b none start leads = texts-IsWithin a b leads

module _ {V : Type 0} where
  group_cmp-IsBehind :
      (a b : RolledUpArtifact V) → is_after (group_cmp a b) ≡ false → IsBehind b.artifact a.artifact
  group_cmp-IsBehind a b leads =
      let kinds = kind_token-kind_rank a.artifact.kind b.artifact.kind in
      elim (compare-cases (kind_rank a.artifact.kind) (kind_rank b.artifact.kind)) [
        | inl (less, below) ↦ inl below
        | inr (inl (same, alike)) ↦ inr (
          alike,
          order-IsWithin a.artifact b.artifact (start_of a.artifact.payload)
              (start_of b.artifact.payload)
              (rw
                (
                  kinds ∙ same,
                  start_cmp-start_order a.artifact.payload b.artifact.payload
                      (text_cmp a.artifact.external_id b.artifact.external_id),
                )
                at leads),
        )
        | inr (inr (more, above)) ↦ absurd (false≢true (sym leads ∙ rw (kinds ∙ more) refl))
      ]

-- The payload of an artifact is a meeting exactly if its kind is.
abbrev is_meeting : ArtifactKind → Bool
is_meeting ArtifactKind.outlook_meeting = true
is_meeting _ = false

abbrev has_start : Option ℕ → Bool
has_start none = false
has_start (some start) = true

abbrev pub Fits : Artifact → Type 0
Fits a = is_meeting a.kind ≡ has_start (start_of a.payload)

kind_rank-is_meeting :
    (k j : ArtifactKind) → kind_rank k ≡ kind_rank j → is_meeting k ≡ is_meeting j
kind_rank-is_meeting k j same = ground (arith, same)

IsWithin-trans :
    (a b c : Artifact) (p q r : Option ℕ)
    → has_start p ≡ has_start q
    → has_start q ≡ has_start r
    → IsWithin a b p q
    → IsWithin b c q r
    → IsWithin a c p r
IsWithin-trans a b c (some x) (some y) (some z) u v first next = ground arith
IsWithin-trans a b c none none none u v (inl first) (inl next) =
    inl (IsTextBefore-trans a.external_id b.external_id c.external_id first next)
IsWithin-trans a b c none none none u v (inl first) (inr (same, low)) = inl (rw (← same) first)
IsWithin-trans a b c none none none u v (inr (same, low)) (inl next) = inl (rw same next)
IsWithin-trans a b c none none none u v (inr (same, low)) (inr (alike, below)) =
    inr (same ∙ alike, omega arith)
IsWithin-trans a b c (some x) none r u v first next = absurd (false≢true (sym u))
IsWithin-trans a b c none (some y) r u v first next = absurd (false≢true u)
IsWithin-trans a b c (some x) (some y) none u v first next = absurd (false≢true (sym v))
IsWithin-trans a b c none none (some z) u v first next = absurd (false≢true v)

IsBehind-trans :
    (a b c : Artifact) → Fits a → Fits b → Fits c → IsBehind b a → IsBehind c b → IsBehind c a
IsBehind-trans a b c fa fb fc (inl p) (inl q) = inl (omega arith)
IsBehind-trans a b c fa fb fc (inl p) (inr (q, w)) = inl (omega arith)
IsBehind-trans a b c fa fb fc (inr (p, w)) (inl q) = inl (omega arith)
IsBehind-trans a b c fa fb fc (inr (p, w)) (inr (q, v)) = inr (
  p ∙ q,
  IsWithin-trans a b c (start_of a.payload) (start_of b.payload) (start_of c.payload)
      (sym fa ∙ kind_rank-is_meeting a.kind b.kind p ∙ fb)
      (sym fb ∙ kind_rank-is_meeting b.kind c.kind q ∙ fc) w v,
)

module _ {V : Type 0} where
  abbrev pub AllFit : List (RolledUpArtifact V) → Type 0
  AllFit = Every (λ g. Fits g.artifact)

  -- Every group is behind those before it.
  abbrev pub IsOrdered : List (RolledUpArtifact V) → Type 0
  IsOrdered [] = Unit
  IsOrdered (g ∷ groups) = Every (λ h. IsBehind h.artifact g.artifact) groups × IsOrdered groups

  all-IsBehind :
      (a b : RolledUpArtifact V) (groups : List (RolledUpArtifact V))
      → Fits a.artifact
      → Fits b.artifact
      → AllFit groups
      → IsBehind b.artifact a.artifact
      → Every (λ h. IsBehind h.artifact b.artifact) groups
      → Every (λ h. IsBehind h.artifact a.artifact) groups
  all-IsBehind a b [] fa fb fit first all = tt
  all-IsBehind a b (c ∷ groups) fa fb (fc, fit) first (next, all) = (
    IsBehind-trans a.artifact b.artifact c.artifact fa fb fc first next,
    all-IsBehind a b groups fa fb fit first all,
  )

  pub IsSorted-IsOrdered :
      (groups : List (RolledUpArtifact V))
      → AllFit groups
      → IsSorted group_cmp groups
      → IsOrdered groups
  IsSorted-IsOrdered [] fit sorted = tt
  IsSorted-IsOrdered (g ∷ []) fit sorted = (tt, tt)
  IsSorted-IsOrdered (g ∷ h ∷ groups) (fg, (fh, fit)) (leads, sorted) =
      let (behind, ordered) = IsSorted-IsOrdered (h ∷ groups) (fh, fit) sorted in
      let next = group_cmp-IsBehind g h leads in
      ((next, all-IsBehind g h groups fg fh fit next behind), (behind, ordered))
