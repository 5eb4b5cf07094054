-- ===== src/Activity/RoundTrip.antt =====
-- The stable form of an entity kind, read and written again.
use dayseam.Prelude.{◌≡◌, list_eqb_iff, nat_eq, arith, Bool, true, false}
use dayseam.Text.{Text, codes, text_eq}
use dayseam.Activity.{EntityKind, other, as_str, from_str}

as_str-from_str_text : (s : Text) → as_str (from_str s) ≡ s
unfolding as_str from_str
as_str-from_str_text s = ground (
  arith,
  list_eqb_iff s (codes "repo"),
  list_eqb_iff s (codes "project"),
  list_eqb_iff s (codes "target"),
  list_eqb_iff s (codes "jira_project"),
  list_eqb_iff s (codes "jira_issue"),
  list_eqb_iff s (codes "confluence_space"),
  list_eqb_iff s (codes "confluence_page"),
  list_eqb_iff s (codes "confluence_comment"),
  list_eqb_iff s (codes "github_repo"),
  list_eqb_iff s (codes "github_pull_request"),
  list_eqb_iff s (codes "github_issue"),
  list_eqb_iff s (codes "outlook_event"),
  list_eqb_iff s (codes "workspace"),
)

-- Every kind but `other`, which carries a text of its own.
abbrev pub is_named : EntityKind → Bool
is_named (other s) = false
is_named _ = true

named-from_str : (k : EntityKind) → is_named k ≡ true → from_str (as_str k) ≡ k
unfolding as_str from_str
named-from_str k named = ground (arith, named)

-- A kind that has a name of its own is read back from that name as itself, and every text is read as a
-- kind that is written as this text.
pub as_str-from_str :
    (k : EntityKind) (s : Text)
    → is_named k ≡ true
    → (from_str (as_str k) ≡ k) × (as_str (from_str s) ≡ s)
as_str-from_str k s named = (named-from_str k named, as_str-from_str_text s)
