-- ===== src/Rollup/Identities.antt =====
-- The merge request that an event names, told without the functions that read it.
use mathlib.Core.Bool.{false≢true}
use dayseam.Prelude.{
  ℕ, ◌≡◌, ◌≢◌, ◌↔◌, ◌⊎◌, refl, sym, ◌∙◌, ap, arith, Bool, false, List, [], ◌∷◌, ◌++◌, Option, none,
  some, any, find, nat_eqb, nat_eqb_iff, Bool-cases, Option-cases, inl, inr, if◌then◌else◌, ◌==◌,
}
use dayseam.Text.{Text, codes, text_eq, text_eqb_iff, strip_prefix, split_once}
use dayseam.Activity.{
  ActivityKind, EntityKind, EntityRef, entity_kind_eq, mr_opened, mr_merged, mr_closed,
  mr_review_comment, mr_approved, git_hub_pull_request_opened, git_hub_pull_request_merged,
  git_hub_pull_request_closed, git_hub_pull_request_reviewed, git_hub_pull_request_commented,
}
use dayseam.Rollup.{
  Int64, git_lab_mr, git_hub_pr, shape, external_id_of, usable, with_iid, iid_of, split_identity,
  parse_i64,
}

-- The kinds of events of the two forges' merge requests.
abbrev pub IsGitLab : ActivityKind → Type 0
IsGitLab k =
    (k ≡ mr_opened)
    ⊎ ((k ≡ mr_merged) ⊎ ((k ≡ mr_closed) ⊎ ((k ≡ mr_review_comment) ⊎ (k ≡ mr_approved))))

abbrev pub IsGitHub : ActivityKind → Type 0
IsGitHub k =
    (k ≡ git_hub_pull_request_opened)
    ⊎ ((k ≡ git_hub_pull_request_merged)
        ⊎ ((k ≡ git_hub_pull_request_closed)
            ⊎ ((k ≡ git_hub_pull_request_reviewed) ⊎ (k ≡ git_hub_pull_request_commented))))

pub git_lab_mr-shape : (k : ActivityKind) → (shape k ≡ git_lab_mr) ↔ IsGitLab k
unfolding shape
git_lab_mr-shape mr_opened = (λ e. inl refl, λ h. refl)
git_lab_mr-shape mr_merged = (λ e. inr (inl refl), λ h. refl)
git_lab_mr-shape mr_closed = (λ e. inr (inr (inl refl)), λ h. refl)
git_lab_mr-shape mr_review_comment = (λ e. inr (inr (inr (inl refl))), λ h. refl)
git_lab_mr-shape mr_approved = (λ e. inr (inr (inr (inr refl))), λ h. refl)
git_lab_mr-shape _ = ground arith

pub git_hub_pr-shape : (k : ActivityKind) → (shape k ≡ git_hub_pr) ↔ IsGitHub k
unfolding shape
git_hub_pr-shape git_hub_pull_request_opened = (λ e. inl refl, λ h. refl)
git_hub_pr-shape git_hub_pull_request_merged = (λ e. inr (inl refl), λ h. refl)
git_hub_pr-shape git_hub_pull_request_closed = (λ e. inr (inr (inl refl)), λ h. refl)
git_hub_pr-shape git_hub_pull_request_reviewed = (λ e. inr (inr (inr (inl refl))), λ h. refl)
git_hub_pr-shape git_hub_pull_request_commented = (λ e. inr (inr (inr (inr refl))), λ h. refl)
git_hub_pr-shape _ = ground arith

-- The first repository that is named.
abbrev pub first_repo : List EntityRef → Option Text
first_repo [] = none
first_repo (ent ∷ entities) =
    if ent.kind == EntityKind.repo then some ent.external_id else first_repo entities

pub external_id_of-find :
    (entities : List EntityRef)
    → external_id_of (find (λ e. e.kind == EntityKind.repo) entities) ≡ first_repo entities
external_id_of-find [] = refl
external_id_of-find (ent ∷ entities) = elim (Bool-cases (ent.kind == EntityKind.repo)) [
  | inl named ↦ rw named refl
  | inr apart ↦ rw apart (external_id_of-find entities)
]

strip_prefix-bang : (s iid : Text) → (strip_prefix (codes "!") s ≡ some iid) ↔ (s ≡ b'!' ∷ iid)
unfolding strip_prefix
strip_prefix-bang [] iid = ground arith
strip_prefix-bang (c ∷ s) iid = ground (arith, nat_eqb_iff b'!' c)

abbrev pub has_code : ℕ → Text → Bool
has_code c s = any (λ d. nat_eqb d c) s

pub split_once_lem :
    (c : ℕ) (s a b : Text)
    → (split_once c s ≡ some (a, b)) ↔ ((s ≡ a ++ c ∷ b) × (has_code c a ≡ false))
unfolding split_once
split_once_lem c [] [] b = ground arith
split_once_lem c [] (d ∷ a) b = ground arith
split_once_lem c (d ∷ s) [] b = ground (arith, nat_eqb_iff d c)
split_once_lem c (d ∷ s) (e ∷ a) b =
    ground (arith, split_once_lem c s a b, nat_eqb_iff d c, nat_eqb_iff e c)

-- The text behind the mark is the number.
abbrev pub Numbers : Text → Int64 → Type 0
Numbers iid number = parse_i64 iid ≡ some number

iid_of_lem :
    (project_key : Text) (iid : Option Text) (p : Text) (n : Int64)
    → (iid_of project_key iid ≡ some (p, n))
      ↔ ((t : Text) × (project_key ≡ p) × (iid ≡ some t) × Numbers t n)
iid_of_lem project_key none p n =
    (λ h. absurd (ground (arith, h)), λ (t, same, known, reads). absurd (ground (arith, known)))
iid_of_lem project_key (some iid) p n = elim (Option-cases (parse_i64 iid)) [
  | inl unread ↦ (
    λ h. absurd (ground (arith, unread, h)),
    λ (t, same, known, reads). absurd (ground (arith, unread, known, reads)),
  )
  | inr (m, read) ↦ (
    λ h. (iid, ground (arith, read, h), refl, ground (arith, read, h)),
    λ (t, same, known, reads). ground (arith, same, known, reads),
  )
]

pub split_identity_lem :
    (split : Option (Text × Text)) (p : Text) (n : Int64)
    → (split_identity split ≡ some (p, n))
      ↔ ((t : Text) × (p ≢ []) × (split ≡ some (p, t)) × Numbers t n)
split_identity_lem none p n =
    (λ h. absurd (ground (arith, h)), λ (t, full, known, reads). absurd (ground (arith, known)))
split_identity_lem (some ([], t)) p n = (
  λ h. absurd (ground (arith, h)),
  λ (u, full, known, reads). absurd (ground (arith, known, full)),
)
split_identity_lem (some (c ∷ key, t)) p n = elim (Option-cases (parse_i64 t)) [
  | inl unread ↦ (
    λ h. absurd (ground (arith, unread, h)),
    λ (u, full, known, reads). absurd (ground (arith, unread, known, reads)),
  )
  | inr (m, read) ↦ (
    λ h. (t, ground (arith, read, h), ground (arith, read, h), ground (arith, read, h)),
    λ (u, full, known, reads). ground (arith, read, known, reads),
  )
]

usable_lem :
    (q : Text)
    → ((usable (some q) ≡ some q) × (q ≢ []) × (q ≢ codes "/"))
      ⊎ ((usable (some q) ≡ none) × ((q ≡ []) ⊎ (q ≡ codes "/")))
usable_lem [] = inr (refl, inl refl)
usable_lem (c ∷ q) = elim (Bool-cases ((c ∷ q) == codes "/")) [
  | inl slash ↦ inr (rw slash refl, inr ((text_eqb_iff (c ∷ q) (codes "/")).0 slash))
  | inr apart ↦ inl (
    rw apart refl,
    λ e. ground (arith, e),
    λ e. false≢true (sym apart ∙ (text_eqb_iff (c ∷ q) (codes "/")).1 e),
  )
]

pub with_iid_lem :
    (external_id : Text) (key : Option Text) (p : Text) (n : Int64)
    → (with_iid external_id (usable key) ≡ some (p, n)) ↔ (
        (t : Text) × (key ≡ some p)
        × (p ≢ [])
        × (p ≢ codes "/")
        × (external_id ≡ b'!' ∷ t)
        × Numbers t n)
with_iid_lem external_id none p n = (
  λ h. absurd (ground (arith, h)),
  λ (t, known, full, apart, marked, reads). absurd (ground (arith, known)),
)
with_iid_lem external_id (some q) p n = elim (usable_lem q) [
  | inl (used, full, apart) ↦ (
    λ h.
        let (t, same, marked, reads) =
          (iid_of_lem q (strip_prefix (codes "!") external_id) p n).0 (rw used at h) in
        (
          t,
          ap some same,
          rw (← same) full,
          rw (← same) apart,
          (strip_prefix-bang external_id t).0 marked,
          reads,
        ),
    λ (t, known, full, apart, marked, reads). rw used (
        (iid_of_lem q (strip_prefix (codes "!") external_id) p n).1
          (t, ground (arith, known), (strip_prefix-bang external_id t).1 marked, reads)),
  )
  | inr (unused, bad) ↦ (
    λ h. absurd (ground (arith, unused, h)),
    λ (t, known, full, apart, marked, reads). absurd (ground (arith, known, full, apart, bad)),
  )
]
