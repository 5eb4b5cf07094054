-- ===== src/SyncRuns/Wellformed.antt =====
-- What the columns of a row say together, and that the repository's calls keep it so.
use dayseam.Prelude.{
  ℕ, ◌≡◌, refl, ◌∙◌, Bool, true, false, not, ◌&&◌, List, [], ◌∷◌, Option, none, some, nat_eqb,
  filter, length, any, Bool-cases, inl, inr, Every,
}
use dayseam.Runs.{
  SyncRun, PerSourceState, SyncRunStatus, SyncRunCancelReason, running, completed, cancelled,
  failed, is_running,
}
use dayseam.SyncRuns.{
  has_id, insert, update, is_open, terminate, refers, transition, is_some, superseding,
}
use dayseam.SyncRuns.Table.{IsKeyed, any-update}
use dayseam.SyncRuns.Moves.{Call, call, after, inserting, finishing, failing, cancelling}

abbrev pub Ends : SyncRunStatus → Option ℕ → Option SyncRunCancelReason → Option ℕ → Type 0
Ends running finished_at reason reference =
    (finished_at ≡ none) × (reason ≡ none) × (reference ≡ none)
Ends cancelled finished_at reason reference =
    (is_some finished_at ≡ true)
    × ((why : SyncRunCancelReason) × (reason ≡ some why) × (reference ≡ superseding why))
Ends _ finished_at reason reference =
    (is_some finished_at ≡ true) × (reason ≡ none) × (reference ≡ none)

abbrev pub IsWell : {E : Type 0} → SyncRun E → Type 0
IsWell run = Ends run.status run.finished_at run.cancel_reason run.superseded_by

-- A run is inserted with the columns of an end empty.
abbrev pub IsFresh : {E : Type 0} → Call E → Type 0
IsFresh (inserting run) = (run.cancel_reason ≡ none) × (run.superseded_by ≡ none)
IsFresh _ = Unit

abbrev pub IsSound : {E : Type 0} → List (SyncRun E) → Type 0
IsSound rows = IsKeyed rows × Every IsWell rows

starts :
    (status : SyncRunStatus) (finished_at : Option ℕ) {reason : Option SyncRunCancelReason}
    {reference : Option ℕ}
    → reason ≡ none
    → reference ≡ none
    → is_running status ≡ true
    → is_some finished_at ≡ false
    → Ends status finished_at reason reference
starts running none r s goes unended = (refl, r, s)
starts running (some t) r s goes unended = cc
starts completed t r s goes unended = cc
starts cancelled t r s goes unended = cc
starts failed t r s goes unended = cc

module _ {E : Type 0} where
  pub IsKeyed-update :
      (id : ℕ) (f : SyncRun E → SyncRun E) (keeps : (run : SyncRun E) → (f run).id ≡ run.id)
      (rows : List (SyncRun E))
      → IsKeyed rows
      → IsKeyed (update (is_open id) f rows)
  unfolding IsKeyed
  IsKeyed-update id f keeps [] keyed = tt
  IsKeyed-update id f keeps (run ∷ rows) (fresh, keyed) = elim (Bool-cases (is_open id run)) [
    | inl goes ↦
        rw (goes, keeps run)
          (any-update id run.id f keeps rows ∙ fresh, IsKeyed-update id f keeps rows keyed)
    | inr stays ↦
        rw stays (any-update id run.id f keeps rows ∙ fresh, IsKeyed-update id f keeps rows keyed)
  ]

  Every-update :
      (p : SyncRun E → Bool) (f : SyncRun E → SyncRun E) (well : (run : SyncRun E) → IsWell (f run))
      (rows : List (SyncRun E))
      → Every IsWell rows
      → Every IsWell (update p f rows)
  Every-update p f well [] all = tt
  Every-update p f well (run ∷ rows) (first, all) = elim (Bool-cases (p run)) [
    | inl goes ↦ rw goes (well run, Every-update p f well rows all)
    | inr stays ↦ rw stays (first, Every-update p f well rows all)
  ]

  transition-IsSound :
      (id : ℕ) (to_status : SyncRunStatus) (finished_at : Option ℕ)
      (reason : Option SyncRunCancelReason) (reference : Option ℕ)
      (sources : Option (List (PerSourceState E))) (rows : List (SyncRun E))
      → Ends to_status finished_at reason reference
      → IsSound rows
      → IsSound (transition id to_status finished_at reason reference sources rows).0
  unfolding transition
  transition-IsSound id to_status finished_at reason reference sources rows ends (keyed, well) =
      let f = terminate to_status finished_at reason reference sources in
      elim (Bool-cases
        (not (nat_eqb (length (filter (is_open id) rows)) 0) && not (refers rows reference))) [
          | inl broken ↦ rw broken (keyed, well)
          | inr writes ↦ rw writes (
            IsKeyed-update id f (λ _. refl) rows keyed,
            Every-update (is_open id) f (λ _. ends) rows well,
          )
        ]

  insert-IsSound :
      (run : SyncRun E) (rows : List (SyncRun E))
      → run.cancel_reason ≡ none
      → run.superseded_by ≡ none
      → IsSound rows
      → IsSound (insert run rows).0
  unfolding insert IsKeyed
  insert-IsSound run rows reason reference (keyed, well) =
      elim (Bool-cases (is_running run.status)) [
        | inr closed ↦ rw closed (keyed, well)
        | inl goes ↦ elim (Bool-cases (is_some run.finished_at)) [
          | inl ended ↦ rw (goes, ended) (keyed, well)
          | inr unended ↦ elim (Bool-cases (any (has_id run.id) rows)) [
            | inl known ↦ rw (goes, unended, known) (keyed, well)
            | inr fresh ↦
                rw (goes, unended, fresh, reference)
                  (
                    (fresh, keyed),
                    (starts run.status run.finished_at reason refl goes unended, well),
                  )
          ]
        ]
      ]

  call-IsSound :
      (c : Call E) (rows : List (SyncRun E)) → IsFresh c → IsSound rows → IsSound (call c rows).0
  unfolding call
  call-IsSound (inserting run) rows (reason, reference) sound =
      insert-IsSound run rows reason reference sound
  call-IsSound (finishing id t sources) rows fresh sound =
      transition-IsSound id _ _ _ _ _ rows (refl, refl, refl) sound
  call-IsSound (failing id t sources) rows fresh sound =
      transition-IsSound id _ _ _ _ _ rows (refl, refl, refl) sound
  call-IsSound (cancelling id t reason sources) rows fresh sound =
      transition-IsSound id _ _ _ _ _ rows (refl, (reason, refl, refl)) sound

  -- Whatever the calls on a sound table: the keys stay unique, and each row's columns agree. A run
  -- that is running has no end; one that has ended has the time of it; just the cancelled runs have
  -- a reason, and `superseded_by` names the run that the reason names. The runs that are inserted
  -- come with neither reason nor reference: `insert` does not test that.
  pub after-IsSound :
      (cs : List (Call E)) (rows : List (SyncRun E))
      → Every IsFresh cs
      → IsSound rows
      → IsSound (after cs rows)
  unfolding after
  after-IsSound [] rows fresh sound = sound
  after-IsSound (c ∷ cs) rows (first, fresh) sound =
      after-IsSound cs (call c rows).0 fresh (call-IsSound c rows first sound)
