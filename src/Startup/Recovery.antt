-- ===== src/Startup/Recovery.antt =====
-- What is in the table of sync runs after the recovery.
use dayseam.Prelude.{
  ℕ, suc, ◌≡◌, refl, sym, ◌∙◌, ap, arith, true, false, List, [], ◌∷◌, Option, none, some, nat_eqb,
  filter, length, any, if◌then◌else◌, Bool-cases, Option-cases, inl, inr, Every, nat_eqb_iff,
}
use mathlib.Core.Path.{subst}
use mathlib.Core.Option
use dayseam.Prelude.Results.{ok}
use dayseam.Runs.{SyncRun, is_running, failed}
use dayseam.SyncRuns.{
  has_id, get, update, is_open, terminate, is_left_behind, list_running, by_start,
}
use dayseam.SyncRuns.Table.{IsKeyed, get-update}
use dayseam.SyncRuns.Moves.{mark_failed-open}
use dayseam.SyncRuns.Wellformed.{IsKeyed-update}
use dayseam.SyncRuns.Order.{
  holds, any-by_start, length-by_start, IsKeyed-by_start, Every-by_start, Every-filter,
  IsKeyed-filter, any-filter, found_by_key,
}
use dayseam.Startup.{remap_per_source_state_for_recovery, recover_runs, recover_crashed_runs}

apart_ids : (a b id : ℕ) → a ≡ id → nat_eqb b id ≡ false → nat_eqb a b ≡ false
apart_ids a b id same other = ground arith

module _ {E : Type 0} (restarted : E) (now : ℕ) where
  -- The row of a run that has failed by the crash.
  abbrev pub fail : SyncRun E → SyncRun E
  fail run =
      terminate failed (some now) none none
        (some (remap_per_source_state_for_recovery restarted now run)) run

  abbrev pub recovered : SyncRun E → SyncRun E
  recovered run = if is_left_behind run then fail run else run

  abbrev IsListed : List (SyncRun E) → SyncRun E → Type 0
  IsListed rows run = (get run.id rows ≡ some run) × (is_running run.status ≡ true)

  abbrev marked : SyncRun E → List (SyncRun E) → List (SyncRun E)
  marked run rows =
      update (is_open run.id)
        (terminate failed (some now) none none
          (some (remap_per_source_state_for_recovery restarted now run)))
        rows

  recover_runs-cons :
      (run : SyncRun E) (runs rows : List (SyncRun E)) (n : ℕ)
      → IsKeyed rows
      → IsListed rows run
      → (recover_runs restarted now runs (marked run rows)).1 ≡ ok n
      → recover_runs restarted now (run ∷ runs) rows
        ≡ ((recover_runs restarted now runs (marked run rows)).0, ok (suc n))
  unfolding recover_runs
  recover_runs-cons run runs rows n keyed (found, goes) done =
      rw
        (
          mark_failed-open run.id now (remap_per_source_state_for_recovery restarted now run) rows
              run keyed found goes,
          done,
        )
        refl

  untouched :
      (run r : SyncRun E) (rows : List (SyncRun E))
      → get r.id rows ≡ some r
      → nat_eqb r.id run.id ≡ false
      → Option.map
          (λ x.
            if is_open run.id x
            then terminate failed
                (some now)
                none
                none
                (some (remap_per_source_state_for_recovery restarted now run))
                x
            else x)
          (get r.id rows)
        ≡ some r
  untouched run r rows found other = rw (found, other) refl

  -- The others that are listed are found as they were.
  still-IsListed :
      (run : SyncRun E) (rows runs : List (SyncRun E))
      → any (has_id run.id) runs ≡ false
      → Every (IsListed rows) runs
      → Every (IsListed (marked run rows)) runs
  still-IsListed run rows [] fresh all = tt
  still-IsListed run rows (r ∷ runs) fresh ((found, goes), all) = (
    (get-update run.id r.id _ (λ _. refl) rows ∙ untouched run r rows found (ground arith), goes),
    still-IsListed run rows runs (ground arith) all,
  )

  -- The row that the list of runs has failed, if it is in it.
  abbrev failed_by : ℕ → List (SyncRun E) → SyncRun E → SyncRun E
  failed_by id runs run = if any (has_id id) runs then fail run else run

  map_same : (found : Option (SyncRun E)) → Option.map (λ run. run) found ≡ found
  map_same none = refl
  map_same (some run) = refl

  found_at :
      (id : ℕ) (rows : List (SyncRun E)) {run : SyncRun E} → get id rows ≡ some run → run.id ≡ id
  found_at id [] found = cc
  found_at id (first ∷ rows) {run} found =
      ground (arith, nat_eqb_iff first.id id, found_at id rows {run = run})

  get-marked_same :
      (run : SyncRun E) (runs rows : List (SyncRun E))
      → any (has_id run.id) runs ≡ false
      → IsListed rows run
      → Option.map (failed_by run.id runs) (get run.id (marked run rows))
        ≡ Option.map (failed_by run.id (run ∷ runs)) (get run.id rows)
  get-marked_same run runs rows fresh (found, goes) =
      ap (Option.map (failed_by run.id runs)) (get-update run.id run.id _ (λ _. refl) rows)
      ∙ rw (found, (nat_eqb_iff run.id run.id).1 refl, goes, fresh) refl

  get-marked_other :
      (id : ℕ) (run : SyncRun E) (runs rows : List (SyncRun E))
      → nat_eqb run.id id ≡ false
      → Option.map (failed_by id runs) (get id (marked run rows))
        ≡ Option.map (failed_by id (run ∷ runs)) (get id rows)
  get-marked_other id run runs rows other =
      ap (Option.map (failed_by id runs)) (get-update run.id id _ (λ _. refl) rows)
      ∙ elim (Option-cases (get id rows)) [
        | inl missing ↦ rw missing refl
        | inr (r, here) ↦
            rw (here, apart_ids r.id run.id id (found_at id rows {run = r} here) other, other) refl
      ]

  get-marked :
      (id : ℕ) (run : SyncRun E) (runs rows : List (SyncRun E))
      → any (has_id run.id) runs ≡ false
      → IsListed rows run
      → Option.map (failed_by id runs) (get id (marked run rows))
        ≡ Option.map (failed_by id (run ∷ runs)) (get id rows)
  get-marked id run runs rows fresh listed = elim (Bool-cases (nat_eqb run.id id)) [
    | inl same ↦
        subst
          (λ x.
            Option.map (failed_by x runs) (get x (marked run rows))
            ≡ Option.map (failed_by x (run ∷ runs)) (get x rows))
          ((nat_eqb_iff run.id id).0 same) (get-marked_same run runs rows fresh listed)
    | inr other ↦ get-marked_other id run runs rows other
  ]

  recover_runs_lem :
      (runs rows : List (SyncRun E))
      → IsKeyed rows
      → IsKeyed runs
      → Every (IsListed rows) runs
      → ((recover_runs restarted now runs rows).1 ≡ ok (length runs))
        × ((id : ℕ)
            → get id (recover_runs restarted now runs rows).0
              ≡ Option.map (failed_by id runs) (get id rows))
  unfolding IsKeyed
  recover_runs_lem [] rows keyed apart all =
      (unfold recover_runs in refl, λ id. (unfold recover_runs in (sym (map_same (get id rows)))))
  recover_runs_lem (run ∷ runs) rows keyed (fresh, apart) (listed, all) =
      let (done, at_id) =
        recover_runs_lem runs (marked run rows) (IsKeyed-update run.id _ (λ _. refl) rows keyed)
          apart (still-IsListed run rows runs fresh all) in
      let steps = recover_runs-cons run runs rows _ keyed listed done in
      rw steps (refl, λ id. at_id id ∙ get-marked id run runs rows fresh listed)

  both_left : (run : SyncRun E) → is_left_behind run ≡ true → is_running run.status ≡ true
  both_left run left = ground arith

  Every-IsListed :
      (rows runs : List (SyncRun E))
      → Every (λ run. (get run.id rows ≡ some run) × (is_left_behind run ≡ true)) runs
      → Every (IsListed rows) runs
  Every-IsListed rows [] all = tt
  Every-IsListed rows (run ∷ runs) ((found, left), all) =
      ((found, both_left run left), Every-IsListed rows runs all)

  recovered_at :
      (id : ℕ) (rows runs : List (SyncRun E))
      → any (has_id id) runs ≡ holds is_left_behind (get id rows)
      → Option.map (failed_by id runs) (get id rows) ≡ Option.map recovered (get id rows)
  recovered_at id rows runs listed = elim (Option-cases (get id rows)) [
    | inl missing ↦ rw missing refl
    | inr (r, here) ↦ let same = listed ∙ ap (holds is_left_behind) here in rw (here, same) refl
  ]

  -- After a crash, with unique keys: the recovery is not refused, it counts just the runs that were
  -- left behind, and each of these is in the table as failed, with the time of the recovery, no
  -- reason, and its unfinished sources failed too. Every other row is as it was.
  pub recover_crashed_runs_lem :
      (rows : List (SyncRun E))
      → IsKeyed rows
      → ((recover_crashed_runs restarted now rows).1 ≡ ok (length (filter is_left_behind rows)))
        × ((id : ℕ)
            → get id (recover_crashed_runs restarted now rows).0
              ≡ Option.map recovered (get id rows))
  unfolding recover_crashed_runs list_running
  recover_crashed_runs_lem rows keyed =
      let left = filter is_left_behind rows in
      let listed =
        Every-IsListed rows left (Every-filter _ is_left_behind rows (found_by_key rows keyed)) in
      let (done, at_id) =
        recover_runs_lem (by_start left) rows keyed
          (IsKeyed-by_start left (IsKeyed-filter is_left_behind rows keyed))
          (Every-by_start (IsListed rows) left listed) in
      (
        done ∙ ap ok (length-by_start left),
        λ id.
            at_id id
            ∙ recovered_at id rows (by_start left)
                (any-by_start id left ∙ any-filter id is_left_behind rows keyed),
      )
