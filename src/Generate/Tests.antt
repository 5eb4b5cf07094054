-- ===== src/Generate/Tests.antt =====
-- Two runs of one request: the second takes the place of the first.
use dayseam.Prelude.{
  ℕ, ◌≡◌, refl, arith, Bool, true, false, List, [], ◌∷◌, ◌++◌, none, some, nat_eqb, nat_eqb_iff,
  sym, ap, not, ◌&&◌, Bool-cases, inl, inr,
}
use dayseam.Prelude.Maps.{lookup, insert, remove}
use dayseam.Prelude.Results.{ok}
use dayseam.Runs.{SyncRunTrigger, superseded_by}
use mathlib.Core.Option
use mathlib.Core.Path.{subst}
use dayseam.SyncRuns
use dayseam.SyncRuns.{get, list_running}
use dayseam.SyncRuns.Standing.{is_closed, is_known}
use dayseam.Generate.{in_flight_count, outcome_completed, outcome_cancelled}
use dayseam.Generate.World.{
  Stage, idle, fetched, over, World, Answer, Engine, GenerateRequest, either, at_rest,
}
use dayseam.Generate.Machine.{Move, resume, Reach, here, there, move, moves, advance}
use dayseam.Generate.Flights.{is_live, in_flight_count-settled}
use dayseam.Generate.Ends.{is_over, moves_apart}
use dayseam.Generate.Drafts.{drafts_of, announced, over-drafts}
use dayseam.Generate.Standing.{is_starting}
use dayseam.Generate.Closed.{IsOrderly, closed-settled}

abbrev engine : Engine ℕ ℕ ℕ ℕ
engine = record {
  commit_shas = λ metadata. none;
  pipeline = λ events mrs. events;
  report_of = λ draft_id split. ok 100;
  insert_many = λ events rows. (events ++ rows, ok tt);
}

abbrev requests : ℕ → GenerateRequest
requests id = record {
  key = record { person_id = 1; date = 20; template_id = [] };
  trigger = SyncRunTrigger.user;
}

abbrev answer : Answer ℕ ℕ ℕ
answer = record { available = true; now = 50; per_source = []; draft_id = 900 }

abbrev start : World ℕ ℕ ℕ ℕ
start = at_rest [] [] []

abbrev turns : List ℕ → List (Move ℕ ℕ ℕ)
turns [] = []
turns (id ∷ ids) = resume id answer ∷ turns ids

abbrev first_alone : List ℕ
first_alone = 7 ∷ 7 ∷ 7 ∷ 7 ∷ 7 ∷ []

-- The second run starts and takes over, the first one stops, and the second ends.
abbrev both : List ℕ
both =
    7 ∷ 7 ∷ 7 ∷ 7 ∷ 7 ∷ 8 ∷ 8 ∷ 8 ∷ 8 ∷ 8 ∷ 7 ∷ 7 ∷ 7 ∷ 7 ∷ 7 ∷ 8 ∷ 8 ∷ 8 ∷ 8 ∷ 8 ∷ 8 ∷ 8 ∷ 8 ∷ []

abbrev AllMoves : World ℕ ℕ ℕ ℕ → Move ℕ ℕ ℕ → Type 0
AllMoves w m = Unit

-- Any moves are allowed.
reaches :
    (ms : List (Move ℕ ℕ ℕ)) {w : World ℕ ℕ ℕ ℕ}
    → Reach engine requests AllMoves start w
    → Reach engine requests AllMoves start (moves engine requests ms w)
unfolding moves
reaches [] reached = reached
reaches (m ∷ ms) reached = reaches ms (there reached m tt)

abbrev final : World ℕ ℕ ℕ ℕ
final = moves engine requests (turns both) start

first_over : final.stage 7 ≡ over (outcome_cancelled 7 (superseded_by 8))
unfolding moves move advance either lookup insert remove SyncRuns.insert SyncRuns.transition
first_over = refl

second_over : final.stage 8 ≡ over (outcome_completed 8 900)
unfolding moves move advance either lookup insert remove SyncRuns.insert SyncRuns.transition
second_over = refl

abbrev after_turns : List ℕ → World ℕ ℕ ℕ ℕ
after_turns ids = moves engine requests (turns ids) start

abbrev unanswered : ℕ → Move ℕ ℕ ℕ
unanswered id = resume id (record answer { available = false })

-- Two starts at once: the second marks a row that the first has yet to insert, and the first leaves
-- its row to the second.
abbrev starts_mixed : World ℕ ℕ ℕ ℕ
starts_mixed =
    after_turns
      (7 ∷ 7 ∷ 8 ∷ 8 ∷ 8 ∷ 8 ∷ 7 ∷ 7 ∷ 7 ∷ 7 ∷ 7 ∷ 7 ∷ 7 ∷ 7 ∷ 8 ∷ 8 ∷ 8 ∷ 8 ∷ 8 ∷ 8 ∷ 8 ∷ 8 ∷ [])

row_left_open :
    (is_over (starts_mixed.stage 7) ≡ true)
    × (is_over (starts_mixed.stage 8) ≡ true)
    × (is_known (get 7 starts_mixed.sync_runs) ≡ true)
    × (is_closed (get 7 starts_mixed.sync_runs) ≡ false)
unfolding moves move advance either lookup insert remove SyncRuns.insert SyncRuns.transition
row_left_open = (refl, refl, refl, refl)

-- A start that stops the older run, and then cannot insert its own row.
abbrev insert_refused : World ℕ ℕ ℕ ℕ
insert_refused =
    moves engine requests (unanswered 8 ∷ turns (8 ∷ []))
      (after_turns (7 ∷ 7 ∷ 7 ∷ 7 ∷ 7 ∷ 8 ∷ 8 ∷ 7 ∷ 7 ∷ 7 ∷ 7 ∷ 7 ∷ []))

row_left_open_by_refusal :
    (is_over (insert_refused.stage 7) ≡ true)
    × (is_over (insert_refused.stage 8) ≡ true)
    × (is_known (get 7 insert_refused.sync_runs) ≡ true)
    × (is_closed (get 7 insert_refused.sync_runs) ≡ false)
unfolding moves move advance either lookup insert remove SyncRuns.insert SyncRuns.transition
row_left_open_by_refusal = (refl, refl, refl, refl)

-- The newer run starts between the persist-time guard and the write of the draft.
abbrev after_guard : World ℕ ℕ ℕ ℕ
after_guard = after_turns (7 ∷ 7 ∷ 7 ∷ 7 ∷ 7 ∷ 7 ∷ 7 ∷ 7 ∷ 7 ∷ 8 ∷ 8 ∷ 8 ∷ 8 ∷ 7 ∷ 7 ∷ 7 ∷ [])

draft_of_superseded :
    (after_guard.stage 7 ≡ over (outcome_completed 7 900))
    × (drafts_of 7 after_guard.report_drafts ≡ 900 ∷ [])
    × (Option.map (λ run. run.superseded_by) (get 7 after_guard.sync_runs) ≡ some (some 8))
unfolding moves move advance either lookup insert remove SyncRuns.insert SyncRuns.transition
draft_of_superseded = (refl, refl, refl)

-- A start that cannot insert its row takes the newer run's entry away.
abbrev entry_taken : World ℕ ℕ ℕ ℕ
entry_taken =
    moves engine requests (unanswered 7 ∷ turns (7 ∷ [])) (after_turns (7 ∷ 7 ∷ 8 ∷ 8 ∷ 8 ∷ 8 ∷ []))

live_run_lost : (is_live (entry_taken.stage 8) ≡ true) × (in_flight_count entry_taken.in_flight ≡ 0)
unfolding moves move advance either lookup insert remove SyncRuns.insert SyncRuns.transition
live_run_lost = (refl, refl)

-- The two runs are over at the end, and no other one began.
ended : (j : ℕ) → is_live (final.stage j) ≡ false
ended j = elim (Bool-cases (nat_eqb j 7)) [
  | inl first ↦
      subst (λ x. is_live (final.stage x) ≡ false) (sym ((nat_eqb_iff j 7).0 first))
        (ap is_live first_over)
  | inr other ↦ elim (Bool-cases (nat_eqb j 8)) [
    | inl second ↦
        subst (λ x. is_live (final.stage x) ≡ false) (sym ((nat_eqb_iff j 8).0 second))
          (ap is_live second_over)
    | inr neither ↦
        ap is_live (moves_apart engine requests j (turns both) start (rw (other, neither) refl))
  ]
]

in_flight_count-settled_example : in_flight_count final.in_flight ≡ 0
in_flight_count-settled_example =
    in_flight_count-settled engine requests refl (reaches (turns both) here) ended

over-drafts_example :
    drafts_of 8 final.report_drafts
    ≡ announced (outcome_completed 8 900).status (outcome_completed 8 900).draft_id
      ++ drafts_of 8 start.report_drafts
over-drafts_example =
    over-drafts engine requests 8 (outcome_completed 8 900) (λ j. refl) (reaches (turns both) here)
      second_over

abbrev is_idle : Stage ℕ ℕ ℕ ℕ → Bool
is_idle idle = true
is_idle _ = false

-- Orderly moves of runs that have begun.
abbrev have_begun : List ℕ → World ℕ ℕ ℕ ℕ → Bool
have_begun [] w = true
have_begun (id ∷ ids) w =
    not (is_idle (w.stage id)) && have_begun ids (move engine requests (resume id answer) w)

not_idle : (at : Stage ℕ ℕ ℕ ℕ) → is_idle at ≡ false → at ≡ idle → ⊥
not_idle at apart is = let idles = ap is_idle is in ground (arith, idles, apart)

goes_on :
    (ids : List ℕ) {w : World ℕ ℕ ℕ ℕ}
    → have_begun ids w ≡ true
    → Reach engine requests IsOrderly start w
    → Reach engine requests IsOrderly start (moves engine requests (turns ids) w)
unfolding moves
goes_on [] going reached = reached
goes_on (id ∷ ids) {w = w} going reached =
    let apart : is_idle (w.stage id) ≡ false = ground (arith, going) in
    let further : have_begun ids (move engine requests (resume id answer) w) ≡ true =
      ground (arith, going) in
    goes_on ids further (
      there reached (resume id answer)
        (refl, λ at_idle. absurd (not_idle (w.stage id) apart at_idle)))

first_fetched : (after_turns first_alone).stage 7 ≡ fetched []
unfolding moves move advance either lookup insert remove SyncRuns.insert SyncRuns.transition
first_fetched = refl

first-IsOrderly : Reach engine requests IsOrderly start (after_turns first_alone)
unfolding moves move advance either lookup insert remove SyncRuns.insert SyncRuns.transition
first-IsOrderly =
    goes_on (7 ∷ 7 ∷ 7 ∷ 7 ∷ []) refl
      (there here (resume 7 answer) (refl, λ at_idle. (refl, λ j. refl)))

none_starting : (j : ℕ) → is_starting ((after_turns first_alone).stage j) ≡ false
none_starting j = elim (Bool-cases (nat_eqb j 7)) [
  | inl first ↦
      subst (λ x. is_starting ((after_turns first_alone).stage x) ≡ false)
        (sym ((nat_eqb_iff j 7).0 first)) (ap is_starting first_fetched)
  | inr other ↦
      ap is_starting (moves_apart engine requests j (turns first_alone) start (rw other refl))
]

both-IsOrderly : Reach engine requests IsOrderly start final
unfolding moves move advance either lookup insert remove SyncRuns.insert SyncRuns.transition
both-IsOrderly =
    goes_on (8 ∷ 8 ∷ 8 ∷ 8 ∷ 7 ∷ 7 ∷ 7 ∷ 7 ∷ 7 ∷ 8 ∷ 8 ∷ 8 ∷ 8 ∷ 8 ∷ 8 ∷ 8 ∷ 8 ∷ []) refl
      (there first-IsOrderly (resume 8 answer) (refl, λ at_idle. (refl, none_starting)))

closed-settled_example : is_closed (get 7 final.sync_runs) ≡ true
closed-settled_example =
    closed-settled engine requests 7 (outcome_cancelled 7 (superseded_by 8)) refl (λ j. refl)
      both-IsOrderly ended first_over
