-- ===== src/Lib.antt =====
-- dayseam gathers a day's activity from several sources, writes a report of it, and saves the
-- report to sinks, on request or on a schedule. A connector fetches events through the HTTP
-- client; the report crate drops duplicate commits, tags commits with merge requests and groups
-- events; a sink splices the report into a Markdown file between marker lines; the orchestrator
-- records every run in a table, plans scheduled runs from these records, prunes old rows, and
-- recovers at startup from a crash. The parts modelled here, by file:
--
--   Activity   crates/dayseam-core/src/types/activity.rs: events, entities, their text form
--   Runs       crates/dayseam-core/src/types/run.rs: runs, their triggers and statuses
--   Dedup      crates/dayseam-report/src/dedup.rs: `dedup_commit_authored`; Reference is the pass
--              with no index, which Refines compares it with; Survivor is about one merge, Shas
--              about the whole result
--   Report     crates/dayseam-report/src/group_key.rs and rollup_mr.rs
--   Enrich     crates/dayseam-report/src/enrich.rs and pipeline.rs: ticket keys; Links has the URLs of
--              pull requests, `annotate_transition_with_mr` (Windows about its index, Least about its
--              search, Triggers about its result) and `pipeline` (Settled, with Passes, Carried and
--              Again, about its second run); Rounds is about the loops of the scans
--   Rollup     crates/dayseam-report/src/rollup.rs: `orphan_key` (Buckets, Identities and Requests)
--              and the titles of merge requests; Groups has the data, Synthesis the artifacts of orphans, Stages `roll_up`,
--              Told, Merge and Kept what it keeps, Sorted, Ordered and Fitting its order
--   Schedule   crates/dayseam-orchestrator/src/schedule/mod.rs: `plan_next_actions`,
--              `from_sync_runs` (Satisfaction, CatchUpRuns), `run_scheduled_action` (Gate)
--   Generate   crates/dayseam-orchestrator/src/generate.rs and orchestrator.rs: World is the shared
--              state, Machine one step of a run's task (`start_with_trigger`, `run_background` and
--              the two terminations), `Orchestrator::cancel` and the token of a `GenerateHandle`;
--              Artifacts `collect_mr_artifacts`. Flights, Drafts and Closed are about all
--              interleavings; Standing, Spares and Settles have the invariant that Closed uses, and
--              Ends tells that a run's stage changes by its own steps only
--   Markers    crates/sinks/sink-markdown-file/src/markers.rs: Syntax has the marker lines and the
--              fences, Lines the split into lines, Attrs the attributes of a begin line, Document
--              `parse`, `render` and `splice`
--   SyncRuns   crates/dayseam-db/src/repos/sync_runs.rs: the table of runs and its transitions
--   Startup    crates/dayseam-orchestrator/src/startup.rs: `recover_crashed_runs`
--   Retention  crates/dayseam-orchestrator/src/retention.rs: `sweep` (Sweeping) and its guard (Spacing)
--   Http       crates/connectors-sdk/src/http.rs: `HttpClient::send`
--   Text       Rust's `str` as the list of its code points, with the functions the parts use
--   Prelude    shared lists, tests, maps and results
--
-- State that the code mutates is passed along: a table is the list of its rows, a guard or a
-- parser is a record. A panic is `none`, an error is `err`. An identifier or an instant is a
-- number. chrono's calendar and dates, JSON values, the random jitter, and what a server or a
-- cancellation token does are arguments, with the laws that the code relies on.
--
-- A task of a run is cut at the points where it waits: a step takes it to the next, and the steps of
-- several runs and the calls of `cancel` come in any order. What the sources answer to `fan_out` is an
-- argument of one step.
--
-- An instant of the enrichment is a day or more after chrono's earliest one, where the subtraction of
-- 24 hours would panic. A path has one spelling for the same components.
--
-- Some loops run on rounds. The split into lines, the loop over the attributes of a begin line and the
-- scans for ticket keys and URLs have one round for each character of the text, which is enough, as
-- each round takes one at least: `split_lines-lines`, `attrs_loop-enough`, `ticket_rounds-enough` and
-- `pr_rounds-enough`. The retry loop has one round more than `max_attempts`, which is enough by
-- `send_lem`.
--
-- Not modelled: the tasks and permits of `fan_out`, connectors, rendering and templates, progress
-- events, the database statements of other tables, file writes, secrets, event channels, and the
-- desktop application: most of it is I/O and glue around these parts.
pub mod Activity
pub mod Dedup
pub mod Enrich
pub mod Generate
pub mod Http
pub mod Markers
pub mod Prelude
pub mod Report
pub mod Retention
pub mod Rollup
pub mod Runs
pub mod Schedule
pub mod Startup
pub mod SyncRuns
pub mod Text
