-- ===== src/Etl/Pipeline.antt =====
-- internal/features/etl_validation/service/etl_pipeline.go, service/etl_run.go and loader/loader.go: the
-- start of a run, its work up to the quality gate, and the transaction that flips the marts. What the
-- snapshot service answers is an argument (`Extracted`); the SQL of a mart is a builder. A panic in the
-- work is left out.
pub mod Flip
pub mod Gate
pub mod Commits
pub mod Starting
use forecast_e_zoo.Common.{
  ℕ, suc, ◌==◌, ltb, not, Bool, true, false, ◌||◌, Option, none, some, List, [], ◌∷◌, ◌++◌,
  if◌then◌else◌,
}
use forecast_e_zoo.Common.Text.{Text, text_eq, codes}
use forecast_e_zoo.Common.Int.{pos}
use forecast_e_zoo.Common.Dict.{Dict, insert}
use forecast_e_zoo.Common.Float.{Float64}
use forecast_e_zoo.Common.Session.{
  internal, bad_request, etl_run_already_running, cannot_retry_etl, Result, ok, err, Session, ◌>>=◌,
  ◌>>◌, pure, raise, statement,
}
use forecast_e_zoo.Etl.Validation.{Dataset, Report}
use forecast_e_zoo.Etl.Engine.{Engine, run}
use forecast_e_zoo.Etl.Tables.{
  EtlStatus, running, committed, failed, aborted, Reason, snapshot, bad_source_load_id, extract,
  quality_threshold, loader, EtlRun, StatusPatch, EtlTables, EtlAction, insert_etl_run,
  get_etl_run_by_id, update_etl_run_status, insert_reject_entries, round_trip,
  try_advisory_xact_lock, violations_to_reject_entries,
}

-- A builder of a mart: its name, and its statements, with the number of rows.
pub record Builder (M : Type 0) : Type 0 where
  pub name : Text
  pub build : ℕ → ℕ → M → Result ℕ × M

-- What GetCurrentSnapshot, uuid.Parse of its load and extractAllEntities give: the first failure, or
-- the load with its data, the number of lines extracted, and the copy of it into the staging tables.
pub data Extracted (V M : Type 0) : Type 0 where
  no_snapshot : Extracted V M
  bad_load_id : Extracted V M
  not_extracted : ℕ → Extracted V M
  staged : ℕ → Dataset V → ℕ → (M → Result (Unit {0}) × M) → Extracted V M

pub data Outcome : Type 0 where
  run_committed : Outcome
  run_failed : Reason → Outcome

pub record ApplyParams (M : Type 0) : Type 0 where
  pub run_id : ℕ
  pub source_load_id : ℕ
  pub builders : List (Builder M)
  pub lines_total : ℕ
  pub lines_failed : ℕ
  pub populate_staging : M → Result (Unit {0}) × M

-- uuid.Nil: identifiers are numbers, and this one is no identifier of a row.
abbrev pub uuid_nil : ℕ
uuid_nil = 0

abbrev pub trigger_cron : Text
trigger_cron = codes "cron"

abbrev pub trigger_admin : Text
trigger_admin = codes "admin"

abbrev pub trigger_retry : Text
trigger_retry = codes "retry"

abbrev pub is_valid_trigger : Text → Bool
is_valid_trigger t = text_eq t trigger_cron || text_eq t trigger_admin || text_eq t trigger_retry

abbrev pub new_etl_run : ℕ → Text → Option Text → Option ℕ → EtlRun
new_etl_run id trigger requester parent = record {
  id = id;
  status = running;
  trigger = trigger;
  requester = requester;
  parent_run_id = parent;
  source_load_id = none;
  marts_summary = [];
  failure_reason = none;
  lines_total = 0;
  lines_failed = 0;
}

abbrev pub is_retryable : EtlStatus → Bool
is_retryable running = false
is_retryable committed = false
is_retryable failed = true
is_retryable aborted = true

-- BuildSummary.Add
abbrev pub add_summary : Text → ℕ → Dict ℕ → Dict ℕ
add_summary [] rows m = m
add_summary (c ∷ s) rows m = insert (c ∷ s) rows m

abbrev pub failed_patch : Reason → StatusPatch
failed_patch reason = record {
  status = failed;
  source_load_id = none;
  marts_summary = none;
  failure_reason = some reason;
  lines_total = none;
  lines_failed = none;
}

abbrev pub source_patch : ℕ → StatusPatch
source_patch load = record {
  status = running;
  source_load_id = some load;
  marts_summary = none;
  failure_reason = none;
  lines_total = none;
  lines_failed = none;
}

abbrev pub max_lines : ℕ → ℕ → ℕ
max_lines total extracted = if ltb total extracted then extracted else total

-- `linesTotal > 0` and the rate above the threshold
abbrev pub exceeds : (f : Float64) → f.Val → ℕ → ℕ → Bool
exceeds f threshold failed_lines total =
    if ltb 0 total
    then f.lt threshold (f.div (f.of_int (pos failed_lines)) (f.of_int (pos total)))
    else false

module _ {M : Type 0} where
  abbrev pub next_etl_run : EtlAction M ℕ
  next_etl_run s = (ok s.tables.next_run, s)

  -- Under the lock: InsertEtlRun goes over the pool, not over the transaction.
  abbrev pub start_locked : Text → Option Text → Option ℕ → Bool → EtlAction M EtlRun
  start_locked trigger requester parent false = raise etl_run_already_running
  start_locked trigger requester parent true = do
    id ← next_etl_run
    insert_etl_run (new_etl_run id trigger requester parent)
    round_trip
    pure (new_etl_run id trigger requester parent)

  unfoldable pub try_start : Text → Option Text → Option ℕ → EtlAction M EtlRun
  unfolding round_trip try_advisory_xact_lock insert_etl_run
  try_start trigger requester parent =
      if is_valid_trigger trigger
      then (do
        round_trip
        locked ← try_advisory_xact_lock
        start_locked trigger requester parent locked)
      else raise bad_request

  abbrev pub retry_of : EtlRun → ℕ → Option Text → EtlAction M EtlRun
  retry_of prev id requester =
      if is_retryable prev.status
      then try_start trigger_retry requester (some id)
      else raise cannot_retry_etl

  unfoldable pub retry : ℕ → Option Text → EtlAction M EtlRun
  unfolding get_etl_run_by_id try_start
  retry id requester = do prev ← get_etl_run_by_id id; retry_of prev id requester

  -- An error that is only logged.
  abbrev pub best_effort : {A : Type 0} → EtlAction M A → EtlAction M (Unit {0})
  best_effort m s = (ok tt, (m s).1)

  abbrev pub on_marts : {A : Type 0} → (M → Result A × M) → EtlAction M A
  on_marts q = statement (λ t. let (r, m) = q t.marts in (r, record t { marts = m }))

  unfoldable pub build_all : ℕ → ℕ → List (Builder M) → Dict ℕ → EtlAction M (Dict ℕ)
  build_all run_id load_id [] summary = pure summary
  build_all run_id load_id (b ∷ bs) summary = do
    rows ← on_marts (b.build run_id load_id)
    build_all run_id load_id bs (add_summary b.name rows summary)

  abbrev pub committed_patch : ApplyParams M → Dict ℕ → StatusPatch
  committed_patch p summary = record {
    status = committed;
    source_load_id = some p.source_load_id;
    marts_summary = some summary;
    failure_reason = none;
    lines_total = some p.lines_total;
    lines_failed = some p.lines_failed;
  }

  -- The body of the transaction of Apply, with its commit.
  unfoldable pub apply_body : (M → M) → ApplyParams M → EtlAction M (Dict ℕ)
  unfolding build_all update_etl_run_status round_trip
  apply_body create_staging p = do
    on_marts (λ m. (ok tt, create_staging m))
    on_marts p.populate_staging
    summary ← build_all p.run_id p.source_load_id p.builders []
    update_etl_run_status p.run_id (committed_patch p summary)
    round_trip
    pure summary

  abbrev pub undo_on_error :
      {A : Type 0}
      → EtlTables M
      → Result A × Session (EtlTables M)
      → Result A × Session (EtlTables M)
  undo_on_error before (ok a, s) = (ok a, s)
  undo_on_error before (err e, s) = (err e, record s { tables = before })

  -- Behind the checks of the parameters: an error in the transaction undoes it.
  unfoldable pub apply_builders : (M → M) → ApplyParams M → EtlAction M (Dict ℕ)
  unfolding round_trip apply_body
  apply_builders create_staging p =
      round_trip >> λ s. undo_on_error s.tables (apply_body create_staging p s)

  -- `len(p.Builders) == 0`
  unfoldable pub apply_checked : List (Builder M) → (M → M) → ApplyParams M → EtlAction M (Dict ℕ)
  unfolding apply_builders
  apply_checked [] create_staging p = raise internal
  apply_checked (_ ∷ _) create_staging p = apply_builders create_staging p

  unfoldable pub apply : (M → M) → ApplyParams M → EtlAction M (Dict ℕ)
  unfolding apply_checked
  apply create_staging p =
      if p.run_id == uuid_nil
      then raise internal
      else if p.source_load_id == uuid_nil
      then raise internal
      else apply_checked p.builders create_staging p

  unfoldable pub mark_failed : ℕ → Reason → EtlAction M Outcome
  unfolding update_etl_run_status
  mark_failed id reason = do
    best_effort (update_etl_run_status id (failed_patch reason))
    pure (run_failed reason)

  abbrev pub after_apply : ℕ → Result (Dict ℕ) → EtlAction M Outcome
  after_apply id (ok summary) = pure run_committed
  after_apply id (err e) = mark_failed id loader

  abbrev pub apply_and_settle : (M → M) → ApplyParams M → EtlAction M Outcome
  apply_and_settle create_staging p s =
      let (r, s') = apply create_staging p s in after_apply p.run_id r s'

module _ (f : Float64) {M : Type 0} where
  open f use {Val}

  -- From the quality threshold on.
  unfoldable pub gate :
      Val
      → (M → M)
      → List (Builder M)
      → ℕ
      → ℕ
      → (M → Result (Unit {0}) × M)
      → ℕ
      → ℕ
      → EtlAction M Outcome
  unfolding apply mark_failed
  gate threshold create_staging builders id load populate total failed_lines =
      if exceeds f threshold failed_lines total
      then mark_failed id quality_threshold
      else apply_and_settle create_staging (record {
        run_id = id;
        source_load_id = load;
        builders = builders;
        lines_total = total;
        lines_failed = failed_lines;
        populate_staging = populate;
      })

  -- runAsync
  unfoldable pub run_async :
      Val → (M → M) → List (Builder M) → Engine Val → ℕ → Extracted Val M → EtlAction M Outcome
  unfolding mark_failed update_etl_run_status insert_reject_entries run gate
      violations_to_reject_entries
  run_async threshold create_staging builders e id no_snapshot = mark_failed id snapshot
  run_async threshold create_staging builders e id bad_load_id = mark_failed id bad_source_load_id
  run_async threshold create_staging builders e id (not_extracted load) = do
    best_effort (update_etl_run_status id (source_patch load))
    mark_failed id extract
  run_async threshold create_staging builders e id (staged load ds lines populate) = do
    best_effort (update_etl_run_status id (source_patch load))
    let report = run e ds
    best_effort (insert_reject_entries (violations_to_reject_entries id report.violations))
    gate threshold create_staging builders id load populate (max_lines report.lines_total lines)
        report.lines_failed
