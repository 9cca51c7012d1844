-- ===== src/Etl/Tables.antt =====
-- internal/features/etl_validation/repository (etl_runs.go, reject_log.go, staging.go): the statements of
-- the pipeline. `M` is the contents of the marts and of the staging tables, which the statements of
-- the builders read and write.
use forecast_e_zoo.Common.{
  ℕ, suc, ◌==◌, Bool, true, false, Option, none, some, List, [], ◌∷◌, ◌++◌, if◌then◌else◌, map,
}
use forecast_e_zoo.Common.Text.{Text}
use forecast_e_zoo.Common.Dict.{Dict}
use forecast_e_zoo.Common.Session.{etl_run_not_found, Result, ok, err, Action, pure, statement}
use forecast_e_zoo.Etl.Validation.{Violation}

pub data EtlStatus : Type 0 where
  running committed failed aborted : EtlStatus

-- The texts of `failure_reason` by their beginnings.
pub data Reason : Type 0 where
  snapshot bad_source_load_id extract quality_threshold loader stale_timeout : Reason

-- The times and the kind, which is always `full`, are left out.
pub record EtlRun : Type 0 where
  pub id : ℕ
  pub status : EtlStatus
  pub trigger : Text
  pub requester : Option Text
  pub parent_run_id : Option ℕ
  pub source_load_id : Option ℕ
  pub marts_summary : Dict ℕ
  pub failure_reason : Option Reason
  pub lines_total : ℕ
  pub lines_failed : ℕ

pub record StatusPatch : Type 0 where
  pub status : EtlStatus
  pub source_load_id : Option ℕ
  pub marts_summary : Option (Dict ℕ)
  pub failure_reason : Option Reason
  pub lines_total : Option ℕ
  pub lines_failed : Option ℕ

pub record RejectLogEntry : Type 0 where
  pub etl_run_id : ℕ
  pub entity : Text
  pub business_key : Option Text
  pub severity : Text
  pub rule_id : Text
  pub field : Option Text

pub record EtlTables (M : Type 0) : Type 0 where
  pub runs : List EtlRun
  pub reject_log : List RejectLogEntry
  pub marts : M
  pub next_run : ℕ  -- stands for uuid.New()
  pub lock_busy : Bool  -- another transaction holds the advisory lock of the pipeline

abbrev pub EtlAction : Type 0 → Type 0 → Type 0
EtlAction M = Action (EtlTables M)

abbrev pub coalesce : {A : Type 0} → Option A → A → A
coalesce none old = old
coalesce (some new) old = new

abbrev pub coalesce_option : {A : Type 0} → Option A → Option A → Option A
coalesce_option none old = old
coalesce_option (some new) old = some new

-- etl_runs_update_status.sql on one row
abbrev pub patched : StatusPatch → EtlRun → EtlRun
patched p r = record r {
  status = p.status;
  source_load_id = coalesce_option p.source_load_id r.source_load_id;
  marts_summary = coalesce p.marts_summary r.marts_summary;
  failure_reason = coalesce_option p.failure_reason r.failure_reason;
  lines_total = coalesce p.lines_total r.lines_total;
  lines_failed = coalesce p.lines_failed r.lines_failed;
}

abbrev pub patch_runs : ℕ → StatusPatch → List EtlRun → List EtlRun
patch_runs id p = map λ (r : EtlRun). if r.id == id then patched p r else r

unfoldable pub find_etl_run : ℕ → List EtlRun → Result EtlRun
find_etl_run id [] = err etl_run_not_found
find_etl_run id (r ∷ rs) = let rest = find_etl_run id rs in if r.id == id then ok r else rest

module _ {M : Type 0} where
  unfoldable pub insert_etl_run : EtlRun → EtlAction M (Unit {0})
  insert_etl_run r =
      statement (λ t. (ok tt, record t { runs = t.runs ++ r ∷ []; next_run = suc t.next_run }))

  unfoldable pub get_etl_run_by_id : ℕ → EtlAction M EtlRun
  get_etl_run_by_id id = statement (λ t. (find_etl_run id t.runs, t))

  unfoldable pub update_etl_run_status : ℕ → StatusPatch → EtlAction M (Unit {0})
  update_etl_run_status id p = statement (λ t. (ok tt, record t { runs = patch_runs id p t.runs }))

  unfoldable pub insert_reject_entries : List RejectLogEntry → EtlAction M (Unit {0})
  insert_reject_entries [] = pure tt
  insert_reject_entries (e ∷ es) =
      statement (λ t. (ok tt, record t { reject_log = t.reject_log ++ e ∷ es }))

  -- Begin and commit are statements that change no row.
  unfoldable pub round_trip : EtlAction M (Unit {0})
  round_trip = statement (λ t. (ok tt, t))

  unfoldable pub try_advisory_xact_lock : EtlAction M Bool
  try_advisory_xact_lock = statement (λ t. (ok (if t.lock_busy then false else true), t))
  -- pg_try_advisory_xact_lock is given back when its transaction ends, so no value of it is kept.

-- violationsToRejectEntries on one violation: no text is NULL.
abbrev pub null_if_empty : Text → Option Text
null_if_empty [] = none
null_if_empty (c ∷ s) = some (c ∷ s)

unfoldable pub violations_to_reject_entries : ℕ → List Violation → List RejectLogEntry
violations_to_reject_entries id [] = []
violations_to_reject_entries id (v ∷ vs) =
    record {
      etl_run_id = id;
      entity = v.entity;
      business_key = null_if_empty v.business_key;
      severity = v.severity;
      rule_id = v.rule_name;
      field = null_if_empty v.field;
    }
    ∷ violations_to_reject_entries id vs
