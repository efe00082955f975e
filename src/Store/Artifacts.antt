-- ===== src/Store/Artifacts.antt =====
-- Reading SQL artifacts: `load_sql_for_execution` and `_extend_selected_sql_locked` of
-- persistence/fake.py.
use xiaowei_agent.Contracts.Commands.{
  SqlArtifactUnavailableReason, Result, TaskAttemptGrant, SqlArtifactRecord, SqlArtifactRef, ok,
  grant_not_current, sql_artifact_unavailable, sql_artifact_expired, err,
}
use xiaowei_agent.Contracts.Enums.{is_running}
use xiaowei_agent.Contracts.Task.{TaskRecord}
use xiaowei_agent.Decisions.Lease.{grant_is_current}
use xiaowei_agent.Decisions.Sql.{
  SqlArtifactReadDecision, classify_sql_artifact_read, extended_sql_expiry,
}
use xiaowei_agent.Dict.{lookup, insert}
use xiaowei_agent.Prelude.{string_eq, nat_eq, ℕ, String, Option, none, some}
use xiaowei_agent.Store.State.{ClarificationSubject, StoreState, StoreResult, with_task}

unfoldable pub target_selection_sql : Option ClarificationSubject → Option SqlArtifactRef
target_selection_sql none = none
target_selection_sql (some ClarificationSubject.route) = none
target_selection_sql (some (ClarificationSubject.capability selection)) = selection

abbrev unavailable_reason : SqlArtifactReadDecision → SqlArtifactUnavailableReason
unavailable_reason SqlArtifactReadDecision.scope_mismatch =
    SqlArtifactUnavailableReason.scope_mismatch
unavailable_reason SqlArtifactReadDecision.hash_mismatch =
    SqlArtifactUnavailableReason.hash_mismatch
unavailable_reason _ = SqlArtifactUnavailableReason.not_found

unfoldable pub raise_for_sql_artifact_read :
    Option SqlArtifactRecord → SqlArtifactReadDecision → Result SqlArtifactRecord
raise_for_sql_artifact_read row SqlArtifactReadDecision.expired = err sql_artifact_expired
raise_for_sql_artifact_read (some row) SqlArtifactReadDecision.available = ok row
raise_for_sql_artifact_read row decision =
    err (sql_artifact_unavailable (unavailable_reason decision))

-- the row of a live SQL text, read in the scope of a task
unfoldable pub read_sql : StoreState → TaskRecord → String → String → ℕ → Result SqlArtifactRecord
read_sql s task sql_ref sql_hash now =
    let row = lookup sql_ref s.sql_artifacts in
    raise_for_sql_artifact_read row
      (classify_sql_artifact_read row now task.actor task.tenant_id task.environment_id sql_hash)

abbrev pub extend_row : SqlArtifactRecord → ℕ → SqlArtifactRecord
extend_row row now = record row { expires_at = extended_sql_expiry row.expires_at now }

unfoldable pub extend_selected_sql : TaskRecord → ℕ → StoreState → StoreResult (Unit {0})
extend_selected_sql parent now s =
    elim (target_selection_sql (lookup parent.task_id s.clarification_records)) [
      | none ↦ (ok tt, s)
      | some selected ↦ elim (read_sql s parent selected.sql_ref selected.sql_hash now) [
        | err e ↦ (err e, s)
        | ok row ↦ (
          ok tt,
          record s { sql_artifacts = insert selected.sql_ref (extend_row row now) s.sql_artifacts },
        )
      ]
    ]

-- `load_sql_for_execution`
unfoldable pub load_sql_for_execution :
    TaskAttemptGrant → String → String → ℕ → StoreState → StoreResult SqlArtifactRecord
load_sql_for_execution grant sql_ref sql_hash now s = with_task grant.task_id s λ r.
    elim (grant_is_current r grant now is_running) [
      | some rejection ↦ (err (grant_not_current rejection), s)
      | none ↦ elim (read_sql s r sql_ref sql_hash now) [
        | err e ↦ (err e, s)
        | ok row ↦ (
          ok (extend_row row now),
          record s { sql_artifacts = insert sql_ref (extend_row row now) s.sql_artifacts },
        )
      ]
    ]
