-- ===== src/Guarantees/Sql.antt =====
-- `load_sql_for_execution`: who gets the text of a SQL artifact.
use xiaowei_agent.Contracts.Commands.{SqlArtifactRecord, ok, Result-cases, TaskAttemptGrant}
use xiaowei_agent.Contracts.Enums.{is_running}
use xiaowei_agent.Contracts.Task.{TaskRecord, is_set}
use xiaowei_agent.Decisions.Lease.{grant_is_current}
use xiaowei_agent.Decisions.Sql.{
  classify_sql_row, classify_sql_artifact_read, SqlArtifactReadDecision, sql_artifact_ttl,
}
use xiaowei_agent.Dict.{lookup, lookup-insert_self}
use xiaowei_agent.Prelude.{
  string_eq, nat_eq, Option-cases, ℕ, ◌<◌, String, ◌≡◌, inl, inr, true, none, some, arith, ◌+◌, ◌≤◌,
  refl, ap, subst, ◌∙◌, ◌≢◌, Option, eq_iff, sym,
}
use xiaowei_agent.Store.State.{StoreState, with_task}
use xiaowei_agent.Store.Artifacts.{
  raise_for_sql_artifact_read, read_sql, extend_row, load_sql_for_execution,
}

nothing_raised :
    {row : SqlArtifactRecord}
    → raise_for_sql_artifact_read none SqlArtifactReadDecision.not_found ≢ ok row
unfolding raise_for_sql_artifact_read
nothing_raised h = ground arith

-- A row that the holder of a task's grant may run.
pub record Runnable (r : TaskRecord) (sql_hash : String) (now : ℕ) (row : SqlArtifactRecord)
    : Type 0 where
  pub requester : row.requester ≡ r.actor
  pub tenant : row.tenant_id ≡ r.tenant_id
  pub environment : row.environment_id ≡ r.environment_id
  pub hash : row.sql_hash ≡ sql_hash
  pub kept : (row.purged_at ≡ none) × (is_set row.sql_bytes ≡ true)
  pub unexpired : now < row.expires_at

classify_sql_row-Runnable :
    (r : TaskRecord) (sql_hash : String) (now : ℕ) (row : SqlArtifactRecord)
    → classify_sql_row row now r.actor r.tenant_id r.environment_id sql_hash
      ≡ SqlArtifactReadDecision.available
    → Runnable r sql_hash now row
unfolding classify_sql_row
classify_sql_row-Runnable r sql_hash now row h = ground (
  arith,
  eq_iff row.requester r.actor,
  eq_iff row.tenant_id r.tenant_id,
  eq_iff row.environment_id r.environment_id,
  eq_iff row.sql_hash sql_hash,
)

only_available :
    (row row' : SqlArtifactRecord) (d : SqlArtifactReadDecision)
    → raise_for_sql_artifact_read (some row) d ≡ ok row'
    → (row ≡ row') × (d ≡ SqlArtifactReadDecision.available)
unfolding raise_for_sql_artifact_read
only_available row row' d h = ground arith

read_sql-Runnable :
    (s : StoreState) (r : TaskRecord) (sql_ref sql_hash : String) (now : ℕ)
    (row : SqlArtifactRecord)
    → read_sql s r sql_ref sql_hash now ≡ ok row
    → (lookup sql_ref s.sql_artifacts ≡ some row) × Runnable r sql_hash now row
unfolding read_sql classify_sql_artifact_read
read_sql-Runnable s r sql_ref sql_hash now row h = answer_of (lookup sql_ref s.sql_artifacts) refl h
  where
    answer_of :
        (o : Option SqlArtifactRecord)
        → lookup sql_ref s.sql_artifacts ≡ o
        → raise_for_sql_artifact_read o
            (classify_sql_artifact_read o now r.actor r.tenant_id r.environment_id sql_hash)
          ≡ ok row
        → (lookup sql_ref s.sql_artifacts ≡ some row) × Runnable r sql_hash now row
    answer_of none e q = absurd (nothing_raised q)
    answer_of (some row') e q =
        let (same_row, d) = only_available row' row _ q in
        (
          e ∙ ap some same_row,
          subst (λ x. Runnable r sql_hash now x) same_row
              (classify_sql_row-Runnable r sql_hash now row' d),
        )

-- What a load that succeeds has read and written.
pub record Loaded (g : TaskAttemptGrant) (sql_ref sql_hash : String) (now : ℕ) (s t : StoreState)
    (row : SqlArtifactRecord) : Type 0 where
  pub task : TaskRecord
  pub found : lookup g.task_id s.tasks ≡ some task
  pub current : grant_is_current task g now is_running ≡ none
  pub stored : SqlArtifactRecord
  pub there : lookup sql_ref s.sql_artifacts ≡ some stored
  pub runnable : Runnable task sql_hash now stored
  pub extended : row ≡ record stored { expires_at = row.expires_at }
  pub never_sooner :
      (stored.expires_at ≤ row.expires_at) × (now + sql_artifact_ttl ≤ row.expires_at)
  pub kept : lookup sql_ref t.sql_artifacts ≡ some row

-- A SQL text is returned only to the holder of a current grant of a running task, out of a row of the
-- task's actor, tenant and environment, with the hash that was asked for, neither purged nor expired;
-- what is stored and returned is that row with an expiry that is no sooner than before, and no sooner
-- than a full time to live from now.
pub load_sql_for_execution-Loaded :
    (g : TaskAttemptGrant) (sql_ref sql_hash : String) (now : ℕ) (s : StoreState)
    (row : SqlArtifactRecord)
    → (load_sql_for_execution g sql_ref sql_hash now s).0 ≡ ok row
    → Loaded g sql_ref sql_hash now s (load_sql_for_execution g sql_ref sql_hash now s).1 row
unfolding load_sql_for_execution
load_sql_for_execution-Loaded g sql_ref sql_hash now s row =
    elim (Option-cases (lookup g.task_id s.tasks)) [
      | inl e ↦ rw (e, with_task) λ h. absurd (ground arith)
      | inr (r, e) ↦ elim (Option-cases (grant_is_current r g now is_running)) [
        | inr (x, q) ↦ rw (e, with_task, q) λ h. absurd (ground arith)
        | inl q ↦ elim (Result-cases (read_sql s r sql_ref sql_hash now)) [
          | inl (x, d) ↦ rw (e, with_task, q, d) λ h. absurd (ground arith)
          | inr (old, d) ↦
              rw (e, with_task, q, d)
                λ h.
                  let (there, runnable) = read_sql-Runnable s r sql_ref sql_hash now old d in
                  let same_row : extend_row old now ≡ row = ground arith in
                  let expiry = ap (λ (x : SqlArtifactRecord). x.expires_at) same_row in
                  record {
                    task = r;
                    found = e;
                    current = q;
                    stored = old;
                    there = there;
                    runnable = runnable;
                    extended = sym same_row ∙ ap (λ x. record old { expires_at = x }) expiry;
                    never_sooner = omega (arith, expiry);
                    kept =
                        lookup-insert_self sql_ref (extend_row old now) s.sql_artifacts
                        ∙ ap some same_row;
                  }
        ]
      ]
    ]
