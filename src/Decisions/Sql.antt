-- ===== src/Decisions/Sql.antt =====
-- persistence/decisions.py: the scope of a submission, and the rules on SQL artifacts.
use xiaowei_agent.Contracts.Commands.{SqlArtifactRecord, SqlSubmitOutcome}
use xiaowei_agent.Contracts.Json.{seconds}
use xiaowei_agent.Contracts.Submission.{RequestEnvelope, RequestContext}
use xiaowei_agent.Contracts.Task.{TaskRecord, is_set}
use xiaowei_agent.Prelude.{
  ℕ, String, Option, none, some, Bool, true, not, ◌&&◌, ◌||◌, ◌+◌, ◌*◌, max, leb, if◌then◌else◌,
  ◌==◌, string_eq,
}

-- `value is None or value == other`
abbrev agrees : Option String → String → Bool
agrees none b = true
agrees (some a) b = a == b

unfoldable pub context_matches_envelope : RequestEnvelope → RequestContext → Bool
context_matches_envelope envelope context =
    envelope.tenant_id == context.tenant_id
    && envelope.actor == context.actor
    && agrees envelope.environment_id context.environment_id

pub data SqlArtifactReadDecision : Type 0 where
  available not_found scope_mismatch hash_mismatch expired : SqlArtifactReadDecision

-- SQL_ARTIFACT_TTL
abbrev pub sql_artifact_ttl : ℕ
sql_artifact_ttl = seconds (24 * 3600)

-- a row that exists
unfoldable pub classify_sql_row :
    SqlArtifactRecord → ℕ → String → String → String → String → SqlArtifactReadDecision
classify_sql_row row now requester tenant_id environment_id sql_hash =
    if not (row.requester == requester)
      || not (row.tenant_id == tenant_id)
      || not (row.environment_id == environment_id)
    then SqlArtifactReadDecision.scope_mismatch
    else if not (row.sql_hash == sql_hash)
    then SqlArtifactReadDecision.hash_mismatch
    else if is_set row.purged_at || not (is_set row.sql_bytes) || leb row.expires_at now
    then SqlArtifactReadDecision.expired
    else SqlArtifactReadDecision.available

unfoldable pub classify_sql_artifact_read :
    Option SqlArtifactRecord → ℕ → String → String → String → String → SqlArtifactReadDecision
unfolding classify_sql_row
classify_sql_artifact_read none now requester tenant_id environment_id sql_hash =
    SqlArtifactReadDecision.not_found
classify_sql_artifact_read (some row) now requester tenant_id environment_id sql_hash =
    classify_sql_row row now requester tenant_id environment_id sql_hash

abbrev pub extended_sql_expiry : ℕ → ℕ → ℕ
extended_sql_expiry current now = max current (now + sql_artifact_ttl)

unfoldable pub classify_sql_submit :
    Option TaskRecord → String → String → String → String → SqlSubmitOutcome
classify_sql_submit none tenant_id environment_id idempotency_key request_digest =
    SqlSubmitOutcome.created
classify_sql_submit (some existing) tenant_id environment_id idempotency_key request_digest =
    if not (existing.tenant_id == tenant_id)
      || not (existing.environment_id == environment_id)
      || not (existing.idempotency_key == idempotency_key)
      || not (existing.request_digest == request_digest)
    then SqlSubmitOutcome.idempotency_conflict
    else SqlSubmitOutcome.replayed
