-- ===== src/Digests.antt =====
-- persistence/store.py: the digests of submissions and commands, and what they are compared with.
use xiaowei_agent.Contracts.Commands.{RetryCommand, StepCommitCommand}
use xiaowei_agent.Contracts.Enums.{
  result_status_value, outcome_kind_value, retry_reason_value, channel_value,
}
use xiaowei_agent.Contracts.Json.{
  Json, Items, Fields, null, str, num, arr, obj, nil, cons, end, field,
}
use xiaowei_agent.Contracts.Platform.{Platform}
use xiaowei_agent.Contracts.Steps.{EvidenceEnvelope}
use xiaowei_agent.Contracts.Submission.{
  RequestEnvelope, RequestContext, TaskSubmission, conversation, sql_artifact,
}
use xiaowei_agent.Contracts.Task.{TaskRecord}
use xiaowei_agent.Decisions.Sql.{context_matches_envelope}
use xiaowei_agent.Prelude.{
  string_eq, ◌==◌, String, Bool, ◌&&◌, Option, none, some, List, [], ◌∷◌, map,
}

-- `payload["clarification_parent_task_id"]` is set only when it is not None
abbrev parent_field : Option String → Fields
parent_field none = end
parent_field (some parent) = field "clarification_parent_task_id" (str parent) end

evidence_or_null : Platform → Option EvidenceEnvelope → Json
evidence_or_null p none = null
evidence_or_null p (some e) = p.dump_evidence e

abbrev texts : List String → Items
texts [] = nil
texts (s ∷ ss) = cons (str s) (texts ss)

module _ (p : Platform) where
  -- only the fields that say what is asked: no request_id, trace_id or time
  unfoldable pub request_dedup_digest : RequestEnvelope → RequestContext → Option String → String
  request_dedup_digest envelope context clarification_parent_task_id = p.canonical_digest (
      obj (
        field "tenant_id" (str context.tenant_id) (
          field "environment_id" (str context.environment_id) (
            field "actor" (str context.actor) (
              field "channel" (str (channel_value envelope.channel)) (
                field "text" (str envelope.text) (
                  field "idempotency_key" (str envelope.idempotency_key)
                    (parent_field clarification_parent_task_id))))))))

  unfoldable pub sql_request_dedup_digest : RequestContext → String → String → String
  sql_request_dedup_digest context sql_hash idempotency_key = p.canonical_digest (
      obj (
        field "tenant_id" (str context.tenant_id) (
          field "environment_id" (str context.environment_id) (
            field "actor" (str context.actor) (
              field "input_kind" (str "sql_artifact") (
                field "sql_hash" (str sql_hash)
                  (field "idempotency_key" (str idempotency_key) end)))))))

  unfoldable pub submission_digest : TaskSubmission → String
  submission_digest (sql_artifact s) = p.canonical_digest (
      obj (
        field "input_kind" (str "sql_artifact") (
          field "context" (p.dump_context s.context) (
            field "as_of" (str (p.isoformat s.as_of))
              (field "sql_ref" (str s.sql_ref) (field "sql_hash" (str s.sql_hash) end))))))
  submission_digest (conversation s) = p.canonical_digest (
      obj (
        field "envelope" (p.dump_envelope s.envelope) (
          field "context" (p.dump_context s.context) (
            field "as_of" (str (p.isoformat s.as_of))
              (parent_field s.clarification_parent_task_id)))))

  -- is the stored submission still the one that the task was created from
  unfoldable pub submission_matches_record : TaskRecord → TaskSubmission → String → Bool
  submission_matches_record r (sql_artifact s) stored_digest =
      stored_digest == submission_digest (sql_artifact s)
      && r.request_digest == sql_request_dedup_digest s.context s.sql_hash r.idempotency_key
      && r.tenant_id == s.context.tenant_id
      && r.environment_id == s.context.environment_id
      && r.actor == s.context.actor
  submission_matches_record r (conversation s) stored_digest =
      stored_digest == submission_digest (conversation s)
      && r.request_digest
        == request_dedup_digest s.envelope s.context s.clarification_parent_task_id
      && context_matches_envelope s.envelope s.context
      && r.tenant_id == s.context.tenant_id
      && r.environment_id == s.context.environment_id
      && r.actor == s.context.actor

  unfoldable pub retry_command_digest : RetryCommand → String
  retry_command_digest command = p.canonical_digest (
      obj (
        field "next_attempt_at" (str (p.isoformat command.next_attempt_at)) (
          field "reason" (str (retry_reason_value command.reason))
            (field "attempt_number" (num command.grant.attempt_number) end))))

  unfoldable pub step_commit_digest : StepCommitCommand → String
  unfolding evidence_or_null
  step_commit_digest command = p.canonical_digest (
      obj (
        field "status" (str (result_status_value command.status)) (
          field "kind" (str (outcome_kind_value command.kind)) (
            field "evidence" (evidence_or_null p command.evidence) (
              field "audit"
                (arr (
                  texts (
                    p.sorted_texts
                      (map (λ e. p.canonical_digest (p.dump_trace_event e)) command.audit_events))))
                end)))))
