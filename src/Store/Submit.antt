-- ===== src/Store/Submit.antt =====
-- Creating tasks: `create_task`, `create_clarification_child` and `submit_sql_query` of
-- persistence/fake.py. `task_id` is the `uuid4()` of the call, `sql_ref` its `new_sql_ref()`.
pub mod Cases
use xiaowei_agent.Contracts.Commands.{
  Result, SqlArtifactRecord, SqlSubmitOutcome, SqlQuerySubmitCommand, SqlQuerySubmitResult,
  task_not_found, context_mismatch, clarification_parent_required, key_error, err, ok, StoreError,
}
use xiaowei_agent.Contracts.Enums.{TaskStatus, is_clarification_required}
use xiaowei_agent.Contracts.Platform.{Platform}
use xiaowei_agent.Contracts.Submission.{
  RequestContext, ConversationSubmission, ArtifactSubmission, TaskSubmission, context_of,
  conversation, sql_artifact,
}
use xiaowei_agent.Contracts.Task.{TaskRecord, is_set}
use xiaowei_agent.Decisions.Sql.{context_matches_envelope, sql_artifact_ttl, classify_sql_submit}
use xiaowei_agent.Dict.{lookup, insert}
use xiaowei_agent.Dict.Values.{values}
use xiaowei_agent.Digests.{request_dedup_digest, sql_request_dedup_digest, submission_digest}
use xiaowei_agent.Prelude.{
  list_eq, string_eq, if◌then◌else◌, ◌==◌, ◌is_some_eq◌, ℕ, ◌+◌, String, Bool, false, not, ◌&&◌,
  ◌||◌, Option, none, some, List, [], ◌∷◌,
}
use xiaowei_agent.Store.Artifacts.{extend_selected_sql}
use xiaowei_agent.Store.State.{StoreState, StoreResult}

abbrev pub new_record : String → RequestContext → String → String → ℕ → TaskRecord
new_record task_id context idempotency_key digest created_seq = record {
  task_id = task_id;
  tenant_id = context.tenant_id;
  environment_id = context.environment_id;
  actor = context.actor;
  idempotency_key = idempotency_key;
  request_digest = digest;
  status = TaskStatus.created;
  version = 0;
  created_seq = created_seq;
  attempt_number = 0;
  task_failure_count = 0;
  next_attempt_at = none;
  retry_scheduled_by_attempt = none;
  retry_command_digest = none;
  lease_owner = none;
  lease_expires_at = none;
  fencing_token = none;
  terminal_reason = none;
}

abbrev pub conversation_scope : ConversationSubmission → List String
conversation_scope m =
    m.context.tenant_id ∷ m.context.environment_id ∷ m.envelope.idempotency_key ∷ []

abbrev pub sql_scope : SqlQuerySubmitCommand → List String
sql_scope c =
    c.context.tenant_id ∷ c.context.environment_id ∷ c.idempotency_key ∷ "sql_artifact" ∷ []

-- `any(... for submission in submissions.values())`
abbrev is_child_of : String → TaskSubmission → Bool
is_child_of parent_id (conversation m) = ◌is_some_eq◌ m.clarification_parent_task_id parent_id
is_child_of parent_id (sql_artifact m) = false

unfoldable pub any_child_of : String → List TaskSubmission → Bool
any_child_of parent_id [] = false
any_child_of parent_id (m ∷ ms) = is_child_of parent_id m || any_child_of parent_id ms

unfoldable pub clarification_parent_is_consumed : String → StoreState → Bool
clarification_parent_is_consumed parent_id s = any_child_of parent_id (values s.submissions)

unfoldable pub clarification_parent_is_usable : TaskRecord → ConversationSubmission → String → Bool
clarification_parent_is_usable parent submission authenticated_channel_owner =
    is_clarification_required parent.status
    && parent.tenant_id == submission.context.tenant_id
    && parent.environment_id == submission.context.environment_id
    && parent.actor == submission.context.actor
    && authenticated_channel_owner == submission.context.actor

-- `self._records[existing_id]`, and the check of its digest
abbrev pub check_digest : Option TaskRecord → String → Result (Option TaskRecord)
check_digest none digest = err key_error
check_digest (some existing) digest =
    if existing.request_digest == digest
    then ok (some existing)
    else err StoreError.idempotency_conflict

unfoldable pub existing_task_for_submission :
    ConversationSubmission → String → StoreState → Result (Option TaskRecord)
existing_task_for_submission m digest s = elim (lookup (conversation_scope m) s.task_ids_by_key) [
  | none ↦ ok none
  | some existing_id ↦ check_digest (lookup existing_id s.tasks) digest
]

-- the existing task, an error, or what comes next
abbrev pub or_existing :
    Result (Option TaskRecord) → StoreState → StoreResult TaskRecord → StoreResult TaskRecord
or_existing (err e) s next = (err e, s)
or_existing (ok (some existing)) s next = (ok existing, s)
or_existing (ok none) s next = next

abbrev pub created : TaskRecord × StoreState → StoreResult TaskRecord
created (r, s) = (ok r, s)

-- the parent's SQL is extended, and the child created in the same step
abbrev pub after_extension :
    StoreResult (Unit {0}) → (StoreState → TaskRecord × StoreState) → StoreResult TaskRecord
after_extension (err e, s) create = (err e, s)
after_extension (ok _, s) create = created (create s)

abbrev pub consume_parent :
    Option TaskRecord
    → String
    → ConversationSubmission
    → String
    → StoreState
    → StoreResult TaskRecord
    → (TaskRecord → StoreResult TaskRecord)
    → StoreResult TaskRecord
consume_parent none parent_id m owner s missing next = missing
consume_parent (some parent) parent_id m owner s missing next =
    if not (clarification_parent_is_usable parent m owner)
    then missing
    else if clarification_parent_is_consumed parent_id s
    then missing
    else next parent

abbrev pub sql_created : TaskRecord × StoreState → StoreResult SqlQuerySubmitResult
sql_created (r, s) = (ok (record { outcome = SqlSubmitOutcome.created; task = some r }), s)

abbrev pub answer_sql :
    SqlSubmitOutcome
    → Option TaskRecord
    → StoreState
    → StoreResult SqlQuerySubmitResult
    → StoreResult SqlQuerySubmitResult
answer_sql SqlSubmitOutcome.idempotency_conflict existing s next =
    (ok (record { outcome = SqlSubmitOutcome.idempotency_conflict; task = none }), s)
answer_sql SqlSubmitOutcome.replayed existing s next =
    (ok (record { outcome = SqlSubmitOutcome.replayed; task = existing }), s)
answer_sql SqlSubmitOutcome.created existing s next = next

-- `None if existing_id is None else self._records[existing_id]`
abbrev pub existing_sql_task : Option String → StoreState → Result (Option TaskRecord)
existing_sql_task none s = ok none
existing_sql_task (some existing_id) s = elim (lookup existing_id s.tasks) [
  | none ↦ err key_error
  | some existing ↦ ok (some existing)
]

module _ (p : Platform) where
  unfoldable pub insert_task :
      String → TaskSubmission → String → String → List String → StoreState → TaskRecord × StoreState
  insert_task task_id submission digest idempotency_key scope s =
      let r =
        new_record task_id (context_of submission) idempotency_key digest s.next_created_seq in
      (
        r,
        record s {
          next_created_seq = s.next_created_seq + 1;
          tasks = insert task_id r s.tasks;
          submissions = insert task_id submission s.submissions;
          submission_digests = insert task_id (submission_digest p submission) s.submission_digests;
          task_ids_by_key = insert scope task_id s.task_ids_by_key;
        },
      )

  unfoldable pub create_task_locked :
      String → ConversationSubmission → String → StoreState → TaskRecord × StoreState
  create_task_locked task_id m digest s =
      insert_task task_id (conversation m) digest m.envelope.idempotency_key (conversation_scope m)
        s

  unfoldable pub create_task : String → ConversationSubmission → StoreState → StoreResult TaskRecord
  create_task task_id m s =
      let digest = request_dedup_digest p m.envelope m.context m.clarification_parent_task_id in
      if not (context_matches_envelope m.envelope m.context)
      then (err context_mismatch, s)
      else if is_set m.clarification_parent_task_id
      then (err clarification_parent_required, s)
      else or_existing (existing_task_for_submission m digest s) s
          (created (create_task_locked task_id m digest s))

  -- with `submission.clarification_parent_task_id` as the first argument
  unfoldable pub create_child_of :
      Option String
      → String
      → ℕ
      → ConversationSubmission
      → String
      → StoreState
      → StoreResult TaskRecord
  create_child_of none task_id now m owner s = (err clarification_parent_required, s)
  create_child_of (some parent_id) task_id now m owner s =
      let digest = request_dedup_digest p m.envelope m.context (some parent_id) in
      if not (context_matches_envelope m.envelope m.context)
      then (err context_mismatch, s)
      else or_existing (existing_task_for_submission m digest s) s (
          consume_parent (lookup parent_id s.tasks) parent_id m owner s
            (err (task_not_found parent_id), s)
            (λ parent.
              after_extension (extend_selected_sql parent now s)
                (create_task_locked task_id m digest)))

  unfoldable pub create_clarification_child :
      String → ℕ → ConversationSubmission → String → StoreState → StoreResult TaskRecord
  unfolding create_child_of
  create_clarification_child task_id now m owner s =
      create_child_of m.clarification_parent_task_id task_id now m owner s

  abbrev new_artifact : String → SqlQuerySubmitCommand → ℕ → SqlArtifactRecord
  new_artifact sql_ref c now = record {
    sql_ref = sql_ref;
    sql_hash = p.sha256_hex c.sql_bytes;
    sql_bytes = some c.sql_bytes;
    requester = c.context.actor;
    tenant_id = c.context.tenant_id;
    environment_id = c.context.environment_id;
    created_at = now;
    expires_at = now + sql_artifact_ttl;
    purged_at = none;
  }

  abbrev artifact_submission : String → SqlQuerySubmitCommand → ArtifactSubmission
  artifact_submission sql_ref c = record {
    context = c.context;
    as_of = c.as_of;
    sql_ref = sql_ref;
    sql_hash = p.sha256_hex c.sql_bytes;
  }

  unfoldable pub insert_sql_task :
      String → String → ℕ → SqlQuerySubmitCommand → String → StoreState → TaskRecord × StoreState
  insert_sql_task task_id sql_ref now c digest s =
      insert_task task_id (sql_artifact (artifact_submission sql_ref c)) digest c.idempotency_key
        (sql_scope c)
        (record s { sql_artifacts = insert sql_ref (new_artifact sql_ref c now) s.sql_artifacts })

  -- the task that the scope names has been looked up
  unfoldable pub submit_found :
      String
      → String
      → ℕ
      → SqlQuerySubmitCommand
      → StoreState
      → Result (Option TaskRecord)
      → StoreResult SqlQuerySubmitResult
  submit_found task_id sql_ref now c s (err e) = (err e, s)
  submit_found task_id sql_ref now c s (ok existing) =
      let digest =
        sql_request_dedup_digest p c.context (p.sha256_hex c.sql_bytes) c.idempotency_key in
      answer_sql
        (classify_sql_submit existing c.context.tenant_id c.context.environment_id c.idempotency_key
          digest)
        existing s (sql_created (insert_sql_task task_id sql_ref now c digest s))

  unfoldable pub submit_sql_query :
      String → String → ℕ → SqlQuerySubmitCommand → StoreState → StoreResult SqlQuerySubmitResult
  unfolding submit_found
  submit_sql_query task_id sql_ref now c s =
      submit_found task_id sql_ref now c s
        (existing_sql_task (lookup (sql_scope c) s.task_ids_by_key) s)
