-- ===== src/Tests/Scenario.antt =====
-- One task: created by a user, planned, leased by one worker, and taken over by another.
use xiaowei_agent.Contracts.Commands.{TransitionCommand}
use xiaowei_agent.Contracts.Enums.{TaskStatus, AttemptIntent, Channel, allowed_transition}
use xiaowei_agent.Contracts.Platform.{toy_platform}
use xiaowei_agent.Contracts.Submission.{RequestEnvelope, RequestContext, ConversationSubmission}
use xiaowei_agent.Contracts.Task.{TaskRecord}
use xiaowei_agent.Decisions.Attempt.{classify_task_attempt}
use xiaowei_agent.Decisions.Fencing.{check_fencing, classify_transition, apply_transition}
use xiaowei_agent.Decisions.Lease.{
  lease_is_live, may_acquire_lease, may_renew_lease, grant_is_current,
}
use xiaowei_agent.Decisions.Sql.{context_matches_envelope}
use xiaowei_agent.Dict.{lookup, insert}
use xiaowei_agent.Digests.{
  request_dedup_digest, submission_digest, submission_matches_record, retry_command_digest,
  step_commit_digest,
}
use xiaowei_agent.Lifecycle.{IsFresh, Reach, here, calls}
use xiaowei_agent.Lifecycle.Invariant.{Inv, Reach-Inv, empty-Inv}
use xiaowei_agent.Prelude.{string_eq, ℕ, ◌≡◌, refl, none, some, List, [], ◌∷◌, arith}
use xiaowei_agent.Store.Attempt.{
  attempted, intact_submission, answer_attempt, begin_task_attempt, schedule_retry,
}
use xiaowei_agent.Store.Calls.{Call, run, after}
use xiaowei_agent.Store.Lease.{transition, leased, acquire_lease, renew_lease}
use xiaowei_agent.Store.State.{StoreState, empty_state, append_entry, append_all}
use xiaowei_agent.Store.Steps.{attempts_used, begin_step_attempt, commit_step_result}
use xiaowei_agent.Store.Submit.{
  new_record, existing_task_for_submission, insert_task, create_task_locked, create_task,
}

-- A test that unfolds this one runs the store.
unfoldable pub opened : ℕ
unfolding after run lookup insert append_all append_entry create_task create_task_locked insert_task
    existing_task_for_submission context_matches_envelope request_dedup_digest submission_digest
    transition classify_transition check_fencing lease_is_live allowed_transition acquire_lease
    may_acquire_lease renew_lease may_renew_lease begin_task_attempt classify_task_attempt
    intact_submission submission_matches_record answer_attempt schedule_retry retry_command_digest
    grant_is_current begin_step_attempt attempts_used commit_step_result step_commit_digest
opened = 0

abbrev pub envelope : RequestEnvelope
envelope = record {
  request_id = "r1";
  tenant_id = "tenant";
  actor = "ann";
  channel = Channel.api;
  text = "slow queries";
  idempotency_key = "k1";
  environment_id = none;
}

abbrev pub context : RequestContext
context = record {
  tenant_id = "tenant";
  actor = "ann";
  environment_id = "prod";
  trace_id = "trace";
  policy_revision = "1";
}

abbrev pub submission : ConversationSubmission
submission = record {
  envelope = envelope;
  context = context;
  as_of = 0;
  clarification_parent_task_id = none;
}

abbrev pub creates : Call
creates = Call.create_task "t1" submission

abbrev pub plans : TransitionCommand
plans = record {
  task_id = "t1";
  expected_version = 0;
  to_status = TaskStatus.planning;
  fencing_token = none;
  terminal_reason = none;
  audit_events = [];
}

abbrev pub cancels : TransitionCommand
cancels = record plans { to_status = TaskStatus.canceled }

-- the first worker's attempt, for a minute
abbrev pub begins : Call
begins = Call.begin_task_attempt "e1" 1000 (record {
  task_id = "t1";
  intent = AttemptIntent.dispatch;
  owner = "w1";
  ttl_seconds = 60;
  trace_id = "trace";
})

-- another worker takes the task over when the lease has run out
abbrev pub takes_over : Call
takes_over = Call.acquire_lease "t1" "w2" 60 100000000 100000000

abbrev pub store_after : List Call → StoreState
store_after cs = run toy_platform 3 cs empty_state

abbrev pub created_task : TaskRecord
created_task = new_record "t1" context "k1" "tenant" 1

abbrev pub canceled_task : TaskRecord
canceled_task = apply_transition created_task cancels

abbrev pub attempted_task : TaskRecord
attempted_task = attempted created_task "w1" 60001000 1

abbrev pub taken_task : TaskRecord
taken_task = leased attempted_task "w2" 160000000 2

pub created_found : lookup "t1" (store_after (creates ∷ [])).tasks ≡ some created_task
unfolding opened
created_found = refl

pub canceled_found :
    lookup "t1" (store_after (creates ∷ Call.transition cancels 0 ∷ [])).tasks ≡ some canceled_task
unfolding opened
canceled_found = refl

pub attempted_found : lookup "t1" (store_after (creates ∷ begins ∷ [])).tasks ≡ some attempted_task
unfolding opened
attempted_found = refl

pub taken_found :
    lookup "t1" (store_after (creates ∷ begins ∷ takes_over ∷ [])).tasks ≡ some taken_task
unfolding opened
taken_found = refl

-- calls that make no task need no fresh id
pub one_call :
    (c : Call) {s t : StoreState}
    → Reach toy_platform 3 s t
    → IsFresh c t
    → Reach toy_platform 3 s (after toy_platform 3 c t)
one_call c path fresh = calls c path fresh refl

pub creates_path : Reach toy_platform 3 empty_state (store_after (creates ∷ []))
unfolding run lookup
creates_path = one_call creates here refl

pub created_Inv : Inv 3 (store_after (creates ∷ []))
created_Inv = Reach-Inv toy_platform 3 (omega arith) (empty-Inv 3) creates_path
