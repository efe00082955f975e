-- ===== src/Tests/Work.antt =====
-- The theorems on attempts, retries, requests and the step journal at the runs of one worker.
use xiaowei_agent.Contracts.Commands.{
  StoreError, TaskAttemptGrant, TaskAttemptCommand, RetryCommand, ok, err,
}
use xiaowei_agent.Contracts.Enums.{
  TaskStatus, AttemptIntent, RetryReason, StepOutcomeKind, StepResultStatus, is_dispatch_status,
}
use xiaowei_agent.Contracts.Platform.{toy_platform}
use xiaowei_agent.Contracts.Steps.{StepExecutionRecord}
use xiaowei_agent.Contracts.Task.{TaskRecord}
use xiaowei_agent.Decisions.Fencing.{check_fencing}
use xiaowei_agent.Decisions.Fencing.Table.{
  fencing_table, lease_history, check_fencing-fencing_table,
}
use xiaowei_agent.Decisions.Lease.{is_after, lease_is_live}
use xiaowei_agent.Dict.{lookup, insert}
use xiaowei_agent.Guarantees.Attempts.{consistent, begin_task_attempt-consistent}
use xiaowei_agent.Guarantees.Grants.{
  grant_of, Holds, begin_task_attempt_grants, occupied_task_is_left_alone,
}
use xiaowei_agent.Guarantees.Idempotence.{digest_of, IsDirect, create_task_idempotent}
use xiaowei_agent.Guarantees.Retries.{was_scheduled, replay_decision, retry_is_scheduled_once}
use xiaowei_agent.Index.{IndexChange}
use xiaowei_agent.Index.Refinement.{after-IndexChange}
use xiaowei_agent.Journal.Budget.{IsWithinBudget, Reach-IsWithinBudget}
use xiaowei_agent.Journal.Final.{committed_row_is_final}
use xiaowei_agent.Lifecycle.{Reach, here}
use xiaowei_agent.Lifecycle.Evolution.{Evolves}
use xiaowei_agent.Lifecycle.Invariant.{Inv, Reach-Inv, empty-Inv}
use xiaowei_agent.Prelude.{
  string_eq, nat_eq, list_eq, pair_eq, if◌then◌else◌, ◌==◌, ◌≡◌, refl, true, ◌||◌, none, some, [],
  ◌∷◌, arith,
}
use xiaowei_agent.Store.Attempt.{grant_attempt, begin_task_attempt, schedule_retry}
use xiaowei_agent.Store.Calls.{Call, after, run}
use xiaowei_agent.Store.State.{StoreState, empty_state}
use xiaowei_agent.Store.Steps.{reserve_attempt, store_evidence, commit_row}
use xiaowei_agent.Store.Submit.{create_task}
use xiaowei_agent.Tests.Scenario.{
  submission, opened, creates, begins, store_after, created_task, attempted_task, attempted_found,
  one_call, created_Inv,
}

abbrev worked : StoreState
worked = store_after (creates ∷ begins ∷ [])

abbrev work : TaskAttemptCommand
work = record {
  task_id = "t1";
  intent = AttemptIntent.dispatch;
  owner = "w1";
  ttl_seconds = 60;
  trace_id = "trace";
}

abbrev pub granted : TaskAttemptGrant
granted = record {
  lease = record { task_id = "t1"; owner = "w1"; expires_at = 60001000; fencing_token = 1 };
  attempt_number = 1;
}

check_fencing-fencing_table_example :
    check_fencing attempted_task (some 1) 2000
    ≡ fencing_table (lease_history attempted_task 2000) (some 1)
check_fencing-fencing_table_example = check_fencing-fencing_table attempted_task (some 1) 2000 refl

begin_task_attempt-consistent_example :
    consistent (begin_task_attempt toy_platform 3 "e1" 1000 work (store_after (creates ∷ []))).0
    ≡ true
begin_task_attempt-consistent_example =
    begin_task_attempt-consistent toy_platform 3 "e1" 1000 work (store_after (creates ∷ []))

first_grant :
    grant_of (begin_task_attempt toy_platform 3 "e1" 1000 work (store_after (creates ∷ []))).0
    ≡ some granted
unfolding opened grant_attempt
first_grant = refl

begin_task_attempt_grants_example :
    Holds
      (begin_task_attempt toy_platform 3 "e1" 1000 work (store_after (creates ∷ []))).1
      "t1"
      granted
      1000
      is_dispatch_status
begin_task_attempt_grants_example =
    begin_task_attempt_grants toy_platform 3 "e1" 1000 work granted (store_after (creates ∷ []))
      created_Inv.keyed (omega arith) first_grant

live : (lease_is_live attempted_task 2000 || is_after attempted_task.next_attempt_at 2000) ≡ true
unfolding opened
live = refl

occupied_task_is_left_alone_example :
    (grant_of (begin_task_attempt toy_platform 3 "e2" 2000 work worked).0 ≡ none)
    × ((begin_task_attempt toy_platform 3 "e2" 2000 work worked).1 ≡ worked)
occupied_task_is_left_alone_example =
    occupied_task_is_left_alone toy_platform 3 "e2" 2000 work worked attempted_task attempted_found
      live

abbrev retry : RetryCommand
retry = record {
  grant = granted;
  next_attempt_at = 90000000;
  reason = RetryReason.unclassified_error;
  audit_events = [];
}

worked-Inv : Inv 3 worked
unfolding run
worked-Inv = Reach-Inv toy_platform 3 (omega arith) created_Inv (one_call begins here tt)

retry_scheduled : was_scheduled (schedule_retry toy_platform 2000 retry worked).0 ≡ true
unfolding opened
retry_scheduled = refl

retry_is_scheduled_once_example :
    (r : TaskRecord) × (lookup "t1" (schedule_retry toy_platform 2000 retry worked).1.tasks
      ≡ some r)
    × (schedule_retry toy_platform 3000 retry (schedule_retry toy_platform 2000 retry worked).1 ≡ (
      ok (record { decision = replay_decision toy_platform retry retry r; winner = r }),
      (schedule_retry toy_platform 2000 retry worked).1,
    ))
retry_is_scheduled_once_example =
    retry_is_scheduled_once toy_platform 3 retry retry 2000 3000 (omega arith) worked-Inv
      retry_scheduled refl refl here

task_answered : (create_task toy_platform "t1" submission empty_state).0 ≡ ok created_task
unfolding opened
task_answered = refl

submission-IsDirect : IsDirect toy_platform submission
unfolding opened
submission-IsDirect = (refl, refl)

nothing_stored : lookup "t1" empty_state.tasks ≡ none
unfolding lookup
nothing_stored = refl

begins_after_creation :
    Reach toy_platform 3 (create_task toy_platform "t1" submission empty_state).1 worked
unfolding run after
begins_after_creation = one_call begins here tt

create_task_idempotent_example :
    (r : TaskRecord) × Evolves created_task r
    × (lookup "t1" worked.tasks ≡ some r)
    × (create_task toy_platform "t2" submission worked ≡ (
        if digest_of toy_platform submission == digest_of toy_platform submission
        then (ok r, worked)
        else (err StoreError.idempotency_conflict, worked)))
create_task_idempotent_example =
    create_task_idempotent toy_platform 3 "t1" "t2" submission submission created_task (omega arith)
      (empty-Inv 3) nothing_stored task_answered refl submission-IsDirect begins_after_creation

-- the task is running under a plan of one step and one call
abbrev pub running : StoreState
running = record worked {
  tasks =
      insert "t1" (record attempted_task { status = TaskStatus.running; version = 2 }) worked.tasks;
  plans =
      (
        "t1",
        record {
          capability_id = "cap";
          capability_version = "1";
          step_ids = "step" ∷ [];
          budget = record { max_steps = 1; max_tool_calls = 1; max_model_tokens = 0 };
        },
      )
      ∷ [];
}

abbrev attempts_step : Call
attempts_step = Call.begin_step_attempt (record { grant = granted; step_id = "step" }) 2000 2000

abbrev commits_step : Call
commits_step =
    Call.commit_step_result
      (record {
        grant = granted;
        step_id = "step";
        kind = StepOutcomeKind.tool_result;
        status = StepResultStatus.ok;
        evidence = none;
        audit_events = [];
      })
      3000 3000

abbrev committed : StoreState
committed = run toy_platform 3 (attempts_step ∷ commits_step ∷ []) running

abbrev done_row : StepExecutionRecord
done_row = record {
  task_id = "t1";
  step_id = "step";
  attempt_count = 1;
  last_fencing_token = 1;
  result_status = some StepResultStatus.ok;
  kind = some StepOutcomeKind.tool_result;
  evidence_id = none;
  commit_digest = some "step_ok";
  started_at = 2000;
  committed_at = some 3000;
}

done_found : lookup ("t1", "step") committed.step_executions ≡ some done_row
unfolding opened commit_row reserve_attempt store_evidence
done_found = refl

committed_row_is_final_example :
    lookup ("t1", "step") (after toy_platform 3 attempts_step committed).step_executions
    ≡ some done_row
committed_row_is_final_example =
    committed_row_is_final toy_platform 3 "t1" "step" done_row done_found refl
      (one_call attempts_step here tt)

running-IsWithinBudget : IsWithinBudget running
unfolding opened
running-IsWithinBudget id stored h = omega arith

Reach-IsWithinBudget_example : IsWithinBudget (after toy_platform 3 attempts_step running)
Reach-IsWithinBudget_example =
    Reach-IsWithinBudget toy_platform 3 running-IsWithinBudget (one_call attempts_step here tt)

after-IndexChange_example : IndexChange worked (after toy_platform 3 attempts_step worked)
after-IndexChange_example = after-IndexChange toy_platform 3 attempts_step worked
