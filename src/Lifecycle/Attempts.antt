-- ===== src/Lifecycle/Attempts.antt =====
-- `begin_task_attempt`, the step journal and the ledgers make only the lifecycle's changes.
use xiaowei_agent.Contracts.Commands.{
  TaskAttemptGrant, TaskAttemptCommand, StepAttemptCommand, StepCommitCommand,
}
use xiaowei_agent.Contracts.Enums.{
  TaskStatus, AttemptIntent, TaskAttemptRejection, is_terminal, allowed_transition,
  attempt_rejection_value,
}
use xiaowei_agent.Contracts.Json.{seconds}
use xiaowei_agent.Contracts.Platform.{Platform}
use xiaowei_agent.Contracts.Steps.{TraceEvent, ApprovalRequest}
use xiaowei_agent.Contracts.Submission.{TaskSubmission}
use xiaowei_agent.Contracts.Task.{TaskRecord}
use xiaowei_agent.Decisions.Attempt.{classify_task_attempt}
use xiaowei_agent.Dict.{lookup}
use xiaowei_agent.Lifecycle.{Change, IsKeyed, moves, attempts, keeps, writes}
use xiaowei_agent.Lifecycle.Refinement.{with_task-cases, own_id, keeps_all}
use xiaowei_agent.Prelude.{
  string_eq, nat_eq, Option-cases, ℕ, ◌+◌, ◌<◌, String, ◌≡◌, refl, ◌⊎◌, inl, inr, true, false,
  Option, none, some, arith,
}
use xiaowei_agent.Store.Attempt.{
  failed_record, terminalize_attempt_rejection, attempted, grant_attempt, intact_submission,
  answer_attempt, begin_task_attempt,
}
use xiaowei_agent.Store.Lease.{record_approval, record_audit_event}
use xiaowei_agent.Store.State.{StoreState}
use xiaowei_agent.Store.Steps.{reserve_attempt, begin_step_attempt, commit_step_result}
use xiaowei_agent.Store.Artifacts.{load_sql_for_execution}

-- an attempt is refused for its failure budget, or granted, from a status that may fail
attempt_open :
    (r : TaskRecord) (intent : AttemptIntent) (now limit : ℕ)
    → (classify_task_attempt r intent now limit ≡ some TaskAttemptRejection.retry_exhausted)
      ⊎ (classify_task_attempt r intent now limit ≡ none)
    → (is_terminal r.status ≡ false) × (allowed_transition r.status TaskStatus.failed ≡ true)
unfolding classify_task_attempt allowed_transition
attempt_open r AttemptIntent.dispatch now limit h = ground arith
attempt_open r AttemptIntent.approval_resume now limit h = ground arith

attempt_in_budget :
    (r : TaskRecord) (intent : AttemptIntent) (now limit : ℕ)
    → classify_task_attempt r intent now limit ≡ none
    → r.task_failure_count < limit
unfolding classify_task_attempt
attempt_in_budget r intent now limit h = ground arith

-- The parts of the state that say which tasks there are.
abbrev pub SameTasks : StoreState → StoreState → Type 0
SameTasks s t =
    (t.tasks ≡ s.tasks)
    × (t.next_fencing_token ≡ s.next_fencing_token)
    × (t.next_created_seq ≡ s.next_created_seq)

journal_keeps :
    (c : StepAttemptCommand) (now started : ℕ) (s : StoreState)
    → SameTasks s (begin_step_attempt c now started s).1
unfolding begin_step_attempt reserve_attempt
journal_keeps c now started s = ground arith

commit_keeps :
    (p : Platform) (c : StepCommitCommand) (now committed : ℕ) (s : StoreState)
    → SameTasks s (commit_step_result p c now committed s).1
unfolding commit_step_result
commit_keeps p c now committed s = ground (arith)

ledger_keeps : (e : TraceEvent) (s : StoreState) → SameTasks s (record_audit_event e s).1
unfolding record_audit_event
ledger_keeps e s = ground arith

load_keeps :
    (g : TaskAttemptGrant) (ref hash : String) (now : ℕ) (s : StoreState)
    → SameTasks s (load_sql_for_execution g ref hash now s).1
unfolding load_sql_for_execution
load_keeps g ref hash now s = ground arith

module _ (limit : ℕ) where
  terminalize-Change :
      (event_id : String) (r : TaskRecord) (c : TaskAttemptCommand)
      (rejection : TaskAttemptRejection) (now : ℕ) (s : StoreState)
      → lookup r.task_id s.tasks ≡ some r
      → is_terminal r.status ≡ false
      → allowed_transition r.status TaskStatus.failed ≡ true
      → Change limit s (terminalize_attempt_rejection event_id r c rejection now s).1
  unfolding terminalize_attempt_rejection
  terminalize-Change event_id r c rejection now s found open_ may =
      writes r.task_id r (failed_record r rejection) found
        (moves TaskStatus.failed (some (attempt_rejection_value rejection)) open_ may refl refl)
        refl refl

  grant_attempt-Change :
      (r : TaskRecord) (c : TaskAttemptCommand) (m : TaskSubmission) (now : ℕ) (s : StoreState)
      → lookup r.task_id s.tasks ≡ some r
      → is_terminal r.status ≡ false
      → r.task_failure_count < limit
      → Change limit s (grant_attempt r c m now s).1
  unfolding grant_attempt
  grant_attempt-Change r c m now s found open_ budget =
      writes r.task_id r (attempted r c.owner (now + seconds c.ttl_seconds) s.next_fencing_token)
        found (attempts c.owner (now + seconds c.ttl_seconds) open_ budget refl refl) refl refl

  answer_attempt-Change :
      (p : Platform) (event_id : String) (r : TaskRecord) (c : TaskAttemptCommand) (now : ℕ)
      (s : StoreState) (o : Option TaskAttemptRejection)
      → lookup r.task_id s.tasks ≡ some r
      → classify_task_attempt r c.intent now limit ≡ o
      → Change limit s (answer_attempt p event_id r c now s o).1
  unfolding answer_attempt
  answer_attempt-Change p event_id r c now s (some TaskAttemptRejection.retry_exhausted) found e =
      let h = attempt_open r c.intent now limit (inl e) in
      terminalize-Change event_id r c TaskAttemptRejection.retry_exhausted now s found h.0 h.1
  answer_attempt-Change p event_id r c now s (some rejection) found e = keeps_all limit s
  answer_attempt-Change p event_id r c now s none found e =
      let h = attempt_open r c.intent now limit (inr e) in
      elim (Option-cases (intact_submission p r s)) [
        | inl lost ↦
            rw (lost, answer_attempt)
              (terminalize-Change event_id r c TaskAttemptRejection.submission_invariant_violation
                now s found h.0 h.1)
        | inr (m, kept) ↦
            rw (kept, answer_attempt)
              (grant_attempt-Change r c m now s found h.0
                (attempt_in_budget r c.intent now limit e))
      ]

  pub begin_task_attempt-Change :
      (p : Platform) (event_id : String) (now : ℕ) (c : TaskAttemptCommand) (s : StoreState)
      → IsKeyed s
      → Change limit s (begin_task_attempt p limit event_id now c s).1
  unfolding begin_task_attempt
  begin_task_attempt-Change p event_id now c s keyed =
      with_task-cases (Change limit s) c.task_id s _ (keeps_all limit s)
        λ r found. answer_attempt-Change p event_id r c now s _ (own_id s _ r keyed found) refl

  of_same : {s t : StoreState} → SameTasks s t → Change limit s t
  of_same h = keeps h.0 h.1 h.2

  -- the step journal and the ledgers leave the tasks alone
  pub begin_step_attempt-Change :
      (c : StepAttemptCommand) (now started : ℕ) (s : StoreState)
      → Change limit s (begin_step_attempt c now started s).1
  begin_step_attempt-Change c now started s = of_same (journal_keeps c now started s)

  pub commit_step_result-Change :
      (p : Platform) (c : StepCommitCommand) (now committed : ℕ) (s : StoreState)
      → Change limit s (commit_step_result p c now committed s).1
  commit_step_result-Change p c now committed s = of_same (commit_keeps p c now committed s)

  pub record_audit_event-Change :
      (e : TraceEvent) (s : StoreState) → Change limit s (record_audit_event e s).1
  record_audit_event-Change e s = of_same (ledger_keeps e s)

  pub record_approval-Change :
      (r : ApprovalRequest) (s : StoreState) → Change limit s (record_approval r s).1
  unfolding record_approval
  record_approval-Change r s = keeps refl refl refl

  pub load_sql_for_execution-Change :
      (g : TaskAttemptGrant) (ref hash : String) (now : ℕ) (s : StoreState)
      → Change limit s (load_sql_for_execution g ref hash now s).1
  load_sql_for_execution-Change g ref hash now s = of_same (load_keeps g ref hash now s)
