-- ===== src/Store/Steps.antt =====
-- The step journal of persistence/fake.py: `begin_step_attempt` and `commit_step_result`.
use xiaowei_agent.Contracts.Commands.{
  Result, StepAttemptCommand, StepAttemptResult, StepCommitCommand, StepCommitResult, ok,
  step_commit_has_no_stored_plan, evidence_does_not_match_plan, different_evidence_exists, err,
}
use xiaowei_agent.Contracts.Enums.{
  GrantRejection, StepAttemptDecision, StepCommitRejection, is_running,
}
use xiaowei_agent.Contracts.Platform.{Platform}
use xiaowei_agent.Contracts.Steps.{EvidenceEnvelope, StepExecutionRecord, StoredPlan}
use xiaowei_agent.Contracts.Task.{TaskRecord, is_set}
use xiaowei_agent.Decisions.Lease.{grant_is_current}
use xiaowei_agent.Dict.{Dict, lookup, insert}
use xiaowei_agent.Digests.{step_commit_digest}
use xiaowei_agent.Prelude.{
  string_eq, nat_eq, pair_eq, leb, if◌then◌else◌, ◌==◌, ◌is_some_eq◌, ℕ, ◌+◌, String, Bool, true,
  false, not, ◌&&◌, ◌||◌, Option, none, some, List, [], ◌∷◌,
}
use xiaowei_agent.Store.State.{StoreState, StoreResult, append_all, with_task}

pub evidence_beq : EvidenceEnvelope → EvidenceEnvelope → Bool
evidence_beq a b =
    a.evidence_id == b.evidence_id
    && a.capability_id == b.capability_id
    && a.capability_version == b.capability_version
    && a.body == b.body

-- `_attempts_used`
unfoldable pub attempts_used : String → Dict (String × String) StepExecutionRecord → ℕ
attempts_used task_id [] = 0
attempts_used task_id (((stored_task_id, step_id), r) ∷ d) =
    (if stored_task_id == task_id then r.attempt_count else 0) + attempts_used task_id d

abbrev pub contains : List String → String → Bool
contains [] a = false
contains (x ∷ xs) a = x == a || contains xs a

-- a refused grant, as the step journal reports it
abbrev pub attempt_refusal : GrantRejection → StepAttemptDecision
attempt_refusal GrantRejection.terminal_protected = StepAttemptDecision.not_runnable
attempt_refusal GrantRejection.status_not_allowed = StepAttemptDecision.not_runnable
attempt_refusal _ = StepAttemptDecision.stale_fencing

abbrev pub commit_refusal : GrantRejection → StepCommitRejection
commit_refusal GrantRejection.terminal_protected = StepCommitRejection.not_runnable
commit_refusal GrantRejection.status_not_allowed = StepCommitRejection.not_runnable
commit_refusal _ = StepCommitRejection.stale_fencing

abbrev pub is_committed : Option StepExecutionRecord → Bool
is_committed none = false
is_committed (some r) = is_set r.result_status

-- `existing is None or existing.last_fencing_token != token`
abbrev pub increments_budget : Option StepExecutionRecord → ℕ → Bool
increments_budget none token = true
increments_budget (some r) token = not (r.last_fencing_token == token)

abbrev pub first_attempt : TaskRecord → StepAttemptCommand → ℕ → StepExecutionRecord
first_attempt current command started = record {
  task_id = current.task_id;
  step_id = command.step_id;
  attempt_count = 1;
  last_fencing_token = command.grant.fencing_token;
  result_status = none;
  kind = none;
  evidence_id = none;
  commit_digest = none;
  started_at = started;
  committed_at = none;
}

-- the journal row that the attempt writes
abbrev pub next_row :
    Option StepExecutionRecord → TaskRecord → StepAttemptCommand → ℕ → StepExecutionRecord
next_row none current command started = first_attempt current command started
next_row (some r) current command started =
    if r.last_fencing_token == command.grant.fencing_token then r else record r {
      attempt_count = r.attempt_count + 1;
      last_fencing_token = command.grant.fencing_token;
      started_at = started;
    }

abbrev step_answer :
    StepAttemptDecision → TaskRecord → Option StepExecutionRecord → ℕ → Result StepAttemptResult
step_answer decision winner row used =
    ok (record { decision = decision; winner = winner; record_ = row; attempts_used = used })

-- `increments_budget and used >= stored.plan.budget.max_tool_calls`
abbrev pub is_over_budget : StoredPlan → StepAttemptCommand → TaskRecord → StoreState → Bool
is_over_budget stored command current s =
    increments_budget (lookup (current.task_id, command.step_id) s.step_executions)
      command.grant.fencing_token
    && leb stored.budget.max_tool_calls (attempts_used current.task_id s.step_executions)

-- after the grant is found current: the plan, its steps and its budget
unfoldable pub reserve_attempt :
    TaskRecord → StepAttemptCommand → ℕ → StoreState → StoreResult StepAttemptResult
reserve_attempt current command started s =
    let key : String × String = (current.task_id, command.step_id) in
    let existing = lookup key s.step_executions in
    let used = attempts_used current.task_id s.step_executions in
    if is_committed existing
    then (step_answer StepAttemptDecision.already_committed current existing used, s)
    else elim (lookup current.task_id s.plans) [
      | none ↦ (step_answer StepAttemptDecision.not_runnable current existing used, s)
      | some stored ↦
          if not (contains stored.step_ids command.step_id)
          then (step_answer StepAttemptDecision.unknown_step current none used, s)
          else if is_over_budget stored command current s
          then (step_answer StepAttemptDecision.budget_exhausted current existing used, s)
          else let row = next_row existing current command started in
            let rows = insert key row s.step_executions in
            (
              step_answer StepAttemptDecision.proceed current (some row)
                  (attempts_used current.task_id rows),
              record s { step_executions = rows },
            )
    ]

-- `now` is read for the grant, `started` for the row
unfoldable pub begin_step_attempt :
    StepAttemptCommand → ℕ → ℕ → StoreState → StoreResult StepAttemptResult
unfolding reserve_attempt
begin_step_attempt command now started s = with_task command.grant.task_id s λ current.
    elim (grant_is_current current command.grant now is_running) [
      | some rejection ↦ (
        step_answer (attempt_refusal rejection) current
            (lookup (current.task_id, command.step_id) s.step_executions)
            (attempts_used current.task_id s.step_executions),
        s,
      )
      | none ↦ reserve_attempt current command started s
    ]

abbrev evidence_id_of : Option EvidenceEnvelope → Option String
evidence_id_of none = none
evidence_id_of (some e) = some e.evidence_id

abbrev pub committed_row :
    StepExecutionRecord → StepCommitCommand → String → ℕ → StepExecutionRecord
committed_row existing command digest committed = record existing {
  result_status = some command.status;
  kind = some command.kind;
  evidence_id = evidence_id_of command.evidence;
  commit_digest = some digest;
  committed_at = some committed;
}

abbrev or_no_evidence : Option (Dict String EvidenceEnvelope) → Dict String EvidenceEnvelope
or_no_evidence none = []
or_no_evidence (some d) = d

-- the evidence bucket of a task
abbrev pub evidence_of : String → StoreState → Dict String EvidenceEnvelope
evidence_of task_id s = or_no_evidence (lookup task_id s.evidence)

abbrev pub same_or_absent : Option EvidenceEnvelope → EvidenceEnvelope → Bool
same_or_absent none e = true
same_or_absent (some previous) e = evidence_beq previous e

-- the checks on the evidence of a commit, and the evidence map that it leaves
unfoldable pub store_evidence :
    TaskRecord
    → Option EvidenceEnvelope
    → StoreState
    → Result (Dict String (Dict String EvidenceEnvelope))
unfolding evidence_beq
store_evidence current evidence s = elim (lookup current.task_id s.plans) [
  | none ↦ err step_commit_has_no_stored_plan
  | some stored ↦ elim evidence [
    | none ↦ ok s.evidence
    | some e ↦
        if not (e.capability_id == stored.capability_id)
          || not (e.capability_version == stored.capability_version)
        then err evidence_does_not_match_plan
        else let bucket = evidence_of current.task_id s in
          if not (same_or_absent (lookup e.evidence_id bucket) e)
          then err different_evidence_exists
          else ok (insert current.task_id (insert e.evidence_id e bucket) s.evidence)
  ]
]

abbrev commit_answer :
    Bool
    → TaskRecord
    → Option StepExecutionRecord
    → Option StepCommitRejection
    → Result StepCommitResult
commit_answer committed winner row rejection =
    ok (record { committed = committed; winner = winner; record_ = row; rejection = rejection })

-- after the attempt in flight is found: a replay, a conflict, or the commit
unfoldable pub commit_row :
    TaskRecord
    → StepExecutionRecord
    → StepCommitCommand
    → String
    → ℕ
    → StoreState
    → StoreResult StepCommitResult
unfolding store_evidence
commit_row current existing command digest committed s =
    if is_set existing.result_status
    then (if ◌is_some_eq◌ existing.commit_digest digest
        then (commit_answer true current (some existing) none, s)
        else (
          commit_answer false current (some existing)
              (some StepCommitRejection.already_committed_different),
          s,
        ))
    else elim (store_evidence current command.evidence s) [
      | err e ↦ (err e, s)
      | ok evidence ↦
          let row = committed_row existing command digest committed in
          (
            commit_answer true current (some row) none,
            record s {
              evidence = evidence;
              audit_events = append_all s.audit_events current.task_id command.audit_events;
              step_executions = insert (current.task_id, command.step_id) row s.step_executions;
            },
          )
    ]

-- the row of an attempt that the grant's token is running
abbrev pub in_flight : Option StepExecutionRecord → ℕ → Option StepExecutionRecord
in_flight none token = none
in_flight (some r) token = if r.last_fencing_token == token then some r else none

unfoldable pub commit_step_result :
    Platform → StepCommitCommand → ℕ → ℕ → StoreState → StoreResult StepCommitResult
unfolding commit_row
commit_step_result p command now committed s = with_task command.grant.task_id s λ current.
    let existing = lookup (current.task_id, command.step_id) s.step_executions in
    elim (grant_is_current current command.grant now is_running) [
      | some rejection ↦ (commit_answer false current existing (some (commit_refusal rejection)), s)
      | none ↦ elim (in_flight existing command.grant.fencing_token) [
        | none ↦
            (commit_answer false current none (some StepCommitRejection.no_attempt_in_flight), s)
        | some row ↦ commit_row current row command (step_commit_digest p command) committed s
      ]
    ]
