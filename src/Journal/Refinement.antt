-- ===== src/Journal/Refinement.antt =====
-- Every call of the task store makes at most one allowed write to the step journal.
use xiaowei_agent.Contracts.Commands.{StepAttemptCommand, Result-cases, StepCommitCommand}
use xiaowei_agent.Contracts.Enums.{is_running}
use xiaowei_agent.Contracts.Platform.{Platform}
use xiaowei_agent.Contracts.Steps.{StepExecutionRecord}
use xiaowei_agent.Contracts.Task.{TaskRecord, is_set}
use xiaowei_agent.Decisions.Lease.{grant_is_current}
use xiaowei_agent.Dict.{lookup}
use xiaowei_agent.Digests.{step_commit_digest}
use xiaowei_agent.Journal.{
  JournalChange, rests, reserves, commits, Reserved, IsOutcome, opens, resumes, takes_over,
}
use xiaowei_agent.Journal.Keeps.{
  SameJournal, create_task_keeps, create_clarification_child_keeps, submit_sql_query_keeps,
  load_sql_for_execution_keeps, transition_keeps, acquire_lease_keeps, renew_lease_keeps,
  record_audit_event_keeps, record_approval_keeps, begin_task_attempt_keeps, schedule_retry_keeps,
}
use xiaowei_agent.Lifecycle.Refinement.{with_task-cases}
use xiaowei_agent.Prelude.{
  string_eq, nat_eq, pair_eq, Bool-cases, Option-cases, ◌is_some_eq◌, ℕ, String, ◌≡◌, refl, inl,
  inr, Option, none, some, arith, leb, if◌then◌else◌, ◌==◌, false, ◌&&◌,
}
use xiaowei_agent.Store.Calls.{Call, after}
use xiaowei_agent.Store.State.{StoreState}
use xiaowei_agent.Store.Steps.{
  begin_step_attempt, contains, is_committed, is_over_budget, reserve_attempt, store_evidence,
  commit_row, in_flight, commit_step_result, attempts_used, increments_budget, next_row,
  committed_row,
}

next_row-Reserved :
    (o : Option StepExecutionRecord) (r : TaskRecord) (c : StepAttemptCommand)
    (started used max_calls : ℕ)
    → (increments_budget o c.grant.fencing_token && leb max_calls used) ≡ false
    → Reserved r.task_id c.step_id c.grant.fencing_token started used max_calls o
        (next_row o r c started)
next_row-Reserved none r c started used max_calls room = opens (ground (arith, room))
next_row-Reserved (some row) r c started used max_calls room =
    elim (Bool-cases (row.last_fencing_token == c.grant.fencing_token)) [
      | inl e ↦ rw (e, if◌then◌else◌) (resumes row (ground (arith, e)))
      | inr e ↦ rw (e, if◌then◌else◌) (takes_over row (ground (arith, e)) (ground (arith, e, room)))
    ]

committed_row-IsOutcome :
    (row : StepExecutionRecord) (c : StepCommitCommand) (digest : String) (committed : ℕ)
    → IsOutcome c digest committed row (committed_row row c digest committed)
committed_row-IsOutcome row c digest committed = record {
  task_id = refl;
  step_id = refl;
  attempt_count = refl;
  token = refl;
  started_at = refl;
  status = refl;
  outcome = refl;
  evidence = ground arith;
  command = refl;
  committed_at = refl;
}

reserve_attempt-JournalChange :
    (r : TaskRecord) (c : StepAttemptCommand) (started : ℕ) (s : StoreState)
    → JournalChange s (reserve_attempt r c started s).1
unfolding reserve_attempt
reserve_attempt-JournalChange r c started s =
    elim (Bool-cases (is_committed (lookup (r.task_id, c.step_id) s.step_executions))) [
      | inl e ↦ rw e (rests refl refl)
      | inr fresh ↦ elim (Option-cases (lookup r.task_id s.plans)) [
        | inl e ↦ rw (fresh, e) (rests refl refl)
        | inr (stored, planned) ↦ elim (Bool-cases (contains stored.step_ids c.step_id)) [
          | inr e ↦ rw (fresh, planned, e) (rests refl refl)
          | inl known ↦ elim (Bool-cases (is_over_budget stored c r s)) [
            | inl e ↦ rw (fresh, planned, known, e) (rests refl refl)
            | inr e ↦
                rw (fresh, planned, known, e)
                  (reserves r.task_id c started stored _ planned fresh
                    (next_row-Reserved (lookup (r.task_id, c.step_id) s.step_executions) r c started
                      (attempts_used r.task_id s.step_executions) stored.budget.max_tool_calls e)
                    refl refl)
          ]
        ]
      ]
    ]

pub begin_step_attempt-JournalChange :
    (c : StepAttemptCommand) (now started : ℕ) (s : StoreState)
    → JournalChange s (begin_step_attempt c now started s).1
unfolding begin_step_attempt
begin_step_attempt-JournalChange c now started s =
    with_task-cases (JournalChange s) c.grant.task_id s _ (rests refl refl) λ r found.
      elim (Option-cases (grant_is_current r c.grant now is_running)) [
        | inr (x, e) ↦ rw e (rests refl refl)
        | inl e ↦ rw e (reserve_attempt-JournalChange r c started s)
      ]

commit_row-JournalChange :
    (r : TaskRecord) (row : StepExecutionRecord) (c : StepCommitCommand) (digest : String)
    (committed : ℕ) (s : StoreState)
    → lookup (r.task_id, c.step_id) s.step_executions ≡ some row
    → row.last_fencing_token ≡ c.grant.fencing_token
    → JournalChange s (commit_row r row c digest committed s).1
unfolding commit_row
commit_row-JournalChange r row c digest committed s found token =
    elim (Bool-cases (is_set row.result_status)) [
      | inl e ↦ elim (Bool-cases (◌is_some_eq◌ row.commit_digest digest)) [
        | inl q ↦ rw (e, q) (rests refl refl)
        | inr q ↦ rw (e, q) (rests refl refl)
      ]
      | inr open_ ↦ elim (Result-cases (store_evidence r c.evidence s)) [
        | inl (x, e) ↦ rw (open_, e) (rests refl refl)
        | inr (evidence, e) ↦
            rw (open_, e)
              (commits r.task_id c row _ digest committed found token open_
                (committed_row-IsOutcome row c digest committed) refl refl)
      ]
    ]

in_flight_token :
    (o : Option StepExecutionRecord) (token : ℕ) (row : StepExecutionRecord)
    → in_flight o token ≡ some row
    → (o ≡ some row) × (row.last_fencing_token ≡ token)
in_flight_token none token row h = ground arith
in_flight_token (some r) token row h = ground arith

pub commit_step_result-JournalChange :
    (p : Platform) (c : StepCommitCommand) (now committed : ℕ) (s : StoreState)
    → JournalChange s (commit_step_result p c now committed s).1
unfolding commit_step_result
commit_step_result-JournalChange p c now committed s =
    with_task-cases (JournalChange s) c.grant.task_id s _ (rests refl refl) λ r found.
      elim (Option-cases (grant_is_current r c.grant now is_running)) [
        | inr (x, e) ↦ rw e (rests refl refl)
        | inl e ↦
            let rows = lookup (r.task_id, c.step_id) s.step_executions in
            elim (Option-cases (in_flight rows c.grant.fencing_token)) [
              | inl q ↦ rw (e, q) (rests refl refl)
              | inr (row, q) ↦
                  let (there, token) = in_flight_token rows c.grant.fencing_token row q in
                  rw (e, q)
                    (commit_row-JournalChange r row c (step_commit_digest p c) committed s there
                      token)
            ]
      ]

kept : {s t : StoreState} → SameJournal s t → JournalChange s t
kept h = rests h.0 h.1

module _ (p : Platform) (limit : ℕ) where
  pub after-JournalChange : (c : Call) (s : StoreState) → JournalChange s (after p limit c s)
  unfolding after
  after-JournalChange (Call.create_task id m) s = kept (create_task_keeps p limit id m s)
  after-JournalChange (Call.create_clarification_child id now m owner) s =
      kept (create_clarification_child_keeps p limit id now m owner s)
  after-JournalChange (Call.submit_sql_query id ref now c) s =
      kept (submit_sql_query_keeps p limit id ref now c s)
  after-JournalChange (Call.load_sql_for_execution g ref hash now) s =
      kept (load_sql_for_execution_keeps p limit g ref hash now s)
  after-JournalChange (Call.transition c now) s = kept (transition_keeps p limit c now s)
  after-JournalChange (Call.acquire_lease id owner ttl now later) s =
      kept (acquire_lease_keeps p limit id owner ttl now later s)
  after-JournalChange (Call.renew_lease id owner token ttl now later) s =
      kept (renew_lease_keeps p limit id owner token ttl now later s)
  after-JournalChange (Call.record_approval r) s = kept (record_approval_keeps p limit r s)
  after-JournalChange (Call.record_audit_event e) s = kept (record_audit_event_keeps p limit e s)
  after-JournalChange (Call.begin_task_attempt event_id now c) s =
      kept (begin_task_attempt_keeps p limit event_id now c s)
  after-JournalChange (Call.schedule_retry now c) s = kept (schedule_retry_keeps p limit now c s)
  after-JournalChange (Call.begin_step_attempt c now started) s =
      begin_step_attempt-JournalChange c now started s
  after-JournalChange (Call.commit_step_result c now committed) s =
      commit_step_result-JournalChange p c now committed s
