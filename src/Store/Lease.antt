-- ===== src/Store/Lease.antt =====
-- `transition`, `acquire_lease`, `renew_lease`, `record_approval` and `record_audit_event` of
-- persistence/fake.py. Each read of the clock is an argument.
use xiaowei_agent.Contracts.Commands.{TransitionCommand, unscoped_audit_event, err, ok}
use xiaowei_agent.Contracts.Enums.{TransitionRejection}
use xiaowei_agent.Contracts.Json.{seconds}
use xiaowei_agent.Contracts.Steps.{TraceEvent, ApprovalRequest}
use xiaowei_agent.Contracts.Task.{TaskRecord, LeaseGrant, TransitionResult}
use xiaowei_agent.Decisions.Fencing.{classify_transition, apply_transition}
use xiaowei_agent.Decisions.Lease.{may_acquire_lease, may_renew_lease}
use xiaowei_agent.Dict.{insert}
use xiaowei_agent.Prelude.{
  string_eq, if◌then◌else◌, ℕ, ◌+◌, String, true, false, not, Option, none, some,
}
use xiaowei_agent.Store.State.{
  StoreState, StoreResult, append_entry, next_seq, append_all, with_task,
}

abbrev pub rejected : TaskRecord → TransitionRejection → TransitionResult
rejected current rejection = record {
  applied = false;
  winner = current;
  rejection = some rejection;
}

unfoldable pub transition : TransitionCommand → ℕ → StoreState → StoreResult TransitionResult
transition command now s = with_task command.task_id s λ current.
    elim (classify_transition current command now) [
      | some rejection ↦ (ok (rejected current rejection), s)
      | none ↦
          let updated = apply_transition current command in
          (
            ok (record { applied = true; winner = updated; rejection = none }),
            record s {
              tasks = insert command.task_id updated s.tasks;
              audit_events = append_all s.audit_events command.task_id command.audit_events;
            },
          )
    ]

abbrev pub leased : TaskRecord → String → ℕ → ℕ → TaskRecord
leased r owner expires token = record r {
  lease_owner = some owner;
  lease_expires_at = some expires;
  fencing_token = some token;
}

-- `now` is read for the decision, `later` for the expiry
unfoldable pub acquire_lease :
    String → String → ℕ → ℕ → ℕ → StoreState → StoreResult (Option LeaseGrant)
acquire_lease task_id owner ttl_seconds now later s = with_task task_id s λ current.
    if not (may_acquire_lease current owner now)
    then (ok none, s)
    else let token = s.next_fencing_token in
      let expires = later + seconds ttl_seconds in
      (
        ok (
            some (record {
              task_id = task_id;
              owner = owner;
              expires_at = expires;
              fencing_token = token;
            })),
        record s {
          next_fencing_token = s.next_fencing_token + 1;
          tasks = insert task_id (leased current owner expires token) s.tasks;
        },
      )

unfoldable pub renew_lease :
    String → String → ℕ → ℕ → ℕ → ℕ → StoreState → StoreResult (Option LeaseGrant)
renew_lease task_id owner fencing_token ttl_seconds now later s = with_task task_id s λ current.
    if not (may_renew_lease current owner fencing_token now)
    then (ok none, s)
    else let expires = later + seconds ttl_seconds in
      (
        ok (
            some (record {
              task_id = task_id;
              owner = owner;
              expires_at = expires;
              fencing_token = fencing_token;
            })),
        record s {
          tasks = insert task_id (record current { lease_expires_at = some expires }) s.tasks;
        },
      )

unfoldable pub record_approval : ApprovalRequest → StoreState → StoreResult ℕ
record_approval request s = (
  ok (next_seq s.approvals request.task_id),
  record s { approvals = append_entry s.approvals request.task_id request },
)

unfoldable pub record_audit_event : TraceEvent → StoreState → StoreResult ℕ
record_audit_event event s = elim event.task_id [
  | none ↦ (err unscoped_audit_event, s)
  | some task_id ↦ (
    ok (next_seq s.audit_events task_id),
    record s { audit_events = append_entry s.audit_events task_id event },
  )
]
