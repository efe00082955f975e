-- ===== src/Decisions/Agreement.antt =====
-- Where the decisions of persistence/decisions.py must agree with one another: what the listings offer to
-- a worker, and what the operations then let it do.
use xiaowei_agent.Contracts.Commands.{TaskAttemptGrant, DispatchQuery}
use xiaowei_agent.Contracts.Enums.{TaskStatus, AttemptIntent, TaskAttemptRejection}
use xiaowei_agent.Contracts.Task.{TaskRecord}
use xiaowei_agent.Decisions.Attempt.{classify_task_attempt}
use xiaowei_agent.Decisions.Fencing.{check_fencing}
use xiaowei_agent.Decisions.Lease.{
  may_acquire_lease, may_renew_lease, grant_is_current, is_dispatchable, is_stale_lease,
}
use xiaowei_agent.Prelude.{
  string_eq, nat_eq, ◌==◌, ℕ, String, ◌≡◌, ◌≢◌, Bool, true, false, ◌&&◌, Option, none, some, arith,
}

-- an attempt is granted, or ends the task because its failure budget is used up
abbrev pub is_open_to_attempt : Option TaskAttemptRejection → Bool
is_open_to_attempt none = true
is_open_to_attempt (some TaskAttemptRejection.retry_exhausted) = true
is_open_to_attempt _ = false

-- the task is in the scope of the query
abbrev pub in_scope : TaskRecord → DispatchQuery → Bool
in_scope r query = r.tenant_id == query.tenant_id && r.environment_id == query.environment_id

-- A task is listed for dispatch exactly when it is in the query's scope and the decision on a dispatch attempt
-- on it at that time, classify_task_attempt, is to grant it or that the failure budget is used up.
pub is_dispatchable-classify_task_attempt :
    (r : TaskRecord) (query : DispatchQuery) (now limit : ℕ)
    → is_dispatchable r query now ≡ (
        in_scope r query
        && is_open_to_attempt (classify_task_attempt r AttemptIntent.dispatch now limit))
unfolding is_dispatchable classify_task_attempt
is_dispatchable-classify_task_attempt r query now limit = ground arith

-- A task that is listed with a stale lease is free: every owner may take its lease, no lease of it can be
-- renewed, no grant of it is current, and no transition passes its fencing check, with a token or
-- without.
pub is_stale_lease-free :
    (r : TaskRecord) (now : ℕ)
    → is_stale_lease r now ≡ true
    → ((owner : String) → may_acquire_lease r owner now ≡ true)
      × ((owner : String) (token : ℕ) → may_renew_lease r owner token now ≡ false)
      × ((g : TaskAttemptGrant) (allowed : TaskStatus → Bool)
          → grant_is_current r g now allowed ≢ none)
      × ((token : Option ℕ) → check_fencing r token now ≢ none)
unfolding is_stale_lease may_acquire_lease may_renew_lease grant_is_current check_fencing
is_stale_lease-free r now h = (
  λ owner. ground arith,
  λ owner token. ground arith,
  λ g allowed e. ground arith,
  λ token e. ground arith,
)
