-- ===== src/Decisions/Lease.antt =====
-- persistence/decisions.py: leases, grants and what is dispatchable or stale.
pub mod Facts
use xiaowei_agent.Contracts.Commands.{TaskAttemptGrant, DispatchQuery}
use xiaowei_agent.Contracts.Enums.{TaskStatus, GrantRejection, is_terminal, is_dispatch_status}
use xiaowei_agent.Contracts.Task.{TaskRecord, is_set}
use xiaowei_agent.Prelude.{
  ℕ, String, Option, none, some, Bool, false, not, ◌&&◌, ◌||◌, ltb, if◌then◌else◌, string_eq,
  nat_eq, ◌==◌, ◌is_some_eq◌,
}

-- `t is not None and t > now`
abbrev pub is_after : Option ℕ → ℕ → Bool
is_after none now = false
is_after (some t) now = ltb now t

unfoldable pub lease_is_live : TaskRecord → ℕ → Bool
lease_is_live r now = is_set r.lease_owner && is_after r.lease_expires_at now

unfoldable pub may_acquire_lease : TaskRecord → String → ℕ → Bool
may_acquire_lease r owner now =
    if is_terminal r.status
    then false
    else not (lease_is_live r now && not (◌is_some_eq◌ r.lease_owner owner))

unfoldable pub may_renew_lease : TaskRecord → String → ℕ → ℕ → Bool
may_renew_lease r owner fencing_token now =
    if not (lease_is_live r now)
    then false
    else ◌is_some_eq◌ r.lease_owner owner && ◌is_some_eq◌ r.fencing_token fencing_token

-- `None`: the grant is the only legitimate fenced writer of the task
unfoldable pub grant_is_current :
    TaskRecord → TaskAttemptGrant → ℕ → (TaskStatus → Bool) → Option GrantRejection
grant_is_current r grant now allowed_statuses =
    if is_terminal r.status
    then some GrantRejection.terminal_protected
    else if not (allowed_statuses r.status)
    then some GrantRejection.status_not_allowed
    else if not (lease_is_live r now)
    then some GrantRejection.lease_not_held
    else if not (◌is_some_eq◌ r.lease_owner grant.lease.owner)
        || not (◌is_some_eq◌ r.fencing_token grant.fencing_token)
        || not (r.attempt_number == grant.attempt_number)
    then some GrantRejection.stale_fencing
    else none

unfoldable pub is_dispatchable : TaskRecord → DispatchQuery → ℕ → Bool
is_dispatchable r query now =
    r.tenant_id == query.tenant_id
    && r.environment_id == query.environment_id
    && is_dispatch_status r.status
    && not (is_after r.next_attempt_at now)
    && not (lease_is_live r now)

unfoldable pub is_stale_lease : TaskRecord → ℕ → Bool
is_stale_lease r now =
    is_set r.fencing_token && not (lease_is_live r now) && not (is_terminal r.status)
