-- ===== src/Decisions/Lease/Facts.antt =====
-- What the decisions on leases and grants say of the record.
use xiaowei_agent.Contracts.Commands.{TaskAttemptGrant}
use xiaowei_agent.Contracts.Enums.{TaskStatus, is_terminal}
use xiaowei_agent.Contracts.Task.{TaskRecord}
use xiaowei_agent.Decisions.Lease.{lease_is_live, grant_is_current}
use xiaowei_agent.Prelude.{
  ℕ, none, some, ◌≡◌, true, false, arith, string_eq, nat_eq, is_some_eq→, Bool,
}

-- What a current grant proves of the stored record.
pub record Current (r : TaskRecord) (g : TaskAttemptGrant) (now : ℕ) : Type 0 where
  pub open_ : is_terminal r.status ≡ false
  pub live : lease_is_live r now ≡ true
  pub owner : r.lease_owner ≡ some g.lease.owner
  pub token : r.fencing_token ≡ some g.fencing_token
  pub attempt : r.attempt_number ≡ g.attempt_number

pub grant_is_current-Current :
    (r : TaskRecord) (g : TaskAttemptGrant) (now : ℕ) (allowed : TaskStatus → Bool)
    → grant_is_current r g now allowed ≡ none
    → Current r g now × (allowed r.status ≡ true)
unfolding grant_is_current
grant_is_current-Current r g now allowed h =
    ground
      (arith, is_some_eq→ r.lease_owner g.lease.owner, is_some_eq→ r.fencing_token g.fencing_token)
