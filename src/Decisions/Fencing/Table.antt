-- ===== src/Decisions/Fencing/Table.antt =====
-- The table in the header of persistence/decisions.py, as a definition of its own.
use xiaowei_agent.Contracts.Enums.{TransitionRejection}
use xiaowei_agent.Contracts.Task.{TaskRecord, lease_fields_are_consistent}
use xiaowei_agent.Decisions.Fencing.{check_fencing}
use xiaowei_agent.Decisions.Lease.{is_after, lease_is_live}
use xiaowei_agent.Prelude.{
  nat_eq, if◌then◌else◌, ◌==◌, ℕ, ◌≡◌, Bool, true, false, Option, none, some, arith,
}

-- The lease of a task as the table reads it.
pub data LeaseHistory : Type 0 where
  never : LeaseHistory
  live : ℕ → LeaseHistory
  expired : LeaseHistory

-- The table, row by row.
abbrev pub fencing_table : LeaseHistory → Option ℕ → Option TransitionRejection
fencing_table never none = none
fencing_table never (some token) = some TransitionRejection.lease_not_held
fencing_table (live held) none = some TransitionRejection.lease_not_held
fencing_table (live held) (some token) =
    if token == held then none else some TransitionRejection.stale_fencing_token
fencing_table expired token = some TransitionRejection.lease_not_held

abbrev history_of : Option ℕ → Bool → LeaseHistory
history_of none is_live = never
history_of (some token) true = live token
history_of (some token) false = expired

-- the token that was last issued, and whether the expiry is still to come
abbrev pub lease_history : TaskRecord → ℕ → LeaseHistory
lease_history r now = history_of r.fencing_token (is_after r.lease_expires_at now)

-- On a record whose lease fields are consistent, the fencing check is the documented table.
pub check_fencing-fencing_table :
    (r : TaskRecord) (token : Option ℕ) (now : ℕ)
    → lease_fields_are_consistent r ≡ true
    → check_fencing r token now ≡ fencing_table (lease_history r now) token
unfolding check_fencing lease_is_live
check_fencing-fencing_table r token now h = ground arith
