-- ===== src/Decisions/Fencing.antt =====
-- persistence/decisions.py: the compare-and-swap of a status transition.
pub mod Table
use xiaowei_agent.Contracts.Commands.{TransitionCommand}
use xiaowei_agent.Contracts.Enums.{TransitionRejection, is_terminal, allowed_transition}
use xiaowei_agent.Contracts.Task.{TaskRecord, is_set}
use xiaowei_agent.Decisions.Lease.{lease_is_live}
use xiaowei_agent.Prelude.{ℕ, Option, none, some, not, ◌+◌, if◌then◌else◌, ◌==◌, nat_eq}

-- `fencing_token != record.fencing_token`, once `fencing_token` is known not to be None
abbrev compare_tokens : Option ℕ → Option ℕ → Option TransitionRejection
compare_tokens none held = some TransitionRejection.lease_not_held
compare_tokens (some t) none = some TransitionRejection.stale_fencing_token
compare_tokens (some t) (some held) =
    if t == held then none else some TransitionRejection.stale_fencing_token

-- anchored on whether the task was ever leased, not on whether the lease is live
unfoldable pub check_fencing : TaskRecord → Option ℕ → ℕ → Option TransitionRejection
check_fencing r fencing_token now =
    if not (is_set r.fencing_token)
    then (if is_set fencing_token then some TransitionRejection.lease_not_held else none)
    else if not (lease_is_live r now)
    then some TransitionRejection.lease_not_held
    else compare_tokens fencing_token r.fencing_token

-- after the fencing check
abbrev pub check_version : TaskRecord → TransitionCommand → Option TransitionRejection
check_version r command =
    if not (r.version == command.expected_version)
    then some TransitionRejection.version_mismatch
    else if not (allowed_transition r.status command.to_status)
    then some TransitionRejection.illegal_transition
    else none

abbrev pub or_else {ℓ} : {A : Type ℓ} → Option A → Option A → Option A
or_else none b = b
or_else (some a) b = some a

unfoldable pub classify_transition : TaskRecord → TransitionCommand → ℕ → Option TransitionRejection
classify_transition r command now =
    if is_terminal r.status
    then some TransitionRejection.terminal_protected
    else or_else (check_fencing r command.fencing_token now) (check_version r command)

abbrev pub apply_transition : TaskRecord → TransitionCommand → TaskRecord
apply_transition r command = record r {
  status = command.to_status;
  version = r.version + 1;
  terminal_reason = command.terminal_reason;
}
