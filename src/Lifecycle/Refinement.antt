-- ===== src/Lifecycle/Refinement.antt =====
-- Each operation of persistence/fake.py makes only the changes that the lifecycle allows.
use xiaowei_agent.Contracts.Commands.{TransitionCommand, TaskAttemptGrant, RetryCommand}
use xiaowei_agent.Contracts.Enums.{is_terminal, allowed_transition, is_dispatch_status}
use xiaowei_agent.Contracts.Json.{seconds}
use xiaowei_agent.Contracts.Platform.{Platform}
use xiaowei_agent.Contracts.Task.{TaskRecord}
use xiaowei_agent.Decisions.Fencing.{classify_transition, apply_transition}
use xiaowei_agent.Decisions.Lease.{
  may_acquire_lease, lease_is_live, may_renew_lease, grant_is_current,
}
use xiaowei_agent.Decisions.Lease.Facts.{grant_is_current-Current}
use xiaowei_agent.Dict.{lookup}
use xiaowei_agent.Digests.{retry_command_digest}
use xiaowei_agent.Lifecycle.{Change, moves, leases, keeps, writes, IsKeyed, renews, retries}
use xiaowei_agent.Prelude.{
  string_eq, nat_eq, Bool-cases, Option-cases, ℕ, ◌+◌, String, ◌≡◌, refl, inl, inr, true, false,
  none, some, arith, is_some_eq→, ◌≢◌, sym, subst,
}
use xiaowei_agent.Store.Attempt.{retried, is_marked, schedule_retry}
use xiaowei_agent.Store.Lease.{transition, leased, acquire_lease, renew_lease}
use xiaowei_agent.Store.State.{StoreState, StoreResult, with_task}

-- Whatever the rest of an operation does, it is reached only if the task is there.
pub with_task-cases :
    {A : Type 0} (P : StoreState → Type 0) (id : String) (s : StoreState)
    (rest : TaskRecord → StoreResult A)
    → P s
    → ((r : TaskRecord) → lookup id s.tasks ≡ some r → P (rest r).1)
    → P (with_task id s rest).1
with_task-cases P id s rest missing found = elim (Option-cases (lookup id s.tasks)) [
  | inl e ↦ rw (e, with_task) missing
  | inr (r, e) ↦ rw (e, with_task) (found r e)
]

-- what `classify_transition` has checked when it lets a command pass
classify_transition_passes :
    (r : TaskRecord) (c : TransitionCommand) (now : ℕ)
    → classify_transition r c now ≡ none
    → (is_terminal r.status ≡ false) × (allowed_transition r.status c.to_status ≡ true)
unfolding classify_transition
classify_transition_passes r c now h = ground arith

may_acquire_lease_open :
    (r : TaskRecord) (owner : String) (now : ℕ)
    → may_acquire_lease r owner now ≡ true
    → is_terminal r.status ≡ false
unfolding may_acquire_lease
may_acquire_lease_open r owner now h = ground arith

may_renew_lease_held :
    (r : TaskRecord) (owner : String) (token now : ℕ)
    → may_renew_lease r owner token now ≡ true
    → (old : ℕ) × (r.lease_owner ≡ some owner)
      × (r.lease_expires_at ≡ some old)
      × (r.fencing_token ≡ some token)
unfolding may_renew_lease lease_is_live
may_renew_lease_held r owner token now h = elim (Option-cases r.lease_expires_at) [
  | inl e ↦ absurd (ground arith)
  | inr (old, e) ↦ (
    old,
    is_some_eq→ r.lease_owner owner (ground arith),
    e,
    is_some_eq→ r.fencing_token token (ground arith),
  )
]

-- an attempt that is not marked has not scheduled its retry
not_marked :
    (r : TaskRecord) (g : TaskAttemptGrant)
    → r.attempt_number ≡ g.attempt_number
    → is_marked r g ≡ false
    → r.retry_scheduled_by_attempt ≢ some r.attempt_number
not_marked r g same h e = ground arith

-- a record is found under the id that it names
pub own_id :
    (s : StoreState) (id : String) (r : TaskRecord)
    → IsKeyed s
    → lookup id s.tasks ≡ some r
    → lookup r.task_id s.tasks ≡ some r
own_id s id r keyed found = subst (λ i. lookup i s.tasks ≡ some r) (sym (keyed id r found)) found

module _ (limit : ℕ) where
  pub keeps_all : (s : StoreState) → Change limit s s
  keeps_all s = keeps refl refl refl

  pub transition-Change :
      (c : TransitionCommand) (now : ℕ) (s : StoreState) → Change limit s (transition c now s).1
  unfolding transition
  transition-Change c now s =
      with_task-cases (Change limit s) c.task_id s _ (keeps_all s) λ r found.
        elim (Option-cases (classify_transition r c now)) [
          | inl e ↦
              let h = classify_transition_passes r c now e in
              rw e (
                writes c.task_id r (apply_transition r c) found
                  (moves c.to_status c.terminal_reason h.0 h.1 refl refl) refl refl)
          | inr (x, e) ↦ rw e (keeps_all s)
        ]

  pub acquire_lease-Change :
      (id owner : String) (ttl now later : ℕ) (s : StoreState)
      → Change limit s (acquire_lease id owner ttl now later s).1
  unfolding acquire_lease
  acquire_lease-Change id owner ttl now later s =
      with_task-cases (Change limit s) id s _ (keeps_all s) λ r found.
        elim (Bool-cases (may_acquire_lease r owner now)) [
          | inl e ↦ rw e (
              writes id r (leased r owner (later + seconds ttl) s.next_fencing_token) found
                (leases owner (later + seconds ttl) (may_acquire_lease_open r owner now e) refl
                  refl)
                refl refl)
          | inr e ↦ rw e (keeps_all s)
        ]

  pub renew_lease-Change :
      (id owner : String) (token ttl now later : ℕ) (s : StoreState)
      → Change limit s (renew_lease id owner token ttl now later s).1
  unfolding renew_lease
  renew_lease-Change id owner token ttl now later s =
      with_task-cases (Change limit s) id s _ (keeps_all s) λ r found.
        elim (Bool-cases (may_renew_lease r owner token now)) [
          | inl e ↦
              let (old, held, expiry, fence) = may_renew_lease_held r owner token now e in
              rw e (
                writes id r (record r { lease_expires_at = some (later + seconds ttl) }) found
                  (renews owner (later + seconds ttl) old token held expiry fence refl refl) refl
                  refl)
          | inr e ↦ rw e (keeps_all s)
        ]

  pub schedule_retry-Change :
      (p : Platform) (now : ℕ) (c : RetryCommand) (s : StoreState)
      → IsKeyed s
      → Change limit s (schedule_retry p now c s).1
  unfolding schedule_retry
  schedule_retry-Change p now c s keyed =
      with_task-cases (Change limit s) c.grant.task_id s _ (keeps_all s) λ r found.
        elim (Bool-cases (is_terminal r.status)) [
          | inl e ↦ rw e (keeps_all s)
          | inr open_ ↦ elim (Bool-cases (is_marked r c.grant)) [
            | inl e ↦ rw (open_, e) (keeps_all s)
            | inr fresh ↦ elim (Option-cases (grant_is_current r c.grant now is_dispatch_status)) [
              | inr (x, e) ↦ rw (open_, fresh, e) (keeps_all s)
              | inl e ↦
                  let current = (grant_is_current-Current r c.grant now is_dispatch_status e).0 in
                  let digest = retry_command_digest p c in
                  rw (open_, fresh, e)
                    (writes r.task_id r (retried r c digest s.next_fencing_token)
                      (own_id s _ r keyed found)
                      (retries c digest open_ current.owner current.attempt
                        (not_marked r c.grant current.attempt fresh) refl refl)
                      refl refl)
            ]
          ]
        ]
