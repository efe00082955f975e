-- ===== src/Guarantees/Retries.antt =====
-- `schedule_retry`: each attempt schedules at most one retry, and a repeated command is recognised by
-- its digest.
use xiaowei_agent.Contracts.Commands.{Result, RetryCommand, RetryResult, ok, err}
use xiaowei_agent.Contracts.Enums.{RetryDecision, is_terminal, is_dispatch_status}
use xiaowei_agent.Contracts.Platform.{Platform}
use xiaowei_agent.Contracts.Task.{TaskRecord}
use xiaowei_agent.Decisions.Lease.{grant_is_current}
use xiaowei_agent.Decisions.Lease.Facts.{Current, grant_is_current-Current}
use xiaowei_agent.Dict.{lookup, insert, lookup-insert_self}
use xiaowei_agent.Digests.{retry_command_digest}
use xiaowei_agent.Lifecycle.{IsKeyed, Reach}
use xiaowei_agent.Lifecycle.History.{Reach-Evolves}
use xiaowei_agent.Lifecycle.Invariant.{Inv, Change-Inv}
use xiaowei_agent.Lifecycle.Refinement.{schedule_retry-Change}
use xiaowei_agent.Prelude.{
  string_eq, nat_eq, if◌then◌else◌, Option-cases, ◌==◌, ℕ, ◌≡◌, inl, inr, Bool, true, false, some,
  Bool-cases, sym, subst, arith, eq_iff, ◌<◌, ap, ◌∙◌,
}
use xiaowei_agent.Store.Attempt.{retried, schedule_retry, is_marked}
use xiaowei_agent.Store.State.{StoreState, with_task}

abbrev is_scheduled : RetryDecision → Bool
is_scheduled RetryDecision.scheduled = true
is_scheduled _ = false

-- the retry was scheduled by this very call
abbrev pub was_scheduled : Result RetryResult → Bool
was_scheduled (ok x) = is_scheduled x.decision
was_scheduled (err e) = false

module _ (p : Platform) (now : ℕ) (c : RetryCommand) (s : StoreState) where
  -- a call that schedules a retry had a current grant of an unmarked attempt
  scheduled_record :
      IsKeyed s
      → was_scheduled (schedule_retry p now c s).0 ≡ true
      → (r : TaskRecord) × Current r c.grant now
        × (lookup c.grant.task_id (schedule_retry p now c s).1.tasks
            ≡ some (retried r c (retry_command_digest p c) s.next_fencing_token))
  unfolding schedule_retry
  scheduled_record keyed = elim (Option-cases (lookup c.grant.task_id s.tasks)) [
    | inl e ↦ rw (e, with_task) λ h. absurd (ground arith)
    | inr (r, e) ↦ elim (Bool-cases (is_terminal r.status)) [
      | inl q ↦ rw (e, with_task, q) λ h. absurd (ground arith)
      | inr open_ ↦ elim (Bool-cases (is_marked r c.grant)) [
        | inl q ↦ rw (e, with_task, open_, q) λ h. absurd (ground arith)
        | inr unmarked ↦ elim (Option-cases (grant_is_current r c.grant now is_dispatch_status)) [
          | inr (x, q) ↦ rw (e, with_task, open_, unmarked, q) λ h. absurd (ground arith)
          | inl q ↦
              rw (e, with_task, open_, unmarked, q)
                λ h. (
                  r,
                  (grant_is_current-Current r c.grant now is_dispatch_status q).0,
                  subst
                      (λ i.
                        lookup c.grant.task_id (
                          insert i (retried r c (retry_command_digest p c) s.next_fencing_token)
                            s.tasks)
                        ≡ some (retried r c (retry_command_digest p c) s.next_fencing_token))
                      (sym (keyed c.grant.task_id r e))
                      (lookup-insert_self c.grant.task_id _ s.tasks),
                )
        ]
      ]
    ]
  ]

-- what a repeated command is told, in a state where the task's record is `r`
abbrev pub replay_decision : Platform → RetryCommand → RetryCommand → TaskRecord → RetryDecision
replay_decision p c d r =
    if is_terminal r.status
    then RetryDecision.terminal_protected
    else if r.attempt_number == d.grant.attempt_number
    then (if retry_command_digest p c == retry_command_digest p d
        then RetryDecision.already_scheduled
        else RetryDecision.command_mismatch)
    else RetryDecision.stale_fencing

replayed :
    (p : Platform) (c d : RetryCommand) (r : TaskRecord) (later : ℕ) (u : StoreState)
    → lookup d.grant.task_id u.tasks ≡ some r
    → (r.attempt_number ≡ d.grant.attempt_number
        → (r.retry_scheduled_by_attempt ≡ some r.attempt_number)
          × (r.retry_command_digest ≡ some (retry_command_digest p c)))
    → schedule_retry p later d u
      ≡ (ok (record { decision = replay_decision p c d r; winner = r }), u)
unfolding schedule_retry
replayed p c d r later u found marked =
    rw (found, with_task)
      (ground (
        arith,
        marked,
        grant_is_current-Current r d.grant later is_dispatch_status,
        eq_iff (retry_command_digest p c) (retry_command_digest p d),
      ))

module _ (p : Platform) (limit : ℕ) where
  -- Once an attempt has scheduled its retry, whatever calls come between, a retry command of the same
  -- task and attempt schedules nothing and changes nothing. While the attempt is still that of an open task,
  -- a command with the same digest is told that it is already scheduled and another one that it differs;
  -- when the task has ended, or a later attempt has begun, the command is refused for that.
  pub retry_is_scheduled_once :
      (c d : RetryCommand) (now later : ℕ) {s u : StoreState}
      → 0 < limit
      → Inv limit s
      → was_scheduled (schedule_retry p now c s).0 ≡ true
      → d.grant.task_id ≡ c.grant.task_id
      → d.grant.attempt_number ≡ c.grant.attempt_number
      → Reach p limit (schedule_retry p now c s).1 u
      → (r : TaskRecord) × (lookup d.grant.task_id u.tasks ≡ some r)
        × (schedule_retry p later d u
            ≡ (ok (record { decision = replay_decision p c d r; winner = r }), u))
  retry_is_scheduled_once c d now later {s} {u} pos v first same_task same_attempt path =
      let (r, current, found) = scheduled_record p now c s v.keyed first in
      let w = Change-Inv pos v (schedule_retry-Change limit p now c s v.keyed) in
      let digest = retry_command_digest p c in
      let (r', found', evolved) =
        Reach-Evolves p limit pos w path c.grant.task_id (retried r c digest s.next_fencing_token)
          found in
      let here' = subst (λ i. lookup i u.tasks ≡ some r') (sym same_task) found' in
      (
        r',
        here',
        replayed p c d r' later u here' λ e.
            let still = e ∙ same_attempt ∙ sym current.attempt in
            let (marker, command) = evolved.retry (ap some (sym current.attempt)) still in
            (marker ∙ ap some (sym (e ∙ same_attempt)), command),
      )
