-- ===== src/Guarantees/Attempts.antt =====
-- `begin_task_attempt`: what a grant is worth, and who is turned away.
use xiaowei_agent.Contracts.Commands.{
  Result, TaskAttemptGrant, TaskAttemptCommand, TaskAttemptResult, ok, err,
}
use xiaowei_agent.Contracts.Enums.{
  TaskStatus, TaskAttemptRejection, attempt_rejection_value, AttemptIntent,
}
use xiaowei_agent.Contracts.Platform.{Platform}
use xiaowei_agent.Contracts.Steps.{TraceEvent}
use xiaowei_agent.Contracts.Submission.{TaskSubmission, context_of, conversation, sql_artifact}
use xiaowei_agent.Contracts.Task.{TaskRecord, is_set, both_or_neither}
use xiaowei_agent.Decisions.Attempt.{classify_task_attempt}
use xiaowei_agent.Decisions.Sql.{context_matches_envelope}
use xiaowei_agent.Dict.{lookup}
use xiaowei_agent.Digests.{submission_matches_record}
use xiaowei_agent.Prelude.{
  string_eq, nat_eq, ◌==◌, ==_refl, ◌is_some_eq◌, ℕ, ◌≡◌, Bool, true, false, not, ◌&&◌, ◌||◌,
  Option, none, some, List, [], ◌∷◌, arith, Option-cases, String, refl, ◌≢◌, inl, inr,
}
use xiaowei_agent.Store.Attempt.{
  grant_attempt, intact_submission, attempt_terminal_event, terminalize_attempt_rejection,
  attempt_rejected, answer_attempt, begin_task_attempt,
}
use xiaowei_agent.Store.State.{StoreState, with_task}

-- TaskAttemptResult._result_is_self_consistent of persistence/store.py, part by part
abbrev pub ends_task : Option TaskAttemptRejection → Bool
ends_task (some TaskAttemptRejection.retry_exhausted) = true
ends_task (some TaskAttemptRejection.submission_invariant_violation) = true
ends_task _ = false

abbrev is_failed : TaskStatus → Bool
is_failed TaskStatus.failed = true
is_failed _ = false

abbrev reason_agrees : TaskRecord → Option TaskAttemptRejection → Bool
reason_agrees r none = false
reason_agrees r (some x) =
    is_failed r.status && ◌is_some_eq◌ r.terminal_reason (attempt_rejection_value x)

abbrev events_belong : TaskRecord → List TraceEvent → Bool
events_belong r [] = true
events_belong r (e ∷ es) =
    ◌is_some_eq◌ e.task_id r.task_id
    && ◌is_some_eq◌ e.attempt_number r.attempt_number
    && events_belong r es

abbrev has_events : List TraceEvent → Bool
has_events [] = false
has_events (e ∷ es) = true

abbrev describes : TaskRecord → Option TaskAttemptGrant → Bool
describes r none = true
describes r (some g) =
    g.task_id == r.task_id
    && ◌is_some_eq◌ r.lease_owner g.lease.owner
    && ◌is_some_eq◌ r.fencing_token g.fencing_token
    && ◌is_some_eq◌ r.lease_expires_at g.lease.expires_at
    && g.attempt_number == r.attempt_number

abbrev envelope_agrees : TaskSubmission → Bool
envelope_agrees (sql_artifact m) = true
envelope_agrees (conversation m) = context_matches_envelope m.envelope m.context

abbrev belongs_to : TaskRecord → Option TaskSubmission → Bool
belongs_to r none = true
belongs_to r (some m) =
    envelope_agrees m
    && r.tenant_id == (context_of m).tenant_id
    && r.environment_id == (context_of m).environment_id
    && r.actor == (context_of m).actor

unfoldable pub attempt_result_is_consistent : TaskAttemptResult → Bool
attempt_result_is_consistent x =
    both_or_neither x.applied (is_set x.grant)
    && both_or_neither x.applied (is_set x.submission)
    && both_or_neither x.applied (not (is_set x.rejection))
    && both_or_neither (ends_task x.rejection) (has_events x.committed_audit_events)
    && (not (ends_task x.rejection) || reason_agrees x.winner x.rejection)
    && events_belong x.winner x.committed_audit_events
    && describes x.winner x.grant
    && belongs_to x.winner x.submission

intact_belongs :
    (p : Platform) (r : TaskRecord) (s : StoreState) (m : TaskSubmission)
    → intact_submission p r s ≡ some m
    → belongs_to r (some m) ≡ true
unfolding intact_submission submission_matches_record
intact_belongs p r s (conversation m) h = ground arith
intact_belongs p r s (sql_artifact m) h = ground arith

-- an attempt's result, or the error of a missing task
abbrev pub consistent : Result TaskAttemptResult → Bool
consistent (err e) = true
consistent (ok x) = attempt_result_is_consistent x

grant_attempt-consistent :
    (r : TaskRecord) (c : TaskAttemptCommand) (m : TaskSubmission) (now : ℕ) (s : StoreState)
    → belongs_to r (some m) ≡ true
    → consistent (grant_attempt r c m now s).0 ≡ true
unfolding grant_attempt attempt_result_is_consistent
grant_attempt-consistent r c (conversation m) now s h =
    ground (arith, ==_refl r.task_id, ==_refl c.owner)
grant_attempt-consistent r c (sql_artifact m) now s h =
    ground (arith, ==_refl r.task_id, ==_refl c.owner)

terminalize_consistent :
    (event_id : String) (r : TaskRecord) (c : TaskAttemptCommand) (x : TaskAttemptRejection)
    (now : ℕ) (s : StoreState)
    → ends_task (some x) ≡ true
    → consistent (terminalize_attempt_rejection event_id r c x now s).0 ≡ true
unfolding terminalize_attempt_rejection attempt_terminal_event attempt_result_is_consistent
terminalize_consistent event_id r c x now s h =
    ground (arith, ==_refl r.task_id, ==_refl (attempt_rejection_value x))

refused_consistent :
    (r : TaskRecord) (x : TaskAttemptRejection)
    → ends_task (some x) ≡ false
    → attempt_result_is_consistent (attempt_rejected r x) ≡ true
unfolding attempt_result_is_consistent
refused_consistent r x h = ground arith

-- `classify_task_attempt` never answers with a broken submission: that is found later
never_submission_violation :
    (r : TaskRecord) (intent : AttemptIntent) (now limit : ℕ)
    → classify_task_attempt r intent now limit
      ≢ some TaskAttemptRejection.submission_invariant_violation
unfolding classify_task_attempt
never_submission_violation r intent now limit h = ground arith

module _ (p : Platform) (limit : ℕ) where
  answer_consistent :
      (event_id : String) (r : TaskRecord) (c : TaskAttemptCommand) (now : ℕ) (s : StoreState)
      (o : Option TaskAttemptRejection)
      → o ≢ some TaskAttemptRejection.submission_invariant_violation
      → consistent (answer_attempt p event_id r c now s o).0 ≡ true
  unfolding answer_attempt
  answer_consistent event_id r c now s (some TaskAttemptRejection.retry_exhausted) h =
      terminalize_consistent event_id r c TaskAttemptRejection.retry_exhausted now s refl
  answer_consistent event_id r c now s (some TaskAttemptRejection.submission_invariant_violation)
        h =
      absurd (h refl)
  answer_consistent event_id r c now s (some TaskAttemptRejection.live_lease) h =
      refused_consistent r TaskAttemptRejection.live_lease refl
  answer_consistent event_id r c now s (some TaskAttemptRejection.not_dispatchable) h =
      refused_consistent r TaskAttemptRejection.not_dispatchable refl
  answer_consistent event_id r c now s (some TaskAttemptRejection.retry_not_due) h =
      refused_consistent r TaskAttemptRejection.retry_not_due refl
  answer_consistent event_id r c now s (some TaskAttemptRejection.terminal_protected) h =
      refused_consistent r TaskAttemptRejection.terminal_protected refl
  answer_consistent event_id r c now s none h = elim (Option-cases (intact_submission p r s)) [
    | inl e ↦
        rw (e, answer_attempt)
          (terminalize_consistent event_id r c TaskAttemptRejection.submission_invariant_violation
            now s refl)
    | inr (m, e) ↦
        rw (e, answer_attempt) (grant_attempt-consistent r c m now s (intact_belongs p r s m e))
  ]

  -- Whatever the state and the command, the result of an attempt satisfies the validator of its
  -- contract, so that building it never raises: a grant comes with its submission and without a
  -- rejection, describes the winner's lease, and belongs to the winner's scope; the rejections that
  -- end a task, and no others, come with a failed winner, its reason and their audit event.
  pub begin_task_attempt-consistent :
      (event_id : String) (now : ℕ) (c : TaskAttemptCommand) (s : StoreState)
      → consistent (begin_task_attempt p limit event_id now c s).0 ≡ true
  unfolding begin_task_attempt
  begin_task_attempt-consistent event_id now c s = elim (Option-cases (lookup c.task_id s.tasks)) [
    | inl e ↦ rw (e, with_task) refl
    | inr (r, e) ↦
        rw (e, with_task)
          (answer_consistent event_id r c now s _ (never_submission_violation r c.intent now limit))
  ]
