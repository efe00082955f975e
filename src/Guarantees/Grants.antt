-- ===== src/Guarantees/Grants.antt =====
-- What a task attempt is worth to the worker that gets it, and who is kept out meanwhile.
use xiaowei_agent.Contracts.Commands.{
  Result, TaskAttemptGrant, TaskAttemptCommand, TaskAttemptResult, ok, err,
}
use xiaowei_agent.Contracts.Enums.{TaskStatus, AttemptIntent, TaskAttemptRejection, is_terminal}
use xiaowei_agent.Contracts.Json.{seconds}
use xiaowei_agent.Contracts.Platform.{Platform}
use xiaowei_agent.Contracts.Submission.{TaskSubmission}
use xiaowei_agent.Contracts.Task.{TaskRecord}
use xiaowei_agent.Decisions.Attempt.{attempt_statuses, classify_task_attempt}
use xiaowei_agent.Decisions.Lease.{lease_is_live, grant_is_current, is_after}
use xiaowei_agent.Dict.{lookup, lookup-insert_self}
use xiaowei_agent.Guarantees.Attempts.{ends_task}
use xiaowei_agent.Lifecycle.{IsKeyed}
use xiaowei_agent.Prelude.{
  string_eq, nat_eq, ==_refl, ℕ, ◌+◌, ◌<◌, String, ◌≡◌, Bool, true, false, Option, none, some,
  arith, Option-cases, refl, subst, inl, inr, ◌||◌, sym, ◌≢◌,
}
use xiaowei_agent.Store.Attempt.{
  attempted, grant_attempt, answer_attempt, terminalize_attempt_rejection, intact_submission,
  begin_task_attempt,
}
use xiaowei_agent.Store.State.{StoreState, with_task}

-- the grant of a result
abbrev pub grant_of : Result TaskAttemptResult → Option TaskAttemptGrant
grant_of (err e) = none
grant_of (ok x) = x.grant

granted_current :
    (r : TaskRecord) (c : TaskAttemptCommand) (m : TaskSubmission) (now : ℕ) (s : StoreState)
    (g : TaskAttemptGrant) (allowed : TaskStatus → Bool)
    → 0 < c.ttl_seconds
    → is_terminal r.status ≡ false
    → allowed r.status ≡ true
    → grant_of (grant_attempt r c m now s).0 ≡ some g
    → (g.task_id ≡ r.task_id)
      × (grant_is_current
            (attempted r c.owner (now + seconds c.ttl_seconds) s.next_fencing_token)
            g
            now
            allowed
          ≡ none)
unfolding grant_attempt grant_is_current lease_is_live
granted_current r c m now s g allowed ttl open_ may h = ground (arith, ==_refl c.owner)

classify_task_attempt_passes :
    (r : TaskRecord) (intent : AttemptIntent) (now limit : ℕ)
    → classify_task_attempt r intent now limit ≡ none
    → (is_terminal r.status ≡ false) × (attempt_statuses intent r.status ≡ true)
unfolding classify_task_attempt
classify_task_attempt_passes r intent now limit h = ground arith

-- the record of the task, under which the grant is current
abbrev pub Holds : StoreState → String → TaskAttemptGrant → ℕ → (TaskStatus → Bool) → Type 0
Holds s id g now allowed =
    (r : TaskRecord) × (lookup id s.tasks ≡ some r) × (grant_is_current r g now allowed ≡ none)

occupied_not_passed :
    (r : TaskRecord) (intent : AttemptIntent) (now limit : ℕ)
    → (lease_is_live r now || is_after r.next_attempt_at now) ≡ true
    → classify_task_attempt r intent now limit ≢ none
unfolding classify_task_attempt
occupied_not_passed r intent now limit h e = ground arith

occupied_not_ended :
    (r : TaskRecord) (intent : AttemptIntent) (now limit : ℕ)
    → (lease_is_live r now || is_after r.next_attempt_at now) ≡ true
    → (x : TaskAttemptRejection) → classify_task_attempt r intent now limit ≡ some x
    → ends_task (some x) ≡ false
unfolding classify_task_attempt
occupied_not_ended r intent now limit h x e = ground arith

module _ (p : Platform) (limit : ℕ) where
  refused_no_grant :
      (event_id : String) (r : TaskRecord) (c : TaskAttemptCommand) (now : ℕ) (s : StoreState)
      (x : TaskAttemptRejection)
      → grant_of (answer_attempt p event_id r c now s (some x)).0 ≡ none
  unfolding answer_attempt terminalize_attempt_rejection
  refused_no_grant event_id r c now s x = ground arith

  lost_no_grant :
      (event_id : String) (r : TaskRecord) (c : TaskAttemptCommand) (now : ℕ) (s : StoreState)
      → intact_submission p r s ≡ none
      → grant_of (answer_attempt p event_id r c now s none).0 ≡ none
  unfolding answer_attempt terminalize_attempt_rejection
  lost_no_grant event_id r c now s e = rw (e, grant_of) refl

  kept_answer :
      (event_id : String) (r : TaskRecord) (c : TaskAttemptCommand) (now : ℕ) (s : StoreState)
      (m : TaskSubmission)
      → intact_submission p r s ≡ some m
      → answer_attempt p event_id r c now s none ≡ grant_attempt r c m now s
  unfolding answer_attempt
  kept_answer event_id r c now s m e = rw (e, answer_attempt) refl

  grant_attempt-Holds :
      (r : TaskRecord) (c : TaskAttemptCommand) (m : TaskSubmission) (now : ℕ) (s : StoreState)
      (g : TaskAttemptGrant)
      → 0 < c.ttl_seconds
      → classify_task_attempt r c.intent now limit ≡ none
      → grant_of (grant_attempt r c m now s).0 ≡ some g
      → Holds (grant_attempt r c m now s).1 r.task_id g now (attempt_statuses c.intent)
  unfolding grant_attempt
  grant_attempt-Holds r c m now s g ttl e h =
      let (open_, may) = classify_task_attempt_passes r c.intent now limit e in
      (
        attempted r c.owner (now + seconds c.ttl_seconds) s.next_fencing_token,
        lookup-insert_self r.task_id _ s.tasks,
        (granted_current r c m now s g (attempt_statuses c.intent) ttl open_ may h).1,
      )

  answer_granted :
      (event_id : String) (r : TaskRecord) (c : TaskAttemptCommand) (now : ℕ) (s : StoreState)
      (g : TaskAttemptGrant) (o : Option TaskAttemptRejection)
      → 0 < c.ttl_seconds
      → classify_task_attempt r c.intent now limit ≡ o
      → grant_of (answer_attempt p event_id r c now s o).0 ≡ some g
      → Holds (answer_attempt p event_id r c now s o).1 r.task_id g now (attempt_statuses c.intent)
  answer_granted event_id r c now s g (some x) ttl e h =
      absurd (cc (refused_no_grant event_id r c now s x, h))
  answer_granted event_id r c now s g none ttl e h = elim (Option-cases (intact_submission p r s)) [
    | inl lost ↦ absurd (cc (lost_no_grant event_id r c now s lost, h))
    | inr (m, kept) ↦
        let same = kept_answer event_id r c now s m kept in
        subst (λ x. Holds x.1 r.task_id g now (attempt_statuses c.intent)) (sym same)
          (grant_attempt-Holds r c m now s g ttl e (subst (λ x. grant_of x.0 ≡ some g) same h))
  ]

  granted_at :
      (id event_id : String) (r : TaskRecord) (c : TaskAttemptCommand) (now : ℕ) (s : StoreState)
      (g : TaskAttemptGrant)
      → r.task_id ≡ id
      → 0 < c.ttl_seconds
      → grant_of
          (answer_attempt p event_id r c now s (classify_task_attempt r c.intent now limit)).0
        ≡ some g
      → Holds
          (answer_attempt p event_id r c now s (classify_task_attempt r c.intent now limit)).1
          id
          g
          now
          (attempt_statuses c.intent)
  granted_at id event_id r c now s g e ttl h =
      let t =
        (answer_attempt p event_id r c now s (classify_task_attempt r c.intent now limit)).1 in
      subst (λ i. Holds t i g now (attempt_statuses c.intent)) e
        (answer_granted event_id r c now s g (classify_task_attempt r c.intent now limit) ttl refl
          h)

  -- A grant that `begin_task_attempt` returns for a positive time to live is current at once: in the
  -- state that the call leaves, the task's record accepts it as the only fenced writer.
  pub begin_task_attempt_grants :
      (event_id : String) (now : ℕ) (c : TaskAttemptCommand) (g : TaskAttemptGrant) (s : StoreState)
      → IsKeyed s
      → 0 < c.ttl_seconds
      → grant_of (begin_task_attempt p limit event_id now c s).0 ≡ some g
      → Holds
          (begin_task_attempt p limit event_id now c s).1
          c.task_id
          g
          now
          (attempt_statuses c.intent)
  unfolding begin_task_attempt
  begin_task_attempt_grants event_id now c g s keyed ttl =
      elim (Option-cases (lookup c.task_id s.tasks)) [
        | inl e ↦ rw (e, with_task) λ h. absurd (cc h)
        | inr (r, e) ↦
            rw (e, with_task) (granted_at c.task_id event_id r c now s g (keyed c.task_id r e) ttl)
      ]

  -- a task that is leased, or waits for its retry, is not dispatched
  not_passed :
      (r : TaskRecord) (intent : AttemptIntent) (now : ℕ)
      → (lease_is_live r now || is_after r.next_attempt_at now) ≡ true
      → (x : TaskAttemptRejection) × (classify_task_attempt r intent now limit ≡ some x)
        × (ends_task (some x) ≡ false)
  not_passed r intent now h = elim (Option-cases (classify_task_attempt r intent now limit)) [
    | inl e ↦ absurd (occupied_not_passed r intent now limit h e)
    | inr (x, e) ↦ (x, e, occupied_not_ended r intent now limit h x e)
  ]

  refused_keeps :
      (event_id : String) (r : TaskRecord) (c : TaskAttemptCommand) (now : ℕ) (s : StoreState)
      (x : TaskAttemptRejection)
      → ends_task (some x) ≡ false
      → (answer_attempt p event_id r c now s (some x)).1 ≡ s
  unfolding answer_attempt
  refused_keeps event_id r c now s x h = ground arith

  -- While a task is leased, or waits for its retry, no attempt on it is granted and none ends it:
  -- whoever asks, and whatever for, the call changes nothing.
  pub occupied_task_is_left_alone :
      (event_id : String) (now : ℕ) (c : TaskAttemptCommand) (s : StoreState) (r : TaskRecord)
      → lookup c.task_id s.tasks ≡ some r
      → (lease_is_live r now || is_after r.next_attempt_at now) ≡ true
      → (grant_of (begin_task_attempt p limit event_id now c s).0 ≡ none)
        × ((begin_task_attempt p limit event_id now c s).1 ≡ s)
  unfolding begin_task_attempt
  occupied_task_is_left_alone event_id now c s r found busy =
      let (x, e, spared) = not_passed r c.intent now busy in
      rw (found, with_task, e)
        (refused_no_grant event_id r c now s x, refused_keeps event_id r c now s x spared)
