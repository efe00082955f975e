-- ===== src/Guarantees/Fencing.antt =====
-- Fencing: what a worker can still do once a newer token of its task has been issued.
use xiaowei_agent.Contracts.Commands.{
  TaskAttemptGrant, TransitionCommand, RetryCommand, StepAttemptCommand, StepCommitCommand, ok,
}
use xiaowei_agent.Contracts.Enums.{TaskStatus, GrantRejection, is_dispatch_status, is_running}
use xiaowei_agent.Contracts.Platform.{Platform}
use xiaowei_agent.Contracts.Task.{TaskRecord, LeaseGrant}
use xiaowei_agent.Decisions.Fencing.{check_fencing}
use xiaowei_agent.Decisions.Lease.{may_renew_lease, grant_is_current}
use xiaowei_agent.Decisions.Lease.Facts.{grant_is_current-Current}
use xiaowei_agent.Dict.{lookup, Dict}
use xiaowei_agent.Guarantees.Transitions.{refused_unchanged}
use xiaowei_agent.Lifecycle.{Reach}
use xiaowei_agent.Lifecycle.Evolution.{token_le, found_once}
use xiaowei_agent.Lifecycle.History.{Reach-Evolves}
use xiaowei_agent.Lifecycle.Invariant.{Inv, Reach-Inv}
use xiaowei_agent.Prelude.{
  ℕ_discrete, string_eq, nat_eq, ltb, Option-cases, is_some_eq→, ℕ, String, ◌≡◌, inl, inr, Bool,
  true, false, Option, none, some, arith, ◌<◌, refl, sym, ap, subst, ◌≢◌,
}
use xiaowei_agent.Store.Attempt.{schedule_retry}
use xiaowei_agent.Store.Calls.{Call, after}
use xiaowei_agent.Store.Lease.{transition, renew_lease}
use xiaowei_agent.Store.State.{StoreState, with_task, StoreResult}
use xiaowei_agent.Store.Steps.{begin_step_attempt, commit_step_result}
use xiaowei_agent.Store.Artifacts.{load_sql_for_execution}

-- the record holds a token that is later than `t`
abbrev pub newer : Option ℕ → ℕ → Bool
newer none t = false
newer (some u) t = ltb t u

newer-token_le :
    (o o' : Option ℕ) (t : ℕ) → token_le o o' ≡ true → newer o t ≡ true → newer o' t ≡ true
newer-token_le o o' t h k = ground arith

newer-not_current :
    (r : TaskRecord) (g : TaskAttemptGrant) (now : ℕ) (allowed : TaskStatus → Bool)
    → newer r.fencing_token g.fencing_token ≡ true
    → (x : GrantRejection) × (grant_is_current r g now allowed ≡ some x)
newer-not_current r g now allowed h = elim (Option-cases (grant_is_current r g now allowed)) [
  | inl e ↦ absurd (ground (arith, (grant_is_current-Current r g now allowed e).0.token))
  | inr (x, e) ↦ (x, e)
]

newer-not_fenced :
    (r : TaskRecord) (t now : ℕ)
    → newer r.fencing_token t ≡ true
    → ¬ (check_fencing r (some t) now ≡ none)
unfolding check_fencing
newer-not_fenced r t now h q = ground arith

-- a token that is no longer the task's has been overtaken
newer-of_ne : (o : Option ℕ) (t : ℕ) → token_le (some t) o ≡ true → o ≢ some t → newer o t ≡ true
newer-of_ne none t h k = cc
newer-of_ne (some u) t h k = elim (ℕ_discrete u t) [
  | yes e ↦ absurd (k (ap some e))
  | no e ↦ ground arith
]

-- The calls that carry a token, made with one that is out of date.
module _ (p : Platform) (s : StoreState) (r : TaskRecord) (now later : ℕ) where
  stale_transition :
      (c : TransitionCommand) (t : ℕ)
      → lookup c.task_id s.tasks ≡ some r
      → c.fencing_token ≡ some t
      → newer r.fencing_token t ≡ true
      → (transition c now s).1 ≡ s
  stale_transition c t found token stale =
      (refused_unchanged c now s r found (λ q.
        newer-not_fenced r t now stale
          (subst (λ o. check_fencing r o now ≡ none) token q.fencing))).1

  stale_renew :
      (id owner : String) (t ttl : ℕ)
      → lookup id s.tasks ≡ some r
      → newer r.fencing_token t ≡ true
      → renew_lease id owner t ttl now later s ≡ (ok none, s)
  unfolding renew_lease may_renew_lease
  stale_renew id owner t ttl found stale =
      rw (found, with_task) (ground (arith, is_some_eq→ r.fencing_token t))

  stale_retry :
      (c : RetryCommand)
      → lookup c.grant.task_id s.tasks ≡ some r
      → newer r.fencing_token c.grant.fencing_token ≡ true
      → (schedule_retry p now c s).1 ≡ s
  unfolding schedule_retry
  stale_retry c found stale =
      rw (found, with_task) (ground (arith, newer-not_current r c.grant now is_dispatch_status))

  stale_step :
      (c : StepAttemptCommand)
      → lookup c.grant.task_id s.tasks ≡ some r
      → newer r.fencing_token c.grant.fencing_token ≡ true
      → (begin_step_attempt c now later s).1 ≡ s
  unfolding begin_step_attempt
  stale_step c found stale =
      rw (found, with_task) (ground (arith, newer-not_current r c.grant now is_running))

  stale_commit :
      (c : StepCommitCommand)
      → lookup c.grant.task_id s.tasks ≡ some r
      → newer r.fencing_token c.grant.fencing_token ≡ true
      → (commit_step_result p c now later s).1 ≡ s
  unfolding commit_step_result
  stale_commit c found stale =
      rw (found, with_task) (ground (arith, newer-not_current r c.grant now is_running))

  stale_load :
      (g : TaskAttemptGrant) (ref hash : String)
      → lookup g.task_id s.tasks ≡ some r
      → newer r.fencing_token g.fencing_token ≡ true
      → (load_sql_for_execution g ref hash now s).1 ≡ s
  unfolding load_sql_for_execution
  stale_load g ref hash found stale =
      rw (found, with_task) (ground (arith, newer-not_current r g now is_running))

moved :
    {i j : String} {r : TaskRecord} (d : Dict String TaskRecord)
    → i ≡ j
    → lookup i d ≡ some r
    → lookup j d ≡ some r
moved {r = r} d e h = subst (λ i. lookup i d ≡ some r) e h

overtaken : (o : Option ℕ) {t t' : ℕ} → t ≡ t' → newer o t ≡ true → newer o t' ≡ true
overtaken o e h = subst (λ x. newer o x ≡ true) e h

-- A call that acts under token `t` of task `id`.
abbrev pub Carries : Call → String → ℕ → Type 0
Carries (Call.transition c now) id t = (c.task_id ≡ id) × (c.fencing_token ≡ some t)
Carries (Call.renew_lease task_id owner token ttl now later) id t = (task_id ≡ id) × (token ≡ t)
Carries (Call.schedule_retry now c) id t = (c.grant.task_id ≡ id) × (c.grant.fencing_token ≡ t)
Carries (Call.begin_step_attempt c now started) id t =
    (c.grant.task_id ≡ id) × (c.grant.fencing_token ≡ t)
Carries (Call.commit_step_result c now committed) id t =
    (c.grant.task_id ≡ id) × (c.grant.fencing_token ≡ t)
Carries (Call.load_sql_for_execution g ref hash now) id t = (g.task_id ≡ id) × (g.fencing_token ≡ t)
Carries _ id t = ⊥

module _ (p : Platform) (limit : ℕ) where
  stale_call :
      (c : Call) (id : String) (t : ℕ) (s : StoreState) (r : TaskRecord)
      → lookup id s.tasks ≡ some r
      → newer r.fencing_token t ≡ true
      → Carries c id t
      → after p limit c s ≡ s
  unfolding after
  stale_call (Call.transition c now) id t s r found stale h =
      stale_transition p s r now now c t (moved s.tasks (sym h.0) found) h.1 stale
  stale_call (Call.renew_lease task_id owner token ttl now later) id t s r found stale h =
      ap (λ (x : StoreResult (Option LeaseGrant)). x.1)
        (stale_renew p s r now later task_id owner token ttl (moved s.tasks (sym h.0) found)
          (overtaken r.fencing_token (sym h.1) stale))
  stale_call (Call.schedule_retry now c) id t s r found stale h =
      stale_retry p s r now now c (moved s.tasks (sym h.0) found)
        (overtaken r.fencing_token (sym h.1) stale)
  stale_call (Call.begin_step_attempt c now started) id t s r found stale h =
      stale_step p s r now started c (moved s.tasks (sym h.0) found)
        (overtaken r.fencing_token (sym h.1) stale)
  stale_call (Call.commit_step_result c now committed) id t s r found stale h =
      stale_commit p s r now committed c (moved s.tasks (sym h.0) found)
        (overtaken r.fencing_token (sym h.1) stale)
  stale_call (Call.load_sql_for_execution g ref hash now) id t s r found stale h =
      stale_load p s r now now g ref hash (moved s.tasks (sym h.0) found)
        (overtaken r.fencing_token (sym h.1) stale)
  stale_call _ id t s r found stale h = absurd h

  -- Once a task no longer holds the token `t` that it held before, no call that acts under `t` changes
  -- anything of the store, in any state that further calls lead to.
  pub superseded_token_is_fenced :
      (c : Call) (id : String) (t : ℕ) {s u w : StoreState} (r r' : TaskRecord)
      → 0 < limit
      → Inv limit s
      → lookup id s.tasks ≡ some r
      → r.fencing_token ≡ some t
      → Reach p limit s u
      → lookup id u.tasks ≡ some r'
      → r'.fencing_token ≢ some t
      → Reach p limit u w
      → Carries c id t
      → after p limit c w ≡ w
  superseded_token_is_fenced c id t {s} {u} {w} r r' pos v found token path found' other path' h =
      let (r₁, at, evolved) = Reach-Evolves p limit pos v path id r found in
      let (r₂, at', evolved') =
        Reach-Evolves p limit pos (Reach-Inv p limit pos v path) path' id r' found' in
      let same : r₁ ≡ r' = found_once u.tasks at found' refl in
      stale_call c id t w r₂ at'
        (newer-token_le r'.fencing_token r₂.fencing_token t evolved'.token (
          newer-of_ne r'.fencing_token t
            (subst (λ o. token_le o r'.fencing_token ≡ true) token
              (subst (λ (x : TaskRecord). token_le r.fencing_token x.fencing_token ≡ true) same
                evolved.token))
            other))
        h
