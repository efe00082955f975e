-- ===== src/Lifecycle/Steps.antt =====
-- Every call refines the lifecycle, and what a change does to one record.
use xiaowei_agent.Contracts.Platform.{Platform}
use xiaowei_agent.Contracts.Submission.{RequestContext}
use xiaowei_agent.Contracts.Task.{TaskRecord}
use xiaowei_agent.Dict.{Dict, lookup, insert, lookup-insert}
use xiaowei_agent.Lifecycle.{
  Write, Change, IsKeyed, IsFresh, moves, leases, renews, attempts, retries, keeps, writes, makes,
}
use xiaowei_agent.Lifecycle.Attempts.{
  begin_task_attempt-Change, begin_step_attempt-Change, commit_step_result-Change,
  record_audit_event-Change, record_approval-Change, load_sql_for_execution-Change,
}
use xiaowei_agent.Lifecycle.Creation.{
  create_task-Change, create_clarification_child-Change, submit_sql_query-Change,
}
use xiaowei_agent.Lifecycle.Refinement.{
  transition-Change, acquire_lease-Change, renew_lease-Change, schedule_retry-Change,
}
use xiaowei_agent.Prelude.{
  string_eq, ℕ, ◌+◌, String, ◌≡◌, sym, ap, subst, ◌∙◌, ◌⊎◌, inl, inr, none, some, arith, eq_iff,
}
use xiaowei_agent.Store.Calls.{Call, after}
use xiaowei_agent.Store.State.{StoreState}
use xiaowei_agent.Store.Submit.{new_record}

module _ (p : Platform) (limit : ℕ) where
  -- Every call of the store, whether it returns or raises, changes the tasks only as the lifecycle
  -- allows: at most one write to one record, or one new record, with the counters moved in step.
  pub after-Change :
      (c : Call) (s : StoreState) → IsKeyed s → IsFresh c s → Change limit s (after p limit c s)
  unfolding after
  after-Change (Call.create_task id m) s k f = create_task-Change limit p id m s f
  after-Change (Call.create_clarification_child id now m owner) s k f =
      create_clarification_child-Change limit p id now m owner s f
  after-Change (Call.submit_sql_query id ref now c) s k f =
      submit_sql_query-Change limit p id ref now c s f
  after-Change (Call.load_sql_for_execution g ref hash now) s k f =
      load_sql_for_execution-Change limit g ref hash now s
  after-Change (Call.transition c now) s k f = transition-Change limit c now s
  after-Change (Call.acquire_lease id owner ttl now later) s k f =
      acquire_lease-Change limit id owner ttl now later s
  after-Change (Call.renew_lease id owner token ttl now later) s k f =
      renew_lease-Change limit id owner token ttl now later s
  after-Change (Call.record_approval r) s k f = record_approval-Change limit r s
  after-Change (Call.record_audit_event e) s k f = record_audit_event-Change limit e s
  after-Change (Call.begin_task_attempt event_id now c) s k f =
      begin_task_attempt-Change limit p event_id now c s k
  after-Change (Call.schedule_retry now c) s k f = schedule_retry-Change limit p now c s k
  after-Change (Call.begin_step_attempt c now started) s k f =
      begin_step_attempt-Change limit c now started s
  after-Change (Call.commit_step_result c now committed) s k f =
      commit_step_result-Change limit p c now committed s

-- the fields that no write touches
pub record SameIdentity (r r' : TaskRecord) : Type 0 where
  pub task_id : r'.task_id ≡ r.task_id
  pub tenant_id : r'.tenant_id ≡ r.tenant_id
  pub environment_id : r'.environment_id ≡ r.environment_id
  pub actor : r'.actor ≡ r.actor
  pub idempotency_key : r'.idempotency_key ≡ r.idempotency_key
  pub request_digest : r'.request_digest ≡ r.request_digest
  pub created_seq : r'.created_seq ≡ r.created_seq

pub Write-SameIdentity :
    {limit : ℕ} {r r' : TaskRecord} {n n' : ℕ} → Write limit r r' n n' → SameIdentity r r'
Write-SameIdentity (moves to reason a b e m) = ground arith
Write-SameIdentity (leases owner expires a e m) = ground arith
Write-SameIdentity (renews owner expires old token a b c e m) = ground arith
Write-SameIdentity (attempts owner expires a b e m) = ground arith
Write-SameIdentity (retries c digest a b d f e m) = ground arith

-- After a change a record is the new one, or the one under its id before, written at most once.
pub data Origin (limit : ℕ) (s t : StoreState) (id : String) (r' : TaskRecord) : Type 0 where
  unchanged : lookup id s.tasks ≡ some r' → Origin limit s t id r'
  written :
      (r : TaskRecord)
      → lookup id s.tasks ≡ some r
      → Write limit r r' s.next_fencing_token t.next_fencing_token
      → Origin limit s t id r'
  made :
      (context : RequestContext) (key digest : String)
      → lookup id s.tasks ≡ none
      → r' ≡ new_record id context key digest s.next_created_seq
      → t.next_created_seq ≡ s.next_created_seq + 1
      → Origin limit s t id r'

pub lookup-insert_cases {ℓ} :
    {V : Type ℓ} (k j : String) (v w : V) (d : Dict String V)
    → lookup j (insert k v d) ≡ some w
    → ((k ≡ j) × (v ≡ w)) ⊎ (lookup j d ≡ some w)
lookup-insert_cases k j v w d h = ground (arith, lookup-insert k j v d, eq_iff k j)

pub Change-Origin :
    {limit : ℕ} {s t : StoreState}
    → Change limit s t
    → (id : String) (r' : TaskRecord) → lookup id t.tasks ≡ some r'
    → Origin limit s t id r'
Change-Origin {s = s} (keeps tasks token seq) id r' h =
    unchanged (subst (λ d. lookup id d ≡ some r') tasks h)
Change-Origin {limit = limit} {s = s} {t = t} (writes j r w found write tasks seq) id r' h =
    elim (lookup-insert_cases j id w r' s.tasks (subst (λ d. lookup id d ≡ some r') tasks h)) [
      | inl (e, e') ↦
          written r (subst (λ i. lookup i s.tasks ≡ some r) e found)
            (subst (λ x. Write limit r x s.next_fencing_token t.next_fencing_token) e' write)
      | inr old ↦ unchanged old
    ]
Change-Origin {s = s} {t = t} (makes j context key digest free tasks token seq) id r' h =
    elim (lookup-insert_cases j id _ r' s.tasks (subst (λ d. lookup id d ≡ some r') tasks h)) [
      | inl (e, e') ↦
          made context key digest (subst (λ i. lookup i s.tasks ≡ none) e free)
            (sym e' ∙ ap (λ i. new_record i context key digest s.next_created_seq) e) seq
      | inr old ↦ unchanged old
    ]

pub after-IsKeyed : {limit : ℕ} {s t : StoreState} → Change limit s t → IsKeyed s → IsKeyed t
after-IsKeyed change keyed id r' h = elim (Change-Origin change id r' h) [
  | unchanged old ↦ keyed id r' old
  | written r old write ↦ (Write-SameIdentity write).task_id ∙ keyed id r old
  | made context key digest free e seq ↦ ap (λ (x : TaskRecord). x.task_id) e
]
