-- ===== src/Lifecycle/Invariant.antt =====
-- What holds of every record that calls of the store lead to: the validators of contracts/task.py, and
-- the bounds that keep tokens, sequence numbers and the failure budget apart.
use xiaowei_agent.Contracts.Platform.{Platform}
use xiaowei_agent.Contracts.Submission.{RequestContext}
use xiaowei_agent.Contracts.Task.{
  TaskRecord, lease_fields_are_consistent, retry_marker_fields_are_consistent,
}
use xiaowei_agent.Dict.{lookup}
use xiaowei_agent.Lifecycle.{
  Write, IsKeyed, moves, leases, renews, attempts, retries, Change, Reach, keeps, writes, makes,
  here, calls,
}
use xiaowei_agent.Lifecycle.Steps.{
  after-Change, Origin, Change-Origin, after-IsKeyed, written, unchanged, made,
}
use xiaowei_agent.Prelude.{
  string_eq, nat_eq, ltb, leb, if◌then◌else◌, ◌is_some_eq◌, ℕ, ◌+◌, ◌<◌, String, ◌≡◌, Bool, true,
  ◌&&◌, Option, none, some, arith, ◌≤◌, sym, subst,
}
use xiaowei_agent.Store.State.{StoreState, empty_state}
use xiaowei_agent.Store.Submit.{new_record}

-- a token, if there is one, was issued before `n`
abbrev pub issued : Option ℕ → ℕ → Bool
issued none n = true
issued (some t) n = ltb 0 t && ltb t n

-- the attempt at work has room in the failure budget, unless it has scheduled its retry
abbrev pub in_budget : TaskRecord → ℕ → Bool
in_budget r limit =
    if ◌is_some_eq◌ r.retry_scheduled_by_attempt r.attempt_number
    then leb r.task_failure_count limit
    else ltb r.task_failure_count limit

-- `n` and `q` are the next fencing token and the next sequence number.
pub record IsValid (limit n q : ℕ) (r : TaskRecord) : Type 0 where
  pub lease : lease_fields_are_consistent r ≡ true
  pub marker : retry_marker_fields_are_consistent r ≡ true
  pub token : issued r.fencing_token n ≡ true
  pub seq : (0 < r.created_seq) × (r.created_seq < q)
  pub budget : in_budget r limit ≡ true

Write-IsValid :
    {limit n n' q : ℕ} {r r' : TaskRecord}
    → 0 < n
    → IsValid limit n q r
    → Write limit r r' n n'
    → IsValid limit n' q r'
Write-IsValid pos v (moves to reason a b e m) = ground arith
Write-IsValid pos v (leases owner expires a e m) = ground arith
Write-IsValid pos v (renews owner expires old token a b c e m) = ground arith
Write-IsValid pos v (attempts owner expires a b e m) = ground arith
Write-IsValid pos v (retries c digest a b d f e m) = ground arith

new-IsValid :
    (limit n q : ℕ) (id : String) (context : RequestContext) (key digest : String)
    → 0 < limit
    → 0 < q
    → IsValid limit n (q + 1) (new_record id context key digest q)
new-IsValid limit n q id context key digest pos pos' = ground arith

pub record Inv (limit : ℕ) (s : StoreState) : Type 0 where
  pub keyed : IsKeyed s
  pub token_pos : 0 < s.next_fencing_token
  pub seq_pos : 0 < s.next_created_seq
  pub valid :
      (id : String) (r : TaskRecord)
      → lookup id s.tasks ≡ some r
      → IsValid limit s.next_fencing_token s.next_created_seq r

-- Counters never go back.
pub record Grows (s t : StoreState) : Type 0 where
  pub tokens : s.next_fencing_token ≤ t.next_fencing_token
  pub seqs : s.next_created_seq ≤ t.next_created_seq

Write-grows : {limit n n' : ℕ} {r r' : TaskRecord} → Write limit r r' n n' → n ≤ n'
Write-grows (moves to reason a b e m) = omega arith
Write-grows (leases owner expires a e m) = omega arith
Write-grows (renews owner expires old token a b c e m) = omega arith
Write-grows (attempts owner expires a b e m) = omega arith
Write-grows (retries c digest a b d f e m) = omega arith

pub Change-Grows : {limit : ℕ} {s t : StoreState} → Change limit s t → Grows s t
Change-Grows (keeps tasks token seq) = record { tokens = omega arith; seqs = omega arith }
Change-Grows (writes j r w found write tasks seq) = record {
  tokens = Write-grows write;
  seqs = omega arith;
}
Change-Grows (makes j context key digest free tasks token seq) = record {
  tokens = omega arith;
  seqs = omega arith;
}

IsValid-mono :
    {limit n n' q q' : ℕ} {r : TaskRecord}
    → n ≤ n'
    → q ≤ q'
    → IsValid limit n q r
    → IsValid limit n' q' r
IsValid-mono h k v = ground arith

-- A change keeps the invariant.
pub Change-Inv :
    {limit : ℕ} {s t : StoreState} → 0 < limit → Inv limit s → Change limit s t → Inv limit t
Change-Inv {limit} {s} {t} pos v change = record {
  keyed = after-IsKeyed change v.keyed;
  token_pos = omega (arith, (Change-Grows change).tokens, v.token_pos);
  seq_pos = omega (arith, (Change-Grows change).seqs, v.seq_pos);
  valid = λ id r h. valid_at id r (Change-Origin change id r h);
}
  where
    valid_at :
        (id : String) (r : TaskRecord)
        → Origin limit s t id r
        → IsValid limit t.next_fencing_token t.next_created_seq r
    valid_at id r (unchanged old) =
        IsValid-mono (Change-Grows change).tokens (Change-Grows change).seqs (v.valid id r old)
    valid_at id r (written r₀ old write) =
        Write-IsValid v.token_pos
          (IsValid-mono {n' = s.next_fencing_token} (omega arith) (Change-Grows change).seqs
            (v.valid id r₀ old))
          write
    valid_at id r (made context key digest free e seq) =
        subst (λ x. IsValid limit t.next_fencing_token t.next_created_seq x) (sym e)
          (subst
            (λ q.
              IsValid limit t.next_fencing_token q
                (new_record id context key digest s.next_created_seq))
            (sym seq)
            (new-IsValid limit t.next_fencing_token s.next_created_seq id context key digest pos
              v.seq_pos))

module _ (p : Platform) (limit : ℕ) where
  -- From a state with the invariant, every state that calls lead to has it: each task is stored under
  -- its own id, its lease and its retry marker are consistent, its token and sequence number were
  -- issued, and its failures stay within the budget.
  pub Reach-Inv : {s t : StoreState} → 0 < limit → Inv limit s → Reach p limit s t → Inv limit t
  Reach-Inv pos v here = v
  Reach-Inv {s} pos v (calls {t = t} c path fresh e) =
      let w = Reach-Inv pos v path in
      subst (λ x. Inv limit x) (sym e) (Change-Inv pos w (after-Change p limit c t w.keyed fresh))

pub empty-Inv : (limit : ℕ) → Inv limit empty_state
unfolding lookup
empty-Inv limit = record {
  keyed = λ id r h. cc;
  token_pos = omega arith;
  seq_pos = omega arith;
  valid = λ id r h. absurd (cc);
}
