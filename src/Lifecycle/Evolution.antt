-- ===== src/Lifecycle/Evolution.antt =====
-- How one task's record changes over any history of calls.
use xiaowei_agent.Contracts.Enums.{TaskStatus, is_terminal, allowed_transition}
use xiaowei_agent.Contracts.Task.{TaskRecord}
use xiaowei_agent.Dict.{Dict, lookup}
use xiaowei_agent.Lifecycle.{Write, moves, leases, renews, attempts, retries}
use xiaowei_agent.Lifecycle.Invariant.{IsValid}
use xiaowei_agent.Lifecycle.Steps.{SameIdentity, Write-SameIdentity}
use xiaowei_agent.Prelude.{
  string_eq, nat_eq, leb, ℕ, ◌≤◌, ◌≡◌, refl, sym, ap, subst, ◌∙◌, Bool, true, false, Option, none,
  some, arith, String,
}

-- a token is replaced only by a later one
abbrev pub token_le : Option ℕ → Option ℕ → Bool
token_le none o = true
token_le (some t) none = false
token_le (some t) (some u) = leb t u

-- the statuses on a way through ALLOWED_TRANSITIONS
pub data Passes (a : TaskStatus) : TaskStatus → Type 0 where
  stays : Passes a a
  passes : {b c : TaskStatus} → Passes a b → allowed_transition b c ≡ true → Passes a c

Passes-trans : {a b c : TaskStatus} → Passes a b → Passes b c → Passes a c
Passes-trans p stays = p
Passes-trans p (passes q h) = passes (Passes-trans p q) h

Passes-eq : {a b : TaskStatus} → b ≡ a → Passes a b
Passes-eq {a} e = subst (λ x. Passes a x) (sym e) stays

pub found_once :
    {V : Type 0} {k j : String} {v w : V} (d : Dict String V)
    → lookup k d ≡ some v
    → lookup j d ≡ some w
    → k ≡ j
    → v ≡ w
found_once d h h' e = cc

-- a scheduled retry keeps its command until the next attempt
abbrev pub KeepsRetry : TaskRecord → TaskRecord → Type 0
KeepsRetry r r' =
    r.retry_scheduled_by_attempt ≡ some r.attempt_number
    → r'.attempt_number ≡ r.attempt_number
    → (r'.retry_scheduled_by_attempt ≡ r.retry_scheduled_by_attempt)
      × (r'.retry_command_digest ≡ r.retry_command_digest)

pub record Evolves (r r' : TaskRecord) : Type 0 where
  pub identity : SameIdentity r r'
  pub version : r.version ≤ r'.version
  pub attempt : r.attempt_number ≤ r'.attempt_number
  pub failures : r.task_failure_count ≤ r'.task_failure_count
  pub token : token_le r.fencing_token r'.fencing_token ≡ true
  pub path : Passes r.status r'.status
  pub retry : KeepsRetry r r'
  -- a change of status or reason bumps the version
  pub bumped :
      r'.version ≡ r.version → (r'.status ≡ r.status) × (r'.terminal_reason ≡ r.terminal_reason)
  -- a terminal record keeps everything but the expiry of its last lease
  pub frozen :
      is_terminal r.status ≡ true → r' ≡ record r { lease_expires_at = r'.lease_expires_at }

pub Evolves-refl : (r : TaskRecord) → Evolves r r
Evolves-refl r = record {
  identity = ground arith;
  version = omega arith;
  attempt = omega arith;
  failures = omega arith;
  token = ground arith;
  path = stays;
  retry = λ h e. (refl, refl);
  bumped = λ h. (refl, refl);
  frozen = λ h. refl;
}

SameIdentity-trans : {a b c : TaskRecord} → SameIdentity a b → SameIdentity b c → SameIdentity a c
SameIdentity-trans h k = ground arith

pub Evolves-trans : {a b c : TaskRecord} → Evolves a b → Evolves b c → Evolves a c
Evolves-trans {a} {b} {c} h k = record {
  identity = SameIdentity-trans h.identity k.identity;
  version = omega arith;
  attempt = omega arith;
  failures = omega arith;
  token = ground arith;
  path = Passes-trans h.path k.path;
  retry = λ m e. retry_twice m e;
  bumped = λ e. bumped_twice (h.bumped (omega arith)) (k.bumped (omega arith));
  frozen = λ t. frozen_twice t (h.frozen t);
}
  where
    retry_twice : KeepsRetry a c
    retry_twice m e =
        let same : b.attempt_number ≡ a.attempt_number = omega (arith, h.attempt, k.attempt, e) in
        let (p, q) = h.retry m same in
        let (u, v) = k.retry (p ∙ m ∙ ap some (sym same)) (e ∙ sym same) in (u ∙ p, v ∙ q)

    bumped_twice :
        (b.status ≡ a.status) × (b.terminal_reason ≡ a.terminal_reason)
        → (c.status ≡ b.status) × (c.terminal_reason ≡ b.terminal_reason)
        → (c.status ≡ a.status) × (c.terminal_reason ≡ a.terminal_reason)
    bumped_twice p q = (q.0 ∙ p.0, q.1 ∙ p.1)

    frozen_twice :
        is_terminal a.status ≡ true
        → b ≡ record a { lease_expires_at = b.lease_expires_at }
        → c ≡ record a { lease_expires_at = c.lease_expires_at }
    frozen_twice t e =
        k.frozen (subst (λ x. is_terminal x ≡ true) (sym (ap (λ (x : TaskRecord). x.status) e)) t)
        ∙ ap (λ (x : TaskRecord). record x { lease_expires_at = c.lease_expires_at }) e

-- the numbers and the token after one write
Write-numbers :
    {limit n n' q : ℕ} {r r' : TaskRecord}
    → IsValid limit n q r
    → Write limit r r' n n'
    → (r.version ≤ r'.version)
      × (r.attempt_number ≤ r'.attempt_number)
      × (r.task_failure_count ≤ r'.task_failure_count)
      × (token_le r.fencing_token r'.fencing_token ≡ true)
Write-numbers v (moves to reason a b e m) = ground arith
Write-numbers v (leases owner expires a e m) = ground arith
Write-numbers v (renews owner expires old token a b c e m) = ground arith
Write-numbers v (attempts owner expires a b e m) = ground arith
Write-numbers v (retries c digest a b d f e m) = ground arith

Write-Passes :
    {limit n n' : ℕ} {r r' : TaskRecord} → Write limit r r' n n' → Passes r.status r'.status
Write-Passes {r = r} (moves to reason a b e m) =
    subst (λ (x : TaskRecord). Passes r.status x.status) (sym e) (passes stays b)
Write-Passes (leases owner expires a e m) = Passes-eq (ground arith)
Write-Passes (renews owner expires old token a b c e m) = Passes-eq (ground arith)
Write-Passes (attempts owner expires a b e m) = Passes-eq (ground arith)
Write-Passes (retries c digest a b d f e m) = Passes-eq (ground arith)

Write-bumped :
    {limit n n' : ℕ} {r r' : TaskRecord}
    → Write limit r r' n n'
    → r'.version ≡ r.version
    → (r'.status ≡ r.status) × (r'.terminal_reason ≡ r.terminal_reason)
Write-bumped (moves to reason a b e m) h = ground arith
Write-bumped (leases owner expires a e m) h = ground arith
Write-bumped (renews owner expires old token a b c e m) h = ground arith
Write-bumped (attempts owner expires a b e m) h = ground arith
Write-bumped (retries c digest a b d f e m) h = ground arith

Write-KeepsRetry : {limit n n' : ℕ} {r r' : TaskRecord} → Write limit r r' n n' → KeepsRetry r r'
Write-KeepsRetry (moves to reason a b e m) h k = ground arith
Write-KeepsRetry (leases owner expires a e m) h k = ground arith
Write-KeepsRetry (renews owner expires old token a b c e m) h k = ground arith
Write-KeepsRetry (attempts owner expires a b e m) h k = ground arith
Write-KeepsRetry (retries c digest a b d f e m) h k = absurd (f h)

Write-frozen :
    {limit n n' : ℕ} {r r' : TaskRecord}
    → Write limit r r' n n'
    → is_terminal r.status ≡ true
    → r' ≡ record r { lease_expires_at = r'.lease_expires_at }
Write-frozen (moves to reason a b e m) h = cc
Write-frozen (leases owner expires a e m) h = cc
Write-frozen {r = r} (renews owner expires old token a b c e m) h =
    e
    ∙ ap (λ x. record r { lease_expires_at = x })
        (sym (ap (λ (x : TaskRecord). x.lease_expires_at) e))
Write-frozen (attempts owner expires a b e m) h = cc
Write-frozen (retries c digest a b d f e m) h = cc

pub Write-Evolves :
    {limit n n' q : ℕ} {r r' : TaskRecord}
    → IsValid limit n q r
    → Write limit r r' n n'
    → Evolves r r'
Write-Evolves v w = record {
  identity = Write-SameIdentity w;
  version = (Write-numbers v w).0;
  attempt = (Write-numbers v w).1;
  failures = (Write-numbers v w).2;
  token = (Write-numbers v w).3;
  path = Write-Passes w;
  retry = Write-KeepsRetry w;
  bumped = Write-bumped w;
  frozen = Write-frozen w;
}
