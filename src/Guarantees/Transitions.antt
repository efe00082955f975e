-- ===== src/Guarantees/Transitions.antt =====
-- `transition` as a compare-and-swap on the version of a record.
use xiaowei_agent.Contracts.Commands.{Result, TransitionCommand, ok, task_not_found, err}
use xiaowei_agent.Contracts.Enums.{TransitionRejection, is_terminal, allowed_transition}
use xiaowei_agent.Contracts.Platform.{Platform}
use xiaowei_agent.Contracts.Task.{TaskRecord, TransitionResult}
use xiaowei_agent.Decisions.Fencing.{check_fencing, classify_transition, apply_transition}
use xiaowei_agent.Dict.{lookup, insert, lookup-insert_self}
use xiaowei_agent.Lifecycle.{Reach}
use xiaowei_agent.Lifecycle.Evolution.{found_once}
use xiaowei_agent.Lifecycle.History.{Reach-Evolves}
use xiaowei_agent.Lifecycle.Invariant.{Inv, Change-Inv}
use xiaowei_agent.Lifecycle.Refinement.{transition-Change}
use xiaowei_agent.Prelude.{
  string_eq, nat_eq, Option-cases, ℕ, ◌≡◌, subst, ◌↔◌, inl, inr, Bool, true, false, none, some,
  arith, ◌<◌, refl, sym, ap,
}
use xiaowei_agent.Store.Lease.{rejected, transition}
use xiaowei_agent.Store.State.{StoreState, append_all, with_task, StoreResult}

-- The ways a transition can go.
pub data Outcome (c : TransitionCommand) (now : ℕ) (s : StoreState) : Type 0 where
  missing :
      lookup c.task_id s.tasks ≡ none
      → transition c now s ≡ (err (task_not_found c.task_id), s)
      → Outcome c now s
  refuses :
      (r : TaskRecord) (x : TransitionRejection)
      → lookup c.task_id s.tasks ≡ some r
      → classify_transition r c now ≡ some x
      → transition c now s ≡ (ok (rejected r x), s)
      → Outcome c now s
  applies :
      (r : TaskRecord)
      → lookup c.task_id s.tasks ≡ some r
      → classify_transition r c now ≡ none
      → transition c now s ≡ (
        ok (record { applied = true; winner = apply_transition r c; rejection = none }),
        record s {
          tasks = insert c.task_id (apply_transition r c) s.tasks;
          audit_events = append_all s.audit_events c.task_id c.audit_events;
        },
      )
      → Outcome c now s

pub transition-Outcome : (c : TransitionCommand) (now : ℕ) (s : StoreState) → Outcome c now s
unfolding transition
transition-Outcome c now s = elim (Option-cases (lookup c.task_id s.tasks)) [
  | inl e ↦ missing e (rw (e, with_task))
  | inr (r, e) ↦ elim (Option-cases (classify_transition r c now)) [
    | inl p ↦ applies r e p (rw (e, with_task) (rw p))
    | inr (x, p) ↦ refuses r x e p (rw (e, with_task) (rw p))
  ]
]

-- What a passed classification says of the record.
pub record Passed (r : TaskRecord) (c : TransitionCommand) (now : ℕ) : Type 0 where
  pub open_ : is_terminal r.status ≡ false
  pub fencing : check_fencing r c.fencing_token now ≡ none
  pub version : r.version ≡ c.expected_version
  pub legal : allowed_transition r.status c.to_status ≡ true

-- A transition is let through exactly when the record is not terminal, passes the fencing check for the
-- command's token, has the expected version, and may go to the status asked for.
pub classify_transition-Passed :
    (r : TaskRecord) (c : TransitionCommand) (now : ℕ)
    → (classify_transition r c now ≡ none) ↔ Passed r c now
unfolding classify_transition
classify_transition-Passed r c now = (λ h. ground arith, λ h. ground arith)

-- the command was carried out
abbrev pub was_applied : Result TransitionResult → Bool
was_applied (ok r) = r.applied
was_applied (err e) = false

pub applied_record :
    (c : TransitionCommand) (now : ℕ) (s : StoreState)
    → was_applied (transition c now s).0 ≡ true
    → (r : TaskRecord) × Passed r c now
      × (lookup c.task_id (transition c now s).1.tasks ≡ some (apply_transition r c))
applied_record c now s h = elim (transition-Outcome c now s) [
  | missing e p ↦ absurd (cc (ap (λ (x : StoreResult TransitionResult). was_applied x.0) p))
  | refuses r x e q p ↦ absurd (cc (ap (λ (x : StoreResult TransitionResult). was_applied x.0) p))
  | applies r e q p ↦ (
    r,
    (classify_transition-Passed r c now).0 q,
    rw p (lookup-insert_self c.task_id (apply_transition r c) s.tasks),
  )
]

-- a command that does not pass is refused, and changes nothing
pub refused_unchanged :
    (c : TransitionCommand) (now : ℕ) (s : StoreState) (r : TaskRecord)
    → lookup c.task_id s.tasks ≡ some r
    → ¬ Passed r c now
    → (was_applied (transition c now s).0 ≡ false) × ((transition c now s).1 ≡ s)
refused_unchanged c now s r found fails = elim (transition-Outcome c now s) [
  | missing e p ↦ absurd (cc)
  | refuses r' x e q p ↦ (
    ap (λ (x : StoreResult TransitionResult). was_applied x.0) p,
    ap (λ (x : StoreResult TransitionResult). x.1) p,
  )
  | applies r' e q p ↦ absurd (
      fails (
        subst (λ x. Passed x c now) (found_once s.tasks e found refl)
          ((classify_transition-Passed r' c now).0 q)))
]

module _ (p : Platform) (limit : ℕ) where
  -- Of two transitions of a task that expect the same version, at most one is carried out: after one
  -- is, in every state that further calls lead to, the other is refused and changes nothing.
  pub transition_single_winner :
      (c d : TransitionCommand) (now later : ℕ) {s u : StoreState}
      → 0 < limit
      → Inv limit s
      → d.task_id ≡ c.task_id
      → d.expected_version ≡ c.expected_version
      → was_applied (transition c now s).0 ≡ true
      → Reach p limit (transition c now s).1 u
      → (was_applied (transition d later u).0 ≡ false) × ((transition d later u).1 ≡ u)
  transition_single_winner c d now later {s} {u} pos v same_task same_version won path =
      let (r, passed, found) = applied_record c now s won in
      let w = Change-Inv pos v (transition-Change limit c now s) in
      let (r', found', evolved) =
        Reach-Evolves p limit pos w path c.task_id (apply_transition r c) found in
      refused_unchanged d later u r'
        (subst (λ i. lookup i u.tasks ≡ some r') (sym same_task) found')
        (λ q. omega (arith, passed.version, q.version, evolved.version))

  -- Once a task is terminal, no calls ever apply a transition to it: each is refused and changes nothing.
  pub terminal_transition_refused :
      (d : TransitionCommand) (later : ℕ) {s u : StoreState} (r : TaskRecord)
      → 0 < limit
      → Inv limit s
      → lookup d.task_id s.tasks ≡ some r
      → is_terminal r.status ≡ true
      → Reach p limit s u
      → (was_applied (transition d later u).0 ≡ false) × ((transition d later u).1 ≡ u)
  terminal_transition_refused d later {s} {u} r pos v found ended path =
      let (r', found', evolved) = Reach-Evolves p limit pos v path d.task_id r found in
      refused_unchanged d later u r' found' (λ q.
        cc (q.open_, ap (λ (x : TaskRecord). is_terminal x.status) (evolved.frozen ended), ended))
