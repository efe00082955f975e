-- ===== src/Channel/Advance.antt =====
-- How an update changes a subscription.
use xiaowei_agent.Channel.Contracts.{
  ProjectionState, state_equals, ProjectionSubscription, is_final, fields_are_consistent,
  ClaimProjectionCommand, ProjectionUpdateResult,
}
use xiaowei_agent.Channel.Projection.{
  has_live_claim, claimed_state, claim_projection, claim_matches, renew_projection_claim, released,
  record_initial_projection, schedule_task_recheck, is_deliverable, schedule_provider_retry,
  complete_projection, dead_letter_projection,
}
use xiaowei_agent.Channel.Store.{
  Mutation, mutated, renews_claim, records_initial, rechecks_task, retries_provider, completes,
  gives_up,
}
use xiaowei_agent.Contracts.Task.{is_set}
use xiaowei_agent.Prelude.{
  string_eq, nat_eq, ltb, if◌then◌else◌, ℕ, ◌≤◌, ◌≡◌, refl, ap, ◌∙◌, Bool, true, false, not, ◌||◌,
  arith,
}

-- where a projection may be after a state: a first delivery is never asked for again, and an end is kept
abbrev pub leads_to : ProjectionState → ProjectionState → Bool
leads_to ProjectionState.pending_initial _ = true
leads_to ProjectionState.completed ProjectionState.completed = true
leads_to ProjectionState.dead_letter ProjectionState.dead_letter = true
leads_to ProjectionState.waiting_terminal ProjectionState.pending_initial = false
leads_to ProjectionState.waiting_terminal _ = true
leads_to ProjectionState.delivering_terminal ProjectionState.pending_initial = false
leads_to ProjectionState.delivering_terminal _ = true
leads_to _ _ = false

leads_to_refl : (x : ProjectionState) → leads_to x x ≡ true
leads_to_refl ProjectionState.pending_initial = refl
leads_to_refl ProjectionState.waiting_terminal = refl
leads_to_refl ProjectionState.delivering_terminal = refl
leads_to_refl ProjectionState.completed = refl
leads_to_refl ProjectionState.dead_letter = refl

leads_to_trans :
    (x y z : ProjectionState) → leads_to x y ≡ true → leads_to y z ≡ true → leads_to x z ≡ true
leads_to_trans x y z h k = ground arith

-- A subscription keeps its identity, satisfies the validator, stays in the state graph, never has fewer
-- attempts or failures, and no longer changes once it is final.
pub record Advances (r t : ProjectionSubscription) : Type 0 where
  pub subscription_id : t.subscription_id ≡ r.subscription_id
  pub task_id : t.task_id ≡ r.task_id
  pub destination_kind : t.destination_kind ≡ r.destination_kind
  pub destination_ref : t.destination_ref ≡ r.destination_ref
  pub consistent : fields_are_consistent t ≡ true
  pub state : leads_to r.state t.state ≡ true
  pub attempts : r.attempt_number ≤ t.attempt_number
  pub failures : r.provider_failure_count ≤ t.provider_failure_count
  pub final : is_final r.state ≡ true → t ≡ r

pub Advances-refl : (r : ProjectionSubscription) → fields_are_consistent r ≡ true → Advances r r
Advances-refl r h = record {
  subscription_id = refl;
  task_id = refl;
  destination_kind = refl;
  destination_ref = refl;
  consistent = h;
  state = leads_to_refl r.state;
  attempts = omega arith;
  failures = omega arith;
  final = λ f. refl;
}

pub Advances-trans : {r t u : ProjectionSubscription} → Advances r t → Advances t u → Advances r u
Advances-trans {r} {t} {u} a b = record {
  subscription_id = b.subscription_id ∙ a.subscription_id;
  task_id = b.task_id ∙ a.task_id;
  destination_kind = b.destination_kind ∙ a.destination_kind;
  destination_ref = b.destination_ref ∙ a.destination_ref;
  consistent = b.consistent;
  state = leads_to_trans r.state t.state u.state a.state b.state;
  attempts = omega (arith, a.attempts, b.attempts);
  failures = omega (arith, a.failures, b.failures);
  final = λ f.
      let same = a.final f in
      b.final (ap (λ (x : ProjectionSubscription). is_final x.state) same ∙ f) ∙ same;
}

-- one change of the fields that updates write
changed :
    (r t : ProjectionSubscription)
    → t.subscription_id ≡ r.subscription_id
    → t.task_id ≡ r.task_id
    → t.destination_kind ≡ r.destination_kind
    → t.destination_ref ≡ r.destination_ref
    → fields_are_consistent t ≡ true
    → leads_to r.state t.state ≡ true
    → r.attempt_number ≤ t.attempt_number
    → r.provider_failure_count ≤ t.provider_failure_count
    → is_final r.state ≡ false
    → Advances r t
changed r t a b c d e f g h i = record {
  subscription_id = a;
  task_id = b;
  destination_kind = c;
  destination_ref = d;
  consistent = e;
  state = f;
  attempts = g;
  failures = h;
  final = λ j. absurd (cc (i, j));
}

-- an update under a guard
guarded-Advances :
    (guard : Bool) (r w : ProjectionSubscription)
    → fields_are_consistent r ≡ true
    → (guard ≡ false → Advances r w)
    → Advances r (
        ProjectionUpdateResult.winner (
          if guard
          then record { applied = false; winner = r }
          else record { applied = true; winner = w }))
guarded-Advances true r w h change = Advances-refl r h
guarded-Advances false r w h change = change refl

pub claim_projection-Advances :
    (r : ProjectionSubscription) (c : ClaimProjectionCommand) (now token : ℕ)
    → fields_are_consistent r ≡ true
    → Advances r (claim_projection r c now token).winner
unfolding claim_projection claimed_state fields_are_consistent
claim_projection-Advances r c now token h =
    guarded-Advances
      (is_final r.state
        || not (state_equals r.state c.expected_state)
        || ltb now r.next_attempt_at
        || has_live_claim r now)
      r _ h
      (λ e.
        changed r _ refl refl refl refl (ground (arith, e, h)) (ground (arith, e)) (omega arith)
          (omega arith) (ground (arith, e)))

pub mutated-Advances :
    (m : Mutation) (now : ℕ) (r : ProjectionSubscription)
    → fields_are_consistent r ≡ true
    → Advances r (mutated m now r).winner
unfolding mutated renew_projection_claim record_initial_projection schedule_task_recheck
    schedule_provider_retry complete_projection dead_letter_projection released is_deliverable
    fields_are_consistent claim_matches
mutated-Advances (renews_claim c) now r h =
    guarded-Advances (not (claim_matches r c.claim now) || not (is_set r.claim_expires_at)) r _ h
      (λ e.
        changed r _ refl refl refl refl (ground (arith, e, h))
          (ground (arith, e, leads_to_refl r.state)) (omega arith) (omega arith)
          (ground (arith, e)))
mutated-Advances (records_initial c) now r h =
    guarded-Advances
      (not (state_equals r.state ProjectionState.pending_initial)
        || not (claim_matches r c.claim now))
      r _ h
      (λ e.
        changed r _ refl refl refl refl (ground (arith, e, h))
          (ground (arith, e, leads_to_refl r.state)) (omega arith) (omega arith)
          (ground (arith, e)))
mutated-Advances (rechecks_task c) now r h =
    guarded-Advances
      (not (state_equals r.state ProjectionState.delivering_terminal)
        || not (claim_matches r c.claim now))
      r _ h
      (λ e.
        changed r _ refl refl refl refl (ground (arith, e, h))
          (ground (arith, e, leads_to_refl r.state)) (omega arith) (omega arith)
          (ground (arith, e)))
mutated-Advances (retries_provider c) now r h =
    guarded-Advances (not (is_deliverable r.state) || not (claim_matches r c.claim now)) r _ h (λ e.
      changed r _ refl refl refl refl (ground (arith, e, h))
        (ground (arith, e, leads_to_refl r.state)) (omega arith) (omega arith) (ground (arith, e)))
mutated-Advances (completes c) now r h =
    guarded-Advances (not (is_deliverable r.state) || not (claim_matches r c.claim now)) r _ h (λ e.
      changed r _ refl refl refl refl (ground (arith, e, h))
        (ground (arith, e, leads_to_refl r.state)) (omega arith) (omega arith) (ground (arith, e)))
mutated-Advances (gives_up c) now r h =
    guarded-Advances (not (is_deliverable r.state) || not (claim_matches r c.claim now)) r _ h (λ e.
      changed r _ refl refl refl refl (ground (arith, e, h))
        (ground (arith, e, leads_to_refl r.state)) (omega arith) (omega arith) (ground (arith, e)))
