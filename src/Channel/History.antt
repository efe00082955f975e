-- ===== src/Channel/History.antt =====
-- Subscriptions over any sequence of updates.
use xiaowei_agent.Channel.Advance.{Advances, claim_projection-Advances, mutated-Advances}
use xiaowei_agent.Channel.Contracts.{
  ProjectionSubscription, fields_are_consistent, ClaimProjectionCommand,
}
use xiaowei_agent.Channel.Projection.{
  claim_projection, renew_projection_claim, released, record_initial_projection,
  schedule_task_recheck, schedule_provider_retry, complete_projection, dead_letter_projection,
}
use xiaowei_agent.Channel.Store.{
  ChannelState, save, update_subscription, next_token, claim_projection_subscription, Mutation,
  claim_of, mutated, mutate, Update, updated, renews_claim, records_initial, rechecks_task,
  retries_provider, completes, gives_up, claims, mutates,
}
use xiaowei_agent.Dict.{lookup, insert}
use xiaowei_agent.Prelude.{
  string_eq, nat_eq, Bool-cases, Option-cases, ℕ, ◌+◌, ◌<◌, String, ◌≡◌, ◌⊎◌, inl, inr, true, none,
  some, arith,
}

-- Every subscription stands under its id, satisfies the validator, and has a token that was issued.
pub record ChannelInv (s : ChannelState) : Type 0 where
  pub keyed :
      (id : String) (r : ProjectionSubscription)
      → lookup id s.projection_subscriptions ≡ some r
      → r.subscription_id ≡ id
  pub consistent :
      (id : String) (r : ProjectionSubscription)
      → lookup id s.projection_subscriptions ≡ some r
      → fields_are_consistent r ≡ true
  pub issued :
      (id : String) (r : ProjectionSubscription) (token : ℕ)
      → lookup id s.projection_subscriptions ≡ some r
      → r.fencing_token ≡ some token
      → token < s.next_projection_fencing_token

-- The ways an update changes the state: not at all, or by one subscription that advances, with its own token
-- or the next one.
pub data ChannelChange (s t : ChannelState) : Type 0 where
  leaves : t ≡ s → ChannelChange s t
  keeps_token :
      (id : String) (r w : ProjectionSubscription)
      → lookup id s.projection_subscriptions ≡ some r
      → Advances r w
      → (w.fencing_token ≡ r.fencing_token) ⊎ (w.fencing_token ≡ none)
      → t ≡ record s {
        projection_subscriptions = insert w.subscription_id w s.projection_subscriptions;
      }
      → ChannelChange s t
  takes_token :
      (id : String) (r w : ProjectionSubscription)
      → lookup id s.projection_subscriptions ≡ some r
      → Advances r w
      → w.fencing_token ≡ some s.next_projection_fencing_token
      → t ≡ record s {
        projection_subscriptions = insert w.subscription_id w s.projection_subscriptions;
        next_projection_fencing_token = s.next_projection_fencing_token + 1;
      }
      → ChannelChange s t

claimed_token :
    (r : ProjectionSubscription) (c : ClaimProjectionCommand) (now token : ℕ)
    → (claim_projection r c now token).applied ≡ true
    → (claim_projection r c now token).winner.fencing_token ≡ some token
unfolding claim_projection
claimed_token r c now token h = ground arith

mutated_token :
    (m : Mutation) (now : ℕ) (r : ProjectionSubscription)
    → ((mutated m now r).winner.fencing_token ≡ r.fencing_token)
      ⊎ ((mutated m now r).winner.fencing_token ≡ none)
unfolding mutated renew_projection_claim record_initial_projection schedule_task_recheck
    schedule_provider_retry complete_projection dead_letter_projection released
mutated_token (renews_claim c) now r = ground arith
mutated_token (records_initial c) now r = ground arith
mutated_token (rechecks_task c) now r = ground arith
mutated_token (retries_provider c) now r = ground arith
mutated_token (completes c) now r = ground arith
mutated_token (gives_up c) now r = ground arith

pub updated-ChannelChange :
    (u : Update) (s : ChannelState) → ChannelInv s → ChannelChange s (updated u s)
unfolding updated claim_projection_subscription mutate update_subscription save next_token
updated-ChannelChange (claims c now) s v =
    elim (Option-cases (lookup c.subscription_id s.projection_subscriptions)) [
      | inl e ↦ leaves (ground (arith, e))
      | inr (r, e) ↦
          let result = claim_projection r c now s.next_projection_fencing_token in
          elim (Bool-cases result.applied) [
            | inl f ↦
                takes_token c.subscription_id r result.winner e
                  (claim_projection-Advances r c now s.next_projection_fencing_token
                    (v.consistent c.subscription_id r e))
                  (claimed_token r c now s.next_projection_fencing_token f) (ground (arith, e, f))
            | inr f ↦ leaves (ground (arith, e, f))
          ]
    ]
updated-ChannelChange (mutates m now) s v =
    elim (Option-cases (lookup (claim_of m).subscription_id s.projection_subscriptions)) [
      | inl e ↦ leaves (ground (arith, e))
      | inr (r, e) ↦
          let result = mutated m now r in
          elim (Bool-cases result.applied) [
            | inl f ↦
                keeps_token (claim_of m).subscription_id r result.winner e
                  (mutated-Advances m now r (v.consistent (claim_of m).subscription_id r e))
                  (mutated_token m now r) (ground (arith, e, f))
            | inr f ↦ leaves (ground (arith, e, f))
          ]
    ]
