-- ===== src/Channel/Store.antt =====
-- The updates of subscriptions by `InMemoryChannelStore` (persistence/fake.py), and sequences of them. Each
-- runs under the lock; an update carries its read of the clock.
use xiaowei_agent.Channel.Contracts.{
  ProjectionSubscription, ClaimProjectionCommand, ProjectionClaimMutation,
  RecordInitialProjectionCommand, RenewProjectionClaimCommand, ScheduleTaskRecheckCommand,
  ScheduleProviderRetryCommand, CompleteProjectionCommand, DeadLetterProjectionCommand,
  ProjectionUpdateResult,
}
use xiaowei_agent.Channel.Projection.{
  claim_projection, renew_projection_claim, record_initial_projection, schedule_task_recheck,
  schedule_provider_retry, complete_projection, dead_letter_projection,
}
use xiaowei_agent.Dict.{Dict, lookup, insert}
use xiaowei_agent.Prelude.{
  string_eq, nat_eq, if◌then◌else◌, ℕ, ◌+◌, String, Option, none, some, List, [], ◌∷◌,
}

pub record ChannelState : Type 0 where
  pub projection_subscriptions : Dict String ProjectionSubscription
  pub next_projection_fencing_token : ℕ

-- `none` is ProjectionSubscriptionNotFoundError
abbrev pub ChannelResult : Type 0
ChannelResult = Option ProjectionUpdateResult × ChannelState

-- `_save`
unfoldable pub save : ProjectionUpdateResult → ChannelState → ChannelState
save result s =
    if result.applied
    then record s {
      projection_subscriptions =
          insert result.winner.subscription_id result.winner s.projection_subscriptions;
    }
    else s

-- `_require_subscription`, and the rest of an update
unfoldable pub update_subscription :
    String → (ProjectionSubscription → ProjectionUpdateResult) → ChannelState → ChannelResult
update_subscription subscription_id decide_ s =
    elim (lookup subscription_id s.projection_subscriptions) [
      | none ↦ (none, s)
      | some current ↦ (some (decide_ current), save (decide_ current) s)
    ]

-- `self._state.next_projection_fencing_token += 1`
unfoldable pub next_token : ProjectionUpdateResult → ChannelState → ChannelState
next_token result s =
    if result.applied
    then record s { next_projection_fencing_token = s.next_projection_fencing_token + 1 }
    else s

unfoldable pub claim_projection_subscription :
    ClaimProjectionCommand → ℕ → ChannelState → ChannelResult
claim_projection_subscription command now s =
    elim (lookup command.subscription_id s.projection_subscriptions) [
      | none ↦ (none, s)
      | some current ↦
          let result = claim_projection current command now s.next_projection_fencing_token in
          (some result, save result (next_token result s))
    ]

-- The updates by the holder of a claim.
pub data Mutation : Type 0 where
  renews_claim : RenewProjectionClaimCommand → Mutation
  records_initial : RecordInitialProjectionCommand → Mutation
  rechecks_task : ScheduleTaskRecheckCommand → Mutation
  retries_provider : ScheduleProviderRetryCommand → Mutation
  completes : CompleteProjectionCommand → Mutation
  gives_up : DeadLetterProjectionCommand → Mutation

abbrev pub claim_of : Mutation → ProjectionClaimMutation
claim_of (renews_claim c) = c.claim
claim_of (records_initial c) = c.claim
claim_of (rechecks_task c) = c.claim
claim_of (retries_provider c) = c.claim
claim_of (completes c) = c.claim
claim_of (gives_up c) = c.claim

unfoldable pub mutated : Mutation → ℕ → ProjectionSubscription → ProjectionUpdateResult
mutated (renews_claim c) now r = renew_projection_claim r c now
mutated (records_initial c) now r = record_initial_projection r c now
mutated (rechecks_task c) now r = schedule_task_recheck r c now
mutated (retries_provider c) now r = schedule_provider_retry r c now
mutated (completes c) now r = complete_projection r c now
mutated (gives_up c) now r = dead_letter_projection r c now

-- the six operations of the store on a claimed subscription
unfoldable pub mutate : Mutation → ℕ → ChannelState → ChannelResult
mutate m now s = update_subscription (claim_of m).subscription_id (mutated m now) s

pub data Update : Type 0 where
  claims : ClaimProjectionCommand → ℕ → Update
  mutates : Mutation → ℕ → Update

unfoldable pub updated : Update → ChannelState → ChannelState
updated (claims c now) s = (claim_projection_subscription c now s).1
updated (mutates m now) s = (mutate m now s).1

unfoldable pub updated_all : List Update → ChannelState → ChannelState
updated_all [] s = s
updated_all (u ∷ us) s = updated_all us (updated u s)
