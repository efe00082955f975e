-- ===== src/Tests/Channel.antt =====
-- The theorems on projections at the runs of a small scenario.
use xiaowei_agent.Channel.Advance.{Advances}
use xiaowei_agent.Channel.Contracts.{
  DestinationKind, ProjectionState, ProjectionSubscription, fields_are_consistent,
}
use xiaowei_agent.Channel.Fencing.{
  ChannelChange-ChannelInv, updated_all-Advances, superseded_claim_is_fenced, refusal,
}
use xiaowei_agent.Channel.History.{ChannelInv, updated-ChannelChange}
use xiaowei_agent.Channel.Projection.{
  has_live_claim, claimed_state, claim_projection, claim_matches, renew_projection_claim, released,
  record_initial_projection, schedule_task_recheck, is_deliverable, schedule_provider_retry,
  complete_projection, dead_letter_projection,
}
use xiaowei_agent.Channel.Store.{
  ChannelState, save, update_subscription, next_token, claim_projection_subscription, Mutation,
  mutated, mutate, Update, updated, updated_all, completes, claims, mutates,
}
use xiaowei_agent.Dict.{lookup, insert}
use xiaowei_agent.Prelude.{string_eq, nat_eq, ℕ, ◌≡◌, refl, none, some, [], ◌∷◌, arith, eq_iff}

abbrev waiting : ProjectionSubscription
waiting = record {
  subscription_id = "s1";
  task_id = "t1";
  destination_kind = DestinationKind.feishu_message_card;
  destination_ref = "chat";
  source_message_ref = none;
  state = ProjectionState.pending_initial;
  last_projected_task_version = none;
  attempt_number = 0;
  claim_owner = none;
  claim_expires_at = none;
  fencing_token = none;
  next_attempt_at = 5;
  provider_failure_count = 0;
  last_error_code = none;
  payload_digest = none;
}

abbrev start : ChannelState
start = record {
  projection_subscriptions = ("s1", waiting) ∷ [];
  next_projection_fencing_token = 1;
}

start-ChannelInv : ChannelInv start
unfolding lookup fields_are_consistent
start-ChannelInv = record {
  keyed = λ id r h. ground (arith, eq_iff "s1" id, h);
  consistent = λ id r h. ground (arith, h);
  issued = λ id r token h e. ground (arith, h, e);
}

abbrev first_claim : Update
first_claim =
    claims
      (record {
        subscription_id = "s1";
        claim_owner = "w1";
        ttl_seconds = 1;
        expected_state = ProjectionState.pending_initial;
      })
      10

abbrev second_claim : Update
second_claim =
    claims
      (record {
        subscription_id = "s1";
        claim_owner = "w2";
        ttl_seconds = 1;
        expected_state = ProjectionState.pending_initial;
      })
      2000000

abbrev completion : ℕ → Mutation
completion token = completes (record {
  claim = record {
    subscription_id = "s1";
    claim_owner = "w1";
    fencing_token = token;
    expected_state = ProjectionState.pending_initial;
  };
  source_message_ref = "message";
  task_version = 3;
  payload_digest = "digest";
})

unfoldable contested : ChannelState
unfolding updated_all updated claim_projection_subscription mutate mutated update_subscription save
    next_token claim_projection claimed_state claim_matches has_live_claim renew_projection_claim
    record_initial_projection schedule_task_recheck schedule_provider_retry complete_projection
    dead_letter_projection released is_deliverable lookup insert
contested = updated_all (first_claim ∷ second_claim ∷ []) start

contested-ChannelInv : ChannelInv contested
unfolding contested
contested-ChannelInv =
    ChannelChange-ChannelInv
      (ChannelChange-ChannelInv start-ChannelInv
        (updated-ChannelChange first_claim start start-ChannelInv))
      (updated-ChannelChange second_claim (updated first_claim start) (
        ChannelChange-ChannelInv start-ChannelInv
          (updated-ChannelChange first_claim start start-ChannelInv)))

updated_all-Advances_example :
    (x : ProjectionSubscription) × (lookup "s1"
        (updated_all (first_claim ∷ mutates (completion 1) 11 ∷ []) start).projection_subscriptions
      ≡ some x)
    × Advances waiting x
unfolding contested
updated_all-Advances_example =
    updated_all-Advances (first_claim ∷ mutates (completion 1) 11 ∷ []) start start-ChannelInv "s1"
      waiting refl

superseded_claim_is_fenced_example :
    let t = updated_all (mutates (completion 2) 13 ∷ []) contested in
    mutate (completion 1) 12 t ≡ (refusal (lookup "s1" t.projection_subscriptions), t)
unfolding contested
superseded_claim_is_fenced_example =
    superseded_claim_is_fenced (mutates (completion 2) 13 ∷ []) contested (completion 1) 12
      contested-ChannelInv (omega arith) (λ r h e. ground (arith, h, e))
