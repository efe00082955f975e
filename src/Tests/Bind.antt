-- ===== src/Tests/Bind.antt =====
-- The theorem on bindings at the binding of a task of a small state.
use xiaowei_agent.Channel.Bind.{
  subscribed, new_binding, first_binding, bound_before, bind_known_task, bind_task, seen_binding,
  find_binding, get_binding, get_group_binding,
}
use xiaowei_agent.Channel.Binding.{
  ChannelKind, BindTaskCommand, BindingState, destination_key, new_subscription,
  create_subscription_locked, answers, refuses, binding_conflict,
}
use xiaowei_agent.Channel.Bound.{lookup_of}
use xiaowei_agent.Channel.Contracts.{
  DestinationKind, ProjectionState, CreateProjectionSubscriptionCommand,
}
use xiaowei_agent.Channel.Rebinding.{noted, retried, bind_task-again}
use xiaowei_agent.Contracts.Enums.{TaskStatus}
use xiaowei_agent.Contracts.Task.{TaskRecord}
use xiaowei_agent.Dict.{lookup, insert}
use xiaowei_agent.Prelude.{string_eq, nat_eq, pair_eq, ◌≡◌, refl, none, some, [], ◌∷◌}

abbrev task : TaskRecord
task = record {
  task_id = "t1";
  tenant_id = "acme";
  environment_id = "prod";
  actor = "ann";
  idempotency_key = "k1";
  request_digest = "d1";
  status = TaskStatus.running;
  version = 1;
  created_seq = 1;
  attempt_number = 0;
  task_failure_count = 0;
  next_attempt_at = none;
  retry_scheduled_by_attempt = none;
  retry_command_digest = none;
  lease_owner = none;
  lease_expires_at = none;
  fencing_token = none;
  terminal_reason = none;
}

abbrev unbound : BindingState
unbound = record {
  tasks = ("t1", task) ∷ [];
  projection_subscriptions = [];
  projection_subscription_ids_by_destination = [];
  channel_bindings = [];
  channel_binding_ids_by_source = [];
  channel_binding_ids_by_task = [];
}

abbrev card : CreateProjectionSubscriptionCommand
card = record {
  task_id = "t1";
  destination_kind = DestinationKind.feishu_message_card;
  destination_ref = "chat";
  initial_state = ProjectionState.pending_initial;
  next_attempt_at = 5;
}

abbrev from_group : BindTaskCommand
from_group = record {
  task_id = "t1";
  tenant_id = "acme";
  environment_id = "prod";
  channel = ChannelKind.feishu_group;
  initiator_subject_ref = "ann";
  conversation_ref = some "chat";
  source_event_ref = "event";
  created_at = 4;
  projection = some card;
}

abbrev bound_state : BindingState
bound_state = noted "b1" from_group (record unbound {
  projection_subscriptions = ("s1", new_subscription "s1" card) ∷ [];
  projection_subscription_ids_by_destination = (destination_key card, "s1") ∷ [];
})

binds_once :
    bind_task "b1" "s1" from_group unbound ≡ answers (new_binding "b1" from_group, bound_state)
unfolding bind_task bind_known_task first_binding subscribed create_subscription_locked lookup
    insert
binds_once = refl

-- another source for the same task is refused
binds_other_source :
    bind_task "b2" "s2" (record from_group { source_event_ref = "other" }) bound_state
    ≡ refuses binding_conflict
unfolding bind_task bind_known_task bound_before lookup insert
binds_other_source = refl

-- a group binding is found as such
finds_group :
    get_group_binding (lookup_of from_group) bound_state ≡ answers (new_binding "b1" from_group)
unfolding get_group_binding find_binding seen_binding lookup insert
finds_group = refl

bind_task-again_example :
    (get_binding (lookup_of from_group) bound_state ≡ answers (new_binding "b1" from_group))
    × (bind_task "b9" "s9" (retried 7 from_group) bound_state
        ≡ answers (new_binding "b1" from_group, bound_state))
bind_task-again_example =
    bind_task-again "b1" "s1" from_group unbound (new_binding "b1" from_group) bound_state 7 "b9"
      "s9" binds_once
