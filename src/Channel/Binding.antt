-- ===== src/Channel/Binding.antt =====
-- The bindings of tasks to a chat channel: their contracts and comparisons (persistence/channel.py), and the
-- creation of a subscription (`InMemoryChannelStore` of persistence/fake.py). A new identifier of
-- `uuid.uuid4` is an argument. Every raise comes before the first write.
use xiaowei_agent.Channel.Contracts.{
  DestinationKind, state_equals, ProjectionSubscription, CreateProjectionSubscriptionCommand,
}
use xiaowei_agent.Contracts.Task.{TaskRecord, is_set}
use xiaowei_agent.Dict.{Dict, lookup, insert}
use xiaowei_agent.Prelude.{
  string_eq, nat_eq, pair_eq, if◌then◌else◌, ◌==◌, ℕ, String, Bool, true, false, not, ◌&&◌, ◌||◌,
  Option, none, some,
}

pub data ChannelKind : Type 0 where
  feishu_private feishu_group web : ChannelKind

-- `ChannelKind.value`
abbrev pub kind_value : ChannelKind → String
kind_value ChannelKind.feishu_private = "feishu_private"
kind_value ChannelKind.feishu_group = "feishu_group"
kind_value ChannelKind.web = "web"

-- `DestinationKind.value`
abbrev pub destination_value : DestinationKind → String
destination_value DestinationKind.feishu_message_card = "feishu_message_card"
destination_value DestinationKind.feishu_private_notice = "feishu_private_notice"

pub record ChannelBinding : Type 0 where
  pub binding_id : String
  pub task_id : String
  pub tenant_id : String
  pub environment_id : String
  pub channel : ChannelKind
  pub initiator_subject_ref : String
  pub conversation_ref : Option String
  pub source_event_ref : String
  pub created_at : ℕ

pub record BindTaskCommand : Type 0 where
  pub task_id : String
  pub tenant_id : String
  pub environment_id : String
  pub channel : ChannelKind
  pub initiator_subject_ref : String
  pub conversation_ref : Option String
  pub source_event_ref : String
  pub created_at : ℕ
  pub projection : Option CreateProjectionSubscriptionCommand

pub record ChannelBindingLookup : Type 0 where
  pub task_id : String
  pub tenant_id : String
  pub environment_id : String

-- What an operation raises; `key_error` is Python's, of a dictionary without the key.
pub data ChannelError : Type 0 where
  task_not_found binding_not_found binding_conflict subscription_conflict key_error : ChannelError

pub data Answer {ℓ} (A : Type ℓ) : Type ℓ where
  answers : A → Answer A
  refuses : ChannelError → Answer A

pub record BindingState : Type 0 where
  pub tasks : Dict String TaskRecord
  pub projection_subscriptions : Dict String ProjectionSubscription
  pub projection_subscription_ids_by_destination : Dict (String × (String × String)) String
  pub channel_bindings : Dict String ChannelBinding
  pub channel_binding_ids_by_source : Dict (String × (String × (String × String))) String
  pub channel_binding_ids_by_task : Dict String String

abbrev pub same_option : Option String → Option String → Bool
same_option none none = true
same_option (some x) (some y) = x == y
same_option _ _ = false

unfoldable pub binding_matches_command : ChannelBinding → BindTaskCommand → Bool
binding_matches_command binding command =
    binding.task_id == command.task_id
    && binding.tenant_id == command.tenant_id
    && binding.environment_id == command.environment_id
    && kind_value binding.channel == kind_value command.channel
    && binding.initiator_subject_ref == command.initiator_subject_ref
    && same_option binding.conversation_ref command.conversation_ref
    && binding.source_event_ref == command.source_event_ref

unfoldable pub subscription_matches_command :
    ProjectionSubscription → CreateProjectionSubscriptionCommand → Bool
subscription_matches_command subscription command =
    let identity_matches =
      subscription.task_id == command.task_id
      && destination_value subscription.destination_kind
        == destination_value command.destination_kind
      && subscription.destination_ref == command.destination_ref in
    let untouched =
      subscription.attempt_number == 0
      && not (is_set subscription.last_projected_task_version)
      && subscription.provider_failure_count == 0 in
    identity_matches && (not untouched || state_equals subscription.state command.initial_state)

abbrev pub destination_key : CreateProjectionSubscriptionCommand → String × (String × String)
destination_key command =
    (command.task_id, (destination_value command.destination_kind, command.destination_ref))

abbrev pub new_subscription : String → CreateProjectionSubscriptionCommand → ProjectionSubscription
new_subscription id command = record {
  subscription_id = id;
  task_id = command.task_id;
  destination_kind = command.destination_kind;
  destination_ref = command.destination_ref;
  source_message_ref = none;
  state = command.initial_state;
  last_projected_task_version = none;
  attempt_number = 0;
  claim_owner = none;
  claim_expires_at = none;
  fencing_token = none;
  next_attempt_at = command.next_attempt_at;
  provider_failure_count = 0;
  last_error_code = none;
  payload_digest = none;
}

-- a subscription with the same destination, when it agrees with the command
unfoldable pub same_subscription :
    String → CreateProjectionSubscriptionCommand → BindingState → Answer BindingState
same_subscription existing_id command s = elim (lookup existing_id s.projection_subscriptions) [
  | none ↦ refuses key_error
  | some existing ↦
      if subscription_matches_command existing command
      then answers s
      else refuses subscription_conflict
]

-- The state that `_create_subscription_locked` leaves; its callers drop the subscription it returns.
unfoldable pub create_subscription_locked :
    String → CreateProjectionSubscriptionCommand → BindingState → Answer BindingState
create_subscription_locked id command s = elim (lookup command.task_id s.tasks) [
  | none ↦ refuses task_not_found
  | some task ↦
      elim (lookup (destination_key command) s.projection_subscription_ids_by_destination) [
        | some existing_id ↦ same_subscription existing_id command s
        | none ↦ answers (record s {
          projection_subscriptions =
              insert id (new_subscription id command) s.projection_subscriptions;
          projection_subscription_ids_by_destination =
              insert (destination_key command) id s.projection_subscription_ids_by_destination;
        })
      ]
]
