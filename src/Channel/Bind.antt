-- ===== src/Channel/Bind.antt =====
-- The operations of `InMemoryChannelStore` (persistence/fake.py) that bind a task and find its binding. Each
-- runs under the lock; every raise comes before the first write.
use xiaowei_agent.Channel.Binding.{
  ChannelKind, kind_value, ChannelBinding, BindTaskCommand, ChannelBindingLookup, Answer,
  BindingState, same_option, binding_matches_command, create_subscription_locked, answers, refuses,
  task_not_found, binding_not_found, binding_conflict, key_error,
}
use xiaowei_agent.Channel.Contracts.{CreateProjectionSubscriptionCommand}
use xiaowei_agent.Dict.{lookup, insert}
use xiaowei_agent.Prelude.{
  string_eq, nat_eq, pair_eq, if◌then◌else◌, ◌==◌, String, Bool, true, false, not, ◌&&◌, ◌||◌,
  Option, none, some,
}

-- `if command.projection is not None: self._create_subscription_locked(command.projection)`
unfoldable pub subscribed :
    String → Option CreateProjectionSubscriptionCommand → BindingState → Answer BindingState
subscribed id none s = answers s
subscribed id (some command) s = create_subscription_locked id command s

-- the tuple of texts that a source is known by
abbrev pub source_key : BindTaskCommand → String × (String × (String × String))
source_key command = (
  command.tenant_id,
  (command.environment_id, (kind_value command.channel, command.source_event_ref)),
)

abbrev pub new_binding : String → BindTaskCommand → ChannelBinding
new_binding id command = record {
  binding_id = id;
  task_id = command.task_id;
  tenant_id = command.tenant_id;
  environment_id = command.environment_id;
  channel = command.channel;
  initiator_subject_ref = command.initiator_subject_ref;
  conversation_ref = command.conversation_ref;
  source_event_ref = command.source_event_ref;
  created_at = command.created_at;
}

-- `source_id if source_id is not None else task_binding_id`
abbrev pub first_id : Option String → Option String → Option String
first_id none other = other
first_id (some id) other = some id

unfoldable pub first_binding :
    String → String → BindTaskCommand → BindingState → Answer (ChannelBinding × BindingState)
first_binding binding_id subscription_id command s =
    elim (subscribed subscription_id command.projection s) [
      | refuses e ↦ refuses e
      | answers t ↦ answers (
        new_binding binding_id command,
        record t {
          channel_bindings = insert binding_id (new_binding binding_id command) t.channel_bindings;
          channel_binding_ids_by_source =
              insert (source_key command) binding_id t.channel_binding_ids_by_source;
          channel_binding_ids_by_task =
              insert command.task_id binding_id t.channel_binding_ids_by_task;
        },
      )
    ]

-- the source or the task is bound already
unfoldable pub bound_before :
    String → String → BindTaskCommand → BindingState → Answer (ChannelBinding × BindingState)
bound_before existing_id subscription_id command s = elim (lookup existing_id s.channel_bindings) [
  | none ↦ refuses key_error
  | some existing ↦
      if not (
          same_option (lookup (source_key command) s.channel_binding_ids_by_source)
            (lookup command.task_id s.channel_binding_ids_by_task))
        || not (binding_matches_command existing command)
      then refuses binding_conflict
      else elim (subscribed subscription_id command.projection s) [
        | refuses e ↦ refuses e
        | answers t ↦ answers (existing, t)
      ]
]

unfoldable pub bind_known_task :
    String → String → BindTaskCommand → BindingState → Answer (ChannelBinding × BindingState)
bind_known_task binding_id subscription_id command s =
    elim (first_id (lookup (source_key command) s.channel_binding_ids_by_source)
      (lookup command.task_id s.channel_binding_ids_by_task)) [
        | none ↦ first_binding binding_id subscription_id command s
        | some existing_id ↦ bound_before existing_id subscription_id command s
      ]

unfoldable pub bind_task :
    String → String → BindTaskCommand → BindingState → Answer (ChannelBinding × BindingState)
bind_task binding_id subscription_id command s = elim (lookup command.task_id s.tasks) [
  | none ↦ refuses task_not_found
  | some task ↦
      if not (task.tenant_id == command.tenant_id)
        || not (task.environment_id == command.environment_id)
      then refuses task_not_found
      else bind_known_task binding_id subscription_id command s
]

abbrev pub is_group : ChannelKind → Bool
is_group ChannelKind.feishu_group = true
is_group _ = false

-- the binding of the task that a lookup may see; a group binding is asked for with `group_only`
unfoldable pub seen_binding : Bool → ChannelBindingLookup → ChannelBinding → Answer ChannelBinding
seen_binding group_only query binding =
    if not (binding.tenant_id == query.tenant_id)
      || not (binding.environment_id == query.environment_id)
      || group_only && not (is_group binding.channel)
    then refuses binding_not_found
    else answers binding

unfoldable pub find_binding : Bool → ChannelBindingLookup → BindingState → Answer ChannelBinding
find_binding group_only query s = elim (lookup query.task_id s.channel_binding_ids_by_task) [
  | none ↦ refuses binding_not_found
  | some binding_id ↦ elim (lookup binding_id s.channel_bindings) [
    | none ↦ refuses key_error
    | some binding ↦ seen_binding group_only query binding
  ]
]

unfoldable pub get_binding : ChannelBindingLookup → BindingState → Answer ChannelBinding
get_binding query s = find_binding false query s

-- GroupBindingLookup has the same fields
unfoldable pub get_group_binding : ChannelBindingLookup → BindingState → Answer ChannelBinding
get_group_binding query s = find_binding true query s
