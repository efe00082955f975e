-- ===== src/Channel/Bound.antt =====
-- What it is for a binding to stand with its subscription.
use xiaowei_agent.Channel.Bind.{
  subscribed, source_key, bound_before, bind_known_task, bind_task, seen_binding, find_binding,
  get_binding,
}
use xiaowei_agent.Channel.Binding.{
  BindingState, refuses, subscription_matches_command, destination_key, new_subscription,
  same_subscription, create_subscription_locked, answers, Answer, ChannelBinding, BindTaskCommand,
  ChannelBindingLookup, binding_matches_command,
}
use xiaowei_agent.Channel.Contracts.{
  ProjectionState, state_equals, ProjectionSubscription, CreateProjectionSubscriptionCommand,
}
use xiaowei_agent.Contracts.Task.{TaskRecord}
use xiaowei_agent.Dict.{lookup, lookup-insert_self}
use xiaowei_agent.Prelude.{
  string_eq, nat_eq, pair_eq, refl, Option-cases, Bool-cases, ==_refl, String, ◌≡◌, true, some, inl,
  inr, Bool, ◌==◌, Option, none, arith,
}

-- the task has its subscription for the destination, and it agrees with the command
pub record IsSubscribed (command : CreateProjectionSubscriptionCommand) (s : BindingState)
    : Type 0 where
  pub task : TaskRecord
  pub subscription_id : String
  pub subscription : ProjectionSubscription
  pub has_task : lookup command.task_id s.tasks ≡ some task
  pub has_id :
      lookup (destination_key command) s.projection_subscription_ids_by_destination
      ≡ some subscription_id
  pub has_subscription : lookup subscription_id s.projection_subscriptions ≡ some subscription
  pub agrees : subscription_matches_command subscription command ≡ true

subscribed_again :
    (id : String) (command : CreateProjectionSubscriptionCommand) (s : BindingState)
    → IsSubscribed command s
    → create_subscription_locked id command s ≡ answers s
unfolding create_subscription_locked same_subscription
subscribed_again id command s h =
    rw (create_subscription_locked, h.has_task)
      (rw h.has_id (rw (same_subscription, h.has_subscription) (rw h.agrees refl)))

same_state_refl : (state : ProjectionState) → state_equals state state ≡ true
same_state_refl ProjectionState.pending_initial = refl
same_state_refl ProjectionState.waiting_terminal = refl
same_state_refl ProjectionState.delivering_terminal = refl
same_state_refl ProjectionState.completed = refl
same_state_refl ProjectionState.dead_letter = refl

new_subscription-agrees :
    (id : String) (command : CreateProjectionSubscriptionCommand)
    → subscription_matches_command (new_subscription id command) command ≡ true
unfolding subscription_matches_command
new_subscription-agrees id command = simp (==_refl, same_state_refl)

-- nothing but subscriptions has changed
pub record IsKept (s t : BindingState) : Type 0 where
  pub same_tasks : t.tasks ≡ s.tasks
  pub same_bindings : t.channel_bindings ≡ s.channel_bindings
  pub same_sources : t.channel_binding_ids_by_source ≡ s.channel_binding_ids_by_source
  pub same_task_ids : t.channel_binding_ids_by_task ≡ s.channel_binding_ids_by_task

keeps : (s : BindingState) → IsKept s s
keeps s = record {
  same_tasks = refl;
  same_bindings = refl;
  same_sources = refl;
  same_task_ids = refl;
}

-- what holds of an answer, when there is one
abbrev pub Answered {ℓ} : {A : Type ℓ} → (A → Type 0) → Answer A → Type 0
Answered P (answers a) = P a
Answered P (refuses e) = Bool

create-IsSubscribed :
    (id : String) (command : CreateProjectionSubscriptionCommand) (s : BindingState)
    → Answered (λ t. IsSubscribed command t × IsKept s t) (create_subscription_locked id command s)
unfolding create_subscription_locked same_subscription
create-IsSubscribed id command s = elim (Option-cases (lookup command.task_id s.tasks)) [
  | inl no_task ↦ rw (Answered, create_subscription_locked, no_task) true
  | inr (task, has_task) ↦
      rw (Answered, create_subscription_locked, has_task)
        elim (Option-cases
          (lookup (destination_key command) s.projection_subscription_ids_by_destination)) [
            | inl no_id ↦
                rw (Answered, no_id)
                  (
                    record {
                      task = task;
                      subscription_id = id;
                      subscription = new_subscription id command;
                      has_task = has_task;
                      has_id =
                          lookup-insert_self (destination_key command) id
                            s.projection_subscription_ids_by_destination;
                      has_subscription =
                          lookup-insert_self id (new_subscription id command)
                            s.projection_subscriptions;
                      agrees = new_subscription-agrees id command;
                    },
                    record {
                      same_tasks = refl;
                      same_bindings = refl;
                      same_sources = refl;
                      same_task_ids = refl;
                    },
                  )
            | inr (existing_id, has_id) ↦
                rw (Answered, has_id)
                  elim (Option-cases (lookup existing_id s.projection_subscriptions)) [
                    | inl no_subscription ↦ rw (Answered, same_subscription, no_subscription) true
                    | inr (existing, has_subscription) ↦
                        rw (Answered, same_subscription, has_subscription)
                          elim (Bool-cases (subscription_matches_command existing command)) [
                            | inl agrees ↦
                                rw (Answered, agrees)
                                  (
                                    record {
                                      task = task;
                                      subscription_id = existing_id;
                                      subscription = existing;
                                      has_task = has_task;
                                      has_id = has_id;
                                      has_subscription = has_subscription;
                                      agrees = agrees;
                                    },
                                    keeps s,
                                  )
                            | inr differs ↦ rw (Answered, differs) true
                          ]
                  ]
          ]
]

-- the projection of a command, when it has one
abbrev pub IsProjected : Option CreateProjectionSubscriptionCommand → BindingState → Type 0
IsProjected none s = s ≡ s
IsProjected (some command) s = IsSubscribed command s

pub subscribed-IsProjected :
    (id : String) (projection : Option CreateProjectionSubscriptionCommand) (s : BindingState)
    → Answered (λ t. IsProjected projection t × IsKept s t) (subscribed id projection s)
unfolding subscribed
subscribed-IsProjected id none s = (refl, keeps s)
subscribed-IsProjected id (some command) s = create-IsSubscribed id command s

projected_again :
    (id : String) (projection : Option CreateProjectionSubscriptionCommand) (s : BindingState)
    → IsProjected projection s
    → subscribed id projection s ≡ answers s
unfolding subscribed
projected_again id none s h = refl
projected_again id (some command) s h = subscribed_again id command s h

-- a command's binding stands, found by its source and by its task
pub record IsBound (command : BindTaskCommand) (binding : ChannelBinding) (s : BindingState)
    : Type 0 where
  pub task : TaskRecord
  pub id : String
  pub has_task : lookup command.task_id s.tasks ≡ some task
  pub same_tenant : (task.tenant_id == command.tenant_id) ≡ true
  pub same_environment : (task.environment_id == command.environment_id) ≡ true
  pub by_source : lookup (source_key command) s.channel_binding_ids_by_source ≡ some id
  pub by_task : lookup command.task_id s.channel_binding_ids_by_task ≡ some id
  pub stands : lookup id s.channel_bindings ≡ some binding
  pub agrees : binding_matches_command binding command ≡ true
  pub projected : IsProjected command.projection s

pub bound_again :
    (binding_id subscription_id : String) (command : BindTaskCommand) (binding : ChannelBinding)
    (s : BindingState)
    → IsBound command binding s
    → bind_task binding_id subscription_id command s ≡ answers (binding, s)
unfolding bind_task bind_known_task bound_before
bound_again binding_id subscription_id command binding s h =
    rw (bind_task, h.has_task)
      (rw (h.same_tenant, h.same_environment)
        (rw (bind_known_task, h.by_source)
          (rw (bound_before, h.stands)
            (rw (h.by_source, h.by_task)
              (rw (==_refl h.id, h.agrees)
                (rw (projected_again subscription_id command.projection s h.projected) refl))))))

abbrev pub lookup_of : BindTaskCommand → ChannelBindingLookup
lookup_of command = record {
  task_id = command.task_id;
  tenant_id = command.tenant_id;
  environment_id = command.environment_id;
}

pub bound-found :
    (command : BindTaskCommand) (binding : ChannelBinding) (s : BindingState)
    → IsBound command binding s
    → get_binding (lookup_of command) s ≡ answers binding
unfolding get_binding find_binding seen_binding binding_matches_command
bound-found command binding s h =
    let tenant : (binding.tenant_id == command.tenant_id) ≡ true = ground (arith, h.agrees) in
    let environment : (binding.environment_id == command.environment_id) ≡ true =
      ground (arith, h.agrees) in
    rw (get_binding, find_binding, h.by_task)
      (rw h.stands (rw (seen_binding, tenant, environment) refl))
