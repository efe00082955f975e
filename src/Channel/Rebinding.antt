-- ===== src/Channel/Rebinding.antt =====
-- The binding of a task by bind_task, by every branch, and the retries of a command to bind.
use xiaowei_agent.Channel.Bind.{
  subscribed, source_key, new_binding, first_binding, bound_before, bind_known_task, bind_task,
  get_binding,
}
use xiaowei_agent.Channel.Binding.{
  BindTaskCommand, ChannelError, Answer, BindingState, same_option, binding_matches_command,
  answers, refuses, ChannelBinding, subscription_matches_command,
}
use xiaowei_agent.Channel.Bound.{
  IsKept, Answered, IsProjected, subscribed-IsProjected, IsBound, bound_again, lookup_of,
  bound-found,
}
use xiaowei_agent.Channel.Contracts.{CreateProjectionSubscriptionCommand}
use xiaowei_agent.Contracts.Task.{TaskRecord}
use xiaowei_agent.Dict.{lookup, insert, lookup-insert_self}
use xiaowei_agent.Prelude.{
  string_eq, nat_eq, pair_eq, Bool-cases, Option-cases, ◌==◌, ==_refl, String, ◌≡◌, refl, subst,
  ◌⊎◌, inl, inr, true, Option, none, some, false, arith, eq_iff, ℕ,
}

Answer-cases :
    {A : Type 0} (a : Answer A)
    → ((e : ChannelError) × (a ≡ refuses e)) ⊎ ((x : A) × (a ≡ answers x))
Answer-cases (refuses e) = inl (e, refl)
Answer-cases (answers x) = inr (x, refl)

answered_at :
    {A : Type 0} (P : A → Type 0) (a : Answer A) (x : A) → a ≡ answers x → Answered P a → P x
answered_at P a x e h = subst (λ b. Answered P b) e h

abbrev pub noted : String → BindTaskCommand → BindingState → BindingState
noted binding_id command t = record t {
  channel_bindings = insert binding_id (new_binding binding_id command) t.channel_bindings;
  channel_binding_ids_by_source =
      insert (source_key command) binding_id t.channel_binding_ids_by_source;
  channel_binding_ids_by_task = insert command.task_id binding_id t.channel_binding_ids_by_task;
}

IsProjected-noted :
    (binding_id : String) (command : BindTaskCommand) (t : BindingState)
    (projection : Option CreateProjectionSubscriptionCommand)
    → IsProjected projection t
    → IsProjected projection (noted binding_id command t)
IsProjected-noted binding_id command t none h = refl
IsProjected-noted binding_id command t (some wanted) h = record {
  task = h.task;
  subscription_id = h.subscription_id;
  subscription = h.subscription;
  has_task = h.has_task;
  has_id = h.has_id;
  has_subscription = h.has_subscription;
  agrees = h.agrees;
}

same_option_refl : (o : Option String) → same_option o o ≡ true
same_option_refl none = refl
same_option_refl (some x) = ==_refl x

new_binding-agrees :
    (id : String) (command : BindTaskCommand)
    → binding_matches_command (new_binding id command) command ≡ true
unfolding binding_matches_command
new_binding-agrees id command = simp (==_refl, same_option_refl)

module _ (binding_id subscription_id : String) (command : BindTaskCommand) (s : BindingState)
    (task : TaskRecord) (has_task : lookup command.task_id s.tasks ≡ some task)
    (same_tenant : (task.tenant_id == command.tenant_id) ≡ true)
    (same_environment : (task.environment_id == command.environment_id) ≡ true) where
  first_binding-IsBound :
      Answered (λ r. IsBound command r.0 r.1) (first_binding binding_id subscription_id command s)
  unfolding first_binding
  first_binding-IsBound = elim (Answer-cases (subscribed subscription_id command.projection s)) [
    | inl (e, h) ↦ rw (Answered, first_binding, h) true
    | inr (t, h) ↦
        let f =
          answered_at (λ t. IsProjected command.projection t × IsKept s t)
            (subscribed subscription_id command.projection s) t h
            (subscribed-IsProjected subscription_id command.projection s) in
        rw (Answered, first_binding, h)
          (record {
            task = task;
            id = binding_id;
            has_task = rw (f.1.same_tasks) has_task;
            same_tenant = same_tenant;
            same_environment = same_environment;
            by_source =
                lookup-insert_self (source_key command) binding_id t.channel_binding_ids_by_source;
            by_task = lookup-insert_self command.task_id binding_id t.channel_binding_ids_by_task;
            stands =
                lookup-insert_self binding_id (new_binding binding_id command) t.channel_bindings;
            agrees = new_binding-agrees binding_id command;
            projected = IsProjected-noted binding_id command t command.projection f.0;
          })
  ]

  -- both indexes hold the same identifier
  known_binding-IsBound :
      (id : String)
      → lookup (source_key command) s.channel_binding_ids_by_source ≡ some id
      → lookup command.task_id s.channel_binding_ids_by_task ≡ some id
      → Answered (λ r. IsBound command r.0 r.1) (bound_before id subscription_id command s)
  unfolding bound_before
  known_binding-IsBound id by_source by_task = elim (Option-cases (lookup id s.channel_bindings)) [
    | inl nothing ↦ rw (Answered, bound_before, nothing) true
    | inr (existing, stands) ↦
        rw (Answered, bound_before, stands)
          (rw (by_source, by_task)
            (rw (==_refl id) elim (Bool-cases (binding_matches_command existing command)) [
              | inr differs ↦ rw (Answered, differs) true
              | inl agrees ↦
                  rw (Answered, agrees)
                    elim (Answer-cases (subscribed subscription_id command.projection s)) [
                      | inl (e, h) ↦ rw (Answered, h) true
                      | inr (t, h) ↦
                          let f =
                            answered_at (λ t. IsProjected command.projection t × IsKept s t)
                              (subscribed subscription_id command.projection s) t h
                              (subscribed-IsProjected subscription_id command.projection s) in
                          rw (Answered, h)
                            (record {
                              task = task;
                              id = id;
                              has_task = rw (f.1.same_tasks) has_task;
                              same_tenant = same_tenant;
                              same_environment = same_environment;
                              by_source = rw (f.1.same_sources) by_source;
                              by_task = rw (f.1.same_task_ids) by_task;
                              stands = rw (f.1.same_bindings) stands;
                              agrees = agrees;
                              projected = f.0;
                            })
                    ]
            ]))
  ]

  -- the source and the task are bound, but not to each other
  conflicting :
      (id : String)
      → same_option
          (lookup (source_key command) s.channel_binding_ids_by_source)
          (lookup command.task_id s.channel_binding_ids_by_task)
        ≡ false
      → Answered (λ r. IsBound command r.0 r.1) (bound_before id subscription_id command s)
  unfolding bound_before
  conflicting id differ = elim (Option-cases (lookup id s.channel_bindings)) [
    | inl nothing ↦ rw (Answered, bound_before, nothing) true
    | inr (existing, stands) ↦ rw (Answered, bound_before, stands) (rw (Answered, differ) true)
  ]

  bind_known_task-IsBound :
      Answered (λ r. IsBound command r.0 r.1) (bind_known_task binding_id subscription_id command s)
  unfolding bind_known_task
  bind_known_task-IsBound =
      elim (Option-cases (lookup (source_key command) s.channel_binding_ids_by_source)) [
        | inl new_source ↦
            elim (Option-cases (lookup command.task_id s.channel_binding_ids_by_task)) [
              | inl new_task ↦
                  rw (Answered, bind_known_task, new_source)
                    (rw (Answered, new_task) first_binding-IsBound)
              | inr (id, known_task) ↦
                  rw (Answered, bind_known_task, new_source)
                    (rw (Answered, known_task)
                      (conflicting id (rw new_source (rw known_task refl))))
            ]
        | inr (id, known_source) ↦
            rw (Answered, bind_known_task, known_source)
              elim (Option-cases (lookup command.task_id s.channel_binding_ids_by_task)) [
                | inl new_task ↦ conflicting id (rw known_source (rw new_task refl))
                | inr (other, known_task) ↦ elim (Bool-cases (id == other)) [
                  | inl same ↦
                      known_binding-IsBound id known_source
                        (ground (arith, known_task, same, eq_iff id other))
                  | inr differ ↦ conflicting id (rw known_source (rw known_task differ))
                ]
              ]
      ]

bind_task-IsBound :
    (binding_id subscription_id : String) (command : BindTaskCommand) (s : BindingState)
    → Answered (λ r. IsBound command r.0 r.1) (bind_task binding_id subscription_id command s)
unfolding bind_task
bind_task-IsBound binding_id subscription_id command s =
    elim (Option-cases (lookup command.task_id s.tasks)) [
      | inl no_task ↦ rw (Answered, bind_task, no_task) true
      | inr (task, has_task) ↦
          rw (Answered, bind_task, has_task)
            elim (Bool-cases (task.tenant_id == command.tenant_id)) [
              | inr foreign ↦ rw (Answered, foreign) true
              | inl same_tenant ↦
                  rw same_tenant elim (Bool-cases (task.environment_id == command.environment_id)) [
                    | inr foreign ↦ rw (Answered, foreign) true
                    | inl same_environment ↦ rw same_environment (
                        bind_known_task-IsBound binding_id subscription_id command s task has_task
                          same_tenant same_environment)
                  ]
            ]
    ]

-- The same command at a retry, with the times of the retry.
abbrev pub later :
    ℕ → Option CreateProjectionSubscriptionCommand → Option CreateProjectionSubscriptionCommand
later now none = none
later now (some wanted) = some (record wanted { next_attempt_at = now })

abbrev pub retried : ℕ → BindTaskCommand → BindTaskCommand
retried now command = record command { created_at = now; projection = later now command.projection }

IsProjected-later :
    (now : ℕ) (projection : Option CreateProjectionSubscriptionCommand) (s : BindingState)
    → IsProjected projection s
    → IsProjected (later now projection) s
unfolding subscription_matches_command
IsProjected-later now none s h = refl
IsProjected-later now (some wanted) s h = record {
  task = h.task;
  subscription_id = h.subscription_id;
  subscription = h.subscription;
  has_task = h.has_task;
  has_id = h.has_id;
  has_subscription = h.has_subscription;
  agrees = h.agrees;
}

IsBound-retried :
    (now : ℕ) (command : BindTaskCommand) (binding : ChannelBinding) (s : BindingState)
    → IsBound command binding s
    → IsBound (retried now command) binding s
unfolding binding_matches_command
IsBound-retried now command binding s h = record {
  task = h.task;
  id = h.id;
  has_task = h.has_task;
  same_tenant = h.same_tenant;
  same_environment = h.same_environment;
  by_source = h.by_source;
  by_task = h.by_task;
  stands = h.stands;
  agrees = h.agrees;
  projected = IsProjected-later now command.projection s h.projected;
}

-- When bind_task returns a binding, get_binding finds that binding for the task and scope of the command, and
-- a retry of the command, at other times and with other new identifiers, returns it and changes nothing.
pub bind_task-again :
    (binding_id subscription_id : String) (command : BindTaskCommand) (s : BindingState)
    (binding : ChannelBinding) (t : BindingState) (now : ℕ) (new_id new_subscription_id : String)
    → bind_task binding_id subscription_id command s ≡ answers (binding, t)
    → (get_binding (lookup_of command) t ≡ answers binding)
      × (bind_task new_id new_subscription_id (retried now command) t ≡ answers (binding, t))
bind_task-again binding_id subscription_id command s binding t now new_id new_subscription_id e =
    let h =
      answered_at (λ r. IsBound command r.0 r.1) (bind_task binding_id subscription_id command s)
        (binding, t) e (bind_task-IsBound binding_id subscription_id command s) in
    (
      bound-found command binding t h,
      bound_again new_id new_subscription_id (retried now command) binding t
          (IsBound-retried now command binding t h),
    )
