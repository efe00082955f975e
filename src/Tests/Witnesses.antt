-- ===== src/Tests/Witnesses.antt =====
-- The theorems on the lifecycle at the runs of the scenario.
use xiaowei_agent.Contracts.Platform.{toy_platform}
use xiaowei_agent.Contracts.Task.{TaskRecord}
use xiaowei_agent.Decisions.Fencing.{classify_transition}
use xiaowei_agent.Dict.{lookup}
use xiaowei_agent.Guarantees.Fencing.{superseded_token_is_fenced}
use xiaowei_agent.Guarantees.Transitions.{
  Passed, classify_transition-Passed, was_applied, transition_single_winner,
  terminal_transition_refused,
}
use xiaowei_agent.Lifecycle.{Change, Reach, here}
use xiaowei_agent.Lifecycle.Evolution.{Evolves}
use xiaowei_agent.Lifecycle.History.{Reach-Evolves}
use xiaowei_agent.Lifecycle.Invariant.{Inv, Reach-Inv}
use xiaowei_agent.Lifecycle.Steps.{after-Change}
use xiaowei_agent.Prelude.{string_eq, ◌≡◌, refl, ◌↔◌, true, false, none, some, [], ◌∷◌, arith}
use xiaowei_agent.Store.Calls.{Call, after, run}
use xiaowei_agent.Store.Lease.{transition}
use xiaowei_agent.Store.State.{StoreState}
use xiaowei_agent.Tests.Scenario.{
  opened, creates, plans, cancels, begins, takes_over, store_after, created_task, canceled_task,
  attempted_task, taken_task, created_found, canceled_found, attempted_found, taken_found, one_call,
  created_Inv,
}

after-Change_example :
    Change 3 (store_after (creates ∷ [])) (after toy_platform 3 begins (store_after (creates ∷ [])))
after-Change_example =
    after-Change toy_platform 3 begins (store_after (creates ∷ [])) created_Inv.keyed tt

begins_path :
    Reach toy_platform 3 (store_after (creates ∷ [])) (store_after (creates ∷ begins ∷ []))
unfolding run
begins_path = one_call begins here tt

takes_over_path :
    Reach toy_platform 3
      (store_after (creates ∷ begins ∷ []))
      (store_after (creates ∷ begins ∷ takes_over ∷ []))
unfolding run
takes_over_path = one_call takes_over here tt

Reach-Inv_example : Inv 3 (store_after (creates ∷ begins ∷ []))
Reach-Inv_example = Reach-Inv toy_platform 3 (omega arith) created_Inv begins_path

Reach-Evolves_example :
    (r' : TaskRecord) × (lookup "t1" (store_after (creates ∷ begins ∷ [])).tasks ≡ some r')
    × Evolves created_task r'
Reach-Evolves_example =
    Reach-Evolves toy_platform 3 (omega arith) created_Inv begins_path "t1" created_task
      created_found

classify_transition-Passed_example :
    (classify_transition created_task plans 0 ≡ none) ↔ Passed created_task plans 0
classify_transition-Passed_example = classify_transition-Passed created_task plans 0

abbrev planned : StoreState
planned = (transition plans 0 (store_after (creates ∷ []))).1

plans_applied : was_applied (transition plans 0 (store_after (creates ∷ []))).0 ≡ true
unfolding opened
plans_applied = refl

transition_single_winner_example :
    (was_applied (transition cancels 2000 (after toy_platform 3 begins planned)).0 ≡ false)
    × ((transition cancels 2000 (after toy_platform 3 begins planned)).1
        ≡ after toy_platform 3 begins planned)
transition_single_winner_example =
    transition_single_winner toy_platform 3 plans cancels 0 2000 (omega arith) created_Inv refl refl
      plans_applied (one_call begins here tt)

canceled_path :
    Reach toy_platform 3
      (store_after (creates ∷ []))
      (store_after (creates ∷ Call.transition cancels 0 ∷ []))
unfolding run
canceled_path = one_call (Call.transition cancels 0) here tt

terminal_transition_refused_example :
    (was_applied (transition plans 5 (store_after (creates ∷ Call.transition cancels 0 ∷ []))).0
      ≡ false)
    × ((transition plans 5 (store_after (creates ∷ Call.transition cancels 0 ∷ []))).1
        ≡ store_after (creates ∷ Call.transition cancels 0 ∷ []))
terminal_transition_refused_example =
    terminal_transition_refused toy_platform 3 plans 5 canceled_task (omega arith)
      (Reach-Inv toy_platform 3 (omega arith) created_Inv canceled_path) canceled_found refl here

-- the first worker still renews the lease that it held
abbrev renews_late : Call
renews_late = Call.renew_lease "t1" "w1" 1 60 100000001 100000001

superseded_token_is_fenced_example :
    after toy_platform 3 renews_late (store_after (creates ∷ begins ∷ takes_over ∷ []))
    ≡ store_after (creates ∷ begins ∷ takes_over ∷ [])
superseded_token_is_fenced_example =
    superseded_token_is_fenced toy_platform 3 renews_late "t1" 1 attempted_task taken_task
      (omega arith) (Reach-Inv toy_platform 3 (omega arith) created_Inv begins_path) attempted_found
      refl takes_over_path taken_found (λ e. ground arith) here (refl, refl)
