-- ===== src/Index.antt =====
-- The index of tasks by idempotency key (`task_ids_by_key` of persistence/memory.py): an entry is added
-- for a key that has none, and never changed.
pub mod Creation
pub mod Refinement
use xiaowei_agent.Dict.{lookup, insert}
use xiaowei_agent.Prelude.{string_eq, nat_eq, list_eq, String, ◌≡◌, none, List}
use xiaowei_agent.Store.State.{StoreState}

-- What one call can do to the index.
pub data IndexChange (s t : StoreState) : Type 0 where
  holds : t.task_ids_by_key ≡ s.task_ids_by_key → IndexChange s t
  indexes :
      (scope : List String) (id : String)
      → lookup scope s.task_ids_by_key ≡ none
      → t.task_ids_by_key ≡ insert scope id s.task_ids_by_key
      → IndexChange s t
