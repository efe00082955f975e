-- ===== src/Guarantees/Listings.antt =====
-- What the lists of the task store show: the first of a sorted selection, and nothing else.
use mathlib.Core.List.{Memᴰ}
use xiaowei_agent.Contracts.Commands.{Result, DispatchQuery, ok, err}
use xiaowei_agent.Contracts.Task.{TaskRecord, is_set, lease_fields_are_consistent}
use xiaowei_agent.Decisions.Lease.{is_dispatchable, is_stale_lease}
use xiaowei_agent.Dict.Values.{values}
use xiaowei_agent.Prelude.{
  string_eq, nat_eq, keep_if, IsFirst, Decides, sorted-IsFirst, ℕ, ◌≤◌, String, ◌≡◌, refl, true,
  false, List, [], ◌∷◌, arith,
}
use xiaowei_agent.Store.Read.{
  key_lt, is_dispatched_before, list_dispatchable_tasks, or_zero, expires_before, all_leased,
  list_stale_leases,
}
use xiaowei_agent.Store.State.{StoreState}

-- the order of sequence numbers
abbrev pub IsOlder : TaskRecord → TaskRecord → Type 0
IsOlder a b = a.created_seq ≤ b.created_seq

pub key_lt_le : (n m : ℕ) (a b : String) → key_lt (n, a) (m, b) ≡ true → n ≤ m
key_lt_le n m a b h = ground arith

pub key_lt_ge : (n m : ℕ) (a b : String) → key_lt (n, a) (m, b) ≡ false → m ≤ n
key_lt_ge n m a b h = ground arith

dispatch_order : Decides is_dispatched_before IsOlder
dispatch_order = record {
  before = λ x y h. key_lt_le y.created_seq x.created_seq y.task_id x.task_id h;
  otherwise = λ x y h. key_lt_ge y.created_seq x.created_seq y.task_id x.task_id h;
  trans = λ x y z a b. omega arith;
}

-- The dispatch list is fair: it holds at most `limit` tasks of the store, all dispatchable at that time,
-- oldest first; a dispatchable task that is not on it finds the list full of tasks that are no
-- younger.
pub list_dispatchable_tasks-IsFirst :
    (query : DispatchQuery) (now : ℕ) (s : StoreState)
    → IsFirst
        (λ r. is_dispatchable r query now)
        IsOlder
        query.limit
        (values s.tasks)
        (list_dispatchable_tasks query now s)
unfolding list_dispatchable_tasks
list_dispatchable_tasks-IsFirst query now s =
    sorted-IsFirst (λ r. is_dispatchable r query now) is_dispatched_before IsOlder query.limit
      (values s.tasks) dispatch_order

abbrev expiry_of : TaskRecord → ℕ
expiry_of r = or_zero r.lease_expires_at

expiry_order : Decides expires_before λ a b. expiry_of a ≤ expiry_of b
expiry_order = record {
  before = λ x y h. key_lt_le (expiry_of y) (expiry_of x) y.task_id x.task_id h;
  otherwise = λ x y h. key_lt_ge (expiry_of y) (expiry_of x) y.task_id x.task_id h;
  trans = λ x y z a b. omega arith;
}

-- a list of records, or the error
abbrev pub Answers : (List TaskRecord → Type 0) → Result (List TaskRecord) → Type 0
Answers P (ok xs) = P xs
Answers P (err e) = ⊥

stale_has_expiry :
    (r : TaskRecord) (now : ℕ)
    → lease_fields_are_consistent r ≡ true
    → is_stale_lease r now ≡ true
    → is_set r.lease_expires_at ≡ true
unfolding is_stale_lease
stale_has_expiry r now v h = ground arith

all_stale_leased :
    (now : ℕ) (rs : List TaskRecord)
    → ((r : TaskRecord) → Memᴰ r rs → lease_fields_are_consistent r ≡ true)
    → all_leased (keep_if (λ r. is_stale_lease r now) rs) ≡ true
all_stale_leased now [] v = refl
all_stale_leased now (r ∷ rs) v =
    let rest = all_stale_leased now rs (λ q m. v q (Memᴰ.tail m)) in
    ground (arith, rest, stale_has_expiry r now (v r (Memᴰ.head refl)))

-- Where the records of the store have consistent lease fields, the list of stale leases never raises: it
-- holds at most `limit` tasks of the store, all with a stale lease at that time, the longest expired
-- first; a stale one that is not on it finds the list full of ones that expired no later.
pub list_stale_leases-IsFirst :
    (limit now : ℕ) (s : StoreState)
    → ((r : TaskRecord) → Memᴰ r (values s.tasks) → lease_fields_are_consistent r ≡ true)
    → Answers
        (IsFirst
          (λ r. is_stale_lease r now)
          (λ a b. expiry_of a ≤ expiry_of b)
          limit
          (values s.tasks))
        (list_stale_leases limit now s)
unfolding list_stale_leases
list_stale_leases-IsFirst limit now s v = rw (all_stale_leased now (values s.tasks) v) (
    sorted-IsFirst (λ r. is_stale_lease r now) expires_before (λ a b. expiry_of a ≤ expiry_of b)
      limit (values s.tasks) expiry_order)
