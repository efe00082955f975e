-- ===== src/Guarantees/Pages.antt =====
-- What a page of tasks shows.
use mathlib.Core.List.{Memᴰ}
use xiaowei_agent.Contracts.Commands.{Result, ok, err}
use xiaowei_agent.Contracts.Platform.{Platform}
use xiaowei_agent.Contracts.Task.{TaskRecord, StoredTaskRead, StoredTaskPage, TaskPageQuery}
use xiaowei_agent.Dict.Values.{values}
use xiaowei_agent.Guarantees.Listings.{key_lt_le, key_lt_ge}
use xiaowei_agent.Prelude.{
  string_eq, nat_eq, Decides, ◌≤◌, ◌≡◌, refl, sym, ap, ◌∙◌, List, [], ◌∷◌, map, arith, ltb,
  if◌then◌else◌, length, take, IsFirst, take_prefix, take_all, sorted-IsFirst, sorted_all, ℕ, suc,
  ◌<◌, subst, Bool, true, none, some, zero,
}
use xiaowei_agent.Store.Read.{
  stored_read, add_read, stored_reads, is_newer, is_in_page, page_candidates, last_seq, page_of,
  page,
}
use xiaowei_agent.Store.State.{StoreState}

-- the newest first
abbrev pub IsNewer : TaskRecord → TaskRecord → Type 0
IsNewer a b = b.created_seq ≤ a.created_seq

page_order : Decides is_newer IsNewer
page_order = record {
  before = λ x y h. key_lt_le x.created_seq y.created_seq x.task_id y.task_id h;
  otherwise = λ x y h. key_lt_ge x.created_seq y.created_seq x.task_id y.task_id h;
  trans = λ x y z a b. omega arith;
}

abbrev pub records : List StoredTaskRead → List TaskRecord
records xs = map (λ x. x.record_) xs

add_read-ok :
    (r : TaskRecord) (x : Result StoredTaskRead) (rest : Result (List StoredTaskRead))
    (rs : List TaskRecord) (ys : List StoredTaskRead)
    → ((y : StoredTaskRead) → x ≡ ok y → y.record_ ≡ r)
    → ((zs : List StoredTaskRead) → rest ≡ ok zs → records zs ≡ rs)
    → add_read x rest ≡ ok ys
    → records ys ≡ r ∷ rs
add_read-ok r (err e) rest rs ys h k q = absurd (ground arith)
add_read-ok r (ok x) (err e) rs ys h k q = absurd (ground arith)
add_read-ok r (ok x) (ok xs) rs ys h k q =
    let same : x ∷ xs ≡ ys = ground arith in sym (ap records same) ∙ cc (h x refl, k xs refl)

stored_read-record :
    (p : Platform) (s : StoreState) (r : TaskRecord) (y : StoredTaskRead)
    → stored_read p s r ≡ ok y
    → y.record_ ≡ r
unfolding stored_read
stored_read-record p s r y h = ground arith

records-stored_reads :
    (p : Platform) (s : StoreState) (rs : List TaskRecord) (ys : List StoredTaskRead)
    → stored_reads p s rs ≡ ok ys
    → records ys ≡ rs
unfolding stored_reads
records-stored_reads p s [] ys h = sym (ap records (the_items h))
  where
    the_items : ok [] ≡ ok ys → [] ≡ ys
    the_items e = ground arith
records-stored_reads p s (r ∷ rs) ys h =
    add_read-ok r (stored_read p s r) (stored_reads p s rs) rs ys (stored_read-record p s r)
      (records-stored_reads p s rs) h

page_of-ok :
    (has_more : Bool) (x : Result (List StoredTaskRead)) (pg : StoredTaskPage)
    → page_of has_more x ≡ ok pg
    → (x ≡ ok pg.items) × (pg.next_created_seq ≡ (if has_more then last_seq pg.items else none))
page_of-ok has_more (err e) pg h = absurd (ground arith)
page_of-ok has_more (ok xs) pg h = ground arith

-- a page with a cursor shows its last task at it
last_seq-is_some :
    (x : StoredTaskRead) (xs : List StoredTaskRead) → (c : ℕ) × (last_seq (x ∷ xs) ≡ some c)
last_seq-is_some x [] = (x.record_.created_seq, refl)
last_seq-is_some x (y ∷ ys) = last_seq-is_some y ys

no_cursor :
    (n : ℕ) (items : List StoredTaskRead) (all : List TaskRecord)
    → 0 < n
    → records items ≡ take n (take (suc n) all)
    → (if ltb n (length (take (suc n) all)) then last_seq items else none) ≡ none
    → length (take (suc n) all) ≤ n
no_cursor zero items all pos h e = absurd (omega arith)
no_cursor (suc n) [] [] pos h e = omega arith
no_cursor (suc n) [] (x ∷ all) pos h e = absurd (cc h)
no_cursor (suc n) (y ∷ items) all pos h e =
    let (c, q) = last_seq-is_some y items in ground (arith, q)

-- What a page says of the tasks of the store.
pub record Shows (query : TaskPageQuery) (s : StoreState) (pg : StoredTaskPage) : Type 0 where
  pub first : IsFirst (is_in_page query) IsNewer query.limit (values s.tasks) (records pg.items)
  pub last :
      pg.next_created_seq ≡ none
      → (x : TaskRecord) → Memᴰ x (values s.tasks)
      → is_in_page query x ≡ true
      → Memᴰ x (records pg.items)

-- A page that is answered holds the newest tasks of the query's scope, actor and cursor, at most `limit`
-- of them, newest first, and one that is left out finds the page full of tasks that are no older;
-- a page without a cursor leaves none out.
pub page-Shows :
    (p : Platform) (query : TaskPageQuery) (s : StoreState) (pg : StoredTaskPage)
    → 0 < query.limit
    → page p query s ≡ ok pg
    → Shows query s pg
unfolding page
page-Shows p query s pg pos h =
    let all = page_candidates query s in
    let selected = take (suc query.limit) all in
    let (reads, cursor) =
      page_of-ok (ltb query.limit (length selected)) (stored_reads p s (take query.limit selected))
        pg h in
    let shown = records-stored_reads p s (take query.limit selected) pg.items reads in
    let listed = shown ∙ take_prefix query.limit all in
    record {
      first =
          subst (λ xs. IsFirst (is_in_page query) IsNewer query.limit (values s.tasks) xs)
            (sym listed)
            (sorted-IsFirst (is_in_page query) is_newer IsNewer query.limit (values s.tasks)
              page_order);
      last = λ e x m t.
          subst (λ xs. Memᴰ x xs)
            (sym (
              listed
              ∙ take_all query.limit all
                  (no_cursor query.limit pg.items all pos shown (sym cursor ∙ e))))
            (sorted_all (is_in_page query) is_newer (values s.tasks) x m t);
    }
