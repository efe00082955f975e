-- ===== src/Dict/Erase.antt =====
-- `del d[k]` and `d.pop(k, None)` on a dict, and how many entries the writes leave.
use xiaowei_agent.Dict.{Dict, lookup, insert, lookup-insert}
use xiaowei_agent.Prelude.{
  string_eq, nat_eq, if◌then◌else◌, Comparable, ◌==◌, length, ◌+◌, ◌≤◌, ◌≡◌, none, some, [], ◌∷◌,
  arith,
}

module _ {ℓ κ} {K : Type ℓ} {V : Type κ} ⦃cmp : Comparable K⦄ where
  -- the entries under other keys
  unfoldable pub remove : K → Dict K V → Dict K V
  remove k [] = []
  remove k ((j, v) ∷ d) = let rest = remove k d in if j == k then rest else (j, v) ∷ rest

  pub lookup-remove :
      (k j : K) (d : Dict K V) → lookup j (remove k d) ≡ (if k == j then none else lookup j d)
  unfolding lookup remove
  lookup-remove k j [] = ground arith
  lookup-remove k j ((i, w) ∷ d) =
      ground (arith, cmp.decides i k, cmp.decides i j, cmp.decides k j, lookup-remove k j d)

  pub length-remove : (k : K) (d : Dict K V) → length (remove k d) ≤ length d
  unfolding remove
  length-remove k [] = omega arith
  length-remove k ((j, v) ∷ d) = ground (arith, length-remove k d)

  pub length-insert_new : (k : K) (v : V) (d : Dict K V) → length (insert k v d) ≤ length d + 1
  unfolding insert
  length-insert_new k v [] = omega arith
  length-insert_new k v ((j, w) ∷ d) = ground (arith, length-insert_new k v d)

  pub length-insert_old :
      (k : K) (v w : V) (d : Dict K V) → lookup k d ≡ some w → length (insert k v d) ≡ length d
  unfolding insert lookup
  length-insert_old k v w [] h = ground arith
  length-insert_old k v w ((j, u) ∷ d) h = ground (arith, length-insert_old k v w d)

  -- no key twice
  abbrev pub IsDistinct : Dict K V → Type (ℓ ⊔ κ)
  IsDistinct [] = Unit
  IsDistinct ((k, v) ∷ d) = (lookup k d ≡ none) × IsDistinct d

  pub insert-IsDistinct : (k : K) (v : V) (d : Dict K V) → IsDistinct d → IsDistinct (insert k v d)
  unfolding insert lookup
  insert-IsDistinct k v [] h = ground arith
  insert-IsDistinct k v ((j, w) ∷ d) h =
      ground
        (arith, cmp.decides j k, cmp.decides k j, lookup-insert k j v d, insert-IsDistinct k v d)

  pub remove-IsDistinct : (k : K) (d : Dict K V) → IsDistinct d → IsDistinct (remove k d)
  unfolding remove
  remove-IsDistinct k [] h = tt
  remove-IsDistinct k ((j, v) ∷ d) h =
      ground (arith, cmp.decides j k, cmp.decides k j, lookup-remove k j d, remove-IsDistinct k d)
