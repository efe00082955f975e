-- ===== src/Prelude/Keys.antt =====
-- What Python's `==` decides, as an interface that a type implements, and the implementations for the
-- types of keys and fields: texts, numbers, pairs and lists of them.
use Prim.Native.Nat.{ℕ}
use Prim.Native.String.{String}
use mathlib.Core.Path.{◌≡◌, refl, ap}
use mathlib.Core.Logic.{◌↔◌}
use mathlib.Core.Bool.{Bool, true, false, ◌&&◌}
use mathlib.Core.Option.{Option, none, some}
use mathlib.Core.List.{List, [], ◌∷◌}
use native.Mathlib.Omega.{arith}
use text.Mathlib.Text
use text.Mathlib.TextEquality.{eq_iff}
use xiaowei_agent.Prelude.Tests.{eqb, eqb_iff}

-- `equals` is the test, and `decides` says that it tests for equality.
pub record Comparable {ℓ} (K : Type ℓ) : Type ℓ where
  pub equals : K → K → Bool
  pub decides : (x y : K) → (equals x y ≡ true) ↔ (x ≡ y)

infix 50 ◌==◌
abbrev pub ◌==◌ {ℓ} : {K : Type ℓ} ⦃cmp : Comparable K⦄ → K → K → Bool
◌==◌ ⦃cmp⦄ x y = cmp.equals x y

pub ==_refl {ℓ} : {K : Type ℓ} ⦃cmp : Comparable K⦄ (x : K) → (x == x) ≡ true
==_refl ⦃cmp⦄ x = (cmp.decides x x).1 refl

instance abbrev pub string_eq : Comparable String
string_eq = record { equals = Text.◌==◌; decides = eq_iff }

instance abbrev pub nat_eq : Comparable ℕ
nat_eq = record { equals = eqb; decides = eqb_iff }

module _ {ℓ κ} {K : Type ℓ} {L : Type κ} ⦃left : Comparable K⦄ ⦃right : Comparable L⦄ where
  abbrev pub pair_equals : K × L → K × L → Bool
  pair_equals (x, u) (y, v) = (x == y) && (u == v)

  pub pair_equals_iff : (p q : K × L) → (pair_equals p q ≡ true) ↔ (p ≡ q)
  pair_equals_iff (x, u) (y, v) = ground (arith, left.decides x y, right.decides u v)

  instance abbrev pub pair_eq : Comparable (K × L)
  pair_eq = record { equals = pair_equals; decides = pair_equals_iff }

module _ {ℓ} {K : Type ℓ} ⦃cmp : Comparable K⦄ where
  -- `o == x` where `o` may be None
  abbrev pub ◌is_some_eq◌ : Option K → K → Bool
  ◌is_some_eq◌ none x = false
  ◌is_some_eq◌ (some y) x = y == x

  pub is_some_eq→ : (o : Option K) (x : K) → ◌is_some_eq◌ o x ≡ true → o ≡ some x
  is_some_eq→ none x h = ground arith
  is_some_eq→ (some y) x h = ap some ((cmp.decides y x).0 h)

  abbrev pub list_equals : List K → List K → Bool
  list_equals [] [] = true
  list_equals (x ∷ xs) (y ∷ ys) = (x == y) && list_equals xs ys
  list_equals _ _ = false

  pub list_equals_iff : (xs ys : List K) → (list_equals xs ys ≡ true) ↔ (xs ≡ ys)
  list_equals_iff [] [] = ground arith
  list_equals_iff [] (y ∷ ys) = ground arith
  list_equals_iff (x ∷ xs) [] = ground arith
  list_equals_iff (x ∷ xs) (y ∷ ys) = ground (arith, cmp.decides x y, list_equals_iff xs ys)

  instance abbrev pub list_eq : Comparable (List K)
  list_eq = record { equals = list_equals; decides = list_equals_iff }
