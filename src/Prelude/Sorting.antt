-- ===== src/Prelude/Sorting.antt =====
-- Python's `sorted` with a key, `[:n]` and a comprehension with a condition, and what the first `n` of a
-- sorted selection are.
use Prim.Native.Nat.{ℕ, zero, suc, ◌≤◌}
use mathlib.Core.Path.{◌≡◌, refl, sym, ap, subst}
use mathlib.Core.Logic.{◌⊎◌, inl, inr, ◌↔◌, ⊎_elim}
use mathlib.Core.Bool.{Bool, true, false}
use mathlib.Core.List.{List, [], ◌∷◌, Memᴰ}
use mathlib.Core.List.Memᴰ
use native.Mathlib.Omega.{arith}
use xiaowei_agent.Prelude.Lists.{length, take}
use xiaowei_agent.Prelude.Tests.{if◌then◌else◌, Bool-cases}

module _ {ℓ} {A : Type ℓ} where
  -- `[x for x in xs if test(x)]`
  abbrev pub keep_if : (A → Bool) → List A → List A
  keep_if test [] = []
  keep_if test (x ∷ xs) = let rest = keep_if test xs in if test x then x ∷ rest else rest

  -- `earlier y x`: the key of `y` is less than that of `x`
  abbrev pub insert_sorted : (A → A → Bool) → A → List A → List A
  insert_sorted earlier x [] = x ∷ []
  insert_sorted earlier x (y ∷ ys) =
      let rest = insert_sorted earlier x ys in if earlier y x then y ∷ rest else x ∷ y ∷ ys

  abbrev pub sorted : (A → A → Bool) → List A → List A
  sorted earlier [] = []
  sorted earlier (x ∷ xs) = insert_sorted earlier x (sorted earlier xs)

  -- every element is related to all that follow
  abbrev pub IsOrdered {κ} : (A → A → Type κ) → List A → Type (ℓ ⊔ κ)
  IsOrdered R [] = Unit
  IsOrdered R (x ∷ xs) = ((y : A) → Memᴰ y xs → R x y) × IsOrdered R xs

  -- `ys` are the first `n` of those of `xs` that pass the test
  pub record IsFirst {κ} (test : A → Bool) (R : A → A → Type κ) (n : ℕ) (xs ys : List A)
      : Type (ℓ ⊔ κ) where
    pub count : length ys ≤ n
    pub sound : (y : A) → Memᴰ y ys → Memᴰ y xs × (test y ≡ true)
    pub ordered : IsOrdered R ys
    pub complete :
        (x : A)
        → Memᴰ x xs
        → test x ≡ true
        → Memᴰ x ys ⊎ ((length ys ≡ n) × ((y : A) → Memᴰ y ys → R y x))

  length-take : (n : ℕ) (xs : List A) → length (take n xs) ≤ n
  length-take zero xs = omega arith
  length-take (suc n) [] = omega arith
  length-take (suc n) (x ∷ xs) = omega (arith, length-take n xs)

  Memᴰ-cons : (y x : A) (xs : List A) → Memᴰ y (x ∷ xs) ↔ ((y ≡ x) ⊎ Memᴰ y xs)
  Memᴰ-cons y x xs = (Memᴰ.cases_cons, ⊎_elim Memᴰ.head Memᴰ.tail)

  Memᴰ-keep_if :
      (test : A → Bool) (xs : List A) (y : A)
      → Memᴰ y (keep_if test xs) ↔ (Memᴰ y xs × (test y ≡ true))
  Memᴰ-keep_if test [] y = (λ m. absurd (Memᴰ.not-nil m), λ h. absurd (Memᴰ.not-nil h.0))
  Memᴰ-keep_if test (x ∷ xs) y =
      let rest = keep_if test xs in
      let same : y ≡ x → test y ≡ test x = λ e. ap test e in
      ground (arith, Memᴰ-cons y x xs, Memᴰ-cons y x rest, Memᴰ-keep_if test xs y, same)

  module _ (earlier : A → A → Bool) where
    Memᴰ-insert_sorted :
        (x : A) (xs : List A) (y : A) → Memᴰ y (insert_sorted earlier x xs) ↔ ((y ≡ x) ⊎ Memᴰ y xs)
    Memᴰ-insert_sorted x [] y = Memᴰ-cons y x []
    Memᴰ-insert_sorted x (z ∷ zs) y =
        let rest = insert_sorted earlier x zs in
        ground (
          arith,
          Memᴰ-cons y z zs,
          Memᴰ-cons y z rest,
          Memᴰ-cons y x (z ∷ zs),
          Memᴰ-insert_sorted x zs y,
        )

    Memᴰ-sorted : (xs : List A) (y : A) → Memᴰ y (sorted earlier xs) ↔ Memᴰ y xs
    Memᴰ-sorted [] y = (λ m. m, λ m. m)
    Memᴰ-sorted (x ∷ xs) y =
        let rest = sorted earlier xs in
        ground (arith, Memᴰ-cons y x xs, Memᴰ-insert_sorted x rest y, Memᴰ-sorted xs y)

  -- an order that the test decides
  pub record Decides {κ} (earlier : A → A → Bool) (R : A → A → Type κ) : Type (ℓ ⊔ κ) where
    pub before : (x y : A) → earlier y x ≡ true → R y x
    pub otherwise : (x y : A) → earlier y x ≡ false → R x y
    pub trans : (x y z : A) → R x y → R y z → R x z

  module _ {κ} (earlier : A → A → Bool) (R : A → A → Type κ) (d : Decides earlier R) where
    IsOrdered-insert_sorted :
        (x : A) (xs : List A) → IsOrdered R xs → IsOrdered R (insert_sorted earlier x xs)
    IsOrdered-insert_sorted x [] h = (λ y m. absurd (Memᴰ.not-nil m), tt)
    IsOrdered-insert_sorted x (z ∷ zs) h = elim (Bool-cases (earlier z x)) [
      | inl e ↦ rw e (
        λ y m.
            ⊎_elim (λ q. subst (λ w. R z w) (sym q) (d.before x z e)) (h.0 y)
              ((Memᴰ-insert_sorted earlier x zs y).0 m),
        IsOrdered-insert_sorted x zs h.1,
      )
      | inr e ↦ rw e (
        λ y m.
            ⊎_elim (λ q. subst (λ w. R x w) (sym q) (d.otherwise x z e))
              (λ k. d.trans x z y (d.otherwise x z e) (h.0 y k)) ((Memᴰ-cons y z zs).0 m),
        h,
      )
    ]

    IsOrdered-sorted : (xs : List A) → IsOrdered R (sorted earlier xs)
    IsOrdered-sorted [] = tt
    IsOrdered-sorted (x ∷ xs) = IsOrdered-insert_sorted x (sorted earlier xs) (IsOrdered-sorted xs)

  Memᴰ-take : (n : ℕ) (xs : List A) (y : A) → Memᴰ y (take n xs) → Memᴰ y xs
  Memᴰ-take zero xs y m = absurd (Memᴰ.not-nil m)
  Memᴰ-take (suc n) [] y m = m
  Memᴰ-take (suc n) (x ∷ xs) y m =
      ⊎_elim Memᴰ.head (λ k. Memᴰ.tail (Memᴰ-take n xs y k)) (Memᴰ.cases_cons m)

  module _ {κ} (R : A → A → Type κ) where
    IsOrdered-take : (n : ℕ) (xs : List A) → IsOrdered R xs → IsOrdered R (take n xs)
    IsOrdered-take zero xs h = tt
    IsOrdered-take (suc n) [] h = tt
    IsOrdered-take (suc n) (x ∷ xs) h = (λ y m. h.0 y (Memᴰ-take n xs y m), IsOrdered-take n xs h.1)

    -- what is not among the first comes after them
    take_complete :
        (n : ℕ) (xs : List A) (x : A)
        → IsOrdered R xs
        → Memᴰ x xs
        → Memᴰ x (take n xs) ⊎ ((length (take n xs) ≡ n) × ((y : A) → Memᴰ y (take n xs) → R y x))
    take_complete zero xs x h m = inr (refl, λ y k. absurd (Memᴰ.not-nil k))
    take_complete (suc n) [] x h m = absurd (Memᴰ.not-nil m)
    take_complete (suc n) (z ∷ zs) x h m =
        ⊎_elim (λ e. inl (Memᴰ.head e)) (λ k. later k (take_complete n zs x h.1 k))
          (Memᴰ.cases_cons m)
      where
        later :
            Memᴰ x zs
            → Memᴰ x (take n zs)
              ⊎ ((length (take n zs) ≡ n) × ((y : A) → Memᴰ y (take n zs) → R y x))
            → Memᴰ x (z ∷ take n zs)
              ⊎ ((suc (length (take n zs)) ≡ suc n) × ((y : A) → Memᴰ y (z ∷ take n zs) → R y x))
        later k rest =
            ⊎_elim (λ q. inl (Memᴰ.tail q))
              (λ q. inr (
                ap suc q.0,
                λ y j.
                    ⊎_elim (λ e. subst (λ w. R w x) (sym e) (h.0 x k)) (q.1 y) (Memᴰ.cases_cons j),
              ))
              rest

  pub take_prefix : (n : ℕ) (xs : List A) → take n (take (suc n) xs) ≡ take n xs
  take_prefix zero xs = refl
  take_prefix (suc n) [] = refl
  take_prefix (suc n) (x ∷ xs) = ap (λ ys. x ∷ ys) (take_prefix n xs)

  -- what one more would not have made longer is all there is
  pub take_all : (n : ℕ) (xs : List A) → length (take (suc n) xs) ≤ n → take n xs ≡ xs
  take_all zero [] h = refl
  take_all zero (x ∷ xs) h = absurd (omega arith)
  take_all (suc n) [] h = refl
  take_all (suc n) (x ∷ xs) h = ap (λ ys. x ∷ ys) (take_all n xs (omega arith))

  -- `sorted(x for x in xs if test(x))[:n]`
  pub sorted-IsFirst {κ} :
      (test : A → Bool) (earlier : A → A → Bool) (R : A → A → Type κ) (n : ℕ) (xs : List A)
      → Decides earlier R
      → IsFirst test R n xs (take n (sorted earlier (keep_if test xs)))
  sorted-IsFirst test earlier R n xs d =
      let all = sorted earlier (keep_if test xs) in
      let ordered = IsOrdered-sorted earlier R d (keep_if test xs) in
      record {
        count = length-take n all;
        sound = λ y m.
            (Memᴰ-keep_if test xs y).0
              ((Memᴰ-sorted earlier (keep_if test xs) y).0 (Memᴰ-take n all y m));
        ordered = IsOrdered-take R n all ordered;
        complete = λ x m t.
            take_complete R n all x ordered
              ((Memᴰ-sorted earlier (keep_if test xs) x).1 ((Memᴰ-keep_if test xs x).1 (m, t)));
      }

  pub sorted_all :
      (test : A → Bool) (earlier : A → A → Bool) (xs : List A) (x : A)
      → Memᴰ x xs
      → test x ≡ true
      → Memᴰ x (sorted earlier (keep_if test xs))
  sorted_all test earlier xs x m t =
      (Memᴰ-sorted earlier (keep_if test xs) x).1 ((Memᴰ-keep_if test xs x).1 (m, t))
