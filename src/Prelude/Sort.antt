-- ===== src/Prelude/Sort.antt =====
-- `Array.prototype.sort` with a comparison: a stable sort.
use Prim.Native.Nat.{ℕ, ◌+◌}
use native.Mathlib.Omega.{arith}
use mathlib.Core.Path.{◌≡◌, refl, ap, ◌∙◌}
use mathlib.Core.Logic.{inl, inr}
use mathlib.Core.Bool.{Bool, true}
use mathlib.Core.List.{List, [], ◌∷◌, Perm}
use mathlib.Core.List.Perm
use evmfs.Prelude.Tests.{Bool-cases, if◌then◌else◌}
use evmfs.Prelude.Lists.{All}

-- The sum of what the elements weigh.
abbrev pub sum_by {ℓ} : {A : Type ℓ} → (A → ℕ) → List A → ℕ
sum_by weight [] = 0
sum_by weight (x ∷ xs) = weight x + sum_by weight xs

module _ {ℓ} {A : Type ℓ} (le : A → A → Bool) where
  -- An element goes before those that are not smaller, so equal ones keep their order.
  unfoldable pub insert : A → List A → List A
  insert x [] = x ∷ []
  insert x (y ∷ ys) = if le x y then x ∷ y ∷ ys else y ∷ insert x ys

  unfoldable pub sort : List A → List A
  unfolding insert
  sort [] = []
  sort (x ∷ xs) = insert x (sort xs)

  abbrev pub IsSorted : List A → Type ℓ
  IsSorted [] = Unit
  IsSorted (x ∷ xs) = All (λ y. le x y ≡ true) xs × IsSorted xs

  insert-perm : (x : A) (xs : List A) → Perm (insert x xs) (x ∷ xs)
  unfolding insert
  insert-perm x [] = Perm.refl (x ∷ [])
  insert-perm x (y ∷ ys) = elim (Bool-cases (le x y)) [
    | inl e ↦ rw e (Perm.refl (x ∷ y ∷ ys))
    | inr e ↦ rw e (Perm.trans (Perm.cons y (insert-perm x ys)) (Perm.swap x y ys))
  ]

  pub sort-perm : (xs : List A) → Perm (sort xs) xs
  unfolding sort
  sort-perm [] = Perm.refl []
  sort-perm (x ∷ xs) = Perm.trans (insert-perm x (sort xs)) (Perm.cons x (sort-perm xs))

  insert_first : (x : A) (xs : List A) → All (λ y. le x y ≡ true) xs → insert x xs ≡ x ∷ xs
  unfolding insert
  insert_first x [] h = refl
  insert_first x (y ∷ ys) (e, h) = rw e

  pub sort_of_IsSorted : (xs : List A) → IsSorted xs → sort xs ≡ xs
  unfolding sort
  sort_of_IsSorted [] h = refl
  sort_of_IsSorted (x ∷ xs) (first, rest) =
      ap (insert x) (sort_of_IsSorted xs rest) ∙ insert_first x xs first

  sum_by-insert :
      (weight : A → ℕ) (x : A) (xs : List A)
      → sum_by weight (insert x xs) ≡ weight x + sum_by weight xs
  unfolding insert
  sum_by-insert weight x [] = refl
  sum_by-insert weight x (y ∷ ys) = elim (Bool-cases (le x y)) [
    | inl e ↦ rw e refl
    | inr e ↦ rw e (omega (arith, sum_by-insert weight x ys))
  ]

  -- Sorting keeps it.
  pub sum_by-sort : (weight : A → ℕ) (xs : List A) → sum_by weight (sort xs) ≡ sum_by weight xs
  unfolding sort
  sum_by-sort weight [] = refl
  sum_by-sort weight (x ∷ xs) =
      omega (arith, sum_by-insert weight x (sort xs), sum_by-sort weight xs)
