-- ===== src/Prelude/SortOrder.antt =====
-- Sorting by any total and transitive comparison.
use mathlib.Core.Path.{◌≡◌, subst}
use mathlib.Core.Logic.{◌↔◌, ◌⊎◌, inl, inr}
use mathlib.Core.Bool.{Bool, true, false}
use mathlib.Core.List.{List, [], ◌∷◌}
use evmfs.Prelude.Tests.{Bool-cases}
use evmfs.Prelude.Member.{In, All-In, In-All}
use evmfs.Prelude.Sort.{insert, sort, IsSorted}

module _ {A : Type 0} (le : A → A → Bool) where
  In-of_insert : (x y : A) (xs : List A) → In y (insert le x xs) → (x ≡ y) ⊎ In y xs
  unfolding insert
  In-of_insert x y [] h = h
  In-of_insert x y (z ∷ zs) h = elim (Bool-cases (le x z)) [
    | inl e ↦ rw e at h
    | inr e ↦
        let h' : In y (z ∷ insert le x zs) = rw e at h in
        elim h' [
          | inl first ↦ inr (inl first)
          | inr later ↦ elim (In-of_insert x y zs later) [
            | inl same ↦ inl same
            | inr i ↦ inr (inr i)
          ]
        ]
  ]

  insert-of_In : (x y : A) (xs : List A) → (x ≡ y) ⊎ In y xs → In y (insert le x xs)
  unfolding insert
  insert-of_In x y [] h = h
  insert-of_In x y (z ∷ zs) h = elim (Bool-cases (le x z)) [
    | inl e ↦ rw e h
    | inr e ↦ rw e (elim h [
      | inl same ↦ inr (insert-of_In x y zs (inl same))
      | inr (inl first) ↦ inl first
      | inr (inr i) ↦ inr (insert-of_In x y zs (inr i))
    ])
  ]

  pub In-sort : (y : A) (xs : List A) → In y (sort le xs) ↔ In y xs
  unfolding sort
  In-sort y [] = (λ h. h, λ h. h)
  In-sort y (x ∷ xs) =
      let (down, up) = In-sort y xs in
      (
        λ h. elim (In-of_insert x y (sort le xs) h) [ inl e ↦ inl e | inr i ↦ inr (down i) ],
        λ h. insert-of_In x y (sort le xs) (elim h [ inl e ↦ inl e | inr i ↦ inr (up i) ]),
      )

  module _ (total : (a b : A) → le a b ≡ false → le b a ≡ true)
      (trans : (a b c : A) → le a b ≡ true → le b c ≡ true → le a c ≡ true) where
    insert-IsSorted : (x : A) (xs : List A) → IsSorted le xs → IsSorted le (insert le x xs)
    unfolding insert
    insert-IsSorted x [] h = (tt, tt)
    insert-IsSorted x (y ∷ ys) (first, rest) = elim (Bool-cases (le x y)) [
      | inl e ↦ rw e (
        (
          e,
          All-In (λ z. le x z ≡ true) ys
              (λ z i. trans x y z e (In-All (λ z. le y z ≡ true) ys z first i)),
        ),
        (first, rest),
      )
      | inr e ↦ rw e (
        All-In (λ z. le y z ≡ true) (insert le x ys)
            (λ z i. elim (In-of_insert x z ys i) [
              | inl same ↦ subst (λ w. le y w ≡ true) same (total x y e)
              | inr j ↦ In-All (λ z. le y z ≡ true) ys z first j
            ]),
        insert-IsSorted x ys rest,
      )
    ]

    pub sort-IsSorted : (xs : List A) → IsSorted le (sort le xs)
    unfolding sort
    sort-IsSorted [] = tt
    sort-IsSorted (x ∷ xs) = insert-IsSorted x (sort le xs) (sort-IsSorted xs)
