-- ===== src/Prelude/SortKeys.antt =====
-- Sorting by a numeric key: what is in the result, and that distinct keys come out ascending.
use Prim.Native.Nat.{ℕ, ◌<◌}
use mathlib.Core.Path.{◌≡◌, ap}
use mathlib.Core.Logic.{◌≢◌, ◌↔◌, ◌⊎◌, inl, inr}
use mathlib.Core.Bool.{Bool}
use mathlib.Core.List.{List, [], ◌∷◌}
use native.Mathlib.Omega.{arith}
use evmfs.Prelude.Tests.{Bool-cases, leb}
use evmfs.Prelude.Lists.{All}
use evmfs.Prelude.Member.{In, All-In, In-All}
use evmfs.Prelude.Sort.{insert, sort}

module _ {A : Type 0} (key : A → ℕ) where
  abbrev pub by_key : A → A → Bool
  by_key a b = leb (key a) (key b)

  abbrev pub IsAscending : List A → Type 0
  IsAscending [] = Unit
  IsAscending (x ∷ xs) = All (λ y. key x < key y) xs × IsAscending xs

  -- No two places have one key.
  abbrev pub HasUniqueKeys : List A → Type 0
  HasUniqueKeys [] = Unit
  HasUniqueKeys (x ∷ xs) = All (λ y. key y ≢ key x) xs × HasUniqueKeys xs

  In-insert : (x y : A) (xs : List A) → In y (insert by_key x xs) ↔ ((x ≡ y) ⊎ In y xs)
  unfolding insert
  In-insert x y [] = (λ h. h, λ h. h)
  In-insert x y (z ∷ zs) = elim (Bool-cases (by_key x z)) [
    | inl e ↦ rw e (λ h. h, λ h. h)
    | inr e ↦ rw e (
        let (to, from) = In-insert x y zs in
        (
          elim [
            | inl first ↦ inr (inl first)
            | inr later ↦ elim (to later) [ inl same ↦ inl same | inr i ↦ inr (inr i) ]
          ],
          elim [
            | inl same ↦ inr (from (inl same))
            | inr i ↦ elim i [ inl first ↦ inl first | inr j ↦ inr (from (inr j)) ]
          ],
        ))
  ]

  pub In-sort : (y : A) (xs : List A) → In y (sort by_key xs) ↔ In y xs
  unfolding sort
  In-sort y [] = (λ h. h, λ h. h)
  In-sort y (x ∷ xs) =
      let (to, from) = In-insert x y (sort by_key xs) in
      let (down, up) = In-sort y xs in
      (
        λ h. elim (to h) [ inl e ↦ inl e | inr i ↦ inr (down i) ],
        λ h. from (elim h [ inl e ↦ inl e | inr i ↦ inr (up i) ]),
      )

  insert-IsAscending :
      (x : A) (xs : List A)
      → IsAscending xs
      → All (λ y. key y ≢ key x) xs
      → IsAscending (insert by_key x xs)
  unfolding insert
  insert-IsAscending x [] a u = (tt, tt)
  insert-IsAscending x (y ∷ ys) (low, a) (ne, u) = elim (Bool-cases (by_key x y)) [
    | inl e ↦ rw e (
        let below : key x < key y = ground arith in
        (
          (
            below,
            All-In (λ z. key x < key z) ys
                (λ z i. let h = In-All (λ z. key y < key z) ys z low i in omega arith),
          ),
          (low, a),
        ))
    | inr e ↦ rw e (
      All-In (λ z. key y < key z) (insert by_key x ys)
          (λ z i. elim ((In-insert x z ys).0 i) [
            | inl same ↦ let k = ap key same in let h : key y < key x = ground arith in omega arith
            | inr j ↦ In-All (λ z. key y < key z) ys z low j
          ]),
      insert-IsAscending x ys a u,
    )
  ]

  pub sort-IsAscending : (xs : List A) → HasUniqueKeys xs → IsAscending (sort by_key xs)
  unfolding sort
  sort-IsAscending [] u = tt
  sort-IsAscending (x ∷ xs) (new, u) =
      insert-IsAscending x (sort by_key xs) (sort-IsAscending xs u) (
        All-In (λ y. key y ≢ key x) (sort by_key xs)
          (λ y i. In-All (λ y. key y ≢ key x) xs y new ((In-sort y xs).0 i)))
