-- ===== src/Prelude/Member.antt =====
-- Membership by recursion, which proofs take apart and tactics read.
use Prim.Native.Nat.{◌≤◌}
use mathlib.Core.Path.{◌≡◌, refl, ap, sym, ◌∙◌, subst}
use mathlib.Core.Logic.{◌↔◌, ◌⊎◌, inl, inr}
use mathlib.Core.Bool.{Bool, true, false}
use mathlib.Core.List.{List, [], ◌∷◌, ◌++◌, map}
use native.Mathlib.Omega.{arith}
use evmfs.Prelude.Tests.{Bool-cases}
use evmfs.Prelude.Lists.{length, any, keep, All}

module _ {A : Type 0} where
  abbrev pub In : A → List A → Type 0
  In x [] = ⊥
  In x (y ∷ ys) = (y ≡ x) ⊎ In x ys

  pub In-append_left : (x : A) (xs ys : List A) → In x xs → In x (xs ++ ys)
  In-append_left x [] ys h = absurd h
  In-append_left x (y ∷ xs) ys (inl e) = inl e
  In-append_left x (y ∷ xs) ys (inr h) = inr (In-append_left x xs ys h)

  pub In-append_right : (x : A) (xs ys : List A) → In x ys → In x (xs ++ ys)
  In-append_right x [] ys h = h
  In-append_right x (y ∷ xs) ys h = inr (In-append_right x xs ys h)

  pub In-append : (x : A) (xs ys : List A) → In x (xs ++ ys) → In x xs ⊎ In x ys
  In-append x [] ys h = inr h
  In-append x (y ∷ xs) ys (inl e) = inl (inl e)
  In-append x (y ∷ xs) ys (inr h) = elim (In-append x xs ys h) [
    | inl left ↦ inl (inr left)
    | inr right ↦ inr right
  ]

  In-keep_of : (p : A → Bool) (x : A) (xs : List A) → In x xs → p x ≡ true → In x (keep p xs)
  In-keep_of p x [] h e = h
  In-keep_of p x (y ∷ ys) (inl same) e = let k : p y ≡ true = ap p same ∙ e in rw k (inl same)
  In-keep_of p x (y ∷ ys) (inr h) e = elim (Bool-cases (p y)) [
    | inl k ↦ rw k (inr (In-keep_of p x ys h e))
    | inr k ↦ rw k (In-keep_of p x ys h e)
  ]

  of_In-keep : (p : A → Bool) (x : A) (xs : List A) → In x (keep p xs) → In x xs × (p x ≡ true)
  of_In-keep p x [] h = absurd h
  of_In-keep p x (y ∷ ys) h = elim (Bool-cases (p y)) [
    | inl k ↦
        let kept : In x (y ∷ keep p ys) = rw k at h in
        elim kept [
          | inl same ↦ (inl same, sym (ap p same) ∙ k)
          | inr later ↦ let (i, e) = of_In-keep p x ys later in (inr i, e)
        ]
    | inr k ↦ let (i, e) = of_In-keep p x ys (rw k at h) in (inr i, e)
  ]

  pub In-keep : (p : A → Bool) (x : A) (xs : List A) → In x (keep p xs) ↔ (In x xs × (p x ≡ true))
  In-keep p x xs = (of_In-keep p x xs, λ h. In-keep_of p x xs h.0 h.1)

  pub any_of_In : (p : A → Bool) (x : A) (xs : List A) → In x xs → p x ≡ true → any p xs ≡ true
  any_of_In p x [] h e = absurd h
  any_of_In p x (y ∷ ys) (inl same) e = let k : p y ≡ true = ap p same ∙ e in rw k
  any_of_In p x (y ∷ ys) (inr h) e = elim (Bool-cases (p y)) [
    | inl k ↦ rw k
    | inr k ↦ rw k (any_of_In p x ys h e)
  ]

  pub In-of_any : (p : A → Bool) (xs : List A) → any p xs ≡ true → (x : A) × In x xs × (p x ≡ true)
  In-of_any p [] h = cc
  In-of_any p (y ∷ ys) h = elim (Bool-cases (p y)) [
    | inl k ↦ (y, inl refl, k)
    | inr k ↦ let (x, i, e) = In-of_any p ys (rw k at h) in (x, inr i, e)
  ]

  length-keep-le : (p : A → Bool) (xs : List A) → length (keep p xs) ≤ length xs
  length-keep-le p [] = omega arith
  length-keep-le p (x ∷ xs) = ground (arith, length-keep-le p xs)

  pub keep_all : (p : A → Bool) (xs : List A) → length (keep p xs) ≡ length xs → keep p xs ≡ xs
  keep_all p [] h = refl
  keep_all p (x ∷ xs) h = elim (Bool-cases (p x)) [
    | inl k ↦ rw k (ap (λ t. x ∷ t) (keep_all p xs (let e = rw k at h in omega arith)))
    | inr k ↦ absurd (let e = rw k at h in omega (arith, length-keep-le p xs))
  ]

  pub All-In {κ} : (P : A → Type κ) (xs : List A) → ((x : A) → In x xs → P x) → All P xs
  All-In P [] h = tt
  All-In P (x ∷ xs) h = (h x (inl refl), All-In P xs (λ y i. h y (inr i)))

  pub In-All {κ} : (P : A → Type κ) (xs : List A) (x : A) → All P xs → In x xs → P x
  In-All P [] x h i = absurd i
  In-All P (y ∷ ys) x (p, h) (inl same) = subst P same p
  In-All P (y ∷ ys) x (p, h) (inr i) = In-All P ys x h i

  pub keep-append : (p : A → Bool) (xs ys : List A) → keep p (xs ++ ys) ≡ keep p xs ++ keep p ys
  keep-append p [] ys = refl
  keep-append p (x ∷ xs) ys = elim (Bool-cases (p x)) [
    | inl k ↦ rw k (ap (λ t. x ∷ t) (keep-append p xs ys))
    | inr k ↦ rw k (keep-append p xs ys)
  ]

  pub keep_every : (p : A → Bool) (xs : List A) → All (λ x. p x ≡ true) xs → keep p xs ≡ xs
  keep_every p [] h = refl
  keep_every p (x ∷ xs) (k, h) = rw k (ap (λ t. x ∷ t) (keep_every p xs h))

  pub keep_none : (p : A → Bool) (xs : List A) → All (λ x. p x ≡ false) xs → keep p xs ≡ []
  keep_none p [] h = refl
  keep_none p (x ∷ xs) (k, h) = rw k (keep_none p xs h)

pub In-map_of : {A B : Type 0} (f : A → B) (x : A) (xs : List A) → In x xs → In (f x) (map f xs)
In-map_of f x [] i = absurd i
In-map_of f x (y ∷ xs) (inl same) = inl (ap f same)
In-map_of f x (y ∷ xs) (inr i) = inr (In-map_of f x xs i)

pub In-map :
    {A B : Type 0} (f : A → B) (z : B) (xs : List A)
    → In z (map f xs)
    → (x : A) × In x xs × (f x ≡ z)
In-map f z [] i = absurd i
In-map f z (y ∷ xs) (inl same) = (y, inl refl, same)
In-map f z (y ∷ xs) (inr i) = let (x, j, e) = In-map f z xs i in (x, inr j, e)
