-- ===== src/NamesUi/Found.antt =====
-- names-ui/src/App.tsx: what a look-up finds.
use evmfs.Prelude.{◌≡◌, ◌⊎◌, inl, inr, true, false, Option, none, some, Bool-cases, Option-cases}
use evmfs.Prelude.Text.{Text, text_eq}
use evmfs.NamesUi.{
  Version, v1, v2, Listing, Shown, listed, available, lookup_failed, lookup_in, handle_lookup,
  zero_address,
}

module _ (read : Version → Text → Option Listing) (name : Text) where
  -- A registry that answers, with an owner and without one.
  abbrev pub Owned : Version → Listing → Type 0
  Owned v found = (read v name ≡ some found) × (text_eq found.owner zero_address ≡ false)

  abbrev pub Free : Version → Type 0
  Free v =
      (found : Listing) × (read v name ≡ some found) × (text_eq found.owner zero_address ≡ true)

  registry_cases :
      (v : Version) → (read v name ≡ none) ⊎ (((found : Listing) × Owned v found) ⊎ Free v)
  registry_cases v = elim (Option-cases (read v name)) [
    | inl n ↦ inl n
    | inr (found, e) ↦ elim (Bool-cases (text_eq found.owner zero_address)) [
      | inl z ↦ inr (inr (found, e, z))
      | inr o ↦ inr (inl (found, (e, o)))
    ]
  ]

  -- What is so when the page shows an answer.
  abbrev pub Means : Shown → Type 0
  Means (listed v2 found) = Owned v2 found
  Means (listed v1 found) = Free v2 × Owned v1 found
  Means available = Free v2 × Free v1
  Means lookup_failed = (read v2 name ≡ none) ⊎ (Free v2 × (read v1 name ≡ none))

  -- The registry of the second version is asked first and hides the first. The page shows an entry of
  -- the second only for a name with an owner there, one of the first only for a name that is free in
  -- the second and has an owner in the first, that a name is available only if it is free in both, and
  -- a failure only if the node failed for the second, or for the first after a free answer.
  pub handle_lookup-Means : Means (handle_lookup read name)
  unfolding handle_lookup lookup_in
  handle_lookup-Means = elim (registry_cases v2) [
    | inl n ↦ rw (n, lookup_in) (inl n)
    | inr (inl (found, (e, o))) ↦ rw (e, o, lookup_in) (e, o)
    | inr (inr (found, e, z)) ↦
        let free : Free v2 = (found, e, z) in
        elim (registry_cases v1) [
          | inl n ↦ rw (e, z, n, lookup_in) (inr (free, n))
          | inr (inl (first, (f, o))) ↦ rw (e, z, f, o, lookup_in) (free, (f, o))
          | inr (inr (first, f, y)) ↦ rw (e, z, f, y, lookup_in) (free, (first, f, y))
        ]
  ]
