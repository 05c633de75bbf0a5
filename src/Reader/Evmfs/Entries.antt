-- ===== src/Reader/Evmfs/Entries.antt =====
-- lib/src/index.ts, `resolveEntry`: a file by its number and by its name.
use evmfs.Prelude.{
  ℕ, ◌<◌, ◌≡◌, ◌≢◌, refl, sym, ◌∙◌, ap, subst, ◌⊎◌, inl, inr, true, false, Option, none, some, List,
  [], ◌∷◌, get_elem?, length, lt→ltb, Bool-cases, All,
}
use evmfs.Prelude.Text.{Text, text_eq, text_eq_refl, text_eq_sound}
use evmfs.Prelude.Digits.{decimal}
use evmfs.Prelude.ParseInt.{number, parse_int, parse_int-decimal}
use evmfs.Prelude.Member.{In, In-All}
use evmfs.Reader.Evmfs.{ManifestEntry, has_name, find_name, is_index, resolve_entry}

-- `String(i)` with `i` in range gives the entry at `i`, whatever the entries are named.
pub resolve_entry-decimal :
    (entries : List ManifestEntry) (i : ℕ)
    → i < length entries
    → resolve_entry entries (decimal i) ≡ get_elem? entries i
unfolding resolve_entry
resolve_entry-decimal entries i h =
    rw (parse_int-decimal i, resolve_entry)
      (let in_range : is_index (number i) (decimal i) (length entries) ≡ true =
          (unfold is_index in rw (text_eq_refl (decimal i)) (lt→ltb i (length entries) h)) in
        rw in_range)

-- No two entries have one name.
abbrev pub HasUniqueNames : List ManifestEntry → Type 0
HasUniqueNames [] = Unit
HasUniqueNames (x ∷ entries) =
    All (λ y. (y.f ≡ none) ⊎ (y.f ≢ x.f)) entries × HasUniqueNames entries

has_name-eq : (path : Text) (x : ManifestEntry) → has_name path x ≡ true → x.f ≡ some path
has_name-eq path x h = named x.f h refl
  where
    named :
        (f : Option Text)
        → elim f [ none ↦ false | some t ↦ text_eq t path ] ≡ true
        → x.f ≡ f
        → x.f ≡ some path
    named none h e = cc
    named (some t) h e = e ∙ ap some (text_eq_sound t path h)

find_name-In :
    (path : Text) (entries : List ManifestEntry) (x : ManifestEntry)
    → HasUniqueNames entries
    → In x entries
    → x.f ≡ some path
    → find_name path entries ≡ some x
unfolding find_name
find_name-In path [] x u i e = absurd i
find_name-In path (y ∷ entries) x (new, u) (inl same) e =
    let here : has_name path y ≡ true =
      subst (λ z. has_name path z ≡ true) (sym same) (rw e (text_eq_refl path)) in
    rw here (ap some same)
find_name-In path (y ∷ entries) x (new, u) (inr i) e = elim (Bool-cases (has_name path y)) [
  | inr other ↦ rw other (find_name-In path entries x u i e)
  | inl here ↦ absurd (elim (In-All (λ z. (z.f ≡ none) ⊎ (z.f ≢ y.f)) entries x new i) [
    | inl unnamed ↦ cc
    | inr apart ↦ apart (e ∙ sym (has_name-eq path y here))
  ])
]

-- A path that is not read as the number of an entry gives the entry of that name, if no two entries
-- have one name.
pub resolve_entry-name :
    (entries : List ManifestEntry) (path : Text) (x : ManifestEntry)
    → is_index (parse_int 10 path) path (length entries) ≡ false
    → HasUniqueNames entries
    → In x entries
    → x.f ≡ some path
    → resolve_entry entries path ≡ some x
unfolding resolve_entry
resolve_entry-name entries path x plain u i e = rw plain (find_name-In path entries x u i e)
