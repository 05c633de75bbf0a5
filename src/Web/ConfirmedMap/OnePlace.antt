-- ===== src/Web/ConfirmedMap/OnePlace.antt =====
-- web/src/lib/evmfs.ts, `uploadFiles`: the keys and the places of the units in the map.
use evmfs.Prelude.{◌≡◌, ◌≢◌, refl, sym, ◌∙◌, ap₂, inl, inr, false, List, [], ◌∷◌, All, Bool-cases}
use evmfs.Prelude.Text.{Text, text_eq, text_eq_sound, text_eq_iff}
use evmfs.Cli.Upload.Resume.Partition.{HasUniquePlaces}
use evmfs.Cli.Upload.Resume.{chunk_key}
use evmfs.Web.Progress.{ConfirmedUnit}
use evmfs.Web.ConfirmedMap.{ConfirmedMap, key_of_confirmed, set_unit, unit_values, confirmed_from}

abbrev IsNew : Text → ConfirmedMap → Type 0
IsNew key m = All (λ (e : Text × ConfirmedUnit). e.0 ≢ key) m

-- Every unit stands under its own key, and no key stands twice.
abbrev pub IsKeyed : ConfirmedMap → Type 0
IsKeyed [] = Unit
IsKeyed ((k, c) ∷ m) = (k ≡ key_of_confirmed c) × IsNew k m × IsKeyed m

set_unit-IsNew :
    (j key : Text) (c : ConfirmedUnit) (m : ConfirmedMap)
    → IsNew j m
    → key ≢ j
    → IsNew j (set_unit key c m)
unfolding set_unit
set_unit-IsNew j key c [] h ne = (ne, tt)
set_unit-IsNew j key c ((k, d) ∷ m) (first, h) ne = elim (Bool-cases (text_eq k key)) [
  | inl e ↦ rw e (first, h)
  | inr e ↦ rw e (first, set_unit-IsNew j key c m h ne)
]

ne_of_text_eq : (s t : Text) → text_eq s t ≡ false → t ≢ s
ne_of_text_eq s t e p = let same = (text_eq_iff s t).1 (sym p) in cc

pub set_unit-IsKeyed :
    (c : ConfirmedUnit) (m : ConfirmedMap) → IsKeyed m → IsKeyed (set_unit (key_of_confirmed c) c m)
unfolding set_unit
set_unit-IsKeyed c [] h = (refl, tt, tt)
set_unit-IsKeyed c ((k, d) ∷ m) (own, new, h) = elim (Bool-cases (text_eq k (key_of_confirmed c))) [
  | inl e ↦ rw e (text_eq_sound k (key_of_confirmed c) e, new, h)
  | inr e ↦
      let other : key_of_confirmed c ≢ k = ne_of_text_eq k (key_of_confirmed c) e in
      rw e (own, set_unit-IsNew k (key_of_confirmed c) c m new other, set_unit-IsKeyed c m h)
]

pub confirmed_from-IsKeyed :
    (m : ConfirmedMap) (saved : List ConfirmedUnit) → IsKeyed m → IsKeyed (confirmed_from m saved)
unfolding confirmed_from
confirmed_from-IsKeyed m [] h = h
confirmed_from-IsKeyed m (c ∷ saved) h =
    confirmed_from-IsKeyed (set_unit (key_of_confirmed c) c m) saved (set_unit-IsKeyed c m h)

IsNew-unique :
    (c : ConfirmedUnit) (k : Text) (m : ConfirmedMap)
    → k ≡ key_of_confirmed c
    → IsNew k m
    → IsKeyed m
    → All
        (λ (d : ConfirmedUnit). ¬ ((d.file_index ≡ c.file_index) × (d.chunk_index ≡ c.chunk_index)))
        (unit_values m)
IsNew-unique c k [] own new h = tt
IsNew-unique c k ((j, d) ∷ m) own (other, new) (own', new', h) =
    (λ same. other (own' ∙ ap₂ chunk_key same.0 same.1 ∙ sym own), IsNew-unique c k m own new h)

pub unit_values-HasUniquePlaces : (m : ConfirmedMap) → IsKeyed m → HasUniquePlaces (unit_values m)
unit_values-HasUniquePlaces [] h = tt
unit_values-HasUniquePlaces ((k, c) ∷ m) (own, new, h) =
    (IsNew-unique c k m own new h, unit_values-HasUniquePlaces m h)
