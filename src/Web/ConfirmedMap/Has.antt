-- ===== src/Web/ConfirmedMap/Has.antt =====
-- web/src/lib/evmfs.ts, `uploadFiles`: which units the map has.
use evmfs.Prelude.{◌≡◌, inl, inr, true, List, [], ◌∷◌, All, Bool-cases, both}
use evmfs.Prelude.Text.{Text, text_eq, text_eq_refl}
use evmfs.Web.Units.{UploadUnit}
use evmfs.Web.Progress.{ConfirmedUnit}
use evmfs.Web.ConfirmedMap.{ConfirmedMap, compute_confirmed_key, set_unit, has_unit, all_confirmed}

-- Every unit of the list has its key in the map.
abbrev pub AllIn : ConfirmedMap → List UploadUnit → Type 0
AllIn m units = All (λ u. has_unit (compute_confirmed_key u) m ≡ true) units

-- The second map has the keys of the first.
abbrev pub Extends : ConfirmedMap → ConfirmedMap → Type 0
Extends m n = (key : Text) → has_unit key m ≡ true → has_unit key n ≡ true

pub has_unit-set_unit :
    (key : Text) (c : ConfirmedUnit) (m : ConfirmedMap) → has_unit key (set_unit key c m) ≡ true
unfolding has_unit set_unit
has_unit-set_unit key c [] = rw (text_eq_refl key)
has_unit-set_unit key c ((k, d) ∷ m) = elim (Bool-cases (text_eq k key)) [
  | inl e ↦ rw (e, e)
  | inr e ↦ rw (e, e) (has_unit-set_unit key c m)
]

pub set_unit-Extends :
    (key : Text) (c : ConfirmedUnit) (m : ConfirmedMap) → Extends m (set_unit key c m)
unfolding has_unit set_unit
set_unit-Extends key c [] j h = cc
set_unit-Extends key c ((k, d) ∷ m) j h = elim (Bool-cases (text_eq k j)) [
  | inl e ↦ elim (Bool-cases (text_eq k key)) [ inl f ↦ rw (f, e) | inr f ↦ rw (f, e) ]
  | inr e ↦
      let h' : has_unit j m ≡ true = rw e at h in
      elim (Bool-cases (text_eq k key)) [
        | inl f ↦ rw (f, e) h'
        | inr f ↦ rw (f, e) (set_unit-Extends key c m j h')
      ]
]

pub AllIn-Extends :
    (m n : ConfirmedMap) (units : List UploadUnit) → Extends m n → AllIn m units → AllIn n units
AllIn-Extends m n [] x h = tt
AllIn-Extends m n (u ∷ units) x (first, h) =
    (x (compute_confirmed_key u) first, AllIn-Extends m n units x h)

pub all_confirmed-AllIn :
    (m : ConfirmedMap) (units : List UploadUnit) → all_confirmed m units ≡ true → AllIn m units
unfolding all_confirmed
all_confirmed-AllIn m [] h = tt
all_confirmed-AllIn m (u ∷ units) h =
    let (first, rest) = both h in (first, all_confirmed-AllIn m units rest)
