-- ===== src/Cli/Batch/Order.antt =====
-- cli/src/batch.ts, `packBatches`: the order of the units.
use evmfs.Prelude.{
  ℕ, ◌≡◌, refl, sym, ◌∙◌, ap, inl, inr, true, Option, List, [], ◌∷◌, ◌++◌, append_assoc, append-nil,
  Bool-cases,
}
use evmfs.Cli.Batch.{
  UploadUnit, Batch, Packing, start, current, overflows, push, is_empty, pack_step, finish,
  pack_from, pack_batches,
}

abbrev pub units_of : List Batch → List UploadUnit
units_of [] = []
units_of (b ∷ batches) = b.units ++ units_of batches

pub units_of-append : (xs ys : List Batch) → units_of (xs ++ ys) ≡ units_of xs ++ units_of ys
units_of-append [] ys = refl
units_of-append (x ∷ xs) ys =
    ap (λ t. x.units ++ t) (units_of-append xs ys)
    ∙ sym (append_assoc x.units (units_of xs) (units_of ys))

-- What the loop variables hold in one list.
abbrev held : Packing → List UploadUnit
held p = units_of p.batches ++ p.current_units

held-push : (p : Packing) (u : UploadUnit) → held (push p u) ≡ held p ++ u ∷ []
held-push p u = sym (append_assoc (units_of p.batches) p.current_units (u ∷ []))

held-start :
    (p : Packing) (u : UploadUnit)
    → held (push (start (p.batches ++ current p ∷ [])) u) ≡ held p ++ u ∷ []
held-start p u =
    ap (λ t. t ++ u ∷ [])
      (units_of-append p.batches (current p ∷ [])
        ∙ ap (λ t. units_of p.batches ++ t) (append-nil p.current_units))

held-pack_step :
    (limit : Option ℕ) (p : Packing) (u : UploadUnit)
    → held (pack_step limit p u) ≡ held p ++ u ∷ []
unfolding pack_step
held-pack_step limit p u = elim (Bool-cases (is_empty p.current_units)) [
  | inl e ↦ rw (e, pack_step) (held-push p u)
  | inr e ↦
      rw (e, pack_step)
        (elim (Bool-cases (overflows limit p u)) [
          | inl o ↦ rw o (held-start p u)
          | inr o ↦ rw o (held-push p u)
        ])
]

held-pack_from :
    (limit : Option ℕ) (p : Packing) (units : List UploadUnit)
    → held (pack_from limit p units) ≡ held p ++ units
unfolding pack_from
held-pack_from limit p [] = sym (append-nil (held p))
held-pack_from limit p (u ∷ units) =
    held-pack_from limit (pack_step limit p u) units
    ∙ ap (λ t. t ++ units) (held-pack_step limit p u)
    ∙ append_assoc (held p) (u ∷ []) units

is_empty-nil : (units : List UploadUnit) → is_empty units ≡ true → units ≡ []
is_empty-nil [] h = refl
is_empty-nil (u ∷ units) h = cc

units_of-finish : (p : Packing) → units_of (finish p) ≡ held p
unfolding finish
units_of-finish p = elim (Bool-cases (is_empty p.current_units)) [
  | inl e ↦ rw e (
      sym (append-nil (units_of p.batches))
      ∙ ap (λ t. units_of p.batches ++ t) (sym (is_empty-nil p.current_units e)))
  | inr e ↦ rw e (
      units_of-append p.batches (current p ∷ [])
      ∙ ap (λ t. units_of p.batches ++ t) (append-nil p.current_units))
]

-- Packing loses, repeats and reorders nothing: the batches' units, in order, are the given units.
pub units_of-pack_batches :
    (units : List UploadUnit) (limit : Option ℕ) → units_of (pack_batches units limit) ≡ units
unfolding pack_batches
units_of-pack_batches units limit =
    units_of-finish (pack_from limit (start []) units) ∙ held-pack_from limit (start []) units
