-- ===== src/Cli/Names/Sends.antt =====
-- cli/src/names.ts: when `registerCommand` sends its transaction, and which.
use evmfs.Prelude.{
  ◌≡◌, ◌≢◌, ◌↔◌, refl, sym, ◌∙◌, ap, ap₂, subst, ◌⊎◌, inl, inr, Bool, true, false, ◌&&◌, not,
  Option, some, none, [], ◌∷◌, length, leb, ltb, if◌then◌else◌, Bool-cases, both, arith,
}
use evmfs.Prelude.Text.{Text, text_eq, text_eq_iff, to_lower, truthy}
use evmfs.Prelude.ParseInt.{parse_int}
use evmfs.Contract.Names.{accepts_name}
use evmfs.Cli.Names.{
  NameOptions, NameCall, register_v2, register_v1, update_v2, update_v1, NameReply, matches_name,
  names_v2_address, zero_owner, is_v2_names, register_command, register_call, lacks_block, is_taken,
}
use evmfs.Cli.Names.Accepted.{accepts_name-matches}

module _ (lookup : Text → Option Text) (submit : NameCall → NameReply) (options : NameOptions) where
  abbrev may_register : Bool
  may_register =
      accepts_name (to_lower options.name)
      && (not (lacks_block lookup submit options)
          && not (is_taken (lookup (to_lower options.name))))

  register_command-sent :
      (register_command lookup submit options).sent
      ≡ (if may_register then some (register_call lookup submit options) else none)
  unfolding register_command
  register_command-sent =
      let name = to_lower options.name in
      let e = accepts_name-matches name in
      elim (Bool-cases (matches_name name)) [
        | inr m ↦ let f : accepts_name name ≡ false = rw m at e in rw (m, f, register_command)
        | inl m ↦ elim (Bool-cases (ltb 32 (length name))) [
          | inl l ↦
              let k : leb (length name) 32 ≡ false = ground arith in
              let f : accepts_name name ≡ false = e ∙ rw (m, k) in rw (m, l, f, register_command)
          | inr l ↦
              let k : leb (length name) 32 ≡ true = ground arith in
              let f : accepts_name name ≡ true = e ∙ rw (m, k) in
              rw (m, l, f, register_command)
                (elim (Bool-cases (lacks_block lookup submit options)) [
                  | inl b ↦ rw b
                  | inr b ↦
                      rw b
                        (elim (Bool-cases (is_taken (lookup name))) [ inl t ↦ rw t | inr t ↦ rw t ])
                ])
        ]
      ]

  -- The registry is the one of the second version.
  abbrev pub IsV2 : Type 0
  IsV2 = to_lower options.names_contract ≡ to_lower names_v2_address

  -- The contract takes the name, a registry of the first version is given a block, and the name has no
  -- owner.
  pub record MayRegister : Type 0 where
    pub accepted : accepts_name (to_lower options.name) ≡ true
    pub placed : IsV2 ⊎ ((block : Text) × (options.block ≡ some block) × (block ≢ []))
    pub free : (owner : Text) → lookup (to_lower options.name) ≡ some owner → owner ≡ zero_owner

  -- The call that the registry's version has, of the name in lower case, the manifest and, for the
  -- first version, the number that the block is read as.
  abbrev pub IsOwnCall : NameCall → Type 0
  IsOwnCall (register_v2 name manifest) =
      IsV2 × (name ≡ to_lower options.name) × (manifest ≡ options.manifest)
  IsOwnCall (register_v1 name block manifest) =
      (¬ IsV2)
      × (name ≡ to_lower options.name)
      × (manifest ≡ options.manifest)
      × (given : Text) × (options.block ≡ some given)
      × (block ≡ parse_int 10 given)
  IsOwnCall (update_v2 name manifest) = ⊥
  IsOwnCall (update_v1 name block manifest) = ⊥

  IsOwnCall-unique : (a b : NameCall) → IsOwnCall a → IsOwnCall b → a ≡ b
  IsOwnCall-unique (register_v2 n m) (register_v2 o p) (v, e, f) (w, g, h) =
      ap₂ register_v2 (e ∙ sym g) (f ∙ sym h)
  IsOwnCall-unique (register_v2 n m) (register_v1 o b p) (v, e, f) k = absurd (k.0 v)
  IsOwnCall-unique (register_v1 n c m) (register_v2 o p) h k = absurd (h.0 k.0)
  IsOwnCall-unique (register_v1 n c m) (register_v1 o d p) (v, e, f, t, i, j) (w, g, h, u, k, l) =
      let same : t ≡ u = cc in let block : c ≡ d = j ∙ ap (parse_int 10) same ∙ sym l in cc
  IsOwnCall-unique (register_v2 n m) (update_v2 o p) h k = absurd k
  IsOwnCall-unique (register_v2 n m) (update_v1 o d p) h k = absurd k
  IsOwnCall-unique (register_v1 n c m) (update_v2 o p) h k = absurd k
  IsOwnCall-unique (register_v1 n c m) (update_v1 o d p) h k = absurd k
  IsOwnCall-unique (update_v2 n m) b h k = absurd h
  IsOwnCall-unique (update_v1 n c m) b h k = absurd h

  is_v2_names_iff : (is_v2_names options.names_contract ≡ true) ↔ IsV2
  is_v2_names_iff = text_eq_iff (to_lower options.names_contract) (to_lower names_v2_address)

  given_block :
      (block : Option Text)
      → truthy block ≡ true
      → (given : Text) × (block ≡ some given) × (given ≢ [])
  given_block none h = cc
  given_block (some []) h = cc
  given_block (some (c ∷ t)) h = (c ∷ t, refl, λ e. cc)

  truthy_block :
      (block : Option Text) (given : Text) → block ≡ some given → given ≢ [] → truthy block ≡ true
  truthy_block none given e n = cc
  truthy_block (some []) given e n = let same : [] ≡ given = cc in absurd (n (sym same))
  truthy_block (some (c ∷ t)) given e n = refl

  lacks_block_iff :
      (lacks_block lookup submit options ≡ false)
      ↔ (IsV2 ⊎ ((block : Text) × (options.block ≡ some block) × (block ≢ [])))
  lacks_block_iff = (to, from)
    where
      to :
          lacks_block lookup submit options ≡ false
          → IsV2 ⊎ ((block : Text) × (options.block ≡ some block) × (block ≢ []))
      to h = elim (Bool-cases (is_v2_names options.names_contract)) [
        | inl v ↦ inl (is_v2_names_iff.0 v)
        | inr v ↦ elim (Bool-cases (truthy options.block)) [
          | inl b ↦ inr (given_block options.block b)
          | inr b ↦ let h' = rw (v, b) at h in cc
        ]
      ]

      from :
          IsV2 ⊎ ((block : Text) × (options.block ≡ some block) × (block ≢ []))
          → lacks_block lookup submit options ≡ false
      from (inl v) = rw (is_v2_names_iff.1 v) refl
      from (inr (block, e, n)) =
          let b = truthy_block options.block block e n in
          elim (Bool-cases (is_v2_names options.names_contract)) [
            | inl v ↦ rw v refl
            | inr v ↦ rw (v, b) refl
          ]

  is_taken_iff :
      (answer : Option Text)
      → (is_taken answer ≡ false) ↔ ((owner : Text) → answer ≡ some owner → owner ≡ zero_owner)
  is_taken_iff none = ((λ h owner e. cc), λ h. refl)
  is_taken_iff (some x) = (to, from)
    where
      to : is_taken (some x) ≡ false → (owner : Text) → some x ≡ some owner → owner ≡ zero_owner
      to h owner e = elim (Bool-cases (text_eq x zero_owner)) [
        | inl z ↦ let same : x ≡ owner = cc in sym same ∙ (text_eq_iff x zero_owner).0 z
        | inr z ↦ let h' = rw z at h in cc
      ]

      from : ((owner : Text) → some x ≡ some owner → owner ≡ zero_owner) → is_taken (some x) ≡ false
      from h = let z = (text_eq_iff x zero_owner).1 (h x refl) in rw z refl

  may_register_iff : (may_register ≡ true) ↔ MayRegister
  may_register_iff = (to, from)
    where
      to : may_register ≡ true → MayRegister
      to h =
          let (accepted, rest) = both h in
          let (block, owner) = both rest in
          record {
            accepted = accepted;
            placed = lacks_block_iff.0 (not_true _ block);
            free = (is_taken_iff (lookup (to_lower options.name))).0 (not_true _ owner);
          }
        where
          not_true : (b : Bool) → not b ≡ true → b ≡ false
          not_true true e = cc
          not_true false e = refl

      from : MayRegister → may_register ≡ true
      from m =
          rw
            (
              m.accepted,
              lacks_block_iff.1 m.placed,
              (is_taken_iff (lookup (to_lower options.name))).1 m.free,
            )
            refl

  register_call-IsOwnCall :
      IsV2 ⊎ ((block : Text) × (options.block ≡ some block) × (block ≢ []))
      → IsOwnCall (register_call lookup submit options)
  unfolding register_call
  register_call-IsOwnCall placed = elim (Bool-cases (is_v2_names options.names_contract)) [
    | inl v ↦ rw v (is_v2_names_iff.0 v, refl, refl)
    | inr v ↦ elim placed [
      | inl two ↦ let v' = is_v2_names_iff.1 two in absurd cc
      | inr (block, e, n) ↦
          rw v ((λ two. let v' = is_v2_names_iff.1 two in cc), refl, refl, block, e, rw e refl)
    ]
  ]

  -- For a name of ASCII characters, `registerCommand` sends a call exactly if the name, in lower case,
  -- is one that the contract takes and has no owner, a registry of the first version is given a block,
  -- and the call is `register` of the registry's version, of that name, the manifest and, for the first
  -- version, the number that the block is read as.
  pub register_command-sends :
      (call : NameCall)
      → ((register_command lookup submit options).sent ≡ some call) ↔ (MayRegister × IsOwnCall call)
  register_command-sends call = (to, from)
    where
      to : (register_command lookup submit options).sent ≡ some call → MayRegister × IsOwnCall call
      to h = elim (Bool-cases may_register) [
        | inr no_call ↦ let h' = sym register_command-sent ∙ h in let h2 = rw no_call at h' in cc
        | inl may ↦
            let h' = sym register_command-sent ∙ h in
            let h2 : some (register_call lookup submit options) ≡ some call = rw may at h' in
            let same : register_call lookup submit options ≡ call = cc in
            let m = may_register_iff.0 may in
            (m, subst IsOwnCall same (register_call-IsOwnCall m.placed))
      ]

      from :
          MayRegister × IsOwnCall call → (register_command lookup submit options).sent ≡ some call
      from (m, own) =
          let may = may_register_iff.1 m in
          register_command-sent
          ∙ rw may (
              ap some (
                IsOwnCall-unique (register_call lookup submit options) call
                  (register_call-IsOwnCall m.placed) own))
