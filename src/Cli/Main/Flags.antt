-- ===== src/Cli/Main/Flags.antt =====
-- cli/src/index.ts and cli/src/upload.ts: the flag that is to skip the block index.
use evmfs.Prelude.{
  ℕ, ◌≡◌, ◌≢◌, refl, sym, ◌∙◌, ap, subst, ◌⊎◌, inl, inr, Bool, true, false, Option, none, some,
  List, [], if◌then◌else◌, ◌∷◌, map, Option-cases, Bool-cases, ok,
}
use evmfs.Prelude.Text.{Text, codes, text_eq, text_eq_refl, truthy}
use evmfs.Prelude.Member.{In, In-map_of, any_of_In}
use evmfs.Cli.BlockIndex.{
  is_v2_contract, register_in_block_index, registration_of, registered, get_block_index_address,
}
use evmfs.Cli.Upload.Command.{UploadOptions, Env, registration_for}
use evmfs.Cli.Main.{
  Declared, OptionValue, undefined, negated, given, Options, Commander, Command, upload, deploy,
  register, update_name, verify, info, Action, missing_rpc, missing_private_key, uploads, deploys,
  registers, updates, verifies, truthy_value, upload_declared, declared, upload_options,
  name_options, verify_options, with_rpc, with_keys, action, program,
}

-- The flags of `upload` and `deploy`, and the names that commander gives their values.
abbrev upload_flags : List Text
upload_flags =
    codes "--folder"
    ∷ codes "--rpc"
    ∷ codes "--private-key"
    ∷ codes "--chain-id"
    ∷ codes "--contract"
    ∷ codes "--gas-limit"
    ∷ codes "--gateway"
    ∷ codes "--block-index"
    ∷ codes "--no-block-index"
    ∷ []

abbrev upload_names : List Text
upload_names =
    codes "folder"
    ∷ codes "rpc"
    ∷ codes "privateKey"
    ∷ codes "chainId"
    ∷ codes "contract"
    ∷ codes "gasLimit"
    ∷ codes "gateway"
    ∷ codes "blockIndex"
    ∷ codes "blockIndex"
    ∷ []

-- What commander documents: a name is that of the flag in camel case, for a flag `--no-…` that of the
-- flag without `no-`, and no other name has a value.
pub record IsCommander (c : Commander) : Type 0 where
  pub camel_case : map c.attribute upload_flags ≡ upload_names
  pub known :
      (decls : List Declared) (args : List Text) (opts : Options) (name : Text)
      → c.parse decls args ≡ some opts
      → opts name ≢ undefined
      → (d : Declared) × In d decls × (c.attribute d.flag ≡ name)

-- The options of an upload or a deployment.
abbrev pub upload_options_of : Action → Option UploadOptions
upload_options_of (uploads o) = some o
upload_options_of (deploys o) = some o
upload_options_of missing_rpc = none
upload_options_of missing_private_key = none
upload_options_of (registers o) = none
upload_options_of (updates o) = none
upload_options_of (verifies o) = none

-- The address of the block index: the one that is given, or that of Ethereum or Monad without one.
abbrev pub IsIndex : UploadOptions → Text → Type 0
IsIndex o addr =
    ((o.block_index ≡ some addr) × (addr ≢ []))
    ⊎ ((truthy o.block_index ≡ false)
        × (((o.chain_id ≡ codes "1") × (addr ≡ codes "0x85fce8503683a76371568f2f1347cf2c85dddc39"))
            ⊎ ((o.chain_id ≡ codes "143")
                × (addr ≡ codes "0x2b62d34557e7cb8cb31dc83d2132396d0ef5cad0"))))

given_address :
    (chain_id addr : Text) → addr ≢ [] → get_block_index_address chain_id (some addr) ≡ some addr
unfolding get_block_index_address
given_address chain_id [] n = absurd (n refl)
given_address chain_id (c ∷ addr) n = refl

default_address :
    (chain_id : Text) (override : Option Text)
    → truthy override ≡ false
    → get_block_index_address chain_id override ≡ get_block_index_address chain_id none
unfolding get_block_index_address
default_address chain_id none h = refl
default_address chain_id (some []) h = refl
default_address chain_id (some (c ∷ addr)) h = cc

index_address :
    (o : UploadOptions) (addr : Text)
    → IsIndex o addr
    → get_block_index_address o.chain_id o.block_index ≡ some addr
unfolding get_block_index_address
index_address o addr (inl (same, n)) = rw same (given_address o.chain_id addr n)
index_address o addr (inr (empty, inl (chain, same))) =
    default_address o.chain_id o.block_index empty ∙ rw (chain, same) refl
index_address o addr (inr (empty, inr (chain, same))) =
    default_address o.chain_id o.block_index empty ∙ rw (chain, same) refl

register_in_block_index-registered :
    (e : Env) (o : UploadOptions) (hash : Text) (block : ℕ) (addr : Text)
    → IsIndex o addr
    → e.register addr hash block ≡ ok true
    → register_in_block_index e.register o.chain_id hash block o.block_index ≡ registered
unfolding register_in_block_index registration_of
register_in_block_index-registered e o hash block addr index receipt =
    rw (index_address o addr index, register_in_block_index) (rw (receipt, registration_of) refl)

OptionValue-cases : (v : OptionValue) → (v ≡ undefined) ⊎ (v ≢ undefined)
OptionValue-cases undefined = inl refl
OptionValue-cases negated = inr (λ e. cc)
OptionValue-cases (given t) = inr (λ e. cc)

module _ (c : Commander) (commander : IsCommander c) (env : Text → Option Text) where
  no_flag :
      (args : List Text) (opts : Options)
      → c.parse (upload_declared env) args ≡ some opts
      → opts (codes "noBlockIndex") ≡ undefined
  unfolding upload_declared
  no_flag args opts h = elim (OptionValue-cases (opts (codes "noBlockIndex"))) [
    | inl e ↦ e
    | inr present ↦
        let (d, i, e) =
          commander.known (upload_declared env) args opts (codes "noBlockIndex") h present in
        let flag : Declared → Text = λ x. x.flag in
        let among : In (c.attribute d.flag) (map c.attribute upload_flags) =
          In-map_of c.attribute d.flag upload_flags (In-map_of flag d (upload_declared env) i) in
        let listed : In (codes "noBlockIndex") upload_names =
          subst (λ t. In t upload_names) e
            (subst (In (c.attribute d.flag)) commander.camel_case among) in
        let same =
          any_of_In (text_eq (codes "noBlockIndex")) (codes "noBlockIndex") upload_names listed
            (text_eq_refl (codes "noBlockIndex")) in
        cc
  ]

  with_rpc-options :
      (opts : Options) (run : Action) (o : UploadOptions)
      → upload_options_of (with_rpc opts run) ≡ some o
      → upload_options_of run ≡ some o
  unfolding with_rpc
  with_rpc-options opts run o h = elim (Bool-cases (truthy_value (opts (codes "rpc")))) [
    | inr e ↦ let h' = rw e at h in cc
    | inl e ↦ rw e at h
  ]

  with_keys-options :
      (opts : Options) (run : Action) (o : UploadOptions)
      → upload_options_of (with_keys opts run) ≡ some o
      → upload_options_of run ≡ some o
  unfolding with_keys
  with_keys-options opts run o h =
      let keyed = if truthy_value (opts (codes "privateKey")) then run else missing_private_key in
      let h' = with_rpc-options opts keyed o h in
      elim (Bool-cases (truthy_value (opts (codes "privateKey")))) [
        | inr e ↦ let h2 = rw e at h' in cc
        | inl e ↦ rw e at h'
      ]

  action-options :
      (command : Command) (opts : Options) (o : UploadOptions)
      → upload_options_of (action command opts) ≡ some o
      → (declared env command ≡ upload_declared env) × (upload_options opts ≡ o)
  unfolding action declared
  action-options upload opts o h =
      let k = with_keys-options opts (uploads (upload_options opts)) o h in (refl, cc)
  action-options deploy opts o h =
      let k = with_keys-options opts (deploys (upload_options opts)) o h in (refl, cc)
  action-options register opts o h =
      let k = with_keys-options opts (registers (name_options opts)) o h in cc
  action-options update_name opts o h =
      let k = with_keys-options opts (updates (name_options opts)) o h in cc
  action-options verify opts o h =
      let k = with_rpc-options opts (verifies (verify_options opts)) o h in cc
  action-options info opts o h =
      let k = with_rpc-options opts (verifies (verify_options opts)) o h in cc

  -- Let commander take the options of an upload or a deployment from a command line, with or without
  -- `--no-block-index`, let the contract not be V2, and let the block index be at an address: the one
  -- that is given or else the one of the chain. If `register` there, called with the manifest's hash
  -- and block, gets a receipt, the manifest is registered: the flag's value has another name than the
  -- one that the upload reads.
  pub program-registers :
      (command : Command) (args : List Text) (a : Action) (o : UploadOptions)
      → program c env command args ≡ some a
      → upload_options_of a ≡ some o
      → is_v2_contract o.contract ≡ false
      → (e : Env) (include_filenames : Bool) (hash : Text) (block : ℕ) (addr : Text) → hash ≢ []
      → IsIndex o addr
      → e.register addr hash block ≡ ok true
      → registration_for e o include_filenames (some hash) block ≡ some registered
  unfolding program registration_for upload_options
  program-registers command args a o h k v1 e include_filenames hash block addr nonempty index
        receipt =
      elim (Option-cases (c.parse (declared env command) args)) [
        | inl none_read ↦ let h' = rw none_read at h in cc
        | inr (opts, r) ↦
            let h' : some (action command opts) ≡ some a = rw r at h in
            let same : action command opts ≡ a = cc in
            let (decls, options) = action-options command opts o (ap upload_options_of same ∙ k) in
            let unset = no_flag args opts (ap (λ d. c.parse d args) (sym decls) ∙ r) in
            let flag : o.no_block_index ≡ false =
              ap (λ (x : UploadOptions). x.no_block_index) (sym options) ∙ ap truthy_value unset in
            let named : truthy (some hash) ≡ true = truthy_ne hash nonempty in
            rw (flag, v1, named)
              (ap some (register_in_block_index-registered e o hash block addr index receipt))
      ]
    where
      truthy_ne : (t : Text) → t ≢ [] → truthy (some t) ≡ true
      truthy_ne [] n = absurd (n refl)
      truthy_ne (x ∷ t) n = refl
