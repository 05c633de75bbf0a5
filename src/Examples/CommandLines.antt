-- ===== src/Examples/CommandLines.antt =====
-- A command line with the flag --no-block-index.
use evmfs.Prelude.{
  ◌≡◌, ◌≢◌, refl, ◌∙◌, ap, inl, inr, true, false, ◌&&◌, Option, none, some, List, [], ◌∷◌, any,
  Bool-cases, if◌then◌else◌,
}
use evmfs.Prelude.Text.{Text, codes, text_eq, text_eq_sound, to_lower}
use evmfs.Prelude.Member.{In}
use evmfs.Cli.BlockIndex.{is_v2_contract, registered}
use evmfs.Cli.Upload.Command.{UploadOptions, registration_for}
use evmfs.Cli.Main.{
  Declared, OptionValue, undefined, negated, given, Options, Commander, upload, uploads,
  upload_options, upload_declared, with_keys, with_rpc, action, declared, program,
}
use evmfs.Cli.Main.Flags.{IsCommander, program-registers}
use evmfs.Examples.World.{env}

-- The names of the flags that the example needs.
abbrev name_of : List (Text × Text) → Text → Text
name_of [] flag = flag
name_of ((f, n) ∷ names) flag =
    let later = name_of names flag in if text_eq f flag then n else later

abbrev attribute : Text → Text
attribute = name_of (
    (codes "--folder", codes "folder")
    ∷ (codes "--rpc", codes "rpc")
    ∷ (codes "--private-key", codes "privateKey")
    ∷ (codes "--chain-id", codes "chainId")
    ∷ (codes "--contract", codes "contract")
    ∷ (codes "--gas-limit", codes "gasLimit")
    ∷ (codes "--gateway", codes "gateway")
    ∷ (codes "--block-index", codes "blockIndex")
    ∷ (codes "--no-block-index", codes "blockIndex")
    ∷ [])

-- Its default, the text "a" without one, and `false` where the flag is negated.
abbrev value_of : List Text → Declared → OptionValue
value_of args d =
    if text_eq d.flag (codes "--block-index") && any (text_eq (codes "--no-block-index")) args
    then negated
    else elim d.fallback [ none ↦ given (codes "a") | some t ↦ given t ]

value_in : List Text → List Declared → Options
value_in args [] name = undefined
value_in args (d ∷ decls) name =
    let later = value_in args decls name in
    if text_eq (attribute d.flag) name then value_of args d else later

abbrev commander : Commander
commander = record { attribute = attribute; parse = λ decls args. some (value_in args decls) }

value_in-declared :
    (args : List Text) (decls : List Declared) (name : Text)
    → value_in args decls name ≢ undefined
    → (d : Declared) × In d decls × (attribute d.flag ≡ name)
unfolding value_in
value_in-declared args [] name h = absurd (h refl)
value_in-declared args (d ∷ decls) name h = elim (Bool-cases (text_eq (attribute d.flag) name)) [
  | inl e ↦ (d, inl refl, text_eq_sound (attribute d.flag) name e)
  | inr e ↦ let (x, i, same) = value_in-declared args decls name (rw e at h) in (x, inr i, same)
]

commander-IsCommander : IsCommander commander
commander-IsCommander = record {
  camel_case = refl;
  known = λ decls args opts name h present.
      let same : opts ≡ value_in args decls = cc in
      value_in-declared args decls name (λ e. present (ap (λ (o : Options). o name) same ∙ e));
}

abbrev args : List Text
args = codes "--no-block-index" ∷ []

abbrev nothing_set : Text → Option Text
nothing_set name = none

abbrev options : UploadOptions
options = record {
  folder = codes "a";
  chain_id = codes "1";
  contract = some (codes "a");
  gas_limit = codes "25000000";
  gateway = codes "https://evmfs.xyz";
  block_index = none;
  no_block_index = false;
}

runs : program commander nothing_set upload args ≡ some (uploads options)
unfolding program upload_options upload_declared with_keys with_rpc action declared value_in
runs = refl

other_contract : is_v2_contract options.contract ≡ false
unfolding is_v2_contract to_lower
other_contract = refl

program-registers_example : registration_for env options true (some (codes "h")) 8 ≡ some registered
program-registers_example =
    program-registers commander commander-IsCommander nothing_set upload args (uploads options)
      options runs refl other_contract env true (codes "h") 8
      (codes "0x85fce8503683a76371568f2f1347cf2c85dddc39") (λ e. cc) (inr (refl, inl (refl, refl)))
      refl
