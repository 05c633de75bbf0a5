-- ===== src/Cli/Main.antt =====
-- cli/src/index.ts: the options that the commands declare, and what their actions check. The package
-- commander, which reads the command line, and the process environment are parameters.
pub mod Flags
use evmfs.Prelude.{Bool, true, false, Option, none, some, List, [], ◌∷◌, if◌then◌else◌}
use mathlib.Core.Option
use evmfs.Prelude.Text.{Text, codes}
use evmfs.Cli.Names.{NameOptions, names_v2_address}
use evmfs.Cli.Upload.Command.{UploadOptions}

-- `.option(flag, …, fallback)`, or `.requiredOption(flag, …)`.
pub record Declared : Type 0 where
  pub flag : Text
  pub required : Bool
  pub fallback : Option Text

-- What an action finds under a name: nothing, a text, or the `false` of an option that is negated.
pub data OptionValue : Type 0 where
  undefined negated : OptionValue
  given : Text → OptionValue

abbrev pub Options : Type 0
Options = Text → OptionValue

-- commander: the name under which it gives the value of a flag, and the options that it reads for an
-- action from the command line, or none when it ends the program itself.
pub record Commander : Type 0 where
  pub attribute : Text → Text
  pub parse : List Declared → List Text → Option Options

pub record VerifyOptions : Type 0 where
  pub hash : Text
  pub contract : Option Text

pub data Command : Type 0 where
  upload deploy register update_name verify info : Command

-- What an action does: an error, or a command with its options.
pub data Action : Type 0 where
  missing_rpc missing_private_key : Action
  uploads deploys : UploadOptions → Action
  registers updates : NameOptions → Action
  verifies : VerifyOptions → Action

abbrev pub truthy_value : OptionValue → Bool
truthy_value undefined = false
truthy_value negated = false
truthy_value (given []) = false
truthy_value (given (_ ∷ _)) = true

-- A value where a text is looked for; `false` counts as no text.
abbrev pub text_of : OptionValue → Option Text
text_of undefined = none
text_of negated = none
text_of (given t) = some t

-- The value of an option that is required or has a default.
abbrev pub string_of : OptionValue → Text
string_of undefined = []
string_of negated = []
string_of (given t) = t

abbrev required_option : Text → Declared
required_option flag = record { flag = flag; required = true; fallback = none }

abbrev option : Text → Option Text → Declared
option flag fallback = record { flag = flag; required = false; fallback = fallback }

-- `x ?? fallback`
abbrev with_default : Option Text → Text → Option Text
with_default none fallback = some fallback
with_default (some t) fallback = some t

module _ (env : Text → Option Text) where
  unfoldable pub upload_declared : List Declared
  upload_declared =
      required_option (codes "--folder")
      ∷ option (codes "--rpc") (env (codes "EVMFS_RPC"))
      ∷ option (codes "--private-key") (env (codes "EVMFS_PRIVATE_KEY"))
      ∷ option (codes "--chain-id") (with_default (env (codes "EVMFS_CHAIN_ID")) (codes "1"))
      ∷ option (codes "--contract") (env (codes "EVMFS_CONTRACT"))
      ∷ option (codes "--gas-limit")
          (with_default (env (codes "EVMFS_GAS_LIMIT")) (codes "25000000"))
      ∷ option (codes "--gateway")
          (with_default (env (codes "EVMFS_GATEWAY")) (codes "https://evmfs.xyz"))
      ∷ option (codes "--block-index") (env (codes "EVMFS_BLOCK_INDEX"))
      ∷ option (codes "--no-block-index") none
      ∷ []

  abbrev name_declared : List Declared
  name_declared =
      required_option (codes "--name")
      ∷ required_option (codes "--manifest")
      ∷ option (codes "--block") none
      ∷ option (codes "--rpc") (env (codes "EVMFS_RPC"))
      ∷ option (codes "--private-key") (env (codes "EVMFS_PRIVATE_KEY"))
      ∷ option (codes "--names-contract")
          (with_default (env (codes "EVMFS_NAMES_CONTRACT")) names_v2_address)
      ∷ []

  abbrev verify_declared : List Declared
  verify_declared =
      required_option (codes "--hash")
      ∷ option (codes "--rpc") (env (codes "EVMFS_RPC"))
      ∷ option (codes "--chain-id") (with_default (env (codes "EVMFS_CHAIN_ID")) (codes "1"))
      ∷ option (codes "--contract") (env (codes "EVMFS_CONTRACT"))
      ∷ []

  unfoldable pub declared : Command → List Declared
  unfolding upload_declared
  declared upload = upload_declared
  declared deploy = upload_declared
  declared register = name_declared
  declared update_name = name_declared
  declared verify = verify_declared
  declared info = verify_declared

-- The options as the commands read them.
unfoldable pub upload_options : Options → UploadOptions
upload_options opts = record {
  folder = string_of (opts (codes "folder"));
  chain_id = string_of (opts (codes "chainId"));
  contract = text_of (opts (codes "contract"));
  gas_limit = string_of (opts (codes "gasLimit"));
  gateway = string_of (opts (codes "gateway"));
  block_index = text_of (opts (codes "blockIndex"));
  no_block_index = truthy_value (opts (codes "noBlockIndex"));
}

abbrev pub name_options : Options → NameOptions
name_options opts = record {
  name = string_of (opts (codes "name"));
  manifest = string_of (opts (codes "manifest"));
  block = text_of (opts (codes "block"));
  names_contract = string_of (opts (codes "namesContract"));
}

abbrev pub verify_options : Options → VerifyOptions
verify_options opts = record {
  hash = string_of (opts (codes "hash"));
  contract = text_of (opts (codes "contract"));
}

-- `if (!opts.rpc) …`, and `if (!opts.privateKey) …`
unfoldable pub with_rpc : Options → Action → Action
with_rpc opts run = if truthy_value (opts (codes "rpc")) then run else missing_rpc

unfoldable pub with_keys : Options → Action → Action
unfolding with_rpc
with_keys opts run =
    with_rpc opts (if truthy_value (opts (codes "privateKey")) then run else missing_private_key)

unfoldable pub action : Command → Options → Action
unfolding upload_options with_rpc with_keys
action upload opts = with_keys opts (uploads (upload_options opts))
action deploy opts = with_keys opts (deploys (upload_options opts))
action register opts = with_keys opts (registers (name_options opts))
action update_name opts = with_keys opts (updates (name_options opts))
action verify opts = with_rpc opts (verifies (verify_options opts))
action info opts = with_rpc opts (verifies (verify_options opts))

-- `program.parse()`, for a command line that names the command.
unfoldable pub program : Commander → (Text → Option Text) → Command → List Text → Option Action
unfolding declared action
program c env command args = Option.map (action command) (c.parse (declared env command) args)
