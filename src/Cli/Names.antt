-- ===== src/Cli/Names.antt =====
-- cli/src/names.ts: registering and updating a name. The registry and its answers are parameters.
pub mod Accepted
pub mod Sends
use evmfs.Prelude.{
  ℕ, Bool, true, false, ◌&&◌, ◌||◌, not, Option, none, some, List, [], ◌∷◌, length, leb, ltb, ◌==◌,
  if◌then◌else◌,
}
use evmfs.Prelude.Text.{Text, codes, text_eq, to_lower, truthy}
use evmfs.Prelude.ParseInt.{Parsed, parse_int}

abbrev pub names_v2_address : Text
names_v2_address = codes "0x86342282EdF4A1C50249f16f4CB11c5921455730"

abbrev pub zero_owner : Text
zero_owner = codes "0x0000000000000000000000000000000000000000"

-- `RegisterOptions` and `UpdateOptions`, as far as the commands read them.
pub record NameOptions : Type 0 where
  pub name : Text
  pub manifest : Text
  pub block : Option Text
  pub names_contract : Text

-- `register` carries the fee of 0.001 ether; the contract of the first version takes a block.
pub data NameCall : Type 0 where
  register_v2 : Text → Text → NameCall
  register_v1 : Text → Parsed → Text → NameCall
  update_v2 : Text → Text → NameCall
  update_v1 : Text → Parsed → Text → NameCall

-- What comes of a transaction: an exception, no receipt, or a receipt with its status.
pub data NameReply : Type 0 where
  thrown : NameReply
  no_receipt : NameReply
  mined : ℕ → NameReply

pub data NameExit : Type 0 where
  bad_name : NameExit
  long_name : NameExit
  no_block : NameExit
  already_registered : NameExit
  uncaught : NameExit
  reverted : NameExit
  confirmed : NameExit

-- How a command ends, and the transaction that it has sent.
pub record NameOutcome : Type 0 where
  pub exit : NameExit
  pub sent : Option NameCall

abbrev pub is_v2_names : Text → Bool
is_v2_names addr = text_eq (to_lower addr) (to_lower names_v2_address)

-- `[a-z0-9]` and `[a-z0-9-]`
abbrev pub is_alnum : ℕ → Bool
is_alnum c = leb b'a' c && leb c b'z' || leb b'0' c && leb c b'9'

abbrev pub is_name_char : ℕ → Bool
is_name_char c = is_alnum c || c == b'-'

-- `[a-z0-9-]*[a-z0-9]`, matched to the end
unfoldable pub matches_group : Text → Bool
matches_group [] = false
matches_group (c ∷ []) = is_alnum c
matches_group (c ∷ d ∷ s) = is_name_char c && matches_group (d ∷ s)

-- `/^[a-z0-9]([a-z0-9-]*[a-z0-9])?$/.test(name)`
unfoldable pub matches_name : Text → Bool
unfolding matches_group
matches_name [] = false
matches_name (c ∷ []) = is_alnum c
matches_name (c ∷ d ∷ s) = is_alnum c && matches_group (d ∷ s)

abbrev pub closed : NameExit → NameOutcome
closed exit = record { exit = exit; sent = none }

-- `!receipt || receipt.status === 0`
unfoldable pub exit_of : NameReply → NameExit
exit_of thrown = uncaught
exit_of no_receipt = reverted
exit_of (mined status) = if status == 0 then reverted else confirmed

abbrev block_text : Option Text → Text
block_text none = []
block_text (some block) = block

-- Whether `lookup` gives an owner; an exception means that the name is free.
abbrev pub is_taken : Option Text → Bool
is_taken none = false
is_taken (some owner) = not (text_eq owner zero_owner)

module _ (lookup : Text → Option Text) (submit : NameCall → NameReply) (options : NameOptions) where
  abbrev lower_name : Text
  lower_name = to_lower options.name

  abbrev submitted : NameCall → NameOutcome
  submitted call = record { exit = exit_of (submit call); sent = some call }

  unfoldable pub register_call : NameCall
  register_call =
      if is_v2_names options.names_contract
      then register_v2 lower_name options.manifest
      else register_v1 lower_name (parse_int 10 (block_text options.block)) options.manifest

  unfoldable pub update_call : NameCall
  update_call =
      if is_v2_names options.names_contract
      then update_v2 lower_name options.manifest
      else update_v1 lower_name (parse_int 10 (block_text options.block)) options.manifest

  abbrev pub lacks_block : Bool
  lacks_block = not (is_v2_names options.names_contract) && not (truthy options.block)

  -- `registerCommand`
  unfoldable pub register_command : NameOutcome
  unfolding matches_name register_call exit_of
  register_command =
      if not (matches_name lower_name)
      then closed bad_name
      else if ltb 32 (length lower_name)
      then closed long_name
      else if lacks_block
      then closed no_block
      else if is_taken (lookup lower_name)
      then closed already_registered
      else submitted register_call

  -- `updateNameCommand`
  unfoldable pub update_name_command : NameOutcome
  unfolding update_call exit_of
  update_name_command = if lacks_block then closed no_block else submitted update_call
