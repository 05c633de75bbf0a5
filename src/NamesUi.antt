-- ===== src/NamesUi.antt =====
-- names-ui/src/App.tsx, names-ui/src/wallet.ts and names-ui/src/abi.ts: the page that registers, updates
-- and looks up names. The wallet, the node and the two registries behind it are parameters.
pub mod Typed
pub mod Found
use evmfs.Prelude.{
  ℕ, Bool, true, false, ◌&&◌, ◌||◌, ◌-◌, not, Option, none, some, List, [], ◌∷◌, ◌++◌, map, length,
  any, keep, take, ltb, leb, ◌==◌, Result, ok, err, if◌then◌else◌,
}
use evmfs.Prelude.Text.{Text, codes, text_eq, to_lower, lower}
use evmfs.Prelude.Digits.{value}
use evmfs.Cli.BlockIndex.{starts_with}
use evmfs.Cli.Names.{is_name_char, matches_name}

pub data Version : Type 0 where
  v1 v2 : Version

abbrev pub is_v1 : Version → Bool
is_v1 v1 = true
is_v1 v2 = false

abbrev pub names_v2_address : Text
names_v2_address = codes "0x86342282EdF4A1C50249f16f4CB11c5921455730"

abbrev pub names_v1_address : Text
names_v1_address = codes "0x36043906ba7c191c9511a60a8b28e3a602ed1477"

abbrev pub names_address : Version → Text
names_address v1 = names_v1_address
names_address v2 = names_v2_address

abbrev pub zero_address : Text
zero_address = codes "0x0000000000000000000000000000000000000000"

-- `toLowerCase()` on a letter, as far as an ASCII letter comes of it: of U+0130 also a mark comes, which
-- the input drops.
abbrev pub lower_letter : ℕ → ℕ
lower_letter c = if c == 0x212a then b'k' else if c == 0x130 then b'i' else lower c

-- What an input leaves of a name, and of a block number.
unfoldable pub typed_name : Text → Text
unfolding lower
typed_name t = keep is_name_char (map lower_letter t)

abbrev pub is_decimal_digit : ℕ → Bool
is_decimal_digit c = leb b'0' c && leb c b'9'

abbrev pub typed_block : Text → Text
typed_block t = keep is_decimal_digit t

-- `nameValid` and `manifestValid`
unfoldable pub name_valid : Text → Bool
name_valid name = matches_name name && leb (length name) 32

abbrev pub manifest_valid : Text → Bool
manifest_valid manifest = starts_with manifest (codes "0x") && length manifest == 66

-- The fields of a form and the version that is chosen.
pub record Form : Type 0 where
  pub version : Version
  pub name : Text
  pub manifest : Text
  pub block : Text

abbrev pub has_block : Form → Bool
has_block form = not (is_v1 form.version) || ltb 0 (length form.block)

unfoldable pub can_register : Bool → Form → Bool
can_register has_wallet form =
    has_wallet && (name_valid form.name && (manifest_valid form.manifest && has_block form))

-- `BigInt(block)` of a text of digits
abbrev pub big_int : Text → ℕ
big_int block = value 10 0 (map (λ c. c - b'0') block)

-- A transaction of the page, to the address of a version; `value` is in wei.
pub data NamesCall : Type 0 where
  register_v2 : Text → Text → ℕ → NamesCall
  register_v1 : Text → ℕ → Text → ℕ → NamesCall
  update_v2 : Text → Text → NamesCall
  update_v1 : Text → ℕ → Text → NamesCall

abbrev pub register_of : Form → NamesCall
register_of form = elim form.version [
  | v2 ↦ register_v2 form.name form.manifest 1000000000000000
  | v1 ↦ register_v1 form.name (big_int form.block) form.manifest 1000000000000000
]

abbrev pub update_of : Form → NamesCall
update_of form = elim form.version [
  | v2 ↦ update_v2 form.name form.manifest
  | v1 ↦ update_v1 form.name (big_int form.block) form.manifest
]

-- What a call comes to: an exception with its message, or a receipt, whose status, that of success or
-- of a revert, the page does not read.
pub data NamesReply : Type 0 where
  threw : Text → NamesReply
  receipt : Bool → NamesReply

abbrev pub error_status : Text → Text
error_status msg =
    codes "Error: " ++ (if ltb 200 (length msg) then take 200 msg ++ codes "..." else msg)

abbrev pub registered_status : Text → NamesReply → Text
registered_status name (threw msg) = error_status msg
registered_status name (receipt success) =
    codes "Registered! " ++ name ++ codes ".evmfs.xyz is live."

abbrev pub updated_status : Text → NamesReply → Text
updated_status name (threw msg) = error_status msg
updated_status name (receipt success) =
    codes "Updated! " ++ name ++ codes ".evmfs.xyz now points to the new manifest."

-- `handleRegister` and `handleUpdate`: the call, if there is a wallet, and the status that is shown.
module _ (send : NamesCall → NamesReply) (has_wallet : Bool) (form : Form) (status : Text) where
  abbrev pub handle_register : Option NamesCall × Text
  handle_register =
      if has_wallet
      then (some (register_of form), registered_status form.name (send (register_of form)))
      else (none, status)

  abbrev pub handle_update : Option NamesCall × Text
  handle_update =
      if has_wallet
      then (some (update_of form), updated_status form.name (send (update_of form)))
      else (none, status)

-- What `lookup` of a registry answers.
pub record Listing : Type 0 where
  pub owner : Text
  pub block : ℕ
  pub manifest : Text

-- What `handleLookup` shows.
pub data Shown : Type 0 where
  listed : Version → Listing → Shown
  available : Shown
  lookup_failed : Shown

-- `read v name` asks the registry of a version; it gives nothing when the node fails.
module _ (read : Version → Text → Option Listing) where
  -- `checkUpdateOwner`, for a name that is not empty
  unfoldable pub check_update_owner : Version → Text → Option Text
  check_update_owner v name = elim (read v name) [ none ↦ none | some found ↦ some found.owner ]

  -- The loop of `handleLookup` over the versions.
  unfoldable pub lookup_in : List Version → Text → Shown
  lookup_in [] name = available
  lookup_in (v ∷ versions) name = elim (read v name) [
    | none ↦ lookup_failed
    | some found ↦
        let rest = lookup_in versions name in
        if text_eq found.owner zero_address then rest else listed v found
  ]

  unfoldable pub handle_lookup : Text → Shown
  unfolding lookup_in
  handle_lookup name = lookup_in (v2 ∷ v1 ∷ []) name

-- `isUpdateOwner`; no wallet is connected when the address is empty.
abbrev pub is_update_owner : Option Text → Text → Bool
is_update_owner none addr = false
is_update_owner (some owner) addr =
    not (text_eq owner zero_address)
    && (ltb 0 (length addr) && text_eq (to_lower owner) (to_lower addr))

abbrev pub can_update : Option Text → Text → Form → Bool
can_update owner addr form =
    is_update_owner owner addr && (manifest_valid form.manifest && has_block form)

-- `discoverWallets`: a wallet that announces itself again is not listed twice.
pub record WalletInfo : Type 0 where
  pub uuid : Text
  pub name : Text

unfoldable pub announced : List WalletInfo → List WalletInfo → List WalletInfo
announced seen [] = seen
announced seen (w ∷ wallets) =
    if any (λ s. text_eq s.uuid w.uuid) seen
    then announced seen wallets
    else announced (seen ++ w ∷ []) wallets

-- `connectWallet`: the accounts, the chain, and whether the wallet switches to Ethereum, which is asked
-- for only on another chain. The first account is connected.
abbrev pub connect_wallet : List Text → Text → Bool → Option Text
connect_wallet [] chain_id switches = none
connect_wallet (account ∷ accounts) chain_id switches =
    if text_eq chain_id (codes "0x1") then some account else if switches then some account else none
