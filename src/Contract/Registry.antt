-- ===== src/Contract/Registry.antt =====
-- contracts/src/EVMFSNames.sol: the registry of names. OpenZeppelin's ERC721 and the hash of the EVM
-- are parameters; a call that reverts is an error and leaves no new state.
pub mod Sound
pub mod Owners
pub mod Reachable
use evmfs.Prelude.{
  ℕ, ◌≡◌, Bool, true, false, ◌&&◌, not, Option, none, some, List, [], ◌∷◌, length, leb, ltb, Result,
  ok, err, if◌then◌else◌,
}
use evmfs.Prelude.Text.{Text, text_eq}
use evmfs.Contract.{Evmfs, uploader_in}
use evmfs.Contract.Names.{is_valid_name}

pub record Site : Type 0 where
  pub block_number : ℕ
  pub manifest_hash : Text

-- The base contract: `_ownerOf`, `_mint`, which gives nothing when it reverts, and `Moves` for what its
-- other functions do to the tokens.
pub record Erc721 : Type 1 where
  pub Tokens : Type 0
  pub owner_of : Tokens → Text → Option Text
  pub mint : Text → Text → Tokens → Option Tokens
  pub Moves : Tokens → Tokens → Type 0

-- A mapping from token ids, the latest write first.
unfoldable pub at {ℓ} : {A : Type ℓ} → List (Text × A) → Text → Option A
at [] id = none
at ((i, a) ∷ rest) id = if text_eq i id then some a else at rest id

pub data RegistryError : Type 0 where
  insufficient_fee invalid_length invalid_characters not_uploader : RegistryError
  token_exists fee_not_sent not_owner not_contract_owner : RegistryError

-- Who sends a call and with what value, and whether a payment to the recipient of the fees succeeds. The
-- recipient is taken not to call the registry again while it is paid.
pub record Message : Type 0 where
  pub sender : Text
  pub value : ℕ
  pub pays : Bool

-- `0.001 ether`
abbrev pub registration_fee : ℕ
registration_fee = 1000000000000000

-- The arguments of `register` and `update`.
pub record Entry : Type 0 where
  pub site_name : List ℕ
  pub block_number : ℕ
  pub manifest_hash : Text

abbrev pub site_of : Entry → Site
site_of e = record { block_number = e.block_number; manifest_hash = e.manifest_hash }

-- `EVMFS_CONTRACT.manifests(manifestHash) == msg.sender`
abbrev pub is_uploader : Evmfs → Text → Text → Bool
is_uploader evmfs hash sender = elim (uploader_in evmfs.manifests hash) [
  | none ↦ false
  | some uploader ↦ text_eq uploader sender
]

-- What `register` asks before it mints.
unfoldable pub checked : Evmfs → Message → Entry → Option RegistryError
checked evmfs m e =
    if ltb m.value registration_fee
    then some insufficient_fee
    else if not (ltb 0 (length e.site_name) && leb (length e.site_name) 32)
    then some invalid_length
    else if not (is_valid_name e.site_name)
    then some invalid_characters
    else if is_uploader evmfs e.manifest_hash m.sender
    then none
    else some not_uploader

module _ (erc : Erc721) (keccak256 : List ℕ → Text) where
  pub record Registry : Type 0 where
    pub tokens : erc.Tokens
    pub sites : List (Text × Site)
    pub names : List (Text × List ℕ)
    pub fee_recipient : Text
    pub contract_owner : Text

  abbrev pub registered : Entry → erc.Tokens → Registry → Registry
  registered e tokens r = record r {
    tokens = tokens;
    names = (keccak256 e.site_name, e.site_name) ∷ r.names;
    sites = (keccak256 e.site_name, site_of e) ∷ r.sites;
  }

  unfoldable pub register : Evmfs → Message → Entry → Registry → Result RegistryError Registry
  unfolding checked
  register evmfs m e r = elim (checked evmfs m e) [
    | some error ↦ err error
    | none ↦ elim (erc.mint m.sender (keccak256 e.site_name) r.tokens) [
      | none ↦ err token_exists
      | some tokens ↦ if m.pays then ok (registered e tokens r) else err fee_not_sent
    ]
  ]

  -- `ownerOf(tokenId) == msg.sender`; it reverts for a token with no owner.
  abbrev pub is_owner : Text → Text → Registry → Bool
  is_owner id sender r = elim (erc.owner_of r.tokens id) [
    | none ↦ false
    | some owner ↦ text_eq owner sender
  ]

  unfoldable pub update : Evmfs → Message → Entry → Registry → Result RegistryError Registry
  update evmfs m e r =
      if not (is_owner (keccak256 e.site_name) m.sender r)
      then err not_owner
      else if is_uploader evmfs e.manifest_hash m.sender
      then ok (record r { sites = (keccak256 e.site_name, site_of e) ∷ r.sites })
      else err not_uploader

  -- `lookup`: the owner, if any, and the site.
  unfoldable pub lookup : List ℕ → Registry → Option Text × Option Site
  lookup site_name r = let id = keccak256 site_name in (erc.owner_of r.tokens id, at r.sites id)

  unfoldable pub set_fee_recipient : Text → Text → Registry → Result RegistryError Registry
  set_fee_recipient sender recipient r =
      if text_eq r.contract_owner sender
      then ok (record r { fee_recipient = recipient })
      else err not_contract_owner

  -- A transaction that does not revert.
  pub data Step (m : Message) (r : Registry) : Registry → Type 0 where
    registers :
        (evmfs : Evmfs) (e : Entry) (s : Registry) → register evmfs m e r ≡ ok s → Step m r s
    updates : (evmfs : Evmfs) (e : Entry) (s : Registry) → update evmfs m e r ≡ ok s → Step m r s
    sets_recipient :
        (recipient : Text) (s : Registry)
        → set_fee_recipient m.sender recipient r ≡ ok s
        → Step m r s
    moves :
        (tokens : erc.Tokens) → erc.Moves r.tokens tokens → Step m r (record r { tokens = tokens })

  -- What transactions make of a registry that was deployed.
  pub data Reach (first : Registry) : Registry → Type 0 where
    start : Reach first first
    later : {r s : Registry} → (m : Message) → Reach first r → Step m r s → Reach first s
