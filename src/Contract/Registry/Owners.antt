-- ===== src/Contract/Registry/Owners.antt =====
-- contracts/src/EVMFSNames.sol: what the calls come to, given the rules of ERC721.
use evmfs.Prelude.{
  ℕ, ◌≡◌, refl, ap, ◌∙◌, inl, inr, Bool, true, false, not, none, some, List, ◌∷◌, ◌&&◌, length, leb,
  ltb, ok, Bool-cases, Option-cases, if◌then◌else◌,
}
use evmfs.Prelude.Text.{Text, text_eq, text_eq_sound}
use evmfs.Contract.{Evmfs}
use evmfs.Contract.Names.{accepts_name, is_valid_name}
use evmfs.Contract.Registry.{
  Erc721, insufficient_fee, invalid_length, invalid_characters, not_uploader, Message, Entry,
  site_of, is_uploader, registration_fee, Registry, checked, registered, register, is_owner, update,
}

-- A token that has an owner is not minted again, one that is minted has its owner, and the other
-- functions give no token to nobody's id.
pub record IsErc721 (erc : Erc721) : Type 1 where
  pub minted_owner :
      (to id i : Text) (t u : erc.Tokens)
      → erc.mint to id t ≡ some u
      → erc.owner_of u i ≡ (if text_eq id i then some to else erc.owner_of t i)
  pub minted_once :
      (to id o : Text) (t : erc.Tokens) → erc.owner_of t id ≡ some o → erc.mint to id t ≡ none
  pub moves_keep :
      (t u : erc.Tokens) (i o : Text)
      → erc.Moves t u
      → erc.owner_of u i ≡ some o
      → (before : Text) × (erc.owner_of t i ≡ some before)

passed :
    {A : Type 0} (x y z w : A) (a b c d : Bool)
    → (if a
        then some x
        else if not b
        then some y
        else if not c
        then some z
        else if d
        then none
        else some w)
      ≡ none
    → (a ≡ false) × ((b && c) ≡ true) × (d ≡ true)
passed x y z w true b c d h = absurd cc
passed x y z w false false c d h = absurd cc
passed x y z w false true false d h = absurd cc
passed x y z w false true true false h = absurd cc
passed x y z w false true true true h = (refl, refl, refl)

checked-none :
    (evmfs : Evmfs) (m : Message) (e : Entry)
    → checked evmfs m e ≡ none
    → (ltb m.value registration_fee ≡ false)
      × (accepts_name e.site_name ≡ true)
      × (is_uploader evmfs e.manifest_hash m.sender ≡ true)
unfolding checked
checked-none evmfs m e h =
    let sized = ltb 0 (length e.site_name) && leb (length e.site_name) 32 in
    let low = ltb m.value registration_fee in
    let uploads = is_uploader evmfs e.manifest_hash m.sender in
    passed insufficient_fee invalid_length invalid_characters not_uploader low sized
      (is_valid_name e.site_name) uploads h

module _ (erc : Erc721) (keccak256 : List ℕ → Text) where
  -- The checks of `register` passed, and the token was new.
  pub record HasRegistered (evmfs : Evmfs) (m : Message) (e : Entry) (r s : Registry erc keccak256)
      : Type 0 where
    pub paid : ltb m.value registration_fee ≡ false
    pub accepted : accepts_name e.site_name ≡ true
    pub uploaded : is_uploader evmfs e.manifest_hash m.sender ≡ true
    pub tokens : erc.Tokens
    pub minted : erc.mint m.sender (keccak256 e.site_name) r.tokens ≡ some tokens
    pub result : s ≡ registered erc keccak256 e tokens r

  pub register-HasRegistered :
      (evmfs : Evmfs) (m : Message) (e : Entry) (r s : Registry erc keccak256)
      → register erc keccak256 evmfs m e r ≡ ok s
      → HasRegistered evmfs m e r s
  unfolding register
  register-HasRegistered evmfs m e r s h = elim (Option-cases (checked evmfs m e)) [
    | inr (error, f) ↦ let h' = rw (f, register) at h in absurd cc
    | inl f ↦
        let (paid, accepted, uploaded) = checked-none evmfs m e f in
        let h' = rw (f, register) at h in
        elim (Option-cases (erc.mint m.sender (keccak256 e.site_name) r.tokens)) [
          | inl n ↦ let h2 = rw (n, register) at h' in absurd cc
          | inr (tokens, minted) ↦
              let h2 = rw (minted, register) at h' in
              elim (Bool-cases m.pays) [
                | inr p ↦ let h3 = rw p at h2 in absurd cc
                | inl p ↦
                    let h3 = rw p at h2 in
                    record {
                      paid = paid;
                      accepted = accepted;
                      uploaded = uploaded;
                      tokens = tokens;
                      minted = minted;
                      result = cc;
                    }
              ]
        ]
  ]

  -- A call of `update` that does not revert: the owner's, for a manifest of the owner's.
  pub record HasUpdated (evmfs : Evmfs) (m : Message) (e : Entry) (r s : Registry erc keccak256)
      : Type 0 where
    pub owned : erc.owner_of r.tokens (keccak256 e.site_name) ≡ some m.sender
    pub uploaded : is_uploader evmfs e.manifest_hash m.sender ≡ true
    pub result : s ≡ record r { sites = (keccak256 e.site_name, site_of e) ∷ r.sites }

  owner_of_is_owner :
      (id sender : Text) (r : Registry erc keccak256)
      → is_owner erc keccak256 id sender r ≡ true
      → erc.owner_of r.tokens id ≡ some sender
  owner_of_is_owner id sender r h = elim (Option-cases (erc.owner_of r.tokens id)) [
    | inl n ↦ let h' = rw (n, is_owner) at h in absurd cc
    | inr (owner, e) ↦
        let same = text_eq_sound owner sender (rw (e, is_owner) at h) in e ∙ ap some same
  ]

  pub update-HasUpdated :
      (evmfs : Evmfs) (m : Message) (e : Entry) (r s : Registry erc keccak256)
      → update erc keccak256 evmfs m e r ≡ ok s
      → HasUpdated evmfs m e r s
  unfolding update
  update-HasUpdated evmfs m e r s h =
      elim (Bool-cases (is_owner erc keccak256 (keccak256 e.site_name) m.sender r)) [
        | inr n ↦ let h' = rw n at h in absurd cc
        | inl o ↦
            let h' = rw o at h in
            elim (Bool-cases (is_uploader evmfs e.manifest_hash m.sender)) [
              | inr n ↦ let h2 = rw n at h' in absurd cc
              | inl u ↦
                  let h2 = rw u at h' in
                  record {
                    owned = owner_of_is_owner (keccak256 e.site_name) m.sender r o;
                    uploaded = u;
                    result = cc;
                  }
            ]
      ]
