-- ===== src/Contract/Registry/Sound.antt =====
-- contracts/src/EVMFSNames.sol: the registry through its transactions.
use evmfs.Prelude.{
  ℕ, ◌≡◌, ◌≢◌, refl, sym, ap, ap₂, ◌∙◌, inl, inr, true, false, none, some, List, ◌∷◌, ok,
  Bool-cases, Option-cases,
}
use evmfs.Prelude.Text.{Text, text_eq, text_eq_refl, text_eq_sound, text_eq_ne}
use evmfs.Contract.{Evmfs}
use evmfs.Contract.Names.{accepts_name}
use evmfs.Contract.Registry.{
  Site, Erc721, at, Message, Entry, site_of, is_uploader, Registry, registered, register, lookup,
}
use evmfs.Contract.Registry.Owners.{IsErc721, register-HasRegistered}

pub at-cons_self :
    {A : Type 0} (l : List (Text × A)) (id : Text) (a : A) → at ((id, a) ∷ l) id ≡ some a
unfolding at
at-cons_self l id a = rw (text_eq_refl id) refl

pub at-cons_ne :
    {A : Type 0} (l : List (Text × A)) (id i : Text) (a : A) → i ≢ id → at ((id, a) ∷ l) i ≡ at l i
unfolding at
at-cons_ne l id i a h = rw (text_eq_ne id i (λ e. h (sym e))) refl

module _ (erc : Erc721) (keccak256 : List ℕ → Text) (laws : IsErc721 erc) where
  minted_self :
      (to id : Text) (t u : erc.Tokens) → erc.mint to id t ≡ some u → erc.owner_of u id ≡ some to
  minted_self to id t u h = laws.minted_owner to id id t u h ∙ rw (text_eq_refl id) refl

  minted_ne :
      (to id i : Text) (t u : erc.Tokens)
      → erc.mint to id t ≡ some u
      → i ≢ id
      → erc.owner_of u i ≡ erc.owner_of t i
  minted_ne to id i t u h ne =
      laws.minted_owner to id i t u h ∙ rw (text_eq_ne id i (λ e. ne (sym e))) refl

  pub minted_new :
      (to id : Text) (t u : erc.Tokens) → erc.mint to id t ≡ some u → erc.owner_of t id ≡ none
  minted_new to id t u h = elim (Option-cases (erc.owner_of t id)) [
    | inl n ↦ n
    | inr (o, e) ↦ let twice = laws.minted_once to id o t e in absurd cc
  ]

  lookup-registered :
      (m : Message) (e : Entry) (r : Registry erc keccak256) (tokens : erc.Tokens)
      → erc.mint m.sender (keccak256 e.site_name) r.tokens ≡ some tokens
      → let s = registered erc keccak256 e tokens r in
        (lookup erc keccak256 e.site_name s ≡ (some m.sender, some (site_of e)))
        × ((n : List ℕ)
            → keccak256 n ≢ keccak256 e.site_name
            → lookup erc keccak256 n s ≡ lookup erc keccak256 n r)
  unfolding lookup
  lookup-registered m e r tokens h =
      let id = keccak256 e.site_name in
      (
        ap₂ (λ o x. (o, x)) (minted_self m.sender id r.tokens tokens h)
            (at-cons_self r.sites id (site_of e)),
        λ n ne.
            ap₂ (λ o x. (o, x)) (minted_ne m.sender id (keccak256 n) r.tokens tokens h ne)
              (at-cons_ne r.sites id (keccak256 n) (site_of e) ne),
      )

  -- With the rules of ERC721: a registration that does not revert is for a name that the rules allow
  -- and nobody had, with a manifest that the sender uploaded. Afterwards the name belongs to the
  -- sender and leads to the entry, and every name with another id is found as before.
  pub register-lookup :
      (evmfs : Evmfs) (m : Message) (e : Entry) (r s : Registry erc keccak256)
      → register erc keccak256 evmfs m e r ≡ ok s
      → (accepts_name e.site_name ≡ true)
        × (is_uploader evmfs e.manifest_hash m.sender ≡ true)
        × (erc.owner_of r.tokens (keccak256 e.site_name) ≡ none)
        × (lookup erc keccak256 e.site_name s ≡ (some m.sender, some (site_of e)))
        × ((n : List ℕ)
            → keccak256 n ≢ keccak256 e.site_name
            → lookup erc keccak256 n s ≡ lookup erc keccak256 n r)
  register-lookup evmfs m e r s h =
      let did = register-HasRegistered erc keccak256 evmfs m e r s h in
      let (self, others) = lookup-registered m e r did.tokens did.minted in
      (
        did.accepted,
        did.uploaded,
        minted_new m.sender (keccak256 e.site_name) r.tokens did.tokens did.minted,
        ap (lookup erc keccak256 e.site_name) did.result ∙ self,
        λ n ne. ap (lookup erc keccak256 n) did.result ∙ others n ne,
      )

  -- Every token that has an owner is the id of a well-formed name, and has a site.
  abbrev pub IsSound : Registry erc keccak256 → Type 0
  IsSound r =
      (i o : Text)
      → erc.owner_of r.tokens i ≡ some o
      → ((n : List ℕ) × (at r.names i ≡ some n) × (keccak256 n ≡ i) × (accepts_name n ≡ true))
        × ((x : Site) × (at r.sites i ≡ some x))

  pub registered-IsSound :
      (m : Message) (e : Entry) (r : Registry erc keccak256) (tokens : erc.Tokens)
      → accepts_name e.site_name ≡ true
      → erc.mint m.sender (keccak256 e.site_name) r.tokens ≡ some tokens
      → IsSound r
      → IsSound (registered erc keccak256 e tokens r)
  registered-IsSound m e r tokens accepted minted sound i o owned =
      let id = keccak256 e.site_name in
      elim (Bool-cases (text_eq i id)) [
        | inl same ↦
            let i_id = text_eq_sound i id same in
            (
              (
                e.site_name,
                ap (at ((id, e.site_name) ∷ r.names)) i_id ∙ at-cons_self r.names id e.site_name,
                sym i_id,
                accepted,
              ),
              (
                site_of e,
                ap (at ((id, site_of e) ∷ r.sites)) i_id ∙ at-cons_self r.sites id (site_of e),
              ),
            )
        | inr differs ↦
            let ne : i ≢ id = λ x. different i id differs x in
            let before = sym (minted_ne m.sender id i r.tokens tokens minted ne) ∙ owned in
            let ((n, named, hashed, valid), (x, sited)) = sound i o before in
            (
              (n, at-cons_ne r.names id i e.site_name ne ∙ named, hashed, valid),
              (x, at-cons_ne r.sites id i (site_of e) ne ∙ sited),
            )
      ]
    where
      different : (i id : Text) → text_eq i id ≡ false → i ≢ id
      different i id h x = let t = text_eq_refl i in let u = ap (text_eq i) x in cc
