-- ===== src/Examples/Registries.antt =====
-- Tokens as a list of their owners, in which a token is moved by its new owner's entry, and a registry.
use evmfs.Prelude.{
  ℕ, ◌≡◌, ◌≢◌, refl, sym, ap, ◌∙◌, ◌⊎◌, inl, inr, true, Option, none, some, List, [], ◌∷◌,
  if◌then◌else◌, Bool-cases, Option-cases, ok,
}
use evmfs.Prelude.Text.{Text, codes, text_eq, text_eq_sound}
use evmfs.Contract.{Evmfs, uploader_in}
use evmfs.Contract.Names.{accepts_name, is_valid_name, valid_from}
use evmfs.Contract.Registry.{
  Erc721, at, Message, Entry, site_of, is_uploader, Registry, checked, registered, register, lookup,
  update, registers, updates, start, later,
}
use evmfs.Contract.Registry.Owners.{IsErc721}
use evmfs.Contract.Registry.Sound.{IsSound, register-lookup}
use evmfs.Contract.Registry.Reachable.{Reach-IsSound, Step-site_owner}
use evmfs.Examples.World.{hash}

abbrev Owners : Type 0
Owners = List (Text × Text)

abbrev mint : Text → Text → Owners → Option Owners
mint to id t = elim (at t id) [ none ↦ some ((id, to) ∷ t) | some o ↦ none ]

abbrev Moved : Owners → Owners → Type 0
Moved t u = (id : Text) × (to : Text) × (o : Text) × (at t id ≡ some o) × (u ≡ (id, to) ∷ t)

abbrev erc : Erc721
erc = record { Tokens = Owners; owner_of = at; mint = mint; Moves = Moved }

erc-IsErc721 : IsErc721 erc
unfolding at
erc-IsErc721 = record {
  minted_owner = minted_owner;
  minted_once = minted_once;
  moves_keep = moves_keep;
}
  where
    minted_owner :
        (to id i : Text) (t u : Owners)
        → mint to id t ≡ some u
        → at u i ≡ (if text_eq id i then some to else at t i)
    minted_owner to id i t u h = elim (Option-cases (at t id)) [
      | inl n ↦
          let h' : some ((id, to) ∷ t) ≡ some u = rw (n, mint) at h in
          let same : (id, to) ∷ t ≡ u = cc in ap (λ l. at l i) (sym same)
      | inr (o, e) ↦ let h' : none ≡ some u = rw (e, mint) at h in absurd cc
    ]

    minted_once : (to id o : Text) (t : Owners) → at t id ≡ some o → mint to id t ≡ none
    minted_once to id o t e = rw (e, mint) refl

    moves_keep :
        (t u : Owners) (i o : Text)
        → Moved t u
        → at u i ≡ some o
        → (before : Text) × (at t i ≡ some before)
    moves_keep t u i o (id, to, p, held, same) h = elim (Bool-cases (text_eq id i)) [
      | inl e ↦ (p, ap (at t) (sym (text_eq_sound id i e)) ∙ held)
      | inr e ↦ (o, rw e at (ap (λ l. at l i) (sym same) ∙ h))
    ]

abbrev stored : Evmfs
stored = record { manifests = (codes "0xab", codes "alice") ∷ [] }

abbrev message : Message
message = record { sender = codes "alice"; value = 1000000000000000; pays = true }

abbrev entry : Entry
entry = record { site_name = codes "my-site"; block_number = 7; manifest_hash = codes "0xab" }

abbrev deployed : Registry erc hash
deployed = record {
  tokens = [];
  sites = [];
  names = [];
  fee_recipient = codes "team";
  contract_owner = codes "team";
}

abbrev named : Registry erc hash
named = registered erc hash entry ((hash (codes "my-site"), codes "alice") ∷ []) deployed

register_named : register erc hash stored message entry deployed ≡ ok named
unfolding register checked is_valid_name valid_from at uploader_in
register_named = refl

update_named :
    update erc hash stored message entry named
    ≡ ok (record named { sites = (hash (codes "my-site"), site_of entry) ∷ named.sites })
unfolding update at uploader_in
update_named = refl

register-lookup_example :
    (accepts_name (codes "my-site") ≡ true)
    × (is_uploader stored (codes "0xab") (codes "alice") ≡ true)
    × (at deployed.tokens (hash (codes "my-site")) ≡ none)
    × (lookup erc hash (codes "my-site") named ≡ (some (codes "alice"), some (site_of entry)))
    × ((n : List ℕ)
        → hash n ≢ hash (codes "my-site")
        → lookup erc hash n named ≡ lookup erc hash n deployed)
register-lookup_example =
    register-lookup erc hash erc-IsErc721 stored message entry deployed named register_named

Reach-IsSound_example : IsSound erc hash erc-IsErc721 named
unfolding at
Reach-IsSound_example =
    Reach-IsSound erc hash erc-IsErc721 deployed named (λ i. refl)
      (later message start (registers stored entry named register_named))

abbrev site_renewed : Registry erc hash
site_renewed = record named { sites = (hash (codes "my-site"), site_of entry) ∷ named.sites }

Step-site_owner_example :
    (at site_renewed.sites (hash (codes "my-site")) ≡ at named.sites (hash (codes "my-site")))
    ⊎ (codes "alice" ≡ codes "alice")
unfolding at
Step-site_owner_example =
    Step-site_owner erc hash erc-IsErc721 message named site_renewed (hash (codes "my-site"))
      (codes "alice") (updates stored entry site_renewed update_named) refl
