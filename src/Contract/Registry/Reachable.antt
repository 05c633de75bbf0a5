-- ===== src/Contract/Registry/Reachable.antt =====
-- contracts/src/EVMFSNames.sol: the registry after any transactions.
use evmfs.Prelude.{
  ℕ, ◌≡◌, ◌≢◌, refl, sym, ap, ◌∙◌, subst, ◌⊎◌, inl, inr, false, none, some, List, ◌∷◌, ok,
  Bool-cases,
}
use evmfs.Prelude.Text.{Text, text_eq, text_eq_refl, text_eq_sound}
use evmfs.Contract.Registry.{
  Erc721, at, Message, Entry, site_of, Registry, set_fee_recipient, Step, registers, updates,
  sets_recipient, moves, Reach, start, later,
}
use evmfs.Contract.Registry.Owners.{IsErc721, register-HasRegistered, update-HasUpdated}
use evmfs.Contract.Registry.Sound.{
  at-cons_self, at-cons_ne, minted_new, IsSound, registered-IsSound,
}

text_ne : (i id : Text) → text_eq i id ≡ false → i ≢ id
text_ne i id h x = let t = text_eq_refl i in let u = ap (text_eq i) x in cc

module _ (erc : Erc721) (keccak256 : List ℕ → Text) where
  set_fee_recipient_ok :
      (sender recipient : Text) (r s : Registry erc keccak256)
      → set_fee_recipient erc keccak256 sender recipient r ≡ ok s
      → record r { fee_recipient = recipient } ≡ s
  unfolding set_fee_recipient
  set_fee_recipient_ok sender recipient r s h =
      elim (Bool-cases (text_eq r.contract_owner sender)) [
        | inl e ↦ let h' = rw e at h in cc
        | inr e ↦ let h' = rw e at h in absurd cc
      ]

  module _ (laws : IsErc721 erc) where
    updated-IsSound :
        (e : Entry) (r : Registry erc keccak256)
        → IsSound erc keccak256 laws r
        → IsSound erc keccak256 laws
            (record r { sites = (keccak256 e.site_name, site_of e) ∷ r.sites })
    updated-IsSound e r sound i o owned =
        let id = keccak256 e.site_name in
        let (named, (x, sited)) = sound i o owned in
        elim (Bool-cases (text_eq i id)) [
          | inl same ↦
              let i_id = text_eq_sound i id same in
              (
                named,
                (
                  site_of e,
                  ap (at ((id, site_of e) ∷ r.sites)) i_id ∙ at-cons_self r.sites id (site_of e),
                ),
              )
          | inr differs ↦
              (named, (x, at-cons_ne r.sites id i (site_of e) (text_ne i id differs) ∙ sited))
        ]

    Step-IsSound :
        (m : Message) (r s : Registry erc keccak256)
        → Step erc keccak256 m r s
        → IsSound erc keccak256 laws r
        → IsSound erc keccak256 laws s
    Step-IsSound m r s (registers evmfs e t h) sound =
        let did = register-HasRegistered erc keccak256 evmfs m e r t h in
        subst (IsSound erc keccak256 laws) (sym did.result)
          (registered-IsSound erc keccak256 laws m e r did.tokens did.accepted did.minted sound)
    Step-IsSound m r s (updates evmfs e t h) sound =
        let did = update-HasUpdated erc keccak256 evmfs m e r t h in
        subst (IsSound erc keccak256 laws) (sym did.result) (updated-IsSound e r sound)
    Step-IsSound m r s (sets_recipient recipient t h) sound =
        subst (IsSound erc keccak256 laws) (set_fee_recipient_ok m.sender recipient r t h) sound
    Step-IsSound m r s (moves tokens moved) sound = λ i o owned.
        let (before, e) = laws.moves_keep r.tokens tokens i o moved owned in sound i before e

    -- With the rules of ERC721, whatever transactions follow the deployment, when no token has an
    -- owner: every token that has an owner is the id of a name that the rules allow, and has a site.
    pub Reach-IsSound :
        (first now : Registry erc keccak256)
        → ((i : Text) → erc.owner_of first.tokens i ≡ none)
        → Reach erc keccak256 first now
        → IsSound erc keccak256 laws now
    Reach-IsSound first now new start = λ i o owned. let e = new i in absurd cc
    Reach-IsSound first now new (later {r} {s} m before step) =
        Step-IsSound m r s step (Reach-IsSound first r new before)

    -- With the rules of ERC721, the site of a name that has an owner changes only in a transaction
    -- that the owner sends.
    pub Step-site_owner :
        (m : Message) (r s : Registry erc keccak256) (i o : Text)
        → Step erc keccak256 m r s
        → erc.owner_of r.tokens i ≡ some o
        → (at s.sites i ≡ at r.sites i) ⊎ (m.sender ≡ o)
    Step-site_owner m r s i o (registers evmfs e t h) owned =
        let did = register-HasRegistered erc keccak256 evmfs m e r t h in
        let id = keccak256 e.site_name in
        let none_yet = minted_new erc keccak256 laws m.sender id r.tokens did.tokens did.minted in
        elim (Bool-cases (text_eq i id)) [
          | inl same ↦
              let taken = ap (erc.owner_of r.tokens) (sym (text_eq_sound i id same)) ∙ owned in
              absurd cc
          | inr differs ↦ inl (
              ap (λ (x : Registry erc keccak256). at x.sites i) did.result
              ∙ at-cons_ne r.sites id i (site_of e) (text_ne i id differs))
        ]
    Step-site_owner m r s i o (updates evmfs e t h) owned =
        let did = update-HasUpdated erc keccak256 evmfs m e r t h in
        let id = keccak256 e.site_name in
        elim (Bool-cases (text_eq i id)) [
          | inl same ↦
              let mine = ap (erc.owner_of r.tokens) (text_eq_sound i id same) ∙ did.owned in inr cc
          | inr differs ↦ inl (
              ap (λ (x : Registry erc keccak256). at x.sites i) did.result
              ∙ at-cons_ne r.sites id i (site_of e) (text_ne i id differs))
        ]
    Step-site_owner m r s i o (sets_recipient recipient t h) owned = inl (
        ap (λ (x : Registry erc keccak256). at x.sites i)
          (sym (set_fee_recipient_ok m.sender recipient r t h)))
    Step-site_owner m r s i o (moves tokens moved) owned = inl refl
