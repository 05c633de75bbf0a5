-- ===== src/Contract/Names.antt =====
-- contracts/src/EVMFSNames.sol: what the registry asks of a name. A name is the list of its bytes.
use evmfs.Prelude.{
  ℕ, suc, ◌-◌, Bool, true, false, ◌&&◌, List, [], ◌∷◌, length, leb, ltb, ◌==◌, if◌then◌else◌,
}

abbrev pub is_letter : ℕ → Bool
is_letter c = leb 0x61 c && leb c 0x7a

abbrev pub is_digit : ℕ → Bool
is_digit c = leb 0x30 c && leb c 0x39

-- The loop of `_isValidName` from byte `i` of `n`.
unfoldable pub valid_from : ℕ → ℕ → List ℕ → Bool
valid_from n i [] = true
valid_from n i (c ∷ rest) =
    let later = valid_from n (suc i) rest in
    if is_letter c
    then later
    else if is_digit c
    then later
    else if (c == 0x2d) && (ltb 0 i && ltb i (n - 1))
    then later
    else false

unfoldable pub is_valid_name : List ℕ → Bool
is_valid_name site_name = valid_from (length site_name) 0 site_name

-- The two requirements of `register` on the name.
abbrev pub accepts_name : List ℕ → Bool
accepts_name site_name =
    (ltb 0 (length site_name) && leb (length site_name) 32) && is_valid_name site_name
