-- ===== src/Reader/Evmfs.antt =====
-- lib/src/index.ts, blockIndex.ts, decompress.ts, types.ts: the class EVMFS. The node, `eth_call`,
-- gunzip and JSON.parse are parameters.
pub mod Entries
use evmfs.Prelude.{
  ℕ, zero, suc, ◌+◌, Bool, true, false, ◌&&◌, Option, none, some, List, [], ◌∷◌, ◌++◌, length,
  get_elem?, ltb, ◌==◌, Result, ok, err, ◌>>=◌, if◌then◌else◌, ◌≡◌,
}
use evmfs.Prelude.Text.{Text, codes, text_eq, to_lower, strip_0x, truthy}
use evmfs.Prelude.Digits.{decimal}
use evmfs.Prelude.ParseInt.{Parsed, nan, number, negative, parse_int}
use evmfs.Reader.Rpc.{RpcError, Node, fetch_content}

pub record Part : Type 0 where
  pub h : Text
  pub b : ℕ

pub record ManifestEntry : Type 0 where
  pub h : Option Text
  pub b : Option ℕ
  pub p : Option (List Part)
  pub f : Option Text

pub data FetchError : Type 0 where
  rpc : RpcError → FetchError
  no_hash : FetchError
  not_in_manifest : Text → FetchError
  bad_json : FetchError

-- The answer to `eth_call`: an exception or an HTTP error, or the fields `result` and whether there is
-- an `error`.
pub data CallReply : Type 0 where
  call_failed : CallReply
  answered : Option Text → Bool → CallReply

pub record Evmfs : Type 0 where
  pub node : Node
  pub contract : Text
  pub block_index : Option Text
  pub eth_call : Text → Text → CallReply
  pub gunzip : List ℕ → Option (List ℕ)
  pub parse_json : List ℕ → Option (List ManifestEntry)

abbrev pub default_contract : Text
default_contract = codes "0x0000000000000000000000000000000000000000"

abbrev pub evmfs_v2_address : Text
evmfs_v2_address = codes "0xb61cdCDC81d97c32122E668AE782b2327d0a623C"

unfoldable pub is_v2_contract : Text → Bool
is_v2_contract [] = false
is_v2_contract (c ∷ addr) = text_eq (to_lower (c ∷ addr)) (to_lower evmfs_v2_address)

unfoldable pub default_block_index : Option ℕ → Option Text
default_block_index none = none
default_block_index (some chain_id) =
    if chain_id == 1
    then some (codes "0x85fce8503683a76371568f2f1347cf2c85dddc39")
    else if chain_id == 143
    then some (codes "0x2b62d34557e7cb8cb31dc83d2132396d0ef5cad0")
    else none

abbrev or_else {ℓ} : {A : Type ℓ} → Option A → A → A
or_else none d = d
or_else (some a) d = a

abbrev or_default : Option Text → Option Text → Option Text
or_default none d = d
or_default (some a) d = some a

-- `new EVMFS(options)`
unfoldable pub new_evmfs :
    Node
    → (Text → Text → CallReply)
    → (List ℕ → Option (List ℕ))
    → (List ℕ → Option (List ManifestEntry))
    → Option Text
    → Option Text
    → Option ℕ
    → Evmfs
unfolding default_block_index
new_evmfs node eth_call gunzip parse_json contract block_index chain_id = record {
  node = node;
  contract = or_else contract default_contract;
  block_index = or_default block_index (default_block_index chain_id);
  eth_call = eth_call;
  gunzip = gunzip;
  parse_json = parse_json;
}

-- `parseInt(hex, 16) || 0`. A negative number, which no node returns, is 0 here: to the callers, who
-- test `> 0`, it is the same.
abbrev block_of : Parsed → ℕ
block_of nan = 0
block_of (number n) = n
block_of (negative n) = 0

-- The block in the answer, 0 where there is none.
unfoldable pub block_from : CallReply → ℕ
block_from call_failed = 0
block_from (answered result true) = 0
block_from (answered none false) = 0
block_from (answered (some []) false) = 0
block_from (answered (some (c ∷ result)) false) = block_of (parse_int 16 (strip_0x (c ∷ result)))

unfoldable pub lookup_block : (Text → Text → CallReply) → Text → Text → ℕ
unfolding block_from strip_0x
lookup_block eth_call address hash =
    if length (strip_0x hash) == 64 then block_from (eth_call address (strip_0x hash)) else 0

abbrev lookup_index : (Text → Text → CallReply) → Option Text → Text → ℕ
lookup_index eth_call none hash = 0
lookup_index eth_call (some []) hash = 0
lookup_index eth_call (some (c ∷ address)) hash = lookup_block eth_call (c ∷ address) hash

unfoldable pub resolve_block : Evmfs → Text → ℕ
unfolding is_v2_contract
resolve_block e manifest_hash =
    let direct =
      if is_v2_contract e.contract then lookup_block e.eth_call e.contract manifest_hash else 0 in
    if ltb 0 direct then direct else lookup_index e.eth_call e.block_index manifest_hash

-- `tryGunzip`: only data with the gzip magic is decompressed, and data that cannot be stays as it is.
unfoldable pub try_gunzip : (List ℕ → Option (List ℕ)) → List ℕ → List ℕ
try_gunzip gunzip [] = []
try_gunzip gunzip (a ∷ []) = a ∷ []
try_gunzip gunzip (a ∷ b ∷ rest) =
    if (a == 0x1f) && (b == 0x8b)
    then or_else (gunzip (a ∷ b ∷ rest)) (a ∷ b ∷ rest)
    else a ∷ b ∷ rest

abbrev pub fetched : Result RpcError (List ℕ) → Result FetchError (List ℕ)
fetched (ok bytes) = ok bytes
fetched (err e) = err (rpc e)

module _ (e : Evmfs) where
  -- The parts, joined in order; any that fails is the failure of all.
  unfoldable pub fetch_parts : List Part → Result FetchError (List ℕ)
  fetch_parts [] = ok []
  fetch_parts (part ∷ parts) = do
    here ← fetched (fetch_content e.node part.h (some part.b))
    rest ← fetch_parts parts
    ok (here ++ rest)

  -- An entry with no parts; the result of `verifyHash` is not used.
  unfoldable pub fetch_single : ManifestEntry → Result FetchError (List ℕ)
  unfolding try_gunzip
  fetch_single entry = elim entry.h [
    | none ↦ err no_hash
    | some h ↦
        if truthy (some h)
        then (do raw ← fetched (fetch_content e.node h entry.b); ok (try_gunzip e.gunzip raw))
        else err no_hash
  ]

  unfoldable pub fetch_entry : ManifestEntry → Result FetchError (List ℕ)
  unfolding fetch_parts fetch_single
  fetch_entry entry = elim entry.p [
    | none ↦ fetch_single entry
    | some parts ↦ elim parts [
      | [] ↦ fetch_single entry
      | part ∷ rest ↦ (do combined ← fetch_parts (part ∷ rest); ok (try_gunzip e.gunzip combined))
    ]
  ]

  -- `manifest`: a block that is absent or 0 is looked up.
  unfoldable pub manifest : Text → Option ℕ → Result FetchError (List ManifestEntry)
  unfolding resolve_block
  manifest manifest_hash manifest_block =
      let given = or_else manifest_block 0 in
      let block = if given == 0 then resolve_block e manifest_hash else given in
      do
        raw ← fetched (fetch_content e.node manifest_hash (some block))
        elim (e.parse_json (try_gunzip e.gunzip raw)) [
          | none ↦ err bad_json
          | some entries ↦ ok entries
        ]

-- `e.f === path`
abbrev pub has_name : Text → ManifestEntry → Bool
has_name path entry = elim entry.f [ none ↦ false | some f ↦ text_eq f path ]

unfoldable pub find_name : Text → List ManifestEntry → Option ManifestEntry
find_name path [] = none
find_name path (entry ∷ entries) =
    if has_name path entry then some entry else find_name path entries

-- `!isNaN(idx) && String(idx) === path && idx >= 0 && idx < entries.length`
unfoldable pub is_index : Parsed → Text → ℕ → Bool
unfolding decimal
is_index nan path count = false
is_index (negative n) path count = false
is_index (number n) path count = text_eq (decimal n) path && ltb n count

abbrev index_of : Parsed → ℕ
index_of (number n) = n
index_of _ = 0

unfoldable pub resolve_entry : List ManifestEntry → Text → Option ManifestEntry
unfolding is_index find_name
resolve_entry entries path =
    let idx = parse_int 10 path in
    if is_index idx path (length entries)
    then get_elem? entries (index_of idx)
    else find_name path entries

-- `fetch`
unfoldable pub fetch : Evmfs → Text → Option ℕ → Text → Result FetchError (List ℕ)
unfolding manifest resolve_entry fetch_entry
fetch e manifest_hash manifest_block path = do
  entries ← manifest e manifest_hash manifest_block
  elim (resolve_entry entries path) [
    | none ↦ err (not_in_manifest path)
    | some entry ↦ fetch_entry e entry
  ]
