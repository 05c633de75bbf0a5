-- ===== src/Examples/Names.antt =====
-- Names at concrete inputs.
use evmfs.Prelude.{◌≡◌, ◌↔◌, ◌&&◌, not, ltb, none, some, Option, length, leb}
use evmfs.Prelude.Text.{Text, codes}
use evmfs.Contract.Names.{accepts_name}
use evmfs.Cli.Names.{NameOptions, NameCall, NameReply, mined, names_v2_address, register_command}
use evmfs.NamesUi.{Version, v1, v2, Listing, zero_address, typed_name, name_valid, handle_lookup}
use evmfs.NamesUi.Typed.{hyphen_first, hyphen_last, name_valid-typed_name}
use evmfs.NamesUi.Found.{Means, handle_lookup-Means}
use evmfs.Cli.Names.{register_v2}
use evmfs.Cli.Names.Sends.{MayRegister, IsOwnCall, register_command-sends}

abbrev options : NameOptions
options = record {
  name = codes "My-Site";
  manifest = codes "0xab";
  block = none;
  names_contract = names_v2_address;
}

abbrev free : Text → Option Text
free name = none

abbrev confirm : NameCall → NameReply
confirm call = mined 1

abbrev sent : NameCall
sent = register_v2 (codes "my-site") (codes "0xab")

register_command-sends_example :
    ((register_command free confirm options).sent ≡ some sent)
    ↔ (MayRegister free confirm options × IsOwnCall free confirm options sent)
register_command-sends_example = register_command-sends free confirm options sent

name_valid-typed_name_example :
    let s = typed_name (codes "My_Site-") in
    (name_valid s ≡ accepts_name s)
    × (name_valid s ≡ (
        ltb 0 (length s) && (leb (length s) 32 && (not (hyphen_first s) && not (hyphen_last s)))))
name_valid-typed_name_example = name_valid-typed_name (codes "My_Site-")

-- A name that only the first registry has.
abbrev listing : Version → Text → Option Listing
listing v2 name = some (record { owner = zero_address; block = 0; manifest = codes "0x00" })
listing v1 name = some (record { owner = codes "0xa1"; block = 7; manifest = codes "0xab" })

handle_lookup-Means_example :
    Means listing (codes "my-site") (handle_lookup listing (codes "my-site"))
handle_lookup-Means_example = handle_lookup-Means listing (codes "my-site")
