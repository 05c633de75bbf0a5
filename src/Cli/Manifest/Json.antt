-- ===== src/Cli/Manifest/Json.antt =====
-- cli/src/manifest.ts: what the text of a manifest tells of its entries.
use evmfs.Prelude.{
  append_assoc, ℕ, ◌≤◌, ◌≡◌, sym, ◌∙◌, ap, none, some, Option, [], ◌∷◌, ◌++◌, arith,
}
use evmfs.Prelude.Text.{Text, codes}
use evmfs.Prelude.Digits.{decimal, char_digit, value, leading_digits, leading_digits_stop}
use evmfs.Cli.Manifest.{single, quoted, name_json, entry_json, more_entries, manifest_json}

append_cancel : (xs ys zs : Text) → xs ++ ys ≡ xs ++ zs → ys ≡ zs
append_cancel [] ys zs e = e
append_cancel (x ∷ xs) ys zs e = append_cancel xs ys zs cc

-- The digits end at the character after them.
decimal_before :
    (b c : ℕ) (x : ℕ) (xs : Text)
    → 10 ≤ char_digit x
    → decimal b ++ x ∷ xs ≡ decimal c ++ x ∷ xs
    → b ≡ c
unfolding decimal
decimal_before b c x xs stop e =
    sym (leading_digits_stop 10 b x xs (omega arith) (omega arith) stop)
    ∙ ap (λ t. value 10 0 (leading_digits 10 t)) e
    ∙ leading_digits_stop 10 c x xs (omega arith) (omega arith) stop

-- The text before the block of a lone entry, and the text after it.
abbrev before : Text → Text
before h = codes "[{\"h\":" ++ quoted h ++ codes ",\"b\":"

abbrev after : Option Text → Text
after f = name_json f ++ more_entries []

manifest_json-single :
    (h : Text) (b : ℕ) (f : Option Text)
    → manifest_json (single h b f ∷ []) ≡ before h ++ (decimal b ++ after f)
unfolding manifest_json entry_json
manifest_json-single h b f =
    append_assoc (before h ++ decimal b) (name_json f) (more_entries [])
    ∙ append_assoc (before h) (decimal b) (after f)

block_before : (b c : ℕ) (f : Option Text) → decimal b ++ after f ≡ decimal c ++ after f → b ≡ c
unfolding name_json char_digit more_entries quoted
block_before b c none e = decimal_before b c b'}' (codes "]") (omega arith) e
block_before b c (some g) e =
    decimal_before b c b',' (codes "\"f\":" ++ quoted g ++ codes "}" ++ more_entries [])
      (omega arith) e

pub manifest_json-block :
    (h : Text) (b c : ℕ) (f : Option Text)
    → manifest_json (single h b f ∷ []) ≡ manifest_json (single h c f ∷ [])
    → b ≡ c
manifest_json-block h b c f e = block_before b c f (
    append_cancel (before h) (decimal b ++ after f) (decimal c ++ after f)
      (sym (manifest_json-single h b f) ∙ e ∙ manifest_json-single h c f))
