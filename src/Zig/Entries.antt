-- ===== src/Zig/Entries.antt =====
-- Attestation tokens as `print_token_template` (skv-analyzer/src/main.rs) lays them out, one entry to
-- a line, before the parsers of both bridges.
use sentinel_kv.Prelude.{
  ◌≤◌, ◌<◌, ◌^◌, ◌≡◌, refl, sym, ap, ◌∙◌, Bool, true, false, ◌&&◌, some, List, [], ◌∷◌, ◌++◌, All,
  Text, text, length, ltb, map, ends, starts_with, text_beq, ◌>>=◌, arith,
}
use mathlib.Core.List.{append-nil}
use sentinel_kv.Prelude.Int.{ℤ, pos, negsuc}
use sentinel_kv.Files.{strip_prefix}
use sentinel_kv.Doctor.{integer_text}
use sentinel_kv.Bridge.Numbers.{strtoll, wrap}
use sentinel_kv.Bridge.Parse.{parse_ring, parse_flag, parse_i64_field, parse_string_field}
use sentinel_kv.Bridge.Printed.{IsI64, strtoll-integer_text}
use sentinel_kv.Bridge.Parse as C
use sentinel_kv.Zig.Parse.{parse_i64, parse_bool, parse_text, parse_int}
use sentinel_kv.Zig.Parse as Z
use sentinel_kv.Zig.Printed.{
  IsPlain, integer_text-IsPlain, parse_int-integer_text, length-integer_text,
}
use sentinel_kv.Zig.Parity.{ReadsAlike, IsLine, file_of, read_token-agrees}

pub data Entry : Type 0 where
  ring timestamp counter : ℤ → Entry
  attested root_attested : Bool → Entry
  nonce : Text → Entry

abbrev flag_text : Bool → Text
flag_text true = text "true"
flag_text false = text "false"

unfoldable pub line_of_entry : Entry → Text
unfolding text integer_text
line_of_entry (ring n) = text "ring:" ++ integer_text n
line_of_entry (timestamp n) = text "timestamp:" ++ integer_text n
line_of_entry (counter n) = text "counter:" ++ integer_text n
line_of_entry (attested b) = text "attested:" ++ flag_text b
line_of_entry (root_attested b) = text "root_attested:" ++ flag_text b
line_of_entry (nonce v) = text "nonce:" ++ v

-- a value of 32 bits with a sign
abbrev pub IsI32 : ℤ → Type 0
IsI32 (pos n) = n < 2 ^ 31
IsI32 (negsuc n) = n < 2 ^ 31

-- a ring of 32 bits, other numbers of 64, and a nonce of 1 to 240 bytes above the control characters
-- that end lines
abbrev pub IsEntry : Entry → Type 0
IsEntry (ring n) = IsI32 n
IsEntry (timestamp n) = IsI64 n
IsEntry (counter n) = IsI64 n
IsEntry (attested b) = Unit
IsEntry (root_attested b) = Unit
IsEntry (nonce v) = IsPlain v × (0 < length v) × (length v ≤ 240)

wrap-IsI32 : (n : ℤ) → IsI32 n → wrap (2 ^ 31) n ≡ n
unfolding wrap
wrap-IsI32 (pos n) h = ground arith
wrap-IsI32 (negsuc n) h = ground arith

IsI32-IsI64 : (n : ℤ) → IsI32 n → IsI64 n
IsI32-IsI64 (pos n) h = omega arith
IsI32-IsI64 (negsuc n) h = omega arith

strtoll-end : (n : ℤ) → IsI64 n → strtoll (integer_text n) ≡ some n
unfolding ends
strtoll-end n h = ap strtoll (sym (append-nil (integer_text n))) ∙ strtoll-integer_text n [] h refl

parsers_agree : (n : ℤ) → IsI64 n → strtoll (integer_text n) ≡ parse_int (integer_text n)
parsers_agree n h = strtoll-end n h ∙ sym (parse_int-integer_text n h)

ring_agrees :
    (n : ℤ)
    → IsI32 n
    → (strtoll (integer_text n) >>= λ val. some (wrap (2 ^ 31) val)) ≡ parse_int (integer_text n)
ring_agrees n h =
    ap (λ o. o >>= λ val. some (wrap (2 ^ 31) val)) (strtoll-end n (IsI32-IsI64 n h))
    ∙ ap some (wrap-IsI32 n h)
    ∙ sym (parse_int-integer_text n (IsI32-IsI64 n h))

line_of_entry-ReadsAlike : (e : Entry) → IsEntry e → ReadsAlike (line_of_entry e)
unfolding line_of_entry text strip_prefix starts_with text_beq parse_ring parse_flag parse_i64_field
    parse_string_field parse_i64 parse_bool parse_text
line_of_entry-ReadsAlike (ring n) h = record {
  ring = ring_agrees n h;
  attested = refl;
  timestamp = refl;
  nonce = refl;
  nonce_fits = λ v e. cc;
  counter = refl;
  root_attested = refl;
}
line_of_entry-ReadsAlike (timestamp n) h = record {
  ring = refl;
  attested = refl;
  timestamp = parsers_agree n h;
  nonce = refl;
  nonce_fits = λ v e. cc;
  counter = refl;
  root_attested = refl;
}
line_of_entry-ReadsAlike (counter n) h = record {
  ring = refl;
  attested = refl;
  timestamp = refl;
  nonce = refl;
  nonce_fits = λ v e. cc;
  counter = parsers_agree n h;
  root_attested = refl;
}
line_of_entry-ReadsAlike (attested true) h = record {
  ring = refl;
  attested = refl;
  timestamp = refl;
  nonce = refl;
  nonce_fits = λ v e. cc;
  counter = refl;
  root_attested = refl;
}
line_of_entry-ReadsAlike (attested false) h = record {
  ring = refl;
  attested = refl;
  timestamp = refl;
  nonce = refl;
  nonce_fits = λ v e. cc;
  counter = refl;
  root_attested = refl;
}
line_of_entry-ReadsAlike (root_attested true) h = record {
  ring = refl;
  attested = refl;
  timestamp = refl;
  nonce = refl;
  nonce_fits = λ v e. cc;
  counter = refl;
  root_attested = refl;
}
line_of_entry-ReadsAlike (root_attested false) h = record {
  ring = refl;
  attested = refl;
  timestamp = refl;
  nonce = refl;
  nonce_fits = λ v e. cc;
  counter = refl;
  root_attested = refl;
}
line_of_entry-ReadsAlike (nonce v) h = record {
  ring = refl;
  attested = refl;
  timestamp = refl;
  nonce = ground arith;
  nonce_fits = λ u e. ground arith;
  counter = refl;
  root_attested = refl;
}

all_plain : Text → Bool
all_plain [] = true
all_plain (c ∷ s) = ltb 13 c && all_plain s

-- a literal in front of a text
literal-IsPlain : (p s : Text) → all_plain p ≡ true → IsPlain s → IsPlain (p ++ s)
unfolding all_plain
literal-IsPlain [] s h k = k
literal-IsPlain (c ∷ p) s h k = (ground arith, literal-IsPlain p s (ground arith) k)

flag_text-IsPlain : (b : Bool) → IsPlain (flag_text b)
unfolding text
flag_text-IsPlain true = (refl, (refl, (refl, (refl, tt))))
flag_text-IsPlain false = (refl, (refl, (refl, (refl, (refl, tt)))))

line_of_entry-IsPlain : (e : Entry) → IsEntry e → IsPlain (line_of_entry e)
unfolding line_of_entry all_plain text
line_of_entry-IsPlain (ring n) h = literal-IsPlain (text "ring:") _ refl (integer_text-IsPlain n)
line_of_entry-IsPlain (timestamp n) h =
    literal-IsPlain (text "timestamp:") _ refl (integer_text-IsPlain n)
line_of_entry-IsPlain (counter n) h =
    literal-IsPlain (text "counter:") _ refl (integer_text-IsPlain n)
line_of_entry-IsPlain (attested b) h =
    literal-IsPlain (text "attested:") _ refl (flag_text-IsPlain b)
line_of_entry-IsPlain (root_attested b) h =
    literal-IsPlain (text "root_attested:") _ refl (flag_text-IsPlain b)
line_of_entry-IsPlain (nonce v) h = literal-IsPlain (text "nonce:") _ refl h.0

length-line_of_entry : (e : Entry) → IsEntry e → length (line_of_entry e) < 255
unfolding line_of_entry text
length-line_of_entry (ring n) h = omega (arith, length-integer_text n (IsI32-IsI64 n h))
length-line_of_entry (timestamp n) h = omega (arith, length-integer_text n h)
length-line_of_entry (counter n) h = omega (arith, length-integer_text n h)
length-line_of_entry (attested true) h = omega arith
length-line_of_entry (attested false) h = omega arith
length-line_of_entry (root_attested true) h = omega arith
length-line_of_entry (root_attested false) h = omega arith
length-line_of_entry (nonce v) h = omega (arith, h.2)

entry_lines : (l : List Entry) → All IsEntry l → All IsLine (map line_of_entry l)
entry_lines [] h = tt
entry_lines (e ∷ l) h = (
  record {
    plain = line_of_entry-IsPlain e h.0;
    short = length-line_of_entry e h.0;
    agrees = line_of_entry-ReadsAlike e h.0;
  },
  entry_lines l h.1,
)

-- Both bridges read the same token from a file of entries of the six kinds, in any order and number,
-- each on a line that ends in a line feed: a ring of 32 bits, a time stamp and a counter of 64, flags
-- as `true` or `false`, and nonces of 1 to 240 bytes above 13.
pub entries-agree :
    (l : List Entry)
    → All IsEntry l
    → (let content = file_of (map line_of_entry l) in
        Z.read_token content ≡ some (C.read_token content))
entries-agree l h = read_token-agrees (map line_of_entry l) (entry_lines l h)
