-- ===== src/Zig/Parse.antt =====
-- The parser of attestation tokens in skv-analyzer/src/zig/attestation_bridge.zig, with what it uses
-- of Zig's standard library. A file is the list of its bytes.
use sentinel_kv.Prelude.{
  ℕ, ◌+◌, ◌-◌, ◌*◌, ◌^◌, Bool, true, false, ◌||◌, ◌&&◌, Option, none, some, [], ◌∷◌, ◌++◌, Text,
  text, text_beq, length, ltb, leb, nat_beq, is_digit, if◌then◌else◌, ◌>>=◌,
}
use sentinel_kv.Prelude.Int.{ℤ, pos}
use sentinel_kv.Files.{strip_prefix}
use sentinel_kv.Bridge.Numbers.{negate}
use sentinel_kv.Bridge.Parse.{Token, no_token, unless_found}

-- `std.fmt.parseInt` behind the sign: digits, between which underscores are passed over
unfoldable pub int_digits : ℕ → Text → Option ℕ
unfolding is_digit
int_digits acc [] = some acc
int_digits acc (c ∷ s) = elim (nat_beq c b'_') [
  | true ↦ int_digits acc s
  | false ↦ elim (is_digit c) [ true ↦ int_digits (acc * 10 + (c - 48)) s | false ↦ none ]
]

-- an underscore at the end
unfoldable pub ends_with_underscore : Text → Bool
ends_with_underscore [] = false
ends_with_underscore (c ∷ []) = nat_beq c b'_'
ends_with_underscore (c ∷ d ∷ s) = ends_with_underscore (d ∷ s)

unfoldable pub starts_with_underscore : Text → Bool
starts_with_underscore [] = false
starts_with_underscore (c ∷ s) = nat_beq c b'_'

-- the number, where it is an i64
unfoldable pub in_i64 : Bool → ℕ → Option ℤ
unfolding negate
in_i64 true n = if leb n (2 ^ 63) then some (negate n) else none
in_i64 false n = if ltb n (2 ^ 63) then some (pos n) else none

unfoldable pub int_with_sign : Bool → Text → Option ℤ
unfolding int_digits ends_with_underscore starts_with_underscore in_i64
int_with_sign minus [] = none
int_with_sign minus (c ∷ s) =
    if starts_with_underscore (c ∷ s) || ends_with_underscore (c ∷ s)
    then none
    else int_digits 0 (c ∷ s) >>= in_i64 minus

-- `std.fmt.parseInt(i64, s, 10) catch null`
unfoldable pub parse_int : Text → Option ℤ
unfolding int_with_sign
parse_int [] = none
parse_int (c ∷ s) =
    if nat_beq c b'+'
    then int_with_sign false s
    else if nat_beq c b'-'
    then int_with_sign true s
    else int_with_sign false (c ∷ s)

-- no line ends in the bytes of `\r\n`
unfoldable pub trim_line : Text → Text
trim_line [] = []
trim_line (c ∷ s) =
    let rest = trim_line s in
    if nat_beq (length rest) 0 && (nat_beq c b'\r' || nat_beq c b'\n') then [] else c ∷ rest

unfoldable pub parse_bool : Text → Text → Option Bool
unfolding text strip_prefix text_beq
parse_bool line prefix = do
  v ← strip_prefix prefix line
  if text_beq v (text "true") || text_beq v (text "1")
      then some true
      else if text_beq v (text "false") || text_beq v (text "0")
      then some false
      else none

unfoldable pub parse_i64 : Text → Text → Option ℤ
unfolding strip_prefix parse_int
parse_i64 line prefix = do v ← strip_prefix prefix line; parse_int v

unfoldable pub parse_text : Text → Text → Option Text
unfolding strip_prefix
parse_text line prefix = do
  v ← strip_prefix prefix line
  if nat_beq (length v) 0 then none else some v

-- `continue` behind a field that was found, or the next test
unfoldable pub or_next : {A : Type 0} → Option A → (A → Option Token) → Option Token → Option Token
or_next none found next = next
or_next (some v) found next = found v

-- A nonce that is longer than its buffer is refused.
unfoldable pub keep_nonce : Token → Text → Option Token
keep_nonce t v = if ltb 256 (length v) then none else some (record t { nonce = some v })

-- the body of the loop; `none` is `return false`
unfoldable pub read_line : Token → Text → Option Token
unfolding text parse_i64 parse_bool parse_text unless_found
read_line t line =
    or_next (unless_found t.ring (parse_i64 line (text "ring:")))
      (λ v. some (record t { ring = some v }))
      (or_next (unless_found t.attested (parse_bool line (text "attested:")))
        (λ v. some (record t { attested = some v }))
        (or_next (unless_found t.timestamp (parse_i64 line (text "timestamp:")))
          (λ v. some (record t { timestamp = some v }))
          (or_next (unless_found t.nonce (parse_text line (text "nonce:"))) (keep_nonce t) (
            or_next (unless_found t.counter (parse_i64 line (text "counter:")))
              (λ v. some (record t { counter = some v }))
              (or_next (unless_found t.root_attested (parse_bool line (text "root_attested:")))
                (λ v. some (record t { root_attested = some v })) (some t))))))

-- `readUntilDelimiterOrEof` with a buffer of `room` bytes, of which `line` is read already: nothing
-- at the end of the file, an error for a line that leaves no room for its line feed
unfoldable pub next_line : ℕ → Text → Text → Option (Option Text)
next_line room line [] = if nat_beq (length line) 0 then none else some (some line)
next_line room line (c ∷ s) =
    let rest = next_line (room - 1) (line ++ c ∷ []) s in
    if nat_beq c b'\n' then some (some line) else if leb room 1 then some none else rest

-- the whole loop with its buffer of 512 bytes
unfoldable pub read_lines : Token → ℕ → Text → Text → Option Token
unfolding read_line trim_line
read_lines t room line [] = if nat_beq (length line) 0 then some t else read_line t (trim_line line)
read_lines t room line (c ∷ s) = elim (nat_beq c b'\n') [
  | true ↦ read_line t (trim_line line) >>= λ u. read_lines u 512 [] s
  | false ↦ elim (leb room 1) [ true ↦ none | false ↦ read_lines t (room - 1) (line ++ c ∷ []) s ]
]

unfoldable pub read_token : Text → Option Token
unfolding no_token read_lines
read_token content = read_lines no_token 512 [] content
