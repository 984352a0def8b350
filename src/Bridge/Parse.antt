-- ===== src/Bridge/Parse.antt =====
-- The parser of attestation tokens in skv-analyzer/src/c/attestation_bridge.c. A file is the list of
-- its bytes.
use sentinel_kv.Prelude.{
  ℕ, ◌+◌, ◌-◌, ◌^◌, Bool, true, false, ◌||◌, Option, none, some, List, [], ◌∷◌, ◌++◌, Text, text,
  starts_with, length, ltb, nat_beq, if◌then◌else◌, ◌>>=◌,
}
use sentinel_kv.Prelude.Int.{ℤ}
use sentinel_kv.Files.{strip_prefix}
use sentinel_kv.Bridge.Numbers.{strtoll, wrap}

-- `(int)val`
unfoldable pub parse_ring : Text → Option ℤ
unfolding text strip_prefix strtoll wrap
parse_ring line = do v ← strip_prefix (text "ring:") line; val ← strtoll v; some (wrap (2 ^ 31) val)

-- `parse_attested` and `parse_root_attested`, by their prefix
unfoldable pub parse_flag : Text → Text → Option Bool
unfolding text strip_prefix starts_with
parse_flag prefix line = do
  v ← strip_prefix prefix line
  if starts_with v (text "true") || starts_with v (text "1")
      then some true
      else if starts_with v (text "false") || starts_with v (text "0")
      then some false
      else none

unfoldable pub parse_i64_field : Text → Text → Option ℤ
unfolding strip_prefix strtoll
parse_i64_field line prefix = do v ← strip_prefix prefix line; strtoll v

unfoldable pub parse_string_field : Text → Text → ℕ → Option Text
unfolding strip_prefix
parse_string_field line prefix out_len = do
  v ← strip_prefix prefix line
  if nat_beq (length v) 0 then none else if ltb out_len (length v + 1) then none else some v

-- The local variables of the reading loop: `none` while `found_…` is 0.
pub record Token : Type 0 where
  pub ring : Option ℤ
  pub attested : Option Bool
  pub timestamp : Option ℤ
  pub nonce : Option Text
  pub counter : Option ℤ
  pub root_attested : Option Bool

unfoldable pub no_token : Token
no_token = record {
  ring = none;
  attested = none;
  timestamp = none;
  nonce = none;
  counter = none;
  root_attested = none;
}

-- `!found && parse(…)`
unfoldable pub unless_found : {A : Type 0} → Option A → Option A → Option A
unless_found none parsed = parsed
unless_found (some a) parsed = none

-- `{ found = 1; continue; }`, or the next test
unfoldable pub or_next : {A : Type 0} → Option A → (A → Token) → Token → Token
or_next none found next = next
or_next (some v) found next = found v

-- the body of the loop
unfoldable pub read_line : Token → Text → Token
unfolding text parse_ring parse_flag parse_i64_field parse_string_field unless_found
read_line t line =
    or_next (unless_found t.ring (parse_ring line)) (λ v. record t { ring = some v })
      (or_next (unless_found t.attested (parse_flag (text "attested:") line))
        (λ v. record t { attested = some v })
        (or_next (unless_found t.timestamp (parse_i64_field line (text "timestamp:")))
          (λ v. record t { timestamp = some v })
          (or_next (unless_found t.nonce (parse_string_field line (text "nonce:") 256))
            (λ v. record t { nonce = some v })
            (or_next (unless_found t.counter (parse_i64_field line (text "counter:")))
              (λ v. record t { counter = some v })
              (or_next (unless_found t.root_attested (parse_flag (text "root_attested:") line))
                (λ v. record t { root_attested = some v }) t)))))

-- What `fgets` gives, call by call: up to 255 bytes, and no more behind a line feed. `room` is what
-- is left in the buffer, and `chunk` what it holds.
unfoldable pub chunks : ℕ → Text → Text → List Text
chunks room chunk [] = if nat_beq (length chunk) 0 then [] else chunk ∷ []
chunks room chunk (c ∷ s) =
    let full = (chunk ++ c ∷ []) ∷ chunks 255 [] s in
    let more = chunks (room - 1) (chunk ++ c ∷ []) s in
    if nat_beq c b'\n' || nat_beq room 1 then full else more

-- the C string in the buffer, up to the line feed
unfoldable pub line_of : Text → Text
line_of [] = []
line_of (c ∷ s) = let rest = line_of s in if nat_beq c 0 || nat_beq c b'\n' then [] else c ∷ rest

unfoldable pub read_lines : Token → List Text → Token
unfolding read_line line_of
read_lines t [] = t
read_lines t (chunk ∷ l) = read_lines (read_line t (line_of chunk)) l

unfoldable pub read_token : Text → Token
unfolding no_token chunks read_lines
read_token content = read_lines no_token (chunks 255 [] content)
