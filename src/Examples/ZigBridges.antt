-- ===== src/Examples/ZigBridges.antt =====
-- The attestation bridge in Zig on a token, and its theorems there.
use sentinel_kv.Prelude.{
  ◌≡◌, refl, sym, ◌∙◌, subst, true, none, some, [], ◌∷◌, Text, text, text_beq, starts_with,
  read_digits, List, All, map, is_digit, decimal, decimal_digits, length, arith, ◌≤◌,
}
use sentinel_kv.Prelude.Int.{ℤ, pos, negsuc, ◌-ℤ◌}
use sentinel_kv.Host.{Metadata}
use sentinel_kv.Files.{strip_prefix, others_write}
use sentinel_kv.Doctor.{integer_text}
use sentinel_kv.Ledger.{Ledger, answers, stored}
use sentinel_kv.Bridge.Numbers.{is_space, skip_space, sign, negate, clamp, strtoll, wrap}
use sentinel_kv.Bridge.Parse.{
  Token, no_token, unless_found, parse_ring, parse_flag, parse_i64_field, parse_string_field,
  chunks, line_of,
}
use sentinel_kv.Bridge.Parse as C
use sentinel_kv.Bridge.{eq_ℤ, root_ok, nonce_ok, counter_line}
use sentinel_kv.Zig.Parse.{
  int_digits, ends_with_underscore, starts_with_underscore, in_i64, int_with_sign, parse_int,
  trim_line, parse_bool, parse_i64, parse_text, or_next, keep_nonce, read_line, read_lines,
  read_token,
}
use sentinel_kv.Zig.{
  Os, Replay, passes, ensure, assert, found, is_secure_regular_file, is_absolute, minus_i64,
  token_of, checked_counter,
}
use sentinel_kv.Zig.Presents.{Call, Presents, offered, Presents-offered, passes-injective}
use sentinel_kv.Zig.Works.{Works}
use sentinel_kv.Zig.Refines.{absent, last, zig_attestor, zig_answers-Ledger}
use sentinel_kv.Zig.Parity.{file_of}
use sentinel_kv.Zig.Entries.{
  Entry, ring, timestamp, counter, attested, root_attested, nonce, line_of_entry, IsEntry,
  entries-agree,
}

unfoldable zig_token : Text
unfolding text
zig_token = text "ring:-2\nattested:true\nroot_attested:1\ntimestamp:9_00\nnonce:n1\r\ncounter:+7\n"

abbrev private_file : Metadata
private_file = record { is_file = true; uid = 0; mode = 0o600 }

abbrev shared_file : Metadata
shared_file = record { is_file = true; uid = 0; mode = 0o622 }

-- the clock stands at 1000
unfoldable os : Os
unfolding zig_token
os = record {
  lstat = λ path. some private_file;
  open_file = λ path. some zig_token;
  timestamp = pos 1000;
  open_state = true;
  create_file = true;
  new_file = private_file;
  written = 20;
}

unfoldable zig_call : Call
unfolding os text
zig_call = record {
  os = os;
  token_path = text "/token";
  required_ring = negsuc 1;
  max_age_sec = pos 300;
  expected_nonce = some (text "n1");
  replay_path = text "/replay";
}

seven_offered : offered zig_call ≡ passes (pos 7)
unfolding zig_call text text_beq starts_with is_digit ◌-ℤ◌ strip_prefix others_write negate no_token
    unless_found eq_ℤ root_ok nonce_ok int_digits ends_with_underscore starts_with_underscore in_i64
    int_with_sign parse_int trim_line parse_bool parse_i64 parse_text or_next keep_nonce read_line
    read_lines read_token ensure assert found is_secure_regular_file is_absolute minus_i64 token_of
    checked_counter offered
seven_offered = refl

-- the C bridge takes the digits in front, the Zig bridge the whole text or nothing
trailing_taken : strtoll (text "7 ") ≡ some (pos 7)
unfolding text is_digit is_space skip_space sign clamp strtoll read_digits
trailing_taken = refl

trailing_refused : parse_int (text "7 ") ≡ none
unfolding text is_digit parse_int int_with_sign int_digits ends_with_underscore
    starts_with_underscore in_i64
trailing_refused = refl

call_is_absolute : is_absolute zig_call.token_path ≡ true
unfolding zig_call text is_absolute
call_is_absolute = refl

seven_fits : length (counter_line (pos 7)) ≤ zig_call.os.written
unfolding zig_call counter_line integer_text decimal decimal_digits
seven_fits = omega arith

-- whatever the token file is taken to be, its counter is 7
line_fits : (c : ℤ) → Presents zig_call c → length (counter_line c) ≤ zig_call.os.written
line_fits c p =
    let same : c ≡ pos 7 =
      passes-injective (sym (Presents-offered zig_call c call_is_absolute p) ∙ seven_offered) in
    subst (λ d. length (counter_line d) ≤ zig_call.os.written) (sym same) seven_fits

zig_call-Works : Works zig_call
unfolding zig_call text is_absolute is_secure_regular_file others_write
zig_call-Works = record {
  token_path = refl;
  replay_path = refl;
  opens = refl;
  creates = refl;
  secure = refl;
  writes = line_fits;
}

abbrev nothing_stored : Replay
nothing_stored = record { status = none; content = [] }

zig_answers-Ledger_example :
    Ledger Presents
      (last nothing_stored)
      (answers zig_attestor (zig_call ∷ zig_call ∷ []) nothing_stored)
      (last (stored zig_attestor (zig_call ∷ zig_call ∷ []) nothing_stored))
zig_answers-Ledger_example =
    zig_answers-Ledger (zig_call ∷ zig_call ∷ []) nothing_stored
      (zig_call-Works, (zig_call-Works, tt)) (absent refl)

abbrev shared_state : Text → Replay
shared_state content = record { status = some shared_file; content = content }

-- the parser of the C bridge as one definition that computes
unfoldable c_read : Text → Token
unfolding text starts_with read_digits is_digit decimal decimal_digits strip_prefix integer_text
    is_space skip_space sign negate clamp strtoll wrap parse_ring parse_flag parse_i64_field
    parse_string_field no_token unless_found C.or_next C.read_line chunks line_of C.read_lines
    C.read_token file_of line_of_entry
c_read = C.read_token

unfoldable printed : List Entry
unfolding text
printed =
    ring (negsuc 1)
    ∷ attested true
    ∷ root_attested true
    ∷ timestamp (pos 900)
    ∷ nonce (text "n1")
    ∷ counter (pos 7)
    ∷ ring (pos 5)
    ∷ []

printed-IsEntry : All IsEntry printed
unfolding printed
printed-IsEntry = (
  omega arith,
  (
    tt,
    (
      tt,
      (
        omega arith,
        (((refl, (refl, tt)), omega arith, omega arith), (omega arith, (omega arith, tt))),
      ),
    ),
  ),
)

-- the first ring counts
printed_token : C.read_token (file_of (map line_of_entry printed)) ≡ record {
  ring = some (negsuc 1);
  attested = some true;
  timestamp = some (pos 900);
  nonce = some (text "n1");
  counter = some (pos 7);
  root_attested = some true;
}
unfolding printed c_read
printed_token = refl

entries-agree_example :
    (let content = file_of (map line_of_entry printed) in
      read_token content ≡ some (C.read_token content))
entries-agree_example = entries-agree printed printed-IsEntry
