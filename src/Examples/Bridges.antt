-- ===== src/Examples/Bridges.antt =====
-- The attestation bridge on a token, and its theorems there.
use sentinel_kv.Prelude.{
  ◌≡◌, refl, sym, ap, ◌∙◌, subst, none, length, true, some, Option, [], ◌∷◌, Text, text, text_beq,
  ℕ, starts_with, read_digits, is_digit, decimal, decimal_digits,
}
use sentinel_kv.Prelude.Int.{ℤ, pos, negsuc, ◌-ℤ◌, ltb_ℤ}
use sentinel_kv.Policy.{pass, ring_m2, token_ring}
use sentinel_kv.Host.{Host, Metadata}
use sentinel_kv.Files.{strip_prefix, others_write}
use sentinel_kv.Ring.{apply_ring_policy}
use sentinel_kv.Doctor.{integer_text}
use sentinel_kv.Bridge.Numbers.{is_space, skip_space, sign, negate, clamp, strtoll, wrap}
use sentinel_kv.Bridge.Parse.{
  parse_ring, parse_flag, parse_i64_field, parse_string_field, no_token, unless_found, or_next,
  read_line, chunks, line_of, read_lines, read_token,
}
use sentinel_kv.Bridge.{
  System, require, is_secure, is_empty, read_token_file, eq_ℤ, root_ok, nonce_ok, check_fields,
  take, c_string, last_counter, check_replay, counter_line, write_counter, advance,
  validate_attestation_token,
}
use sentinel_kv.Bridge.Accepted.{IsAccepted, validate_attestation_token-IsAccepted}
use sentinel_kv.Bridge.Replay.{
  Call, answer, Calls, done, refused, accepted, IsIncreasing, Calls-IsIncreasing,
}
use sentinel_kv.Ledger.{Ledger, answers, stored}
use sentinel_kv.Bridge.Presents.{Presents}
use sentinel_kv.Bridge.Refines.{Works, c_attestor, c_answers-Ledger}
use sentinel_kv.Bridge.Faults.{full_disk, failed_write-forgets}
use sentinel_kv.Bridge.Once.{left_by, strict_passes-increase}
use sentinel_kv.Bridge.Chain.{encode_utf8, c_bytes, linked, strict-pass-IsAccepted}
use sentinel_kv.Examples.Sample.{host, attestation, fingerprint, decode}
use sentinel_kv.Examples.Decided.{decided}

-- the bridge as one definition that computes
unfoldable validated : System → Text → ℤ → ℤ → Option Text → Text → Text → ℕ × Text
unfolding text text_beq starts_with read_digits is_digit decimal decimal_digits ◌-ℤ◌ strip_prefix
    others_write integer_text is_space skip_space sign negate clamp strtoll wrap parse_ring
    parse_flag parse_i64_field parse_string_field no_token unless_found or_next read_line chunks
    line_of read_lines read_token require is_secure is_empty read_token_file eq_ℤ root_ok nonce_ok
    check_fields take c_string last_counter check_replay counter_line write_counter advance
    validate_attestation_token
validated = validate_attestation_token

unfoldable token_text : Text
unfolding text
token_text = text "ring:-2\nattested:true\nroot_attested:true\ntimestamp:900\nnonce:n1\ncounter:7\n"

abbrev owned : Metadata
owned = record { is_file = true; uid = 0; mode = 0o600 }

-- the clock stands at 1000
unfoldable sys : System
unfolding token_text
sys = record {
  lstat = λ path. some owned;
  geteuid = 0;
  fopen = λ path. some token_text;
  time = some (pos 1000);
  open_state = λ path. true;
  lock = true;
  fstat = some owned;
  pread = true;
  ftruncate = true;
  lseek = true;
  written = 2;
  fsync = true;
  chmod = true;
}

token_accepted :
    validate_attestation_token sys
      (text "token")
      (negsuc 1)
      (pos 300)
      (some (text "n1"))
      (text "replay")
      (text "6\n")
    ≡ (1, text "7\n")
unfolding sys validated
token_accepted = refl

validate_attestation_token-IsAccepted_example :
    IsAccepted sys (text "token") (negsuc 1) (pos 300) (some (text "n1")) (text "6\n") (text "7\n")
validate_attestation_token-IsAccepted_example =
    validate_attestation_token-IsAccepted sys (text "token") (negsuc 1) (pos 300) (some (text "n1"))
      (text "replay") (text "6\n") (text "7\n") token_accepted

abbrev call : Call
call = record {
  sys = sys;
  token_path = text "token";
  required_ring = negsuc 1;
  max_age_sec = pos 300;
  expected_nonce = some (text "n1");
  replay_path = text "replay";
}

-- the same token again
token_refused : answer call (text "7\n") ≡ (0, text "7\n")
unfolding sys validated answer
token_refused = refl

answered : answer call (text "6\n") ≡ (1, text "7\n")
unfolding sys validated answer
answered = refl

state_is_read : call.sys.pread ≡ true
unfolding sys
state_is_read = refl

token_is_opened : call.sys.fopen call.token_path ≡ some token_text
unfolding sys
token_is_opened = refl

seven_counted : (read_token token_text).counter ≡ some (pos 7)
unfolding token_text validated
seven_counted = refl

accepted_once : Calls (text "6\n") (pos 7 ∷ []) (text "7\n")
accepted_once =
    accepted call state_is_read token_is_opened seven_counted answered
      (refused call token_refused done)

Calls-IsIncreasing_example : IsIncreasing (last_counter true (text "6\n")) (pos 7 ∷ [])
Calls-IsIncreasing_example = Calls-IsIncreasing accepted_once

seven_line : sys.written ≡ length (counter_line (pos 7))
unfolding sys validated
seven_line = refl

-- whatever the token file is taken to be, its counter is 7
presented : (c : ℤ) → Presents call c → sys.written ≡ length (counter_line c)
presented c p =
    let same : p.content ≡ token_text = cc (p.opened, token_is_opened) in
    let counted : some c ≡ some (pos 7) =
      sym p.good.says.counted ∙ ap (λ s. (read_token s).counter) same ∙ seven_counted in
    subst (λ o. sys.written ≡ elim o [ none ↦ 0 | some d ↦ length (counter_line d) ]) (sym counted)
      seven_line

call-Works : Works call
unfolding sys validated
call-Works = record {
  replay_file = owned;
  named = refl;
  opens = refl;
  locks = refl;
  found = refl;
  secure = refl;
  reads = refl;
  truncates = refl;
  seeks = refl;
  writes = presented;
  syncs = refl;
  changes_mode = refl;
}

c_answers-Ledger_example :
    Ledger Presents
      (last_counter true (text "6\n"))
      (answers c_attestor (call ∷ call ∷ []) (text "6\n"))
      (last_counter true (stored c_attestor (call ∷ call ∷ []) (text "6\n")))
c_answers-Ledger_example =
    c_answers-Ledger (call ∷ call ∷ []) (text "6\n") (call-Works, (call-Works, tt))

unfoldable bridged_host : Host
unfolding host linked
bridged_host = record host { validate_token = linked sys (text "6\n") }

bridged-pass : (apply_ring_policy bridged_host pass ring_m2 attestation).result ≡ pass
unfolding bridged_host sys attestation fingerprint decode decided validated encode_utf8 c_bytes
    linked
bridged-pass = refl

-- é takes two bytes, € three and 😀 four
utf8_bytes :
    c_bytes (0xE9 ∷ 0x20AC ∷ 0x1F600 ∷ [])
    ≡ 0xC3 ∷ 0xA9 ∷ 0xE2 ∷ 0x82 ∷ 0xAC ∷ 0xF0 ∷ 0x9F ∷ 0x98 ∷ 0x80 ∷ []
unfolding encode_utf8 c_bytes
utf8_bytes = refl

strict-pass-IsAccepted_example :
    (path : Text) × (nonce : Text) × (after : Text) × (attestation.token ≡ some path)
    × (attestation.nonce ≡ some nonce)
    × IsAccepted sys (c_bytes path) (negsuc 1) (pos 300) (some (c_bytes nonce)) (text "6\n") after
unfolding bridged_host token_ring attestation
strict-pass-IsAccepted_example =
    strict-pass-IsAccepted bridged_host ring_m2 pass attestation (negsuc 1) sys (text "6\n") refl
      refl bridged-pass

unfoldable next_text : Text
unfolding text
next_text = text "ring:-2\nattested:true\nroot_attested:true\ntimestamp:950\nnonce:n1\ncounter:8\n"

-- the next token, later
unfoldable next_sys : System
unfolding sys next_text
next_sys = record sys { fopen = λ path. some next_text; time = some (pos 1100) }

unfoldable next_host : Host
unfolding host linked left_by
next_host = record host {
  validate_token = linked next_sys (left_by sys (text "6\n") (negsuc 1) attestation);
}

next-pass : (apply_ring_policy next_host pass ring_m2 attestation).result ≡ pass
unfolding next_host next_sys sys attestation fingerprint decode decided validated left_by
    encode_utf8 c_bytes linked
next-pass = refl

abbrev token_path : Text
token_path = text "token"

strict_passes-increase_example :
    (c c' : ℤ) × ((read_token token_text).counter ≡ some c)
    × ((read_token next_text).counter ≡ some c')
    × (ltb_ℤ c c' ≡ true)
unfolding bridged_host next_host token_ring attestation sys next_sys
strict_passes-increase_example =
    strict_passes-increase bridged_host next_host ring_m2 ring_m2 pass pass attestation attestation
      (negsuc 1) (negsuc 1) sys next_sys (text "6\n") token_path token_path token_text next_text
      refl refl refl refl bridged-pass refl refl refl refl refl next-pass

failed_write-forgets_example :
    (validate_attestation_token
        (full_disk sys)
        (text "token")
        (negsuc 1)
        (pos 300)
        (some (text "n1"))
        (text "replay")
        (text "6\n")
      ≡ (0, []))
    × (validate_attestation_token sys
          (text "token")
          (negsuc 1)
          (pos 300)
          (some (text "n1"))
          (text "replay")
          []
        ≡ (1, text "7\n"))
failed_write-forgets_example =
    failed_write-forgets sys (text "token") (negsuc 1) (pos 300) (some (text "n1")) (text "replay")
      (text "6\n") (text "7\n") token_text 7 token_is_opened seven_counted token_accepted
