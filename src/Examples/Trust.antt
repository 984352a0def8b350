-- ===== src/Examples/Trust.antt =====
-- The checks of the host at a concrete host, and the theorems of the attestation there.
use sentinel_kv.Prelude.{
  text_eq, [], ◌∷◌, ◌&&◌, text_beq, contains, add, trim_start, is_whitespace, starts_with, ◌≡◌, ◌≢◌,
  refl, true, some, Text, text, trim, to_lower, map, all, length, replicate, ◌↔◌, arith, ◌++◌,
}
use sentinel_kv.Prelude.Int.{negsuc}
use sentinel_kv.Policy.{ring0, ring_m1, ring_m2, token_ring, pass, fail, unknown, is_fail}
use sentinel_kv.Host.{Metadata, ok, context, ensure}
use sentinel_kv.Files.{
  open_truncated, set_permissions, write_all, ensure_secure_owned_file, write_output_file,
  check_existing, Written, push_line, lines, approvals_of, is_approval, load_hitl_approvals,
}
use sentinel_kv.Files.Approvals.{names_condition, has_line, load_hitl_approvals_sound}
use sentinel_kv.Files.Secure.{
  IsSecure, IsAbsentOrSecure, ensure_secure_owned_file_iff, write_output_file-secure,
}
use sentinel_kv.Signature.{verify_attestation_signature}
use sentinel_kv.Signature.Checked.{IsVerified, verify_attestation_signature_sound}
use sentinel_kv.Signature.Fingerprint.{is_lower_hex, normalize_fingerprint-form}
use sentinel_kv.Ring.{apply_ring_policy}
use sentinel_kv.Ring.Verdicts.{
  IsTrusted, IsDecided, strict-pass-IsTrusted, apply_ring_policy-fail, strict-IsDecided,
}
use sentinel_kv.Examples.Sample.{host, attestation, fingerprint, decode}
use sentinel_kv.Examples.Decided.{decided}

attested-pass : (apply_ring_policy host pass ring_m2 attestation).result ≡ pass
unfolding host attestation fingerprint decode decided
attested-pass = refl

strict-pass-IsTrusted_example : (pass ≡ pass) × IsTrusted host ring_m2 (negsuc 1) attestation
unfolding token_ring
strict-pass-IsTrusted_example =
    strict-pass-IsTrusted host ring_m2 pass attestation (negsuc 1) refl attested-pass

apply_ring_policy-fail_example :
    is_fail (apply_ring_policy host (fail (text "leak")) ring_m1 attestation).result ≡ true
apply_ring_policy-fail_example =
    apply_ring_policy-fail host (fail (text "leak")) ring_m1 attestation refl

ring_m1-ne-ring0 : ring_m1 ≢ ring0
ring_m1-ne-ring0 e = ground arith

strict-IsDecided_example :
    IsDecided (apply_ring_policy host (unknown (text "no answer")) ring_m1 attestation).result
strict-IsDecided_example =
    strict-IsDecided host ring_m1 (unknown (text "no answer")) attestation ring_m1-ne-ring0

sample_verified :
    verify_attestation_signature host (text "token") (text "key") (text "sig") fingerprint
    ≡ ok (record { key_fingerprint = fingerprint; token_sha256 = fingerprint })
unfolding host fingerprint decode decided
sample_verified = refl

verify_attestation_signature_sound_example :
    IsVerified host
      (text "token")
      (text "key")
      (text "sig")
      fingerprint
      (record { key_fingerprint = fingerprint; token_sha256 = fingerprint })
verify_attestation_signature_sound_example =
    verify_attestation_signature_sound host (text "token") (text "key") (text "sig") fingerprint
      (record { key_fingerprint = fingerprint; token_sha256 = fingerprint }) sample_verified

abbrev upper : Text
upper = text " " ++ replicate 64 65

abbrev lower : Text
lower = replicate 64 97

normalize_fingerprint-form_example :
    (length lower ≡ 64) × (all is_lower_hex lower ≡ true) × (lower ≡ map to_lower (trim upper))
unfolding decided
normalize_fingerprint-form_example = normalize_fingerprint-form upper lower refl

ensure_secure_owned_file_iff_example :
    (ensure_secure_owned_file host (text "key") (text "attestation pubkey") ≡ ok tt)
    ↔ ((meta : Metadata) × (host.symlink_metadata (text "key") ≡ some meta) × IsSecure host meta)
ensure_secure_owned_file_iff_example =
    ensure_secure_owned_file_iff host (text "key") (text "attestation pubkey")

abbrev report : Written
report = record {
  path = text "out.json";
  permissions = 0o600;
  written_under = some 0o600;
  content = text "{}";
}

written : write_output_file host (text "out.json") (text "{}") ≡ ok report
unfolding host decided write_output_file check_existing context open_truncated set_permissions
    write_all
written = refl

write_output_file-secure_example :
    IsAbsentOrSecure host (host.symlink_metadata (text "out.json"))
    × (host.set_permissions (text "out.json") 0o600 ≡ true)
    × (host.write_all (text "out.json") (text "{}") ≡ true)
    × (host.sync_all (text "out.json") ≡ true)
    × (report ≡ record {
      path = text "out.json";
      permissions = 0o600;
      written_under = some 0o600;
      content = text "{}";
    })
write_output_file-secure_example =
    write_output_file-secure host (text "out.json") (text "{}") report written

-- the path of a file of `host` is its content
abbrev approvals_file : Text
approvals_file = text "# comment\n\n  f::bb0::i2::store  \n"

approvals_loaded : load_hitl_approvals host approvals_file ≡ ok (text "f::bb0::i2::store" ∷ [])
unfolding host decided text text_beq contains add trim trim_start is_whitespace starts_with ensure
    context push_line lines ensure_secure_owned_file approvals_of is_approval load_hitl_approvals
approvals_loaded = refl

load_hitl_approvals_sound_example :
    (meta : Metadata) × (raw : Text) × (host.symlink_metadata approvals_file ≡ some meta)
    × IsSecure host meta
    × (host.read_to_string approvals_file ≡ some raw)
    × ((x : Text)
        → contains x (text "f::bb0::i2::store" ∷ []) ≡ (names_condition x && has_line x raw))
load_hitl_approvals_sound_example =
    load_hitl_approvals_sound host approvals_file (text "f::bb0::i2::store" ∷ []) approvals_loaded
