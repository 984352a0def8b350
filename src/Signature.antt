-- ===== src/Signature.antt =====
-- `normalize_fingerprint` and `verify_attestation_signature` of skv-analyzer/src/main.rs.
pub mod Checked
pub mod Fingerprint
use sentinel_kv.Prelude.{
  ℕ, Bool, ◌&&◌, ◌||◌, map, Text, text, text_beq, ◌++◌, nat_beq, leb, length, len, trim, to_lower,
  all,
}
use sentinel_kv.Host.{Host, Result, ok, ◌>>=◌, ◌>>◌, ensure, context}
use sentinel_kv.Files.{ensure_secure_owned_file}

-- `char::is_ascii_hexdigit`
unfoldable pub is_hex_digit : ℕ → Bool
is_hex_digit c = leb b'0' c && leb c b'9' || (leb b'a' c && leb c b'f' || leb b'A' c && leb c b'F')

unfoldable pub normalize_fingerprint : Text → Result Text
unfolding ensure
normalize_fingerprint value =
    let fp = map to_lower (trim value) in
    do
      ensure (nat_beq (len fp) 64 && all is_hex_digit fp)
          (text "fingerprint must be exactly 64 hex characters")
      ok fp

pub record SignatureMeta : Type 0 where
  pub key_fingerprint : Text
  pub token_sha256 : Text

unfoldable pub verify_attestation_signature :
    Host → Text → Text → Text → Text → Result SignatureMeta
unfolding ensure context
verify_attestation_signature host token_path pubkey_path signature_path expected = do
  ensure_secure_owned_file host pubkey_path (text "attestation pubkey")
  ensure_secure_owned_file host signature_path (text "attestation signature")
  token ← context (host.read token_path) (text "Failed reading attestation token: " ++ token_path)
  pubkey_b64 ←
      context (host.read_to_string pubkey_path)
        (text "Failed reading attestation pubkey: " ++ pubkey_path)
  sig_b64 ←
      context (host.read_to_string signature_path)
        (text "Failed reading attestation signature: " ++ signature_path)
  pubkey_raw ←
      context (host.decode_base64 (trim pubkey_b64))
        (text "Failed decoding base64 attestation pubkey")
  sig_raw ←
      context (host.decode_base64 (trim sig_b64))
        (text "Failed decoding base64 attestation signature")
  ensure (nat_beq (length pubkey_raw) 32) (text "attestation pubkey must decode to 32 bytes")
  ensure (nat_beq (length sig_raw) 64) (text "attestation signature must decode to 64 bytes")
  ensure (host.key_is_valid pubkey_raw) (text "invalid ed25519 pubkey")
  ensure (host.verify pubkey_raw token sig_raw) (text "ed25519 signature verification failed")
  expected_norm ← normalize_fingerprint expected
  ensure (text_beq (host.hex_encode (host.sha256 pubkey_raw)) expected_norm)
      (text "attestation key fingerprint mismatch")
  ok (record {
    key_fingerprint = host.hex_encode (host.sha256 pubkey_raw);
    token_sha256 = host.hex_encode (host.sha256 token);
  })
