-- ===== src/Signature/Checked.antt =====
-- What a successful signature check rests on.
use sentinel_kv.Prelude.{
  ℕ, ◌≡◌, ap, sym, true, some, Text, List, trim, nat_beq, nat_beq_iff, text_beq, text_beq_iff,
  length,
}
use sentinel_kv.Host.{Host, ok, >>=-eq-ok, ensure-eq-ok, context-eq-ok, ok-injective}
use sentinel_kv.Files.{ensure_secure_owned_file}
use sentinel_kv.Signature.{SignatureMeta, normalize_fingerprint, verify_attestation_signature}

-- The key and signature files are secure, hold base64 of 32 and 64 bytes, the signature over the
-- bytes of the token verifies, and the SHA-256 of the key is the expected fingerprint.
pub record IsVerified (host : Host) (token_path pubkey_path signature_path expected : Text)
    (meta : SignatureMeta) : Type 0 where
  pub token : List ℕ
  pub key_text : Text
  pub sig_text : Text
  pub key : List ℕ
  pub sig : List ℕ
  pub key_secure : (l : Text) × (ensure_secure_owned_file host pubkey_path l ≡ ok tt)
  pub sig_secure : (l : Text) × (ensure_secure_owned_file host signature_path l ≡ ok tt)
  pub token_read : host.read token_path ≡ some token
  pub key_read : host.read_to_string pubkey_path ≡ some key_text
  pub sig_read : host.read_to_string signature_path ≡ some sig_text
  pub key_decoded : host.decode_base64 (trim key_text) ≡ some key
  pub sig_decoded : host.decode_base64 (trim sig_text) ≡ some sig
  pub key_length : length key ≡ 32
  pub sig_length : length sig ≡ 64
  pub key_valid : host.key_is_valid key ≡ true
  pub verifies : host.verify key token sig ≡ true
  pub pinned : normalize_fingerprint expected ≡ ok (host.hex_encode (host.sha256 key))
  pub key_meta : meta.key_fingerprint ≡ host.hex_encode (host.sha256 key)
  pub token_meta : meta.token_sha256 ≡ host.hex_encode (host.sha256 token)

-- If `verify_attestation_signature` succeeds, the key and the signature come from secure files, the
-- Ed25519 signature verifies over the bytes of the token, the pinned fingerprint is that of the key,
-- and what is returned are the SHA-256 sums of that key and that token.
pub verify_attestation_signature_sound :
    (host : Host) (token_path pubkey_path signature_path expected : Text) (meta : SignatureMeta)
    → verify_attestation_signature host token_path pubkey_path signature_path expected ≡ ok meta
    → IsVerified host token_path pubkey_path signature_path expected meta
unfolding verify_attestation_signature
verify_attestation_signature_sound host tp kp sp expected meta h =
    let (_, ks, h1) = >>=-eq-ok (ensure_secure_owned_file host kp _) _ h in
    let (_, ss, h2) = >>=-eq-ok (ensure_secure_owned_file host sp _) _ h1 in
    let (token, tr, h3) = context-eq-ok (host.read tp) _ _ h2 in
    let (key_text, kr, h4) = context-eq-ok (host.read_to_string kp) _ _ h3 in
    let (sig_text, sr, h5) = context-eq-ok (host.read_to_string sp) _ _ h4 in
    let (key, kd, h6) = context-eq-ok (host.decode_base64 (trim key_text)) _ _ h5 in
    let (sig, sd, h7) = context-eq-ok (host.decode_base64 (trim sig_text)) _ _ h6 in
    let (kl, h8) = ensure-eq-ok (nat_beq (length key) 32) _ _ h7 in
    let (sl, h9) = ensure-eq-ok (nat_beq (length sig) 64) _ _ h8 in
    let (valid, h10) = ensure-eq-ok (host.key_is_valid key) _ _ h9 in
    let (verified, h11) = ensure-eq-ok (host.verify key token sig) _ _ h10 in
    let (norm, n, h12) = >>=-eq-ok (normalize_fingerprint expected) _ h11 in
    let (pin, h13) = ensure-eq-ok (text_beq (host.hex_encode (host.sha256 key)) norm) _ _ h12 in
    record {
      token = token;
      key_text = key_text;
      sig_text = sig_text;
      key = key;
      sig = sig;
      key_secure = (_, ks);
      sig_secure = (_, ss);
      token_read = tr;
      key_read = kr;
      sig_read = sr;
      key_decoded = kd;
      sig_decoded = sd;
      key_length = (nat_beq_iff _ _).0 kl;
      sig_length = (nat_beq_iff _ _).0 sl;
      key_valid = valid;
      verifies = verified;
      pinned = rw ((text_beq_iff (host.hex_encode (host.sha256 key)) norm).0 pin) n;
      key_meta = ap (λ m. m.key_fingerprint) (sym (ok-injective h13));
      token_meta = ap (λ m. m.token_sha256) (sym (ok-injective h13));
    }
