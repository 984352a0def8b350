-- ===== src/Ring.antt =====
-- `apply_ring_policy` of skv-analyzer/src/main.rs: what rings -1 and -2 demand, in the order in
-- which it is demanded, and the promotion of `Unknown`.
pub mod Trust
pub mod Verdicts
use sentinel_kv.Prelude.{
  ℕ, ◌^◌, Bool, not, Option, none, some, ◌++◌, Text, text, nat_beq, ltb, contains, nat_eq,
  if◌then◌else◌,
}
use sentinel_kv.Prelude.Int.{ℤ}
use sentinel_kv.Policy.{
  RingMode, ring0, ring_m1, ring_m2, ring_label, token_ring, AnalysisResult, fail, unknown,
}
use sentinel_kv.Host.{Host, Result, ok, err}
use sentinel_kv.Signature.{SignatureMeta, verify_attestation_signature}

-- the attestation arguments of the command line
pub record Attestation : Type 0 where
  pub token : Option Text
  pub max_age_sec : ℕ
  pub nonce : Option Text
  pub replay_state : Option Text
  pub pubkey : Option Text
  pub signature : Option Text
  pub key_fingerprint : Option Text
  pub ring2_root_pubkey : Option Text
  pub ring2_root_signature : Option Text
  pub ring2_root_key_fingerprint : Option Text

-- `(result, key_fingerprint, token_sha256)`
pub record Decision : Type 0 where
  pub result : AnalysisResult
  pub key_fingerprint : Option Text
  pub token_sha256 : Option Text

-- how far the checks came: on, or a return with a failure
pub data Check (A : Type 0) : Type 0 where
  go : A → Check A
  give_up : Text → Check A

-- A check that gives up ends the function; the checks behind it are not made.
infixl 5 ◌>>=◌ ◌>>◌
abbrev pub ◌>>=◌ : {S T : Type 0} → Check S → (S → Check T) → Check T
give_up message >>= rest = give_up message
go value >>= rest = rest value

abbrev pub ◌>>◌ : {T : Type 0} → Check (Unit {0}) → Check T → Check T
check >> rest = check >>= λ _. rest

-- `let Some(a) = o else { return (Fail(message), …) }`
unfoldable pub demand : {A : Type 0} → Option A → Text → Check A
demand none message = give_up message
demand (some a) message = go a

unfoldable pub insist : Bool → Text → Check (Unit {0})
insist b message = if b then go tt else give_up message

-- a signature check, its error behind `prefix`
unfoldable pub signed : Result SignatureMeta → Text → Check SignatureMeta
signed (ok meta) prefix = go meta
signed (err e) prefix = give_up (prefix ++ e)

-- `CString::new` refuses a text with a NUL in it
unfoldable pub has_nul : Text → Bool
has_nul s = contains 0 s

-- the arguments up to the first signature check: the token's path, and both fingerprints
unfoldable pub check_signature : Host → RingMode → Attestation → Check (Text × SignatureMeta)
unfolding demand insist has_nul signed
check_signature host level args = do
  token_path ← demand args.token (
      ring_label level
      ++ text " requires C-validated attestation token (--attestation-token <path>)")
  insist (not (has_nul token_path)) (text "Attestation token path contains NUL byte")
  pubkey_path ←
      demand args.pubkey
        (ring_label level ++ text " requires --attestation-pubkey for signature verification")
  sig_path ←
      demand args.signature
        (ring_label level ++ text " requires --attestation-signature for signature verification")
  expected_fp ←
      demand args.key_fingerprint
        (ring_label level ++ text " requires --attestation-key-fingerprint for key pinning")
  meta ←
      signed (verify_attestation_signature host token_path pubkey_path sig_path expected_fp)
        (ring_label level ++ text " attestation signature invalid: ")
  go (token_path, meta)

-- `if matches!(level, RingMode::RingM2) { … }`
unfoldable pub check_root : Host → RingMode → Text → Attestation → Check (Unit {0})
unfolding demand signed
check_root host ring0 token_path args = go tt
check_root host ring_m1 token_path args = go tt
check_root host ring_m2 token_path args = do
  root_pub ←
      demand args.ring2_root_pubkey
        (text "Ring -2 requires --ring2-root-pubkey for independent root attestation")
  root_sig ←
      demand args.ring2_root_signature
        (text "Ring -2 requires --ring2-root-signature for independent root attestation")
  root_fp ←
      demand args.ring2_root_key_fingerprint
        (text "Ring -2 requires --ring2-root-key-fingerprint for root key pinning")
  meta ←
      signed (verify_attestation_signature host token_path root_pub root_sig root_fp)
        (text "Ring -2 root signature invalid: ")
  go tt

-- the age, the nonce, the replay state and the call of the bridge
unfoldable pub check_token : Host → RingMode → ℤ → Text → Attestation → Check (Unit {0})
unfolding demand insist has_nul
check_token host level required_ring token_path args = do
  insist (not (nat_beq args.max_age_sec 0)) (text "attestation max age must be > 0")
  insist (ltb args.max_age_sec (2 ^ 63)) (text "attestation max age is too large")
  nonce ←
      demand args.nonce
        (ring_label level ++ text " requires --attestation-nonce for anti-replay binding")
  insist (not (has_nul nonce)) (text "attestation nonce contains NUL byte")
  replay_path ←
      demand args.replay_state
        (ring_label level ++ text " requires --attestation-replay-state for replay protection")
  insist (not (has_nul replay_path)) (text "attestation replay state path contains NUL byte")
  insist
      (nat_beq (host.validate_token token_path required_ring args.max_age_sec nonce replay_path) 1)
      (ring_label level ++ text " attestation token validation failed")

-- the last match: `Unknown` is a failure in the strict rings
unfoldable pub promote : RingMode → AnalysisResult → AnalysisResult
promote ring0 r = r
promote level (unknown reason) =
    fail (ring_label level ++ (text " strict policy rejected unresolved proof: " ++ reason))
promote level r = r

unfoldable pub failed : Text → Option Text → Option Text → Decision
failed message fp sha = record { result = fail message; key_fingerprint = fp; token_sha256 = sha }

-- behind the first signature check both fingerprints are known
unfoldable pub decide_signed :
    RingMode → AnalysisResult → SignatureMeta → Check (Unit {0}) → Decision
unfolding promote failed
decide_signed level result meta (give_up message) =
    failed message (some meta.key_fingerprint) (some meta.token_sha256)
decide_signed level result meta (go _) = record {
  result = promote level result;
  key_fingerprint = some meta.key_fingerprint;
  token_sha256 = some meta.token_sha256;
}

unfoldable pub decide :
    Host → RingMode → AnalysisResult → ℤ → Attestation → Check (Text × SignatureMeta) → Decision
unfolding decide_signed
decide host level result required_ring args (give_up message) = failed message none none
decide host level result required_ring args (go (token_path, meta)) =
    decide_signed level result meta (
      check_root host level token_path args >> check_token host level required_ring token_path args)

unfoldable pub apply_for : Host → RingMode → AnalysisResult → Attestation → Option ℤ → Decision
unfolding decide
apply_for host level result args none = record {
  result = promote level result;
  key_fingerprint = none;
  token_sha256 = none;
}
apply_for host level result args (some required_ring) =
    decide host level result required_ring args (check_signature host level args)

unfoldable pub apply_ring_policy : Host → AnalysisResult → RingMode → Attestation → Decision
unfolding apply_for token_ring
apply_ring_policy host result level args = apply_for host level result args (token_ring level)
