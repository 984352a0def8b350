-- ===== src/Ring/Verdicts.antt =====
-- The verdicts of `apply_ring_policy` (skv-analyzer/src/main.rs).
use sentinel_kv.Prelude.{◌≡◌, ◌≢◌, refl, true, none, some, Text, arith}
use sentinel_kv.Prelude.Int.{ℤ, negsuc}
use sentinel_kv.Policy.{
  RingMode, ring0, ring_m1, ring_m2, token_ring, AnalysisResult, pass, unknown, is_fail,
}
use sentinel_kv.Host.{Host}
use sentinel_kv.Signature.{SignatureMeta}
use sentinel_kv.Ring.{
  Attestation, Check, go, give_up, ◌>>◌, check_signature, check_root, check_token, promote, failed,
  decide_signed, decide, apply_for, apply_ring_policy,
}
use sentinel_kv.Ring.Trust.{
  IsSigned, IsRootSigned, IsFresh, check_signature-IsSigned, check_root-IsRootSigned,
  check_token-IsFresh, >>=-eq-go,
}

-- `ring0` hands the verdict through, and no fingerprint with it.
pub ring0-keeps :
    (host : Host) (r : AnalysisResult) (args : Attestation)
    → apply_ring_policy host r ring0 args
      ≡ record { result = r; key_fingerprint = none; token_sha256 = none }
unfolding apply_ring_policy promote
ring0-keeps host r args = refl

promote-pass : (level : RingMode) (r : AnalysisResult) → promote level r ≡ pass → r ≡ pass
unfolding promote
promote-pass ring0 r h = h
promote-pass ring_m1 r h = ground arith
promote-pass ring_m2 r h = ground arith

-- the verdicts behind the checks of a ring
module _ (host : Host) (level : RingMode) (r : AnalysisResult) (ring_number : ℤ)
    (args : Attestation) where
  decide_signed-pass :
      (meta : SignatureMeta) (c : Check (Unit {0}))
      → (decide_signed level r meta c).result ≡ pass
      → (r ≡ pass) × (c ≡ go tt)
  unfolding decide_signed failed
  decide_signed-pass meta (go tt) h = (promote-pass level r h, refl)
  decide_signed-pass meta (give_up e) h = cc

  decide-pass :
      (c : Check (Text × SignatureMeta))
      → (decide host level r ring_number args c).result ≡ pass
      → (r ≡ pass)
        × (path : Text) × (meta : SignatureMeta) × (c ≡ go (path, meta))
        × ((check_root host level path args >> check_token host level ring_number path args)
            ≡ go tt)
  unfolding decide
  decide-pass (go (path, meta)) h =
      let (p, done) =
        decide_signed-pass meta
          (check_root host level path args >> check_token host level ring_number path args) h in
      (p, path, meta, refl, done)
  decide-pass (give_up e) h = unfold failed in cc

-- What stands behind a pass in a strict ring, for the token at `path`.
pub record IsTrusted (host : Host) (level : RingMode) (ring_number : ℤ) (args : Attestation)
    : Type 0 where
  pub path : Text
  pub meta : SignatureMeta
  pub signed : IsSigned host args path meta
  pub root_signed : level ≡ ring_m2 → IsRootSigned host args path
  pub fresh : IsFresh host args path ring_number

root-IsRootSigned :
    (host : Host) (level : RingMode) (args : Attestation) (path : Text)
    → check_root host level path args ≡ go tt
    → level ≡ ring_m2
    → IsRootSigned host args path
root-IsRootSigned host ring0 args path h e = absurd (ground arith)
root-IsRootSigned host ring_m1 args path h e = absurd (ground arith)
root-IsRootSigned host ring_m2 args path h e = check_root-IsRootSigned host args path h

trusted :
    (host : Host) (level : RingMode) (r : AnalysisResult) (ring_number : ℤ) (args : Attestation)
    → (decide host level r ring_number args (check_signature host level args)).result ≡ pass
    → (r ≡ pass) × IsTrusted host level ring_number args
trusted host level r ring_number args h =
    let (p, path, meta, s, rest) =
      decide-pass host level r ring_number args (check_signature host level args) h in
    let (_, root, token) = >>=-eq-go (check_root host level path args) _ rest in
    (
      p,
      record {
        path = path;
        meta = meta;
        signed = check_signature-IsSigned host level args path meta s;
        root_signed = root-IsRootSigned host level args path root;
        fresh = check_token-IsFresh host level ring_number path args token;
      },
    )

-- A strict ring passes only if the analysis passed, the token is signed by the pinned key (in ring
-- -2 by the root key too), a nonce and a replay state were given, the maximal age is positive and
-- fits an i64, and the attestation bridge accepted the token for the number of that ring.
pub strict-pass-IsTrusted :
    (host : Host) (level : RingMode) (r : AnalysisResult) (args : Attestation) (ring_number : ℤ)
    → token_ring level ≡ some ring_number
    → (apply_ring_policy host r level args).result ≡ pass
    → (r ≡ pass) × IsTrusted host level ring_number args
unfolding apply_ring_policy
strict-pass-IsTrusted host level r args ring_number e h =
    trusted host level r ring_number args (unfold apply_for in rw e at h)

decide_signed-fail :
    (level : RingMode) (r : AnalysisResult) (meta : SignatureMeta) (c : Check (Unit {0}))
    → is_fail r ≡ true
    → is_fail (decide_signed level r meta c).result ≡ true
unfolding decide_signed failed promote
decide_signed-fail level r meta c h = ground arith

decide-fail :
    (host : Host) (level : RingMode) (r : AnalysisResult) (ring_number : ℤ) (args : Attestation)
    (c : Check (Text × SignatureMeta))
    → is_fail r ≡ true
    → is_fail (decide host level r ring_number args c).result ≡ true
unfolding decide
decide-fail host level r ring_number args (go (path, meta)) h = decide_signed-fail level r meta _ h
decide-fail host level r ring_number args (give_up e) h = unfold failed in refl

-- No ring improves a failure of the analysis, whatever the attestation.
pub apply_ring_policy-fail :
    (host : Host) (r : AnalysisResult) (level : RingMode) (args : Attestation)
    → is_fail r ≡ true
    → is_fail (apply_ring_policy host r level args).result ≡ true
unfolding apply_ring_policy
apply_ring_policy-fail host r ring0 args h = unfold promote in h
apply_ring_policy-fail host r ring_m1 args h =
    decide-fail host ring_m1 r (negsuc 0) args (check_signature host ring_m1 args) h
apply_ring_policy-fail host r ring_m2 args h =
    decide-fail host ring_m2 r (negsuc 1) args (check_signature host ring_m2 args) h

-- the verdicts that a strict ring may give
abbrev pub IsDecided : AnalysisResult → Type 0
IsDecided (unknown m) = ⊥
IsDecided _ = Unit

decide_signed-IsDecided :
    (level : RingMode) (r : AnalysisResult) (meta : SignatureMeta) (c : Check (Unit {0}))
    → level ≢ ring0
    → IsDecided (decide_signed level r meta c).result
unfolding decide_signed failed promote
decide_signed-IsDecided ring0 r meta c h = absurd (h refl)
decide_signed-IsDecided ring_m1 r meta c h = ground arith
decide_signed-IsDecided ring_m2 r meta c h = ground arith

decide-IsDecided :
    (host : Host) (level : RingMode) (r : AnalysisResult) (ring_number : ℤ) (args : Attestation)
    (c : Check (Text × SignatureMeta))
    → level ≢ ring0
    → IsDecided (decide host level r ring_number args c).result
unfolding decide
decide-IsDecided host level r ring_number args (go (path, meta)) h =
    decide_signed-IsDecided level r meta _ h
decide-IsDecided host level r ring_number args (give_up e) h = unfold failed in tt

-- A strict ring leaves nothing open: its verdict is `Pass` or a failure, never `Unknown`.
pub strict-IsDecided :
    (host : Host) (level : RingMode) (r : AnalysisResult) (args : Attestation)
    → level ≢ ring0
    → IsDecided (apply_ring_policy host r level args).result
unfolding apply_ring_policy
strict-IsDecided host ring0 r args h = absurd (h refl)
strict-IsDecided host ring_m1 r args h =
    decide-IsDecided host ring_m1 r (negsuc 0) args (check_signature host ring_m1 args) h
strict-IsDecided host ring_m2 r args h =
    decide-IsDecided host ring_m2 r (negsuc 1) args (check_signature host ring_m2 args) h
