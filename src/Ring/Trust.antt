-- ===== src/Ring/Trust.antt =====
-- What each group of checks of `apply_ring_policy` establishes when it lets the run go on.
use sentinel_kv.Prelude.{
  ℕ, ◌≡◌, ◌≢◌, ◌<◌, ◌^◌, refl, Bool, true, false, not, Option, none, some, Text, nat_beq,
  nat_beq_iff, ltb, arith, subst,
}
use sentinel_kv.Prelude.Int.{ℤ}
use sentinel_kv.Policy.{RingMode, ring_m2}
use sentinel_kv.Host.{Host, Result, ok, err}
use sentinel_kv.Signature.{SignatureMeta, verify_attestation_signature}
use sentinel_kv.Ring.{
  Attestation, Check, go, give_up, ◌>>=◌, ◌>>◌, demand, insist, signed, has_nul, check_signature,
  check_root, check_token,
}

-- The checks come to their end only if each of them let the run go on.
pub >>=-eq-go :
    {S T : Type 0} (check : Check S) (rest : S → Check T) {out : T}
    → (check >>= rest) ≡ go out
    → (value : S) × (check ≡ go value) × (rest value ≡ go out)
>>=-eq-go (give_up message) rest done = cc
>>=-eq-go (go value) rest done = (value, refl, done)

go-injective : {A : Type 0} {a b : A} → go a ≡ go b → a ≡ b
go-injective h = cc

demand-eq-go :
    {A B : Type 0} (o : Option A) (m : Text) (f : A → Check B) {b : B}
    → (demand o m >>= f) ≡ go b
    → (a : A) × (o ≡ some a) × (f a ≡ go b)
unfolding demand
demand-eq-go (some a) m f h = (a, refl, h)
demand-eq-go none m f h = cc

insist-eq-go :
    {B : Type 0} (t : Bool) (m : Text) (k : Check B) {b : B}
    → (insist t m >> k) ≡ go b
    → (t ≡ true) × (k ≡ go b)
unfolding insist
insist-eq-go true m k h = (refl, h)
insist-eq-go false m k h = cc

insist_last : (t : Bool) (m : Text) {u : Unit {0}} → insist t m ≡ go u → t ≡ true
unfolding insist
insist_last true m h = refl
insist_last false m h = cc

signed-eq-go :
    {B : Type 0} (r : Result SignatureMeta) (m : Text) (f : SignatureMeta → Check B) {b : B}
    → (signed r m >>= f) ≡ go b
    → (meta : SignatureMeta) × (r ≡ ok meta) × (f meta ≡ go b)
unfolding signed
signed-eq-go (ok meta) m f h = (meta, refl, h)
signed-eq-go (err e) m f h = cc

-- the token at `path` is signed by the key that is pinned on the command line
pub record IsSigned (host : Host) (args : Attestation) (path : Text) (meta : SignatureMeta)
    : Type 0 where
  pub pubkey : Text
  pub signature : Text
  pub fingerprint : Text
  pub token_given : args.token ≡ some path
  pub pubkey_given : args.pubkey ≡ some pubkey
  pub signature_given : args.signature ≡ some signature
  pub fingerprint_given : args.key_fingerprint ≡ some fingerprint
  pub verified : verify_attestation_signature host path pubkey signature fingerprint ≡ ok meta

-- the same token is signed by the root key too
pub record IsRootSigned (host : Host) (args : Attestation) (path : Text) : Type 0 where
  pub pubkey : Text
  pub signature : Text
  pub fingerprint : Text
  pub meta : SignatureMeta
  pub pubkey_given : args.ring2_root_pubkey ≡ some pubkey
  pub signature_given : args.ring2_root_signature ≡ some signature
  pub fingerprint_given : args.ring2_root_key_fingerprint ≡ some fingerprint
  pub verified : verify_attestation_signature host path pubkey signature fingerprint ≡ ok meta

-- a nonce and a replay state were given, the maximal age is positive and an i64, and the bridge
-- accepted the token
pub record IsFresh (host : Host) (args : Attestation) (path : Text) (required_ring : ℤ)
    : Type 0 where
  pub nonce : Text
  pub replay : Text
  pub nonce_given : args.nonce ≡ some nonce
  pub replay_given : args.replay_state ≡ some replay
  pub age_positive : args.max_age_sec ≢ 0
  pub age_fits : args.max_age_sec < 2 ^ 63
  pub accepted : host.validate_token path required_ring args.max_age_sec nonce replay ≡ 1

pub check_signature-IsSigned :
    (host : Host) (level : RingMode) (args : Attestation) (path : Text) (meta : SignatureMeta)
    → check_signature host level args ≡ go (path, meta)
    → IsSigned host args path meta
unfolding check_signature
check_signature-IsSigned host level args path meta h =
    let (p, pt, h1) = demand-eq-go args.token _ _ h in
    let (_, h2) = insist-eq-go (not (has_nul p)) _ _ h1 in
    let (k, kt, h3) = demand-eq-go args.pubkey _ _ h2 in
    let (s, st, h4) = demand-eq-go args.signature _ _ h3 in
    let (f, ft, h5) = demand-eq-go args.key_fingerprint _ _ h4 in
    let (m, v, h6) = signed-eq-go (verify_attestation_signature host p k s f) _ _ h5 in
    subst (λ t. IsSigned host args t.0 t.1) (go-injective h6)
      (record {
        pubkey = k;
        signature = s;
        fingerprint = f;
        token_given = pt;
        pubkey_given = kt;
        signature_given = st;
        fingerprint_given = ft;
        verified = v;
      })

pub check_root-IsRootSigned :
    (host : Host) (args : Attestation) (path : Text)
    → check_root host ring_m2 path args ≡ go tt
    → IsRootSigned host args path
unfolding check_root
check_root-IsRootSigned host args path h =
    let (k, kt, h1) = demand-eq-go args.ring2_root_pubkey _ _ h in
    let (s, st, h2) = demand-eq-go args.ring2_root_signature _ _ h1 in
    let (f, ft, h3) = demand-eq-go args.ring2_root_key_fingerprint _ _ h2 in
    let (m, v, _) = signed-eq-go (verify_attestation_signature host path k s f) _ _ h3 in
    record {
      pubkey = k;
      signature = s;
      fingerprint = f;
      meta = m;
      pubkey_given = kt;
      signature_given = st;
      fingerprint_given = ft;
      verified = v;
    }

not_zero : (n : ℕ) → not (nat_beq n 0) ≡ true → n ≢ 0
not_zero n h e = ground arith

below_of_test : (n m : ℕ) → ltb n m ≡ true → n < m
below_of_test n m h = ground arith

pub check_token-IsFresh :
    (host : Host) (level : RingMode) (r : ℤ) (path : Text) (args : Attestation)
    → check_token host level r path args ≡ go tt
    → IsFresh host args path r
unfolding check_token
check_token-IsFresh host level r path args h =
    let (pos_age, h1) = insist-eq-go (not (nat_beq args.max_age_sec 0)) _ _ h in
    let (fits, h2) = insist-eq-go (ltb args.max_age_sec (2 ^ 63)) _ _ h1 in
    let (n, nt, h3) = demand-eq-go args.nonce _ _ h2 in
    let (_, h4) = insist-eq-go (not (has_nul n)) _ _ h3 in
    let (p, pt, h5) = demand-eq-go args.replay_state _ _ h4 in
    let (_, h6) = insist-eq-go (not (has_nul p)) _ _ h5 in
    record {
      nonce = n;
      replay = p;
      nonce_given = nt;
      replay_given = pt;
      age_positive = not_zero _ pos_age;
      age_fits = below_of_test _ _ fits;
      accepted = (nat_beq_iff _ _).0 (insist_last _ _ h6);
    }
