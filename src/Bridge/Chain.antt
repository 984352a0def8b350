-- ===== src/Bridge/Chain.antt =====
-- The ring policy of skv-analyzer/src/main.rs over the bridge of
-- skv-analyzer/src/c/attestation_bridge.c.
use sentinel_kv.Prelude.{
  ℕ, ◌+◌, ◌/◌, ◌%◌, ◌≡◌, sym, ap, ◌∙◌, some, Text, List, [], ◌∷◌, ◌++◌, ltb, if◌then◌else◌,
}
use sentinel_kv.Prelude.Int.{ℤ, pos}
use sentinel_kv.Policy.{RingMode, token_ring, AnalysisResult, pass}
use sentinel_kv.Host.{Host}
use sentinel_kv.Ring.{Attestation, apply_ring_policy}
use sentinel_kv.Ring.Verdicts.{strict-pass-IsTrusted}
use sentinel_kv.Bridge.{System, validate_attestation_token}
use sentinel_kv.Bridge.Accepted.{IsAccepted, validate_attestation_token-IsAccepted}

-- the bytes of one character in UTF-8
unfoldable pub encode_utf8 : ℕ → List ℕ
encode_utf8 c =
    if ltb c 0x80
    then c ∷ []
    else if ltb c 0x800
    then (0xC0 + c / 0x40) ∷ (0x80 + c % 0x40) ∷ []
    else if ltb c 0x10000
    then (0xE0 + c / 0x1000) ∷ (0x80 + c / 0x40 % 0x40) ∷ (0x80 + c % 0x40) ∷ []
    else (0xF0 + c / 0x40000)
      ∷ (0x80 + c / 0x1000 % 0x40)
      ∷ (0x80 + c / 0x40 % 0x40)
      ∷ (0x80 + c % 0x40)
      ∷ []

-- `CString::new` of a text that holds no NUL: the bytes of its characters
unfoldable pub c_bytes : Text → List ℕ
unfolding encode_utf8
c_bytes [] = []
c_bytes (c ∷ s) = encode_utf8 c ++ c_bytes s

-- the bridge as the program calls it: the paths and the nonce are handed over as bytes
unfoldable pub linked : System → Text → Text → ℤ → ℕ → Text → Text → ℕ
unfolding c_bytes validate_attestation_token
linked sys replay path required_ring max_age nonce replay_path =
    (validate_attestation_token sys (c_bytes path) required_ring (pos max_age)
      (some (c_bytes nonce)) (c_bytes replay_path) replay).0

pub pair_of : {A B : Type 0} (p : A × B) (a : A) → p.0 ≡ a → p ≡ (a, p.1)
pair_of p a h = λ i. (h i, p.1)

-- If a strict ring passes, with the C bridge linked in, then the token that was given is one that the
-- bridge accepts for the number of that ring, the maximal age and the bytes in UTF-8 of the nonce of
-- the command line: secure, attested, in time, with that nonce, and with a counter above the one that
-- the bridge read from the replay state, which is -1 where it could read none (also where `pread`
-- failed).
pub strict-pass-IsAccepted :
    (host : Host) (level : RingMode) (r : AnalysisResult) (args : Attestation) (ring_number : ℤ)
    (sys : System) (replay : Text)
    → host.validate_token ≡ linked sys replay
    → token_ring level ≡ some ring_number
    → (apply_ring_policy host r level args).result ≡ pass
    → (path : Text) × (nonce : Text) × (after : Text) × (args.token ≡ some path)
      × (args.nonce ≡ some nonce)
      × IsAccepted sys
          (c_bytes path)
          ring_number
          (pos args.max_age_sec)
          (some (c_bytes nonce))
          replay
          after
unfolding linked
strict-pass-IsAccepted host level r args ring_number sys replay bridge ring h =
    let (_, t) = strict-pass-IsTrusted host level r args ring_number ring h in
    let f = t.fresh in
    let done =
      sym (ap (λ v. v t.path ring_number args.max_age_sec f.nonce f.replay) bridge) ∙ f.accepted in
    (
      t.path,
      f.nonce,
      (validate_attestation_token sys (c_bytes t.path) ring_number (pos args.max_age_sec)
          (some (c_bytes f.nonce)) (c_bytes f.replay) replay).1,
      t.signed.token_given,
      f.nonce_given,
      validate_attestation_token-IsAccepted sys (c_bytes t.path) ring_number (pos args.max_age_sec)
          (some (c_bytes f.nonce)) (c_bytes f.replay) replay _ (pair_of _ 1 done),
    )
