-- ===== src/Bridge/Once.antt =====
-- Two runs of the ring policy of skv-analyzer/src/main.rs, one behind the other, over the bridge of
-- skv-analyzer/src/c/attestation_bridge.c and one replay state.
use sentinel_kv.Prelude.{some-injective, ◌≡◌, sym, ap, ◌∙◌, subst, true, Option, none, some, Text}
use sentinel_kv.Prelude.Int.{ℤ, pos, ltb_ℤ}
use sentinel_kv.Policy.{RingMode, token_ring, AnalysisResult, pass}
use sentinel_kv.Host.{Host}
use sentinel_kv.Ring.{Attestation, apply_ring_policy}
use sentinel_kv.Ring.Verdicts.{strict-pass-IsTrusted}
use sentinel_kv.Bridge.Parse.{read_token}
use sentinel_kv.Bridge.{System, last_counter, validate_attestation_token}
use sentinel_kv.Bridge.Accepted.{IsAccepted, validate_attestation_token-IsAccepted}
use sentinel_kv.Bridge.Printed.{last_counter-counter_line}
use sentinel_kv.Bridge.Replay.{IsI64OrNone, read_token-IsI64}
use sentinel_kv.Bridge.Chain.{c_bytes, linked, pair_of}

-- the replay state that the bridge leaves behind a run with these options
unfoldable pub left_by : System → Text → ℤ → Attestation → Text
unfolding validate_attestation_token c_bytes
left_by sys replay ring_number args = elim args.token [
  | none ↦ replay
  | some path ↦ elim args.nonce [
    | none ↦ replay
    | some nonce ↦ elim args.replay_state [
      | none ↦ replay
      | some replay_path ↦
          (validate_attestation_token sys (c_bytes path) ring_number (pos args.max_age_sec)
            (some (c_bytes nonce)) (c_bytes replay_path) replay).1
    ]
  ]
]

module _ (host : Host) (level : RingMode) (r : AnalysisResult) (args : Attestation)
    (ring_number : ℤ) (sys : System) (replay : Text) where
  -- A run that passes: the bridge accepted its token, and recorded it in what is left.
  strict-pass-left :
      (path : Text)
      → host.validate_token ≡ linked sys replay
      → token_ring level ≡ some ring_number
      → args.token ≡ some path
      → (apply_ring_policy host r level args).result ≡ pass
      → (nonce : Text) × IsAccepted sys
          (c_bytes path)
          ring_number
          (pos args.max_age_sec)
          (some (c_bytes nonce))
          replay
          (left_by sys replay ring_number args)
  unfolding left_by linked
  strict-pass-left path bridge ring given h =
      let (_, t) = strict-pass-IsTrusted host level r args ring_number ring h in
      let f = t.fresh in
      let same : t.path ≡ path = some-injective (sym t.signed.token_given ∙ given) in
      let done =
        sym (ap (λ v. v t.path ring_number args.max_age_sec f.nonce f.replay) bridge)
        ∙ f.accepted in
      (
        f.nonce,
        rw (given, f.nonce_given, f.replay_given)
            (validate_attestation_token-IsAccepted sys (c_bytes path) ring_number
              (pos args.max_age_sec) (some (c_bytes f.nonce)) (c_bytes f.replay) replay _
              (pair_of _ 1 (rw same at done))),
      )

-- the counter of an accepted token, as it is read from the file
accepted_counter :
    (sys : System) (path : Text) (ring age : ℤ) (expected : Option Text)
    (replay after content : Text)
    → (a : IsAccepted sys path ring age expected replay after) → sys.fopen path ≡ some content
    → (read_token content).counter ≡ some a.counter
accepted_counter sys path ring age expected replay after content a opened =
    subst (λ s. (read_token s).counter ≡ some a.counter) (some-injective (sym a.opened ∙ opened))
      a.good.says.counted

-- Two runs of the ring policy one behind the other in strict rings, with the C bridge linked in and
-- the second on the replay state that the first left, and with a `pread` of that state that succeeds:
-- if both pass, the counter of the second token is above that of the first, so that no token passes
-- twice.
pub strict_passes-increase :
    (host host' : Host) (level level' : RingMode) (r r' : AnalysisResult) (args args' : Attestation)
    (ring_number ring_number' : ℤ) (sys sys' : System) (replay path path' content content' : Text)
    → host.validate_token ≡ linked sys replay
    → token_ring level ≡ some ring_number
    → args.token ≡ some path
    → sys.fopen (c_bytes path) ≡ some content
    → (apply_ring_policy host r level args).result ≡ pass
    → host'.validate_token ≡ linked sys' (left_by sys replay ring_number args)
    → token_ring level' ≡ some ring_number'
    → args'.token ≡ some path'
    → sys'.fopen (c_bytes path') ≡ some content'
    → sys'.pread ≡ true
    → (apply_ring_policy host' r' level' args').result ≡ pass
    → (c c' : ℤ) × ((read_token content).counter ≡ some c)
      × ((read_token content').counter ≡ some c')
      × (ltb_ℤ c c' ≡ true)
strict_passes-increase host host' level level' r r' args args' ring_number ring_number' sys sys'
      replay path path' content content' bridge ring given opened passes bridge' ring' given'
      opened' reads passes' =
    let left = left_by sys replay ring_number args in
    let (nonce, a) =
      strict-pass-left host level r args ring_number sys replay path bridge ring given passes in
    let (nonce', a') =
      strict-pass-left host' level' r' args' ring_number' sys' left path' bridge' ring' given'
        passes' in
    let counted = accepted_counter sys (c_bytes path) _ _ _ replay left content a opened in
    let counted' = accepted_counter sys' (c_bytes path') _ _ _ left _ content' a' opened' in
    let in_range = subst IsI64OrNone counted (read_token-IsI64 content) in
    let recorded : last_counter true left ≡ a.counter =
      ap (last_counter true) a.recorded ∙ last_counter-counter_line a.counter in_range in
    (
      a.counter,
      a'.counter,
      counted,
      counted',
      subst (λ low. ltb_ℤ low a'.counter ≡ true) recorded
          (subst (λ b. ltb_ℤ (last_counter b left) a'.counter ≡ true) reads a'.advanced),
    )
