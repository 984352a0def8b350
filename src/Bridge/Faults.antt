-- ===== src/Bridge/Faults.antt =====
-- What a failed write of the replay state does in skv-analyzer/src/c/attestation_bridge.c.
use sentinel_kv.Prelude.{
  some-injective, ℕ, ◌≡◌, refl, sym, ap, ◌∙◌, Bool, true, false, not, ◌||◌, Option, none, some, [],
  ◌∷◌, Text, length, length-append, nat_beq, leb, subst, >>=-eq-some, ◌>>=◌, if◌then◌else◌, arith,
}
use sentinel_kv.Prelude.Int.{ℤ, pos, negsuc}
use sentinel_kv.Doctor.{integer_text}
use sentinel_kv.Bridge.Parse.{read_token}
use sentinel_kv.Bridge.{
  System, require, is_secure, is_empty, read_token_file, check_fields, take, last_counter,
  check_replay, counter_line, write_counter, advance, validate_attestation_token, c_string,
}
use sentinel_kv.Bridge.Numbers.{strtoll, skip_space, sign}
use sentinel_kv.Bridge.Accepted.{require-eq-some, check_fields-IsGoodToken}

-- the same system, but nothing is written
abbrev pub full_disk : System → System
full_disk sys = record sys { written = 0 }

counter_line-not_empty : (c : ℤ) → nat_beq 0 (length (counter_line c)) ≡ false
unfolding counter_line
counter_line-not_empty c = ground (arith, length-append (integer_text c) (b'\n' ∷ []))

write_counter-forgets :
    (sys : System) (counter : ℤ) (replay after : Text)
    → write_counter sys counter replay ≡ (1, after)
    → write_counter (full_disk sys) counter replay ≡ (0, [])
unfolding write_counter take
write_counter-forgets sys counter replay after h =
    rw (counter_line-not_empty counter)
      (go sys.ftruncate (not sys.lseek || leb 128 (length (counter_line counter))) _ h)
  where
    go :
        (a b : Bool) (rest : ℕ × Text)
        → ◌≡◌ {A = ℕ × Text} (if not a then (0, replay) else if b then (0, []) else rest) (1, after)
        → ◌≡◌ {A = ℕ × Text} (if not a then (0, replay) else if b then (0, []) else (0, [])) (0, [])
    go false b rest e = absurd (ground (arith, ap (λ p. p.0) e))
    go true true rest e = refl
    go true false rest e = refl

advance-forgets :
    (sys : System) (replay_path replay after : Text) (o : Option ℤ)
    → advance sys replay_path replay o ≡ (1, after)
    → advance (full_disk sys) replay_path replay o ≡ (0, [])
unfolding advance
advance-forgets sys replay_path replay after none h = absurd (ground (arith, ap (λ p. p.0) h))
advance-forgets sys replay_path replay after (some counter) h =
    go (check_replay sys replay_path counter replay) h
  where
    go :
        (r : Option (Unit {0}))
        → ◌≡◌ {A = ℕ × Text}
            (elim r [ none ↦ (0, replay) | some _ ↦ write_counter sys counter replay ])
            (1, after)
        → ◌≡◌ {A = ℕ × Text}
            (elim r [ none ↦ (0, replay) | some _ ↦ write_counter (full_disk sys) counter replay ])
            (0, [])
    go none e = absurd (ground (arith, ap (λ p. p.0) e))
    go (some _) e = write_counter-forgets sys counter replay after e

last_counter_empty : (read : Bool) → last_counter read [] ≡ negsuc 0
unfolding last_counter take c_string strtoll skip_space sign
last_counter_empty true = refl
last_counter_empty false = refl

-- the guards of the replay state, but for the counter, do not look at its content
check_replay_empty :
    (sys : System) (replay_path replay : Text) (n : ℕ)
    → check_replay sys replay_path (pos n) replay ≡ some tt
    → check_replay sys replay_path (pos n) [] ≡ some tt
unfolding check_replay
check_replay_empty sys replay_path replay n h =
    let (named, h1) = require-eq-some (not (is_empty replay_path)) _ h in
    let (opened, h2) = require-eq-some (sys.open_state replay_path) _ h1 in
    let (locked, h3) = require-eq-some sys.lock _ h2 in
    let (st, found, h4) = >>=-eq-some sys.fstat _ h3 in
    let (secure, _) = require-eq-some (is_secure sys.geteuid st) _ h4 in
    unfold require in
    rw (named, opened, locked, found, secure, last_counter_empty sys.pread) (ground arith)

write_counter-again :
    (sys : System) (counter : ℤ) (replay after : Text)
    → write_counter sys counter replay ≡ (1, after)
    → write_counter sys counter [] ≡ (1, after)
unfolding write_counter
write_counter-again sys counter replay after h = go sys.ftruncate _ h
  where
    go :
        (a : Bool) (rest : ℕ × Text)
        → ◌≡◌ {A = ℕ × Text} (if not a then (0, replay) else rest) (1, after)
        → ◌≡◌ {A = ℕ × Text} (if not a then (0, []) else rest) (1, after)
    go false rest e = absurd (ground (arith, ap (λ p. p.0) e))
    go true rest e = e

advance-again :
    (sys : System) (replay_path replay after : Text) (n : ℕ)
    → advance sys replay_path replay (some (pos n)) ≡ (1, after)
    → advance sys replay_path [] (some (pos n)) ≡ (1, after)
unfolding advance
advance-again sys replay_path replay after n h =
    let (ready, done) = wrote (check_replay sys replay_path (pos n) replay) h in
    writes (check_replay sys replay_path (pos n) [])
      (check_replay_empty sys replay_path replay n ready)
      (write_counter-again sys (pos n) replay after done)
  where
    wrote :
        (r : Option (Unit {0}))
        → ◌≡◌ {A = ℕ × Text}
            (elim r [ none ↦ (0, replay) | some _ ↦ write_counter sys (pos n) replay ])
            (1, after)
        → (r ≡ some tt) × (write_counter sys (pos n) replay ≡ (1, after))
    wrote none e = absurd (ground (arith, ap (λ p. p.0) e))
    wrote (some _) e = (refl, e)

    writes :
        (r : Option (Unit {0}))
        → r ≡ some tt
        → write_counter sys (pos n) [] ≡ (1, after)
        → ◌≡◌ {A = ℕ × Text}
            (elim r [ none ↦ (0, []) | some _ ↦ write_counter sys (pos n) [] ])
            (1, after)
    writes none e w = cc
    writes (some _) e w = w

-- the counter that the checks let through is the one of the token
checked-again :
    (sys : System) (replay_path replay after : Text) (o : Option ℤ)
    → ((c : ℤ) → o ≡ some c → (n : ℕ) × (c ≡ pos n))
    → advance sys replay_path replay o ≡ (1, after)
    → advance sys replay_path [] o ≡ (1, after)
checked-again sys replay_path replay after none f h =
    unfold advance in absurd (ground (arith, ap (λ p. p.0) h))
checked-again sys replay_path replay after (some c) f h =
    let (n, e) = f c refl in
    subst (λ x. advance sys replay_path [] (some x) ≡ (1, after)) (sym e)
      (advance-again sys replay_path replay after n
        (subst (λ x. advance sys replay_path replay (some x) ≡ (1, after)) e h))

token_counter :
    (sys : System) (token_path : Text) (required_ring max_age_sec : ℤ)
    (expected_nonce : Option Text) (content : Text) (c d : ℤ)
    → sys.fopen token_path ≡ some content
    → (read_token content).counter ≡ some d
    → (do
      t ← read_token_file sys token_path
      check_fields sys required_ring max_age_sec expected_nonce t)
      ≡ some c
    → c ≡ d
unfolding read_token_file
token_counter sys token_path required_ring max_age_sec expected_nonce content c d opened counted h =
    let (t, e, fields) = >>=-eq-some (read_token_file sys token_path) _ h in
    let (_, e1) = require-eq-some (not (is_empty token_path)) _ e in
    let (st, _, e2) = >>=-eq-some (sys.lstat token_path) _ e1 in
    let (_, e3) = require-eq-some (is_secure sys.geteuid st) _ e2 in
    let (read, opened', e4) = >>=-eq-some (sys.fopen token_path) _ e3 in
    let good = check_fields-IsGoodToken sys required_ring max_age_sec expected_nonce t c fields in
    let same : read ≡ content = some-injective (sym opened' ∙ opened) in
    some-injective (
      sym good.says.counted
      ∙ ap (λ x. x.counter) (sym (some-injective e4))
      ∙ ap (λ x. (read_token x).counter) same
      ∙ counted)

-- If the bridge accepts a token with a counter that is not negative, then the same call on a disk
-- where the write of the replay state writes nothing refuses it and leaves an empty replay state;
-- and on that state the bridge accepts the token, whatever the state was before.
pub failed_write-forgets :
    (sys : System) (token_path : Text) (required_ring max_age_sec : ℤ)
    (expected_nonce : Option Text) (replay_path replay after content : Text) (n : ℕ)
    → sys.fopen token_path ≡ some content
    → (read_token content).counter ≡ some (pos n)
    → validate_attestation_token sys token_path required_ring max_age_sec expected_nonce replay_path
        replay
      ≡ (1, after)
    → (validate_attestation_token
          (full_disk sys)
          token_path
          required_ring
          max_age_sec
          expected_nonce
          replay_path
          replay
        ≡ (0, []))
      × (validate_attestation_token sys token_path required_ring max_age_sec expected_nonce
            replay_path []
          ≡ (1, after))
unfolding validate_attestation_token
failed_write-forgets sys token_path required_ring max_age_sec expected_nonce replay_path replay
      after content n opened counted h =
    (
      advance-forgets sys replay_path replay after _ h,
      checked-again sys replay_path replay after _
          (λ c e. (
            n,
            token_counter sys token_path required_ring max_age_sec expected_nonce content c (pos n)
                opened counted e,
          ))
          h,
    )
