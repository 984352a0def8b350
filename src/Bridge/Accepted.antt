-- ===== src/Bridge/Accepted.antt =====
-- What it takes that skv-analyzer/src/c/attestation_bridge.c accepts a token.
use sentinel_kv.Prelude.{
  some-injective, ℕ, ◌^◌, ◌≡◌, refl, sym, ap, ◌∙◌, Bool, true, false, not, ◌&&◌, ◌||◌, Option, none,
  some, [], Text, text_beq_iff, nat_beq, leb, length, if◌then◌else◌, ◌>>=◌, >>=-eq-some, subst,
  arith,
}
use sentinel_kv.Prelude.Int.{ℤ, pos, negsuc, ◌-ℤ◌, ltb_ℤ, ◌≤ℤ◌}
use sentinel_kv.Host.{Metadata}
use sentinel_kv.Bridge.Numbers.{wrap}
use sentinel_kv.Bridge.Parse.{Token, read_token}
use sentinel_kv.Bridge.{
  System, require, is_secure, is_empty, read_token_file, eq_ℤ, root_ok, nonce_ok, check_fields,
  take, last_counter, check_replay, counter_line, write_counter, advance,
  validate_attestation_token,
}

-- a guard that lets go on
pub require-eq-some :
    {B : Type 0} (b : Bool) (f : Unit {0} → Option B) {a : B}
    → (require b >>= f) ≡ some a
    → (b ≡ true) × (f tt ≡ some a)
unfolding require
require-eq-some true f h = (refl, h)
require-eq-some false f h = cc

pub eq_ℤ-eq : (a b : ℤ) → eq_ℤ a b ≡ true → a ≡ b
unfolding eq_ℤ
eq_ℤ-eq (pos m) (pos n) h = ap pos (ground arith)
eq_ℤ-eq (pos m) (negsuc n) h = cc
eq_ℤ-eq (negsuc m) (pos n) h = cc
eq_ℤ-eq (negsuc m) (negsuc n) h = ap negsuc (ground arith)

pub root_ok-attested : (root : Option Bool) → root_ok (negsuc 1) root ≡ true → root ≡ some true
unfolding root_ok eq_ℤ
root_ok-attested none h = cc
root_ok-attested (some b) h = ap some h

pub nonce_ok-found :
    (n : Text) (found : Option Text) → nonce_ok (some n) found ≡ true → found ≡ some n
unfolding nonce_ok
nonce_ok-found n none h = cc
nonce_ok-found n (some m) h = ap some (sym ((text_beq_iff n m).0 h))

pub not_less : (a b : ℤ) → not (ltb_ℤ a b) ≡ true → b ≤ℤ a
not_less a b h = ground arith

-- A token that says what is asked for.
pub record Says (t : Token) (required_ring : ℤ) (expected_nonce : Option Text) (counter : ℤ)
    : Type 0 where
  pub ring : t.ring ≡ some required_ring
  pub attested : t.attested ≡ some true
  pub root : required_ring ≡ negsuc 1 → t.root_attested ≡ some true
  pub nonce : (n : Text) → expected_nonce ≡ some n → t.nonce ≡ some n
  pub counted : t.counter ≡ some counter

-- A token that says what is asked for, now, with an age that is bounded by a positive number.
pub record IsGoodToken (sys : System) (t : Token) (required_ring max_age_sec : ℤ)
    (expected_nonce : Option Text) (counter : ℤ) : Type 0 where
  pub now : ℤ
  pub timestamp : ℤ
  pub says : Says t required_ring expected_nonce counter
  pub stamped : t.timestamp ≡ some timestamp
  pub time : sys.time ≡ some now
  pub ages : ltb_ℤ (pos 0) max_age_sec ≡ true
  pub not_future : timestamp ≤ℤ now
  pub not_old : wrap (2 ^ 63) (now -ℤ timestamp) ≤ℤ max_age_sec

pub check_fields-IsGoodToken :
    (sys : System) (required_ring max_age_sec : ℤ) (expected_nonce : Option Text) (t : Token)
    (counter : ℤ)
    → check_fields sys required_ring max_age_sec expected_nonce t ≡ some counter
    → IsGoodToken sys t required_ring max_age_sec expected_nonce counter
unfolding check_fields
check_fields-IsGoodToken sys required_ring max_age_sec expected_nonce t counter h =
    let (ring, e1, h1) = >>=-eq-some t.ring _ h in
    let (attested, e2, h2) = >>=-eq-some t.attested _ h1 in
    let (ts, e3, h3) = >>=-eq-some t.timestamp _ h2 in
    let (c, e4, h4) = >>=-eq-some t.counter _ h3 in
    let (b1, h5) = require-eq-some attested _ h4 in
    let (b2, h6) = require-eq-some (eq_ℤ ring required_ring) _ h5 in
    let (b3, h7) = require-eq-some (root_ok required_ring t.root_attested) _ h6 in
    let (b4, h8) = require-eq-some (ltb_ℤ (pos 0) max_age_sec) _ h7 in
    let (now, e5, h9) = >>=-eq-some sys.time _ h8 in
    let (b5, h10) = require-eq-some (not (ltb_ℤ now ts)) _ h9 in
    let (b6, h11) = require-eq-some (not (ltb_ℤ max_age_sec (wrap (2 ^ 63) (now -ℤ ts)))) _ h10 in
    let (b7, h12) = require-eq-some (nonce_ok expected_nonce t.nonce) _ h11 in
    record {
      now = now;
      timestamp = ts;
      stamped = e3;
      time = e5;
      ages = b4;
      not_future = not_less now ts b5;
      not_old = not_less max_age_sec _ b6;
      says = record {
        ring = e1 ∙ ap some (eq_ℤ-eq ring required_ring b2);
        attested = e2 ∙ ap some b1;
        root = λ e. root_ok-attested t.root_attested (rw e at b3);
        nonce = λ n e. nonce_ok-found n t.nonce (rw e at b7);
        counted = e4 ∙ h12;
      };
    }

-- A call that accepted: what it read, and what it left in the replay state.
pub record IsAccepted (sys : System) (token_path : Text) (required_ring max_age_sec : ℤ)
    (expected_nonce : Option Text) (replay after : Text) : Type 0 where
  pub token_file : Metadata
  pub content : Text
  pub counter : ℤ
  pub found : sys.lstat token_path ≡ some token_file
  pub secure : is_secure sys.geteuid token_file ≡ true
  pub opened : sys.fopen token_path ≡ some content
  pub good : IsGoodToken sys (read_token content) required_ring max_age_sec expected_nonce counter
  pub replay_file : Metadata
  pub replay_found : sys.fstat ≡ some replay_file
  pub replay_secure : is_secure sys.geteuid replay_file ≡ true
  pub advanced : ltb_ℤ (last_counter sys.pread replay) counter ≡ true
  pub recorded : after ≡ counter_line counter

write_counter-recorded :
    (sys : System) (counter : ℤ) (replay after : Text)
    → write_counter sys counter replay ≡ (1, after)
    → after ≡ counter_line counter
unfolding write_counter
write_counter-recorded sys counter replay after h =
    go sys.ftruncate (not sys.lseek || leb 128 (length (counter_line counter)))
      (nat_beq sys.written (length (counter_line counter))) (sys.fsync && sys.chmod) h
  where
    go :
        (a b c d : Bool)
        → ◌≡◌ {A = ℕ × Text}
            (if not a
              then (0, replay)
              else if b
              then (0, [])
              else if not c
              then (0, take sys.written (counter_line counter))
              else if not d
              then (0, counter_line counter)
              else (1, counter_line counter))
            (1, after)
        → after ≡ counter_line counter
    go false b c d e = absurd (ground (arith, ap (λ p. p.0) e))
    go true true c d e = absurd (ground (arith, ap (λ p. p.0) e))
    go true false false d e = absurd (ground (arith, ap (λ p. p.0) e))
    go true false true false e = absurd (ground (arith, ap (λ p. p.0) e))
    go true false true true e = sym (ap (λ p. p.1) e)

check_replay-eq-some :
    (sys : System) (replay_path replay : Text) (counter : ℤ) {u : Unit {0}}
    → check_replay sys replay_path counter replay ≡ some u
    → (st : Metadata) × (sys.fstat ≡ some st)
      × (is_secure sys.geteuid st ≡ true)
      × (ltb_ℤ (last_counter sys.pread replay) counter ≡ true)
unfolding check_replay
check_replay-eq-some sys replay_path replay counter h =
    let (_, h1) = require-eq-some (not (is_empty replay_path)) _ h in
    let (_, h2) = require-eq-some (sys.open_state replay_path) _ h1 in
    let (_, h3) = require-eq-some sys.lock _ h2 in
    let (st, found, h4) = >>=-eq-some sys.fstat _ h3 in
    let (secure, h5) = require-eq-some (is_secure sys.geteuid st) _ h4 in
    (st, found, secure, require_true _ h5)
  where
    require_true : (b : Bool) {u : Unit {0}} → require b ≡ some u → b ≡ true
    require_true true e = refl
    require_true false e = unfold require in cc

pub advance-eq-one :
    (sys : System) (replay_path replay after : Text) (o : Option ℤ)
    → advance sys replay_path replay o ≡ (1, after)
    → (counter : ℤ) × (o ≡ some counter)
      × (check_replay sys replay_path counter replay ≡ some tt)
      × (after ≡ counter_line counter)
unfolding advance
advance-eq-one sys replay_path replay after none h = absurd (ground (arith, ap (λ p. p.0) h))
advance-eq-one sys replay_path replay after (some counter) h =
    let (e, recorded) = go (check_replay sys replay_path counter replay) h in
    (counter, refl, e, recorded)
  where
    go :
        (r : Option (Unit {0}))
        → ◌≡◌ {A = ℕ × Text}
            (elim r [ none ↦ (0, replay) | some _ ↦ write_counter sys counter replay ])
            (1, after)
        → (r ≡ some tt) × (after ≡ counter_line counter)
    go none e = absurd (ground (arith, ap (λ p. p.0) e))
    go (some _) e = (refl, write_counter-recorded sys counter replay after e)

-- If the bridge accepts a token, then the token is a regular file of the effective user that nobody
-- else may write; it is attested for the ring that is asked for, in ring -2 by the root too; its
-- time is not in the future and, by the difference of the times in 64 bits, not older than the
-- maximal age; it holds the nonce that is expected; its counter is above the one that was read from
-- the replay state, which is -1 where none was read (also where `pread` failed). The replay state is a
-- regular file of the same kind, and now holds the token's counter.
pub validate_attestation_token-IsAccepted :
    (sys : System) (token_path : Text) (required_ring max_age_sec : ℤ)
    (expected_nonce : Option Text) (replay_path replay after : Text)
    → validate_attestation_token sys token_path required_ring max_age_sec expected_nonce replay_path
        replay
      ≡ (1, after)
    → IsAccepted sys token_path required_ring max_age_sec expected_nonce replay after
unfolding validate_attestation_token read_token_file
validate_attestation_token-IsAccepted sys token_path required_ring max_age_sec expected_nonce
      replay_path replay after h =
    let (counter, checked, ready, recorded) = advance-eq-one sys replay_path replay after _ h in
    let (t, e, fields) = >>=-eq-some (read_token_file sys token_path) _ checked in
    let (_, e1) = require-eq-some (not (is_empty token_path)) _ e in
    let (st, found, e2) = >>=-eq-some (sys.lstat token_path) _ e1 in
    let (secure, e3) = require-eq-some (is_secure sys.geteuid st) _ e2 in
    let (content, opened, e4) = >>=-eq-some (sys.fopen token_path) _ e3 in
    let (state, state_found, state_secure, advanced) =
      check_replay-eq-some sys replay_path replay counter ready in
    let good =
      check_fields-IsGoodToken sys required_ring max_age_sec expected_nonce t counter fields in
    record {
      token_file = st;
      content = content;
      counter = counter;
      found = found;
      secure = secure;
      opened = opened;
      good =
          subst (λ x. IsGoodToken sys x required_ring max_age_sec expected_nonce counter)
            (sym (some-injective e4)) good;
      replay_file = state;
      replay_found = state_found;
      replay_secure = state_secure;
      advanced = advanced;
      recorded = recorded;
    }
