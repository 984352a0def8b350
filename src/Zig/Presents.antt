-- ===== src/Zig/Presents.antt =====
-- When the token of a call is good, and that skv-analyzer/src/zig/attestation_bridge.zig then finds
-- its counter.
use sentinel_kv.Prelude.{
  ◌^◌, ◌≡◌, refl, ap, ◌∙◌, Bool, true, false, not, Option, none, some, Text, if◌then◌else◌,
}
use sentinel_kv.Prelude.Int.{ℤ, pos, ◌-ℤ◌, ltb_ℤ, ◌≤ℤ◌}
use sentinel_kv.Bridge.Parse.{Token}
use sentinel_kv.Bridge.{eq_ℤ, root_ok, nonce_ok}
use sentinel_kv.Bridge.Accepted.{Says, eq_ℤ-eq, root_ok-attested, nonce_ok-found, not_less}
use sentinel_kv.Bridge.Presents.{eq_ℤ_refl, root_ok-holds, nonce_ok-holds, not_above}
use sentinel_kv.Zig.Parse.{read_token}
use sentinel_kv.Zig.{
  Os, Checked, refuses, panics, passes, ◌>>=◌, ensure, assert, found, is_secure_regular_file,
  is_absolute, minus_i64, token_of, checked_counter,
}

-- One call, with what the system gives it.
pub record Call : Type 0 where
  pub os : Os
  pub token_path : Text
  pub required_ring : ℤ
  pub max_age_sec : ℤ
  pub expected_nonce : Option Text
  pub replay_path : Text

-- A token that says what is asked for, now, and whose age is one of 64 bits.
pub record IsGoodToken (os : Os) (t : Token) (required_ring max_age_sec : ℤ)
    (expected_nonce : Option Text) (counter : ℤ) : Type 0 where
  pub timestamp : ℤ
  pub says : Says t required_ring expected_nonce counter
  pub stamped : t.timestamp ≡ some timestamp
  pub ages : ltb_ℤ (pos 0) max_age_sec ≡ true
  pub not_future : timestamp ≤ℤ os.timestamp
  pub in_range : ltb_ℤ (os.timestamp -ℤ timestamp) (pos (2 ^ 63)) ≡ true
  pub not_old : (os.timestamp -ℤ timestamp) ≤ℤ max_age_sec

-- The token of a call is a file that only its owner may write, and says what is asked for, with the
-- counter `c`.
pub record Presents (k : Call) (c : ℤ) : Type 0 where
  pub content : Text
  pub token : Token
  pub secure : is_secure_regular_file (k.os.lstat k.token_path) ≡ true
  pub opened : k.os.open_file k.token_path ≡ some content
  pub read : read_token content ≡ some token
  pub good : IsGoodToken k.os token k.required_ring k.max_age_sec k.expected_nonce c

-- the counter of the token, if it is good
unfoldable pub offered : Call → Checked ℤ
unfolding token_of checked_counter
offered k = token_of k.os k.token_path >>= λ t.
    checked_counter k.os k.required_ring k.max_age_sec k.expected_nonce t

-- inversion of a chain that comes to a value
>>=-eq-passes :
    {A B : Type 0} (x : Checked A) (f : A → Checked B) {b : B}
    → (x >>= f) ≡ passes b
    → (a : A) × (x ≡ passes a) × (f a ≡ passes b)
>>=-eq-passes (passes a) f h = (a, refl, h)
>>=-eq-passes refuses f h = cc
>>=-eq-passes panics f h = cc

found-eq-passes : {A : Type 0} (o : Option A) {a : A} → found o ≡ passes a → o ≡ some a
unfolding found
found-eq-passes none h = cc
found-eq-passes (some x) h = cc

ensure-eq-passes :
    {B : Type 0} (b : Bool) (f : Unit {0} → Checked B) {y : B}
    → (ensure b >>= f) ≡ passes y
    → (b ≡ true) × (f tt ≡ passes y)
unfolding ensure
ensure-eq-passes true f h = (refl, h)
ensure-eq-passes false f h = cc

assert-eq-passes :
    {B : Type 0} (b : Bool) (f : Unit {0} → Checked B) {y : B}
    → (assert b >>= f) ≡ passes y
    → (b ≡ true) × (f tt ≡ passes y)
unfolding assert
assert-eq-passes true f h = (refl, h)
assert-eq-passes false f h = cc

pub passes-injective : {A : Type 0} {a b : A} → passes a ≡ passes b → a ≡ b
passes-injective {A} {a} {b} h = ap (λ x. elim x [ refuses ↦ a | panics ↦ a | passes y ↦ y ]) h

minus_i64-eq-passes :
    (a b c : ℤ) → minus_i64 a b ≡ passes c → (ltb_ℤ (a -ℤ b) (pos (2 ^ 63)) ≡ true) × (a -ℤ b ≡ c)
unfolding minus_i64
minus_i64-eq-passes a b c h = go (ltb_ℤ (a -ℤ b) (pos (2 ^ 63))) h
  where
    go : (x : Bool) → (if x then passes (a -ℤ b) else panics) ≡ passes c → (x ≡ true) × (a -ℤ b ≡ c)
    go true e = (refl, passes-injective e)
    go false e = cc

checked_counter-IsGoodToken :
    (os : Os) (ring_asked age : ℤ) (expected : Option Text) (t : Token) (c : ℤ)
    → checked_counter os ring_asked age expected t ≡ passes c
    → IsGoodToken os t ring_asked age expected c
unfolding checked_counter
checked_counter-IsGoodToken os ring_asked age expected t c h =
    let (ring, e1, h1) = >>=-eq-passes (found t.ring) _ h in
    let (attested, e2, h2) = >>=-eq-passes (found t.attested) _ h1 in
    let (ts, e3, h3) = >>=-eq-passes (found t.timestamp) _ h2 in
    let (counter, e4, h4) = >>=-eq-passes (found t.counter) _ h3 in
    let (b1, h5) = ensure-eq-passes attested _ h4 in
    let (b2, h6) = ensure-eq-passes (eq_ℤ ring ring_asked) _ h5 in
    let (b3, h7) = ensure-eq-passes (root_ok ring_asked t.root_attested) _ h6 in
    let (b4, h8) = ensure-eq-passes (ltb_ℤ (pos 0) age) _ h7 in
    let (b5, h9) = ensure-eq-passes (not (ltb_ℤ os.timestamp ts)) _ h8 in
    let (d, e5, h10) = >>=-eq-passes (minus_i64 os.timestamp ts) _ h9 in
    let (in_range, same) = minus_i64-eq-passes os.timestamp ts d e5 in
    let (b6, h11) = ensure-eq-passes (not (ltb_ℤ age d)) _ h10 in
    let (b7, h12) = ensure-eq-passes (nonce_ok expected t.nonce) _ h11 in
    record {
      timestamp = ts;
      stamped = found-eq-passes t.timestamp e3;
      ages = b4;
      not_future = not_less os.timestamp ts b5;
      in_range = in_range;
      not_old = not_less age (os.timestamp -ℤ ts) (rw (← same) at b6);
      says = record {
        ring = found-eq-passes t.ring e1 ∙ ap some (eq_ℤ-eq ring ring_asked b2);
        attested = found-eq-passes t.attested e2 ∙ ap some b1;
        root = λ e. root_ok-attested t.root_attested (rw e at b3);
        nonce = λ n e. nonce_ok-found n t.nonce (rw e at b7);
        counted = found-eq-passes t.counter e4 ∙ ap some (passes-injective h12);
      };
    }

pub offered-Presents : (k : Call) (c : ℤ) → offered k ≡ passes c → Presents k c
unfolding offered token_of
offered-Presents k c h =
    let (t, e, h1) = >>=-eq-passes (token_of k.os k.token_path) _ h in
    let (secure, e1) = ensure-eq-passes (is_secure_regular_file (k.os.lstat k.token_path)) _ e in
    let (_, e2) = assert-eq-passes (is_absolute k.token_path) _ e1 in
    let (content, opened, e3) = >>=-eq-passes (found (k.os.open_file k.token_path)) _ e2 in
    record {
      content = content;
      token = t;
      secure = secure;
      opened = found-eq-passes _ opened;
      read = found-eq-passes _ e3;
      good = checked_counter-IsGoodToken k.os k.required_ring k.max_age_sec k.expected_nonce t c h1;
    }

checked_counter-holds :
    (os : Os) (ring age : ℤ) (expected : Option Text) (t : Token) (c : ℤ)
    → IsGoodToken os t ring age expected c
    → checked_counter os ring age expected t ≡ passes c
unfolding checked_counter ensure found minus_i64
checked_counter-holds os ring age expected t c g =
    rw
      (
        g.says.ring,
        g.says.attested,
        g.stamped,
        g.says.counted,
        eq_ℤ_refl ring,
        root_ok-holds ring t.root_attested g.says.root,
        g.ages,
        not_above os.timestamp g.timestamp g.not_future,
        g.in_range,
        not_above age (os.timestamp -ℤ g.timestamp) g.not_old,
        nonce_ok-holds expected t.nonce g.says.nonce,
      )
      refl

pub Presents-offered :
    (k : Call) (c : ℤ) → is_absolute k.token_path ≡ true → Presents k c → offered k ≡ passes c
unfolding offered token_of ensure assert found
Presents-offered k c absolute p =
    rw (p.secure, absolute, p.opened, p.read)
      (checked_counter-holds k.os k.required_ring k.max_age_sec k.expected_nonce p.token c p.good)
