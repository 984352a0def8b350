-- ===== src/Bridge/Presents.antt =====
-- When the token of a call is good, and that skv-analyzer/src/c/attestation_bridge.c then finds its
-- counter.
use sentinel_kv.Prelude.{
  some-injective, ◌^◌, ◌≡◌, refl, subst, Bool, true, false, not, Option, none, some, Text,
  text_beq_iff, if◌then◌else◌, ◌>>=◌, >>=-eq-some, arith,
}
use sentinel_kv.Prelude.Int.{ℤ, pos, negsuc, ◌-ℤ◌, ltb_ℤ, ◌≤ℤ◌}
use sentinel_kv.Host.{Metadata}
use sentinel_kv.Bridge.Numbers.{wrap}
use sentinel_kv.Bridge.Parse.{Token, read_token}
use sentinel_kv.Bridge.{
  System, require, is_secure, is_empty, read_token_file, eq_ℤ, root_ok, nonce_ok, check_fields,
}
use sentinel_kv.Bridge.Accepted.{require-eq-some, eq_ℤ-eq, IsGoodToken, check_fields-IsGoodToken}
use sentinel_kv.Bridge.Printed.{IsI64}
use sentinel_kv.Bridge.Replay.{Call, IsI64OrNone, read_token-IsI64}

-- The token of a call is a secure file that says what is asked for, with the counter `c`.
pub record Presents (k : Call) (c : ℤ) : Type 0 where
  pub token_file : Metadata
  pub content : Text
  pub named : is_empty k.token_path ≡ false
  pub found : k.sys.lstat k.token_path ≡ some token_file
  pub secure : is_secure k.sys.geteuid token_file ≡ true
  pub opened : k.sys.fopen k.token_path ≡ some content
  pub good : IsGoodToken k.sys (read_token content) k.required_ring k.max_age_sec k.expected_nonce c

-- the counter of the token, if it is good
unfoldable pub offered : Call → Option ℤ
unfolding read_token_file check_fields
offered k = do
  t ← read_token_file k.sys k.token_path
  check_fields k.sys k.required_ring k.max_age_sec k.expected_nonce t

not-true : (b : Bool) → not b ≡ true → b ≡ false
not-true b h = ground arith

pub offered-Presents : (k : Call) (c : ℤ) → offered k ≡ some c → Presents k c
unfolding offered read_token_file
offered-Presents k c h =
    let (t, e1, h1) = >>=-eq-some (read_token_file k.sys k.token_path) _ h in
    let (b1, h2) = require-eq-some (not (is_empty k.token_path)) _ e1 in
    let (st, found, h3) = >>=-eq-some (k.sys.lstat k.token_path) _ h2 in
    let (secure, h4) = require-eq-some (is_secure k.sys.geteuid st) _ h3 in
    let (content, opened, h5) = >>=-eq-some (k.sys.fopen k.token_path) _ h4 in
    record {
      token_file = st;
      content = content;
      named = not-true _ b1;
      found = found;
      secure = secure;
      opened = opened;
      good =
          check_fields-IsGoodToken k.sys k.required_ring k.max_age_sec k.expected_nonce
            (read_token content) c (rw (some-injective h5) h1);
    }

pub eq_ℤ_refl : (a : ℤ) → eq_ℤ a a ≡ true
unfolding eq_ℤ
eq_ℤ_refl (pos n) = ground arith
eq_ℤ_refl (negsuc n) = ground arith

pub root_ok-holds :
    (ring : ℤ) (root : Option Bool)
    → (ring ≡ negsuc 1 → root ≡ some true)
    → root_ok ring root ≡ true
unfolding root_ok
root_ok-holds ring root h = go (eq_ℤ ring (negsuc 1)) refl
  where
    go :
        (b : Bool)
        → eq_ℤ ring (negsuc 1) ≡ b
        → (if b then elim root [ none ↦ false | some r ↦ r ] else true) ≡ true
    go true e = rw (h (eq_ℤ-eq ring (negsuc 1) e)) refl
    go false e = refl

pub nonce_ok-holds :
    (expected found : Option Text)
    → ((n : Text) → expected ≡ some n → found ≡ some n)
    → nonce_ok expected found ≡ true
unfolding nonce_ok
nonce_ok-holds none found h = refl
nonce_ok-holds (some n) found h = rw (h n refl) ((text_beq_iff n n).1 refl)

pub not_above : (a b : ℤ) → b ≤ℤ a → not (ltb_ℤ a b) ≡ true
not_above a b h = ground arith

check_fields-holds :
    (sys : System) (ring age : ℤ) (expected : Option Text) (t : Token) (c : ℤ)
    → IsGoodToken sys t ring age expected c
    → check_fields sys ring age expected t ≡ some c
unfolding check_fields require
check_fields-holds sys ring age expected t c g =
    rw
      (
        g.says.ring,
        g.says.attested,
        g.stamped,
        g.says.counted,
        g.time,
        eq_ℤ_refl ring,
        root_ok-holds ring t.root_attested g.says.root,
        g.ages,
        not_above g.now g.timestamp g.not_future,
        not_above age (wrap (2 ^ 63) (g.now -ℤ g.timestamp)) g.not_old,
        nonce_ok-holds expected t.nonce g.says.nonce,
      )
      refl

pub Presents-offered : (k : Call) (c : ℤ) → Presents k c → offered k ≡ some c
unfolding offered read_token_file require
Presents-offered k c p =
    rw (p.named, p.found, p.secure, p.opened)
      (check_fields-holds k.sys k.required_ring k.max_age_sec k.expected_nonce
        (read_token p.content) c p.good)

pub Presents-IsI64 : (k : Call) (c : ℤ) → Presents k c → IsI64 c
Presents-IsI64 k c p = subst IsI64OrNone p.good.says.counted (read_token-IsI64 p.content)
