-- ===== src/Signature/Fingerprint.antt =====
-- The normal form of a key fingerprint.
use sentinel_kv.Prelude.{
  ℕ, ◌≡◌, refl, Bool, true, ◌&&◌, ◌||◌, [], ◌∷◌, map, Text, nat_beq, nat_beq_iff, length, len,
  len_utf8, to_lower, trim, all, leb, arith,
}
use sentinel_kv.Host.{ok, ensure-eq-ok}
use sentinel_kv.Signature.{is_hex_digit, normalize_fingerprint}

-- the digits 0 to 9 and a to f
unfoldable pub is_lower_hex : ℕ → Bool
is_lower_hex c = leb b'0' c && leb c b'9' || leb b'a' c && leb c b'f'

lower_hex : (c : ℕ) → is_hex_digit (to_lower c) ≡ true → is_lower_hex (to_lower c) ≡ true
unfolding is_hex_digit is_lower_hex to_lower
lower_hex c h = ground arith

len_utf8-hex : (c : ℕ) → is_hex_digit c ≡ true → len_utf8 c ≡ 1
unfolding is_hex_digit len_utf8
len_utf8-hex c h = ground arith

and-true : (a b : Bool) → (a && b) ≡ true → (a ≡ true) × (b ≡ true)
and-true a b h = ground arith

len-hex : (s : Text) → all is_hex_digit s ≡ true → len s ≡ length s
unfolding len all
len-hex [] h = refl
len-hex (c ∷ s) h =
    let (hc, hs) = and-true (is_hex_digit c) _ h in omega (arith, len_utf8-hex c hc, len-hex s hs)

all-lower_hex :
    (s : Text) → all is_hex_digit (map to_lower s) ≡ true → all is_lower_hex (map to_lower s) ≡ true
unfolding all
all-lower_hex [] h = refl
all-lower_hex (c ∷ s) h =
    let (hc, hs) = and-true (is_hex_digit (to_lower c)) _ h in
    ground (arith, lower_hex c hc, all-lower_hex s hs)

-- A fingerprint that `normalize_fingerprint` accepts comes back as exactly 64 characters, each a
-- digit or a lower-case letter from a to f, and is the trimmed text in lower case.
pub normalize_fingerprint-form :
    (value fp : Text)
    → normalize_fingerprint value ≡ ok fp
    → (length fp ≡ 64) × (all is_lower_hex fp ≡ true) × (fp ≡ map to_lower (trim value))
unfolding normalize_fingerprint
normalize_fingerprint-form value fp h =
    let (t, e) =
      ensure-eq-ok
        (nat_beq (len (map to_lower (trim value))) 64
          && all is_hex_digit (map to_lower (trim value)))
        _ _ h in
    let (size, digits) = and-true (nat_beq (len (map to_lower (trim value))) 64) _ t in
    let same : fp ≡ map to_lower (trim value) = cc in
    rw same (
      omega (arith, (nat_beq_iff _ _).0 size, len-hex _ digits),
      all-lower_hex (trim value) digits,
      refl,
    )
