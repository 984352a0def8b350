-- ===== src/Bridge/Printed.antt =====
-- The counter in the replay state of skv-analyzer/src/c/attestation_bridge.c, written and read back.
use sentinel_kv.Prelude.{
  ℕ, zero, suc, ◌+◌, ◌/◌, ◌%◌, ◌^◌, ◌≤◌, ◌<◌, ◌≡◌, refl, ap, ◌∙◌, true, false, some, [], ◌∷◌, ◌++◌,
  Text, text, decimal, decimal_digits, decimal_digits-append, ◌*◌, length, is_digit,
  read_digits-decimal, starts_with_digit, decimal-digit, ends, arith,
}
use sentinel_kv.Prelude.Int.{ℤ, pos, negsuc}
use sentinel_kv.Doctor.{integer_text}
use sentinel_kv.Bridge.Numbers.{is_space, skip_space, sign, negate, clamp, strtoll}
use sentinel_kv.Bridge.{take, c_string, last_counter, counter_line}

-- the values of a long long
abbrev pub IsI64 : ℤ → Type 0
IsI64 (pos n) = n < 2 ^ 63
IsI64 (negsuc n) = n < 2 ^ 63

-- 10 to the power k + 1
abbrev bound : ℕ → ℕ
bound zero = 10
bound (suc k) = 10 * bound k

length-decimal_digits :
    (f n k : ℕ) (acc : Text)
    → n < f
    → n < bound k
    → length (decimal_digits f n acc) ≤ length acc + suc k
unfolding decimal_digits
length-decimal_digits zero n k acc h lt = absurd (omega arith)
length-decimal_digits (suc f) n zero acc h lt = ground arith
length-decimal_digits (suc f) n (suc k) acc h lt =
    let small : n / 10 < bound k = omega arith in
    ground (arith, length-decimal_digits f (n / 10) k ((48 + n % 10) ∷ acc))

pub take-all : (n : ℕ) (s : Text) → length s ≤ n → take n s ≡ s
unfolding take
take-all zero [] h = refl
take-all zero (c ∷ s) h = absurd (omega arith)
take-all (suc n) [] h = refl
take-all (suc n) (c ∷ s) h = ap (λ t. c ∷ t) (take-all n s (omega arith))

c_string-decimal_digits :
    (f n : ℕ) (acc : Text) → c_string (decimal_digits f n acc) ≡ decimal_digits f n (c_string acc)
unfolding decimal_digits c_string
c_string-decimal_digits zero n acc = refl
c_string-decimal_digits (suc f) n acc =
    ground (arith, c_string-decimal_digits f (n / 10) ((48 + n % 10) ∷ acc))

skip_space-digit : (s : Text) → starts_with_digit s ≡ true → skip_space s ≡ s
unfolding skip_space is_space is_digit
skip_space-digit [] h = cc
skip_space-digit (c ∷ s) h = ground arith

sign-digit : (s : Text) → starts_with_digit s ≡ true → sign s ≡ (false, s)
unfolding sign is_digit
sign-digit [] h = cc
sign-digit (c ∷ s) h = ground arith

-- a line with the digits of a number
abbrev line_feed : Text
line_feed = b'\n' ∷ []

strtoll-decimal :
    (n : ℕ) (rest : Text) → ends rest ≡ true → strtoll (decimal n ++ rest) ≡ some (clamp false n)
unfolding strtoll
strtoll-decimal n rest h =
    rw
      (
        skip_space-digit (decimal n ++ rest) (decimal-digit n rest),
        sign-digit (decimal n ++ rest) (decimal-digit n rest),
        decimal-digit n rest,
        read_digits-decimal n rest h,
      )
      refl

strtoll-minus :
    (n : ℕ) (rest : Text)
    → ends rest ≡ true
    → strtoll (b'-' ∷ (decimal n ++ rest)) ≡ some (clamp true n)
unfolding strtoll is_digit skip_space is_space sign
strtoll-minus n rest h = rw (decimal-digit n rest, read_digits-decimal n rest h) refl

c_string-decimal : (n : ℕ) → c_string (decimal n ++ line_feed) ≡ decimal n ++ line_feed
unfolding decimal
c_string-decimal n =
    rw (decimal_digits-append (suc n) n [] line_feed)
      (c_string-decimal_digits (suc n) n line_feed ∙ (unfold c_string in refl))

length-decimal : (n : ℕ) → n ≤ 2 ^ 63 → length (decimal n ++ line_feed) ≤ 20
unfolding decimal
length-decimal n h =
    rw (decimal_digits-append (suc n) n [] line_feed)
      (length-decimal_digits (suc n) n 18 line_feed (omega arith) (omega arith))

-- A number comes back, unless a digit follows.
pub strtoll-integer_text :
    (c : ℤ) (rest : Text) → IsI64 c → ends rest ≡ true → strtoll (integer_text c ++ rest) ≡ some c
unfolding integer_text text clamp negate
strtoll-integer_text (pos n) rest h e = strtoll-decimal n rest e ∙ ap some (ground arith)
strtoll-integer_text (negsuc n) rest h e = strtoll-minus (n + 1) rest e ∙ ap some (ground arith)

strtoll-counter_line : (c : ℤ) → IsI64 c → strtoll (counter_line c) ≡ some c
unfolding counter_line ends is_digit
strtoll-counter_line c h = strtoll-integer_text c line_feed h refl

c_string-counter_line : (c : ℤ) → c_string (counter_line c) ≡ counter_line c
unfolding counter_line integer_text text c_string
c_string-counter_line (pos n) = c_string-decimal n
c_string-counter_line (negsuc n) = ap (λ s. b'-' ∷ s) (c_string-decimal (n + 1))

pub length-counter_line : (c : ℤ) → IsI64 c → length (counter_line c) ≤ 127
unfolding counter_line integer_text text
length-counter_line (pos n) h = omega (arith, length-decimal n)
length-counter_line (negsuc n) h = omega (arith, length-decimal (n + 1))

-- The counter that was written is the one that is read.
pub last_counter-counter_line : (c : ℤ) → IsI64 c → last_counter true (counter_line c) ≡ c
unfolding last_counter
last_counter-counter_line c h =
    rw
      (
        take-all 127 (counter_line c) (length-counter_line c h),
        c_string-counter_line c,
        strtoll-counter_line c h,
      )
      refl
