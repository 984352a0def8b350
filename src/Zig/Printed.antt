-- ===== src/Zig/Printed.antt =====
-- The counter in the replay state of skv-analyzer/src/zig/attestation_bridge.zig, written and read
-- back.
use sentinel_kv.Prelude.{
  ℕ, zero, suc, ◌+◌, ◌-◌, ◌*◌, ◌/◌, ◌%◌, ◌^◌, ◌≤◌, ◌<◌, ◌≡◌, refl, sym, ap, ◌∙◌, subst, Bool, true,
  false, some, none, [], ◌∷◌, ◌++◌, All, Text, text, decimal, decimal_digits, length, length-append,
  ltb, is_digit, read_digits, ends, read_digits-decimal, starts_with_digit, decimal-digit, arith,
}
use mathlib.Core.List.{append-nil, append_assoc}
use sentinel_kv.Prelude.Int.{ℤ, pos, negsuc}
use sentinel_kv.Doctor.{integer_text}
use sentinel_kv.Bridge.Numbers.{negate}
use sentinel_kv.Bridge.{counter_line}
use sentinel_kv.Bridge.Printed.{IsI64, length-counter_line}
use sentinel_kv.Zig.Parse.{
  int_digits, ends_with_underscore, starts_with_underscore, in_i64, int_with_sign, parse_int,
  trim_line, next_line,
}
use sentinel_kv.Zig.{passes, counter_of_line}

-- no byte of the text ends a line
abbrev pub IsPlain : Text → Type 0
IsPlain s = All (λ c. ltb 13 c ≡ true) s

abbrev AreDigits : Text → Type 0
AreDigits s = All (λ c. is_digit c ≡ true) s

decimal_digits-AreDigits :
    (f n : ℕ) (acc : Text) → AreDigits acc → AreDigits (decimal_digits f n acc)
unfolding decimal_digits is_digit
decimal_digits-AreDigits zero n acc h = h
decimal_digits-AreDigits (suc f) n acc h =
    ground (arith, decimal_digits-AreDigits f (n / 10) ((48 + n % 10) ∷ acc))

pub decimal-AreDigits : (n : ℕ) → AreDigits (decimal n)
unfolding decimal
decimal-AreDigits n = decimal_digits-AreDigits (suc n) n [] tt

AreDigits-IsPlain : (s : Text) → AreDigits s → IsPlain s
unfolding is_digit
AreDigits-IsPlain [] h = tt
AreDigits-IsPlain (c ∷ s) h = (ground arith, AreDigits-IsPlain s h.1)

int_digits-digit :
    (acc c : ℕ) (s : Text)
    → is_digit c ≡ true
    → int_digits acc (c ∷ s) ≡ int_digits (acc * 10 + (c - 48)) s
unfolding int_digits is_digit
int_digits-digit acc c s h = ground arith

read_digits-first :
    (acc c : ℕ) (s : Text)
    → is_digit c ≡ true
    → read_digits acc (c ∷ s) ≡ read_digits (10 * acc + (c - 48)) s
unfolding read_digits is_digit
read_digits-first acc c s h = ground arith

commute : (acc c : ℕ) → acc * 10 + (c - 48) ≡ 10 * acc + (c - 48)
commute acc c = omega arith

int_digits-read_digits :
    (acc : ℕ) (s : Text) → AreDigits s → int_digits acc s ≡ some (read_digits acc s).0
unfolding int_digits read_digits
int_digits-read_digits acc [] h = refl
int_digits-read_digits acc (c ∷ s) h =
    int_digits-digit acc c s h.0
    ∙ ap (λ n. int_digits n s) (commute acc c)
    ∙ int_digits-read_digits (10 * acc + (c - 48)) s h.1
    ∙ ap (λ r. some r.0) (sym (read_digits-first acc c s h.0))

no_underscore : (s : Text) → AreDigits s → ends_with_underscore s ≡ false
unfolding ends_with_underscore is_digit
no_underscore [] h = refl
no_underscore (c ∷ []) h = ground arith
no_underscore (c ∷ d ∷ s) h = no_underscore (d ∷ s) h.1

pub trim_line-plain : (s : Text) → IsPlain s → trim_line s ≡ s
unfolding trim_line
trim_line-plain [] h = refl
trim_line-plain (c ∷ s) h = rw (trim_line-plain s h.1) (ground arith)

pub next_line-feed :
    (room : ℕ) (line s rest : Text)
    → IsPlain s
    → length s < room
    → next_line room line (s ++ b'\n' ∷ rest) ≡ some (some (line ++ s))
unfolding next_line
next_line-feed room line [] rest h fits = ap (λ l. some (some l)) (sym (append-nil line))
next_line-feed room line (c ∷ s) rest h fits =
    let rest' = next_line-feed (room - 1) (line ++ c ∷ []) s rest h.1 (omega arith) in
    let same = append_assoc line (c ∷ []) s in rw (rest', same) (ground arith)

decimal-starts : (n : ℕ) → starts_with_digit (decimal n) ≡ true
decimal-starts n =
    subst (λ s. starts_with_digit s ≡ true) (append-nil (decimal n)) (decimal-digit n [])

first_is_no_underscore :
    (c : ℕ) (s : Text) → is_digit c ≡ true → starts_with_underscore (c ∷ s) ≡ false
unfolding starts_with_underscore is_digit
first_is_no_underscore c s h = ground arith

pub int_with_sign-decimal :
    (minus : Bool) (n : ℕ) → int_with_sign minus (decimal n) ≡ in_i64 minus n
unfolding ends
int_with_sign-decimal minus n =
    with_digits minus (decimal n) (decimal-AreDigits n) (decimal-starts n)
    ∙ ap (λ r. in_i64 minus r.0) (read n)
  where
    read : (n : ℕ) → read_digits 0 (decimal n) ≡ (n, [])
    read n =
        subst (λ s. read_digits 0 s ≡ (n, [])) (append-nil (decimal n))
          (read_digits-decimal n [] refl)

    with_digits :
        (minus : Bool) (s : Text)
        → AreDigits s
        → starts_with_digit s ≡ true
        → int_with_sign minus s ≡ in_i64 minus (read_digits 0 s).0
    with_digits minus [] h d = cc
    with_digits minus (c ∷ s) h d =
        unfold int_with_sign in
        rw
          (
            first_is_no_underscore c s d,
            no_underscore (c ∷ s) h,
            int_digits-read_digits 0 (c ∷ s) h,
          )
          refl

parse_int-digit : (s : Text) → starts_with_digit s ≡ true → parse_int s ≡ int_with_sign false s
unfolding parse_int is_digit
parse_int-digit [] h = cc
parse_int-digit (c ∷ s) h = ground arith

negative : (n : ℕ) → n < 2 ^ 63 → in_i64 true (n + 1) ≡ some (negsuc n)
unfolding in_i64 negate
negative n h = ground arith

pub parse_int-integer_text : (c : ℤ) → IsI64 c → parse_int (integer_text c) ≡ some c
unfolding integer_text text parse_int
parse_int-integer_text (pos n) h =
    parse_int-digit (decimal n) (decimal-starts n)
    ∙ int_with_sign-decimal false n
    ∙ (unfold in_i64 in ground arith)
parse_int-integer_text (negsuc n) h = int_with_sign-decimal true (n + 1) ∙ negative n h

pub integer_text-IsPlain : (c : ℤ) → IsPlain (integer_text c)
unfolding integer_text text
integer_text-IsPlain (pos n) = AreDigits-IsPlain (decimal n) (decimal-AreDigits n)
integer_text-IsPlain (negsuc n) =
    (ground arith, AreDigits-IsPlain (decimal (n + 1)) (decimal-AreDigits (n + 1)))

pub length-integer_text : (c : ℤ) → IsI64 c → length (integer_text c) < 128
length-integer_text c h =
    let short : length (counter_line c) ≤ 127 = length-counter_line c h in
    unfold counter_line in omega (arith, length-append (integer_text c) (b'\n' ∷ []))

-- The counter that was written is the one that is read.
pub counter_of_line-counter_line :
    (c : ℤ) → IsI64 c → counter_of_line (next_line 128 [] (counter_line c)) ≡ passes c
unfolding counter_line
counter_of_line-counter_line c h =
    ap counter_of_line
      (next_line-feed 128 [] (integer_text c) [] (integer_text-IsPlain c) (length-integer_text c h))
    ∙ read_back
  where
    read_back : counter_of_line (some (some (integer_text c))) ≡ passes c
    read_back =
        unfold counter_of_line in
        ap (λ o. elim o [ none ↦ passes (negsuc 0) | some parsed ↦ passes parsed ])
          (ap parse_int (trim_line-plain (integer_text c) (integer_text-IsPlain c))
            ∙ parse_int-integer_text c h)
