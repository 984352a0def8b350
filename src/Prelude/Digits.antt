-- ===== src/Prelude/Digits.antt =====
-- The digits of a number, read back.
use Prim.Native.Nat.{ℕ, zero, suc, ◌+◌, ◌-◌, ◌*◌, ◌/◌, ◌%◌, ◌<◌}
use mathlib.Core.Path.{◌≡◌, refl, ◌∙◌}
use mathlib.Core.Bool.{Bool, true, false, not, ◌&&◌}
use mathlib.Core.List.{[], ◌∷◌, ◌++◌}
use native.Mathlib.Omega.{arith}
use sentinel_kv.Prelude.Tests.{leb}
use sentinel_kv.Prelude.Strings.{Text, decimal, decimal_digits}

unfoldable pub is_digit : ℕ → Bool
is_digit c = leb b'0' c && leb c b'9'

-- the digits in front, behind those that make up `n`
unfoldable pub read_digits : ℕ → Text → ℕ × Text
unfolding is_digit
read_digits n [] = (n, [])
read_digits n (c ∷ s) = elim (is_digit c) [
  | true ↦ read_digits (10 * n + (c - 48)) s
  | false ↦ (n, c ∷ s)
]

-- the text does not go on with a digit
unfoldable pub ends : Text → Bool
ends [] = true
ends (c ∷ s) = not (is_digit c)

read_digits-digit :
    (n c : ℕ) (s : Text) → c < 10 → read_digits n ((48 + c) ∷ s) ≡ read_digits (10 * n + c) s
unfolding read_digits is_digit
read_digits-digit n c s h = ground arith

read_digits-digit_of :
    (n m c : ℕ) (s : Text)
    → c < 10
    → 10 * n + c ≡ m
    → read_digits n ((48 + c) ∷ s) ≡ read_digits m s
read_digits-digit_of n m c s h e = rw (← e) (read_digits-digit n c s h)

read_digits-decimal_digits :
    (f n : ℕ) (acc : Text) → n < f → read_digits 0 (decimal_digits f n acc) ≡ read_digits n acc
unfolding decimal_digits
read_digits-decimal_digits zero n acc h = absurd (omega arith)
read_digits-decimal_digits (suc f) n acc h = ground (
  arith,
  read_digits-digit_of 0 n n acc,
  read_digits-digit_of (n / 10) n (n % 10) acc,
  read_digits-decimal_digits f (n / 10) ((48 + n % 10) ∷ acc),
)

pub decimal_digits-append :
    (f n : ℕ) (acc rest : Text) → decimal_digits f n acc ++ rest ≡ decimal_digits f n (acc ++ rest)
unfolding decimal_digits
decimal_digits-append zero n acc rest = refl
decimal_digits-append (suc f) n acc rest =
    ground (arith, decimal_digits-append f (n / 10) ((48 + n % 10) ∷ acc) rest)

read_digits_end : (n : ℕ) (s : Text) → ends s ≡ true → read_digits n s ≡ (n, s)
unfolding read_digits ends
read_digits_end n [] h = refl
read_digits_end n (c ∷ s) h = ground arith

-- A number comes back, unless a digit follows.
pub read_digits-decimal :
    (n : ℕ) (rest : Text) → ends rest ≡ true → read_digits 0 (decimal n ++ rest) ≡ (n, rest)
unfolding decimal
read_digits-decimal n rest h =
    rw (decimal_digits-append (suc n) n [] rest)
      (read_digits-decimal_digits (suc n) n rest (omega arith) ∙ read_digits_end n rest h)

abbrev pub starts_with_digit : Text → Bool
starts_with_digit [] = false
starts_with_digit (c ∷ s) = is_digit c

decimal_digits-digit :
    (f n : ℕ) (acc : Text) → n < f → starts_with_digit (decimal_digits f n acc) ≡ true
unfolding decimal_digits is_digit
decimal_digits-digit zero n acc h = absurd (omega arith)
decimal_digits-digit (suc f) n acc h =
    ground (arith, decimal_digits-digit f (n / 10) ((48 + n % 10) ∷ acc))

pub decimal-digit : (n : ℕ) (rest : Text) → starts_with_digit (decimal n ++ rest) ≡ true
unfolding decimal
decimal-digit n rest =
    rw (decimal_digits-append (suc n) n [] rest) (decimal_digits-digit (suc n) n rest (omega arith))
