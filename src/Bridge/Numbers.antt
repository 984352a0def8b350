-- ===== src/Bridge/Numbers.antt =====
-- The C library's `strtol` and `strtoll` in base ten, and the conversions of C's integers, as far as
-- skv-analyzer/src/c/attestation_bridge.c uses them (long and long long have 64 bits).
use Prim.Native.Nat.{min}
use sentinel_kv.Prelude.{
  ℕ, zero, suc, ◌-◌, ◌*◌, ◌%◌, ◌^◌, Bool, true, false, ◌||◌, ◌&&◌, Option, none, some, [], ◌∷◌,
  Text, ltb, leb, nat_beq, read_digits, starts_with_digit, if◌then◌else◌,
}
use sentinel_kv.Prelude.Int.{ℤ, pos, negsuc}

-- `isspace` in the C locale
unfoldable pub is_space : ℕ → Bool
is_space c = leb 9 c && leb c 13 || nat_beq c 32

unfoldable pub skip_space : Text → Text
unfolding is_space
skip_space [] = []
skip_space (c ∷ s) = let rest = skip_space s in if is_space c then rest else c ∷ s

-- an optional sign; true for a minus
unfoldable pub sign : Text → Bool × Text
sign [] = (false, [])
sign (c ∷ s) =
    if nat_beq c b'-' then (true, s) else if nat_beq c b'+' then (false, s) else (false, c ∷ s)

unfoldable pub negate : ℕ → ℤ
negate zero = pos 0
negate (suc n) = negsuc n

-- a value out of range becomes the nearest one in range
unfoldable pub clamp : Bool → ℕ → ℤ
unfolding negate
clamp true n = negate (min n (2 ^ 63))
clamp false n = pos (min n (2 ^ 63 - 1))

-- `none` where the end pointer is the start
unfoldable pub strtoll : Text → Option ℤ
unfolding skip_space sign clamp read_digits
strtoll s =
    let (minus, t) = sign (skip_space s) in
    if starts_with_digit t then some (clamp minus (read_digits 0 t).0) else none

-- the value with the same bits, of two times `half` values
unfoldable pub wrap : ℕ → ℤ → ℤ
wrap half (pos n) =
    let r = n % (2 * half) in if ltb r half then pos r else negsuc (2 * half - 1 - r)
wrap half (negsuc n) =
    let r = n % (2 * half) in if ltb r half then negsuc r else pos (2 * half - 1 - r)
