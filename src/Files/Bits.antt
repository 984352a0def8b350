-- ===== src/Files/Bits.antt =====
-- The bits that the masks of skv-analyzer/src/main.rs ask for in the mode of a file.
use Prim.Native.Nat.{min, bit_and, bit_and-bitwise, digits}
use sentinel_kv.Prelude.{ℕ, zero, suc, ◌+◌, ◌*◌, ◌/◌, ◌%◌, ◌≤◌, ◌≡◌, ◌↔◌, refl, false, arith}
use sentinel_kv.Files.{others_write}

-- what the native operation stands for, on so many binary digits
abbrev conjoined : ℕ → ℕ → ℕ → ℕ
conjoined fuel mode mask = digits (λ b. zero) min fuel mode mask

-- digits behind the last one add nothing
conjoined_more :
    (j k mode mask : ℕ) → mode ≤ j → mode ≤ k → conjoined j mode mask ≡ conjoined k mode mask
conjoined_more zero zero mode mask p q = refl
conjoined_more zero (suc k) zero mask p q = refl
conjoined_more (suc j) zero zero mask p q = refl
conjoined_more (suc j) (suc k) zero mask p q = refl
conjoined_more zero k (suc mode) mask p q = absurd (omega arith)
conjoined_more (suc j) zero (suc mode) mask p q = absurd (omega arith)
conjoined_more (suc j) (suc k) (suc mode) mask p q =
    omega (arith, conjoined_more j k (suc mode / 2) (mask / 2) (omega arith) (omega arith))

-- one binary digit of a conjunction
bit_and-digit :
    (mode mask : ℕ)
    → bit_and mode mask ≡ min (mode % 2) (mask % 2) + bit_and (mode / 2) (mask / 2) * 2
bit_and-digit zero mask = omega (arith, bit_and-bitwise 0 mask, bit_and-bitwise 0 (mask / 2))
bit_and-digit (suc mode) mask = omega (
  arith,
  bit_and-bitwise (suc mode) mask,
  bit_and-bitwise (suc mode / 2) (mask / 2),
  conjoined_more mode (suc mode / 2) (suc mode / 2) (mask / 2) (omega arith) (omega arith),
)

no_mask : (fuel mode : ℕ) → mode ≤ fuel → bit_and mode 0 ≡ 0
no_mask fuel zero h = omega (arith, bit_and-bitwise 0 0)
no_mask zero (suc mode) h = absurd (omega arith)
no_mask (suc fuel) (suc mode) h =
    omega (arith, bit_and-digit (suc mode) 0, no_mask fuel (suc mode / 2) (omega arith))

-- the bits 1 and 4 of a mode: write for others and for the group
masked : (mode : ℕ) → bit_and mode 0o22 ≡ (mode / 2 % 2) * 2 + (mode / 16 % 2) * 16
masked mode = omega (
  arith,
  bit_and-digit mode 18,
  bit_and-digit (mode / 2) 9,
  bit_and-digit (mode / 2 / 2) 4,
  bit_and-digit (mode / 2 / 2 / 2) 2,
  bit_and-digit (mode / 2 / 2 / 2 / 2) 1,
  no_mask (mode / 2 / 2 / 2 / 2 / 2) (mode / 2 / 2 / 2 / 2 / 2) (omega arith),
)

-- Neither the bit 4 (write for the group) nor the bit 1 (write for others) is set.
pub others_write-bits :
    (mode : ℕ) → (others_write mode ≡ false) ↔ ((mode / 16 % 2 ≡ 0) × (mode / 2 % 2 ≡ 0))
unfolding others_write
others_write-bits mode = (
  (λ h. (ground (arith, masked mode), ground (arith, masked mode))),
  (λ (g, o). ground (arith, masked mode)),
)
