-- ===== src/Layout/Bounds.antt =====
-- How far `infer_gep_offset` of skv-analyzer/src/main.rs moves a pointer.
use sentinel_kv.Prelude.{
  >>=-eq-some, ℕ, suc, ◌+◌, ◌*◌, ◌≤◌, ◌≡◌, some, List, [], ◌∷◌, length, nat_beq, ◌>>=◌,
  if◌then◌else◌, Bool, true, false, arith,
}
use sentinel_kv.Prelude.Int.{ℤ, pos, ◌+ℤ◌, ◌≤ℤ◌}
use sentinel_kv.Ir.{GetElementPtr, Module, Operand, operand_const_u64}
use sentinel_kv.Layout.Size.{saturating_mul, gep_elem_size, gep_scale, gep_loop, infer_gep_offset}

abbrev pub u64_max : ℕ
u64_max = 18446744073709551615

saturating_mul-le : (a b : ℕ) → saturating_mul a b ≤ u64_max
unfolding saturating_mul
saturating_mul-le a b = omega arith

some-le : {a b k : ℕ} → a ≤ k → some a ≡ some b → b ≤ k
some-le le e = ground arith

gep_scale-le :
    (f : ℕ) (m : Module) (gep : GetElementPtr) (i idx bytes : ℕ)
    → gep_scale f m gep i idx ≡ some bytes
    → bytes ≤ u64_max
unfolding gep_scale
gep_scale-le f m gep i idx bytes = go (nat_beq i 0)
  where
    go :
        (b : Bool)
        → (if b
            then (do s ← gep_elem_size f m (m.type_of gep.address); some (saturating_mul idx s))
            else some (saturating_mul idx 4))
          ≡ some bytes
        → bytes ≤ u64_max
    go true h =
        let (s, _, e) = >>=-eq-some (gep_elem_size f m (m.type_of gep.address)) _ h in
        some-le (saturating_mul-le idx s) e
    go false h = some-le (saturating_mul-le idx 4) h

step_up :
    (a o : ℤ) (b n : ℕ)
    → b ≤ u64_max
    → (a +ℤ pos b ≤ℤ o) × (o ≤ℤ (a +ℤ pos b) +ℤ pos (n * u64_max))
    → (a ≤ℤ o) × (o ≤ℤ a +ℤ pos (suc n * u64_max))
unfolding ◌+ℤ◌
step_up a o b n le h = ground arith

gep_loop_bounds :
    (f : ℕ) (m : Module) (gep : GetElementPtr) (i : ℕ) (l : List Operand) (computed o : ℤ)
    → gep_loop f m gep i l computed ≡ some o
    → (computed ≤ℤ o) × (o ≤ℤ computed +ℤ pos (length l * u64_max))
unfolding gep_loop
gep_loop_bounds f m gep i [] computed o h = unfold ◌+ℤ◌ in ground arith
gep_loop_bounds f m gep i (idx ∷ rest) computed o h =
    let (value, _, h1) = >>=-eq-some (operand_const_u64 idx) _ h in
    let (bytes, scaled, h2) = >>=-eq-some (gep_scale f m gep i value) _ h1 in
    step_up computed o bytes (length rest) (gep_scale-le f m gep i value bytes scaled)
      (gep_loop_bounds f m gep (i + 1) rest (computed +ℤ pos bytes) o h2)

-- An offset that `infer_gep_offset` finds is not below the one of the base pointer, and it is above it
-- by at most 2^64 - 1 bytes for each index.
pub infer_gep_offset_bounds :
    (f : ℕ) (m : Module) (gep : GetElementPtr) (base_offset o : ℤ)
    → infer_gep_offset f m gep base_offset ≡ some o
    → (base_offset ≤ℤ o) × (o ≤ℤ base_offset +ℤ pos (length gep.indices * u64_max))
unfolding infer_gep_offset
infer_gep_offset_bounds f m gep base_offset o h =
    gep_loop_bounds f m gep 0 gep.indices base_offset o h
