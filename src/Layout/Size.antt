-- ===== src/Layout/Size.antt =====
-- `resolve_named_type`, `type_size` and `infer_gep_offset` of skv-analyzer/src/main.rs.
use Prim.Native.Nat.{min}
use sentinel_kv.Prelude.{
  ℕ, zero, suc, ◌+◌, ◌-◌, ◌*◌, ◌/◌, ◌%◌, ◌^◌, Option, none, some, List, [], ◌∷◌, ltb, nat_beq,
  if◌then◌else◌, ◌>>=◌,
}
use sentinel_kv.Prelude.Int.{ℤ, pos, ◌+ℤ◌}
use sentinel_kv.Ir.{
  Ty, Tys, integer_type, pointer_type, array_type, struct_type, named_struct_type, other_type,
  defined, Operand, GetElementPtr, Module, operand_const_u64,
}

abbrev pub u64_size : ℕ
u64_size = 2 ^ 64

unfoldable pub checked_add : ℕ → ℕ → Option ℕ
checked_add a b = if ltb (a + b) u64_size then some (a + b) else none

unfoldable pub checked_mul : ℕ → ℕ → Option ℕ
checked_mul a b = if ltb (a * b) u64_size then some (a * b) else none

unfoldable pub saturating_mul : ℕ → ℕ → ℕ
saturating_mul a b = min (a * b) (u64_size - 1)

unfoldable pub resolve_named_type : ℕ → Module → Ty → Option Ty
resolve_named_type zero m ty = none
resolve_named_type (suc f) m (named_struct_type n) = elim (m.named_struct_def n) [
  | some (defined inner) ↦ resolve_named_type f m inner
  | _ ↦ none
]
resolve_named_type (suc f) m ty = some ty

-- the loop over the fields of a struct, with the running total
unfoldable pub struct_size : (Ty → Option ℕ) → ℕ → Tys → Option ℕ
unfolding checked_add
struct_size size total Tys.nil = some total
struct_size size total (Tys.cons elem rest) = do
  s ← size elem
  t ← checked_add total s
  struct_size size t rest

-- The product for an array is a plain `*` on u64, which wraps in a release build.
unfoldable pub size_of_resolved : (Ty → Option ℕ) → Ty → Option ℕ
unfolding struct_size
size_of_resolved size (integer_type bits) = some ((bits + 7) / 8)
size_of_resolved size pointer_type = some 8
size_of_resolved size (array_type elem n) = do s ← size elem; some (s * n % u64_size)
size_of_resolved size (struct_type elems) = struct_size size 0 elems
size_of_resolved size (named_struct_type n) = none
size_of_resolved size other_type = none

unfoldable pub type_size : ℕ → Module → Ty → Option ℕ
unfolding size_of_resolved
type_size zero m ty = none
type_size (suc f) m ty = do
  resolved ← resolve_named_type f m ty
  size_of_resolved (type_size f m) resolved

-- the element size that scales the first index
unfoldable pub gep_elem_size : ℕ → Module → Ty → Option ℕ
gep_elem_size f m pointer_type = some 8
gep_elem_size f m other = type_size f m other

-- one round of the loop over the indices
unfoldable pub gep_scale : ℕ → Module → GetElementPtr → ℕ → ℕ → Option ℕ
unfolding gep_elem_size saturating_mul
gep_scale f m gep i idx_val =
    if nat_beq i 0
    then (do s ← gep_elem_size f m (m.type_of gep.address); some (saturating_mul idx_val s))
    else some (saturating_mul idx_val 4)

unfoldable pub gep_loop : ℕ → Module → GetElementPtr → ℕ → List Operand → ℤ → Option ℤ
unfolding gep_scale operand_const_u64
gep_loop f m gep i [] computed = some computed
gep_loop f m gep i (idx ∷ rest) computed = do
  idx_val ← operand_const_u64 idx
  bytes ← gep_scale f m gep i idx_val
  gep_loop f m gep (i + 1) rest (computed +ℤ pos bytes)

unfoldable pub infer_gep_offset : ℕ → Module → GetElementPtr → ℤ → Option ℤ
unfolding gep_loop
infer_gep_offset f m gep base_offset = gep_loop f m gep 0 gep.indices base_offset
