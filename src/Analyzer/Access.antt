-- ===== src/Analyzer/Access.antt =====
-- What it means for an access to be safe, apart from the code that checks it: which memory an
-- instruction reads or writes through a tracked pointer, and that this memory is allocated.
use sentinel_kv.Prelude.{
  ℕ, ◌≡◌, false, Option, none, some, List, [], ◌∷◌, ◌++◌, All, get, contains, nat_eq, get_elem?,
}
use sentinel_kv.Prelude.Int.{ℤ, pos, ◌+ℤ◌, ◌≤ℤ◌}
use sentinel_kv.Ir.{
  Operand, Name, Ty, Call, name_eq, Instruction, call, store, load, operand_const_u64,
  operand_local_name, function_name_of_call,
}
use sentinel_kv.Layout.Size.{type_size}
use sentinel_kv.Analyzer.State.{State, Ctx}
use sentinel_kv.Analyzer.Heap.{kmalloc_of}
use sentinel_kv.Analyzer.Memory.{tracked, reload}
use sentinel_kv.Analyzer.Step.{Callee, callee_of}

-- `size` bytes at `offset` of an allocation; `none` where the type has no known size
pub record Access : Type 0 where
  pub alloc_id : ℕ
  pub offset : ℤ
  pub size : Option ℕ

-- `size` bytes at `offset` lie within `total` bytes
abbrev pub Fits : ℤ → ℤ → ℕ → Type 0
Fits total offset size = (pos 0 ≤ℤ offset) × (offset +ℤ pos size ≤ℤ total)

abbrev pub FitsIn : Option ℤ → ℤ → Option ℕ → Type 0
FitsIn (some total) offset (some size) = Fits total offset size
FitsIn total offset size = ⊥

-- The allocation is live, has a size, and holds all bytes of the access.
abbrev pub InBounds : State → Access → Type 0
InBounds s a =
    (contains a.alloc_id s.freed_allocs ≡ false)
    × FitsIn (get a.alloc_id s.alloc_sizes) a.offset a.size

unfoldable pub given : {A : Type 0} → Option A → (A → List Access) → List Access
given none f = []
given (some a) f = f a

unfoldable pub at : Option ℕ → ℕ × ℤ → List Access
at size (id, off) = record { alloc_id = id; offset = off; size = size } ∷ []

-- the memory behind a pointer of the kmalloc family
unfoldable pub kmalloc_access : State → ℕ → Operand → List Access
kmalloc_access s len op =
    given (operand_local_name op) λ n. given (kmalloc_of (get n s.ptr_env)) (at (some len))

unfoldable pub memset_accesses : State → Call → List Access
memset_accesses s c = given (get_elem? c.arguments 0) λ dest_op.
    given (get_elem? c.arguments 2) λ len_op. given (operand_local_name dest_op) λ n.
      given (operand_const_u64 len_op) λ len. given (kmalloc_of (get n s.ptr_env)) (at (some len))

unfoldable pub memcpy_accesses : State → Call → List Access
memcpy_accesses s c = given (get_elem? c.arguments 0) λ dest_op.
    given (get_elem? c.arguments 1) λ src_op. given (get_elem? c.arguments 2) λ len_op.
      given (operand_const_u64 len_op)
        λ len. kmalloc_access s len dest_op ++ kmalloc_access s len src_op

unfoldable pub call_accesses : State → Call → Callee → List Access
call_accesses s c Callee.memset = memset_accesses s c
call_accesses s c Callee.memcpy = memcpy_accesses s c
call_accesses s c _ = []

unfoldable pub store_accesses : Ctx → State → Operand → Operand → List Access
store_accesses ctx s address value = given (operand_local_name address) λ n.
    given (tracked n s) (at (type_size ctx.type_depth ctx.module_ir (ctx.module_ir.type_of value)))

-- A load from a stack slot first takes back the pointer that was spilled there.
unfoldable pub load_accesses : Ctx → State → Operand → Name → Ty → List Access
load_accesses ctx s address dest loaded_ty =
    given (operand_local_name address) λ n.
      given (tracked n (reload n dest s)) (at (type_size ctx.type_depth ctx.module_ir loaded_ty))

-- The memory that one instruction reads or writes through tracked pointers. (`dma_map_single` hands
-- memory to a device and touches none itself.)
unfoldable pub accesses : Ctx → State → Instruction → List Access
accesses ctx s (call c) = call_accesses s c (callee_of ctx.dma_policy (function_name_of_call c))
accesses ctx s (store address value) = store_accesses ctx s address value
accesses ctx s (load address dest loaded_ty) = load_accesses ctx s address dest loaded_ty
accesses ctx s _ = []

-- All accesses of a list are safe.
pub record AreInBounds (s : State) (l : List Access) : Type 0 where
  pub each : All (InBounds s) l
