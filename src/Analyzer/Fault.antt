-- ===== src/Analyzer/Fault.antt =====
-- What can be wrong with one instruction, apart from the code that finds it (`analyze` of
-- skv-analyzer/src/main.rs).
use sentinel_kv.Prelude.{
  ℕ, ◌*◌, ◌^◌, ◌≤◌, ◌≡◌, true, some, List, [], ◌∷◌, Text, get, contains, nat_eq, get_elem?, ◌⊎◌,
}
use sentinel_kv.Prelude.Int.{ℤ}
use sentinel_kv.Ir.{
  Operand, Name, name_eq, Call, Instruction, call, inline_assembly, operand_const_u64,
  operand_local_name, function_name_of_call,
}
use sentinel_kv.Policy.{trap}
use sentinel_kv.Analyzer.State.{State, Ctx}
use sentinel_kv.Analyzer.Heap.{kmalloc_of}
use sentinel_kv.Analyzer.Memory.{tracked}
use sentinel_kv.Analyzer.Step.{Callee, callee_of}
use sentinel_kv.Analyzer.Access.{Access, Fits, accesses}

-- The allocation of the access was freed, or does not hold all of its bytes.
abbrev pub Violates : State → Access → Type 0
Violates s a =
    (contains a.alloc_id s.freed_allocs ≡ true)
    ⊎ ((total : ℤ) × (size : ℕ) × (get a.alloc_id s.alloc_sizes ≡ some total)
        × (a.size ≡ some size)
        × (¬ Fits total a.offset size))

-- one of the accesses
abbrev pub AnyOf : (Access → Type 0) → List Access → Type 0
AnyOf P [] = ⊥
AnyOf P (a ∷ l) = P a ⊎ AnyOf P l

-- the faults of a call other than those of its accesses, by the arm that it takes
pub data CallFault (ctx : Ctx) (s : State) (c : Call) : Callee → Type 0 where
  double_free :
      (op : Operand) (n : Name) (id : ℕ) (offset : ℤ)
      → get_elem? c.arguments 0 ≡ some op
      → operand_local_name op ≡ some n
      → kmalloc_of (get n s.ptr_env) ≡ some (id, offset)
      → contains id s.freed_allocs ≡ true
      → CallFault ctx s c Callee.kfree
  size_overflow :
      (nmemb_op size_op : Operand) (nmemb size : ℕ)
      → get_elem? c.arguments 0 ≡ some nmemb_op
      → get_elem? c.arguments 1 ≡ some size_op
      → operand_const_u64 nmemb_op ≡ some nmemb
      → operand_const_u64 size_op ≡ some size
      → 2 ^ 64 ≤ nmemb * size
      → CallFault ctx s c Callee.kcalloc
  trapped :
      (assembly : Text)
      → ctx.inline_asm_policy ≡ trap
      → c.function ≡ inline_assembly assembly
      → CallFault ctx s c Callee.no_name
  dma_overrun :
      (ptr_op size_op : Operand) (n : Name) (id : ℕ) (offset total : ℤ) (map_size : ℕ)
      → get_elem? c.arguments 1 ≡ some ptr_op
      → get_elem? c.arguments 2 ≡ some size_op
      → operand_const_u64 size_op ≡ some map_size
      → operand_local_name ptr_op ≡ some n
      → tracked n s ≡ some (id, offset)
      → get id s.alloc_sizes ≡ some total
      → ¬ Fits total offset map_size
      → CallFault ctx s c Callee.dma_map

-- the faults of an instruction: one of an access, or another one of a call
pub data Fault (ctx : Ctx) (s : State) : Instruction → Type 0 where
  of_access : {i : Instruction} → AnyOf (Violates s) (accesses ctx s i) → Fault ctx s i
  of_call :
      {c : Call}
      → CallFault ctx s c (callee_of ctx.dma_policy (function_name_of_call c))
      → Fault ctx s (call c)
