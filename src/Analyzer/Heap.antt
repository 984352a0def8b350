-- ===== src/Analyzer/Heap.antt =====
-- The arms of `analyze` for `kmalloc`, `kzalloc`, `kcalloc` and `kfree`.
use sentinel_kv.Prelude.{ℕ, Option, none, some, text, get, add, nat_eq, get_elem?}
use sentinel_kv.Prelude.Int.{ℤ, pos}
use sentinel_kv.Ir.{Call, name_eq, operand_const_u64, operand_local_name}
use sentinel_kv.Layout.Size.{checked_mul}
use sentinel_kv.Analyzer.State.{
  State, Site, PtrVal, kmalloc, Flow, next, fail_with, set_dest, fresh_alloc, or_mark, or_continue,
  or_freed, in_function,
}

-- A new allocation of `size` bytes, bound to the call's result.
unfoldable pub allocate : Call → ℕ → State → State
allocate c size s = set_dest c.dest (kmalloc s.alloc_counter (pos 0)) (fresh_alloc size s)

unfoldable pub kmalloc_call : Call → State → Flow
kmalloc_call c s =
    or_mark (get_elem? c.arguments 0) (text "kmalloc/kzalloc missing size argument") s λ size_op.
      or_mark (operand_const_u64 size_op)
        (text "kmalloc/kzalloc with non-constant size unsupported") s
        λ size. next (allocate c size s)

-- both operands must be constants
unfoldable pub both_const : Option ℕ → Option ℕ → Option (ℕ × ℕ)
both_const (some nmemb) (some elem_size) = some (nmemb, elem_size)
both_const _ _ = none

-- `let Some(total_size) = … else { final_result = Fail(…); break; };`
unfoldable pub calloc_total : Call → Option ℕ → State → Flow
calloc_total c none s = fail_with (text "kcalloc size multiplication overflow") s
calloc_total c (some total_size) s = next (allocate c total_size s)

unfoldable pub kcalloc_call : Call → State → Flow
kcalloc_call c s =
    or_mark (get_elem? c.arguments 0) (text "kcalloc missing nmemb argument") s λ nmemb_op.
      or_mark (get_elem? c.arguments 1) (text "kcalloc missing size argument") s λ size_op.
        or_mark (both_const (operand_const_u64 nmemb_op) (operand_const_u64 size_op))
          (text "kcalloc with non-constant nmemb/size unsupported") s
          λ (nmemb, elem_size). calloc_total c (checked_mul nmemb elem_size) s

-- the allocation of a `PtrVal::Kmalloc`, which is all that some arms look at
unfoldable pub kmalloc_of : Option PtrVal → Option (ℕ × ℤ)
kmalloc_of (some (kmalloc alloc_id offset)) = some (alloc_id, offset)
kmalloc_of _ = none

unfoldable pub kfree_call : Site → Call → State → Flow
kfree_call site c s =
    or_mark (get_elem? c.arguments 0) (text "kfree missing pointer argument") s λ ptr_op.
      or_mark (operand_local_name ptr_op) (text "kfree on non-local operand unsupported") s λ n.
        or_continue (kmalloc_of (get n s.ptr_env)) s λ (alloc_id, _).
          or_freed alloc_id (in_function (text "Double free detected in function ") site) s
            (next (record s { freed_allocs = add alloc_id s.freed_allocs }))
