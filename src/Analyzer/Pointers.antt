-- ===== src/Analyzer/Pointers.antt =====
-- The arms of `analyze` that move a pointer or an integer made from one: `getelementptr`,
-- `ptrtoint`, `inttoptr`, `add`, `sub`, `bitcast`, `alloca`.
use sentinel_kv.Prelude.{
  ℕ, Bool, ◌||◌, Option, none, some, Text, text, get, add, is_some, if◌then◌else◌, ◌>>=◌,
}
use sentinel_kv.Prelude.Int.{ℤ, pos, ◌+ℤ◌, ◌-ℤ◌}
use sentinel_kv.Ir.{Operand, Name, name_eq, GetElementPtr, operand_const_u64, operand_local_name}
use sentinel_kv.Layout.Size.{infer_gep_offset}
use sentinel_kv.Analyzer.State.{
  State, Ctx, PtrVal, kmalloc, dma_alloc, IntVal, ptr_offset, mark, set_ptr, set_int,
}

unfoldable pub alloca_instr : Name → State → State
alloca_instr dest s = record s { alloca_names = add dest s.alloca_names }

-- `a.or_else(|| b)`
unfoldable pub or_else {ℓ} : {A : Type ℓ} → Option A → Option A → Option A
or_else none b = b
or_else (some a) b = some a

-- the new offset, or `Unknown` with the reason
unfoldable pub gep_result : Name → (ℤ → PtrVal) → Text → Option ℤ → State → State
gep_result dest pointer reason (some new_offset) s = set_ptr dest (pointer new_offset) s
gep_result dest pointer reason none s = mark reason (set_ptr dest PtrVal.unknown s)

unfoldable pub gep_from : Ctx → GetElementPtr → Option PtrVal → State → State
gep_from ctx gep (some (kmalloc alloc_id offset)) s =
    gep_result gep.dest (kmalloc alloc_id) (text "GEP with unsupported index/type pattern")
      (infer_gep_offset ctx.type_depth ctx.module_ir gep offset) s
gep_from ctx gep (some (dma_alloc alloc_id offset)) s =
    gep_result gep.dest (dma_alloc alloc_id) (text "GEP with unsupported index/type pattern (DMA)")
      (infer_gep_offset ctx.type_depth ctx.module_ir gep offset) s
gep_from ctx gep (some PtrVal.unknown) s = set_ptr gep.dest PtrVal.unknown s
gep_from ctx gep none s = set_ptr gep.dest PtrVal.unknown s

unfoldable pub gep_at : Ctx → GetElementPtr → Option Name → State → State
gep_at ctx gep (some base_name) s =
    gep_from ctx gep (or_else (get base_name s.ptr_env) (get base_name s.alloca_store_map)) s
gep_at ctx gep none s =
    mark (text "GEP base is not a local operand") (set_ptr gep.dest PtrVal.unknown s)

unfoldable pub gep_instr : Ctx → GetElementPtr → State → State
gep_instr ctx gep s = gep_at ctx gep (operand_local_name gep.address) s

unfoldable pub int_of_ptr : Option PtrVal → IntVal
int_of_ptr (some (kmalloc alloc_id offset)) = ptr_offset alloc_id offset
int_of_ptr _ = IntVal.unknown

unfoldable pub ptr_to_int_at : Option Name → Name → State → State
ptr_to_int_at (some base_name) dest s = set_int dest (int_of_ptr (get base_name s.ptr_env)) s
ptr_to_int_at none dest s =
    mark (text "PtrToInt from non-local operand unsupported") (set_int dest IntVal.unknown s)

unfoldable pub ptr_to_int_instr : Operand → Name → State → State
ptr_to_int_instr op dest s = ptr_to_int_at (operand_local_name op) dest s

unfoldable pub ptr_of_int : Option IntVal → PtrVal
ptr_of_int (some (ptr_offset alloc_id offset)) = kmalloc alloc_id offset
ptr_of_int _ = PtrVal.unknown

unfoldable pub int_to_ptr_at : Option Name → Name → State → State
int_to_ptr_at (some base_name) dest s = set_ptr dest (ptr_of_int (get base_name s.int_env)) s
int_to_ptr_at none dest s =
    mark (text "IntToPtr from non-local operand unsupported") (set_ptr dest PtrVal.unknown s)

unfoldable pub int_to_ptr_instr : Operand → Name → State → State
int_to_ptr_instr op dest s = int_to_ptr_at (operand_local_name op) dest s

-- `operand_local_name(op).and_then(|n| int_env.get(n))`
unfoldable pub int_of : Operand → State → Option IntVal
int_of op s = operand_local_name op >>= λ n. get n s.int_env

-- `int_const_ast(op).map(|c| IntVal::PtrOffset { alloc_id, offset: offset + c })`
unfoldable pub shift_up : ℕ → ℤ → Option ℕ → Option IntVal
shift_up alloc_id offset none = none
shift_up alloc_id offset (some c) = some (ptr_offset alloc_id (offset +ℤ pos c))

unfoldable pub shift_down : ℕ → ℤ → Option ℕ → Option IntVal
shift_down alloc_id offset none = none
shift_down alloc_id offset (some c) = some (ptr_offset alloc_id (offset -ℤ pos c))

unfoldable pub add_out : Option IntVal → Option IntVal → Option ℕ → Option ℕ → Option IntVal
add_out (some (ptr_offset alloc_id offset)) rhs const0 const1 = shift_up alloc_id offset const1
add_out lhs (some (ptr_offset alloc_id offset)) const0 const1 = shift_up alloc_id offset const0
add_out lhs rhs const0 const1 = none

unfoldable pub sub_out : Option IntVal → Option ℕ → Option IntVal
sub_out (some (ptr_offset alloc_id offset)) const1 = shift_down alloc_id offset const1
sub_out _ const1 = none

-- `if let Some(v) = out { … } else if tracked { … }`
unfoldable pub put_int : Option IntVal → Bool → Name → Text → State → State
put_int (some v) was_tracked dest reason s = set_int dest v s
put_int none was_tracked dest reason s =
    if was_tracked then mark reason (set_int dest IntVal.unknown s) else s

unfoldable pub add_instr : Operand → Operand → Name → State → State
add_instr operand0 operand1 dest s =
    let lhs_ptr = int_of operand0 s in
    let rhs_ptr = int_of operand1 s in
    put_int (add_out lhs_ptr rhs_ptr (operand_const_u64 operand0) (operand_const_u64 operand1))
      (is_some lhs_ptr || is_some rhs_ptr) dest
      (text "Unsupported pointer-derived integer add pattern") s

unfoldable pub sub_instr : Operand → Operand → Name → State → State
sub_instr operand0 operand1 dest s =
    let lhs_ptr = int_of operand0 s in
    let rhs_ptr = int_of operand1 s in
    let s' =
      put_int (sub_out lhs_ptr (operand_const_u64 operand1)) (is_some lhs_ptr || is_some rhs_ptr)
        dest (text "Unsupported pointer-derived integer sub pattern") s in
    if is_some rhs_ptr
    then mark (text "Subtracting pointer-derived integer as RHS is unsupported") s'
    else s'

unfoldable pub or_unknown : Option PtrVal → PtrVal
or_unknown (some v) = v
or_unknown none = PtrVal.unknown

unfoldable pub bit_cast_at : Option Name → Name → State → State
bit_cast_at (some base_name) dest s = set_ptr dest (or_unknown (get base_name s.ptr_env)) s
bit_cast_at none dest s =
    mark (text "BitCast from non-local operand unsupported") (set_ptr dest PtrVal.unknown s)

unfoldable pub bit_cast_instr : Operand → Name → State → State
bit_cast_instr op dest s = bit_cast_at (operand_local_name op) dest s
