-- ===== src/Analyzer/Memory.antt =====
-- The arms of `analyze` that check an access against the bounds of its allocation: `memset`,
-- `memcpy`, store and load, with the IRQ race check of the latter two.
use sentinel_kv.Prelude.{
  ℕ, ◌+◌, Option, none, some, ◌++◌, Text, text, decimal, get, insert, contains, nat_eq, get_elem?,
  if◌then◌else◌, ◌>>=◌,
}
use sentinel_kv.Prelude.Int.{ℤ}
use sentinel_kv.Ir.{Call, Operand, Name, Ty, name_eq, operand_const_u64, operand_local_name}
use sentinel_kv.Layout.Size.{type_size}
use sentinel_kv.Gate.{
  AccessCheckResult, oob, safe, solver_unknown, hitl_blocked, check_access, should_run_solver,
  vc_id, vc_class_id,
}
use sentinel_kv.Analyzer.State.{
  State, Ctx, Site, PtrVal, Flow, next, mark, fail_with, set_ptr, or_mark, or_continue, or_freed,
  and_then, break_if_failed, in_function, ptrval_alloc_info,
}
use sentinel_kv.Analyzer.Heap.{kmalloc_of}

abbrev pub site_vc : Site → Text → Text
site_vc site kind = vc_id site.function_name site.bb_idx site.instr_idx kind

-- the match on the result of `check_access`
unfoldable pub settle : AccessCheckResult → Text → Text → Text → State → Flow
settle oob out_of_bounds gave_up vc s = fail_with out_of_bounds s
settle safe out_of_bounds gave_up vc s = next s
settle solver_unknown out_of_bounds gave_up vc s = next (mark gave_up s)
settle hitl_blocked out_of_bounds gave_up vc s =
    next (mark (text "HITL gate blocked unapproved VC: " ++ vc) s)

-- `alloc_sizes.get(alloc_id)`, then `check_access` and the match on its result
unfoldable pub bounds_check : Ctx → ℕ → ℤ → ℕ → Text → Text → Text → Text → State → Flow
bounds_check ctx alloc_id offset size vc vc_class out_of_bounds gave_up s =
    or_mark (get alloc_id s.alloc_sizes) (text "Missing allocation size metadata") s λ alloc_size.
      let (r, g) = check_access ctx.solver alloc_size offset size vc vc_class s.gate in
      settle r out_of_bounds gave_up vc (record s { gate = g })

unfoldable pub memset_call : Ctx → Site → Call → State → Flow
memset_call ctx site c s = or_continue (get_elem? c.arguments 0) s λ dest_op.
    or_mark (get_elem? c.arguments 2) (text "memset missing length argument") s λ len_op.
      or_continue (operand_local_name dest_op) s λ dest_name.
        or_mark (operand_const_u64 len_op) (text "memset with non-constant length unsupported") s
          λ len. or_continue (kmalloc_of (get dest_name s.ptr_env)) s λ (alloc_id, offset).
            or_freed alloc_id (in_function (text "Use-after-free in memset in function ") site) s (
              bounds_check ctx alloc_id offset len (site_vc site (text "memset"))
                (vc_class_id (text "memset") len)
                (in_function (text "Out-of-bounds memset in function ") site)
                (text "Solver returned unknown for memset bound check") s)

-- one round of `for (op, kind) in [(dest_op, "destination"), (src_op, "source")]`
unfoldable pub memcpy_operand : Ctx → Site → ℕ → Operand → Text → State → Flow
memcpy_operand ctx site len op kind s = or_continue (operand_local_name op) s λ n.
    or_continue (kmalloc_of (get n s.ptr_env)) s λ (alloc_id, offset).
      or_freed alloc_id
        (in_function (text "Use-after-free in memcpy " ++ (kind ++ text " in function ")) site) s
        (bounds_check ctx alloc_id offset len (site_vc site (text "memcpy_" ++ kind))
          (vc_class_id (text "memcpy_" ++ kind) len)
          (in_function (text "Out-of-bounds memcpy " ++ (kind ++ text " in function ")) site)
          (text "Solver returned unknown for memcpy bound check") s)

unfoldable pub memcpy_call : Ctx → Site → Call → State → Flow
memcpy_call ctx site c s = or_continue (get_elem? c.arguments 0) s λ dest_op.
    or_mark (get_elem? c.arguments 1) (text "memcpy missing source argument") s λ src_op.
      or_mark (get_elem? c.arguments 2) (text "memcpy missing length argument") s λ len_op.
        or_mark (operand_const_u64 len_op) (text "memcpy with non-constant length unsupported") s
          λ len. break_if_failed (
            and_then (memcpy_operand ctx site len dest_op (text "destination") s)
              (memcpy_operand ctx site len src_op (text "source")))

-- the class of an IRQ race condition
abbrev pub irq_class : ℕ → Text
irq_class alloc_id = text "class::irq_race::alloc" ++ decimal alloc_id

-- `if has_irq_risk { … }` behind a store or a load; `what` is "store" or "load"
unfoldable pub irq_race_check : Ctx → Site → Text → ℕ → State → State
irq_race_check ctx site what alloc_id s =
    if ctx.has_irq_risk
    then (let vc = site_vc site (text "irq_race_" ++ what) in
        let (run, g) = should_run_solver vc (irq_class alloc_id) s.gate in
        mark
          (if run
            then text "Potential IRQ race: interrupt handler may free allocation "
              ++ (decimal alloc_id
                  ++ (text " before " ++ (what ++ (text " in " ++ site.function_name))))
            else text "HITL gate blocked IRQ race VC: " ++ vc)
          (record s { gate = g; irq_race_vcs = s.irq_race_vcs + 1 }))
    else s

-- the race check behind a bounds check, which a `continue` passes over where there is no size metadata
unfoldable pub race_after : Ctx → Site → Text → ℕ → Option ℤ → State → State
unfolding irq_race_check
race_after ctx site what alloc_id none s = s
race_after ctx site what alloc_id (some alloc_size) s = irq_race_check ctx site what alloc_id s

-- A store or a load through a tracked pointer; `size` is the size of the type that is accessed.
unfoldable pub tracked_access : Ctx → Site → Text → Text → Option ℕ → ℕ → ℤ → State → Flow
tracked_access ctx site what no_size access_size alloc_id offset s =
    or_freed alloc_id (in_function (text "Use-after-free " ++ (what ++ text " in function ")) site)
      s
      (or_mark access_size no_size s λ size.
        and_then
          (bounds_check ctx alloc_id offset size (site_vc site what) (vc_class_id what size)
            (in_function (text "Out-of-bounds " ++ (what ++ text " in function ")) site)
            (text "Solver returned unknown for " ++ (what ++ text " bound check")) s)
          λ s'. next (race_after ctx site what alloc_id (get alloc_id s.alloc_sizes) s'))

-- `if let Some(pv) = ptr_env.get(val_name).cloned() { alloca_store_map.insert(dest_name, pv); }`
unfoldable pub spill_value : Name → Option PtrVal → State → State
spill_value dest_name none s = s
spill_value dest_name (some pv) s = record s {
  alloca_store_map = insert dest_name pv s.alloca_store_map;
}

-- `if alloca_names.contains(dest_name) { if let LocalOperand = &store.value { … } }`
unfoldable pub spill : Name → Operand → State → State
spill dest_name value s =
    if contains dest_name s.alloca_names
    then spill_value dest_name (operand_local_name value >>= λ n. get n s.ptr_env) s
    else s

-- `if let Some(recovered_pv) = … { ptr_env.insert(load.dest.clone(), recovered_pv); }`
unfoldable pub reload_value : Name → Option PtrVal → State → State
reload_value dest none s = s
reload_value dest (some recovered_pv) s = set_ptr dest recovered_pv s

-- `if alloca_names.contains(src_name) { … alloca_store_map.get(src_name) … }`
unfoldable pub reload : Name → Name → State → State
reload src_name dest s =
    if contains src_name s.alloca_names
    then reload_value dest (get src_name s.alloca_store_map) s
    else s

-- the tracked allocation and offset behind a name, if there is one
unfoldable pub tracked : Name → State → Option (ℕ × ℤ)
tracked n s = get n s.ptr_env >>= ptrval_alloc_info

unfoldable pub store_instr : Ctx → Site → Operand → Operand → State → Flow
store_instr ctx site address value s = or_continue (operand_local_name address) s λ dest_name.
    let s' = spill dest_name value s in
    or_continue (tracked dest_name s') s' λ (alloc_id, offset).
      tracked_access ctx site (text "store") (text "Store with unknown value type size")
        (type_size ctx.type_depth ctx.module_ir (ctx.module_ir.type_of value)) alloc_id offset s'

unfoldable pub load_instr : Ctx → Site → Operand → Name → Ty → State → Flow
load_instr ctx site address dest loaded_ty s =
    or_continue (operand_local_name address) s λ src_name.
      let s' = reload src_name dest s in
      or_continue (tracked src_name s') s' λ (alloc_id, offset).
        tracked_access ctx site (text "load") (text "Load with unknown type size")
          (type_size ctx.type_depth ctx.module_ir loaded_ty) alloc_id offset s'
