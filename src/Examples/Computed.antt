-- ===== src/Examples/Computed.antt =====
-- The analyzer as one definition that computes: it unfolds all that a run uses.
use sentinel_kv.Prelude.{
  text, text_beq, starts_with, trim_start, trim, decimal, get, insert, contains, add, all,
}
use sentinel_kv.Prelude.Int.{◌+ℤ◌, ◌-ℤ◌}
use sentinel_kv.Ir.{Module, function_name_of_call, operand_const_u64, operand_local_name}
use sentinel_kv.Policy.{mark_unknown}
use sentinel_kv.Layout.Size.{
  checked_add, checked_mul, saturating_mul, resolve_named_type, struct_size, size_of_resolved,
  type_size, gep_elem_size, gep_scale, gep_loop, infer_gep_offset,
}
use sentinel_kv.Gate.{
  HitlGate, is_off, should_run_solver, enforce_hitl_policy, vc_id, vc_class_id, holds, of_answer,
  oob_condition, check_access,
}
use sentinel_kv.InlineAsm.{
  safe_asm_patterns, matches_any, is_empty, normalize_asm, is_safe_inline_asm,
}
use sentinel_kv.Irq.{
  calls, global_name, registered, insert_handler, handlers_instrs, handlers_blocks, handler_names,
  is_free, frees_instrs, frees_blocks, frees_functions, scan_irq_handlers,
}
use sentinel_kv.Analyzer.State.{
  init, ptrval_alloc_info, mark, fail_with, set_ptr, set_int, set_dest, fresh_alloc, or_mark,
  or_continue, and_then, break_if_failed, or_freed,
}
use sentinel_kv.Analyzer.Heap.{
  allocate, kmalloc_call, both_const, calloc_total, kcalloc_call, kmalloc_of, kfree_call,
}
use sentinel_kv.Analyzer.Memory.{
  settle, bounds_check, memset_call, memcpy_operand, memcpy_call, irq_race_check, race_after,
  tracked_access, spill_value, spill, reload_value, reload, tracked, store_instr, load_instr,
}
use sentinel_kv.Analyzer.Dma.{
  opaque_asm, asm_call, dma_alloc_call, settle_dma, dma_map_call, add_all, iommu_map_call,
  first_unmapped, unmapped_result, iommu_check,
}
use sentinel_kv.Analyzer.Pointers.{
  alloca_instr, gep_result, gep_from, gep_at, gep_instr, int_of_ptr, ptr_to_int_at,
  ptr_to_int_instr, ptr_of_int, int_to_ptr_at, int_to_ptr_instr, int_of, shift_up, shift_down,
  add_out, sub_out, put_int, add_instr, sub_instr, or_unknown, bit_cast_at, bit_cast_instr,
}
use sentinel_kv.Analyzer.Step.{unless_ignored, callee_named, callee_of, dispatch, call_instr, step}
use sentinel_kv.Analyzer.Run.{
  Setup, AnalysisOutcome, run_instrs, run_blocks, run_functions, final_state, distinct,
  count_distinct, is_empty_set, context, analyzed, outcome, analyze,
}

unfoldable pub computed : Setup → Module → HitlGate → AnalysisOutcome × HitlGate
unfolding text text_beq starts_with trim_start trim decimal get insert contains add all ◌+ℤ◌ ◌-ℤ◌
    function_name_of_call operand_const_u64 operand_local_name mark_unknown checked_add checked_mul
    saturating_mul resolve_named_type struct_size size_of_resolved type_size gep_elem_size gep_scale
    gep_loop infer_gep_offset is_off should_run_solver enforce_hitl_policy vc_id vc_class_id holds
    of_answer oob_condition check_access safe_asm_patterns matches_any is_empty normalize_asm
    is_safe_inline_asm calls global_name registered insert_handler handlers_instrs handlers_blocks
    handler_names is_free frees_instrs frees_blocks frees_functions scan_irq_handlers init
    ptrval_alloc_info mark fail_with set_ptr set_int set_dest fresh_alloc or_mark or_continue
    and_then break_if_failed or_freed allocate kmalloc_call both_const calloc_total kcalloc_call
    kmalloc_of kfree_call settle bounds_check memset_call memcpy_operand memcpy_call irq_race_check
    race_after tracked_access spill_value spill reload_value reload tracked store_instr load_instr
    opaque_asm asm_call dma_alloc_call settle_dma dma_map_call add_all iommu_map_call first_unmapped
    unmapped_result iommu_check alloca_instr gep_result gep_from gep_at gep_instr int_of_ptr
    ptr_to_int_at ptr_to_int_instr ptr_of_int int_to_ptr_at int_to_ptr_instr int_of shift_up
    shift_down add_out sub_out put_int add_instr sub_instr or_unknown bit_cast_at bit_cast_instr
    unless_ignored callee_named callee_of dispatch call_instr step run_instrs run_blocks
    run_functions final_state distinct count_distinct is_empty_set context analyzed outcome analyze
computed = analyze
