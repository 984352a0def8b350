-- ===== src/Analyzer/Step.antt =====
-- The match of `analyze` on one instruction, and the match on the callee of a call.
use sentinel_kv.Prelude.{◌||◌, Option, none, some, Text, text, text_beq, if◌then◌else◌}
use sentinel_kv.Ir.{
  Call, Instruction, alloca, call, get_element_ptr, ptr_to_int, int_to_ptr, bit_cast, store, load,
  other_instruction, function_name_of_call,
}
use sentinel_kv.Policy.{DmaPolicy, verify, require_iommu, ignore, is_fail}
use sentinel_kv.Analyzer.State.{State, Ctx, Site, Flow, next, stop}
use sentinel_kv.Analyzer.Heap.{kmalloc_call, kcalloc_call, kfree_call}
use sentinel_kv.Analyzer.Memory.{memset_call, memcpy_call, store_instr, load_instr}
use sentinel_kv.Analyzer.Dma.{asm_call, dma_alloc_call, dma_map_call, iommu_map_call}
use sentinel_kv.Analyzer.Pointers.{
  alloca_instr, gep_instr, ptr_to_int_instr, int_to_ptr_instr, add_instr, sub_instr, bit_cast_instr,
}

-- The arms of `match function_name_of_call(call)`.
pub data Callee : Type 0 where
  kmalloc kcalloc kfree memset memcpy no_name dma_alloc dma_map iommu_map other_call : Callee

-- the guard of the two DMA arms
unfoldable pub unless_ignored : DmaPolicy → Callee → Callee
unless_ignored ignore c = Callee.other_call
unless_ignored verify c = c
unless_ignored require_iommu c = c

unfoldable pub callee_named : DmaPolicy → Text → Callee
unfolding unless_ignored
callee_named policy s =
    if text_beq s (text "kmalloc") || text_beq s (text "kzalloc")
    then Callee.kmalloc
    else if text_beq s (text "kcalloc")
    then Callee.kcalloc
    else if text_beq s (text "kfree")
    then Callee.kfree
    else if text_beq s (text "memset")
    then Callee.memset
    else if text_beq s (text "memcpy") || text_beq s (text "__memcpy")
    then Callee.memcpy
    else if text_beq s (text "dma_alloc_coherent")
    then unless_ignored policy Callee.dma_alloc
    else if text_beq s (text "dma_map_single")
    then unless_ignored policy Callee.dma_map
    else if text_beq s (text "iommu_map")
    then Callee.iommu_map
    else Callee.other_call

unfoldable pub callee_of : DmaPolicy → Option Text → Callee
unfolding callee_named
callee_of policy none = Callee.no_name
callee_of policy (some s) = callee_named policy s

unfoldable pub dispatch : Ctx → Site → Call → Callee → State → Flow
dispatch ctx site c Callee.kmalloc s = kmalloc_call c s
dispatch ctx site c Callee.kcalloc s = kcalloc_call c s
dispatch ctx site c Callee.kfree s = kfree_call site c s
dispatch ctx site c Callee.memset s = memset_call ctx site c s
dispatch ctx site c Callee.memcpy s = memcpy_call ctx site c s
dispatch ctx site c Callee.no_name s = asm_call ctx.inline_asm_policy site c.function s
dispatch ctx site c Callee.dma_alloc s = dma_alloc_call site c s
dispatch ctx site c Callee.dma_map s = dma_map_call ctx site c s
dispatch ctx site c Callee.iommu_map s = iommu_map_call s
dispatch ctx site c Callee.other_call s = next s

unfoldable pub call_instr : Ctx → Site → Call → State → Flow
unfolding dispatch
call_instr ctx site c s =
    if is_fail s.final_result
    then stop s
    else dispatch ctx site c (callee_of ctx.dma_policy (function_name_of_call c)) s

unfoldable pub step : Ctx → Site → Instruction → State → Flow
step ctx site (alloca dest) s = next (alloca_instr dest s)
step ctx site (call c) s = call_instr ctx site c s
step ctx site (get_element_ptr gep) s = next (gep_instr ctx gep s)
step ctx site (ptr_to_int op dest) s = next (ptr_to_int_instr op dest s)
step ctx site (int_to_ptr op dest) s = next (int_to_ptr_instr op dest s)
step ctx site (Instruction.add op0 op1 dest) s = next (add_instr op0 op1 dest s)
step ctx site (Instruction.sub op0 op1 dest) s = next (sub_instr op0 op1 dest s)
step ctx site (bit_cast op dest) s = next (bit_cast_instr op dest s)
step ctx site (store address value) s = store_instr ctx site address value s
step ctx site (load address dest loaded_ty) s = load_instr ctx site address dest loaded_ty s
step ctx site other_instruction s = next s
