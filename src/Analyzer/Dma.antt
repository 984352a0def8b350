-- ===== src/Analyzer/Dma.antt =====
-- The arms of `analyze` for inline assembly, `dma_alloc_coherent`, `dma_map_single` and `iommu_map`,
-- and the check behind the loops for the policy `require-iommu`.
use sentinel_kv.Prelude.{
  ℕ, ◌+◌, Option, none, some, List, [], ◌∷◌, ◌++◌, Text, text, decimal, get, add, contains, nat_eq,
  get_elem?, if◌then◌else◌,
}
use sentinel_kv.Prelude.Int.{pos}
use sentinel_kv.Ir.{
  Call, Target, inline_assembly, operand, name_eq, operand_const_u64, operand_local_name,
}
use sentinel_kv.InlineAsm.{is_safe_inline_asm}
use sentinel_kv.Policy.{
  InlineAsmPolicy, conservative, trap, DmaPolicy, verify, require_iommu, ignore, AnalysisResult,
  fail,
}
use sentinel_kv.Gate.{
  AccessCheckResult, oob, safe, solver_unknown, hitl_blocked, check_access, should_run_solver,
  vc_class_id,
}
use sentinel_kv.Analyzer.State.{
  State, Ctx, Site, dma_alloc, Flow, next, mark, fail_with, set_dest, fresh_alloc, or_mark,
  or_continue, in_function,
}
use sentinel_kv.Analyzer.Memory.{site_vc, tracked}

-- the class of an opaque inline assembly, for the gate
abbrev pub asm_class : Text
asm_class = text "class::inline_asm::opaque"

unfoldable pub opaque_asm : Site → Text → State → Flow
opaque_asm site assembly s =
    let vc = site_vc site (text "inline_asm") in
    let (run, g) = should_run_solver vc asm_class s.gate in
    next (
      mark
        (if run
          then text "Opaque inline assembly in function "
            ++ (site.function_name ++ (text ": '" ++ (assembly ++ text "'")))
          else text "HITL gate blocked inline asm VC: " ++ vc)
        (record s { gate = g; inline_asm_vcs = s.inline_asm_vcs + 1 }))

unfoldable pub asm_call : InlineAsmPolicy → Site → Target → State → Flow
asm_call policy site (operand op) s = next s
asm_call trap site (inline_assembly assembly) s =
    fail_with
      (text "Inline assembly detected in function "
        ++ (site.function_name ++ text " (trap policy)"))
      (record s { inline_asm_vcs = s.inline_asm_vcs + 1 })
asm_call conservative site (inline_assembly assembly) s =
    if is_safe_inline_asm assembly then next s else opaque_asm site assembly s

-- The answer of the gate is not looked at here.
unfoldable pub dma_alloc_call : Site → Call → State → Flow
dma_alloc_call site c s =
    or_mark (get_elem? c.arguments 1) (text "dma_alloc_coherent missing size argument") s λ size_op.
      or_mark (operand_const_u64 size_op) (text "dma_alloc_coherent with non-constant size") s
        λ size.
          let id = s.alloc_counter in
          let s1 = fresh_alloc size s in
          let s2 = record s1 { dma_allocs_in_func = add id s1.dma_allocs_in_func } in
          let s3 = set_dest c.dest (dma_alloc id (pos 0)) s2 in
          let (_, g) =
            should_run_solver (site_vc site (text "dma_alloc"))
              (vc_class_id (text "dma_alloc") size) s3.gate in
          next (record s3 { gate = g; dma_vcs = s3.dma_vcs + 1 })

-- the match on the result of `check_access`; `dma_vcs` counts all but `Safe`
unfoldable pub settle_dma : AccessCheckResult → Site → Text → State → Flow
settle_dma oob site vc s =
    fail_with (in_function (text "DMA mapping exceeds allocation bounds in function ") site)
      (record s { dma_vcs = s.dma_vcs + 1 })
settle_dma safe site vc s = next s
settle_dma solver_unknown site vc s = next (
    mark (text "Solver unknown for DMA mapping bound check") (record s { dma_vcs = s.dma_vcs + 1 }))
settle_dma hitl_blocked site vc s =
    next (mark (text "HITL gate blocked DMA VC: " ++ vc) (record s { dma_vcs = s.dma_vcs + 1 }))

unfoldable pub dma_map_call : Ctx → Site → Call → State → Flow
dma_map_call ctx site c s =
    or_mark (get_elem? c.arguments 1) (text "dma_map_single missing ptr argument") s λ ptr_op.
      or_mark (get_elem? c.arguments 2) (text "dma_map_single missing size argument") s λ size_op.
        or_mark (operand_const_u64 size_op) (text "dma_map_single with non-constant size") s
          λ map_size. or_continue (operand_local_name ptr_op) s λ n.
            or_continue (tracked n s) s λ (alloc_id, offset).
              or_continue (get alloc_id s.alloc_sizes) s λ alloc_size.
                let vc = site_vc site (text "dma_map") in
                let (r, g) =
                  check_access ctx.solver alloc_size offset map_size vc
                    (vc_class_id (text "dma_bounds") map_size) s.gate in
                settle_dma r site vc (record s { gate = g })

-- `for id in &dma_allocs_in_func { iommu_mapped_in_func.insert(*id); }`
unfoldable pub add_all : List ℕ → List ℕ → List ℕ
add_all [] mapped = mapped
add_all (id ∷ ids) mapped = add_all ids (add id mapped)

unfoldable pub iommu_map_call : State → Flow
iommu_map_call s =
    next (record s { iommu_mapped_in_func = add_all s.dma_allocs_in_func s.iommu_mapped_in_func })

-- the loop that looks for an allocation with no mapping, over the set in its order of iteration
unfoldable pub first_unmapped : List ℕ → List ℕ → Option ℕ
first_unmapped [] mapped = none
first_unmapped (id ∷ ids) mapped = if contains id mapped then first_unmapped ids mapped else some id

-- the result after the loop of `require-iommu`
unfoldable pub unmapped_result : Option ℕ → AnalysisResult → AnalysisResult
unmapped_result none r = r
unmapped_result (some id) r = fail (
    text "DMA allocation "
    ++ (decimal id ++ text " has no paired iommu_map call (require-iommu policy)"))

-- `iteration` is the order in which the hash set is walked.
unfoldable pub iommu_check : (List ℕ → List ℕ) → DmaPolicy → State → AnalysisResult
iommu_check iteration require_iommu s =
    unmapped_result (first_unmapped (iteration s.dma_allocs_in_func) s.iommu_mapped_in_func)
      s.final_result
iommu_check iteration verify s = s.final_result
iommu_check iteration ignore s = s.final_result
