-- ===== src/Analyzer/Severity.antt =====
-- How the verdict of `analyze` (skv-analyzer/src/main.rs) may change.
use sentinel_kv.Prelude.{
  ℕ, ◌+◌, ◌≡◌, true, false, arith, Text, List, [], ◌∷◌, Option, none, some, sym, subst,
}
use sentinel_kv.Ir.{
  Call, Operand, Name, Ty, GetElementPtr, Target, Instruction, call, get_element_ptr, store, load,
  BasicBlock, Function,
}
use sentinel_kv.Policy.{AnalysisResult, pass, fail, unknown, mark_unknown, is_fail, InlineAsmPolicy}
use sentinel_kv.Analyzer.State.{
  State, Ctx, Site, Flow, next, stop, mark, fail_with, set_ptr, set_int, set_dest, fresh_alloc,
  or_mark, or_continue, or_freed, and_then, break_if_failed,
}
use sentinel_kv.Analyzer.Heap.{kmalloc_call, kcalloc_call, kfree_call, calloc_total, allocate}
use sentinel_kv.Analyzer.Memory.{
  memset_call, memcpy_call, memcpy_operand, store_instr, load_instr, bounds_check, settle,
  tracked_access, irq_race_check, race_after, spill, reload, spill_value, reload_value,
}
use sentinel_kv.Analyzer.Dma.{
  asm_call, opaque_asm, dma_alloc_call, dma_map_call, settle_dma, iommu_map_call,
}
use sentinel_kv.Analyzer.Pointers.{
  alloca_instr, gep_at, ptr_to_int_at, int_to_ptr_at, bit_cast_at, gep_instr, gep_from, gep_result,
  ptr_to_int_instr, int_to_ptr_instr, add_instr, sub_instr, bit_cast_instr, put_int,
}
use sentinel_kv.Analyzer.Step.{Callee, dispatch, call_instr, step}
use sentinel_kv.Analyzer.Run.{run_instrs, run_blocks, run_functions}

-- `Pass` may become `Unknown`; `Unknown` keeps its first reason; a failure never passes on.
abbrev pub Follows : AnalysisResult → AnalysisResult → Type 0
Follows pass r = is_fail r ≡ false
Follows (unknown m) r = r ≡ unknown m
Follows (fail m) r = ⊥

abbrev pub Worsens : AnalysisResult → Flow → Type 0
Worsens r (next s) = Follows r s.final_result
Worsens r (stop s) = is_fail s.final_result ≡ true

pub Follows-trans : (p q r : AnalysisResult) → Follows p q → Follows q r → Follows p r
Follows-trans p q r h k = ground arith

pub Follows-refl : (r : AnalysisResult) → is_fail r ≡ false → Follows r r
Follows-refl r h = ground arith

pub not-fail : (p r : AnalysisResult) → Follows p r → is_fail r ≡ false
not-fail p r h = ground arith

Follows-mark : (r : AnalysisResult) (m : Text) → is_fail r ≡ false → Follows r (mark_unknown r m)
unfolding mark_unknown
Follows-mark r m h = ground arith

and_then-Worsens :
    (r : AnalysisResult) (fl : Flow) (k : State → Flow)
    → Worsens r fl
    → ((s : State) → is_fail s.final_result ≡ false → Worsens s.final_result (k s))
    → Worsens r (and_then fl k)
unfolding and_then
and_then-Worsens r (next s) k h hk = ground (arith, hk s (not-fail r s.final_result h))
and_then-Worsens r (stop s) k h hk = h

break_if_failed-Worsens :
    (r : AnalysisResult) (fl : Flow) → Worsens r fl → Worsens r (break_if_failed fl)
unfolding break_if_failed
break_if_failed-Worsens r fl h = ground arith

module _ (s : State) (h : is_fail s.final_result ≡ false) where
  kmalloc_call-Worsens : (c : Call) → Worsens s.final_result (kmalloc_call c s)
  unfolding kmalloc_call or_mark mark mark_unknown allocate set_dest set_ptr fresh_alloc
  kmalloc_call-Worsens c = ground arith

  kcalloc_call-Worsens : (c : Call) → Worsens s.final_result (kcalloc_call c s)
  unfolding kcalloc_call or_mark mark mark_unknown allocate set_dest set_ptr fresh_alloc
      calloc_total fail_with
  kcalloc_call-Worsens c = ground arith

  kfree_call-Worsens : (site : Site) (c : Call) → Worsens s.final_result (kfree_call site c s)
  unfolding kfree_call or_mark or_continue or_freed mark mark_unknown fail_with
  kfree_call-Worsens site c = ground arith

  asm_call-Worsens :
      (p : InlineAsmPolicy) (site : Site) (t : Target)
      → Worsens s.final_result (asm_call p site t s)
  unfolding asm_call opaque_asm mark mark_unknown fail_with
  asm_call-Worsens p site t = ground arith

  dma_alloc_call-Worsens :
      (site : Site) (c : Call) → Worsens s.final_result (dma_alloc_call site c s)
  unfolding dma_alloc_call or_mark mark mark_unknown set_dest set_ptr fresh_alloc
  dma_alloc_call-Worsens site c = ground arith

  iommu_map_call-Worsens : Worsens s.final_result (iommu_map_call s)
  unfolding iommu_map_call
  iommu_map_call-Worsens = ground arith

  irq_race_check-Follows :
      (ctx : Ctx) (site : Site) (what : Text) (id : ℕ)
      → Follows s.final_result (irq_race_check ctx site what id s).final_result
  unfolding irq_race_check mark mark_unknown
  irq_race_check-Follows ctx site what id = ground arith

module _ (ctx : Ctx) (site : Site) (s : State) (h : is_fail s.final_result ≡ false) where
  memset_call-Worsens : (c : Call) → Worsens s.final_result (memset_call ctx site c s)
  unfolding memset_call or_mark or_continue or_freed bounds_check settle mark mark_unknown fail_with
  memset_call-Worsens c = ground arith

  memcpy_operand-Worsens :
      (len : ℕ) (op : Operand) (kind : Text)
      → Worsens s.final_result (memcpy_operand ctx site len op kind s)
  unfolding memcpy_operand or_mark or_continue or_freed bounds_check settle mark mark_unknown
      fail_with
  memcpy_operand-Worsens len op kind = ground arith

  dma_map_call-Worsens : (c : Call) → Worsens s.final_result (dma_map_call ctx site c s)
  unfolding dma_map_call or_mark or_continue settle_dma mark mark_unknown fail_with
  dma_map_call-Worsens c = ground arith

  tracked_access-Worsens :
      (what no_size : Text) (size : Option ℕ) (id : ℕ) (off : _)
      → Worsens s.final_result (tracked_access ctx site what no_size size id off s)
  unfolding tracked_access or_mark or_freed bounds_check settle mark mark_unknown fail_with and_then
      irq_race_check race_after
  tracked_access-Worsens what no_size size id off = ground arith

  gep_instr-Follows :
      (gep : GetElementPtr) → Follows s.final_result (gep_instr ctx gep s).final_result
  unfolding gep_instr gep_at gep_from gep_result set_ptr mark mark_unknown
  gep_instr-Follows gep = ground arith

module _ {A : Type 0} (s : State) (h : is_fail s.final_result ≡ false) where
  or_mark-Worsens :
      (o : Option A) (m : Text) (k : A → Flow)
      → ((a : A) → Worsens s.final_result (k a))
      → Worsens s.final_result (or_mark o m s k)
  unfolding or_mark mark mark_unknown
  or_mark-Worsens none m k hk = ground arith
  or_mark-Worsens (some a) m k hk = hk a

  or_continue-Worsens :
      (o : Option A) (k : A → Flow)
      → ((a : A) → Worsens s.final_result (k a))
      → Worsens s.final_result (or_continue o s k)
  unfolding or_continue
  or_continue-Worsens none k hk = ground arith
  or_continue-Worsens (some a) k hk = hk a

rebase :
    (s s' : State)
    → s'.final_result ≡ s.final_result
    → is_fail s.final_result ≡ false
    → (fl : Flow) → (is_fail s'.final_result ≡ false → Worsens s'.final_result fl)
    → Worsens s.final_result fl
rebase s s' e h fl k = subst (λ r. Worsens r fl) e (k (subst (λ r. is_fail r ≡ false) (sym e) h))

final_result-spill :
    (n : Name) (v : Operand) (s : State) → (spill n v s).final_result ≡ s.final_result
unfolding spill spill_value
final_result-spill n v s = ground arith

final_result-reload : (n d : Name) (s : State) → (reload n d s).final_result ≡ s.final_result
unfolding reload reload_value set_ptr
final_result-reload n d s = ground arith

module _ (ctx : Ctx) (site : Site) (s : State) (h : is_fail s.final_result ≡ false) where
  memcpy_call-Worsens : (c : Call) → Worsens s.final_result (memcpy_call ctx site c s)
  unfolding memcpy_call
  memcpy_call-Worsens c = or_continue-Worsens s h _ _ λ dest_op. or_mark-Worsens s h _ _ _ λ src_op.
      or_mark-Worsens s h _ _ _ λ len_op. or_mark-Worsens s h _ _ _ λ len.
        break_if_failed-Worsens _ _ (
          and_then-Worsens _ _ _ (memcpy_operand-Worsens ctx site s h len dest_op _)
            λ s' h'. memcpy_operand-Worsens ctx site s' h' len src_op _)

  store_instr-Worsens :
      (address value : Operand) → Worsens s.final_result (store_instr ctx site address value s)
  unfolding store_instr
  store_instr-Worsens address value = or_continue-Worsens s h _ _ λ n.
      rebase s (spill n value s) (final_result-spill n value s) h _ λ h'.
        or_continue-Worsens (spill n value s) h' _ _
          λ (id, off). tracked_access-Worsens ctx site (spill n value s) h' _ _ _ id off

  load_instr-Worsens :
      (address : Operand) (dest : Name) (ty : Ty)
      → Worsens s.final_result (load_instr ctx site address dest ty s)
  unfolding load_instr
  load_instr-Worsens address dest ty = or_continue-Worsens s h _ _ λ n.
      rebase s (reload n dest s) (final_result-reload n dest s) h _ λ h'.
        or_continue-Worsens (reload n dest s) h' _ _
          λ (id, off). tracked_access-Worsens ctx site (reload n dest s) h' _ _ _ id off

  pub dispatch-Worsens : (c : Call) (k : Callee) → Worsens s.final_result (dispatch ctx site c k s)
  unfolding dispatch
  dispatch-Worsens c Callee.kmalloc = kmalloc_call-Worsens s h c
  dispatch-Worsens c Callee.kcalloc = kcalloc_call-Worsens s h c
  dispatch-Worsens c Callee.kfree = kfree_call-Worsens s h site c
  dispatch-Worsens c Callee.memset = memset_call-Worsens ctx site s h c
  dispatch-Worsens c Callee.memcpy = memcpy_call-Worsens c
  dispatch-Worsens c Callee.no_name = asm_call-Worsens s h ctx.inline_asm_policy site c.function
  dispatch-Worsens c Callee.dma_alloc = dma_alloc_call-Worsens s h site c
  dispatch-Worsens c Callee.dma_map = dma_map_call-Worsens ctx site s h c
  dispatch-Worsens c Callee.iommu_map = iommu_map_call-Worsens s h
  dispatch-Worsens c Callee.other_call = Follows-refl _ h

  -- One instruction, from a verdict that is no failure: the loop goes on with a verdict that is no
  -- failure and keeps an earlier reason, or it is left with a failure.
  pub step-Worsens : (i : Instruction) → Worsens s.final_result (step ctx site i s)
  unfolding step call_instr alloca_instr ptr_to_int_instr int_to_ptr_instr bit_cast_instr
      ptr_to_int_at int_to_ptr_at bit_cast_at set_int set_ptr mark mark_unknown add_instr sub_instr
      put_int
  step-Worsens (call c) = rw h (dispatch-Worsens c _)
  step-Worsens (get_element_ptr gep) = gep_instr-Follows ctx site s h gep
  step-Worsens (store address value) = store_instr-Worsens address value
  step-Worsens (load address dest ty) = load_instr-Worsens address dest ty
  step-Worsens _ = ground arith

module _ (ctx : Ctx) where
  pub run_instrs-Worsens :
      (fname : Text) (bb i : ℕ) (l : List Instruction) (s : State)
      → is_fail s.final_result ≡ false
      → Worsens s.final_result (run_instrs ctx fname bb i l s)
  unfolding run_instrs
  run_instrs-Worsens fname bb i [] s h = Follows-refl _ h
  run_instrs-Worsens fname bb i (x ∷ l) s h =
      and_then-Worsens _ _ _ (step-Worsens ctx _ s h x)
        λ s' h'. run_instrs-Worsens fname bb (i + 1) l s' h'

  pub run_blocks-Worsens :
      (fname : Text) (bb : ℕ) (l : List BasicBlock) (s : State)
      → is_fail s.final_result ≡ false
      → Worsens s.final_result (run_blocks ctx fname bb l s)
  unfolding run_blocks
  run_blocks-Worsens fname bb [] s h = Follows-refl _ h
  run_blocks-Worsens fname bb (x ∷ l) s h =
      and_then-Worsens _ _ _
        (break_if_failed-Worsens _ _ (run_instrs-Worsens fname bb 0 x.instrs s h))
        λ s' h'. run_blocks-Worsens fname (bb + 1) l s' h'

  -- From a verdict that is no failure, the loops over the whole module only make it worse: where
  -- they come to their end it is no failure, and an `Unknown` is still there with its first reason;
  -- where they are left by `break` it is a failure.
  pub run_functions-Worsens :
      (l : List Function) (s : State)
      → is_fail s.final_result ≡ false
      → Worsens s.final_result (run_functions ctx l s)
  unfolding run_functions
  run_functions-Worsens [] s h = Follows-refl _ h
  run_functions-Worsens (f ∷ l) s h =
      and_then-Worsens _ _ _
        (break_if_failed-Worsens _ _ (run_blocks-Worsens f.name 0 f.basic_blocks s h))
        λ s' h'. run_functions-Worsens l s' h'
