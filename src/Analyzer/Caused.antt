-- ===== src/Analyzer/Caused.antt =====
-- The fault behind each arm of the match of `analyze` (skv-analyzer/src/main.rs) that is left by
-- `break`.
use sentinel_kv.Prelude.{
  ℕ, ◌*◌, ◌^◌, ◌≤◌, ◌≡◌, refl, Option, none, some, Text, nat_eq, inl, inr, ◌⊎◌, arith,
}
use sentinel_kv.Ir.{
  Operand, Name, Ty, name_eq, Call, Instruction, alloca, call, get_element_ptr, ptr_to_int,
  int_to_ptr, bit_cast, store, load, other_instruction, Target, operand, inline_assembly,
  function_name_of_call,
}
use sentinel_kv.Policy.{is_fail, InlineAsmPolicy, trap, conservative}
use sentinel_kv.Layout.Size.{checked_mul}
use sentinel_kv.InlineAsm.{is_safe_inline_asm}
use sentinel_kv.Gate.{IsSound, AccessCheckResult, oob, safe, solver_unknown, hitl_blocked}
use sentinel_kv.Gate.Bounds.{check_access-oob}
use sentinel_kv.Analyzer.State.{
  State, Ctx, Site, Flow, next, PtrVal, fail_with, fresh_alloc, set_dest, set_ptr,
}
use sentinel_kv.Analyzer.Heap.{
  kmalloc_call, kfree_call, kcalloc_call, calloc_total, both_const, allocate,
}
use sentinel_kv.Analyzer.Memory.{spill, reload, store_instr, load_instr}
use sentinel_kv.Analyzer.Dma.{
  asm_call, opaque_asm, dma_alloc_call, dma_map_call, settle_dma, iommu_map_call,
}
use sentinel_kv.Analyzer.Step.{Callee, dispatch, call_instr, step, callee_of}
use sentinel_kv.Analyzer.Access.{accesses, call_accesses, store_accesses, load_accesses}
use sentinel_kv.Analyzer.Ends.{goes_on, leaves, Ends-if}
use sentinel_kv.Analyzer.Severity.{Worsens, not-fail, step-Worsens}
use sentinel_kv.Analyzer.Verdict.{SameBooks, spill-books, tracked-spill, reload-books}
use sentinel_kv.Analyzer.Fault.{
  Violates, AnyOf, CallFault, double_free, size_overflow, trapped, dma_overrun, Fault, of_access,
  of_call,
}
use sentinel_kv.Analyzer.Blame.{
  NotFailed, Blames, mark-NotFailed, or_mark-Blames, or_continue-Blames, or_freed-Blames,
  given_continue-Blames, AnyOf-map, Violates-same, Blames-map, memset_call-Blames,
  tracked_access-Blames, memcpy_call-Blames,
}

set_dest-NotFailed :
    (d : Option Name) (v : PtrVal) (s : State) → NotFailed s → NotFailed (set_dest d v s)
unfolding set_dest set_ptr
set_dest-NotFailed none v s h = h
set_dest-NotFailed (some n) v s h = h

allocate-NotFailed : (c : Call) (size : ℕ) (s : State) → NotFailed s → NotFailed (allocate c size s)
unfolding allocate fresh_alloc
allocate-NotFailed c size s h = set_dest-NotFailed c.dest _ _ h

checked_mul-none : (a b : ℕ) → checked_mul a b ≡ none → 2 ^ 64 ≤ a * b
unfolding checked_mul
checked_mul-none a b e = ground arith

module _ (ctx : Ctx) (site : Site) (s : State) (live : NotFailed s) where
  kmalloc_call-Blames : (G : Type 0) (c : Call) → Blames G (kmalloc_call c s)
  unfolding kmalloc_call
  kmalloc_call-Blames G c =
      or_mark-Blames s live _ _ _ λ size_op _.
        or_mark-Blames s live _ _ _ λ size _. goes_on (allocate-NotFailed c size s live)

  dma_alloc_call-Blames : (G : Type 0) (c : Call) → Blames G (dma_alloc_call site c s)
  unfolding dma_alloc_call fresh_alloc
  dma_alloc_call-Blames G c = or_mark-Blames s live _ _ _ λ size_op _.
      or_mark-Blames s live _ _ _ λ size _. goes_on (set_dest-NotFailed c.dest _ _ live)

  kfree_call-Blames : (c : Call) → Blames (CallFault ctx s c Callee.kfree) (kfree_call site c s)
  unfolding kfree_call
  kfree_call-Blames c = or_mark-Blames s live _ _ _ λ op e. or_mark-Blames s live _ _ _ λ n f.
      or_continue-Blames s live _ _ λ (id, off) p.
        or_freed-Blames s live id _ _ (λ q. double_free op n id off e f p q) (goes_on live)

  calloc_total-Blames :
      (G : Type 0) (c : Call) (o : Option ℕ) → (o ≡ none → G) → Blames G (calloc_total c o s)
  unfolding calloc_total fail_with
  calloc_total-Blames G c none h = leaves (h refl)
  calloc_total-Blames G c (some total) h = goes_on (allocate-NotFailed c total s live)

  both_const-some :
      (o p : Option ℕ) (a b : ℕ) → both_const o p ≡ some (a, b) → (o ≡ some a) × (p ≡ some b)
  unfolding both_const
  both_const-some o p a b e = ground arith

  kcalloc_call-Blames : (c : Call) → Blames (CallFault ctx s c Callee.kcalloc) (kcalloc_call c s)
  unfolding kcalloc_call
  kcalloc_call-Blames c = or_mark-Blames s live _ _ _ λ nmemb_op e.
      or_mark-Blames s live _ _ _ λ size_op f. or_mark-Blames s live _ _ _ λ (nmemb, size) p.
        let (k, l) = both_const-some _ _ nmemb size p in
        calloc_total-Blames _ c _
          λ q. size_overflow nmemb_op size_op nmemb size e f k l (checked_mul-none nmemb size q)

  asm_call-Blames :
      (c : Call) (policy : InlineAsmPolicy) (t : Target)
      → ctx.inline_asm_policy ≡ policy
      → c.function ≡ t
      → Blames (CallFault ctx s c Callee.no_name) (asm_call policy site t s)
  unfolding asm_call opaque_asm fail_with
  asm_call-Blames c policy (operand op) e f = goes_on live
  asm_call-Blames c trap (inline_assembly a) e f = leaves (trapped a e f)
  asm_call-Blames c conservative (inline_assembly a) e f =
      Ends-if (is_safe_inline_asm a) _ _ (λ _. goes_on live)
        (λ _. goes_on (mark-NotFailed _ _ live))

settle_dma-Blames :
    (t : State) (G : Type 0) (r : AccessCheckResult) (site : Site) (vc : Text)
    → NotFailed t
    → (r ≡ oob → G)
    → Blames G (settle_dma r site vc t)
unfolding settle_dma fail_with
settle_dma-Blames t G oob site vc live h = leaves (h refl)
settle_dma-Blames t G safe site vc live h = goes_on live
settle_dma-Blames t G solver_unknown site vc live h = goes_on (mark-NotFailed _ _ live)
settle_dma-Blames t G hitl_blocked site vc live h = goes_on (mark-NotFailed _ _ live)

module _ (ctx : Ctx) (site : Site) (sound : IsSound ctx.solver) (s : State)
    (live : NotFailed s) where
  dma_map_call-Blames :
      (c : Call) → Blames (CallFault ctx s c Callee.dma_map) (dma_map_call ctx site c s)
  unfolding dma_map_call
  dma_map_call-Blames c = or_mark-Blames s live _ _ _ λ ptr_op e.
      or_mark-Blames s live _ _ _ λ size_op f. or_mark-Blames s live _ _ _ λ size k.
        or_continue-Blames s live _ _ λ n l. or_continue-Blames s live _ _ λ (id, off) p.
          or_continue-Blames s live _ _ λ total q. settle_dma-Blames _ _ _ site _ live λ r.
            dma_overrun ptr_op size_op n id off total size e f k l p q
              (check_access-oob ctx.solver sound total off size _ _ s.gate r)

  dispatch-Blames :
      (c : Call) (k : Callee)
      → Blames
          (AnyOf (Violates s) (call_accesses s c k) ⊎ CallFault ctx s c k)
          (dispatch ctx site c k s)
  unfolding dispatch iommu_map_call call_accesses
  dispatch-Blames c Callee.memset = Blames-map (memset_call-Blames ctx site sound s live c) inl
  dispatch-Blames c Callee.memcpy = Blames-map (memcpy_call-Blames ctx site sound s live c) inl
  dispatch-Blames c Callee.kcalloc = Blames-map (kcalloc_call-Blames ctx site s live c) inr
  dispatch-Blames c Callee.kfree = Blames-map (kfree_call-Blames ctx site s live c) inr
  dispatch-Blames c Callee.no_name =
      Blames-map (asm_call-Blames ctx site s live c _ _ refl refl) inr
  dispatch-Blames c Callee.dma_map = Blames-map (dma_map_call-Blames c) inr
  dispatch-Blames c Callee.kmalloc = kmalloc_call-Blames ctx site s live _ c
  dispatch-Blames c Callee.dma_alloc = dma_alloc_call-Blames ctx site s live _ c
  dispatch-Blames c Callee.iommu_map = goes_on live
  dispatch-Blames c Callee.other_call = goes_on live

  call_fault :
      (c : Call)
      → (let k = callee_of ctx.dma_policy (function_name_of_call c) in
          AnyOf (Violates s) (call_accesses s c k) ⊎ CallFault ctx s c k)
      → Fault ctx s (call c)
  unfolding accesses
  call_fault c (inl b) = of_access b
  call_fault c (inr f) = of_call f

  -- an access that violates the books of `t` violates the same books of `s`
  from_books :
      (t : State) (l : _) (fl : Flow)
      → SameBooks s t
      → Blames (AnyOf (Violates t) l) fl
      → Blames (AnyOf (Violates s) l) fl
  from_books t l fl b h = Blames-map h λ v. AnyOf-map _ _ l (λ a. Violates-same s t a b.0 b.1) v

  books-NotFailed : (t : State) → SameBooks s t → NotFailed t
  books-NotFailed t b = rw b.2 live

  store_instr-Blames :
      (a v : Operand)
      → Blames (AnyOf (Violates s) (store_accesses ctx s a v)) (store_instr ctx site a v s)
  unfolding store_instr store_accesses
  store_instr-Blames a v = given_continue-Blames s live _ _ _ _ λ n.
      let t = spill n v s in
      let up = books-NotFailed t (spill-books n v s) in
      rw (← tracked-spill n n v s) (
        from_books t _ _ (spill-books n v s) (
          given_continue-Blames t up _ _ _ _
            λ (id, off). tracked_access-Blames ctx site sound t up _ _ _ id off))

  load_instr-Blames :
      (a : Operand) (d : Name) (ty : Ty)
      → Blames (AnyOf (Violates s) (load_accesses ctx s a d ty)) (load_instr ctx site a d ty s)
  unfolding load_instr load_accesses
  load_instr-Blames a d ty = given_continue-Blames s live _ _ _ _ λ n.
      let t = reload n d s in
      let up = books-NotFailed t (reload-books n d s) in
      from_books t _ _ (reload-books n d s) (
        given_continue-Blames t up _ _ _ _
          λ (id, off). tracked_access-Blames ctx site sound t up _ _ _ id off)

  worse : (i : Instruction) (t : State) → step ctx site i s ≡ next t → NotFailed t
  worse i t e =
      let w : Worsens s.final_result (step ctx site i s) = step-Worsens ctx site s live i in
      not-fail s.final_result _ (rw e at w)

  -- One instruction: the arm goes on with no failure, or the instruction has a fault.
  pub step-Blames : (i : Instruction) → Blames (Fault ctx s i) (step ctx site i s)
  unfolding step call_instr accesses
  step-Blames (call c) =
      Ends-if (is_fail s.final_result) _ _ (λ f. absurd (ground arith))
        λ _. Blames-map (dispatch-Blames c _) (call_fault c)
  step-Blames (store a v) = Blames-map (store_instr-Blames a v) λ b. of_access b
  step-Blames (load a d ty) = Blames-map (load_instr-Blames a d ty) λ b. of_access b
  step-Blames (alloca d) = goes_on (worse (alloca d) _ refl)
  step-Blames (get_element_ptr gep) = goes_on (worse (get_element_ptr gep) _ refl)
  step-Blames (ptr_to_int op d) = goes_on (worse (ptr_to_int op d) _ refl)
  step-Blames (int_to_ptr op d) = goes_on (worse (int_to_ptr op d) _ refl)
  step-Blames (bit_cast op d) = goes_on (worse (bit_cast op d) _ refl)
  step-Blames (Instruction.add a b d) = goes_on (worse (Instruction.add a b d) _ refl)
  step-Blames (Instruction.sub a b d) = goes_on (worse (Instruction.sub a b d) _ refl)
  step-Blames other_instruction = goes_on live
