-- ===== src/Analyzer/Approval.antt =====
-- The gate of `analyze` over the whole run (skv-analyzer/src/main.rs), and `enforce_hitl_policy`
-- behind it.
use sentinel_kv.Prelude.{
  ◌≡◌, refl, false, List, [], ◌∷◌, Text, arith, ltb, ◌<◌, add, length, text_eq, contains,
}
use sentinel_kv.Ir.{
  Operand, Name, Ty, Call, Instruction, alloca, call, get_element_ptr, ptr_to_int, int_to_ptr,
  bit_cast, store, load, other_instruction, Module,
}
use sentinel_kv.Policy.{pass, is_fail, require}
use sentinel_kv.Gate.{HitlGate, enforce_hitl_policy}
use sentinel_kv.Gate.Approval.{IsHonest, Approved, IsHonest-refl}
use sentinel_kv.Analyzer.State.{State, Ctx, Site, Flow, init}
use sentinel_kv.Analyzer.Memory.{store_instr, load_instr, spill, reload}
use sentinel_kv.Analyzer.Dma.{iommu_map_call}
use sentinel_kv.Analyzer.Pointers.{alloca_instr}
use sentinel_kv.Analyzer.Step.{Callee, dispatch, call_instr, step}
use sentinel_kv.Analyzer.Run.{
  Setup, context, analyze, outcome, final_state, count_distinct, distinct,
}
use sentinel_kv.Analyzer.Ends.{goes_on, leaves, Ends-if, Ends-or_continue, Ends-and_then}
use sentinel_kv.Analyzer.GateFrame.{
  gate-gep_instr, gate-spill, gate-reload, gate-ptr_to_int_instr, gate-int_to_ptr_instr,
  gate-bit_cast_instr, gate-add_instr, gate-sub_instr,
}
use sentinel_kv.Analyzer.Gated.{
  Honest, KeepsHonest, kmalloc_call-Honest, kcalloc_call-Honest, kfree_call-Honest, asm_call-Honest,
  dma_alloc_call-Honest, memset_call-Honest, memcpy_call-Honest, dma_map_call-Honest,
  tracked_access-Honest,
}
use sentinel_kv.Analyzer.Flatten.{Located, sites, walk}
use sentinel_kv.Analyzer.Bookkeeping.{analyzed-eq-walk}

module _ (start : HitlGate) (ctx : Ctx) (site : Site) (s : State) (h : IsHonest start s.gate) where
  store_instr-Honest : (a v : Operand) → KeepsHonest start (store_instr ctx site a v s)
  unfolding store_instr
  store_instr-Honest a v = Ends-or_continue _ s _ h λ n _.
      let h' : Honest start (spill n v s) = rw (gate-spill n v s) h in
      Ends-or_continue _ _ _ h'
        λ (id, offset) _. tracked_access-Honest start ctx site _ h' _ _ _ id offset

  load_instr-Honest :
      (a : Operand) (d : Name) (ty : Ty) → KeepsHonest start (load_instr ctx site a d ty s)
  unfolding load_instr
  load_instr-Honest a d ty = Ends-or_continue _ s _ h λ n _.
      let h' : Honest start (reload n d s) = rw (gate-reload n d s) h in
      Ends-or_continue _ _ _ h'
        λ (id, offset) _. tracked_access-Honest start ctx site _ h' _ _ _ id offset

  dispatch-Honest : (c : Call) (k : Callee) → KeepsHonest start (dispatch ctx site c k s)
  unfolding dispatch iommu_map_call
  dispatch-Honest c Callee.kmalloc = kmalloc_call-Honest start s h c
  dispatch-Honest c Callee.kcalloc = kcalloc_call-Honest start s h c
  dispatch-Honest c Callee.kfree = kfree_call-Honest start s h site c
  dispatch-Honest c Callee.memset = memset_call-Honest start ctx site s h c
  dispatch-Honest c Callee.memcpy = memcpy_call-Honest start ctx site s h c
  dispatch-Honest c Callee.no_name = asm_call-Honest start s h ctx.inline_asm_policy site c.function
  dispatch-Honest c Callee.dma_alloc = dma_alloc_call-Honest start s h site c
  dispatch-Honest c Callee.dma_map = dma_map_call-Honest start ctx site s h c
  dispatch-Honest c Callee.iommu_map = goes_on h
  dispatch-Honest c Callee.other_call = goes_on h

  step-Honest : (i : Instruction) → KeepsHonest start (step ctx site i s)
  unfolding step call_instr alloca_instr
  step-Honest (call c) =
      Ends-if (is_fail s.final_result) _ _ (λ _. leaves h) (λ _. dispatch-Honest c _)
  step-Honest (store a v) = store_instr-Honest a v
  step-Honest (load a d ty) = load_instr-Honest a d ty
  step-Honest (alloca d) = goes_on h
  step-Honest (get_element_ptr gep) = goes_on (rw (gate-gep_instr ctx gep s) h)
  step-Honest (ptr_to_int op d) = goes_on (rw (gate-ptr_to_int_instr op d s) h)
  step-Honest (int_to_ptr op d) = goes_on (rw (gate-int_to_ptr_instr op d s) h)
  step-Honest (bit_cast op d) = goes_on (rw (gate-bit_cast_instr op d s) h)
  step-Honest (Instruction.add a b d) = goes_on (rw (gate-add_instr a b d s) h)
  step-Honest (Instruction.sub a b d) = goes_on (rw (gate-sub_instr a b d s) h)
  step-Honest other_instruction = goes_on h

module _ (start : HitlGate) (ctx : Ctx) where
  walk-Honest :
      (l : List Located) (s : State) → IsHonest start s.gate → KeepsHonest start (walk ctx l s)
  unfolding walk
  walk-Honest [] s h = goes_on h
  walk-Honest ((site, i) ∷ l) s h =
      Ends-and_then _ _ (step-Honest start ctx site s h i) λ t ht. walk-Honest l t ht

  final_state-Honest : (fl : Flow) → KeepsHonest start fl → Honest start (final_state fl)
  unfolding final_state
  final_state-Honest fl (goes_on h) = h
  final_state-Honest fl (leaves h) = h

-- a gate that nothing was asked yet, as `run` makes it
abbrev pub IsFresh : HitlGate → Type 0
IsFresh g = (g.blocked ≡ []) × (g.seen ≡ []) × (g.seen_classes ≡ [])

-- From a gate that nothing was asked yet: after `analyze` its mode and its approvals are unchanged,
-- with the mode off nothing is blocked, and in mode `require`, if nothing is blocked, each condition
-- that was asked for has an approval of its own or of its class.
pub analyzed-IsHonest :
    (setup : Setup) (m : Module) (g : HitlGate) → IsFresh g → IsHonest g (analyze setup m g).1
unfolding analyze init
analyzed-IsHonest setup m g fresh = rw (analyzed-eq-walk setup m g) (
    final_state-Honest g (context setup m) _ (
      walk-Honest g (context setup m) (sites m.functions) (init g)
        (IsHonest-refl g fresh.0 fresh.1 fresh.2)))

length-add-pos : (x : Text) (out : List Text) → 0 < length (add x out)
unfolding add contains
length-add-pos x [] = omega arith
length-add-pos x (y ∷ out) = ground arith

length-distinct-pos : (xs out : List Text) → 0 < length out → 0 < length (distinct xs out)
unfolding distinct
length-distinct-pos [] out h = h
length-distinct-pos (x ∷ xs) out h = length-distinct-pos xs (add x out) (length-add-pos x out)

-- only the empty list has no distinct entries
pub count_distinct-zero : (xs : List Text) → ltb 0 (count_distinct xs) ≡ false → xs ≡ []
unfolding count_distinct distinct
count_distinct-zero [] h = refl
count_distinct-zero (x ∷ xs) h =
    ground (arith, length-distinct-pos xs (add x []) (length-add-pos x []))

-- From a gate in mode `require` that nothing was asked yet: if the result is `Pass` behind `enforce_hitl_policy`, each verification
-- condition that the analysis asked for had an approval of its own or of its class.
pub require-pass-Approved :
    (setup : Setup) (m : Module) (g : HitlGate)
    → IsFresh g
    → g.mode ≡ require
    → (let o = (analyze setup m g).0 in enforce_hitl_policy o.result require o.hitl_blocked_vcs)
      ≡ pass
    → Approved g (analyze setup m g).1.seen (analyze setup m g).1.seen_classes
require-pass-Approved setup m g fresh mode p =
    (analyzed-IsHonest setup m g fresh).asked_approved mode
      (count_distinct-zero _ (unfold analyze outcome enforce_hitl_policy in ground arith))
