-- ===== src/Analyzer/Bookkeeping.antt =====
-- The bookkeeping of `analyze` (skv-analyzer/src/main.rs) over every instruction and the whole run.
use sentinel_kv.Prelude.{
  ℕ, ◌≡◌, ◌<◌, refl, ap, Option, none, some, Text, get, nat_eq, arith, true, false, is_some, ◌>>=◌,
  List, [], ◌∷◌,
}
use sentinel_kv.Prelude.Int.{ℤ}
use sentinel_kv.Ir.{
  Call, Operand, Name, name_eq, Ty, Instruction, alloca, call, get_element_ptr, ptr_to_int,
  int_to_ptr, bit_cast, store, load, other_instruction, Module,
}
use sentinel_kv.Policy.{is_fail}
use sentinel_kv.Gate.{HitlGate}
use sentinel_kv.Analyzer.State.{State, Ctx, Site, PtrVal, Flow, mark, ptrval_alloc_info, init}
use sentinel_kv.Analyzer.Memory.{
  memset_call, memcpy_call, memcpy_operand, store_instr, load_instr, tracked_access, irq_race_check,
  race_after, tracked,
}
use sentinel_kv.Analyzer.Dma.{dma_map_call}
use sentinel_kv.Analyzer.Pointers.{alloca_instr}
use sentinel_kv.Analyzer.Step.{Callee, dispatch, call_instr, step}
use sentinel_kv.Analyzer.Run.{Setup, context, analyzed, final_state}
use sentinel_kv.Analyzer.Ends.{
  goes_on, leaves, Ends-if, Ends-or_freed, Ends-or_mark, Ends-or_continue, Ends-and_then,
  Ends-break_if_failed, if_keeps,
}
use sentinel_kv.Analyzer.Provenance.{IsWellFormed, PtrBelow, ptr_at}
use sentinel_kv.Analyzer.Flatten.{Located, sites, walk, run_functions-eq-walk}
use sentinel_kv.Analyzer.Moves.{
  gep_instr-IsWellFormed, ptr_to_int_instr-IsWellFormed, int_to_ptr_instr-IsWellFormed,
  bit_cast_instr-IsWellFormed, add_instr-IsWellFormed, sub_instr-IsWellFormed,
}
use sentinel_kv.Analyzer.WellFormed.{
  KeepsWellFormed, mark-IsWellFormed, kmalloc_call-WellFormed, kcalloc_call-WellFormed,
  kfree_call-WellFormed, asm_call-WellFormed, dma_alloc_call-WellFormed, iommu_map_call-WellFormed,
  settle_dma-WellFormed, bounds_check-WellFormed, spill-IsWellFormed, reload-IsWellFormed,
}

module _ (ctx : Ctx) (site : Site) (s : State) (h : IsWellFormed s) where
  memset_call-WellFormed : (c : Call) → KeepsWellFormed (memset_call ctx site c s)
  unfolding memset_call
  memset_call-WellFormed c = Ends-or_continue _ s _ h λ dest_op _.
      Ends-or_mark _ _ s _ (mark-IsWellFormed s h _) λ len_op _. Ends-or_continue _ s _ h λ n _.
        Ends-or_mark _ _ s _ (mark-IsWellFormed s h _) λ len _.
          Ends-or_continue _ s _ h λ (id, off) _.
            Ends-or_freed id _ s _ h λ _. bounds_check-WellFormed ctx s h _ _ _ _ _ _ _

  memcpy_operand-WellFormed :
      (len : ℕ) (op : Operand) (kind : Text)
      → KeepsWellFormed (memcpy_operand ctx site len op kind s)
  unfolding memcpy_operand
  memcpy_operand-WellFormed len op kind = Ends-or_continue _ s _ h λ n _.
      Ends-or_continue _ s _ h
        λ (id, off) _. Ends-or_freed id _ s _ h λ _. bounds_check-WellFormed ctx s h _ _ _ _ _ _ _

  irq_race_check-IsWellFormed :
      (what : Text) (id : ℕ) → IsWellFormed (irq_race_check ctx site what id s)
  unfolding irq_race_check mark
  irq_race_check-IsWellFormed what id = if_keeps IsWellFormed ctx.has_irq_risk _ _ h h

  race_after-IsWellFormed :
      (what : Text) (id : ℕ) (o : Option ℤ) → IsWellFormed (race_after ctx site what id o s)
  unfolding race_after
  race_after-IsWellFormed what id none = h
  race_after-IsWellFormed what id (some n) = irq_race_check-IsWellFormed what id

  dma_map_call-WellFormed : (c : Call) → KeepsWellFormed (dma_map_call ctx site c s)
  unfolding dma_map_call
  dma_map_call-WellFormed c = Ends-or_mark _ _ s _ (mark-IsWellFormed s h _) λ ptr_op _.
      Ends-or_mark _ _ s _ (mark-IsWellFormed s h _) λ size_op _.
        Ends-or_mark _ _ s _ (mark-IsWellFormed s h _) λ size _. Ends-or_continue _ s _ h λ n _.
          Ends-or_continue _ s _ h λ (id, off) _.
            Ends-or_continue _ s _ h λ alloc_size _. settle_dma-WellFormed ctx _ h _ site _

module _ (ctx : Ctx) (site : Site) (s : State) (h : IsWellFormed s) where
  memcpy_call-WellFormed : (c : Call) → KeepsWellFormed (memcpy_call ctx site c s)
  unfolding memcpy_call
  memcpy_call-WellFormed c = Ends-or_continue _ s _ h λ dest_op _.
      Ends-or_mark _ _ s _ (mark-IsWellFormed s h _) λ src_op _.
        Ends-or_mark _ _ s _ (mark-IsWellFormed s h _) λ len_op _.
          Ends-or_mark _ _ s _ (mark-IsWellFormed s h _) λ len _. Ends-break_if_failed _ (
            Ends-and_then _ _ (memcpy_operand-WellFormed ctx site s h len dest_op _)
              λ s' h'. memcpy_operand-WellFormed ctx site s' h' len src_op _)

  tracked_access-WellFormed :
      (what no_size : Text) (size : Option ℕ) (id : ℕ) (off : ℤ)
      → KeepsWellFormed (tracked_access ctx site what no_size size id off s)
  unfolding tracked_access
  tracked_access-WellFormed what no_size size id off = Ends-or_freed id _ s _ h λ _.
      Ends-or_mark size _ s _ (mark-IsWellFormed s h _) λ n _.
        Ends-and_then _ _ (bounds_check-WellFormed ctx s h _ _ _ _ _ _ _)
          λ s' h'. goes_on (race_after-IsWellFormed ctx site s' h' what id _)

module _ (ctx : Ctx) (site : Site) (s : State) (h : IsWellFormed s) where
  store_instr-WellFormed : (a v : Operand) → KeepsWellFormed (store_instr ctx site a v s)
  unfolding store_instr
  store_instr-WellFormed a v = Ends-or_continue _ s _ h λ n _.
      let h' = spill-IsWellFormed ctx s h n v in
      Ends-or_continue _ _ _ h' λ (id, off) _. tracked_access-WellFormed ctx site _ h' _ _ _ id off

  load_instr-WellFormed :
      (a : Operand) (d : Name) (ty : Ty) → KeepsWellFormed (load_instr ctx site a d ty s)
  unfolding load_instr
  load_instr-WellFormed a d ty = Ends-or_continue _ s _ h λ n _.
      let h' = reload-IsWellFormed ctx s h n d in
      Ends-or_continue _ _ _ h' λ (id, off) _. tracked_access-WellFormed ctx site _ h' _ _ _ id off

  dispatch-WellFormed : (c : Call) (k : Callee) → KeepsWellFormed (dispatch ctx site c k s)
  unfolding dispatch
  dispatch-WellFormed c Callee.kmalloc = kmalloc_call-WellFormed s h c
  dispatch-WellFormed c Callee.kcalloc = kcalloc_call-WellFormed s h c
  dispatch-WellFormed c Callee.kfree = kfree_call-WellFormed s h site c
  dispatch-WellFormed c Callee.memset = memset_call-WellFormed ctx site s h c
  dispatch-WellFormed c Callee.memcpy = memcpy_call-WellFormed ctx site s h c
  dispatch-WellFormed c Callee.no_name =
      asm_call-WellFormed s h ctx.inline_asm_policy site c.function
  dispatch-WellFormed c Callee.dma_alloc = dma_alloc_call-WellFormed s h site c
  dispatch-WellFormed c Callee.dma_map = dma_map_call-WellFormed ctx site s h c
  dispatch-WellFormed c Callee.iommu_map = iommu_map_call-WellFormed s h
  dispatch-WellFormed c Callee.other_call = goes_on h

  call_instr-WellFormed : (c : Call) → KeepsWellFormed (call_instr ctx site c s)
  unfolding call_instr
  call_instr-WellFormed c =
      Ends-if (is_fail s.final_result) _ _ (λ _. leaves h) λ _. dispatch-WellFormed c _

  -- One instruction keeps the bookkeeping well-formed, on whichever way its arm ends.
  pub step-WellFormed : (i : Instruction) → KeepsWellFormed (step ctx site i s)
  unfolding step alloca_instr
  step-WellFormed (alloca d) = goes_on h
  step-WellFormed (call c) = call_instr-WellFormed c
  step-WellFormed (get_element_ptr gep) = goes_on (gep_instr-IsWellFormed s h ctx gep)
  step-WellFormed (ptr_to_int op d) = goes_on (ptr_to_int_instr-IsWellFormed s h op d)
  step-WellFormed (int_to_ptr op d) = goes_on (int_to_ptr_instr-IsWellFormed s h op d)
  step-WellFormed (bit_cast op d) = goes_on (bit_cast_instr-IsWellFormed s h op d)
  step-WellFormed (Instruction.add a b d) = goes_on (add_instr-IsWellFormed s h a b d)
  step-WellFormed (Instruction.sub a b d) = goes_on (sub_instr-IsWellFormed s h a b d)
  step-WellFormed (store a v) = store_instr-WellFormed a v
  step-WellFormed (load a d ty) = load_instr-WellFormed a d ty
  step-WellFormed other_instruction = goes_on h

pub walk-WellFormed :
    (ctx : Ctx) (l : List Located) (s : State) → IsWellFormed s → KeepsWellFormed (walk ctx l s)
unfolding walk
walk-WellFormed ctx [] s h = goes_on h
walk-WellFormed ctx ((site, i) ∷ l) s h =
    Ends-and_then _ _ (step-WellFormed ctx site s h i) λ s' h'. walk-WellFormed ctx l s' h'

init-IsWellFormed : (g : HitlGate) → IsWellFormed (init g)
unfolding init
init-IsWellFormed g = record {
  ptrs_below = tt;
  ints_below = tt;
  spilled_below = tt;
  has_sizes = λ id below. absurd (omega arith);
  freed_below = tt;
  dma_below = tt;
}

final_state-IsWellFormed : (fl : Flow) → KeepsWellFormed fl → IsWellFormed (final_state fl)
unfolding final_state
final_state-IsWellFormed fl (goes_on h) = h
final_state-IsWellFormed fl (leaves h) = h

pub init-not_fail : (g : HitlGate) → is_fail (init g).final_result ≡ false
unfolding init
init-not_fail g = refl

pub analyzed-eq-walk :
    (setup : Setup) (m : Module) (g : HitlGate)
    → analyzed setup m g ≡ final_state (walk (context setup m) (sites m.functions) (init g))
unfolding analyzed
analyzed-eq-walk setup m g =
    ap final_state (run_functions-eq-walk (context setup m) m.functions (init g) (init-not_fail g))

pub analyzed-IsWellFormed :
    (setup : Setup) (m : Module) (g : HitlGate) → IsWellFormed (analyzed setup m g)
analyzed-IsWellFormed setup m g = rw analyzed-eq-walk (
    final_state-IsWellFormed _
      (walk-WellFormed (context setup m) (sites m.functions) (init g) (init-IsWellFormed g)))

ptrval_alloc_info-below :
    (n : ℕ) (p : PtrVal) (id : ℕ) (off : ℤ)
    → PtrBelow n p
    → ptrval_alloc_info p ≡ some (id, off)
    → id < n
unfolding ptrval_alloc_info
ptrval_alloc_info-below n p id off h e = ground arith

-- In a well-formed state the allocation behind a tracked pointer has a size, so no bounds check ends
-- with "Missing allocation size metadata".
pub tracked-has_size :
    (s : State) (n : Name) (id : ℕ) (off : ℤ)
    → IsWellFormed s
    → tracked n s ≡ some (id, off)
    → is_some (get id s.alloc_sizes) ≡ true
unfolding tracked
tracked-has_size s n id off h e = go (get n s.ptr_env) (ptr_at s h n) e
  where
    go :
        (o : Option PtrVal)
        → ((p : PtrVal) → o ≡ some p → PtrBelow s.alloc_counter p)
        → (o >>= ptrval_alloc_info) ≡ some (id, off)
        → is_some (get id s.alloc_sizes) ≡ true
    go none hp e = cc
    go (some p) hp e =
        h.has_sizes id (ptrval_alloc_info-below s.alloc_counter p id off (hp p refl) e)
