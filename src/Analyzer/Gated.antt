-- ===== src/Analyzer/Gated.antt =====
-- The arms of `analyze` (skv-analyzer/src/main.rs) on the gate.
use sentinel_kv.Prelude.{ℕ, Option, none, some, Text}
use sentinel_kv.Prelude.Int.{ℤ}
use sentinel_kv.Ir.{Operand, Call, Target, inline_assembly, operand}
use sentinel_kv.InlineAsm.{is_safe_inline_asm}
use sentinel_kv.Policy.{InlineAsmPolicy, conservative, trap}
use sentinel_kv.Gate.{HitlGate, AccessCheckResult, oob, safe, solver_unknown, hitl_blocked}
use sentinel_kv.Gate.Approval.{IsHonest, should_run_solver-IsHonest, check_access-IsHonest}
use sentinel_kv.Analyzer.State.{State, Ctx, Site, Flow, mark, fresh_alloc}
use sentinel_kv.Analyzer.Heap.{allocate, kmalloc_call, kcalloc_call, calloc_total, kfree_call}
use sentinel_kv.Analyzer.Memory.{
  memset_call, memcpy_call, memcpy_operand, bounds_check, settle, tracked_access, irq_race_check,
  race_after,
}
use sentinel_kv.Analyzer.Dma.{asm_call, opaque_asm, dma_alloc_call, dma_map_call, settle_dma}
use sentinel_kv.Analyzer.Ends.{
  Ends, goes_on, Ends-if, Ends-fail_with, Ends-or_freed, Ends-or_mark, Ends-or_continue,
  Ends-and_then, Ends-break_if_failed, if_keeps,
}
use sentinel_kv.Analyzer.GateFrame.{gate-allocate, gate-set_dest}

module _ (start : HitlGate) where
  abbrev pub Honest : State → Type 0
  Honest s = IsHonest start s.gate

  abbrev pub KeepsHonest : Flow → Type 0
  KeepsHonest = Ends Honest Honest

module _ (start : HitlGate) (s : State) (h : IsHonest start s.gate) where
  marked : (m : Text) → Honest start (mark m s)
  unfolding mark
  marked m = h

  pub kmalloc_call-Honest : (c : Call) → KeepsHonest start (kmalloc_call c s)
  unfolding kmalloc_call
  kmalloc_call-Honest c = Ends-or_mark _ _ s _ (marked _) λ size_op _.
      Ends-or_mark _ _ s _ (marked _)
        λ size _. goes_on {s = allocate c size s} (rw (gate-allocate c size s) h)

  pub calloc_total-Honest : (c : Call) (o : Option ℕ) → KeepsHonest start (calloc_total c o s)
  unfolding calloc_total
  calloc_total-Honest c none = Ends-fail_with _ s h
  calloc_total-Honest c (some n) = goes_on (rw (gate-allocate c n s) h)

  pub kcalloc_call-Honest : (c : Call) → KeepsHonest start (kcalloc_call c s)
  unfolding kcalloc_call
  kcalloc_call-Honest c = Ends-or_mark _ _ s _ (marked _) λ nmemb_op _.
      Ends-or_mark _ _ s _ (marked _)
        λ size_op _. Ends-or_mark _ _ s _ (marked _) λ (a, b) _. calloc_total-Honest c _

  pub kfree_call-Honest : (site : Site) (c : Call) → KeepsHonest start (kfree_call site c s)
  unfolding kfree_call
  kfree_call-Honest site c = Ends-or_mark _ _ s _ (marked _) λ ptr_op _.
      Ends-or_mark _ _ s _ (marked _)
        λ n _. Ends-or_continue _ s _ h λ (id, offset) _. Ends-or_freed id _ s _ h λ _. goes_on h

  pub asm_call-Honest :
      (p : InlineAsmPolicy) (site : Site) (t : Target) → KeepsHonest start (asm_call p site t s)
  unfolding asm_call opaque_asm mark
  asm_call-Honest p site (operand op) = goes_on h
  asm_call-Honest trap site (inline_assembly a) = Ends-fail_with _ _ h
  asm_call-Honest conservative site (inline_assembly a) =
      Ends-if (is_safe_inline_asm a) _ _ (λ _. goes_on h)
        (λ _. goes_on (should_run_solver-IsHonest start _ _ s.gate h))

  pub dma_alloc_call-Honest : (site : Site) (c : Call) → KeepsHonest start (dma_alloc_call site c s)
  unfolding dma_alloc_call fresh_alloc
  dma_alloc_call-Honest site c = Ends-or_mark _ _ s _ (marked _) λ size_op _.
      Ends-or_mark _ _ s _ (marked _)
        λ size _. goes_on (should_run_solver-IsHonest start _ _ _ (rw (gate-set_dest c.dest _ _) h))

  pub settle-Honest : (r : AccessCheckResult) (a b c : Text) → KeepsHonest start (settle r a b c s)
  unfolding settle
  settle-Honest oob a b c = Ends-fail_with _ s h
  settle-Honest safe a b c = goes_on h
  settle-Honest solver_unknown a b c = goes_on (marked _)
  settle-Honest hitl_blocked a b c = goes_on (marked _)

  pub settle_dma-Honest :
      (r : AccessCheckResult) (site : Site) (vc : Text) → KeepsHonest start (settle_dma r site vc s)
  unfolding settle_dma mark
  settle_dma-Honest oob site vc = Ends-fail_with _ _ h
  settle_dma-Honest safe site vc = goes_on h
  settle_dma-Honest solver_unknown site vc = goes_on h
  settle_dma-Honest hitl_blocked site vc = goes_on h

module _ (start : HitlGate) (ctx : Ctx) (site : Site) (s : State) (h : IsHonest start s.gate) where
  pub bounds_check-Honest :
      (id : ℕ) (offset : ℤ) (size : ℕ) (a b c d : Text)
      → KeepsHonest start (bounds_check ctx id offset size a b c d s)
  unfolding bounds_check
  bounds_check-Honest id offset size a b c d = Ends-or_mark _ _ s _ (marked start s h _) λ total _.
      settle-Honest start _ (check_access-IsHonest start s.gate h ctx.solver total offset size a b)
        _ _ _ _

  pub memset_call-Honest : (c : Call) → KeepsHonest start (memset_call ctx site c s)
  unfolding memset_call
  memset_call-Honest c = Ends-or_continue _ s _ h λ dest_op _.
      Ends-or_mark _ _ s _ (marked start s h _) λ len_op _. Ends-or_continue _ s _ h λ n _.
        Ends-or_mark _ _ s _ (marked start s h _) λ len _.
          Ends-or_continue _ s _ h
            λ (id, offset) _. Ends-or_freed id _ s _ h λ _. bounds_check-Honest _ _ _ _ _ _ _

  pub memcpy_operand-Honest :
      (len : ℕ) (op : Operand) (kind : Text)
      → KeepsHonest start (memcpy_operand ctx site len op kind s)
  unfolding memcpy_operand
  memcpy_operand-Honest len op kind = Ends-or_continue _ s _ h λ n _.
      Ends-or_continue _ s _ h
        λ (id, offset) _. Ends-or_freed id _ s _ h λ _. bounds_check-Honest _ _ _ _ _ _ _

  irq_race_check-Honest : (what : Text) (id : ℕ) → Honest start (irq_race_check ctx site what id s)
  unfolding irq_race_check mark
  irq_race_check-Honest what id =
      if_keeps (Honest start) ctx.has_irq_risk _ _ (should_run_solver-IsHonest start _ _ s.gate h) h

  pub race_after-Honest :
      (what : Text) (id : ℕ) (o : Option ℤ) → Honest start (race_after ctx site what id o s)
  unfolding race_after
  race_after-Honest what id none = h
  race_after-Honest what id (some n) = irq_race_check-Honest what id

  pub dma_map_call-Honest : (c : Call) → KeepsHonest start (dma_map_call ctx site c s)
  unfolding dma_map_call
  dma_map_call-Honest c = Ends-or_mark _ _ s _ (marked start s h _) λ ptr_op _.
      Ends-or_mark _ _ s _ (marked start s h _) λ size_op _.
        Ends-or_mark _ _ s _ (marked start s h _) λ size _. Ends-or_continue _ s _ h λ n _.
          Ends-or_continue _ s _ h λ (id, offset) _. Ends-or_continue _ s _ h λ total _.
            settle_dma-Honest start _
              (check_access-IsHonest start s.gate h ctx.solver total offset size _ _) _ site _

module _ (start : HitlGate) (ctx : Ctx) (site : Site) (s : State) (h : IsHonest start s.gate) where
  pub memcpy_call-Honest : (c : Call) → KeepsHonest start (memcpy_call ctx site c s)
  unfolding memcpy_call
  memcpy_call-Honest c = Ends-or_continue _ s _ h λ dest_op _.
      Ends-or_mark _ _ s _ (marked start s h _) λ src_op _.
        Ends-or_mark _ _ s _ (marked start s h _) λ len_op _.
          Ends-or_mark _ _ s _ (marked start s h _) λ len _. Ends-break_if_failed _ (
            Ends-and_then _ _ (memcpy_operand-Honest start ctx site s h len dest_op _)
              λ t ht. memcpy_operand-Honest start ctx site t ht len src_op _)

  pub tracked_access-Honest :
      (what no_size : Text) (size : Option ℕ) (id : ℕ) (offset : ℤ)
      → KeepsHonest start (tracked_access ctx site what no_size size id offset s)
  unfolding tracked_access
  tracked_access-Honest what no_size size id offset = Ends-or_freed id _ s _ h λ _.
      Ends-or_mark size _ s _ (marked start s h _) λ n _.
        Ends-and_then _ _ (bounds_check-Honest start ctx site s h _ _ _ _ _ _ _)
          λ t ht. goes_on (race_after-Honest start ctx site t ht what id _)
