-- ===== src/Analyzer/WellFormed.antt =====
-- The arms of `analyze` (skv-analyzer/src/main.rs) on the bookkeeping of the state.
use sentinel_kv.Prelude.{ℕ, ◌≡◌, ◌<◌, refl, Option, none, some, Text, get, nat_eq, arith, ◌>>=◌}
use sentinel_kv.Prelude.Int.{ℤ, pos}
use sentinel_kv.Ir.{
  Call, Operand, Name, name_eq, Target, operand, inline_assembly, operand_local_name,
}
use sentinel_kv.Policy.{InlineAsmPolicy, conservative, trap}
use sentinel_kv.Gate.{AccessCheckResult, oob, safe, solver_unknown, hitl_blocked}
use sentinel_kv.InlineAsm.{is_safe_inline_asm}
use sentinel_kv.Analyzer.State.{State, Ctx, Site, PtrVal, dma_alloc, Flow, mark, fresh_alloc}
use sentinel_kv.Analyzer.Heap.{
  allocate, kmalloc_call, kcalloc_call, calloc_total, kfree_call, kmalloc_of,
}
use sentinel_kv.Analyzer.Memory.{bounds_check, settle, spill, reload, spill_value, reload_value}
use sentinel_kv.Analyzer.Dma.{asm_call, opaque_asm, dma_alloc_call, settle_dma, iommu_map_call}
use sentinel_kv.Analyzer.Ends.{
  Ends, goes_on, Ends-if, Ends-fail_with, Ends-or_freed, Ends-or_mark, Ends-or_continue, if_keeps,
}
use sentinel_kv.Analyzer.Provenance.{
  IsWellFormed, PtrBelow, ptr_at, spilled_at, set_ptr-IsWellFormed, fresh_alloc-IsWellFormed,
  set_dest-IsWellFormed, spill_to-IsWellFormed, free-IsWellFormed, dma-IsWellFormed,
}

-- on every way out of an arm
abbrev pub KeepsWellFormed : Flow → Type 0
KeepsWellFormed = Ends IsWellFormed IsWellFormed

kmalloc_of-below :
    (n : ℕ) (o : Option PtrVal) (id : ℕ) (off : ℤ)
    → ((p : PtrVal) → o ≡ some p → PtrBelow n p)
    → kmalloc_of o ≡ some (id, off)
    → id < n
unfolding kmalloc_of
kmalloc_of-below n none id off h e = cc
kmalloc_of-below n (some p) id off h e = ground (arith, h p refl)

fresh_below : (s : State) (size : ℕ) → s.alloc_counter < (fresh_alloc size s).alloc_counter
unfolding fresh_alloc
fresh_below s size = omega arith

module _ (s : State) (h : IsWellFormed s) where
  pub mark-IsWellFormed : (m : Text) → IsWellFormed (mark m s)
  unfolding mark
  mark-IsWellFormed m = h

  allocate-IsWellFormed : (c : Call) (size : ℕ) → IsWellFormed (allocate c size s)
  unfolding allocate
  allocate-IsWellFormed c size =
      set_dest-IsWellFormed (fresh_alloc size s) (fresh_alloc-IsWellFormed s h size) c.dest _
        (fresh_below s size)

  pub kmalloc_call-WellFormed : (c : Call) → KeepsWellFormed (kmalloc_call c s)
  unfolding kmalloc_call
  kmalloc_call-WellFormed c = Ends-or_mark _ _ s _ (mark-IsWellFormed _) λ size_op _.
      Ends-or_mark _ _ s _ (mark-IsWellFormed _) λ size _. goes_on (allocate-IsWellFormed c size)

  calloc_total-WellFormed : (c : Call) (o : Option ℕ) → KeepsWellFormed (calloc_total c o s)
  unfolding calloc_total
  calloc_total-WellFormed c none = Ends-fail_with _ s h
  calloc_total-WellFormed c (some n) = goes_on (allocate-IsWellFormed c n)

  pub kcalloc_call-WellFormed : (c : Call) → KeepsWellFormed (kcalloc_call c s)
  unfolding kcalloc_call
  kcalloc_call-WellFormed c = Ends-or_mark _ _ s _ (mark-IsWellFormed _) λ nmemb_op _.
      Ends-or_mark _ _ s _ (mark-IsWellFormed _) λ size_op _.
        Ends-or_mark _ _ s _ (mark-IsWellFormed _) λ (a, b) _. calloc_total-WellFormed c _

  pub kfree_call-WellFormed : (site : Site) (c : Call) → KeepsWellFormed (kfree_call site c s)
  unfolding kfree_call
  kfree_call-WellFormed site c = Ends-or_mark _ _ s _ (mark-IsWellFormed _) λ ptr_op _.
      Ends-or_mark _ _ s _ (mark-IsWellFormed _) λ n _. Ends-or_continue _ s _ h λ (id, off) e.
        Ends-or_freed id _ s _ h
          λ _. goes_on (free-IsWellFormed s h id (kmalloc_of-below _ _ id off (ptr_at s h n) e))

  pub asm_call-WellFormed :
      (p : InlineAsmPolicy) (site : Site) (t : Target) → KeepsWellFormed (asm_call p site t s)
  unfolding asm_call opaque_asm mark
  asm_call-WellFormed p site (operand op) = goes_on h
  asm_call-WellFormed trap site (inline_assembly a) = Ends-fail_with _ _ h
  asm_call-WellFormed conservative site (inline_assembly a) =
      Ends-if (is_safe_inline_asm a) _ _ (λ _. goes_on h) (λ _. goes_on h)

  pub dma_alloc_call-WellFormed :
      (site : Site) (c : Call) → KeepsWellFormed (dma_alloc_call site c s)
  unfolding dma_alloc_call
  dma_alloc_call-WellFormed site c = Ends-or_mark _ _ s _ (mark-IsWellFormed _) λ size_op _.
      Ends-or_mark _ _ s _ (mark-IsWellFormed _) λ size _. goes_on (
        set_dest-IsWellFormed _
          (dma-IsWellFormed (fresh_alloc size s) (fresh_alloc-IsWellFormed s h size) s.alloc_counter
            (fresh_below s size))
          c.dest (dma_alloc s.alloc_counter (pos 0)) (fresh_below s size))

  pub iommu_map_call-WellFormed : KeepsWellFormed (iommu_map_call s)
  unfolding iommu_map_call
  iommu_map_call-WellFormed = goes_on h

module _ (ctx : Ctx) (s : State) (h : IsWellFormed s) where
  settle-WellFormed : (r : AccessCheckResult) (a b c : Text) → KeepsWellFormed (settle r a b c s)
  unfolding settle
  settle-WellFormed oob a b c = Ends-fail_with _ s h
  settle-WellFormed safe a b c = goes_on h
  settle-WellFormed solver_unknown a b c = goes_on (mark-IsWellFormed s h _)
  settle-WellFormed hitl_blocked a b c = goes_on (mark-IsWellFormed s h _)

  pub settle_dma-WellFormed :
      (r : AccessCheckResult) (site : Site) (vc : Text) → KeepsWellFormed (settle_dma r site vc s)
  unfolding settle_dma mark
  settle_dma-WellFormed oob site vc = Ends-fail_with _ _ h
  settle_dma-WellFormed safe site vc = goes_on h
  settle_dma-WellFormed solver_unknown site vc = goes_on h
  settle_dma-WellFormed hitl_blocked site vc = goes_on h

  ptr_behind :
      (o : Option Name) (p : PtrVal)
      → (o >>= λ n. get n s.ptr_env) ≡ some p
      → PtrBelow s.alloc_counter p
  ptr_behind none p e = cc
  ptr_behind (some n) p e = ptr_at s h n p e

  spill_value-IsWellFormed :
      (n : Name) (o : Option PtrVal)
      → ((p : PtrVal) → o ≡ some p → PtrBelow s.alloc_counter p)
      → IsWellFormed (spill_value n o s)
  unfolding spill_value
  spill_value-IsWellFormed n none hp = h
  spill_value-IsWellFormed n (some p) hp = spill_to-IsWellFormed s h n p (hp p refl)

  pub spill-IsWellFormed : (n : Name) (v : Operand) → IsWellFormed (spill n v s)
  unfolding spill
  spill-IsWellFormed n v =
      if_keeps IsWellFormed _ _ _ (spill_value-IsWellFormed n _ (ptr_behind (operand_local_name v)))
        h

  reload_value-IsWellFormed :
      (d : Name) (o : Option PtrVal)
      → ((p : PtrVal) → o ≡ some p → PtrBelow s.alloc_counter p)
      → IsWellFormed (reload_value d o s)
  unfolding reload_value
  reload_value-IsWellFormed d none hp = h
  reload_value-IsWellFormed d (some p) hp = set_ptr-IsWellFormed s h d p (hp p refl)

  pub reload-IsWellFormed : (n d : Name) → IsWellFormed (reload n d s)
  unfolding reload
  reload-IsWellFormed n d =
      if_keeps IsWellFormed _ _ _ (reload_value-IsWellFormed d _ (spilled_at s h n)) h

module _ (ctx : Ctx) (s : State) (h : IsWellFormed s) where
  pub bounds_check-WellFormed :
      (id : ℕ) (off : ℤ) (size : ℕ) (a b c d : Text)
      → KeepsWellFormed (bounds_check ctx id off size a b c d s)
  unfolding bounds_check
  bounds_check-WellFormed id off size a b c d =
      Ends-or_mark _ _ s _ (mark-IsWellFormed s h _) λ n _. settle-WellFormed ctx _ h _ _ _ _
