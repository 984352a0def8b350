-- ===== src/Analyzer/Verdict.antt =====
-- The verdict of `analyze` over the whole run, and the accesses that it lets through.
use sentinel_kv.Prelude.{ℕ, ◌≡◌, refl, true, false, Option, none, List, [], ◌∷◌, arith}
use sentinel_kv.Ir.{
  Operand, Name, Ty, Call, Instruction, alloca, call, get_element_ptr, ptr_to_int, int_to_ptr,
  bit_cast, store, load, other_instruction, Module,
}
use sentinel_kv.Policy.{AnalysisResult, pass, is_fail, DmaPolicy, verify, require_iommu, ignore}
use sentinel_kv.Gate.{HitlGate, IsSound}
use sentinel_kv.Analyzer.State.{State, Ctx, Site, Flow, next, stop, and_then, init, set_ptr}
use sentinel_kv.Analyzer.Memory.{
  store_instr, load_instr, spill, spill_value, reload, reload_value, tracked,
}
use sentinel_kv.Analyzer.Dma.{iommu_check, unmapped_result}
use sentinel_kv.Analyzer.Step.{Callee, dispatch, call_instr, step}
use sentinel_kv.Analyzer.Run.{Setup, context, analyzed, outcome, analyze, final_state}
use sentinel_kv.Analyzer.Severity.{Worsens, not-fail, step-Worsens, dispatch-Worsens}
use sentinel_kv.Analyzer.Ends.{goes_on, leaves, ended, Ends-if, Ends-map}
use sentinel_kv.Analyzer.Flatten.{Located, sites, walk}
use sentinel_kv.Analyzer.Bookkeeping.{analyzed-eq-walk, init-not_fail}
use sentinel_kv.Analyzer.Access.{
  AreInBounds, accesses, call_accesses, store_accesses, load_accesses,
}
use sentinel_kv.Analyzer.Soundness.{
  Sound, nothing, Sound-or_continue, tracked_access-Sound, memset_call-Sound, memcpy_call-Sound,
  AreInBounds-same,
}

-- Every instruction is passed, and uses memory only within live allocations.
abbrev pub SafeRun : Ctx → List Located → State → Type 0
SafeRun ctx [] s = Unit
SafeRun ctx ((site, i) ∷ l) s =
    (t : State) × (step ctx site i s ≡ next t) × AreInBounds s (accesses ctx s i) × SafeRun ctx l t

abbrev pub SameBooks : State → State → Type 0
SameBooks s t =
    (t.alloc_sizes ≡ s.alloc_sizes)
    × (t.freed_allocs ≡ s.freed_allocs)
    × (t.final_result ≡ s.final_result)

pub spill-books : (n : Name) (v : Operand) (s : State) → SameBooks s (spill n v s)
unfolding spill spill_value
spill-books n v s = ground arith

ptr_env-spill : (n : Name) (v : Operand) (s : State) → (spill n v s).ptr_env ≡ s.ptr_env
unfolding spill spill_value
ptr_env-spill n v s = ground arith

pub tracked-spill : (k n : Name) (v : Operand) (s : State) → tracked k (spill n v s) ≡ tracked k s
unfolding tracked
tracked-spill k n v s = rw (ptr_env-spill n v s)

pub reload-books : (n d : Name) (s : State) → SameBooks s (reload n d s)
unfolding reload reload_value set_ptr
reload-books n d s = ground arith

module _ (ctx : Ctx) (site : Site) (sound : IsSound ctx.solver) (s : State) where
  -- an access that is checked by the books of `t` is safe by the same books of `s`
  from_books :
      (t : State) (l : _) (fl : Flow)
      → SameBooks s t
      → Sound t (AreInBounds t l) fl
      → Sound s (AreInBounds s l) fl
  from_books t l fl b h =
      Ends-map h λ u k e. let (p, inside) = k e in (cc (b.2), AreInBounds-same s t l b.0 b.1 inside)

  store_instr-Sound :
      (a v : Operand)
      → Sound s (AreInBounds s (store_accesses ctx s a v)) (store_instr ctx site a v s)
  unfolding store_instr store_accesses
  store_instr-Sound a v = Sound-or_continue s s _ _ _ λ n _.
      let t = spill n v s in
      rw (← tracked-spill n n v s) (
        from_books t _ _ (spill-books n v s) (
          Sound-or_continue t t _ _ _
            λ (id, off) _. tracked_access-Sound ctx site sound t _ _ _ id off))

  load_instr-Sound :
      (a : Operand) (d : Name) (ty : Ty)
      → Sound s (AreInBounds s (load_accesses ctx s a d ty)) (load_instr ctx site a d ty s)
  unfolding load_instr load_accesses
  load_instr-Sound a d ty = Sound-or_continue s s _ _ _ λ n _.
      let t = reload n d s in
      from_books t _ _ (reload-books n d s) (
        Sound-or_continue t t _ _ _
          λ (id, off) _. tracked_access-Sound ctx site sound t _ _ _ id off)

-- an instruction that uses no memory: that the verdict only gets worse is enough
Worsens-Sound :
    (s : State) (fl : Flow)
    → is_fail s.final_result ≡ false
    → Worsens s.final_result fl
    → Sound s (AreInBounds s []) fl
Worsens-Sound s (next t) h w = goes_on λ e. (ground arith, nothing)
Worsens-Sound s (stop t) h w = leaves w

module _ (ctx : Ctx) (site : Site) (sound : IsSound ctx.solver) (s : State)
    (h : is_fail s.final_result ≡ false) where
  no_access : (i : Instruction) → Sound s (AreInBounds s []) (step ctx site i s)
  no_access i = Worsens-Sound s _ h (step-Worsens ctx site s h i)

  no_access_call : (c : Call) (k : Callee) → Sound s (AreInBounds s []) (dispatch ctx site c k s)
  no_access_call c k = Worsens-Sound s _ h (dispatch-Worsens ctx site s h c k)

  dispatch-Sound :
      (c : Call) (k : Callee)
      → Sound s (AreInBounds s (call_accesses s c k)) (dispatch ctx site c k s)
  unfolding dispatch call_accesses
  dispatch-Sound c Callee.memset = memset_call-Sound ctx site sound s c
  dispatch-Sound c Callee.memcpy = memcpy_call-Sound ctx site sound s c
  dispatch-Sound c Callee.kmalloc = no_access_call c Callee.kmalloc
  dispatch-Sound c Callee.kcalloc = no_access_call c Callee.kcalloc
  dispatch-Sound c Callee.kfree = no_access_call c Callee.kfree
  dispatch-Sound c Callee.no_name = no_access_call c Callee.no_name
  dispatch-Sound c Callee.dma_alloc = no_access_call c Callee.dma_alloc
  dispatch-Sound c Callee.dma_map = no_access_call c Callee.dma_map
  dispatch-Sound c Callee.iommu_map = no_access_call c Callee.iommu_map
  dispatch-Sound c Callee.other_call = no_access_call c Callee.other_call

  step-Sound : (i : Instruction) → Sound s (AreInBounds s (accesses ctx s i)) (step ctx site i s)
  unfolding step call_instr accesses
  step-Sound (call c) =
      Ends-if (is_fail s.final_result) _ _ (λ f. leaves f) (λ _. dispatch-Sound c _)
  step-Sound (store a v) = store_instr-Sound ctx site sound s a v
  step-Sound (load a d ty) = load_instr-Sound ctx site sound s a d ty
  step-Sound (alloca d) = no_access (alloca d)
  step-Sound (get_element_ptr gep) = no_access (get_element_ptr gep)
  step-Sound (ptr_to_int op d) = no_access (ptr_to_int op d)
  step-Sound (int_to_ptr op d) = no_access (int_to_ptr op d)
  step-Sound (bit_cast op d) = no_access (bit_cast op d)
  step-Sound (Instruction.add a b d) = no_access (Instruction.add a b d)
  step-Sound (Instruction.sub a b d) = no_access (Instruction.sub a b d)
  step-Sound other_instruction = no_access other_instruction

not-pass : (s : State) → is_fail s.final_result ≡ true → ¬ (s.final_result ≡ pass)
not-pass s h e = ground arith

module _ (ctx : Ctx) (sound : IsSound ctx.solver) where
  -- one step and the rest of the walk
  walk_on :
      (site : Site) (i : Instruction) (l : List Located) (s : State) (fl : Flow)
      → step ctx site i s ≡ fl
      → is_fail s.final_result ≡ false
      → Worsens s.final_result fl
      → Sound s (AreInBounds s (accesses ctx s i)) fl
      → ((t : State)
          → is_fail t.final_result ≡ false
          → (final_state (walk ctx l t)).final_result ≡ pass
          → (t.final_result ≡ pass) × SafeRun ctx l t)
      → (final_state (and_then fl (λ t. walk ctx l t))).final_result ≡ pass
      → (s.final_result ≡ pass) × SafeRun ctx ((site, i) ∷ l) s
  unfolding and_then final_state
  walk_on site i l s (next t) e h w sd rest p =
      let (q, run) = rest t (not-fail _ _ w) p in
      let (r, inside) = ended sd q in (r, (t, e, inside, run))
  walk_on site i l s (stop t) e h w sd rest p = absurd (not-pass t w p)

  pub walk-pass :
      (l : List Located) (s : State)
      → is_fail s.final_result ≡ false
      → (final_state (walk ctx l s)).final_result ≡ pass
      → (s.final_result ≡ pass) × SafeRun ctx l s
  unfolding walk
  walk-pass [] s h p = (unfold final_state in p, tt)
  walk-pass ((site, i) ∷ l) s h p =
      walk_on site i l s (step ctx site i s) refl h (step-Worsens ctx site s h i)
        (step-Sound ctx site sound s h i) (walk-pass l) p

unmapped_result-pass :
    (o : Option ℕ) (r : AnalysisResult) → unmapped_result o r ≡ pass → (o ≡ none) × (r ≡ pass)
unfolding unmapped_result
unmapped_result-pass o r e = ground arith

iommu_check-pass :
    (it : List ℕ → List ℕ) (p : DmaPolicy) (s : State)
    → iommu_check it p s ≡ pass
    → s.final_result ≡ pass
unfolding iommu_check
iommu_check-pass it verify s e = e
iommu_check-pass it ignore s e = e
iommu_check-pass it require_iommu s e = (unmapped_result-pass _ _ e).1

-- With a solver whose answers are right, the verdict `Pass` of `analyze` means that the run went
-- over all instructions of the module in order and was never left early. At each `memset` and
-- `memcpy` of constant length through a pointer tracked to the kmalloc family, and at each store and
-- load through a tracked pointer, the allocation was not freed and holds all bytes of the access,
-- as sizes and offsets are tracked.
pub analyze-pass-safe :
    (setup : Setup) (m : Module) (g : HitlGate)
    → IsSound setup.solver
    → (analyze setup m g).0.result ≡ pass
    → SafeRun (context setup m) (sites m.functions) (init g)
unfolding analyze outcome context
analyze-pass-safe setup m g sound p =
    let final = iommu_check-pass setup.iteration setup.dma_policy (analyzed setup m g) p in
    (walk-pass (context setup m) sound (sites m.functions) (init g) (init-not_fail g)
      (rw (analyzed-eq-walk setup m g) at final)).1
