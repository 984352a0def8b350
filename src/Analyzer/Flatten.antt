-- ===== src/Analyzer/Flatten.antt =====
-- The three nested loops of `analyze` (skv-analyzer/src/main.rs) beside one walk over the instructions.
use sentinel_kv.Prelude.{ℕ, ◌+◌, ◌≡◌, refl, sym, ap, ◌∙◌, false, List, [], ◌∷◌, ◌++◌, Text, arith}
use mathlib.Core.Path.{fun_ext}
use sentinel_kv.Ir.{Instruction, BasicBlock, Function}
use sentinel_kv.Policy.{AnalysisResult, is_fail}
use sentinel_kv.Analyzer.State.{State, Ctx, Site, Flow, next, stop, and_then, break_if_failed}
use sentinel_kv.Analyzer.Step.{step}
use sentinel_kv.Analyzer.Run.{run_instrs, run_blocks, run_functions}
use sentinel_kv.Analyzer.Severity.{
  Worsens, not-fail, step-Worsens, run_instrs-Worsens, run_blocks-Worsens,
}

abbrev pub Located : Type 0
Located = Site × Instruction

abbrev pub sites_instrs : Text → ℕ → ℕ → List Instruction → List Located
sites_instrs fname bb i [] = []
sites_instrs fname bb i (x ∷ l) =
    (record { function_name = fname; bb_idx = bb; instr_idx = i }, x)
    ∷ sites_instrs fname bb (i + 1) l

abbrev pub sites_blocks : Text → ℕ → List BasicBlock → List Located
sites_blocks fname bb [] = []
sites_blocks fname bb (x ∷ l) = sites_instrs fname bb 0 x.instrs ++ sites_blocks fname (bb + 1) l

-- the instructions of a module in program order, each with its place
abbrev pub sites : List Function → List Located
sites [] = []
sites (f ∷ fs) = sites_blocks f.name 0 f.basic_blocks ++ sites fs

-- the walk with no nesting
unfoldable pub walk : Ctx → List Located → State → Flow
walk ctx [] s = next s
walk ctx ((site, x) ∷ l) s = and_then (step ctx site x s) λ s'. walk ctx l s'

and_then_assoc :
    (fl : Flow) (f g : State → Flow)
    → and_then (and_then fl f) g ≡ and_then fl (λ s. and_then (f s) g)
unfolding and_then
and_then_assoc (next s) f g = refl
and_then_assoc (stop s) f g = refl

walk-append :
    (ctx : Ctx) (xs ys : List Located) (s : State)
    → walk ctx (xs ++ ys) s ≡ and_then (walk ctx xs s) (walk ctx ys)
unfolding walk
walk-append ctx [] ys s = unfold and_then in refl
walk-append ctx ((site, x) ∷ xs) ys s =
    ap (and_then (step ctx site x s)) (fun_ext λ s'. walk-append ctx xs ys s')
    ∙ sym (and_then_assoc (step ctx site x s) _ _)

break_if_failed-id : (r : AnalysisResult) (fl : Flow) → Worsens r fl → break_if_failed fl ≡ fl
unfolding break_if_failed
break_if_failed-id r fl h = ground arith

-- two walks that go on alike from every state that the first part can reach
and_then-cong :
    (r : AnalysisResult) (fl : Flow) (f g : State → Flow)
    → Worsens r fl
    → ((s : State) → is_fail s.final_result ≡ false → f s ≡ g s)
    → and_then fl f ≡ and_then fl g
unfolding and_then
and_then-cong r (next s) f g h k = k s (not-fail r _ h)
and_then-cong r (stop s) f g h k = refl

module _ (ctx : Ctx) where
  run_instrs-eq-walk :
      (fname : Text) (bb i : ℕ) (l : List Instruction) (s : State)
      → is_fail s.final_result ≡ false
      → run_instrs ctx fname bb i l s ≡ walk ctx (sites_instrs fname bb i l) s
  unfolding run_instrs walk
  run_instrs-eq-walk fname bb i [] s h = refl
  run_instrs-eq-walk fname bb i (x ∷ l) s h =
      and_then-cong _ _ _ _ (step-Worsens ctx _ s h x)
        λ s' h'. run_instrs-eq-walk fname bb (i + 1) l s' h'

  run_blocks-eq-walk :
      (fname : Text) (bb : ℕ) (l : List BasicBlock) (s : State)
      → is_fail s.final_result ≡ false
      → run_blocks ctx fname bb l s ≡ walk ctx (sites_blocks fname bb l) s
  unfolding run_blocks
  run_blocks-eq-walk fname bb [] s h = unfold walk in refl
  run_blocks-eq-walk fname bb (x ∷ l) s h =
      let w = run_instrs-Worsens ctx fname bb 0 x.instrs s h in
      rw (break_if_failed-id _ _ w) (
        and_then-cong _ _ _ _ w (λ s' h'. run_blocks-eq-walk fname (bb + 1) l s' h')
        ∙ rw (run_instrs-eq-walk fname bb 0 x.instrs s h)
            (sym (walk-append ctx (sites_instrs fname bb 0 x.instrs) _ s)))

  -- The loops of `analyze`, with their indices and the tests behind each inner loop, run the same
  -- steps in the same order as one walk over all instructions that stops at the first failure.
  pub run_functions-eq-walk :
      (l : List Function) (s : State)
      → is_fail s.final_result ≡ false
      → run_functions ctx l s ≡ walk ctx (sites l) s
  unfolding run_functions
  run_functions-eq-walk [] s h = unfold walk in refl
  run_functions-eq-walk (f ∷ l) s h =
      let w = run_blocks-Worsens ctx f.name 0 f.basic_blocks s h in
      rw (break_if_failed-id _ _ w) (
        and_then-cong _ _ _ _ w (λ s' h'. run_functions-eq-walk l s' h')
        ∙ rw (run_blocks-eq-walk f.name 0 f.basic_blocks s h)
            (sym (walk-append ctx (sites_blocks f.name 0 f.basic_blocks) _ s)))
