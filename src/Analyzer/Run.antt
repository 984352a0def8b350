-- ===== src/Analyzer/Run.antt =====
-- The three loops of `analyze`, the check behind them, and the outcome.
use sentinel_kv.Prelude.{ℕ, ◌+◌, Bool, true, false, List, [], ◌∷◌, Text, length, add, text_eq}
use sentinel_kv.Ir.{Instruction, BasicBlock, Function, Module}
use sentinel_kv.Policy.{AnalysisResult, InlineAsmPolicy, DmaPolicy}
use sentinel_kv.Gate.{HitlGate, Formula, SatResult}
use sentinel_kv.Irq.{scan_irq_handlers}
use sentinel_kv.Analyzer.State.{State, Ctx, Flow, next, stop, and_then, break_if_failed, init}
use sentinel_kv.Analyzer.Step.{step}
use sentinel_kv.Analyzer.Dma.{iommu_check}

-- `for (instr_idx, instr) in bb.instrs.iter().enumerate()`
unfoldable pub run_instrs : Ctx → Text → ℕ → ℕ → List Instruction → State → Flow
run_instrs ctx fname bb_idx i [] s = next s
run_instrs ctx fname bb_idx i (instr ∷ rest) s =
    and_then (step ctx (record { function_name = fname; bb_idx = bb_idx; instr_idx = i }) instr s)
      λ s'. run_instrs ctx fname bb_idx (i + 1) rest s'

-- `for (bb_idx, bb) in func.basic_blocks.iter().enumerate()`
unfoldable pub run_blocks : Ctx → Text → ℕ → List BasicBlock → State → Flow
run_blocks ctx fname bb_idx [] s = next s
run_blocks ctx fname bb_idx (bb ∷ rest) s =
    and_then (break_if_failed (run_instrs ctx fname bb_idx 0 bb.instrs s))
      λ s'. run_blocks ctx fname (bb_idx + 1) rest s'

-- `for func in &module.functions`
unfoldable pub run_functions : Ctx → List Function → State → Flow
run_functions ctx [] s = next s
run_functions ctx (f ∷ fs) s =
    and_then (break_if_failed (run_blocks ctx f.name 0 f.basic_blocks s))
      λ s'. run_functions ctx fs s'

-- the variables after a loop, however it ended
unfoldable pub final_state : Flow → State
final_state (next s) = s
final_state (stop s) = s

-- `collect::<HashSet<_>>().len()`
unfoldable pub distinct : List Text → List Text → List Text
distinct [] out = out
distinct (x ∷ xs) out = distinct xs (add x out)

unfoldable pub count_distinct : List Text → ℕ
unfolding distinct
count_distinct xs = length (distinct xs [])

pub record AnalysisOutcome : Type 0 where
  pub result : AnalysisResult
  pub hitl_seen_vcs : ℕ
  pub hitl_blocked_vcs : ℕ
  pub hitl_seen_classes : ℕ
  pub hitl_blocked_classes : ℕ
  pub inline_asm_vcs : ℕ
  pub dma_vcs : ℕ
  pub irq_race_vcs : ℕ

unfoldable pub is_empty_set : List Text → Bool
is_empty_set [] = true
is_empty_set (x ∷ xs) = false

-- What `analyze` is given besides the module and the gate: the two policies, and what stands outside
-- the program, the solver, the order in which a hash set is walked, and the bound on the nesting of
-- types.
pub record Setup : Type 0 where
  pub inline_asm_policy : InlineAsmPolicy
  pub dma_policy : DmaPolicy
  pub solver : Formula → SatResult
  pub iteration : List ℕ → List ℕ
  pub type_depth : ℕ

unfoldable pub context : Setup → Module → Ctx
unfolding is_empty_set
context setup m = record {
  module_ir = m;
  solver = setup.solver;
  inline_asm_policy = setup.inline_asm_policy;
  dma_policy = setup.dma_policy;
  has_irq_risk = elim (is_empty_set (scan_irq_handlers m)) [ true ↦ false | false ↦ true ];
  type_depth = setup.type_depth;
}

-- the variables when all loops are done
unfoldable pub analyzed : Setup → Module → HitlGate → State
analyzed setup m hitl_gate =
    final_state (run_functions (context setup m) m.functions (init hitl_gate))

unfoldable pub outcome : Setup → State → AnalysisOutcome
outcome setup s = record {
  result = iommu_check setup.iteration setup.dma_policy s;
  hitl_seen_vcs = count_distinct s.gate.seen;
  hitl_blocked_vcs = count_distinct s.gate.blocked;
  hitl_seen_classes = count_distinct s.gate.seen_classes;
  hitl_blocked_classes = count_distinct s.gate.blocked_classes;
  inline_asm_vcs = s.inline_asm_vcs;
  dma_vcs = s.dma_vcs;
  irq_race_vcs = s.irq_race_vcs;
}

-- The outcome, and the gate that the caller lent.
unfoldable pub analyze : Setup → Module → HitlGate → AnalysisOutcome × HitlGate
unfolding analyzed outcome
analyze setup m hitl_gate = let s = analyzed setup m hitl_gate in (outcome setup s, s.gate)
