-- ===== src/Analyzer/State.antt =====
-- The local variables of `analyze` (skv-analyzer/src/main.rs) as one record, and the ways in which
-- an arm of its match ends: on to the next instruction (by `continue` or at the end of the arm), or
-- out of the loop by `break`.
use sentinel_kv.Prelude.{
  ℕ, ◌+◌, Bool, Option, none, some, List, [], ◌++◌, Text, Map, insert, contains, nat_eq,
  if◌then◌else◌,
}
use sentinel_kv.Prelude.Int.{ℤ, pos}
use sentinel_kv.Ir.{Name, name_eq, Module}
use sentinel_kv.Policy.{
  AnalysisResult, pass, fail, mark_unknown, is_fail, InlineAsmPolicy, DmaPolicy,
}
use sentinel_kv.Gate.{HitlGate, Formula, SatResult}

pub data PtrVal : Type 0 where
  kmalloc : ℕ → ℤ → PtrVal
  dma_alloc : ℕ → ℤ → PtrVal
  unknown : PtrVal

pub data IntVal : Type 0 where
  ptr_offset : ℕ → ℤ → IntVal
  unknown : IntVal

-- what the analysis reads and never writes
pub record Ctx : Type 0 where
  pub module_ir : Module
  pub solver : Formula → SatResult
  pub inline_asm_policy : InlineAsmPolicy
  pub dma_policy : DmaPolicy
  pub has_irq_risk : Bool
  pub type_depth : ℕ

-- where the analysis stands
pub record Site : Type 0 where
  pub function_name : Text
  pub bb_idx : ℕ
  pub instr_idx : ℕ

pub record State : Type 0 where
  pub gate : HitlGate
  pub ptr_env : Map Name PtrVal
  pub int_env : Map Name IntVal
  pub alloc_sizes : Map ℕ ℤ
  pub freed_allocs : List ℕ
  pub alloc_counter : ℕ
  pub final_result : AnalysisResult
  pub alloca_store_map : Map Name PtrVal
  pub alloca_names : List Name
  pub inline_asm_vcs : ℕ
  pub dma_vcs : ℕ
  pub dma_allocs_in_func : List ℕ
  pub iommu_mapped_in_func : List ℕ
  pub irq_race_vcs : ℕ

unfoldable pub init : HitlGate → State
init hitl_gate = record {
  gate = hitl_gate;
  ptr_env = [];
  int_env = [];
  alloc_sizes = [];
  freed_allocs = [];
  alloc_counter = 0;
  final_result = pass;
  alloca_store_map = [];
  alloca_names = [];
  inline_asm_vcs = 0;
  dma_vcs = 0;
  dma_allocs_in_func = [];
  iommu_mapped_in_func = [];
  irq_race_vcs = 0;
}

-- `ptrval_alloc_info`
unfoldable pub ptrval_alloc_info : PtrVal → Option (ℕ × ℤ)
ptrval_alloc_info (kmalloc alloc_id offset) = some (alloc_id, offset)
ptrval_alloc_info (dma_alloc alloc_id offset) = some (alloc_id, offset)
ptrval_alloc_info PtrVal.unknown = none

pub data Flow : Type 0 where
  next : State → Flow
  stop : State → Flow

-- `mark_unknown(&mut final_result, reason)`
unfoldable pub mark : Text → State → State
mark reason s = record s { final_result = mark_unknown s.final_result reason }

-- `final_result = AnalysisResult::Fail(message); break;`
unfoldable pub fail_with : Text → State → Flow
fail_with message s = stop (record s { final_result = fail message })

unfoldable pub set_ptr : Name → PtrVal → State → State
set_ptr n v s = record s { ptr_env = insert n v s.ptr_env }

unfoldable pub set_int : Name → IntVal → State → State
set_int n v s = record s { int_env = insert n v s.int_env }

-- `if let Some(dest) = &call.dest { ptr_env.insert(dest.clone(), v); }`
unfoldable pub set_dest : Option Name → PtrVal → State → State
set_dest none v s = s
set_dest (some n) v s = set_ptr n v s

-- `let id = alloc_counter; alloc_counter += 1; alloc_sizes.insert(id, Int::from_u64(size));`
unfoldable pub fresh_alloc : ℕ → State → State
fresh_alloc size s = record s {
  alloc_sizes = insert s.alloc_counter (pos size) s.alloc_sizes;
  alloc_counter = s.alloc_counter + 1;
}

module _ {A : Type 0} where
  -- `let Some(a) = o else { mark_unknown(&mut final_result, reason); continue; };`
  unfoldable pub or_mark : Option A → Text → State → (A → Flow) → Flow
  or_mark none reason s k = next (mark reason s)
  or_mark (some a) reason s k = k a

  -- `let Some(a) = o else { continue; };`, and `if let Some(a) = o { … }` at the end of an arm
  unfoldable pub or_continue : Option A → State → (A → Flow) → Flow
  or_continue none s k = next s
  or_continue (some a) s k = k a

unfoldable pub and_then : Flow → (State → Flow) → Flow
and_then (next s) k = k s
and_then (stop s) k = stop s

-- `if matches!(final_result, AnalysisResult::Fail(_)) { break; }` behind an inner loop
unfoldable pub break_if_failed : Flow → Flow
break_if_failed (next s) = if is_fail s.final_result then stop s else next s
break_if_failed (stop s) = if is_fail s.final_result then stop s else next s

-- `if freed_allocs.contains(&alloc_id) { final_result = Fail(message); break; }`
unfoldable pub or_freed : ℕ → Text → State → Flow → Flow
or_freed alloc_id message s k = if contains alloc_id s.freed_allocs then fail_with message s else k

-- ` in function <name>` and the like
abbrev pub in_function : Text → Site → Text
in_function message site = message ++ site.function_name
