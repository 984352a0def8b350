-- ===== src/CommandLine.antt =====
-- The command line of skv-analyzer/src/main.rs, and what the program runs on.
use sentinel_kv.Prelude.{ℕ, Bool, Option, List, Text, text}
use sentinel_kv.Ir.{Module}
use sentinel_kv.Policy.{RingMode, HitlMode, InlineAsmPolicy, DmaPolicy}
use sentinel_kv.Gate.{Formula, SatResult}
use sentinel_kv.Ring.{Attestation}
use sentinel_kv.Report.{RuntimeFallbackPolicy}
use sentinel_kv.Console.{Effect, World}

pub data ProofFormat : Type 0 where
  lfsc rup : ProofFormat

unfoldable pub proof_label : ProofFormat → Text
unfolding text
proof_label lfsc = text "lfsc"
proof_label rup = text "rup"

pub data Commands : Type 0 where
  features doctor tui attest_check : Commands
  token_template : RingMode → Commands

-- the command line; `emit_equiv_summary` is read by nothing
pub record Args : Type 0 where
  pub ir_path : Option Text
  pub ring : RingMode
  pub attestation : Attestation
  pub json : Bool
  pub verdict_out : Option Text
  pub hitl_mode : HitlMode
  pub hitl_approvals : Option Text
  pub hitl_class_approvals : Option Text
  pub emit_vcs : Option Text
  pub runtime_fallback : RuntimeFallbackPolicy
  pub proof_format : ProofFormat
  pub emit_proof : Option Text
  pub inline_asm_policy : InlineAsmPolicy
  pub dma_policy : DmaPolicy
  pub command : Option Commands

-- what `Module::from_ir_path` may do
pub data Parsed : Type 0 where
  panicked : Parsed
  failed : Text → Parsed
  parsed : Module → Parsed

-- what the program runs on: the build's target, the files and the bridge, the IR parser, the solver
pub record Env : Type 0 where
  pub arch : Text
  pub is_linux : Bool
  pub zig_ok : Bool
  pub world : World
  pub from_ir_path : Text → List Effect → Parsed
  pub solver : Formula → SatResult
  pub iteration : List ℕ → List ℕ
  pub type_depth : ℕ
