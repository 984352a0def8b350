-- ===== src/Program.antt =====
-- `main` and `run` of skv-analyzer/src/main.rs: the subcommands, the attestation check, and the whole
-- analysis with its reports.
pub mod Status
pub mod ExitCodes
pub mod Reports
pub mod EndToEnd
use sentinel_kv.CommandLine.{
  ProofFormat, lfsc, rup, proof_label, Commands, features, doctor, tui, attest_check,
  token_template, Args, Parsed, panicked, failed, parsed, Env,
}
use sentinel_kv.Prelude.{
  ℕ, ◌%◌, Bool, true, false, ◌&&◌, not, Option, none, some, is_some, List, [], ◌∷◌, ◌++◌, Text,
  text, decimal, if◌then◌else◌,
}
use sentinel_kv.Ir.{Module}
use sentinel_kv.Policy.{
  RingMode, HitlMode, off, require, hitl_label, InlineAsmPolicy, DmaPolicy, AnalysisResult, pass,
  fail, unknown,
}
use sentinel_kv.Gate.{HitlGate, Formula, SatResult, enforce_hitl_policy}
use sentinel_kv.Host.{Host, Result, ok, err, ensure}
use sentinel_kv.Files.{write_output_file, load_hitl_approvals}
use sentinel_kv.Ring.{Attestation, Decision, apply_ring_policy}
use sentinel_kv.Analyzer.Run.{Setup, AnalysisOutcome, analyze}
use sentinel_kv.Report.{
  RuntimeFallbackPolicy, resolved, Verdict, to_json, Counts, counts_of, no_counts,
  verdict_from_result,
}
use sentinel_kv.Emission.{emit_hitl_vcs, in_context}
use sentinel_kv.Console.{
  Effect, warned, World, Action, return, println, asking, writing, if_some, ◌>>=◌, ◌>>◌, and_then,
}
use sentinel_kv.Catalog.{print_feature_catalog, feature_catalog_json}
use sentinel_kv.Doctor.{run_doctor, print_token_template}
use sentinel_kv.Tui.{Input, run_tui}

-- the lines of a verdict as text
unfoldable pub tag_of : AnalysisResult → Text
unfolding text
tag_of pass = text "[PASS] "
tag_of (fail m) = text "[FAIL] "
tag_of (unknown m) = text "[UNKNOWN] "

unfoldable pub show_verdict : Bool → AnalysisResult → Verdict → Action (Unit {0})
unfolding text to_json tag_of
show_verdict json result v = if json then println (to_json v) else (do
  println (tag_of result ++ v.message)
  println (text "[INFO] runtime fallback policy: " ++ v.runtime_fallback)
  println (
      text "[INFO] HITL mode: "
      ++ (v.hitl_mode
          ++ (text " (seen_vcs="
              ++ (decimal v.hitl_seen_vcs
                  ++ (text ", blocked_vcs="
                      ++ (decimal v.hitl_blocked_vcs
                          ++ (text ", seen_classes="
                              ++ (decimal v.hitl_seen_classes
                                  ++ (text ", blocked_classes="
                                      ++ (decimal v.hitl_blocked_classes ++ text ")")))))))))))

-- `if let Some(path) = &args.verdict_out { … }`
unfoldable pub write_verdict : World → Option Text → Verdict → Action (Unit {0})
unfolding text to_json writing in_context if_some
write_verdict world out v = if_some out λ path. writing world λ host.
    in_context (text "Failed to write verdict file: " ++ path)
      (write_output_file host path (to_json v ++ text "\n"))

unfoldable pub proof_content : Text → ProofFormat → Verdict → Text
unfolding text proof_label
proof_content arch format v =
    text ";; Sentinel-KV Z3 Proof Trace (Format: "
    ++ (proof_label format
        ++ (text ")\n;; Verdict Status: "
            ++ (v.status
                ++ (text "\n;; Target Arch: " ++ (arch ++ text "\n(proof-trace-placeholder)\n")))))

unfoldable pub write_proof : Env → Args → Verdict → Action (Unit {0})
unfolding text proof_content writing in_context if_some
write_proof env args v = if_some args.emit_proof λ path. writing env.world λ host.
    in_context (text "Failed to write proof trace file: " ++ path)
      (write_output_file host path (proof_content env.arch args.proof_format v))

-- `ExitCode::from(verdict.code as u8)`
abbrev pub exit_code : Verdict → ℕ
exit_code v = v.code % 256

-- the ring policy on the outside as it is then
abbrev pub ring_decision : Env → Args → AnalysisResult → Host → Result Decision
ring_decision env args result host = ok (apply_ring_policy host result args.ring args.attestation)

unfoldable pub verdict_of : Env → Args → Decision → Counts → Verdict
unfolding verdict_from_result
verdict_of env args d counts =
    verdict_from_result d.result d.key_fingerprint d.token_sha256
      (resolved env.arch args.runtime_fallback) (hitl_label args.hitl_mode) counts

-- the arm of `attest-check`
unfoldable pub run_attest_check : Env → Args → Action ℕ
unfolding verdict_of show_verdict write_verdict
run_attest_check env args = do
  d ← asking env.world (ring_decision env args pass)
  let v = verdict_of env args d no_counts
  show_verdict args.json d.result v
  write_verdict env.world args.verdict_out v
  return (exit_code v)

-- `ok_or_else`, and the parser behind `catch_unwind`
unfoldable pub the_path : Option Text → Result Text
unfolding text
the_path none = err (text "IR_PATH is required unless using `features` command")
the_path (some path) = ok path

unfoldable pub the_module : Parsed → Result Module
unfolding text
the_module panicked = err (
    text
      "LLVM IR parser panicked on input; possible LLVM producer/consumer mismatch (this binary expects LLVM 19 IR). Use `attest-check` for trust-only validation or provide LLVM 19-compatible IR")
the_module (failed e) = err (text "Failed to parse LLVM IR: " ++ e)
the_module (parsed m) = ok m

-- `require` needs a source of approvals
unfoldable pub has_source : Args → Bool
has_source args = elim args.hitl_mode [
  | off ↦ true
  | require ↦ elim (is_some args.hitl_approvals) [
    | true ↦ true
    | false ↦ is_some args.hitl_class_approvals
  ]
]

unfoldable pub approvals_from : Option Text → Host → Result (List Text)
approvals_from none host = ok []
approvals_from (some path) host = load_hitl_approvals host path

unfoldable pub class_approvals_from : HitlMode → Option Text → Host → Result (List Text)
unfolding approvals_from
class_approvals_from off source host = ok []
class_approvals_from require source host = approvals_from source host

unfoldable pub new_gate : HitlMode → List Text → List Text → HitlGate
new_gate mode approved approved_classes = record {
  mode = mode;
  approved = approved;
  approved_classes = approved_classes;
  seen = [];
  blocked = [];
  seen_classes = [];
  blocked_classes = [];
}

unfoldable pub setup_of : Env → Args → Setup
setup_of env args = record {
  inline_asm_policy = args.inline_asm_policy;
  dma_policy = args.dma_policy;
  solver = env.solver;
  iteration = env.iteration;
  type_depth = env.type_depth;
}

-- what the run does with the analysis: the emission, both policies, the reports, the exit code
unfoldable pub conclude : Env → Args → AnalysisOutcome × HitlGate → Action ℕ
unfolding verdict_of show_verdict write_verdict write_proof
conclude env args (analysis, gate) = do
  if_some args.emit_vcs (λ path. writing env.world λ host. emit_hitl_vcs host path gate)
  d ← asking env.world (
      ring_decision env args
        (enforce_hitl_policy analysis.result args.hitl_mode analysis.hitl_blocked_vcs))
  let v = verdict_of env args d (counts_of analysis)
  show_verdict args.json d.result v
  write_verdict env.world args.verdict_out v
  write_proof env args v
  return (exit_code v)

-- `run` with no subcommand
unfoldable pub run_analysis : Env → Args → Action ℕ
unfolding the_path the_module has_source class_approvals_from new_gate setup_of conclude
run_analysis env args = do
  path ← asking env.world (λ host. the_path args.ir_path)
  m ← (λ log. (the_module (env.from_ir_path path log), log))
  asking env.world (λ host. ensure (has_source args) (
      text
        "--hitl-mode require needs at least one approval source: --hitl-approvals or --hitl-class-approvals"))
  approved ← asking env.world (approvals_from args.hitl_approvals)
  approved_classes ←
      asking env.world (class_approvals_from args.hitl_mode args.hitl_class_approvals)
  conclude env args
      (analyze (setup_of env args) m (new_gate args.hitl_mode approved approved_classes))

-- the arms of the subcommands; `fuel` bounds the rounds of the menu, and `inputs` is what it reads
unfoldable pub run_command :
    Env → Args → ℕ → List Input → Commands → List Effect → Option (Result ℕ × List Effect)
unfolding run_attest_check
run_command env args fuel inputs features log =
    some
      ((do if args.json then println feature_catalog_json else print_feature_catalog; return 0) log)
run_command env args fuel inputs doctor log = some (
    (do all_ok ← run_doctor env.is_linux env.zig_ok args.json; return (if all_ok then 0 else 12))
      log)
run_command env args fuel inputs (token_template ring) log =
    some ((do print_token_template ring args.json; return 0) log)
run_command env args fuel inputs tui log = run_tui fuel env.is_linux env.zig_ok inputs log
run_command env args fuel inputs attest_check log = some (run_attest_check env args log)

unfoldable pub run : Env → Args → ℕ → List Input → Option (Result ℕ × List Effect)
unfolding run_command run_analysis
run env args fuel inputs = elim args.command [
  | none ↦ some (run_analysis env args [])
  | some c ↦ run_command env args fuel inputs c []
]

-- the exit status, and the line on the standard error
unfoldable pub exit_of : Result ℕ × List Effect → ℕ × List Effect
unfolding text
exit_of (ok code, log) = (code, log)
exit_of (err e, log) = (1, log ++ warned (text "[ERROR] " ++ e) ∷ [])

-- `none` while the menu goes on
unfoldable pub main : Env → Args → ℕ → List Input → Option (ℕ × List Effect)
unfolding run exit_of
main env args fuel inputs = elim (run env args fuel inputs) [
  | none ↦ none
  | some r ↦ some (exit_of r)
]
