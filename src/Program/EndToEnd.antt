-- ===== src/Program/EndToEnd.antt =====
-- A run of `main` (skv-analyzer/src/main.rs) from the command line to its exit status.
use sentinel_kv.CommandLine.{Env, Args, attest_check, Parsed, parsed, panicked, failed}
use sentinel_kv.Prelude.{
  some-injective, ℕ, ◌≡◌, refl, sym, ap, ◌∙◌, Bool, true, false, Option, none, some, List, [], Text,
  arith,
}
use sentinel_kv.Prelude.Int.{ℤ, negsuc}
use sentinel_kv.Ir.{Module}
use sentinel_kv.Policy.{
  RingMode, ring0, ring_m1, ring_m2, token_ring, HitlMode, off, require, AnalysisResult, pass, fail,
  unknown,
}
use sentinel_kv.Gate.{IsSound, enforce_hitl_policy}
use sentinel_kv.Gate.Approval.{Approved}
use sentinel_kv.Host.{Host, Result, ok, err, ok-injective, ensure}
use sentinel_kv.Ring.{Attestation, apply_ring_policy}
use sentinel_kv.Ring.Verdicts.{IsTrusted, strict-pass-IsTrusted, ring0-keeps}
use sentinel_kv.Analyzer.State.{init}
use sentinel_kv.Analyzer.Run.{Setup, analyze, context}
use sentinel_kv.Analyzer.Flatten.{sites}
use sentinel_kv.Analyzer.Verdict.{SafeRun, analyze-pass-safe}
use sentinel_kv.Analyzer.Approval.{require-pass-Approved}
use sentinel_kv.Console.{Effect}
use sentinel_kv.Report.{code_of, verdict_from_result, no_counts}
use sentinel_kv.Tui.{Input}
use sentinel_kv.Program.{
  the_path, the_module, has_source, approvals_from, class_approvals_from, new_gate, setup_of,
  conclude, run_analysis, run_attest_check, run, main, exit_of, ring_decision, verdict_of,
  show_verdict, write_verdict,
}
use sentinel_kv.Program.Status.{
  and_then-eq-ok, result-eq-ok, return-eq-ok, conclude-eq-ok, code_of-fits,
}

-- What a run that comes to its end has read, and the analysis behind which it concludes.
pub record Analyzed (env : Env) (args : Args) (c : ℕ) (log : List Effect) : Type 0 where
  pub path : Text
  pub module_ir : Module
  pub approved : List Text
  pub approved_classes : List Text
  pub path_given : args.ir_path ≡ some path
  pub module_parsed : env.from_ir_path path [] ≡ parsed module_ir
  pub source_given : has_source args ≡ true
  pub approvals_read : approvals_from args.hitl_approvals (env.world []) ≡ ok approved
  pub classes_read :
      class_approvals_from args.hitl_mode args.hitl_class_approvals (env.world [])
      ≡ ok approved_classes
  pub concluded :
      conclude env args
        (analyze (setup_of env args) module_ir (new_gate args.hitl_mode approved approved_classes))
        []
      ≡ (ok c, log)

the_path-eq-ok : (o : Option Text) (p : Text) → the_path o ≡ ok p → o ≡ some p
unfolding the_path
the_path-eq-ok none p h = cc
the_path-eq-ok (some q) p h = ap some (ok-injective h)

the_module-eq-ok : (p : Parsed) (m : Module) → the_module p ≡ ok m → p ≡ parsed m
unfolding the_module
the_module-eq-ok panicked m h = cc
the_module-eq-ok (failed e) m h = cc
the_module-eq-ok (parsed n) m h = ap parsed (ok-injective h)

ensure-eq-ok : (b : Bool) (m : Text) {u : Unit {0}} → ensure b m ≡ ok u → b ≡ true
unfolding ensure
ensure-eq-ok true m h = refl
ensure-eq-ok false m h = cc

pub run_analysis-Analyzed :
    (env : Env) (args : Args) (c : ℕ) (log : List Effect)
    → run_analysis env args [] ≡ (ok c, log)
    → Analyzed env args c log
unfolding run_analysis
run_analysis-Analyzed env args c log h =
    let (path, hp, h1) = result-eq-ok (the_path args.ir_path) _ [] h in
    let (m, hm, h2) = result-eq-ok (the_module (env.from_ir_path path [])) _ [] h1 in
    let (_, hs, h3) = result-eq-ok (ensure (has_source args) _) _ [] h2 in
    let (approved, ha, h4) =
      result-eq-ok (approvals_from args.hitl_approvals (env.world [])) _ [] h3 in
    let (classes, hc, h5) =
      result-eq-ok (class_approvals_from args.hitl_mode args.hitl_class_approvals (env.world [])) _
        [] h4 in
    record {
      path = path;
      module_ir = m;
      approved = approved;
      approved_classes = classes;
      path_given = the_path-eq-ok _ _ hp;
      module_parsed = the_module-eq-ok _ _ hm;
      source_given = ensure-eq-ok _ _ hs;
      approvals_read = ha;
      classes_read = hc;
      concluded = h5;
    }

-- Only a result that ends with status 0 makes `main` end with status 0.
exit_of_zero :
    (r : Result ℕ × List Effect) (log : List Effect) → exit_of r ≡ (0, log) → r ≡ (ok 0, log)
unfolding exit_of
exit_of_zero (ok c, l) log h = ground (arith, ap (λ p. p.0) h, ap (λ p. p.1) h)
exit_of_zero (err e, l) log h = absurd (ground (arith, ap (λ p. p.0) h))

main-analysis :
    (env : Env) (args : Args) (fuel : ℕ) (inputs : List Input) (log : List Effect)
    → args.command ≡ none
    → main env args fuel inputs ≡ some (0, log)
    → run_analysis env args [] ≡ (ok 0, log)
unfolding main
main-analysis env args fuel inputs log e h =
    exit_of_zero _ log (some-injective (unfold run in rw e at h))

code_of_zero : (r : AnalysisResult) → code_of r ≡ 0 → r ≡ pass
unfolding code_of
code_of_zero pass h = refl
code_of_zero (fail m) h = absurd (omega arith)
code_of_zero (unknown m) h = absurd (omega arith)

-- behind any ring a pass rests on a pass
ring-pass :
    (host : Host) (r : AnalysisResult) (level : RingMode) (args : Attestation)
    → (apply_ring_policy host r level args).result ≡ pass
    → r ≡ pass
unfolding token_ring
ring-pass host r ring0 args h = rw (ring0-keeps host r args) at h
ring-pass host r ring_m1 args h = (strict-pass-IsTrusted host ring_m1 r args (negsuc 0) refl h).0
ring-pass host r ring_m2 args h = (strict-pass-IsTrusted host ring_m2 r args (negsuc 1) refl h).0

enforce-pass :
    (r : AnalysisResult) (mode : HitlMode) (n : ℕ) → enforce_hitl_policy r mode n ≡ pass → r ≡ pass
unfolding enforce_hitl_policy
enforce-pass r off n h = h
enforce-pass r require n h = ground arith

-- What status 0 assures of the module that was read.
pub record Assured (env : Env) (args : Args) : Type 0 where
  pub path : Text
  pub module_ir : Module
  pub approved : List Text
  pub approved_classes : List Text
  pub path_given : args.ir_path ≡ some path
  pub module_parsed : env.from_ir_path path [] ≡ parsed module_ir
  pub approvals_read : approvals_from args.hitl_approvals (env.world []) ≡ ok approved
  pub classes_read :
      class_approvals_from args.hitl_mode args.hitl_class_approvals (env.world [])
      ≡ ok approved_classes
  -- every instruction uses live memory in bounds
  pub safe :
      SafeRun
        (context (setup_of env args) module_ir)
        (sites module_ir.functions)
        (init (new_gate args.hitl_mode approved approved_classes))
  -- under `require` each condition was approved
  pub approved_all :
      args.hitl_mode ≡ require
      → (let g = new_gate args.hitl_mode approved approved_classes in
          let after = (analyze (setup_of env args) module_ir g).1 in
          Approved g after.seen after.seen_classes)
  -- in a strict ring the attestation holds
  pub trusted :
      (n : ℤ)
      → token_ring args.ring ≡ some n
      → (before : List Effect) × IsTrusted (env.world before) args.ring n args.attestation

require-Approved :
    (setup : Setup) (m : Module) (mode : HitlMode) (approved classes : List Text)
    → (let o = (analyze setup m (new_gate mode approved classes)).0 in
        enforce_hitl_policy o.result mode o.hitl_blocked_vcs)
      ≡ pass
    → mode ≡ require
    → (let g = new_gate mode approved classes in
        let after = (analyze setup m g).1 in Approved g after.seen after.seen_classes)
unfolding new_gate
require-Approved setup m off approved classes p e = absurd (ground arith)
require-Approved setup m require approved classes p e =
    require-pass-Approved setup m (new_gate require approved classes) (refl, refl, refl) refl p

-- With a solver whose answers are right, if `main` with no subcommand ends with status 0, then the
-- module at the path was parsed, its run is safe in the sense of the analysis, under
-- `--hitl-mode require` each condition had an approval from the files that were read, and in a
-- strict ring the whole chain of attestation checks held when the ring policy was asked.
pub main-zero-Assured :
    (env : Env) (args : Args) (fuel : ℕ) (inputs : List Input) (log : List Effect)
    → IsSound env.solver
    → args.command ≡ none
    → main env args fuel inputs ≡ some (0, log)
    → Assured env args
unfolding setup_of
main-zero-Assured env args fuel inputs log sound no_command h =
    let a =
      run_analysis-Analyzed env args 0 log (main-analysis env args fuel inputs log no_command h) in
    let g = new_gate args.hitl_mode a.approved a.approved_classes in
    let r = analyze (setup_of env args) a.module_ir g in
    let (before, code) = conclude-eq-ok env args r.0 r.1 [] log 0 a.concluded in
    let verdict = enforce_hitl_policy r.0.result args.hitl_mode r.0.hitl_blocked_vcs in
    let decided = code_of_zero _ (sym code) in
    let hitl = ring-pass (env.world before) verdict args.ring args.attestation decided in
    record {
      path = a.path;
      module_ir = a.module_ir;
      approved = a.approved;
      approved_classes = a.approved_classes;
      path_given = a.path_given;
      module_parsed = a.module_parsed;
      approvals_read = a.approvals_read;
      classes_read = a.classes_read;
      safe =
          analyze-pass-safe (setup_of env args) a.module_ir g sound
            (enforce-pass _ args.hitl_mode _ hitl);
      approved_all =
          require-Approved (setup_of env args) a.module_ir args.hitl_mode a.approved
            a.approved_classes hitl;
      trusted = λ n e. (
        before,
        (strict-pass-IsTrusted (env.world before) args.ring verdict args.attestation n e decided).1,
      );
    }

attest_check-IsTrusted :
    (env : Env) (args : Args) (log : List Effect) (n : ℤ)
    → token_ring args.ring ≡ some n
    → run_attest_check env args [] ≡ (ok 0, log)
    → IsTrusted (env.world []) args.ring n args.attestation
unfolding run_attest_check verdict_of verdict_from_result
attest_check-IsTrusted env args log n ring h =
    let (d, asked, h1) = result-eq-ok (ring_decision env args pass (env.world [])) _ [] h in
    let v = verdict_of env args d no_counts in
    let (_, l1, _, h2) = and_then-eq-ok (show_verdict args.json d.result v []) _ h1 in
    let (_, _, _, h3) = and_then-eq-ok (write_verdict env.world args.verdict_out v l1) _ h2 in
    let passed = code_of_zero d.result (sym (code_of-fits d.result) ∙ return-eq-ok h3) in
    (strict-pass-IsTrusted (env.world []) args.ring pass args.attestation n ring
      (ap (λ x. x.result) (ok-injective asked) ∙ passed)).1

-- If `attest-check` in a strict ring ends with status 0, the whole chain of attestation checks held.
pub attest_check-zero-IsTrusted :
    (env : Env) (args : Args) (fuel : ℕ) (inputs : List Input) (log : List Effect) (n : ℤ)
    → args.command ≡ some attest_check
    → token_ring args.ring ≡ some n
    → main env args fuel inputs ≡ some (0, log)
    → IsTrusted (env.world []) args.ring n args.attestation
unfolding main
attest_check-zero-IsTrusted env args fuel inputs log n e ring h =
    let done = exit_of_zero _ log (some-injective (unfold run in rw e at h)) in
    attest_check-IsTrusted env args log n ring done
