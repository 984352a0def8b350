-- ===== src/Examples/Reports.antt =====
-- Whole runs on the sample driver, their reports, and the theorems about them there.
use sentinel_kv.CommandLine.{Args, attest_check}
use sentinel_kv.Prelude.{
  ◌≡◌, refl, true, none, some, List, [], ◌∷◌, Text, text, contains, length, all, text_eq,
}
use sentinel_kv.Prelude.Int.{negsuc}
use sentinel_kv.Host.{ok}
use sentinel_kv.Policy.{AnalysisResult, ring_m2, token_ring, fail, require, hitl_label}
use sentinel_kv.Gate.{HitlGate}
use sentinel_kv.Console.{Effect}
use sentinel_kv.Analyzer.Run.{count_distinct}
use sentinel_kv.Json.{size, is_printable}
use sentinel_kv.Json.Reader.{read}
use sentinel_kv.Report.{message_of, arm_mte, no_counts, resolved, verdict_from_result, to_json}
use sentinel_kv.Report.Valid.{document, to_json-read}
use sentinel_kv.Emission.{sorted_set, emission}
use sentinel_kv.Emission.Counts.{is_strict, sorted_set-counts}
use sentinel_kv.Emission.Valid.{is_clean, IsCleanGate, emission_document, emission-read}
use sentinel_kv.Ring.Verdicts.{IsTrusted}
use sentinel_kv.Program.{main, run_analysis}
use sentinel_kv.Program.EndToEnd.{Assured, main-zero-Assured, attest_check-zero-IsTrusted}
use sentinel_kv.Program.ExitCodes.{is_status, main-status}
use sentinel_kv.Program.Reports.{HasVerdictFile, run_analysis-HasVerdictFile}
use sentinel_kv.Examples.Sample.{
  host, attestation, fingerprint, decode, exact, exact-IsSound, safe_driver,
}
use sentinel_kv.Examples.Computed.{computed}
use sentinel_kv.Examples.Decided.{decided}
use sentinel_kv.Examples.Ran.{ran, env, args, effects_of}

abbrev log : List Effect
log = effects_of (main env args 0 [])

zero_status : main env args 0 [] ≡ some (0, log)
unfolding env args safe_driver exact host attestation fingerprint decode computed decided ran
zero_status = refl

main-zero-Assured_example : Assured env args
unfolding env args
main-zero-Assured_example = main-zero-Assured env args 0 [] log exact-IsSound refl zero_status

main-status_example : is_status 0 ≡ true
main-status_example = main-status env args 0 [] 0 log zero_status

abbrev check_args : Args
check_args = record args { command = some attest_check }

check_status : main env check_args 0 [] ≡ some (0, effects_of (main env check_args 0 []))
unfolding env args safe_driver exact host attestation fingerprint decode computed decided ran
check_status = refl

attest_check-zero-IsTrusted_example : IsTrusted (env.world []) ring_m2 (negsuc 1) attestation
unfolding args env token_ring
attest_check-zero-IsTrusted_example =
    attest_check-zero-IsTrusted env check_args 0 [] (effects_of (main env check_args 0 []))
      (negsuc 1) refl refl check_status

analysis_status : run_analysis env args [] ≡ (ok 0, (run_analysis env args []).1)
unfolding env args safe_driver exact host attestation fingerprint decode computed decided ran
analysis_status = refl

run_analysis-HasVerdictFile_example :
    HasVerdictFile env args (text "verdict.json") 0 (run_analysis env args []).1
unfolding args
run_analysis-HasVerdictFile_example =
    run_analysis-HasVerdictFile env args (text "verdict.json") 0 (run_analysis env args []).1 refl
      analysis_status

-- a message with quotes, a backslash and a line feed
abbrev awkward : AnalysisResult
awkward = fail (text "store \"a\\b\"\n")

to_json-read_example :
    (let v =
        verdict_from_result awkward
          (some fingerprint)
          none
          (resolved (text "arm") arm_mte)
          (hitl_label require)
          no_counts in
      read 30 (to_json v) ≡ some (document v, []))
unfolding fingerprint text is_printable message_of
to_json-read_example =
    to_json-read awkward (some fingerprint) none (text "arm") arm_mte require no_counts refl refl
      refl

abbrev asked : List Text
asked = text "b" ∷ text "a" ∷ text "b" ∷ []

sorted_set-counts_example :
    (is_strict (sorted_set asked) ≡ true)
    × ((t : Text) → contains t (sorted_set asked) ≡ contains t asked)
    × (length (sorted_set asked) ≡ count_distinct asked)
sorted_set-counts_example = sorted_set-counts asked

-- three conditions, one of them twice
abbrev asked_gate : HitlGate
asked_gate = record {
  mode = require;
  approved = [];
  approved_classes = [];
  seen = text "f::bb0::i1" ∷ text "f::bb0::i0" ∷ text "f::bb0::i1" ∷ [];
  blocked = text "f::bb0::i1" ∷ [];
  seen_classes = text "class::store::size4" ∷ [];
  blocked_classes = [];
}

asked_gate-IsCleanGate : IsCleanGate asked_gate
unfolding is_clean text all
asked_gate-IsCleanGate = record {
  seen = refl;
  blocked = refl;
  seen_classes = refl;
  blocked_classes = refl;
}

emission-read_example :
    read (size (emission_document asked_gate)) (emission asked_gate)
    ≡ some (emission_document asked_gate, b'\n' ∷ [])
emission-read_example = emission-read asked_gate asked_gate-IsCleanGate
