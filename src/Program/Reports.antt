-- ===== src/Program/Reports.antt =====
-- The files that a run of skv-analyzer/src/main.rs writes.
use sentinel_kv.CommandLine.{Env, Args}
use sentinel_kv.Prelude.{
  some-injective, ℕ, ◌≡◌, refl, sym, ap, ◌∙◌, Option, none, some, List, [], ◌∷◌, ◌++◌, Text, text,
  arith,
}
use mathlib.Core.List.{append_assoc, append-nil}
use sentinel_kv.Gate.{HitlGate, enforce_hitl_policy}
use sentinel_kv.Host.{Result, ok, err}
use sentinel_kv.Files.{Written, write_output_file}
use sentinel_kv.Files.Secure.{write_output_file-secure}
use sentinel_kv.Ring.{Decision}
use sentinel_kv.Analyzer.Run.{AnalysisOutcome, analyze}
use sentinel_kv.Program.EndToEnd.{run_analysis-Analyzed}
use sentinel_kv.Report.{Verdict, Counts, counts_of, to_json, verdict_from_result}
use sentinel_kv.Emission.{in_context}
use sentinel_kv.Console.{Effect, wrote, World, record_write, writing, if_some}
use sentinel_kv.Program.{
  ring_decision, verdict_of, show_verdict, write_verdict, write_proof, proof_content, conclude,
  run_analysis, setup_of, new_gate,
}
use sentinel_kv.Program.Status.{and_then-eq-ok, result-eq-ok, return-eq-ok, code_of-fits}

in_context-eq-ok : {A : Type 0} (m : Text) (r : Result A) (a : A) → in_context m r ≡ ok a → r ≡ ok a
unfolding in_context
in_context-eq-ok m (ok b) a h = h
in_context-eq-ok m (err e) a h = cc

record_write-eq-ok :
    (r : Result Written) (log after : List Effect) {u : Unit {0}}
    → record_write (r, log) ≡ (ok u, after)
    → (w : Written) × (r ≡ ok w) × (after ≡ log ++ wrote w ∷ [])
unfolding record_write
record_write-eq-ok (ok w) log after h = (w, refl, sym (ap (λ p. p.1) h))
record_write-eq-ok (err e) log after h = absurd (ground (arith, ap (λ p. p.0) h))

-- a file with this content that had mode 0600 when the content was written and has it at the end
abbrev pub secure_file : Text → Text → Written
secure_file path content = record {
  path = path;
  permissions = 0o600;
  written_under = some 0o600;
  content = content;
}

writing-eq-ok :
    (world : World) (message path content : Text) (log after : List Effect) {u : Unit {0}}
    → writing world (λ host. in_context message (write_output_file host path content)) log
      ≡ (ok u, after)
    → after ≡ log ++ wrote (secure_file path content) ∷ []
unfolding writing
writing-eq-ok world message path content log after h =
    let (w, done, e) =
      record_write-eq-ok (in_context message (write_output_file (world log) path content)) log after
        h in
    let s =
      write_output_file-secure (world log) path content w (in_context-eq-ok message _ w done) in
    rw (← (s.4)) e

write_verdict-eq-ok :
    (world : World) (out : Option Text) (path : Text) (v : Verdict) (log after : List Effect)
    {u : Unit {0}}
    → out ≡ some path
    → write_verdict world out v log ≡ (ok u, after)
    → after ≡ log ++ wrote (secure_file path (to_json v ++ text "\n")) ∷ []
unfolding write_verdict
write_verdict-eq-ok world none path v log after e h = cc
write_verdict-eq-ok world (some q) path v log after e h =
    rw (some-injective (sym e)) (writing-eq-ok world _ q _ log after h)

write_proof-eq-ok :
    (env : Env) (args : Args) (v : Verdict) (log after : List Effect) {u : Unit {0}}
    → write_proof env args v log ≡ (ok u, after)
    → (more : List Effect) × (after ≡ log ++ more)
unfolding write_proof
write_proof-eq-ok env args v log after h = go args.emit_proof h
  where
    go :
        (o : Option Text)
        → if_some o
            (λ path. writing env.world (λ host.
              in_context
                (text "Failed to write proof trace file: " ++ path)
                (write_output_file host path (proof_content env.arch args.proof_format v))))
            log
          ≡ (ok _, after)
        → (more : List Effect) × (after ≡ log ++ more)
    go none e = ([], sym (ap (λ p. p.1) e) ∙ sym (append-nil log))
    go (some path) e = (_, writing-eq-ok env.world _ path _ log after e)

logged_then :
    (l1 l2 l3 more log : List Effect) (x : Effect)
    → l2 ≡ l1 ++ x ∷ []
    → l3 ≡ l2 ++ more
    → log ≡ l3
    → log ≡ l1 ++ x ∷ more
logged_then l1 l2 l3 more log x a b c =
    c ∙ b ∙ ap (λ l. l ++ more) a ∙ append_assoc l1 (x ∷ []) more

-- The verdict file in what a run did: its content is the JSON of a verdict with the run's status.
pub record HasVerdictFile (env : Env) (args : Args) (path : Text) (c : ℕ) (log : List Effect)
    : Type 0 where
  pub decision : Decision
  pub counts : Counts
  pub before : List Effect
  pub after : List Effect
  pub logged :
      log
      ≡ before
        ++ wrote (secure_file path (to_json (verdict_of env args decision counts) ++ text "\n"))
          ∷ after
  pub same_code : (verdict_of env args decision counts).code ≡ c

conclude-HasVerdictFile :
    (env : Env) (args : Args) (analysis : AnalysisOutcome) (gate : HitlGate) (path : Text)
    (log log' : List Effect) (c : ℕ)
    → args.verdict_out ≡ some path
    → conclude env args (analysis, gate) log ≡ (ok c, log')
    → HasVerdictFile env args path c log'
unfolding conclude
conclude-HasVerdictFile env args analysis gate path log log' c out h =
    let (_, before, _, h0) = and_then-eq-ok (if_some args.emit_vcs _ log) _ h in
    let r = enforce_hitl_policy analysis.result args.hitl_mode analysis.hitl_blocked_vcs in
    let (d, asked, h1) = result-eq-ok (ring_decision env args r (env.world before)) _ before h0 in
    let v = verdict_of env args d (counts_of analysis) in
    let (_, l1, _, h2) = and_then-eq-ok (show_verdict args.json d.result v before) _ h1 in
    let (_, l2, w, h3) = and_then-eq-ok (write_verdict env.world args.verdict_out v l1) _ h2 in
    let (_, l3, p, h4) = and_then-eq-ok (write_proof env args v l2) _ h3 in
    let (more, e) = write_proof-eq-ok env args v l2 l3 p in
    let written = write_verdict-eq-ok env.world args.verdict_out path v l1 l2 out w in
    record {
      decision = d;
      counts = counts_of analysis;
      before = l1;
      after = more;
      logged = logged_then l1 l2 l3 more log' _ written e (sym (ap (λ q. q.1) h4));
      same_code =
          sym (unfold verdict_of verdict_from_result in code_of-fits d.result) ∙ return-eq-ok h4;
    }

-- If a run over a module ends with a status of its own (not by an error), and `--verdict-out` names a
-- file, then that file was written: it had mode 0600 when its content was written and has it at the
-- end, its content is one line with the JSON of a verdict, and the code in that verdict is the status.
pub run_analysis-HasVerdictFile :
    (env : Env) (args : Args) (path : Text) (c : ℕ) (log : List Effect)
    → args.verdict_out ≡ some path
    → run_analysis env args [] ≡ (ok c, log)
    → HasVerdictFile env args path c log
run_analysis-HasVerdictFile env args path c log out h =
    let a = run_analysis-Analyzed env args c log h in
    let r =
      analyze (setup_of env args) a.module_ir
        (new_gate args.hitl_mode a.approved a.approved_classes) in
    conclude-HasVerdictFile env args r.0 r.1 path [] log c out a.concluded
