-- ===== src/Program/Status.antt =====
-- The exit status of `main` (skv-analyzer/src/main.rs).
use sentinel_kv.CommandLine.{Env, Args}
use sentinel_kv.Prelude.{ℕ, ◌%◌, ◌≡◌, refl, sym, ◌∙◌, ap, List, arith}
use sentinel_kv.Policy.{AnalysisResult, pass, fail, unknown}
use sentinel_kv.Host.{Result, ok, err, ok-injective}
use sentinel_kv.Console.{Effect, Action, and_then, if_some}
use sentinel_kv.Gate.{HitlGate, enforce_hitl_policy}
use sentinel_kv.Analyzer.Run.{AnalysisOutcome}
use sentinel_kv.Report.{counts_of, code_of, verdict_from_result}
use sentinel_kv.Ring.{apply_ring_policy}
use sentinel_kv.Program.{
  verdict_of, conclude, ring_decision, show_verdict, write_verdict, write_proof,
}

-- A successful chain: the first step succeeds, and the second goes on from what it left.
pub and_then-eq-ok :
    {A B : Type 0} (r : Result A × List Effect) (f : A → Action B) {b : B} {log : List Effect}
    → and_then r f ≡ (ok b, log)
    → (a : A) × (mid : List Effect) × (r ≡ (ok a, mid)) × (f a mid ≡ (ok b, log))
unfolding and_then
and_then-eq-ok (ok a, mid) f h = (a, mid, refl, h)
and_then-eq-ok (err e, mid) f h = absurd (ground (arith, ap (λ p. p.0) h))

-- a step that leaves the log alone
pub result-eq-ok :
    {A B : Type 0} (r : Result A) (f : A → Action B) (log : List Effect) {b : B}
    {after : List Effect}
    → and_then (r, log) f ≡ (ok b, after)
    → (a : A) × (r ≡ ok a) × (f a log ≡ (ok b, after))
unfolding and_then
result-eq-ok (ok a) f log h = (a, refl, h)
result-eq-ok (err e) f log h = absurd (ground (arith, ap (λ p. p.0) h))

pub return-eq-ok :
    {A : Type 0} {a b : A} {l m : List Effect}
    → (let r : Result A × List Effect = (ok a, l) in r) ≡ (ok b, m)
    → a ≡ b
return-eq-ok {A} {a} {b} {l} {m} h = ok-injective (ap (λ p. p.0) h)

pub code_of-fits : (r : AnalysisResult) → code_of r % 256 ≡ code_of r
unfolding code_of
code_of-fits pass = refl
code_of-fits (fail m) = refl
code_of-fits (unknown m) = refl

-- A run behind the analysis that comes to its end: the ring policy was asked at some moment, and the
-- status is the code of its result.
pub conclude-eq-ok :
    (env : Env) (args : Args) (analysis : AnalysisOutcome) (gate : HitlGate)
    (log log' : List Effect) (c : ℕ)
    → conclude env args (analysis, gate) log ≡ (ok c, log')
    → (before : List Effect) × (c
        ≡ code_of
            (apply_ring_policy
              (env.world before)
              (enforce_hitl_policy analysis.result args.hitl_mode analysis.hitl_blocked_vcs)
              args.ring
              args.attestation).result)
unfolding conclude verdict_of verdict_from_result
conclude-eq-ok env args analysis gate log log' c h =
    let (_, before, _, h0) = and_then-eq-ok (if_some args.emit_vcs _ log) _ h in
    let r = enforce_hitl_policy analysis.result args.hitl_mode analysis.hitl_blocked_vcs in
    let (d, asked, h1) = result-eq-ok (ring_decision env args r (env.world before)) _ before h0 in
    let (_, l1, _, h2) =
      and_then-eq-ok
        (show_verdict args.json d.result (verdict_of env args d (counts_of analysis)) before) _
        h1 in
    let (_, l2, _, h3) =
      and_then-eq-ok
        (write_verdict env.world args.verdict_out (verdict_of env args d (counts_of analysis)) l1) _
        h2 in
    let (_, _, _, h4) =
      and_then-eq-ok (write_proof env args (verdict_of env args d (counts_of analysis)) l2) _ h3 in
    (
      before,
      sym (return-eq-ok h4)
          ∙ code_of-fits d.result
          ∙ ap (λ x. code_of x.result) (sym (ok-injective asked)),
    )
