-- ===== src/Program/ExitCodes.antt =====
-- The exit statuses that `main` (skv-analyzer/src/main.rs) can give.
use sentinel_kv.CommandLine.{
  Env, Args, Commands, features, doctor, tui, attest_check, token_template,
}
use sentinel_kv.Prelude.{
  some-injective, ℕ, zero, suc, ◌%◌, ◌≡◌, refl, ap, Bool, true, false, ◌||◌, Option, none, some,
  List, [], if◌then◌else◌, nat_beq,
}
use sentinel_kv.Policy.{AnalysisResult, pass, fail, unknown}
use sentinel_kv.Host.{Result, ok, err}
use sentinel_kv.Console.{Effect, Action, and_then}
use sentinel_kv.Report.{code_of, verdict_from_result}
use sentinel_kv.Analyzer.Run.{AnalysisOutcome}
use sentinel_kv.Gate.{HitlGate}
use sentinel_kv.Tui.{
  Input, no_flush, no_read, line, next_input, Turn, returns, again, pause_tui, after_show, prompt,
  turn, run_tui, is_quit, choice_of, show_choice,
}
use sentinel_kv.Program.{
  verdict_of, conclude, run_analysis, run_attest_check, run_command, run, exit_of, main,
}

-- 0 pass, 1 error, 10 fail, 12 doctor, 20 unknown
abbrev pub is_status : ℕ → Bool
is_status c = nat_beq c 0 || nat_beq c 1 || nat_beq c 10 || nat_beq c 12 || nat_beq c 20

abbrev HasStatus : Result ℕ × List Effect → Type 0
HasStatus (ok c, log) = is_status c ≡ true
HasStatus (err e, log) = Unit

-- a chain has a status if its last step has one
and_then-HasStatus :
    {A : Type 0} (r : Result A × List Effect) (f : A → Action ℕ)
    → ((a : A) (log : List Effect) → HasStatus (f a log))
    → HasStatus (and_then r f)
unfolding and_then
and_then-HasStatus (ok a, log) f h = h a log
and_then-HasStatus (err e, log) f h = tt

is_status-code_of : (r : AnalysisResult) → is_status (code_of r % 256) ≡ true
unfolding code_of
is_status-code_of pass = refl
is_status-code_of (fail m) = refl
is_status-code_of (unknown m) = refl

conclude-HasStatus :
    (env : Env) (args : Args) (r : AnalysisOutcome × HitlGate) (log : List Effect)
    → HasStatus (conclude env args r log)
unfolding conclude verdict_of verdict_from_result
conclude-HasStatus env args (analysis, gate) log = and_then-HasStatus _ _ λ _ l0.
    and_then-HasStatus _ _ λ d l1. and_then-HasStatus _ _ λ _ l2.
      and_then-HasStatus _ _ λ _ l3. and_then-HasStatus _ _ λ _ l4. is_status-code_of d.result

run_analysis-HasStatus :
    (env : Env) (args : Args) (log : List Effect) → HasStatus (run_analysis env args log)
unfolding run_analysis
run_analysis-HasStatus env args log = and_then-HasStatus _ _ λ path l0.
    and_then-HasStatus _ _ λ m l1. and_then-HasStatus _ _ λ _ l2.
      and_then-HasStatus _ _
        λ approved l3. and_then-HasStatus _ _ λ classes l4. conclude-HasStatus env args _ l4

attest_check-HasStatus :
    (env : Env) (args : Args) (log : List Effect) → HasStatus (run_attest_check env args log)
unfolding run_attest_check verdict_of verdict_from_result
attest_check-HasStatus env args log =
    and_then-HasStatus _ _ λ d l0.
      and_then-HasStatus _ _ λ _ l1. and_then-HasStatus _ _ λ _ l2. is_status-code_of d.result

abbrev TurnHasStatus : Turn → Type 0
TurnHasStatus (returns r log) = HasStatus (r, log)
TurnHasStatus (again inputs log) = Unit

pause-HasStatus : (i : Input × List Input) (log : List Effect) → TurnHasStatus (pause_tui i log)
unfolding pause_tui
pause-HasStatus (no_flush, rest) log = tt
pause-HasStatus (no_read, rest) log = tt
pause-HasStatus (line s, rest) log = tt

after_show-HasStatus :
    (rest : List Input) (r : Result (Unit {0}) × List Effect) → TurnHasStatus (after_show rest r)
unfolding after_show
after_show-HasStatus rest (ok _, log) = pause-HasStatus (next_input rest) log
after_show-HasStatus rest (err e, log) = tt

prompt-HasStatus :
    (is_linux zig_ok : Bool) (i : Input × List Input) (log : List Effect)
    → TurnHasStatus (prompt is_linux zig_ok i log)
unfolding prompt
prompt-HasStatus is_linux zig_ok (no_flush, rest) log = tt
prompt-HasStatus is_linux zig_ok (no_read, rest) log = tt
prompt-HasStatus is_linux zig_ok (line s, rest) log = go (is_quit (choice_of s))
  where
    go :
        (b : Bool)
        → TurnHasStatus (
            if b
            then returns (ok 0) log
            else after_show rest (show_choice is_linux zig_ok (choice_of s) log))
    go true = refl
    go false = after_show-HasStatus rest _

-- the statement about a run that may still go on
abbrev OptionHasStatus : Option (Result ℕ × List Effect) → Type 0
OptionHasStatus none = Unit
OptionHasStatus (some r) = HasStatus r

run_tui-HasStatus :
    (f : ℕ) (is_linux zig_ok : Bool) (inputs : List Input) (log : List Effect)
    → OptionHasStatus (run_tui f is_linux zig_ok inputs log)
unfolding run_tui
run_tui-HasStatus zero is_linux zig_ok inputs log = tt
run_tui-HasStatus (suc f) is_linux zig_ok inputs log =
    go (turn is_linux zig_ok inputs log)
      (unfold turn in prompt-HasStatus is_linux zig_ok (next_input inputs) _)
      (run_tui-HasStatus f is_linux zig_ok)
  where
    go :
        (t : Turn)
        → TurnHasStatus t
        → ((rest : List Input) (after : List Effect)
            → OptionHasStatus (run_tui f is_linux zig_ok rest after))
        → OptionHasStatus (elim t [
          | returns r after ↦ some (r, after)
          | again rest after ↦ run_tui f is_linux zig_ok rest after
        ])
    go (returns r after) h k = h
    go (again rest after) h k = k rest after

doctor_status_lem : (all_ok : Bool) → is_status (if all_ok then 0 else 12) ≡ true
doctor_status_lem true = refl
doctor_status_lem false = refl

run_command-HasStatus :
    (env : Env) (args : Args) (fuel : ℕ) (inputs : List Input) (c : Commands) (log : List Effect)
    → OptionHasStatus (run_command env args fuel inputs c log)
unfolding run_command
run_command-HasStatus env args fuel inputs features log = and_then-HasStatus _ _ λ _ l. refl
run_command-HasStatus env args fuel inputs doctor log =
    and_then-HasStatus _ _ λ all_ok l. doctor_status_lem all_ok
run_command-HasStatus env args fuel inputs (token_template level) log =
    and_then-HasStatus _ _ λ _ l. refl
run_command-HasStatus env args fuel inputs tui log =
    run_tui-HasStatus fuel env.is_linux env.zig_ok inputs log
run_command-HasStatus env args fuel inputs attest_check log = attest_check-HasStatus env args log

run-HasStatus :
    (env : Env) (args : Args) (fuel : ℕ) (inputs : List Input)
    → OptionHasStatus (run env args fuel inputs)
unfolding run
run-HasStatus env args fuel inputs = go args.command
  where
    go :
        (o : Option Commands)
        → OptionHasStatus (elim o [
          | none ↦ some (run_analysis env args [])
          | some c ↦ run_command env args fuel inputs c []
        ])
    go none = run_analysis-HasStatus env args []
    go (some c) = run_command-HasStatus env args fuel inputs c []

exit_of-status : (r : Result ℕ × List Effect) → HasStatus r → is_status (exit_of r).0 ≡ true
unfolding exit_of
exit_of-status (ok c, log) h = h
exit_of-status (err e, log) h = refl

-- Whatever the arguments that the command line was parsed into, the files and the input, a run of
-- `main` from there on that ends gives the status 0, 1, 10, 12 or 20. (A usage error ends the program
-- before.)
pub main-status :
    (env : Env) (args : Args) (fuel : ℕ) (inputs : List Input) (c : ℕ) (log : List Effect)
    → main env args fuel inputs ≡ some (c, log)
    → is_status c ≡ true
unfolding main
main-status env args fuel inputs c log h =
    go (run env args fuel inputs) (run-HasStatus env args fuel inputs) h
  where
    go :
        (o : Option (Result ℕ × List Effect))
        → OptionHasStatus o
        → elim o [ none ↦ none | some r ↦ some (exit_of r) ] ≡ some (c, log)
        → is_status c ≡ true
    go none k e = cc
    go (some r) k e = rw (ap (λ p. p.0) (some-injective e)) at (exit_of-status r k)
