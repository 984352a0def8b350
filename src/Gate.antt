-- ===== src/Gate.antt =====
-- The human-in-the-loop gate and the bounds check behind it (skv-analyzer/src/main.rs): `HitlGate`,
-- `should_run_solver`, `enforce_hitl_policy`, `vc_id`, `vc_class_id`, `check_access`. The SMT solver
-- is a parameter, a function from a closed formula to its answer.
pub mod Bounds
pub mod Approval
use sentinel_kv.Prelude.{
  ℕ, ◌≡◌, Bool, true, false, ◌||◌, List, [], ◌∷◌, ◌++◌, Text, text, decimal, contains, text_eq, ltb,
  if◌then◌else◌,
}
use sentinel_kv.Prelude.Int.{ℤ, pos, ◌+ℤ◌, ltb_ℤ}
use sentinel_kv.Policy.{HitlMode, off, require, AnalysisResult, fail}

pub record HitlGate : Type 0 where
  pub mode : HitlMode
  pub approved : List Text
  pub approved_classes : List Text
  pub seen : List Text
  pub blocked : List Text
  pub seen_classes : List Text
  pub blocked_classes : List Text

unfoldable pub is_off : HitlMode → Bool
is_off off = true
is_off require = false

-- the gate after the two pushes on `seen` and `seen_classes`
abbrev pub note_seen : Text → Text → HitlGate → HitlGate
note_seen vc_id vc_class g = record g {
  seen = g.seen ++ vc_id ∷ [];
  seen_classes = g.seen_classes ++ vc_class ∷ [];
}

-- the gate after the two pushes on `blocked` and `blocked_classes`
abbrev pub note_blocked : Text → Text → HitlGate → HitlGate
note_blocked vc_id vc_class g = record g {
  blocked = g.blocked ++ vc_id ∷ [];
  blocked_classes = g.blocked_classes ++ vc_class ∷ [];
}

unfoldable pub should_run_solver : Text → Text → HitlGate → Bool × HitlGate
unfolding is_off
should_run_solver vc_id vc_class gate =
    let g = note_seen vc_id vc_class gate in
    if is_off g.mode
    then (true, g)
    else if contains vc_id g.approved || contains vc_class g.approved_classes
    then (true, g)
    else (false, note_blocked vc_id vc_class g)

unfoldable pub enforce_hitl_policy : AnalysisResult → HitlMode → ℕ → AnalysisResult
enforce_hitl_policy result off blocked_vcs = result
enforce_hitl_policy result require blocked_vcs =
    if ltb 0 blocked_vcs
    then fail (
        text "HITL require mode rejected "
        ++ decimal blocked_vcs
        ++ text " unapproved verification condition(s)")
    else result

unfoldable pub vc_id : Text → ℕ → ℕ → Text → Text
vc_id function_name bb_idx instr_idx kind =
    function_name
    ++ (text "::bb"
        ++ (decimal bb_idx ++ (text "::i" ++ (decimal instr_idx ++ (text "::" ++ kind)))))

unfoldable pub vc_class_id : Text → ℕ → Text
vc_class_id kind access_size = text "class::" ++ (kind ++ (text "::size" ++ decimal access_size))

-- What the analyzer asks the solver: terms are closed, so an `Int` is its value.
pub data Formula : Type 0 where
  gt lt : ℤ → ℤ → Formula
  or : Formula → Formula → Formula

-- The meaning of a formula.
unfoldable pub holds : Formula → Bool
holds (gt a b) = ltb_ℤ b a
holds (lt a b) = ltb_ℤ a b
holds (or p q) = holds p || holds q

pub data SatResult : Type 0 where
  sat unsat unknown : SatResult

-- An SMT solver may give up, and is right when it answers.
pub record IsSound (solver : Formula → SatResult) : Type 0 where
  pub sat_holds : (p : Formula) → solver p ≡ sat → holds p ≡ true
  pub unsat_fails : (p : Formula) → solver p ≡ unsat → holds p ≡ false

pub data AccessCheckResult : Type 0 where
  oob safe solver_unknown hitl_blocked : AccessCheckResult

unfoldable pub of_answer : SatResult → AccessCheckResult
of_answer sat = oob
of_answer unsat = safe
of_answer SatResult.unknown = solver_unknown

unfoldable pub oob_condition : ℤ → ℤ → ℕ → Formula
oob_condition alloc_size offset access_size =
    or (gt (offset +ℤ pos access_size) alloc_size) (lt offset (pos 0))

unfoldable pub check_access :
    (Formula → SatResult) → ℤ → ℤ → ℕ → Text → Text → HitlGate → AccessCheckResult × HitlGate
unfolding should_run_solver of_answer oob_condition
check_access solver alloc_size offset access_size vc_id vc_class gate =
    let (run, g) = should_run_solver vc_id vc_class gate in
    if run
    then (of_answer (solver (oob_condition alloc_size offset access_size)), g)
    else (hitl_blocked, g)
