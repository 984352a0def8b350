-- ===== src/Gate/Bounds.antt =====
-- What the answers of `check_access` mean.
use sentinel_kv.Prelude.{ℕ, ◌≡◌, refl, Bool, true, false, Text, if◌then◌else◌, arith}
use sentinel_kv.Prelude.Int.{ℤ, pos, ◌+ℤ◌, ◌≤ℤ◌}
use sentinel_kv.Gate.{
  HitlGate, Formula, holds, SatResult, sat, unsat, IsSound, AccessCheckResult, oob, safe,
  solver_unknown, hitl_blocked, should_run_solver, check_access, oob_condition, of_answer,
}

-- no byte before the start, none past the end
pub holds-oob_condition :
    (total off : ℤ) (size : ℕ)
    → holds (oob_condition total off size) ≡ false
    → (pos 0 ≤ℤ off) × (off +ℤ pos size ≤ℤ total)
unfolding holds oob_condition
holds-oob_condition total off size h = ground arith

of_answer-safe : (a : SatResult) → of_answer a ≡ safe → a ≡ unsat
unfolding of_answer
of_answer-safe a h = ground arith

of_answer-oob : (a : SatResult) → of_answer a ≡ oob → a ≡ sat
unfolding of_answer
of_answer-oob a h = ground arith

of_answer-unknown : (a : SatResult) → of_answer a ≡ solver_unknown → a ≡ SatResult.unknown
unfolding of_answer
of_answer-unknown a h = ground arith

gave_up :
    (run : Bool) (a : SatResult) (after : HitlGate)
    → (let r : AccessCheckResult × HitlGate =
          if run then (of_answer a, after) else (hitl_blocked, after) in
        r.0 ≡ solver_unknown)
    → a ≡ SatResult.unknown
gave_up true a after h = of_answer-unknown a h
gave_up false a after h = cc

blocked :
    (run : Bool) (a : SatResult) (after : HitlGate)
    → (let r : AccessCheckResult × HitlGate =
          if run then (of_answer a, after) else (hitl_blocked, after) in
        r.0 ≡ hitl_blocked)
    → run ≡ false
unfolding of_answer
blocked run a after h = ground arith

module _ (solver : Formula → SatResult) (total off : ℤ) (size : ℕ) (vc cls : Text)
    (g : HitlGate) where
  -- what each answer tells of the access, the solver and the gate
  abbrev pub Means : AccessCheckResult → Type 0
  Means safe = (pos 0 ≤ℤ off) × (off +ℤ pos size ≤ℤ total)
  Means oob = ¬ ((pos 0 ≤ℤ off) × (off +ℤ pos size ≤ℤ total))
  Means solver_unknown = solver (oob_condition total off size) ≡ SatResult.unknown
  Means hitl_blocked = (should_run_solver vc cls g).0 ≡ false

module _ (solver : Formula → SatResult) (sound : IsSound solver) (total off : ℤ) (size : ℕ)
    (vc cls : Text) (g : HitlGate) where
  -- the answer `Safe`, and below it `Oob`
  pub check_access-safe :
      (check_access solver total off size vc cls g).0 ≡ safe
      → (pos 0 ≤ℤ off) × (off +ℤ pos size ≤ℤ total)
  unfolding check_access
  check_access-safe h =
      holds-oob_condition total off size (
        sound.unsat_fails _ (of_answer-safe (solver (oob_condition total off size)) (ground arith)))

  pub check_access-oob :
      (check_access solver total off size vc cls g).0 ≡ oob
      → ¬ ((pos 0 ≤ℤ off) × (off +ℤ pos size ≤ℤ total))
  unfolding check_access holds oob_condition
  check_access-oob h within = ground (arith, sound.sat_holds (oob_condition total off size))

  means :
      (r : AccessCheckResult)
      → (check_access solver total off size vc cls g).0 ≡ r
      → Means solver total off size vc cls g r
  unfolding check_access
  means safe h = check_access-safe h
  means oob h = check_access-oob h
  means solver_unknown h =
      gave_up (should_run_solver vc cls g).0 (solver (oob_condition total off size)) _ h
  means hitl_blocked h =
      blocked (should_run_solver vc cls g).0 (solver (oob_condition total off size)) _ h

  -- With a solver whose answers are right, `Safe` means that the access lies within the allocation,
  -- and `Oob` that it does not; `SolverUnknown` means that the solver gave up, and `HitlBlocked` that
  -- the gate did not let it run.
  pub check_access-Means :
      Means solver total off size vc cls g (check_access solver total off size vc cls g).0
  check_access-Means = means (check_access solver total off size vc cls g).0 refl
