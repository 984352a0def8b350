-- ===== src/Examples/Runs.antt =====
-- The analyzer on the sample driver, and its theorems there.
use sentinel_kv.Prelude.{◌≡◌, refl, true, [], ◌∷◌, text, is_some, get, nat_eq, ◌⊎◌}
use sentinel_kv.Prelude.Int.{pos, ◌+ℤ◌, ◌≤ℤ◌}
use sentinel_kv.Ir.{number, alloca, store, load, pointer_type}
use sentinel_kv.Policy.{pass, fail, unknown, require, is_fail}
use sentinel_kv.Gate.{IsSound, enforce_hitl_policy, check_access}
use sentinel_kv.Gate.Approval.{IsHonest, Approved}
use sentinel_kv.Gate.Bounds.{check_access-safe, check_access-oob, Means, check_access-Means}
use sentinel_kv.Analyzer.State.{init}
use sentinel_kv.Analyzer.Run.{run_functions, analyze, analyzed, context}
use sentinel_kv.Analyzer.Flatten.{sites, walk, run_functions-eq-walk}
use sentinel_kv.Analyzer.Severity.{Worsens, run_functions-Worsens}
use sentinel_kv.Analyzer.Bookkeeping.{analyzed-IsWellFormed, tracked-has_size}
use sentinel_kv.Analyzer.Verdict.{SafeRun, analyze-pass-safe}
use sentinel_kv.Analyzer.Failure.{FaultyRun, Unmapped, analyze-fail-caused}
use sentinel_kv.Analyzer.Approval.{analyzed-IsHonest, require-pass-Approved}
use sentinel_kv.Examples.Sample.{
  exact, exact-IsSound, safe_driver, setup, open_gate, class_gate, driver, malloc_16, free_0,
  store_7, pointer, const,
}
use sentinel_kv.Examples.Computed.{computed}

safe_driver-pass : (analyze setup safe_driver open_gate).0.result ≡ pass
unfolding safe_driver setup computed
safe_driver-pass = refl

-- a store behind the `kfree` is found
use_after_free-fail :
    (analyze setup (driver (malloc_16 ∷ free_0 ∷ store_7 ∷ [])) open_gate).0.result
    ≡ fail (text "Use-after-free store in function probe")
unfolding setup driver malloc_16 free_0 computed
use_after_free-fail = refl

-- The slot 5 holds the pointer 9 when it is loaded, and the freed allocation is found behind it.
stale_slot-fail :
    (analyze setup
      (driver (
        malloc_16
        ∷ alloca (number 5)
        ∷ store (pointer 5) (pointer 0)
        ∷ free_0
        ∷ store (pointer 5) (pointer 9)
        ∷ load (pointer 5) (number 6) pointer_type
        ∷ store (pointer 6) (const 7)
        ∷ []))
      open_gate).0.result
    ≡ fail (text "Use-after-free store in function probe")
unfolding setup driver malloc_16 free_0 computed
stale_slot-fail = refl

use_after_free-is_fail :
    is_fail (analyze setup (driver (malloc_16 ∷ free_0 ∷ store_7 ∷ [])) open_gate).0.result ≡ true
use_after_free-is_fail = rw use_after_free-fail refl

-- under `--hitl-mode require` with no approval the store is not checked
unapproved-unknown :
    (analyze setup safe_driver (record class_gate { approved_classes = [] })).0.result
    ≡ unknown (text "HITL gate blocked unapproved VC: probe::bb0::i1::store")
unfolding safe_driver setup computed class_gate
unapproved-unknown = refl

approved-pass :
    (let o = (analyze setup safe_driver class_gate).0 in
      enforce_hitl_policy o.result require o.hitl_blocked_vcs)
    ≡ pass
unfolding safe_driver setup computed class_gate
approved-pass = refl

setup-IsSound : IsSound setup.solver
unfolding setup
setup-IsSound = exact-IsSound

analyze-pass-safe_example :
    SafeRun (context setup safe_driver) (sites safe_driver.functions) (init open_gate)
analyze-pass-safe_example =
    analyze-pass-safe setup safe_driver open_gate setup-IsSound safe_driver-pass

analyze-fail-caused_example :
    (let m = driver (malloc_16 ∷ free_0 ∷ store_7 ∷ []) in
      FaultyRun (context setup m) (sites m.functions) (init open_gate)
      ⊎ Unmapped setup (analyzed setup m open_gate))
analyze-fail-caused_example =
    analyze-fail-caused setup (driver (malloc_16 ∷ free_0 ∷ store_7 ∷ [])) open_gate setup-IsSound
      use_after_free-is_fail

require-pass-Approved_example :
    Approved class_gate
      (analyze setup safe_driver class_gate).1.seen
      (analyze setup safe_driver class_gate).1.seen_classes
unfolding class_gate
require-pass-Approved_example =
    require-pass-Approved setup safe_driver class_gate (refl, refl, refl) refl approved-pass

analyzed-IsHonest_example : IsHonest class_gate (analyze setup safe_driver class_gate).1
unfolding class_gate
analyzed-IsHonest_example = analyzed-IsHonest setup safe_driver class_gate (refl, refl, refl)

run_functions-eq-walk_example :
    run_functions (context setup safe_driver) safe_driver.functions (init open_gate)
    ≡ walk (context setup safe_driver) (sites safe_driver.functions) (init open_gate)
unfolding init
run_functions-eq-walk_example =
    run_functions-eq-walk (context setup safe_driver) safe_driver.functions (init open_gate) refl

run_functions-Worsens_example :
    Worsens
      (init open_gate).final_result
      (run_functions (context setup safe_driver) safe_driver.functions (init open_gate))
unfolding init
run_functions-Worsens_example =
    run_functions-Worsens (context setup safe_driver) safe_driver.functions (init open_gate) refl

after_malloc : (analyzed setup (driver (malloc_16 ∷ [])) open_gate).alloc_counter ≡ 1
unfolding setup driver malloc_16 computed
after_malloc = refl

after_malloc-has_size :
    is_some (get 0 (analyzed setup (driver (malloc_16 ∷ [])) open_gate).alloc_sizes) ≡ true
unfolding setup driver malloc_16 computed
after_malloc-has_size =
    tracked-has_size (analyzed setup (driver (malloc_16 ∷ [])) open_gate) (number 0) 0 (pos 0)
      (analyzed-IsWellFormed setup (driver (malloc_16 ∷ [])) open_gate) refl

last_bytes_fit : (pos 0 ≤ℤ pos 12) × (pos 12 +ℤ pos 4 ≤ℤ pos 16)
unfolding exact check_access ◌+ℤ◌
last_bytes_fit = check_access-safe exact exact-IsSound (pos 16) (pos 12) 4 [] [] open_gate refl

one_byte_past : ¬ ((pos 0 ≤ℤ pos 13) × (pos 13 +ℤ pos 4 ≤ℤ pos 16))
unfolding exact check_access ◌+ℤ◌
one_byte_past = check_access-oob exact exact-IsSound (pos 16) (pos 13) 4 [] [] open_gate refl

check_access-Means_example :
    Means exact
      (pos 16)
      (pos 12)
      4
      []
      []
      open_gate
      (check_access exact (pos 16) (pos 12) 4 [] [] open_gate).0
check_access-Means_example =
    check_access-Means exact exact-IsSound (pos 16) (pos 12) 4 [] [] open_gate
