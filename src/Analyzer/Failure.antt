-- ===== src/Analyzer/Failure.antt =====
-- The verdict `Fail` of `analyze` (skv-analyzer/src/main.rs) over the whole run, and its cause.
use sentinel_kv.Prelude.{
  ℕ, ◌≡◌, refl, true, false, Option, none, some, List, [], ◌∷◌, contains, nat_eq, inl, inr, ◌⊎◌,
  arith,
}
use sentinel_kv.Ir.{Instruction, Module}
use sentinel_kv.Policy.{is_fail, DmaPolicy, verify, require_iommu, ignore}
use sentinel_kv.Gate.{HitlGate, IsSound}
use sentinel_kv.Analyzer.State.{State, Ctx, Site, Flow, next, stop, and_then, init}
use sentinel_kv.Analyzer.Dma.{iommu_check, unmapped_result, first_unmapped}
use sentinel_kv.Analyzer.Step.{step}
use sentinel_kv.Analyzer.Run.{Setup, context, analyzed, outcome, analyze, final_state}
use sentinel_kv.Analyzer.Ends.{ended}
use sentinel_kv.Analyzer.Flatten.{Located, sites, walk}
use sentinel_kv.Analyzer.Bookkeeping.{analyzed-eq-walk, init-not_fail}
use sentinel_kv.Analyzer.Fault.{Fault}
use sentinel_kv.Analyzer.Blame.{NotFailed, Blames}
use sentinel_kv.Analyzer.Caused.{step-Blames}

-- The run passes on to an instruction that has a fault in the state in which it is reached.
abbrev pub FaultyRun : Ctx → List Located → State → Type 0
FaultyRun ctx [] s = ⊥
FaultyRun ctx ((site, i) ∷ l) s =
    Fault ctx s i ⊎ ((t : State) × (step ctx site i s ≡ next t) × FaultyRun ctx l t)

-- An allocation that a device may read or write is in the walk over the set, and was never mapped.
abbrev pub Unmapped : Setup → State → Type 0
Unmapped setup s =
    (setup.dma_policy ≡ require_iommu)
    × (id : ℕ) × (contains id (setup.iteration s.dma_allocs_in_func) ≡ true)
    × (contains id s.iommu_mapped_in_func ≡ false)

module _ (ctx : Ctx) (sound : IsSound ctx.solver) where
  -- one step and the rest of the walk
  walk_on :
      (site : Site) (i : Instruction) (l : List Located) (s : State) (fl : Flow)
      → step ctx site i s ≡ fl
      → Blames (Fault ctx s i) fl
      → ((t : State)
          → NotFailed t
          → is_fail (final_state (walk ctx l t)).final_result ≡ true
          → FaultyRun ctx l t)
      → is_fail (final_state (and_then fl (λ t. walk ctx l t))).final_result ≡ true
      → FaultyRun ctx ((site, i) ∷ l) s
  unfolding and_then final_state
  walk_on site i l s (next t) e b rest p = inr (t, e, rest t (ended b) p)
  walk_on site i l s (stop t) e b rest p = inl (ended b)

  walk-fail :
      (l : List Located) (s : State)
      → NotFailed s
      → is_fail (final_state (walk ctx l s)).final_result ≡ true
      → FaultyRun ctx l s
  unfolding walk
  walk-fail [] s h p = absurd (unfold final_state in ground arith)
  walk-fail ((site, i) ∷ l) s h p =
      walk_on site i l s (step ctx site i s) refl (step-Blames ctx site sound s h i) (walk-fail l) p

first_unmapped-some :
    (ids mapped : List ℕ) (id : ℕ)
    → first_unmapped ids mapped ≡ some id
    → (contains id ids ≡ true) × (contains id mapped ≡ false)
unfolding first_unmapped contains
first_unmapped-some [] mapped id h = absurd (ground arith)
first_unmapped-some (x ∷ ids) mapped id h = ground (arith, first_unmapped-some ids mapped id)

unmapped_result-fail :
    (setup : Setup) (s : State) (o : Option ℕ)
    → first_unmapped (setup.iteration s.dma_allocs_in_func) s.iommu_mapped_in_func ≡ o
    → setup.dma_policy ≡ require_iommu
    → is_fail (unmapped_result o s.final_result) ≡ true
    → (is_fail s.final_result ≡ true) ⊎ Unmapped setup s
unfolding unmapped_result
unmapped_result-fail setup s none e policy p = inl p
unmapped_result-fail setup s (some id) e policy p =
    let found = first_unmapped-some _ s.iommu_mapped_in_func id e in
    inr (policy, id, found.0, found.1)

iommu_check-fail :
    (setup : Setup) (s : State) (policy : DmaPolicy)
    → setup.dma_policy ≡ policy
    → is_fail (iommu_check setup.iteration policy s) ≡ true
    → (is_fail s.final_result ≡ true) ⊎ Unmapped setup s
unfolding iommu_check
iommu_check-fail setup s verify e p = inl p
iommu_check-fail setup s ignore e p = inl p
iommu_check-fail setup s require_iommu e p = unmapped_result-fail setup s _ refl e p

-- With a solver whose answers are right, the verdict `Fail` of `analyze` has a cause in the module.
-- Either the loops go on until they reach an instruction with one of these faults, by the sizes and
-- offsets that are tracked: an access to a freed allocation or beyond its end, a `kfree` of a freed
-- allocation, a `kcalloc` whose size is 2^64 or more, inline assembly under the policy `trap`, or a
-- DMA mapping beyond its allocation. Or the policy is `require-iommu`, and an allocation for DMA that
-- the walk over the set meets was not mapped.
pub analyze-fail-caused :
    (setup : Setup) (m : Module) (g : HitlGate)
    → IsSound setup.solver
    → is_fail (analyze setup m g).0.result ≡ true
    → FaultyRun (context setup m) (sites m.functions) (init g) ⊎ Unmapped setup (analyzed setup m g)
unfolding analyze outcome context
analyze-fail-caused setup m g sound p =
    elim (iommu_check-fail setup (analyzed setup m g) _ refl p) [
      | inl final ↦ inl (
          walk-fail (context setup m) sound (sites m.functions) (init g) (init-not_fail g)
            (rw (analyzed-eq-walk setup m g) at final))
      | inr u ↦ inr u
    ]
