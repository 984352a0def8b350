-- ===== src/Analyzer/Iommu.antt =====
-- The policy `require-iommu` of `analyze` (skv-analyzer/src/main.rs).
use sentinel_kv.Prelude.{ℕ, ◌≡◌, true, Option, none, List, [], ◌∷◌, contains, nat_eq, arith}
use sentinel_kv.Ir.{Module}
use sentinel_kv.Policy.{AnalysisResult, pass, DmaPolicy, verify, ignore, require_iommu}
use sentinel_kv.Gate.{HitlGate}
use sentinel_kv.Analyzer.State.{State}
use sentinel_kv.Analyzer.Dma.{first_unmapped, unmapped_result, iommu_check}
use sentinel_kv.Analyzer.Run.{Setup, analyzed, analyze, outcome}

-- the order in which a set is walked leaves out no entry
abbrev pub IsComplete : (List ℕ → List ℕ) → Type 0
IsComplete iteration =
    (ids : List ℕ) (id : ℕ) → contains id ids ≡ true → contains id (iteration ids) ≡ true

first_unmapped-none :
    (ids mapped : List ℕ) (id : ℕ)
    → first_unmapped ids mapped ≡ none
    → contains id ids ≡ true
    → contains id mapped ≡ true
unfolding first_unmapped contains
first_unmapped-none [] mapped id h k = cc
first_unmapped-none (x ∷ ids) mapped id h k = ground (arith, first_unmapped-none ids mapped id)

unmapped_result-pass : (o : Option ℕ) (r : AnalysisResult) → unmapped_result o r ≡ pass → o ≡ none
unfolding unmapped_result
unmapped_result-pass o r e = ground arith

iommu_check-none :
    (it : List ℕ → List ℕ) (policy : DmaPolicy) (s : State)
    → policy ≡ require_iommu
    → iommu_check it policy s ≡ pass
    → first_unmapped (it s.dma_allocs_in_func) s.iommu_mapped_in_func ≡ none
unfolding iommu_check
iommu_check-none it require_iommu s e p = unmapped_result-pass _ s.final_result p
iommu_check-none it verify s e p = absurd (ground arith)
iommu_check-none it ignore s e p = absurd (ground arith)

-- Under `require-iommu`, if the walk over the set of DMA allocations leaves out none of them, the
-- verdict `Pass` means that each of them is in the set of mapped allocations.
pub require_iommu-pass :
    (setup : Setup) (m : Module) (g : HitlGate) (id : ℕ)
    → IsComplete setup.iteration
    → setup.dma_policy ≡ require_iommu
    → (analyze setup m g).0.result ≡ pass
    → contains id (analyzed setup m g).dma_allocs_in_func ≡ true
    → contains id (analyzed setup m g).iommu_mapped_in_func ≡ true
unfolding analyze outcome
require_iommu-pass setup m g id complete policy p tracked =
    let s = analyzed setup m g in
    first_unmapped-none (setup.iteration s.dma_allocs_in_func) s.iommu_mapped_in_func id
      (iommu_check-none setup.iteration setup.dma_policy s policy p)
      (complete s.dma_allocs_in_func id tracked)
