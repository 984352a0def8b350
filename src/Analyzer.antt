-- ===== src/Analyzer.antt =====
-- `analyze` of skv-analyzer/src/main.rs: one module for each group of match arms, then the step and
-- the loops, then the proofs.
pub mod State
pub mod Heap
pub mod Memory
pub mod Dma
pub mod Pointers
pub mod Step
pub mod Run
pub mod Severity
pub mod Ends
pub mod Flatten
pub mod Provenance
pub mod WellFormed
pub mod Moves
pub mod Bookkeeping
pub mod Access
pub mod Soundness
pub mod Verdict
pub mod Iommu
pub mod Fault
pub mod Blame
pub mod Caused
pub mod Failure
pub mod GateFrame
pub mod Gated
pub mod Approval
