-- ===== src/Layout.antt =====
-- Sizes and offsets of skv-analyzer/src/main.rs: `resolve_named_type`, `type_size` and
-- `infer_gep_offset` (Size), and the proofs about them (Fuel, Depth, Meaning, Exact,
-- Bounds).
pub mod Size
pub mod Fuel
pub mod Depth
pub mod Meaning
pub mod Exact
pub mod Bounds
