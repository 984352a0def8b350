-- ===== src/Examples.antt =====
-- Concrete inputs for the theorems, and tests of the definitions on them.
pub mod Sample
pub mod Computed
pub mod Decided
pub mod Ran
mod Runs
mod Trust
mod Layouts
mod Reports
mod Menu
mod Bridges
mod ZigBridges
mod Builds
mod UnitTests
