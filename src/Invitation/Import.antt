-- ===== src/Invitation/Import.antt =====
-- internal/invitation/csv.go: the import of households from CSV, its preview and its commit.
mod Tests
mod SaveTests
pub mod Row
pub mod Preview
pub mod Commit
pub mod Save
pub mod Proofs
