-- ===== src/Invitation/Import/Proofs.antt =====
-- What a preview promises of its households, and that a commit validates them.
pub mod Normal
pub mod Rows
pub mod Accepted
pub mod Committed
pub mod Saved
