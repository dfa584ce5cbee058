-- ===== src/Invitation/Store.antt =====
-- internal/invitation/store.go, recovery_store.go, open_store.go and response_store.go
pub mod Rows
pub mod Sessions
pub mod Recovery
pub mod Enrollment
pub mod Submit
pub mod Create
