-- ===== src/Invitation.antt =====
-- internal/invitation
pub mod Capability
pub mod Contact
pub mod Model
pub mod Answers
pub mod Database
pub mod Mail
pub mod Action
pub mod Store
pub mod Import
pub mod Service
pub mod Delivery
pub mod Broadcast
pub mod RecoveryRequest
pub mod Private
pub mod Open
