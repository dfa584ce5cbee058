-- ===== src/Event.antt =====
-- internal/event: events, who may manage them, and the states that an event goes through.
pub mod Model
pub mod Request
pub mod Store
pub mod Service
