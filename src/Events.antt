-- ===== src/Events.antt =====
-- internal/events: the event bus, and the buffer of recent events.
pub mod Ring
pub mod Bus
mod Tests
