-- ===== src/Schema.antt =====
-- src/schemas: the events that modules send to the hub.
pub mod Event
pub mod Payload
