-- ===== src/Ws.antt =====
-- The event stream: app/api/ws/events.py.
pub mod Manager
pub mod Delivery
pub mod Subscriptions
pub mod Poller
pub mod Polling
mod Tests
