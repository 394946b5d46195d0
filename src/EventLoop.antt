-- ===== src/EventLoop.antt =====
-- net/event_loop: events and the table of them, and the loop with its queue of functions.
pub mod Event
pub mod Queue
pub mod Dispatch
