-- ===== src/Controller.antt =====
-- mrp_controller/controller: the keyed queue, the worker pool, the event handler and the wiring.
pub mod Queue
pub mod Workers
pub mod Events
mod Tests
