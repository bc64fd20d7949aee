-- ===== src/Gate.antt =====
-- src/confirmation_gate.cpp and include/vynkor/confirmation_gate.hpp: the gate in front of one
-- high-risk operation. The clocks and the executor are arguments; times of the steady clock are
-- nanoseconds, the lifetime of a pending request milliseconds. The mutex makes each access to the map
-- atomic, so a call is one step.
pub mod Json
pub mod Callers
pub mod Pending
pub mod Route
pub mod Helpers
pub mod Tests
