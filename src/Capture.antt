-- ===== src/Capture.antt =====
-- capture_bridge: from a message on the bus to a plan of capture-route.
pub mod Classify
pub mod Bridge
pub mod Named
pub mod Handled
