-- ===== src/Hub.antt =====
-- `FrameHub` of src/frame.rs: the frame pool, the publication of frames and the queues of their readers.
pub mod State
pub mod Delivery
pub mod Reserve
pub mod Publish
pub mod Control
pub mod Receive
pub mod Reports
pub mod World
mod Tests
