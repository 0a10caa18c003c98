-- ===== src/Mold.antt =====
-- MoldUDP64 framing and the recovery of sequence gaps (replay/src/moldudp.rs).
pub mod Frame
pub mod Gap
mod Tests
