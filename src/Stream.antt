-- ===== src/Stream.antt =====
-- stream/: the streams that browsers push and pull.
pub mod Table
pub mod Manager
