-- ===== src/Pc.antt =====
-- pc/: the connection's aggregated state, and the transports below it.
pub mod ConnectionState
pub mod Ssl
pub mod Dtls
pub mod Srtp
