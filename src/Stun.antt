-- ===== src/Stun.antt =====
-- ice/stun.h and ice/stun.cpp: STUN messages (RFC 5389). Data has the messages, Codes the types and
-- the error codes, Write serialises and adds the two computed attributes, Read parses and queries, and
-- Check has the checks of a received packet.
pub mod Data
pub mod Codes
pub mod Write
pub mod Read
pub mod Check
pub mod Length
pub mod RoundTrip
pub mod Parsed
pub mod Fingerprint
pub mod Integrity
pub mod Exchange
