-- ===== src/Tests.antt =====
-- Runs of the model at concrete inputs, with each theorem applied to one.
mod Stun
mod Ice
mod Pc
mod Stream
mod Rtp
mod Server
mod Channel
mod Queue
mod Dtls
mod Requests
mod Port
mod Srtp
