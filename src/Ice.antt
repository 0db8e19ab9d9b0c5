-- ===== src/Ice.antt =====
-- ice/: connectivity checks. Connection is one candidate pair (ice_connection.cpp), Controller chooses
-- the pair to send on and the pair to check next (ice_controller.cpp),
-- and Channel holds them together (ice_transport_channel.cpp).
pub mod Connection
pub mod Controller
pub mod Channel
pub mod Requests
pub mod Port
pub mod Reception
