-- ===== src/Pc/ConnectionState.antt =====
-- TransportController::_update_state of pc/transport_controller.cpp: the state of a peer connection
-- from the states of its transports. Each transport of the map has a DTLS state and the ICE state of
-- its channel.
pub mod Meaning
use xrtc_server.Prelude.{
  ℕ, ◌+◌, ◌*◌, List, [], ◌∷◌, Bool, true, false, if◌then◌else◌, ◌==◌, ltb, length,
}

pub data IceTransportState : Type 0 where
  ice_new ice_checking ice_connected ice_completed ice_failed ice_disconnected ice_closed :
      IceTransportState

pub data DtlsTransportState : Type 0 where
  dtls_new dtls_connecting dtls_connected dtls_closed dtls_failed : DtlsTransportState

pub data PeerConnectionState : Type 0 where
  k_new k_connecting k_connected k_disconnected k_failed k_closed : PeerConnectionState

pub record Transport : Type 0 where
  pub dtls_state : DtlsTransportState
  pub ice_state : IceTransportState

-- The enums' values: what the maps of counts are indexed by.
abbrev pub ice_index : IceTransportState → ℕ
ice_index ice_new = 0
ice_index ice_checking = 1
ice_index ice_connected = 2
ice_index ice_completed = 3
ice_index ice_failed = 4
ice_index ice_disconnected = 5
ice_index ice_closed = 6

abbrev pub dtls_index : DtlsTransportState → ℕ
dtls_index dtls_new = 0
dtls_index dtls_connecting = 1
dtls_index dtls_connected = 2
dtls_index dtls_closed = 3
dtls_index dtls_failed = 4

-- What a transport adds to the count of the state.
unfoldable pub ice_one : IceTransportState → IceTransportState → ℕ
ice_one s i = if ice_index i == ice_index s then 1 else 0

unfoldable pub dtls_one : DtlsTransportState → DtlsTransportState → ℕ
dtls_one s d = if dtls_index d == dtls_index s then 1 else 0

unfoldable pub ice_count : IceTransportState → List Transport → ℕ
unfolding ice_one
ice_count s [] = 0
ice_count s (t ∷ ts) = ice_one s t.ice_state + ice_count s ts

unfoldable pub dtls_count : DtlsTransportState → List Transport → ℕ
unfolding dtls_one
dtls_count s [] = 0
dtls_count s (t ∷ ts) = dtls_one s t.dtls_state + dtls_count s ts

-- The totals of _update_state.
pub record Totals : Type 0 where
  pub connected : ℕ
  pub dtls_connecting_total : ℕ
  pub failed : ℕ
  pub closed : ℕ
  pub new : ℕ
  pub checking : ℕ
  pub disconnected : ℕ
  pub complete : ℕ
  pub transports : ℕ

unfoldable pub totals : List Transport → Totals
unfolding ice_count dtls_count
totals ts = record {
  connected = ice_count ice_connected ts + dtls_count dtls_connected ts;
  dtls_connecting_total = dtls_count dtls_connecting ts;
  failed = ice_count ice_failed ts + dtls_count dtls_failed ts;
  closed = ice_count ice_closed ts + dtls_count dtls_closed ts;
  new = ice_count ice_new ts + dtls_count dtls_new ts;
  checking = ice_count ice_checking ts;
  disconnected = ice_count ice_disconnected ts;
  complete = ice_count ice_completed ts;
  transports = length ts * 2;
}

-- The chain of tests; the first value is that of the variable before it.
unfoldable pub aggregate : Totals → PeerConnectionState
aggregate t =
    if ltb 0 t.failed
    then k_failed
    else if ltb 0 t.disconnected
    then k_disconnected
    else if t.new + t.closed == t.transports
    then k_new
    else if ltb 0 (t.checking + t.dtls_connecting_total + t.new)
    then k_connecting
    else if t.connected + t.complete + t.closed == t.transports
    then k_connected
    else k_new

abbrev pub pc_index : PeerConnectionState → ℕ
pc_index k_new = 0
pc_index k_connecting = 1
pc_index k_connected = 2
pc_index k_disconnected = 3
pc_index k_failed = 4
pc_index k_closed = 5

-- TransportController::_update_state: the new state, and the values signalled.
unfoldable pub update_state :
    List Transport → PeerConnectionState → PeerConnectionState × List PeerConnectionState
unfolding totals aggregate
update_state ts pc =
    let next = aggregate (totals ts) in
    if pc_index pc == pc_index next then (pc, []) else (next, next ∷ [])
