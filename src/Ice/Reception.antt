-- ===== src/Ice/Reception.antt =====
-- IceConnection::on_read_packet of ice/ice_connection.cpp: what a connection makes of a packet from its
-- peer, with its port and its requests. `none` is the use of an object that is gone.
pub mod Answered
pub mod Writable
use xrtc_server.Prelude.{
  ℕ, ◌-◌, List, [], ◌∷◌, ◌++◌, Bool, true, false, not, Option, some, none, if◌then◌else◌, ◌==◌,
  same_bytes,
}
use xrtc_server.Net.{Net}
use xrtc_server.Stun.Data.{
  StunMessage, SocketAddress, stun_binding_request, stun_binding_response,
  stun_binding_error_response,
}
use xrtc_server.Stun.Check.{validate_message_integrity}
use xrtc_server.Ice.Connection.{IceConnection, Signal, received_ping_response}
use xrtc_server.Ice.Port.{
  UdpPort, StunPacket, no_stun, refused, accepted, is_ok, get_stun_message,
  send_binding_error_response, send_stun_binding_response, stun_error_unauthorized, unauthorized,
}
use xrtc_server.Ice.Requests.{
  StunRequest, StunRequestManager, Handled, nothing, response, error_response, Checked,
  check_response,
}

-- What is left, and what the connection has done: the packet sent to the peer, and whether the packet
-- that arrived was passed on as data.
pub record Reception : Type 0 where
  pub connection : IceConnection
  pub manager : StunRequestManager
  pub signals : List Signal
  pub sent : Option (List ℕ)
  pub passed_on : Bool

abbrev pub unmoved : IceConnection → StunRequestManager → Option (List ℕ) → Reception
unmoved c m sent_ = record {
  connection = c;
  manager = m;
  signals = [];
  sent = sent_;
  passed_on = false;
}

-- ConnectionRequest::on_request_response calls on_connection_request_response.
abbrev pub after_handled :
    (ℕ → ℕ → ℕ → ℕ) → ℕ → IceConnection → StunRequestManager → Handled → Reception
after_handled round now c m nothing = unmoved c m none
after_handled round now c m (response r) =
    let moved = received_ping_response round now (now - r.ts) c in
    record { connection = moved.0; manager = m; signals = moved.1; sent = none; passed_on = false }
after_handled round now c m (error_response r code) = unmoved c m none

abbrev pub checked_response :
    (ℕ → ℕ → ℕ → ℕ) → ℕ → IceConnection → Option Checked → Option Reception
checked_response round now c none = none
checked_response round now c (some checked) =
    some (after_handled round now c checked.manager checked.handled)

module _ (net : Net) (split : List ℕ → List (List ℕ)) (round : ℕ → ℕ → ℕ → ℕ) (now : ℕ) where
  abbrev pub on_request :
      UdpPort
      → SocketAddress
      → IceConnection
      → StunRequestManager
      → StunMessage
      → List ℕ
      → Reception
  on_request p remote c m msg remote_ufrag =
      if not (same_bytes remote_ufrag c.username)
      then unmoved c m
          (send_binding_error_response net split p msg stun_error_unauthorized unauthorized)
      else unmoved (record c { last_ping_received = now }) m
          (send_stun_binding_response net split p remote msg)

  abbrev pub on_response : IceConnection → StunRequestManager → StunMessage → Option Reception
  on_response c m msg =
      let checked = validate_message_integrity net c.password msg in
      if is_ok checked.integrity
      then checked_response round now c (check_response checked m)
      else some (unmoved c m none)

  abbrev pub on_stun_packet :
      UdpPort → SocketAddress → IceConnection → StunRequestManager → StunPacket → Option Reception
  on_stun_packet p remote c m no_stun =
      some (record (unmoved (record c { last_data_received = now }) m none) { passed_on = true })
  on_stun_packet p remote c m (refused sent_) = some (unmoved c m sent_)
  on_stun_packet p remote c m (accepted msg remote_ufrag) =
      if msg.type == stun_binding_request
      then some (on_request p remote c m msg remote_ufrag)
      else if msg.type == stun_binding_response
      then on_response c m msg
      else if msg.type == stun_binding_error_response
      then on_response c m msg
      else some (unmoved c m none)

  unfoldable pub on_read_packet :
      UdpPort → SocketAddress → IceConnection → StunRequestManager → List ℕ → Option Reception
  unfolding get_stun_message send_binding_error_response send_stun_binding_response same_bytes
      validate_message_integrity check_response received_ping_response
  on_read_packet p remote c m buf = on_stun_packet p remote c m (get_stun_message net split p buf)
