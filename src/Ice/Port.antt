-- ===== src/Ice/Port.antt =====
-- ice/udp_port.cpp: what a port makes of a packet, and what it answers. rtc::split at ':' is an argument.
-- A packet that is sent is given by its bytes; an answer of -1 from the socket is only logged.
pub mod Authentication
pub mod Ping
use xrtc_server.Prelude.{
  ℕ, ◌+◌, ◌*◌, ◌%◌, ◌^◌, List, [], ◌∷◌, ◌++◌, Bool, true, false, not, ◌&&◌, Option, some, none,
  if◌then◌else◌, ◌==◌, same_bytes,
}
use xrtc_server.Net.{Net}
use xrtc_server.Stun.Data.{
  stun_attr_ice_controlling, stun_attr_use_candidate, stun_attr_priority, Attribute, byte_string,
  uint32_value, uint64_value, xor_address, error_code, StunMessage, IntegrityStatus, not_set,
  no_integrity, integrity_ok, integrity_bad, new_message, add_attribute, byte_string_of,
  SocketAddress, stun_binding_request, stun_binding_response, stun_binding_error_response,
  stun_attr_username, stun_attr_message_integrity, stun_attr_xor_mapped_address,
}
use xrtc_server.Stun.Codes.{error_code_of}
use xrtc_server.Stun.Write.{write, add_message_integrity, add_fingerprint}
use xrtc_server.Stun.Read.{Parse, parsed, failed, stuck, get_attribute, read}
use xrtc_server.Stun.Check.{validate_fingerprint, validate_message_integrity}

abbrev pub stun_error_bad_request : ℕ
stun_error_bad_request = 400

abbrev pub stun_error_unauthorized : ℕ
stun_error_unauthorized = 401

abbrev pub ice_type_preference_prflx : ℕ
ice_type_preference_prflx = 110

abbrev pub bad_request : List ℕ
bad_request = b'B' ∷ b'a' ∷ b'd' ∷ b' ' ∷ b'R' ∷ b'e' ∷ b'q' ∷ b'u' ∷ b'e' ∷ b's' ∷ b't' ∷ []

abbrev pub unauthorized : List ℕ
unauthorized =
    b'U' ∷ b'n' ∷ b'a' ∷ b'u' ∷ b't' ∷ b'h' ∷ b'o' ∷ b'r' ∷ b'i' ∷ b'z' ∷ b'e' ∷ b'd' ∷ []

pub record UdpPort : Type 0 where
  pub ice_ufrag : List ℕ
  pub ice_pwd : List ℕ
  pub has_socket : Bool

-- What get_stun_message answers: false; true without a message, with the packet sent if there is one;
-- true with the message and the name of the peer.
pub data StunPacket : Type 0 where
  no_stun : StunPacket
  refused : Option (List ℕ) → StunPacket
  accepted : StunMessage → List ℕ → StunPacket

-- get_byte_string. An attribute of another class read as one is undefined in C++; a parser makes none.
unfoldable pub get_byte_string : ℕ → StunMessage → Option (List ℕ)
unfolding get_attribute
get_byte_string t m = elim (get_attribute t m.attrs) [
  | none ↦ none
  | some a ↦ elim a [ byte_string u n bs ↦ some bs | _ ↦ none ]
]

abbrev pub is_some : {A : Type 0} → Option A → Bool
is_some none = false
is_some (some a) = true

abbrev pub is_ok : IntegrityStatus → Bool
is_ok not_set = false
is_ok no_integrity = false
is_ok integrity_ok = true
is_ok integrity_bad = false

-- UdpPort::create_stun_username
unfoldable pub create_stun_username : UdpPort → List ℕ → List ℕ
create_stun_username p remote_username = remote_username ++ (b':' ∷ p.ice_ufrag)

abbrev pub two_fields : List (List ℕ) → Option (List ℕ × List ℕ)
two_fields [] = none
two_fields (a ∷ []) = none
two_fields (a ∷ b ∷ []) = some (a, b)
two_fields (a ∷ b ∷ c ∷ more) = none

-- The message of ConnectionRequest::prepare before it is signed. The type preference and the low 24
-- bits of the priority do not overlap: their `|` is the sum.
unfoldable pub binding_request : UdpPort → List ℕ → ℕ → List ℕ → StunMessage
unfolding new_message add_attribute byte_string_of create_stun_username
binding_request p remote_username local_priority id =
    let blank : StunMessage = record new_message {
      type = stun_binding_request;
      transaction_id = id;
    } in
    let named =
      add_attribute (byte_string_of stun_attr_username (create_stun_username p remote_username))
        blank in
    let controlling = add_attribute (uint64_value stun_attr_ice_controlling 0) named in
    let nominated = add_attribute (byte_string stun_attr_use_candidate 0 []) controlling in
    add_attribute
      (uint32_value stun_attr_priority
        (ice_type_preference_prflx * 2 ^ 24 + local_priority % 2 ^ 24))
      nominated

-- The message of IceConnection::send_stun_binding_response before it is signed.
unfoldable pub binding_response : SocketAddress → List ℕ → StunMessage
unfolding new_message add_attribute
binding_response remote id =
    add_attribute (xor_address stun_attr_xor_mapped_address remote)
      (record new_message { type = stun_binding_response; transaction_id = id })

module _ (net : Net) (split : List ℕ → List (List ℕ)) where
  -- UdpPort::send_binding_error_response: the packet that is sent.
  unfoldable pub send_binding_error_response : UdpPort → StunMessage → ℕ → List ℕ → Option (List ℕ)
  unfolding write add_message_integrity add_fingerprint new_message add_attribute error_code_of
  send_binding_error_response p m err_code reason =
      let blank : StunMessage = record new_message {
        type = stun_binding_error_response;
        transaction_id = m.transaction_id;
      } in
      let response = add_attribute (error_code_of err_code reason) blank in
      let signed =
        if not (err_code == stun_error_bad_request) && not (err_code == stun_error_unauthorized)
        then (add_message_integrity net p.ice_pwd response).1
        else response in
      if not p.has_socket then none else write net (add_fingerprint net signed).1

  -- UdpPort::_parse_stun_username: the local and the remote name.
  unfoldable pub parse_stun_username : StunMessage → Option (List ℕ × List ℕ)
  unfolding get_byte_string
  parse_stun_username m = elim (get_byte_string stun_attr_username m) [
    | none ↦ none
    | some username ↦ two_fields (split username)
  ]

  abbrev pub check_user : UdpPort → StunMessage → Option (List ℕ × List ℕ) → StunPacket
  check_user p m none =
      refused (send_binding_error_response p m stun_error_unauthorized unauthorized)
  check_user p m (some (local_ufrag, remote_ufrag)) =
      if not (same_bytes local_ufrag p.ice_ufrag)
      then refused (send_binding_error_response p m stun_error_unauthorized unauthorized)
      else let checked = validate_message_integrity net p.ice_pwd m in
        if not (is_ok checked.integrity)
        then refused (send_binding_error_response p checked stun_error_unauthorized unauthorized)
        else accepted checked remote_ufrag

  unfoldable pub check_message : UdpPort → StunMessage → StunPacket
  unfolding get_byte_string parse_stun_username send_binding_error_response same_bytes
      validate_message_integrity
  check_message p m =
      if not (m.type == stun_binding_request)
      then accepted m []
      else if is_some (get_byte_string stun_attr_username m)
          && is_some (get_byte_string stun_attr_message_integrity m)
      then check_user p m (parse_stun_username m)
      else refused (send_binding_error_response p m stun_error_bad_request bad_request)

  -- A parse never ends in `stuck`.
  abbrev pub check_parsed : UdpPort → Parse (StunMessage × List ℕ) → StunPacket
  check_parsed p failed = no_stun
  check_parsed p stuck = no_stun
  check_parsed p (parsed (m, [])) = check_message p m
  check_parsed p (parsed (m, b ∷ rest)) = no_stun

  -- UdpPort::get_stun_message
  unfoldable pub get_stun_message : UdpPort → List ℕ → StunPacket
  unfolding validate_fingerprint read new_message check_message
  get_stun_message p data_ =
      if not (validate_fingerprint net data_)
      then no_stun
      else check_parsed p (read net new_message data_)

  -- IceConnection::send_stun_binding_response and send_response_message: the packet that is sent.
  unfoldable pub send_stun_binding_response :
      UdpPort → SocketAddress → StunMessage → Option (List ℕ)
  unfolding get_byte_string binding_response write add_message_integrity add_fingerprint
  send_stun_binding_response p remote m =
      let response = binding_response remote m.transaction_id in
      let signed = (add_message_integrity net p.ice_pwd response).1 in
      if not (is_some (get_byte_string stun_attr_username m))
      then none
      else write net (add_fingerprint net signed).1

  -- ConnectionRequest::prepare, with the own port, the name, the password and the id.
  unfoldable pub prepare : UdpPort → List ℕ → List ℕ → ℕ → List ℕ → StunMessage
  unfolding binding_request add_message_integrity add_fingerprint
  prepare p remote_username remote_pwd local_priority id =
      let signed =
        (add_message_integrity net remote_pwd
          (binding_request p remote_username local_priority id)).1 in
      (add_fingerprint net signed).1
