-- ===== src/Ice/Reception/Writable/Pinged.antt =====
-- A ping, from the connection of one end over that of the other and back: ConnectionRequest::prepare of
-- ice/stun_request.cpp, then IceConnection::on_read_packet of ice/ice_connection.cpp at both ends.
use xrtc_server.Prelude.{
  ℕ, ◌<◌, ◌≤◌, ◌≡◌, refl, List, [], ◌∷◌, ◌++◌, ◌-◌, some, none, false, length, ap, ◌∙◌, sym, subst,
  ◌==◌, same_bytes_iff,
}
use xrtc_server.Net.{Net}
use xrtc_server.Stun.Data.{
  StunMessage, SocketAddress, ipv4, stun_binding_request, stun_binding_response, integrity_ok,
}
use xrtc_server.Stun.Write.{write}
use xrtc_server.Stun.Check.{validate_message_integrity}
use xrtc_server.Stream.Table.{find}
use xrtc_server.Ice.Connection.{IceConnection, weak, received_ping_response}
use xrtc_server.Ice.Connection.Liveness.{received_ping_response-not_weak}
use xrtc_server.Ice.Port.{
  UdpPort, accepted, create_stun_username, prepare, get_stun_message, send_stun_binding_response,
}
use xrtc_server.Ice.Port.Authentication.{NoColon, Splits}
use xrtc_server.Ice.Port.Ping.{ping-Taken, answer-Taken, validate_message_integrity_keeps, ok_is_ok}
use xrtc_server.Ice.Requests.{StunRequest, StunRequestManager}
use xrtc_server.Ice.Requests.Answers.{IsTable, check_response_once}
use xrtc_server.Ice.Reception.{Reception, unmoved, checked_response, on_stun_packet, on_read_packet}
use xrtc_server.Ice.Reception.Writable.{at_request, at_response, request_good, response_ok}

module _ (net : Net) (split : List ℕ → List (List ℕ)) (round : ℕ → ℕ → ℕ → ℕ) (now : ℕ) where
  -- The end that is pinged answers.
  request_answered :
      (q : UdpPort) (remote : SocketAddress) (c : IceConnection) (m : StunRequestManager)
      (msg : StunMessage) (ping u : List ℕ)
      → get_stun_message net split q ping ≡ accepted msg u
      → msg.type ≡ stun_binding_request
      → c.username ≡ u
      → on_read_packet net split round now q remote c m ping
        ≡ some (
            unmoved
              (record c { last_ping_received = now })
              m
              (send_stun_binding_response net split q remote msg))
  unfolding on_read_packet
  request_answered q remote c m msg ping u e t same =
      ap (on_stun_packet net split round now q remote c m) e
      ∙ at_request net split round now q remote c m msg u (ap (λ x. x == stun_binding_request) t)
      ∙ ap some (
          request_good net split round now q remote c m msg u
            ((same_bytes_iff u c.username).1 (sym same)))

  -- The end that has pinged is writable and receives.
  response_taken :
      (p : UdpPort) (remote : SocketAddress) (c : IceConnection) (m : StunRequestManager)
      (r : StunRequest) (msg : StunMessage) (answer : List ℕ)
      → get_stun_message net split p answer ≡ accepted msg []
      → msg.type ≡ stun_binding_response
      → (validate_message_integrity net c.password msg).integrity ≡ integrity_ok
      → IsTable m
      → find msg.transaction_id m.requests ≡ some r
      → r.type ≡ stun_binding_request
      → 0 < now
      → (y : Reception) × (on_read_packet net split round now p remote c m answer ≡ some y)
        × (weak y.connection ≡ false)
        × (y.connection.pings ≡ [])
  unfolding on_read_packet
  response_taken p remote c m r msg answer e t ok table here rt later =
      let v = validate_message_integrity net c.password msg in
      let kept = validate_message_integrity_keeps net c.password msg in
      let (n, handled, _, _, _, _) = check_response_once v m r table here rt t in
      let moved = received_ping_response round now (now - r.ts) c in
      let (on, none_left, _, _) = received_ping_response-not_weak round now (now - r.ts) c later in
      (
        record {
          connection = moved.0;
          manager = n;
          signals = moved.1;
          sent = none;
          passed_on = false;
        },
        ap (on_stun_packet net split round now p remote c m) e
            ∙ at_response net split round now p remote c m msg []
                (ap (λ x. x == stun_binding_request) t) (ap (λ x. x == stun_binding_response) t)
            ∙ response_ok net split round now c m msg (ok_is_ok v.integrity ok)
            ∙ ap (checked_response round now c) handled,
        on,
        none_left,
      )

-- One ping between two connections, `c` of the port `p` and `d` of the port `q`, for rtc::split as
-- documented. When each connection has the other port's name as the remote one, `c` has the password
-- of `q`, the names have no colon and make a USERNAME of at most 512 bytes, the requests of `c` exist,
-- each under its id, the id has 12 bytes and is that of a binding request among them, the ping comes
-- from an IPv4 address and a 16-bit port, and the time of the answer is not 0: the ping is written; `d`
-- takes it, notes the time and sends an answer; and that answer makes `c` writable and receiving and
-- clears its outstanding pings.
pub ping-writable :
    (net : Net) (split : List ℕ → List (List ℕ)) (round : ℕ → ℕ → ℕ → ℕ) (p q : UdpPort)
    (c d : IceConnection) (m k : StunRequestManager) (r : StunRequest) (id : List ℕ)
    (then_ now i₁ i₂ i₃ i₄ port : ℕ) (q_address : SocketAddress)
    → Splits split
    → NoColon p.ice_ufrag
    → NoColon q.ice_ufrag
    → length (create_stun_username p q.ice_ufrag) ≤ 512
    → c.username ≡ q.ice_ufrag
    → c.password ≡ q.ice_pwd
    → d.username ≡ p.ice_ufrag
    → length id ≡ 12
    → port < 65536
    → IsTable m
    → find id m.requests ≡ some r
    → r.type ≡ stun_binding_request
    → 0 < now
    → let p_address : SocketAddress = record { ip = ipv4 i₁ i₂ i₃ i₄; port = port } in
      (ping answer : List ℕ) × (x y : Reception) × (write net
          (prepare net split p c.username c.password c.local_priority id)
        ≡ some ping)
      × (on_read_packet net split round then_ q p_address d k ping ≡ some x)
      × (x.sent ≡ some answer)
      × (x.connection.last_ping_received ≡ then_)
      × (on_read_packet net split round now p q_address c m answer ≡ some y)
      × (weak y.connection ≡ false)
      × (y.connection.pings ≡ [])
ping-writable net split round p q c d m k r id then_ now i₁ i₂ i₃ i₄ port q_address law clean clean'
      small named pass known twelve fits table here rt later =
    let p_address : SocketAddress = record { ip = ipv4 i₁ i₂ i₃ i₄; port = port } in
    let (ping, v, w, taken, ty, same_id, name) =
      ping-Taken net split p q c.local_priority id law clean clean' small twelve in
    let (answer, u, sent_, accepted_, ok, ty', same_id') =
      answer-Taken net split p q id v (q.ice_ufrag ++ (b':' ∷ p.ice_ufrag)) i₁ i₂ i₃ i₄ port twelve
        fits same_id name in
    let (y, got, on, none_left) =
      response_taken net split round now p q_address c m r u answer accepted_ ty'
        (subst (λ z. (validate_message_integrity net z u).integrity ≡ integrity_ok) (sym pass) ok)
        table (ap (λ z. find z m.requests) same_id' ∙ here) rt later in
    (
      ping,
      answer,
      unmoved (record d { last_ping_received = then_ }) k
          (send_stun_binding_response net split q p_address v),
      y,
      ap (λ z. write net (prepare net split p z c.password c.local_priority id)) named
          ∙ ap (λ z. write net (prepare net split p q.ice_ufrag z c.local_priority id)) pass
          ∙ w,
      request_answered net split round then_ q p_address d k v ping p.ice_ufrag taken ty known,
      sent_,
      refl,
      got,
      on,
      none_left,
    )
