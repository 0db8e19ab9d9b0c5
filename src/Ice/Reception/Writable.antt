-- ===== src/Ice/Reception/Writable.antt =====
-- Only an authentic response to a request that waits makes a connection writable.
pub mod Pinged
use xrtc_server.Prelude.{
  ℕ, ◌≡◌, ◌≢◌, inl, inr, refl, List, [], ◌∷◌, true, false, arith, some, none, ap, ◌∙◌, sym,
  Bool-cases, ◌==◌, same_bytes,
}
use xrtc_server.Net.{Net}
use xrtc_server.Stun.Data.{
  StunMessage, SocketAddress, new_message, stun_binding_request, stun_binding_response,
  stun_binding_error_response,
}
use xrtc_server.Stun.Codes.{get_stun_success_response}
use xrtc_server.Stun.Read.{Parse, parsed, failed, stuck, read}
use xrtc_server.Stun.Check.{
  validate_fingerprint, validate_integrity_bytes, validate_message_integrity,
}
use xrtc_server.Stun.Parsed.{read_parsed}
use xrtc_server.Stream.Table.{find}
use xrtc_server.Ice.Connection.{IceConnection, writable}
use xrtc_server.Ice.Port.{
  UdpPort, StunPacket, no_stun, refused, accepted, is_ok, check_message, check_parsed,
  get_stun_message, parse_stun_username, send_binding_error_response, send_stun_binding_response,
  stun_error_unauthorized, unauthorized,
}
use xrtc_server.Ice.Port.Authentication.{check_user_back, check_message_back, is_ok_bytes}
use xrtc_server.Ice.Requests.{StunRequest, StunRequestManager, same_type, check_response}
use xrtc_server.Ice.Requests.Answers.{some_back}
use xrtc_server.Ice.Reception.{
  Reception, unmoved, checked_response, on_request, on_response, on_stun_packet, on_read_packet,
}
use xrtc_server.Ice.Reception.Answered.{
  Answers, check_response-Answers, checked_writable, stays_off, accepted_back, kept-Answers,
}

module _ (net : Net) (split : List ℕ → List (List ℕ)) (round : ℕ → ℕ → ℕ → ℕ) (now : ℕ) where
  response_ok :
      (c : IceConnection) (m : StunRequestManager) (msg : StunMessage)
      → is_ok (validate_message_integrity net c.password msg).integrity ≡ true
      → on_response net split round now c m msg
        ≡ checked_response round now c
            (check_response (validate_message_integrity net c.password msg) m)
  response_ok c m msg e = rw e refl

  response_bad :
      (c : IceConnection) (m : StunRequestManager) (msg : StunMessage)
      → is_ok (validate_message_integrity net c.password msg).integrity ≡ false
      → on_response net split round now c m msg ≡ some (unmoved c m none)
  response_bad c m msg e = rw e refl

  on_response_back :
      (c : IceConnection) (m : StunRequestManager) (msg : StunMessage) (x : Reception)
      → on_response net split round now c m msg ≡ some x
      → writable c ≡ false
      → writable x.connection ≡ true
      → (is_ok (validate_message_integrity net c.password msg).integrity ≡ true)
        × (r : StunRequest) × Answers msg m r
  on_response_back c m msg x e off on =
      let checked = validate_message_integrity net c.password msg in
      elim (Bool-cases (is_ok checked.integrity)) [
        | inl ok ↦
            let (h, found, handled) =
              checked_writable round now c (check_response checked m) x
                (sym (response_ok c m msg ok) ∙ e) off on in
            let (r, found_) = check_response-Answers checked m h found handled in
            (ok, r, kept-Answers net c.password msg m r found_)
        | inr bad ↦ absurd (
            stays_off (on_response net split round now c m msg) c (unmoved c m none) x
              (response_bad c m msg bad) off e on)
      ]

  request_good :
      (p : UdpPort) (remote : SocketAddress) (c : IceConnection) (m : StunRequestManager)
      (msg : StunMessage) (u : List ℕ)
      → same_bytes u c.username ≡ true
      → on_request net split round now p remote c m msg u
        ≡ unmoved
            (record c { last_ping_received = now })
            m
            (send_stun_binding_response net split p remote msg)
  request_good p remote c m msg u e = rw e refl

  request_wrong :
      (p : UdpPort) (remote : SocketAddress) (c : IceConnection) (m : StunRequestManager)
      (msg : StunMessage) (u : List ℕ)
      → same_bytes u c.username ≡ false
      → on_request net split round now p remote c m msg u
        ≡ unmoved c m
            (send_binding_error_response net split p msg stun_error_unauthorized unauthorized)
  request_wrong p remote c m msg u e = rw e refl

  request_stays :
      (p : UdpPort) (remote : SocketAddress) (c : IceConnection) (m : StunRequestManager)
      (msg : StunMessage) (u : List ℕ)
      → writable c ≡ false
      → writable (on_request net split round now p remote c m msg u).connection ≢ true
  unfolding writable
  request_stays p remote c m msg u off on = elim (Bool-cases (same_bytes u c.username)) [
    | inl b ↦
        (let z = sym on ∙ ap (λ y. writable y.connection) (request_good p remote c m msg u b) in cc)
    | inr b ↦
        (let z = sym on ∙ ap (λ y. writable y.connection) (request_wrong p remote c m msg u b) in
          cc)
  ]

  at_request :
      (p : UdpPort) (remote : SocketAddress) (c : IceConnection) (m : StunRequestManager)
      (msg : StunMessage) (u : List ℕ)
      → (msg.type == stun_binding_request) ≡ true
      → on_stun_packet net split round now p remote c m (accepted msg u)
        ≡ some (on_request net split round now p remote c m msg u)
  at_request p remote c m msg u e = rw e refl

  at_response :
      (p : UdpPort) (remote : SocketAddress) (c : IceConnection) (m : StunRequestManager)
      (msg : StunMessage) (u : List ℕ)
      → (msg.type == stun_binding_request) ≡ false
      → (msg.type == stun_binding_response) ≡ true
      → on_stun_packet net split round now p remote c m (accepted msg u)
        ≡ on_response net split round now c m msg
  at_response p remote c m msg u e f = rw (e, f) refl

  at_error :
      (p : UdpPort) (remote : SocketAddress) (c : IceConnection) (m : StunRequestManager)
      (msg : StunMessage) (u : List ℕ)
      → (msg.type == stun_binding_request) ≡ false
      → (msg.type == stun_binding_response) ≡ false
      → (msg.type == stun_binding_error_response) ≡ true
      → on_stun_packet net split round now p remote c m (accepted msg u)
        ≡ on_response net split round now c m msg
  at_error p remote c m msg u e f g = rw (e, f, g) refl

  at_other :
      (p : UdpPort) (remote : SocketAddress) (c : IceConnection) (m : StunRequestManager)
      (msg : StunMessage) (u : List ℕ)
      → (msg.type == stun_binding_request) ≡ false
      → (msg.type == stun_binding_response) ≡ false
      → (msg.type == stun_binding_error_response) ≡ false
      → on_stun_packet net split round now p remote c m (accepted msg u) ≡ some (unmoved c m none)
  at_other p remote c m msg u e f g = rw (e, f, g) refl

  stun_packet_back :
      (p : UdpPort) (remote : SocketAddress) (c : IceConnection) (m : StunRequestManager)
      (o : StunPacket) (x : Reception)
      → on_stun_packet net split round now p remote c m o ≡ some x
      → writable c ≡ false
      → writable x.connection ≡ true
      → (msg : StunMessage) × (u : List ℕ) × (o ≡ accepted msg u)
        × ((msg.type == stun_binding_request) ≡ false)
        × (is_ok (validate_message_integrity net c.password msg).integrity ≡ true)
        × (r : StunRequest) × Answers msg m r
  unfolding writable
  stun_packet_back p remote c m no_stun x e off on =
      let z = ap (λ y. writable y.connection) (some_back e) in cc
  stun_packet_back p remote c m (refused s) x e off on =
      let z = ap (λ y. writable y.connection) (some_back e) in cc
  stun_packet_back p remote c m (accepted msg u) x e off on =
      elim (Bool-cases (msg.type == stun_binding_request)) [
        | inl q ↦ absurd (
            request_stays p remote c m msg u off (
              ap (λ y. writable y.connection)
                (some_back (sym (at_request p remote c m msg u q) ∙ e))
              ∙ on))
        | inr q ↦ elim (Bool-cases (msg.type == stun_binding_response)) [
          | inl w ↦
              let (ok, r, a) =
                on_response_back c m msg x (sym (at_response p remote c m msg u q w) ∙ e) off on in
              (msg, u, refl, q, ok, r, a)
          | inr w ↦ elim (Bool-cases (msg.type == stun_binding_error_response)) [
            | inl z ↦
                let (ok, r, a) =
                  on_response_back c m msg x (sym (at_error p remote c m msg u q w z) ∙ e) off on in
                (msg, u, refl, q, ok, r, a)
            | inr z ↦ absurd (
                stays_off (on_stun_packet net split round now p remote c m (accepted msg u)) c
                  (unmoved c m none) x (at_other p remote c m msg u q w z) off e on)
          ]
        ]
      ]

  parsed_back :
      (p : UdpPort) (q : Parse (StunMessage × List ℕ)) (msg : StunMessage) (u : List ℕ)
      → check_parsed net split p q ≡ accepted msg u
      → (m : StunMessage) × (q ≡ parsed (m, [])) × (check_message net split p m ≡ accepted msg u)
  parsed_back p failed msg u e = cc
  parsed_back p stuck msg u e = cc
  parsed_back p (parsed (m, [])) msg u e = (m, refl, e)
  parsed_back p (parsed (m, b ∷ rest)) msg u e = cc

  same_type_checked :
      (p : UdpPort) (m : StunMessage)
      → ((validate_message_integrity net p.ice_pwd m).type == stun_binding_request)
        ≡ (m.type == stun_binding_request)
  unfolding validate_message_integrity
  same_type_checked p m = refl

  not_request :
      (p : UdpPort) (m : StunMessage)
      → (m.type == stun_binding_request) ≡ false
      → check_message net split p m ≡ accepted m []
  unfolding check_message
  not_request p m e = simp (e, check_message)

  message_back :
      (p : UdpPort) (m msg : StunMessage) (u : List ℕ)
      → check_message net split p m ≡ accepted msg u
      → (msg.type == stun_binding_request) ≡ false
      → m ≡ msg
  message_back p m msg u e off = elim (Bool-cases (m.type == stun_binding_request)) [
    | inl q ↦
        let (both, y) = check_message_back net split p m msg u (ground arith) e in
        let (v, _, _) = check_user_back net split p m msg u (parse_stun_username net split m) y in
        let t = ap (λ z. z.type == stun_binding_request) v ∙ same_type_checked p m ∙ q in
        (let w = sym off ∙ t in cc)
    | inr q ↦ accepted_back m msg [] u (sym (not_request p m q) ∙ e)
  ]

  print_good :
      (p : UdpPort) (buf : List ℕ)
      → validate_fingerprint net buf ≡ true
      → get_stun_message net split p buf ≡ check_parsed net split p (read net new_message buf)
  unfolding get_stun_message
  print_good p buf f = simp (f, get_stun_message)

  print_bad :
      (p : UdpPort) (buf : List ℕ)
      → validate_fingerprint net buf ≡ false
      → get_stun_message net split p buf ≡ no_stun
  unfolding get_stun_message
  print_bad p buf f = simp (f, get_stun_message)

  get_back :
      (p : UdpPort) (buf : List ℕ) (msg : StunMessage) (u : List ℕ)
      → get_stun_message net split p buf ≡ accepted msg u
      → (msg.type == stun_binding_request) ≡ false
      → (validate_fingerprint net buf ≡ true) × (read net new_message buf ≡ parsed (msg, []))
  get_back p buf msg u e off = elim (Bool-cases (validate_fingerprint net buf)) [
    | inl f ↦
        let (m, q, y) =
          parsed_back p (read net new_message buf) msg u (sym (print_good p buf f) ∙ e) in
        (f, q ∙ ap (λ z. parsed (z, [])) (message_back p m msg u y off))
    | inr f ↦ (let z = sym (print_bad p buf f) ∙ e in cc)
  ]

  -- When a connection that is not writable becomes writable by a packet from its peer, the packet has
  -- a right fingerprint and parses as a whole to a response, with the digest that the peer's password
  -- makes, of the success type and the id of a request that waits.
  pub on_read_packet-writable :
      (p : UdpPort) (remote : SocketAddress) (c : IceConnection) (m : StunRequestManager)
      (buf : List ℕ) (x : Reception)
      → on_read_packet net split round now p remote c m buf ≡ some x
      → writable c ≡ false
      → writable x.connection ≡ true
      → (msg : StunMessage) × (r : StunRequest) × (validate_fingerprint net buf ≡ true)
        × (read net new_message buf ≡ parsed (msg, []))
        × (validate_integrity_bytes net c.password buf ≡ true)
        × (find msg.transaction_id m.requests ≡ some r)
        × (same_type msg.type (get_stun_success_response r.type) ≡ true)
  unfolding on_read_packet
  on_read_packet-writable p remote c m buf x e off on =
      let (msg, u, got, type, ok, r, (here, fits)) =
        stun_packet_back p remote c m (get_stun_message net split p buf) x e off on in
      let (print, whole) = get_back p buf msg u got type in
      let kept = (read_parsed net new_message msg buf [] whole).2 in
      (
        msg,
        r,
        print,
        whole,
        ap (validate_integrity_bytes net c.password) (sym kept)
            ∙ is_ok_bytes net split c.password msg ok,
        here,
        fits,
      )
