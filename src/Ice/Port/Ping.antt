-- ===== src/Ice/Port/Ping.antt =====
-- ConnectionRequest::prepare of ice/stun_request.cpp and the answer of ice/ice_connection.cpp: a ping
-- from one port to another, and its answer.
use xrtc_server.Prelude.{
  ℕ, ◌+◌, ◌%◌, ◌<◌, ◌≤◌, ◌≡◌, refl, List, ◌∷◌, ◌++◌, [], true, false, Option, some, none, ◌==◌,
  arith, length, ap, ◌∙◌, subst,
}
use xrtc_server.Net.{Net}
use xrtc_server.Stun.Data.{
  ipv4, SocketAddress, StunMessage, byte_string, uint32_value, new_message, add_attribute,
  byte_string_of, padded, IntegrityStatus, Attribute, attr_length, attr_type, integrity_ok,
  stun_binding_request, stun_binding_response, stun_attr_username, stun_attr_message_integrity,
  stun_attr_fingerprint,
}
use xrtc_server.Stun.Write.{write, add_message_integrity, add_fingerprint}
use xrtc_server.Stun.Read.{get_attribute_value_type, get_attribute}
use xrtc_server.Stun.Length.{total_size}
use xrtc_server.Stun.Check.{validate_message_integrity, validate_integrity_bytes}
use xrtc_server.Stun.Parsed.{read_parsed}
use xrtc_server.Stun.RoundTrip.{known, known_as}
use xrtc_server.Stun.Exchange.{Exchanged, validate_message_integrity-add_message_integrity}
use xrtc_server.Ice.Port.{
  UdpPort, create_stun_username, binding_request, binding_response, prepare, accepted, is_ok,
  is_some, get_byte_string, check_message, get_stun_message, send_stun_binding_response,
}
use xrtc_server.Ice.Port.Authentication.{
  NoColon, Splits, is_ok_bytes, get_stun_message_at, get_stun_message_iff,
}

padded-lt : (n : ℕ) → padded n < n + 4
unfolding padded
padded-lt n = ground arith

-- A checked message keeps what was parsed.
pub validate_message_integrity_keeps :
    (net : Net) (key : List ℕ) (m : StunMessage)
    → let v = validate_message_integrity net key m in
      (v.type ≡ m.type) × (v.transaction_id ≡ m.transaction_id) × (v.attrs ≡ m.attrs)
unfolding validate_message_integrity
validate_message_integrity_keeps net key m = (refl, refl, refl)

name_kept :
    (net : Net) (key : List ℕ) (t : ℕ) (m : StunMessage)
    → get_byte_string t (validate_message_integrity net key m) ≡ get_byte_string t m
unfolding validate_message_integrity get_byte_string
name_kept net key t m = refl

module _ (net : Net) (p : UdpPort) (remote_username remote_pwd id : List ℕ)
    (local_priority : ℕ) where
  request-Exchanged :
      length (create_stun_username p remote_username) ≤ 512
      → length id ≡ 12
      → Exchanged net remote_pwd (binding_request p remote_username local_priority id) new_message
  unfolding binding_request new_message add_attribute byte_string_of total_size
      get_attribute_value_type attr_length attr_type
  request-Exchanged small twelve =
      let name = create_stun_username p remote_username in
      let n = padded-lt (length name % 65536) in
      validate_message_integrity-add_message_integrity net remote_pwd
        (binding_request p remote_username local_priority id) new_message (omega arith) refl twelve
        (
          (omega arith, omega arith, omega arith),
          (
            (omega arith, omega arith),
            ((omega arith, refl, omega arith), ((omega arith, omega arith), tt)),
          ),
        )
        ((λ e. cc), (refl, ((λ e. cc), ((λ e. cc), tt))))
        ((λ e. omega arith), ((λ e. omega arith), ((λ e. omega arith), ((λ e. omega arith), tt))))
        (omega (arith, n)) (omega (arith, n))

  -- What the reader makes of the request's attributes.
  request_name :
      (r : StunMessage) (digest : List ℕ) (value : ℕ)
      → r.attrs
        ≡ known (
            (binding_request p remote_username local_priority id).attrs
            ++ (byte_string stun_attr_message_integrity 20 digest
                ∷ uint32_value stun_attr_fingerprint value
                ∷ []))
      → (get_byte_string stun_attr_username r ≡ some (remote_username ++ (b':' ∷ p.ice_ufrag)))
        × (get_byte_string stun_attr_message_integrity r ≡ some digest)
  unfolding get_byte_string get_attribute known known_as get_attribute_value_type binding_request
      new_message add_attribute byte_string_of create_stun_username attr_type
  request_name r digest value e =
      let byte_string_in : ℕ → List Attribute → Option (List ℕ) = λ t xs.
        elim (get_attribute t xs) [
          | none ↦ none
          | some x ↦ elim x [ byte_string u n bs ↦ some bs | _ ↦ none ]
        ] in
      (ap (byte_string_in stun_attr_username) e, ap (byte_string_in stun_attr_message_integrity) e)

response-Exchanged :
    (net : Net) (key id : List ℕ) (a b c d port : ℕ)
    → length id ≡ 12
    → port < 65536
    → Exchanged net key
        (binding_response (record { ip = ipv4 a b c d; port = port }) id)
        new_message
unfolding binding_response new_message add_attribute total_size get_attribute_value_type attr_length
    attr_type
response-Exchanged net key id a b c d port twelve fits =
    validate_message_integrity-add_message_integrity net key
      (binding_response (record { ip = ipv4 a b c d; port = port }) id) new_message (omega arith)
      refl twelve ((omega arith, tt, fits), tt) (refl, tt) ((λ e. omega arith), tt) (omega arith)
      (omega arith)

-- A message that is no request is passed on as it is.
check_message_other :
    (net : Net) (split : List ℕ → List (List ℕ)) (p : UdpPort) (m : StunMessage)
    → m.type ≡ stun_binding_response
    → check_message net split p m ≡ accepted m []
unfolding check_message
check_message_other net split p m t =
    let off : (m.type == stun_binding_request) ≡ false = ap (λ x. x == stun_binding_request) t in
    simp (off, check_message)

-- A response is sent for a request with a USERNAME.
response_sent :
    (net : Net) (split : List ℕ → List (List ℕ)) (q : UdpPort) (remote : SocketAddress)
    (m : StunMessage) (name : List ℕ)
    → get_byte_string stun_attr_username m ≡ some name
    → send_stun_binding_response net split q remote m
      ≡ write net
          (add_fingerprint net
            (add_message_integrity net q.ice_pwd (binding_response remote m.transaction_id)).1).1
unfolding send_stun_binding_response
response_sent net split q remote m name e = rw (e, send_stun_binding_response) refl

prepared :
    (net : Net) (split : List ℕ → List (List ℕ)) (p : UdpPort) (name pwd id : List ℕ) (prio : ℕ)
    → prepare net split p name pwd prio id
      ≡ (add_fingerprint net (add_message_integrity net pwd (binding_request p name prio id)).1).1
unfolding prepare
prepared net split p name pwd id prio = refl

pub ok_is_ok : (i : IntegrityStatus) → i ≡ integrity_ok → is_ok i ≡ true
ok_is_ok i e = ap is_ok e

-- The peer's half: what the port `q` makes of the ping of the port `p`.
abbrev pub Taken : Net → (List ℕ → List (List ℕ)) → UdpPort → UdpPort → ℕ → List ℕ → Type 0
Taken net split p q prio id =
    (ping : List ℕ) × (m : StunMessage) × (write net
        (prepare net split p q.ice_ufrag q.ice_pwd prio id)
      ≡ some ping)
    × (get_stun_message net split q ping ≡ accepted m p.ice_ufrag)
    × (m.type ≡ stun_binding_request)
    × (m.transaction_id ≡ id)
    × (get_byte_string stun_attr_username m ≡ some (q.ice_ufrag ++ (b':' ∷ p.ice_ufrag)))

-- The own half: what the port `p` makes of the answer, which a password tests.
abbrev pub AnswerTaken :
    Net → (List ℕ → List (List ℕ)) → UdpPort → List ℕ → List ℕ → Option (List ℕ) → Type 0
AnswerTaken net split p pwd id sent =
    (answer : List ℕ) × (r : StunMessage) × (sent ≡ some answer)
    × (get_stun_message net split p answer ≡ accepted r [])
    × ((validate_message_integrity net pwd r).integrity ≡ integrity_ok)
    × (r.type ≡ stun_binding_response)
    × (r.transaction_id ≡ id)

module _ (net : Net) (split : List ℕ → List (List ℕ)) where
  pub ping-Taken :
      (p q : UdpPort) (prio : ℕ) (id : List ℕ)
      → Splits split
      → NoColon p.ice_ufrag
      → NoColon q.ice_ufrag
      → length (create_stun_username p q.ice_ufrag) ≤ 512
      → length id ≡ 12
      → Taken net split p q prio id
  unfolding binding_request new_message add_attribute byte_string_of
  ping-Taken p q prio id law clean clean' small twelve =
      let (_, _, bs, r, w, f, back, ok, ty, same_id, digest, value, attrs) =
        request-Exchanged net p q.ice_ufrag q.ice_pwd id prio small twelve in
      let (name, mi) = request_name net p q.ice_ufrag q.ice_pwd id prio r digest value attrs in
      let v = validate_message_integrity net q.ice_pwd r in
      let kept = validate_message_integrity_keeps net q.ice_pwd r in
      let right = is_ok_bytes net split q.ice_pwd r (ok_is_ok v.integrity ok) in
      let buffer = (read_parsed net new_message r bs [] back).2 in
      (
        bs,
        v,
        ap (write net) (prepared net split p q.ice_ufrag q.ice_pwd id prio) ∙ w,
        (get_stun_message_iff net split q r bs p.ice_ufrag law f back ty).1 (
          name,
          clean',
          clean,
          ap is_some mi,
          subst (λ x. validate_integrity_bytes net q.ice_pwd x ≡ true) buffer right,
        ),
        kept.0 ∙ ty,
        kept.1 ∙ same_id,
        name_kept net q.ice_pwd stun_attr_username r ∙ name,
      )

  pub answer-Taken :
      (p q : UdpPort) (id : List ℕ) (m : StunMessage) (name : List ℕ) (a b c d port : ℕ)
      → length id ≡ 12
      → port < 65536
      → m.transaction_id ≡ id
      → get_byte_string stun_attr_username m ≡ some name
      → AnswerTaken net split p q.ice_pwd id
          (send_stun_binding_response net split q (record { ip = ipv4 a b c d; port = port }) m)
  unfolding binding_response new_message add_attribute
  answer-Taken p q id m name a b c d port twelve fits same_id named =
      let remote : SocketAddress = record { ip = ipv4 a b c d; port = port } in
      let (_, _, bs, r, w, f, back, ok, ty, kept_id, _, _, _) =
        response-Exchanged net q.ice_pwd id a b c d port twelve fits in
      (
        bs,
        r,
        response_sent net split q remote m name named
            ∙ ap
                (λ i.
                  write net
                    (add_fingerprint net
                      (add_message_integrity net q.ice_pwd (binding_response remote i)).1).1)
                same_id
            ∙ w,
        get_stun_message_at net split p r bs f back ∙ check_message_other net split p r ty,
        ok,
        ty,
        kept_id,
      )
