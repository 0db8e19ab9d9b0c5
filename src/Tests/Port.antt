-- ===== src/Tests/Port.antt =====
-- A port that takes a signed request, and a connection that a signed response makes writable.
use xrtc_server.Prelude.{
  ℕ, subst, replicate, ◌+◌, ◌/◌, ◌≡◌, ◌↔◌, refl, List, [], ◌∷◌, ◌++◌, true, false, arith, All,
  Option, some, none, ap, ◌∙◌, sym, Bool-cases, inl, inr, if◌then◌else◌, ◌==◌, same_bytes,
}
use xrtc_server.Net.Example.{example_net}
use xrtc_server.Stun.Data.{
  StunMessage, SocketAddress, ipv4, new_message, add_attribute, byte_string_of,
  stun_binding_request, stun_attr_username, stun_attr_message_integrity,
}
use xrtc_server.Stun.Write.{
  write, write_attributes, write_attribute, add_message_integrity, add_fingerprint,
}
use xrtc_server.Stun.Read.{read, read_attributes, read_attribute, Parse, parsed, failed, stuck}
use xrtc_server.Stun.Check.{
  validate_fingerprint, validate_integrity_bytes, validate_message_integrity,
}
use xrtc_server.Stun.Codes.{get_stun_success_response}
use xrtc_server.Stream.Table.{find}
use xrtc_server.Ice.Connection.{IceConnection, new_connection, writable, weak}
use xrtc_server.Ice.Requests.{StunRequest, StunRequestManager, same_type, send}
use xrtc_server.Ice.Reception.{Reception, unmoved, on_read_packet}
use xrtc_server.Ice.Reception.Writable.{on_read_packet-writable}
use xrtc_server.Ice.Reception.Writable.Pinged.{ping-writable}
use xrtc_server.Ice.Requests.Answers.{IsTable, send-IsTable}
use xrtc_server.Ice.Controller.{member}
use xrtc_server.Tests.Requests.{no_requests, no_requests-IsTable}
use xrtc_server.Ice.Port.{
  create_stun_username, prepare, UdpPort, accepted, get_byte_string, is_some, get_stun_message,
}
use xrtc_server.Ice.Port.Authentication.{NoColon, Splits, get_stun_message_iff}

-- rtc::split at a colon.
abbrev push : ℕ → List (List ℕ) → List (List ℕ)
push x [] = (x ∷ []) ∷ []
push x (f ∷ fs) = (x ∷ f) ∷ fs

unfoldable split_colon : List ℕ → List (List ℕ)
split_colon [] = [] ∷ []
split_colon (x ∷ xs) = let rest = split_colon xs in if x == b':' then [] ∷ rest else push x rest

abbrev join : List (List ℕ) → List ℕ
join [] = []
join (f ∷ []) = f
join (f ∷ g ∷ fs) = f ++ (b':' ∷ join (g ∷ fs))

join-push : (x : ℕ) (f : List ℕ) (fs : List (List ℕ)) → join ((x ∷ f) ∷ fs) ≡ x ∷ join (f ∷ fs)
join-push x f [] = refl
join-push x f (g ∷ fs) = refl

split_parts :
    (xs : List ℕ)
    → (f : List ℕ) × (fs : List (List ℕ)) × (split_colon xs ≡ f ∷ fs)
      × All NoColon (f ∷ fs)
      × (join (f ∷ fs) ≡ xs)
unfolding split_colon
split_parts [] = ([], [], refl, (tt, tt), refl)
split_parts (x ∷ xs) =
    let (f, fs, e, clean, whole) = split_parts xs in
    elim (Bool-cases (x == b':')) [
      | inl c ↦ (
        [],
        f ∷ fs,
        rw c (ap (◌∷◌ []) e),
        (tt, clean),
        ap (◌∷◌ b':') whole ∙ ap (λ y. y ∷ xs) (let z : b':' ≡ x = ground arith in z),
      )
      | inr c ↦ (
        x ∷ f,
        fs,
        rw c (ap (push x) e),
        (((λ z. ground arith), clean.0), clean.1),
        join-push x f fs ∙ ap (◌∷◌ x) whole,
      )
    ]

split_clean : (b : List ℕ) → NoColon b → split_colon b ≡ b ∷ []
unfolding split_colon
split_clean [] n = refl
split_clean (x ∷ b) (ne, n) =
    let off : (x == b':') ≡ false = ground arith in rw off (ap (push x) (split_clean b n))

split_first : (a ys : List ℕ) → NoColon a → split_colon (a ++ (b':' ∷ ys)) ≡ a ∷ split_colon ys
unfolding split_colon
split_first [] ys n = refl
split_first (x ∷ a) ys (ne, n) =
    let off : (x == b':') ≡ false = ground arith in rw off (ap (push x) (split_first a ys n))

same_parts :
    (f a b : List ℕ) (fs : List (List ℕ)) (xs : List ℕ)
    → f ∷ fs ≡ a ∷ b ∷ []
    → All NoColon (f ∷ fs)
    → join (f ∷ fs) ≡ xs
    → (xs ≡ a ++ (b':' ∷ b)) × NoColon a × NoColon b
same_parts f a b fs xs e clean whole =
    let n = subst (All NoColon) e clean in (sym whole ∙ ap join e, n.0, n.1.0)

split_colon-Splits : Splits split_colon
split_colon-Splits xs a b = (
  λ e.
      (let (f, fs, s, clean, whole) = split_parts xs in
        same_parts f a b fs xs (sym s ∙ e) clean whole),
  λ (e, na, nb). ap split_colon e ∙ split_first a b na ∙ ap (◌∷◌ a) (split_clean b nb),
)

abbrev port : UdpPort
port = record { ice_ufrag = b's' ∷ b'v' ∷ []; ice_pwd = b'k' ∷ []; has_socket = true }

-- The peer's signed request.
abbrev unsigned : StunMessage
unfolding new_message add_attribute byte_string_of
unsigned =
    add_attribute (byte_string_of stun_attr_username (b's' ∷ b'v' ∷ b':' ∷ b'c' ∷ []))
      (record new_message { type = stun_binding_request })

abbrev bytes_of : Option (List ℕ) → List ℕ
bytes_of none = []
bytes_of (some bs) = bs

abbrev message_of : Parse (StunMessage × List ℕ) → StunMessage
unfolding new_message
message_of failed = new_message
message_of stuck = new_message
message_of (parsed (m, r)) = m

abbrev packet : List ℕ
unfolding write add_message_integrity add_fingerprint unsigned
packet = bytes_of (
    write example_net
      (add_fingerprint example_net (add_message_integrity example_net (b'k' ∷ []) unsigned).1).1)

abbrev request : StunMessage
unfolding read
request = message_of (read example_net new_message packet)

get_stun_message_iff_example :
    (get_stun_message example_net split_colon port packet
      ≡ accepted (validate_message_integrity example_net (b'k' ∷ []) request) (b'c' ∷ []))
    ↔ ((get_byte_string stun_attr_username request ≡ some (b's' ∷ b'v' ∷ b':' ∷ b'c' ∷ []))
        × NoColon (b's' ∷ b'v' ∷ [])
        × NoColon (b'c' ∷ [])
        × (is_some (get_byte_string stun_attr_message_integrity request) ≡ true)
        × (validate_integrity_bytes example_net (b'k' ∷ []) packet ≡ true))
unfolding validate_fingerprint read example_net request packet write_attributes write_attribute
    read_attributes read_attribute
get_stun_message_iff_example =
    get_stun_message_iff example_net split_colon port request packet (b'c' ∷ []) split_colon-Splits
      refl refl refl

-- A connection that waits for the response to its first request.
abbrev fresh : IceConnection
unfolding new_connection
fresh = new_connection 2 2130706431 1845501695 (b'c' ∷ []) (b'w' ∷ [])

abbrev waiting : StunRequestManager
waiting =
    send (record { address = 5; id = replicate 12 b'0'; type = 1; ts = 40 })
      (record { requests = []; live = [] })

abbrev answer_packet : List ℕ
unfolding write add_message_integrity add_fingerprint new_message
answer_packet = bytes_of (
    write example_net
      (add_fingerprint example_net
        (add_message_integrity example_net (b'w' ∷ []) (record new_message { type = 0x101 })).1).1)

abbrev peer : SocketAddress
peer = record { ip = ipv4 10 0 0 2; port = 5000 }

abbrev half : ℕ → ℕ → ℕ → ℕ
half a b c = (a + b) / 2

abbrev received : Option Reception
unfolding on_read_packet
received = on_read_packet example_net split_colon half 90 port peer fresh waiting answer_packet

abbrev reception : Reception
unfolding on_read_packet received
reception = elim received [ none ↦ unmoved fresh waiting none | some x ↦ x ]

on_read_packet-writable_example :
    (msg : StunMessage) × (r : StunRequest) × (validate_fingerprint example_net answer_packet
      ≡ true)
    × (read example_net new_message answer_packet ≡ parsed (msg, []))
    × (validate_integrity_bytes example_net (b'w' ∷ []) answer_packet ≡ true)
    × (find msg.transaction_id waiting.requests ≡ some r)
    × (same_type msg.type (get_stun_success_response r.type) ≡ true)
unfolding received reception fresh write_attributes write_attribute example_net read_attributes
    read_attribute send writable
on_read_packet-writable_example =
    on_read_packet-writable example_net split_colon half 90 port peer fresh waiting answer_packet
      reception refl refl refl

-- The other end: its port, and its connection.
abbrev other_port : UdpPort
other_port = record { ice_ufrag = b'c' ∷ []; ice_pwd = b'w' ∷ []; has_socket = true }

abbrev other_connection : IceConnection
unfolding new_connection
other_connection = new_connection 7 1845501695 2130706431 (b's' ∷ b'v' ∷ []) (b'k' ∷ [])

abbrev id : List ℕ
id = replicate 12 b'0'

abbrev waiting_request : StunRequest
waiting_request = record { address = 5; id = id; type = 1; ts = 40 }

waiting-IsTable : IsTable waiting
unfolding member
waiting-IsTable = send-IsTable waiting_request no_requests refl no_requests-IsTable

ping-writable_example :
    (ping answer : List ℕ) × (x y : Reception) × (write example_net
        (prepare example_net split_colon port (b'c' ∷ []) (b'w' ∷ []) 2130706431 id)
      ≡ some ping)
    × (on_read_packet example_net split_colon half 60 other_port peer other_connection no_requests
          ping
        ≡ some x)
    × (x.sent ≡ some answer)
    × (x.connection.last_ping_received ≡ 60)
    × (on_read_packet example_net split_colon half 90 port peer fresh waiting answer ≡ some y)
    × (weak y.connection ≡ false)
    × (y.connection.pings ≡ [])
unfolding create_stun_username fresh other_connection find send same_bytes
ping-writable_example =
    ping-writable example_net split_colon half port other_port fresh other_connection waiting
      no_requests waiting_request id 60 90 10 0 0 2 5000 peer split_colon-Splits
      ((λ z. ground arith), ((λ z. ground arith), tt)) ((λ z. ground arith), tt) (omega arith) refl
      refl refl refl (omega arith) waiting-IsTable refl refl (omega arith)
