-- ===== src/Tests/Stun.antt =====
-- The STUN codec on a Binding request with a user name and a priority.
use xrtc_server.Prelude.{
  ℕ, ◌≡◌, ◌≢◌, refl, List, [], ◌∷◌, true, some, All, length, arith, bit_and, ◌+◌, ◌↔◌, sym,
}
use xrtc_server.Net.Example.{example_net}
use xrtc_server.Stun.Data.{
  StunMessage, Attribute, byte_string, uint32_value, not_set, padded, attr_length, attr_type,
}
use xrtc_server.Stun.Codes.{
  get_stun_success_response, get_stun_error_response, get_stun_response_lem, ResponsesOf,
}
use xrtc_server.Stun.Write.{write, add_fingerprint}
use xrtc_server.Stun.Read.{
  read, is_magic_cookie, read_attributes, parsed, stuck, get_attribute_value_type,
  get_error_code_value,
}
use xrtc_server.Stun.Check.{validate_fingerprint}
use xrtc_server.Stun.Length.{Fits, total_size}
use xrtc_server.Stun.RoundTrip.{IsTyped, known, read-write}
use xrtc_server.Stun.Parsed.{IsRead, read-ne-stuck, read_parsed, get_error_code_value-read}
use xrtc_server.Stun.Fingerprint.{
  validate_fingerprint_iff, validate_fingerprint-add_fingerprint, EndsInFingerprint,
}
use xrtc_server.Stun.Integrity.{NoIntegrity}
use xrtc_server.Stun.Exchange.{validate_message_integrity-add_message_integrity, Exchanged}

abbrev user_name : Attribute
user_name = byte_string 6 5 (b'a' ∷ b':' ∷ b'b' ∷ b'c' ∷ b'd' ∷ [])

abbrev priority_attribute : Attribute
priority_attribute = uint32_value 0x24 1845501695

abbrev request : StunMessage
request = record {
  type = 1;
  length_field = 20;
  transaction_id = 1 ∷ 2 ∷ 3 ∷ 4 ∷ 5 ∷ 6 ∷ 7 ∷ 8 ∷ 9 ∷ 10 ∷ 11 ∷ 12 ∷ [];
  attrs = user_name ∷ priority_attribute ∷ [];
  integrity = not_set;
  password = [];
  buffer = [];
}

fits : All Fits request.attrs
fits = ((omega arith, refl, omega arith), ((omega arith, omega arith), tt))

typed : All IsTyped request.attrs
unfolding get_attribute_value_type
typed = ((λ e. cc), ((λ e. cc), tt))

unsigned : All NoIntegrity request.attrs
unfolding attr_type
unsigned = ((λ e. ground arith), ((λ e. ground arith), tt))

size : total_size request.attrs ≡ 20
unfolding total_size padded attr_length
size = refl

read-write_example :
    (bs : List ℕ) × (write example_net request ≡ some bs)
    × (length bs ≡ 20 + total_size request.attrs)
    × (read example_net request bs
        ≡ parsed (record request { attrs = known request.attrs; buffer = bs }, []))
read-write_example =
    read-write example_net request request (omega arith) refl refl fits typed (omega (arith, size))
      (sym size)

read-ne-stuck_example : read example_net request (1 ∷ 2 ∷ []) ≢ stuck
read-ne-stuck_example = read-ne-stuck example_net request (1 ∷ 2 ∷ [])

-- A Binding request without attributes.
abbrev bare_packet : List ℕ
bare_packet =
    0 ∷ 1 ∷ 0 ∷ 0 ∷ 0x21 ∷ 0x12 ∷ 0xA4 ∷ 0x42 ∷ 1 ∷ 2 ∷ 3 ∷ 4 ∷ 5 ∷ 6 ∷ 7 ∷ 8 ∷ 9 ∷ 10 ∷ 11 ∷ 12
    ∷ []

abbrev bare : StunMessage
bare = record request { length_field = 0; attrs = []; buffer = bare_packet }

parses : read example_net request bare_packet ≡ parsed (bare, [])
unfolding read is_magic_cookie read_attributes example_net
parses = refl

abbrev nothing : List ℕ
nothing = []

read_parsed_example :
    (nothing ≡ [])
    × (length bare_packet ≡ 20 + bare.length_field)
    × (bare.buffer ≡ bare_packet)
    × (bit_and bare.type 0x0800 ≡ 0)
    × All IsRead bare.attrs
read_parsed_example = read_parsed example_net request bare bare_packet [] parses

get_error_code_value-read_example : get_error_code_value bare ≡ some 600
get_error_code_value-read_example =
    get_error_code_value-read example_net request bare bare_packet [] parses

validate_fingerprint_iff_example :
    (validate_fingerprint example_net bare_packet ≡ true)
    ↔ EndsInFingerprint example_net bare_packet
validate_fingerprint_iff_example = validate_fingerprint_iff example_net bare_packet

validate_fingerprint-add_fingerprint_example :
    (bs : List ℕ) × ((add_fingerprint example_net request).0 ≡ true)
    × (write example_net (add_fingerprint example_net request).1 ≡ some bs)
    × (validate_fingerprint example_net bs ≡ true)
validate_fingerprint-add_fingerprint_example =
    validate_fingerprint-add_fingerprint example_net request (omega arith) refl fits typed
      (omega (arith, size)) (sym size)

validate_message_integrity-add_message_integrity_example :
    Exchanged example_net (b'k' ∷ b'e' ∷ b'y' ∷ []) request request
validate_message_integrity-add_message_integrity_example =
    validate_message_integrity-add_message_integrity example_net (b'k' ∷ b'e' ∷ b'y' ∷ []) request
      request (omega arith) refl refl fits typed unsigned (omega (arith, size)) (sym size)

get_stun_response_example : ResponsesOf 1 (get_stun_success_response 1) (get_stun_error_response 1)
get_stun_response_example = get_stun_response_lem 1 (omega arith)
