-- ===== src/Stun/Data.antt =====
-- ice/stun.h: constants, attributes and messages. A `uint16_t` field keeps its wrap-around (`% 65536`).
use xrtc_server.Prelude.{
  ℕ, ◌+◌, ◌-◌, ◌%◌, List, [], ◌∷◌, ◌++◌, if◌then◌else◌, ◌==◌, length, replicate,
}

abbrev pub k_stun_header_size : ℕ
k_stun_header_size = 20

abbrev pub k_stun_attribute_header_size : ℕ
k_stun_attribute_header_size = 4

abbrev pub k_stun_transaction_id_length : ℕ
k_stun_transaction_id_length = 12

abbrev pub k_stun_magic_cookie : ℕ
k_stun_magic_cookie = 0x2112_A442

abbrev pub k_stun_message_integrity_size : ℕ
k_stun_message_integrity_size = 20

abbrev pub stun_fingerprint_xor_value : ℕ
stun_fingerprint_xor_value = 0x5354_554e

abbrev pub stun_binding_request : ℕ
stun_binding_request = 0x0001

abbrev pub stun_binding_response : ℕ
stun_binding_response = 0x0101

abbrev pub stun_binding_error_response : ℕ
stun_binding_error_response = 0x0111

abbrev pub stun_attr_username : ℕ
stun_attr_username = 0x0006

abbrev pub stun_attr_message_integrity : ℕ
stun_attr_message_integrity = 0x0008

abbrev pub stun_attr_error_code : ℕ
stun_attr_error_code = 0x0009

abbrev pub stun_attr_xor_mapped_address : ℕ
stun_attr_xor_mapped_address = 0x0020

abbrev pub stun_attr_priority : ℕ
stun_attr_priority = 0x0024

abbrev pub stun_attr_use_candidate : ℕ
stun_attr_use_candidate = 0x0025

abbrev pub stun_attr_fingerprint : ℕ
stun_attr_fingerprint = 0x8028

abbrev pub stun_attr_ice_controlling : ℕ
stun_attr_ice_controlling = 0x802A

-- An `rtc::SocketAddress`, by what its accessors return: the family with the bytes of the address in
-- network order, and the port.
pub data IpAddress : Type 0 where
  unspec : IpAddress
  ipv4 : ℕ → ℕ → ℕ → ℕ → IpAddress
  ipv6 : List ℕ → IpAddress

pub record SocketAddress : Type 0 where
  pub ip : IpAddress
  pub port : ℕ

-- The subclasses of StunAttribute. The first field is `_type`; `_length` is a field where the class
-- does not fix it, `_bytes` is the array of a byte string, and an error code has `_class`, `_number`
-- and `_reason`.
pub data Attribute : Type 0 where
  byte_string : ℕ → ℕ → List ℕ → Attribute
  uint32_value : ℕ → ℕ → Attribute
  uint64_value : ℕ → ℕ → Attribute
  xor_address : ℕ → SocketAddress → Attribute
  error_code : ℕ → ℕ → ℕ → ℕ → List ℕ → Attribute

pub data IntegrityStatus : Type 0 where
  not_set no_integrity integrity_ok integrity_bad : IntegrityStatus

pub record StunMessage : Type 0 where
  pub type : ℕ
  pub length_field : ℕ
  pub transaction_id : List ℕ
  pub attrs : List Attribute
  pub integrity : IntegrityStatus
  pub password : List ℕ
  pub buffer : List ℕ

-- StunMessage::StunMessage, with twelve times the character '0' for an id.
unfoldable pub new_message : StunMessage
new_message = record {
  type = 0;
  length_field = 0;
  transaction_id = replicate 12 b'0';
  attrs = [];
  integrity = not_set;
  password = [];
  buffer = [];
}

-- StunAttribute::type
unfoldable pub attr_type : Attribute → ℕ
attr_type (byte_string t n bs) = t
attr_type (uint32_value t v) = t
attr_type (uint64_value t v) = t
attr_type (xor_address t a) = t
attr_type (error_code t n c k r) = t

-- StunAddressAttribute::set_address
unfoldable pub address_length : IpAddress → ℕ
address_length unspec = 0
address_length (ipv4 a b c d) = 8
address_length (ipv6 bs) = 20

-- StunAttribute::length
unfoldable pub attr_length : Attribute → ℕ
unfolding address_length
attr_length (byte_string t n bs) = n
attr_length (uint32_value t v) = 4
attr_length (uint64_value t v) = 8
attr_length (xor_address t a) = address_length a.ip
attr_length (error_code t n c k r) = n

-- The rounding up to a multiple of four that the source writes out where it needs it.
unfoldable pub padded : ℕ → ℕ
padded n = if n % 4 == 0 then n else n + (4 - n % 4)

-- StunMessage::add_attribute
unfoldable pub add_attribute : Attribute → StunMessage → StunMessage
unfolding padded attr_length
add_attribute a m = record m {
  length_field = (m.length_field + (padded (attr_length a) + k_stun_attribute_header_size)) % 65536;
  attrs = m.attrs ++ (a ∷ []);
}

-- The constructors that take a value: StunByteStringAttribute with copy_bytes, and
-- StunErrorCodeAttribute through create_error_code, set_code and set_reason.
unfoldable pub byte_string_of : ℕ → List ℕ → Attribute
byte_string_of t bs = byte_string t (length bs % 65536) bs
