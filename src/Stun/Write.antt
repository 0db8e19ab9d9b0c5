-- ===== src/Stun/Write.antt =====
-- ice/stun.cpp: StunMessage::write with the write of each attribute, add_message_integrity and
-- add_fingerprint. `none` stands for the answer false.
use xrtc_server.Prelude.{
  ℕ, ◌+◌, ◌-◌, ◌*◌, ◌%◌, List, [], ◌∷◌, ◌++◌, Bool, true, false, Option, some, none, bit_xor,
  if◌then◌else◌, ◌==◌, length, take, replicate,
}
use xrtc_server.Net.{Net}
use xrtc_server.Stun.Data.{
  Attribute, byte_string, uint32_value, uint64_value, xor_address, error_code, StunMessage,
  IpAddress, ipv4, ipv6, unspec, SocketAddress, attr_type, attr_length, add_attribute,
  byte_string_of, integrity_ok, k_stun_magic_cookie, k_stun_attribute_header_size,
  k_stun_message_integrity_size, stun_attr_message_integrity, stun_attr_fingerprint,
  stun_fingerprint_xor_value,
}

infixl 5 ◌>>=◌
abbrev pub ◌>>=◌ {ℓ κ} : {A : Type ℓ} {B : Type κ} → Option A → (A → Option B) → Option B
some a >>= f = f a
none >>= f = none

-- StunXorAddressAttribute::_get_xored_ip, on the bytes of `s_addr` in network order; there is no
-- answer (AF_UNSPEC) for other families.
unfoldable pub get_xored_ip : IpAddress → Option (List ℕ)
get_xored_ip (ipv4 a b c d) =
    some (bit_xor a 0x21 ∷ bit_xor b 0x12 ∷ bit_xor c 0xA4 ∷ bit_xor d 0x42 ∷ [])
get_xored_ip unspec = none
get_xored_ip (ipv6 bs) = none

-- StunAttribute::write_padding
unfoldable pub write_padding : ℕ → List ℕ
write_padding n = if n % 4 == 0 then [] else replicate (4 - n % 4) 0

module _ (net : Net) where
  -- StunXorAddressAttribute::write
  unfoldable pub write_xor_address : SocketAddress → Option (List ℕ)
  unfolding get_xored_ip
  write_xor_address a = do
    ip ← get_xored_ip a.ip
    some (
        net.write_uint8 0
        ++ net.write_uint8 1
        ++ net.write_uint16 (bit_xor a.port 0x2112)
        ++ net.write_bytes ip)

  -- The `write` of each subclass.
  unfoldable pub write_value : Attribute → Option (List ℕ)
  unfolding write_padding write_xor_address
  write_value (byte_string t n bs) = some (net.write_bytes (take n bs) ++ write_padding n)
  write_value (uint32_value t v) = some (net.write_uint32 v)
  write_value (uint64_value t v) = some (net.write_uint64 v)
  write_value (xor_address t a) = write_xor_address a
  write_value (error_code t n c k reason) =
      some (net.write_uint32 (c * 256 + k) ++ (net.write_bytes reason ++ write_padding n))

  -- The body of the loop of StunMessage::write.
  unfoldable pub write_attribute : Attribute → Option (List ℕ)
  unfolding write_value attr_type attr_length
  write_attribute a = do
    value ← write_value a
    some (net.write_uint16 (attr_type a) ++ (net.write_uint16 (attr_length a) ++ value))

  unfoldable pub write_attributes : List Attribute → Option (List ℕ)
  write_attributes [] = some []
  write_attributes (a ∷ later) = do
    first ← write_attribute a
    rest ← write_attributes later
    some (first ++ rest)

  unfoldable pub write_header : StunMessage → List ℕ
  write_header m =
      net.write_uint16 m.type
      ++ (net.write_uint16 m.length_field
          ++ (net.write_uint32 k_stun_magic_cookie ++ net.write_bytes m.transaction_id))

  -- StunMessage::write
  unfoldable pub write : StunMessage → Option (List ℕ)
  unfolding write_header
  write m = do body ← write_attributes m.attrs; some (write_header m ++ body)

  -- StunMessage::_add_message_integrity_of_type at its one call. The placeholder stays in the message
  -- when serialising it fails; otherwise its bytes are replaced by the digest.
  unfoldable pub add_message_integrity : List ℕ → StunMessage → Bool × StunMessage
  unfolding add_attribute byte_string_of
  add_message_integrity key m =
      let with_mi = λ (value : List ℕ). byte_string_of stun_attr_message_integrity value in
      let placed = add_attribute (with_mi (replicate k_stun_message_integrity_size b'0')) m in
      elim (write placed) [
        | none ↦ (false, placed)
        | some bytes ↦
            let text_len =
              length bytes - k_stun_attribute_header_size - k_stun_message_integrity_size in
            let hmac = net.hmac_sha1 key (take text_len bytes) in
            if length hmac == k_stun_message_integrity_size
            then (
              true,
              record placed {
                attrs = m.attrs ++ (with_mi hmac ∷ []);
                password = key;
                integrity = integrity_ok;
              },
            )
            else (false, placed)
      ]

  -- StunMessage::add_fingerprint
  unfoldable pub add_fingerprint : StunMessage → Bool × StunMessage
  unfolding add_attribute
  add_fingerprint m =
      let placed = add_attribute (uint32_value stun_attr_fingerprint 0) m in
      elim (write placed) [
        | none ↦ (false, placed)
        | some bytes ↦
            let crc = net.crc32 (take (length bytes - k_stun_attribute_header_size - 4) bytes) in
            (
              true,
              record placed {
                attrs =
                    m.attrs
                    ++ (uint32_value stun_attr_fingerprint (bit_xor crc stun_fingerprint_xor_value)
                        ∷ []);
              },
            )
      ]
