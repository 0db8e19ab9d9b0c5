-- ===== src/Stun/Length.antt =====
-- What a well-formed message is, and how many bytes it takes.
use xrtc_server.Prelude.Bits.{bit_xor-lt}
use xrtc_server.Prelude.{
  bit_xor, ℕ, zero, suc, ◌+◌, ◌-◌, ◌*◌, ◌%◌, ◌^◌, ◌≤◌, ◌<◌, ◌≡◌, refl, List, [], ◌∷◌, ◌++◌, some,
  arith, length, length-append, length-replicate, take,
}
use xrtc_server.Net.{Net}
use xrtc_server.Net.Laws.{length-write_uint32}
use xrtc_server.Stun.Data.{
  Attribute, byte_string, uint32_value, uint64_value, xor_address, error_code, StunMessage,
  IpAddress, ipv4, ipv6, unspec, SocketAddress, attr_type, attr_length, address_length, padded,
  add_attribute,
}
use xrtc_server.Stun.Write.{
  get_xored_ip, write_xor_address, write_value, write_attribute, write_padding,
}

-- An address that the server can write: IPv4.
abbrev pub IsIpv4 : IpAddress → Type 0
IsIpv4 (ipv4 a b c d) = Unit {0}
IsIpv4 unspec = ⊥
IsIpv4 (ipv6 bs) = ⊥

-- The fields of an attribute fit their types, and its length is that of what it holds.
abbrev pub Fits : Attribute → Type 0
Fits (byte_string t n bs) = (t < 65536) × (n ≡ length bs) × (n ≤ 65532)
Fits (uint32_value t v) = (t < 65536) × (v < 2 ^ 32)
Fits (uint64_value t v) = (t < 65536) × (v < 2 ^ 64)
Fits (xor_address t a) = (t < 65536) × IsIpv4 a.ip × (a.port < 65536)
Fits (error_code t n c k r) = (t < 65536) × (n ≡ 4 + length r) × (n ≤ 65532) × (c < 256) × (k < 256)

-- The bytes of the attributes in a message.
unfoldable pub total_size : List Attribute → ℕ
total_size [] = 0
total_size (a ∷ later) = 4 + padded (attr_length a) + total_size later

pub total_size-append :
    (xs ys : List Attribute) → total_size (xs ++ ys) ≡ total_size xs + total_size ys
unfolding total_size
total_size-append [] ys = omega arith
total_size-append (x ∷ xs) ys = omega (arith, total_size-append xs ys)

-- The header's length field counts the attributes.
abbrev pub Counts : StunMessage → Type 0
Counts m = m.length_field ≡ total_size m.attrs % 65536

-- add_attribute keeps the length field in step with the list, wrapping as a uint16_t does.
pub add_attribute-Counts : (a : Attribute) (m : StunMessage) → Counts m → Counts (add_attribute a m)
unfolding add_attribute total_size
add_attribute-Counts a m h = omega (arith, total_size-append m.attrs (a ∷ []))

pub take_all : (xs : List ℕ) (n : ℕ) → n ≡ length xs → take n xs ≡ xs
take_all [] zero h = refl
take_all [] (suc n) h = absurd (omega arith)
take_all (x ∷ xs) zero h = absurd (omega arith)
take_all (x ∷ xs) (suc n) h = rw (take_all xs n (omega arith))

pub padded-le : (n : ℕ) → n ≤ 65532 → padded n ≤ 65532
unfolding padded
padded-le n h = ground arith

pub length-write_padding : (n : ℕ) → n + length (write_padding n) ≡ padded n
unfolding write_padding padded
length-write_padding n = ground (arith, length-replicate {A = ℕ} (4 - n % 4) 0)

pub attr_type-lt : (a : Attribute) → Fits a → attr_type a < 65536
unfolding attr_type
attr_type-lt (byte_string t n bs) f = f.0
attr_type-lt (uint32_value t v) f = f.0
attr_type-lt (uint64_value t v) f = f.0
attr_type-lt (xor_address t a) f = f.0
attr_type-lt (error_code t n c k r) f = f.0

address_length-le : (ip : IpAddress) → address_length ip ≤ 20
unfolding address_length
address_length-le unspec = omega arith
address_length-le (ipv4 a b c d) = omega arith
address_length-le (ipv6 bs) = omega arith

pub attr_length-le : (a : Attribute) → Fits a → attr_length a ≤ 65532
unfolding attr_length
attr_length-le (byte_string t n bs) f = f.2
attr_length-le (uint32_value t v) f = omega arith
attr_length-le (uint64_value t v) f = omega arith
attr_length-le (xor_address t a) f = omega (arith, address_length-le a.ip)
attr_length-le (error_code t n c k r) f = f.2

abbrev xored_ip : ℕ → ℕ → ℕ → ℕ → List ℕ
xored_ip a b c d = bit_xor a 0x21 ∷ bit_xor b 0x12 ∷ bit_xor c 0xA4 ∷ bit_xor d 0x42 ∷ []

module _ (net : Net) where
  pub write_value-byte_string :
      (t n : ℕ) (bs : List ℕ)
      → n ≡ length bs
      → write_value net (byte_string t n bs) ≡ some (bs ++ write_padding n)
  unfolding write_value
  write_value-byte_string t n bs h = rw (net.write_bytes_lem, take_all bs n h)

  write_xor_address-ipv4 :
      (a : SocketAddress) (ip : IpAddress)
      → a.ip ≡ ip
      → IsIpv4 ip
      → a.port < 65536
      → (bs : List ℕ) × (write_xor_address net a ≡ some bs)
        × (length bs ≡ padded (address_length ip))
  unfolding write_xor_address address_length padded
  write_xor_address-ipv4 a unspec e v h = elim v [ ]
  write_xor_address-ipv4 a (ipv6 bs) e v h = elim v [ ]
  write_xor_address-ipv4 a (ipv4 p q r s) e v h = (
    net.write_uint8 0
        ++ net.write_uint8 1
        ++ net.write_uint16 (bit_xor a.port 0x2112)
        ++ net.write_bytes (xored_ip p q r s),
    rw (e, write_xor_address, get_xored_ip),
    rw (
      net.write_uint8_lem 0 (omega arith),
      net.write_uint8_lem 1 (omega arith),
      net.write_uint16_lem _ (bit_xor-lt 16 a.port 0x2112 h (omega arith)),
      net.write_bytes_lem,
    ),
  )

  -- A well-formed attribute is written, as many bytes as its length rounded up to four.
  pub write_value-Fits :
      (a : Attribute)
      → Fits a
      → (bs : List ℕ) × (write_value net a ≡ some bs) × (length bs ≡ padded (attr_length a))
  unfolding write_value attr_length padded
  write_value-Fits (byte_string t n bs) (_, e, _) = (
    bs ++ write_padding n,
    write_value-byte_string t n bs e,
    omega (arith, length-append bs (write_padding n), length-write_padding n),
  )
  write_value-Fits (uint32_value t v) (_, h) =
      (net.write_uint32 v, refl, length-write_uint32 net v h)
  write_value-Fits (uint64_value t v) f = (net.write_uint64 v, refl, net.length-write_uint64 v)
  write_value-Fits (xor_address t a) (_, v, p) = write_xor_address-ipv4 a a.ip refl v p
  write_value-Fits (error_code t n c k r) (_, e, _, hc, hk) = (
    net.write_uint32 (c * 256 + k) ++ (net.write_bytes r ++ write_padding n),
    refl,
    rw net.write_bytes_lem (
        omega (
          arith,
          length-append (net.write_uint32 (c * 256 + k)) (r ++ write_padding n),
          length-append r (write_padding n),
          length-write_uint32 net (c * 256 + k) (omega arith),
          length-write_padding n,
        )),
  )

  -- The same with the type and the length in front.
  pub write_attribute-Fits :
      (a : Attribute)
      → Fits a
      → (value : List ℕ) × (write_value net a ≡ some value)
        × (write_attribute net a
            ≡ some (net.write_uint16 (attr_type a) ++ (net.write_uint16 (attr_length a) ++ value)))
        × (length value ≡ padded (attr_length a))
  unfolding write_attribute
  write_attribute-Fits a f = let (value, e, n) = write_value-Fits a f in (value, e, rw e, n)
