-- ===== src/Stun/RoundTrip.antt =====
-- StunMessage::read after StunMessage::write.
use mathlib.Core.List.{append_assoc, append-nil}
use xrtc_server.Prelude.{
  ℕ, zero, suc, ◌+◌, ◌-◌, ◌%◌, ◌≤◌, ◌<◌, ◌≡◌, ◌≢◌, refl, sym, ◌∙◌, inl, inr, List, [], ◌∷◌, ◌++◌,
  true, some, arith, ◌==◌, length, length-append, length-replicate, replicate, All, bit_and,
  Bool-cases, ==_refl,
}
use xrtc_server.Net.{Net}
use xrtc_server.Net.Laws.{
  read_uint16-write_uint16, read_uint32-write_uint32, length-write_uint16, length-write_uint32,
}
use xrtc_server.Stun.Data.{
  Attribute, byte_string, uint32_value, uint64_value, xor_address, error_code, StunMessage,
  attr_type, attr_length, padded, k_stun_magic_cookie,
}
use xrtc_server.Stun.Write.{
  write_value, write_attribute, write_attributes, write_header, write, write_padding,
}
use xrtc_server.Stun.Read.{
  parsed, ValueType, value_unknown, value_uint32, value_byte_string, get_attribute_value_type,
  consume_padding, read_value, read_attribute, read_attributes, is_magic_cookie, read,
}
use xrtc_server.Stun.Length.{
  Fits, write_value-byte_string, write_attribute-Fits, attr_type-lt, attr_length-le, padded-le,
  total_size,
}

-- The class of an attribute is the one that the reader makes for its type, or the reader skips it.
abbrev pub IsTyped : Attribute → Type 0
IsTyped (byte_string t n bs) = get_attribute_value_type t ≢ value_uint32
IsTyped (uint32_value t v) = get_attribute_value_type t ≢ value_byte_string
IsTyped (uint64_value t v) = get_attribute_value_type t ≡ value_unknown
IsTyped (xor_address t a) = get_attribute_value_type t ≡ value_unknown
IsTyped (error_code t n c k r) = get_attribute_value_type t ≡ value_unknown

-- The attributes whose type the reader knows.
unfoldable pub known_as : ValueType → Attribute → List Attribute
known_as value_unknown a = []
known_as value_uint32 a = a ∷ []
known_as value_byte_string a = a ∷ []

unfoldable pub known : List Attribute → List Attribute
known [] = []
known (a ∷ later) = known_as (get_attribute_value_type (attr_type a)) a ++ known later

module _ (net : Net) where
  consume_padding-write_padding :
      (n : ℕ) (r : List ℕ) → consume_padding net n (write_padding n ++ r) ≡ r
  unfolding consume_padding write_padding
  consume_padding-write_padding n r = elim (Bool-cases (n % 4 == 0)) [
    | inl e ↦ rw e
    | inr e ↦ rw (
      e,
      net.consume-append (4 - n % 4) (replicate (4 - n % 4) 0) r
          (sym (length-replicate (4 - n % 4) 0)),
    )
  ]

  -- The type and the length are read first.
  read_attribute-header :
      (t n : ℕ) (value r : List ℕ)
      → t < 65536
      → n < 65536
      → read_attribute net ((net.write_uint16 t ++ (net.write_uint16 n ++ value)) ++ r)
        ≡ read_value net (get_attribute_value_type t) t n (value ++ r)
  unfolding read_attribute
  read_attribute-header t n value r ht hn = rw (
    append_assoc,
    append_assoc,
    read_uint16-write_uint16 net t _ ht,
    read_uint16-write_uint16 net n _ hn,
  )

  read_value-unknown :
      (t n : ℕ) (value r : List ℕ)
      → n ≤ 65532
      → length value ≡ padded n
      → read_value net value_unknown t n (value ++ r) ≡ parsed ([], r)
  unfolding read_value
  read_value-unknown t n value r hn e =
      let small : padded n % 65536 ≡ length value = omega (arith, padded-le n hn) in
      rw (net.consume-append (padded n % 65536) value r small)

  read_value-write_value :
      (a : Attribute) (v : ValueType) (value r : List ℕ)
      → Fits a
      → IsTyped a
      → get_attribute_value_type (attr_type a) ≡ v
      → write_value net a ≡ some value
      → length value ≡ padded (attr_length a)
      → read_value net v (attr_type a) (attr_length a) (value ++ r) ≡ parsed (known_as v a, r)
  unfolding read_value known_as attr_type attr_length
  read_value-write_value a value_unknown value r f t e w n =
      read_value-unknown (attr_type a) (attr_length a) value r (attr_length-le a f) n
  read_value-write_value (byte_string t n bs) value_byte_string value r (_, h, _) ty e w l =
      let same : value ≡ bs ++ write_padding n = cc (write_value-byte_string net t n bs h) in
      rw (
        same,
        append_assoc,
        net.read_bytes-append n bs (write_padding n ++ r) h,
        consume_padding-write_padding n r,
      )
  read_value-write_value (byte_string t n bs) value_uint32 value r f ty e w l = absurd (ty e)
  read_value-write_value (uint32_value t v) value_uint32 value r (_, h) ty e w l =
      let same : value ≡ net.write_uint32 v = unfold write_value in cc in
      rw (same, read_uint32-write_uint32 net v r h)
  read_value-write_value (uint32_value t v) value_byte_string value r f ty e w l = absurd (ty e)
  read_value-write_value (uint64_value t v) value_uint32 value r f ty e w l = cc
  read_value-write_value (uint64_value t v) value_byte_string value r f ty e w l = cc
  read_value-write_value (xor_address t a) value_uint32 value r f ty e w l = cc
  read_value-write_value (xor_address t a) value_byte_string value r f ty e w l = cc
  read_value-write_value (error_code t n c k s) value_uint32 value r f ty e w l = cc
  read_value-write_value (error_code t n c k s) value_byte_string value r f ty e w l = cc

  -- One attribute is written and read back, whatever follows it.
  pub read_attribute-write_attribute :
      (a : Attribute) (r : List ℕ)
      → Fits a
      → IsTyped a
      → (bs : List ℕ) × (write_attribute net a ≡ some bs)
        × (length bs ≡ 4 + padded (attr_length a))
        × (read_attribute net (bs ++ r)
            ≡ parsed (known_as (get_attribute_value_type (attr_type a)) a, r))
  read_attribute-write_attribute a r f ty =
      let (value, e, w, l) = write_attribute-Fits net a f in
      let t_fits = attr_type-lt a f in
      let n_fits : attr_length a < 65536 = omega (arith, attr_length-le a f) in
      let header = net.write_uint16 (attr_length a) ++ value in
      (
        net.write_uint16 (attr_type a) ++ header,
        w,
        omega (
          arith,
          length-append (net.write_uint16 (attr_type a)) header,
          length-append (net.write_uint16 (attr_length a)) value,
          length-write_uint16 net (attr_type a) t_fits,
          length-write_uint16 net (attr_length a) n_fits,
        ),
        read_attribute-header (attr_type a) (attr_length a) value r t_fits n_fits
            ∙ read_value-write_value a _ value r f ty refl e l,
      )

  -- One round of the loop.
  read_attributes_round :
      (fuel : ℕ) (bs r : List ℕ) (acc found : List Attribute)
      → 0 < length bs
      → read_attribute net bs ≡ parsed (found, r)
      → read_attributes net (suc fuel) bs acc ≡ read_attributes net fuel r (acc ++ found)
  unfolding read_attributes
  read_attributes_round fuel [] r acc found h e = absurd (omega arith)
  read_attributes_round fuel (b ∷ bs) r acc found h e = rw e

  read_attributes_more :
      (fuel : ℕ) (bs r : List ℕ) (acc found rest : List Attribute)
      → 4 ≤ length bs
      → read_attribute net (bs ++ r) ≡ parsed (found, r)
      → ((fuel : ℕ) (acc : List Attribute)
          → length r ≤ fuel
          → read_attributes net fuel r acc ≡ parsed (acc ++ rest, []))
      → length (bs ++ r) ≤ fuel
      → read_attributes net fuel (bs ++ r) acc ≡ parsed (acc ++ (found ++ rest), [])
  read_attributes_more zero bs r acc found rest n e back h =
      absurd (omega (arith, length-append bs r))
  read_attributes_more (suc fuel) bs r acc found rest n e back h =
      read_attributes_round fuel (bs ++ r) r acc found (omega (arith, length-append bs r)) e
      ∙ back fuel (acc ++ found) (omega (arith, length-append bs r))
      ∙ rw append_assoc

  -- The list is written, in as many bytes as the sizes add up to, and the loop reads it back.
  pub read_attributes-write_attributes :
      (xs : List Attribute)
      → All Fits xs
      → All IsTyped xs
      → (bs : List ℕ) × (write_attributes net xs ≡ some bs)
        × (length bs ≡ total_size xs)
        × ((fuel : ℕ) (acc : List Attribute)
            → length bs ≤ fuel
            → read_attributes net fuel bs acc ≡ parsed (acc ++ known xs, []))
  unfolding write_attributes total_size known
  read_attributes-write_attributes [] f t =
      ([], refl, refl, λ fuel acc h. unfold read_attributes in rw append-nil)
  read_attributes-write_attributes (a ∷ later) (f, fs) (t, ts) =
      let (rest, e, n, back) = read_attributes-write_attributes later fs ts in
      let (bs, w, l, r) = read_attribute-write_attribute a rest f t in
      (
        bs ++ rest,
        rw (w, e),
        omega (arith, length-append bs rest),
        λ fuel acc h. read_attributes_more fuel bs rest acc _ (known later) (omega arith) r back h,
      )

  header_parts :
      (m : StunMessage) (body : List ℕ)
      → write_header net m ++ body
        ≡ net.write_uint16 m.type
          ++ (net.write_uint16 m.length_field
              ++ (net.write_uint32 k_stun_magic_cookie ++ (m.transaction_id ++ body)))
  unfolding write_header
  header_parts m body = simp (append_assoc, net.write_bytes_lem)

  pub length-write_header :
      (m : StunMessage)
      → m.type < 65536
      → m.length_field < 65536
      → length m.transaction_id ≡ 12
      → length (write_header net m) ≡ 20
  unfolding write_header
  length-write_header m ht hn hi =
      rw
        (
          net.write_bytes_lem,
          net.write_uint16_lem m.type ht,
          net.write_uint16_lem m.length_field hn,
          net.write_uint32_lem k_stun_magic_cookie (omega arith),
        )
        (omega arith)

  is_magic_cookie-write_uint32 : is_magic_cookie net (net.write_uint32 k_stun_magic_cookie) ≡ true
  unfolding is_magic_cookie
  is_magic_cookie-write_uint32 =
      rw (net.write_uint32_lem k_stun_magic_cookie (omega arith), net.get_be32_lem)

  read_header :
      (m m' : StunMessage) (body : List ℕ) (found : List Attribute)
      → m.type < 65536
      → bit_and m.type 0x0800 ≡ 0
      → m.length_field < 65536
      → length m.transaction_id ≡ 12
      → length body ≡ m.length_field
      → read_attributes net (length body) body [] ≡ parsed (found, [])
      → read net m' (write_header net m ++ body)
        ≡ parsed (
          record m' {
            type = m.type;
            length_field = m.length_field;
            transaction_id = m.transaction_id;
            attrs = found;
            buffer = write_header net m ++ body;
          },
          [],
        )
  unfolding read
  read_header m m' body found ht hr hn hi hb e =
      let tail = m.transaction_id ++ body in
      let after_length = net.write_uint32 k_stun_magic_cookie ++ tail in
      let e₁ =
        read_uint16-write_uint16 net m.type (net.write_uint16 m.length_field ++ after_length) ht in
      let e₁' : net.read_uint16 (write_header net m ++ body)
          ≡ some (m.type, net.write_uint16 m.length_field ++ after_length) =
        rw (header_parts m body) e₁ in
      rw (
        e₁',
        hr,
        read_uint16-write_uint16 net m.length_field after_length hn,
        net.read_bytes-append 4 (net.write_uint32 k_stun_magic_cookie) tail
            (sym (length-write_uint32 net k_stun_magic_cookie (omega arith))),
        net.read_bytes-append 12 m.transaction_id body (sym hi),
        hb,
        ==_refl m.length_field,
        ← hb,
        e,
        is_magic_cookie-write_uint32,
      )

  -- A message with a 16-bit type without bit 0x0800, an id of 12 bytes and well-formed attributes, each
  -- of the class that the reader makes for its type if it knows that, of less than 65536 bytes, which its
  -- length field counts, is written, and the reader takes back the type, the length, the id and, in
  -- order, the attributes of a type that it knows; nothing is left over.
  pub read-write :
      (m m' : StunMessage)
      → m.type < 65536
      → bit_and m.type 0x0800 ≡ 0
      → length m.transaction_id ≡ 12
      → All Fits m.attrs
      → All IsTyped m.attrs
      → total_size m.attrs < 65536
      → m.length_field ≡ total_size m.attrs
      → (bs : List ℕ) × (write net m ≡ some bs)
        × (length bs ≡ 20 + total_size m.attrs)
        × (read net m' bs
            ≡ parsed (
              record m' {
                type = m.type;
                length_field = m.length_field;
                transaction_id = m.transaction_id;
                attrs = known m.attrs;
                buffer = bs;
              },
              [],
            ))
  unfolding write
  read-write m m' ht hr hi f t small hn =
      let (body, e, n, back) = read_attributes-write_attributes m.attrs f t in
      (
        write_header net m ++ body,
        rw e,
        omega (
          arith,
          length-append (write_header net m) body,
          length-write_header m ht (omega arith) hi,
        ),
        read_header m m' body (known m.attrs) ht hr (omega arith) hi (omega arith)
            (back (length body) [] (omega arith)),
      )
