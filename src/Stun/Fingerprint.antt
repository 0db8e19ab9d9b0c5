-- ===== src/Stun/Fingerprint.antt =====
-- StunMessage::validate_fingerprint on any packet, and on what StunMessage::add_fingerprint made.
use mathlib.Core.List.{append_assoc, append-nil}
use xrtc_server.Prelude.Bits.{bit_xor_cancel, bit_xor-lt}
use xrtc_server.Prelude.{
  ℕ, ◌+◌, ◌-◌, ◌*◌, ◌/◌, ◌%◌, ◌^◌, ◌≤◌, ◌<◌, ◌≡◌, refl, sym, ap, ◌∙◌, List, [], ◌∷◌, ◌++◌, true,
  some, none, arith, length, length-append, take, take-append, get_or, get_or-append, All, bit_xor,
  Option-cases, inl, inr, ◌↔◌,
}
use xrtc_server.Net.{Net}
use xrtc_server.Stun.Data.{
  Attribute, uint32_value, StunMessage, add_attribute, padded, k_stun_magic_cookie,
  stun_attr_fingerprint, stun_fingerprint_xor_value,
}
use xrtc_server.Stun.Write.{write_attribute, write_attributes, write_header, write, add_fingerprint}
use xrtc_server.Stun.Check.{validate_fingerprint, be16_at, be32_at, be16_at_lem, be32_at_lem}
use xrtc_server.Stun.Length.{Fits, total_size}
use xrtc_server.Stun.RoundTrip.{IsTyped, read_attributes-write_attributes, length-write_header}

pub total_size_aligned : (xs : List Attribute) → total_size xs % 4 ≡ 0
unfolding total_size padded
total_size_aligned [] = refl
total_size_aligned (a ∷ later) = ground (arith, total_size_aligned later)

-- The eight bytes of a FINGERPRINT attribute.
abbrev pub fingerprint_bytes : ℕ → List ℕ
fingerprint_bytes v =
    0x80 ∷ 0x28 ∷ 0 ∷ 4 ∷ v / 2 ^ 24 ∷ v / 2 ^ 16 % 256 ∷ v / 2 ^ 8 % 256 ∷ v % 256 ∷ []

pub length_field-lt : (a : Attribute) (m : StunMessage) → (add_attribute a m).length_field < 65536
unfolding add_attribute
length_field-lt a m = omega arith

unfoldable pub with_fingerprint : ℕ → StunMessage → StunMessage
with_fingerprint v m = record (add_attribute (uint32_value stun_attr_fingerprint 0) m) {
  attrs = m.attrs ++ (uint32_value stun_attr_fingerprint v ∷ []);
}

module _ (net : Net) where
  write_attribute-fingerprint :
      (v : ℕ)
      → v < 2 ^ 32
      → write_attribute net (uint32_value stun_attr_fingerprint v) ≡ some (fingerprint_bytes v)
  unfolding write_attribute
  write_attribute-fingerprint v h = rw (
    net.write_uint16_lem stun_attr_fingerprint (omega arith),
    net.write_uint16_lem 4 (omega arith),
    net.write_uint32_lem v h,
  )

  pub write_attributes-append_one :
      (xs : List Attribute) (a : Attribute) (body bs : List ℕ)
      → write_attributes net xs ≡ some body
      → write_attribute net a ≡ some bs
      → write_attributes net (xs ++ (a ∷ [])) ≡ some (body ++ bs)
  unfolding write_attributes
  write_attributes-append_one [] a body bs e w = rw w (rw append-nil (ground arith))
  write_attributes-append_one (x ∷ xs) a body bs e w = elim (Option-cases (write_attribute net x)) [
    | inl no_first ↦ absurd (let bad : none ≡ some body = rw no_first at e in cc)
    | inr (first, h) ↦ elim (Option-cases (write_attributes net xs)) [
      | inl no_rest ↦ absurd (let bad : none ≡ some body = rw (h, no_rest) at e in cc)
      | inr (rest, k) ↦
          let same : some (first ++ rest) ≡ some body = rw (h, k) at e in
          rw (h, write_attributes-append_one xs a rest bs k w)
            (ground (arith, append_assoc first rest bs))
    ]
  ]

  -- The tests of validate_fingerprint as equations.
  abbrev pub EndsInFingerprint : List ℕ → Type 0
  EndsInFingerprint bs =
      (length bs % 4 ≡ 0)
      × (28 ≤ length bs)
      × (be32_at net bs 4 ≡ k_stun_magic_cookie)
      × (be16_at net bs (length bs - 8) ≡ stun_attr_fingerprint)
      × (be16_at net bs (length bs - 8 + 2) ≡ 4)
      × (bit_xor (be32_at net bs (length bs - 8 + 4)) stun_fingerprint_xor_value
          ≡ net.crc32 (take (length bs - 8) bs))

  -- A packet is accepted exactly if its length is a multiple of four and at least 28, it has the Magic
  -- Cookie, and its last eight bytes are a FINGERPRINT attribute of length 4 whose value, combined with
  -- the constant, is the checksum of all bytes before it.
  pub validate_fingerprint_iff :
      (bs : List ℕ) → (validate_fingerprint net bs ≡ true) ↔ EndsInFingerprint bs
  unfolding validate_fingerprint
  validate_fingerprint_iff bs = (λ h. ground arith, λ h. ground arith)

  at_end :
      (front : List ℕ) (v k j : ℕ)
      → length front + k ≡ j
      → get_or (front ++ fingerprint_bytes v) j 0 ≡ get_or (fingerprint_bytes v) k 0
  at_end front v k j h = get_or-append front (fingerprint_bytes v) j k 0 (omega arith)

  -- A packet that ends in a right fingerprint is accepted.
  validate_fingerprint_right :
      (front : List ℕ) (v : ℕ)
      → length front % 4 ≡ 0
      → 20 ≤ length front
      → be32_at net (front ++ fingerprint_bytes v) 4 ≡ k_stun_magic_cookie
      → v < 2 ^ 32
      → bit_xor v stun_fingerprint_xor_value ≡ net.crc32 front
      → validate_fingerprint net (front ++ fingerprint_bytes v) ≡ true
  validate_fingerprint_right front v aligned long cookie small right =
      (validate_fingerprint_iff bs).1 (
        omega (arith, size),
        omega (arith, size),
        cookie,
        be16_at_lem net bs n _ _ (at_end front v 0 n (omega (arith, size)))
            (at_end front v 1 (n + 1) (omega (arith, size))),
        be16_at_lem net bs (n + 2) _ _ (at_end front v 2 (n + 2) (omega (arith, size)))
            (at_end front v 3 (n + 2 + 1) (omega (arith, size))),
        checksum,
      )
    where
      bs : List ℕ
      bs = front ++ fingerprint_bytes v

      n : ℕ
      n = length bs - 8

      size : length bs ≡ length front + 8
      size = length-append front (fingerprint_bytes v)

      whole : ((v / 2 ^ 24 * 256 + v / 2 ^ 16 % 256) * 256 + v / 2 ^ 8 % 256) * 256 + v % 256 ≡ v
      whole = omega arith

      value : be32_at net bs (n + 4) ≡ v
      value =
          be32_at_lem net bs (n + 4) _ _ _ _ (at_end front v 4 (n + 4) (omega (arith, size)))
            (at_end front v 5 (n + 4 + 1) (omega (arith, size)))
            (at_end front v 6 (n + 4 + 2) (omega (arith, size)))
            (at_end front v 7 (n + 4 + 3) (omega (arith, size)))
          ∙ whole

      checksum : bit_xor (be32_at net bs (n + 4)) stun_fingerprint_xor_value ≡ net.crc32 (take n bs)
      checksum = rw (value, take-append front (fingerprint_bytes v) n (omega (arith, size))) right

  cookie_at_four :
      (m : StunMessage) (rest : List ℕ)
      → m.type < 65536
      → m.length_field < 65536
      → be32_at net (write_header net m ++ rest) 4 ≡ k_stun_magic_cookie
  unfolding write_header
  cookie_at_four m rest ht hn = rw (
    net.write_uint16_lem m.type ht,
    net.write_uint16_lem m.length_field hn,
    net.write_uint32_lem k_stun_magic_cookie (omega arith),
    net.get_be32_lem,
  )

  -- A message whose last attribute is written apart.
  pub write_last :
      (m : StunMessage) (xs : List Attribute) (a : Attribute) (body bs : List ℕ)
      → m.attrs ≡ xs ++ (a ∷ [])
      → write_attributes net xs ≡ some body
      → write_attribute net a ≡ some bs
      → write net m ≡ some ((write_header net m ++ body) ++ bs)
  unfolding write
  write_last m xs a body bs h e w =
      rw (h, write_attributes-append_one xs a body bs e w)
        (ap some (sym (append_assoc (write_header net m) body bs)))

  add_fingerprint_placed :
      (m : StunMessage) (front : List ℕ)
      → write net (add_attribute (uint32_value stun_attr_fingerprint 0) m)
        ≡ some (front ++ fingerprint_bytes 0)
      → add_fingerprint net m
        ≡ (true, with_fingerprint (bit_xor (net.crc32 front) stun_fingerprint_xor_value) m)
  unfolding with_fingerprint add_fingerprint add_attribute
  add_fingerprint_placed m front e =
      let n = length (front ++ fingerprint_bytes 0) - 4 - 4 in
      let cut : take n (front ++ fingerprint_bytes 0) ≡ front =
        take-append front (fingerprint_bytes 0) n
          (omega (arith, length-append front (fingerprint_bytes 0))) in
      rw (e, add_fingerprint, cut)

  -- What add_fingerprint makes, and its bytes.
  pub add_fingerprint_bytes :
      (m : StunMessage) (body : List ℕ)
      → write_attributes net m.attrs ≡ some body
      → let placed = add_attribute (uint32_value stun_attr_fingerprint 0) m in
        let front = write_header net placed ++ body in
        let value = bit_xor (net.crc32 front) stun_fingerprint_xor_value in
        (add_fingerprint net m ≡ (true, with_fingerprint value m))
        × (write net (with_fingerprint value m) ≡ some (front ++ fingerprint_bytes value))
        × (value < 2 ^ 32)
  unfolding with_fingerprint write_header add_attribute
  add_fingerprint_bytes m body e =
      let placed = add_attribute (uint32_value stun_attr_fingerprint 0) m in
      let front = write_header net placed ++ body in
      let value = bit_xor (net.crc32 front) stun_fingerprint_xor_value in
      let small =
        bit_xor-lt 32 (net.crc32 front) stun_fingerprint_xor_value (net.crc32-lt front)
          (omega arith) in
      let empty = write_attribute-fingerprint 0 (omega arith) in
      let full = write_attribute-fingerprint value small in
      let blank = write_last placed m.attrs _ body (fingerprint_bytes 0) refl e empty in
      (
        add_fingerprint_placed m front blank,
        write_last (with_fingerprint value m) m.attrs _ body (fingerprint_bytes value) refl e full,
        small,
      )

  -- A message with a 16-bit type, an id of 12 bytes and well-formed attributes, each of the class that
  -- the reader makes for its type if it knows that, whose length field counts them, with room for eight
  -- bytes more: add_fingerprint succeeds, the message is then written, and validate_fingerprint accepts
  -- the packet.
  pub validate_fingerprint-add_fingerprint :
      (m : StunMessage)
      → m.type < 65536
      → length m.transaction_id ≡ 12
      → All Fits m.attrs
      → All IsTyped m.attrs
      → total_size m.attrs + 8 < 65536
      → m.length_field ≡ total_size m.attrs
      → (bs : List ℕ) × ((add_fingerprint net m).0 ≡ true)
        × (write net (add_fingerprint net m).1 ≡ some bs)
        × (validate_fingerprint net bs ≡ true)
  unfolding add_attribute
  validate_fingerprint-add_fingerprint m ht hi f t room hn =
      let (body, e, n, _) = read_attributes-write_attributes net m.attrs f t in
      let (made, written, small) = add_fingerprint_bytes m body e in
      let placed = add_attribute (uint32_value stun_attr_fingerprint 0) m in
      let front = write_header net placed ++ body in
      let value = bit_xor (net.crc32 front) stun_fingerprint_xor_value in
      let wraps = length_field-lt (uint32_value stun_attr_fingerprint 0) m in
      let size = length-write_header net placed ht wraps hi in
      let long : length front ≡ 20 + total_size m.attrs =
        omega (arith, length-append (write_header net placed) body) in
      let cookie =
        rw (← append_assoc (write_header net placed) body (fingerprint_bytes value)) at
          (cookie_at_four placed (body ++ fingerprint_bytes value) ht wraps) in
      (
        front ++ fingerprint_bytes value,
        rw made,
        rw made written,
        validate_fingerprint_right front value (omega (arith, total_size_aligned m.attrs))
            (omega arith) cookie small
            (bit_xor_cancel (net.crc32 front) stun_fingerprint_xor_value),
      )
