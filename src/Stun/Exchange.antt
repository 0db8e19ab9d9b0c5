-- ===== src/Stun/Exchange.antt =====
-- A message made by add_message_integrity and add_fingerprint, from the sender to the receiver.
use mathlib.Core.List.{append_assoc}
use xrtc_server.Prelude.{
  bit_xor, ℕ, ◌+◌, ◌^◌, ◌<◌, ◌≡◌, ◌≢◌, refl, sym, ap, ◌∙◌, List, [], ◌∷◌, ◌++◌, true, some, none,
  arith, length, length-append, All, bit_and, Option-cases, inl, inr,
}
use xrtc_server.Net.{Net}
use xrtc_server.Stun.Data.{
  Attribute, byte_string, uint32_value, StunMessage, attr_type, attr_length, add_attribute, padded,
  integrity_ok, stun_attr_message_integrity, stun_attr_fingerprint, stun_fingerprint_xor_value,
}
use xrtc_server.Stun.Write.{
  write_attributes, write_header, write, add_message_integrity, add_fingerprint,
}
use xrtc_server.Stun.Read.{parsed, read, get_attribute, get_attribute_value_type}
use xrtc_server.Stun.Check.{
  validate_fingerprint, validate_message_integrity, validate_integrity_bytes,
}
use xrtc_server.Stun.Length.{Fits, total_size, total_size-append}
use xrtc_server.Stun.RoundTrip.{
  IsTyped, known, known_as, read-write, read_attributes-write_attributes, length-write_header,
}
use xrtc_server.Stun.Fingerprint.{
  fingerprint_bytes, with_fingerprint, add_fingerprint_bytes, write_attributes-append_one,
  validate_fingerprint-add_fingerprint, total_size_aligned,
}
use xrtc_server.Stun.Integrity.{
  NoIntegrity, integrity_bytes, with_integrity, add_message_integrity_bytes, integrity_text_lem,
  validate_integrity_bytes_right, write_attribute-integrity,
}

All-append_one {κ} :
    (P : Attribute → Type κ) (xs : List Attribute) (a : Attribute)
    → All P xs
    → P a
    → All P (xs ++ (a ∷ []))
All-append_one P [] a ps p = (p, tt)
All-append_one P (x ∷ xs) a ps p = (ps.0, All-append_one P xs a ps.1 p)

-- An attribute of a known type is found among the known ones.
get_attribute-known :
    (xs : List Attribute) (a : Attribute) (ys : List Attribute)
    → attr_type a ≡ stun_attr_message_integrity
    → get_attribute stun_attr_message_integrity (known (xs ++ (a ∷ ys))) ≢ none
unfolding known get_attribute known_as get_attribute_value_type
get_attribute-known [] a ys h e = ground arith
get_attribute-known (x ∷ xs) a ys h e = ground (arith, get_attribute-known xs a ys h)

length_of_padded :
    (n : ℕ) (xs : List Attribute) (a : Attribute)
    → 4 + padded (attr_length a) ≡ n
    → total_size (xs ++ (a ∷ [])) ≡ total_size xs + n
unfolding total_size
length_of_padded n xs a h = omega (arith, total_size-append xs (a ∷ []))

regroup : (h b i r : List ℕ) → (h ++ (b ++ i)) ++ r ≡ (h ++ b) ++ (i ++ r)
regroup h b i r = simp append_assoc

-- The packet passes both tests of the receiver, and parses with nothing left, to a message with the
-- type, the id and, of the attributes and the two that are added, those of a type that the reader knows.
abbrev pub Exchanged : Net → List ℕ → StunMessage → StunMessage → Type 0
Exchanged net key m m' =
    let signed = add_message_integrity net key m in
    let sent = add_fingerprint net signed.1 in
    (signed.0 ≡ true)
    × (sent.0 ≡ true)
    × (bs : List ℕ) × (r : StunMessage) × (write net sent.1 ≡ some bs)
    × (validate_fingerprint net bs ≡ true)
    × (read net m' bs ≡ parsed (r, []))
    × ((validate_message_integrity net key r).integrity ≡ integrity_ok)
    × (r.type ≡ m.type)
    × (r.transaction_id ≡ m.transaction_id)
    × (digest : List ℕ) × (value : ℕ) × (r.attrs
        ≡ known (
            m.attrs
            ++ (byte_string stun_attr_message_integrity 20 digest
                ∷ uint32_value stun_attr_fingerprint value
                ∷ [])))

validate_ok :
    (net : Net) (key : List ℕ) (r : StunMessage)
    → get_attribute stun_attr_message_integrity r.attrs ≢ none
    → validate_integrity_bytes net key r.buffer ≡ true
    → (validate_message_integrity net key r).integrity ≡ integrity_ok
unfolding validate_message_integrity
validate_ok net key r found right =
    elim (Option-cases (get_attribute stun_attr_message_integrity r.attrs)) [
      | inl e ↦ absurd (found e)
      | inr (a, e) ↦ rw (e, validate_message_integrity, right)
    ]

-- The message of this section is the one that the caller has filled.
module _ (net : Net) (key : List ℕ) (m : StunMessage) (ht : m.type < 65536)
    (hr : bit_and m.type 0x0800 ≡ 0) (hi : length m.transaction_id ≡ 12) (f : All Fits m.attrs)
    (t : All IsTyped m.attrs) (room : total_size m.attrs + 32 < 65536)
    (hn : m.length_field ≡ total_size m.attrs) where
  -- The message that add_message_integrity leaves, by the bytes of the attributes before.
  digest : List ℕ → List ℕ
  digest body = net.hmac_sha1 key (write_header net (with_integrity key [] m) ++ body)

  signed_attribute : List ℕ → Attribute
  signed_attribute body = byte_string stun_attr_message_integrity 20 (digest body)

  signed : List ℕ → StunMessage
  signed body = with_integrity key (digest body) m

  length-digest : (body : List ℕ) → length (digest body) ≡ 20
  unfolding digest
  length-digest body = net.length-hmac_sha1 key _

  signed-Fits : (body : List ℕ) → All Fits (signed body).attrs
  unfolding signed with_integrity
  signed-Fits body =
      All-append_one Fits m.attrs _ f (omega arith, sym (length-digest body), omega arith)

  signed-IsTyped : (body : List ℕ) → All IsTyped (signed body).attrs
  unfolding signed with_integrity get_attribute_value_type
  signed-IsTyped body = All-append_one IsTyped m.attrs _ t (λ e. cc)

  signed_size : (body : List ℕ) → total_size (signed body).attrs ≡ total_size m.attrs + 24
  unfolding signed with_integrity padded attr_length
  signed_size body =
      length_of_padded 24 m.attrs (byte_string stun_attr_message_integrity 20 (digest body)) refl

  signed_type : (body : List ℕ) → (signed body).type < 65536
  unfolding signed with_integrity add_attribute
  signed_type body = ht

  signed_id : (body : List ℕ) → length (signed body).transaction_id ≡ 12
  unfolding signed with_integrity add_attribute
  signed_id body = hi

  signed_length : (body : List ℕ) → (signed body).length_field ≡ total_size m.attrs + 24
  unfolding signed with_integrity add_attribute
  signed_length body = omega arith

  sent : List ℕ → ℕ → StunMessage
  sent body v = with_fingerprint v (signed body)

  sent-Fits : (body : List ℕ) (v : ℕ) → v < 2 ^ 32 → All Fits (sent body v).attrs
  unfolding sent with_fingerprint
  sent-Fits body v h = All-append_one Fits (signed body).attrs _ (signed-Fits body) (omega arith, h)

  sent-IsTyped : (body : List ℕ) (v : ℕ) → All IsTyped (sent body v).attrs
  unfolding sent with_fingerprint get_attribute_value_type
  sent-IsTyped body v = All-append_one IsTyped (signed body).attrs _ (signed-IsTyped body) (λ e. cc)

  sent_size : (body : List ℕ) (v : ℕ) → total_size (sent body v).attrs ≡ total_size m.attrs + 32
  unfolding sent with_fingerprint padded attr_length
  sent_size body v =
      length_of_padded 8 (signed body).attrs (uint32_value stun_attr_fingerprint v) refl
      ∙ omega (arith, signed_size body)

  sent_length : (body : List ℕ) (v : ℕ) → (sent body v).length_field ≡ total_size m.attrs + 32
  unfolding sent with_fingerprint add_attribute
  sent_length body v = omega (arith, signed_length body)

  sent_type : (body : List ℕ) (v : ℕ) → (sent body v).type ≡ m.type
  unfolding sent signed with_fingerprint with_integrity add_attribute
  sent_type body v = refl

  sent_id : (body : List ℕ) (v : ℕ) → (sent body v).transaction_id ≡ m.transaction_id
  unfolding sent signed with_fingerprint with_integrity add_attribute
  sent_id body v = refl

  sent_attrs :
      (body : List ℕ) (v : ℕ)
      → (sent body v).attrs
        ≡ m.attrs
          ++ (byte_string stun_attr_message_integrity 20 (digest body)
              ∷ uint32_value stun_attr_fingerprint v
              ∷ [])
  unfolding sent signed with_fingerprint with_integrity
  sent_attrs body v = append_assoc m.attrs _ _

  -- The receiver's test of the digest on the bytes of that message.
  digest_accepted :
      (body : List ℕ) (v : ℕ) (bs : List ℕ)
      → All NoIntegrity m.attrs
      → write_attributes net m.attrs ≡ some body
      → length body ≡ total_size m.attrs
      → bs
        ≡ (write_header net (sent body v) ++ (body ++ integrity_bytes (digest body)))
          ++ fingerprint_bytes v
      → validate_integrity_bytes net key bs ≡ true
  unfolding with_integrity add_attribute sent with_fingerprint signed digest
  digest_accepted body v bs p e size hb =
      validate_integrity_bytes_right net key m.attrs text_message (sent body v) body (digest body)
        (fingerprint_bytes v) bs f p e (length-digest body) (omega arith) split header_size
        (rw sent_type ht) small (omega (arith, whole, sent_length body v))
        (omega (arith, whole, total_size_aligned m.attrs))
        (integrity_text_lem net text_message (sent body v) body
          (integrity_bytes (digest body) ++ fingerprint_bytes v) bs (20 + length body) text_type
          small same_type same_id text_length (omega arith) header_size refl split
          (omega (arith, length-append (digest body) (fingerprint_bytes v), length-digest body)))
        digest_lem
    where
      text_message : StunMessage
      text_message = with_integrity key [] m

      text_type : text_message.type < 65536
      text_type = ht

      same_type : text_message.type ≡ (sent body v).type
      same_type = refl

      same_id : text_message.transaction_id ≡ (sent body v).transaction_id
      same_id = refl

      text_length : text_message.length_field ≡ 24 + length body
      text_length = omega arith

      small : (sent body v).length_field < 65536
      small = omega (arith, sent_length body v)

      header_size : length (write_header net (sent body v)) ≡ 20
      header_size = length-write_header net (sent body v) (rw sent_type ht) small (rw sent_id hi)

      split :
          bs
          ≡ (write_header net (sent body v) ++ body)
            ++ (integrity_bytes (digest body) ++ fingerprint_bytes v)
      split = hb ∙ regroup (write_header net (sent body v)) body _ (fingerprint_bytes v)

      whole : length bs ≡ 20 + (total_size m.attrs + 32)
      whole = omega (
        arith,
        ap length hb,
        length-append (write_header net (sent body v) ++ (body ++ integrity_bytes (digest body)))
            (fingerprint_bytes v),
        length-append (write_header net (sent body v)) (body ++ integrity_bytes (digest body)),
        length-append body (integrity_bytes (digest body)),
        header_size,
        length-digest body,
      )

      digest_lem : digest body ≡ net.hmac_sha1 key (write_header net text_message ++ body)
      digest_lem = refl

  sent_found :
      (body : List ℕ) (v : ℕ)
      → get_attribute stun_attr_message_integrity (known (sent body v).attrs) ≢ none
  unfolding sent signed with_fingerprint with_integrity attr_type
  sent_found body v = rw append_assoc (
      get_attribute-known m.attrs (byte_string stun_attr_message_integrity 20 (digest body))
        (uint32_value stun_attr_fingerprint v ∷ []) refl)

  checksum : List ℕ → ℕ
  checksum body =
      let placed = add_attribute (uint32_value stun_attr_fingerprint 0) (signed body) in
      let front = write_header net placed ++ (body ++ integrity_bytes (digest body)) in
      bit_xor (net.crc32 front) stun_fingerprint_xor_value

  made_signed :
      (body : List ℕ)
      → write_attributes net m.attrs ≡ some body
      → add_message_integrity net key m ≡ (true, signed body)
  unfolding signed digest
  made_signed body e = add_message_integrity_bytes net key m body e

  made_sent :
      (body : List ℕ)
      → write_attributes net m.attrs ≡ some body
      → (add_fingerprint net (signed body) ≡ (true, sent body (checksum body)))
        × (write net (sent body (checksum body))
            ≡ some (
                (write_header net (sent body (checksum body))
                  ++ (body ++ integrity_bytes (digest body)))
                ++ fingerprint_bytes (checksum body)))
        × (checksum body < 2 ^ 32)
  unfolding sent checksum signed with_integrity add_attribute with_fingerprint write_header
  made_sent body e =
      add_fingerprint_bytes net (signed body) (body ++ integrity_bytes (digest body)) (
        write_attributes-append_one net m.attrs _ body (integrity_bytes (digest body)) e
          (write_attribute-integrity net (digest body) (length-digest body)))

  accepted :
      (body bs : List ℕ)
      → write_attributes net m.attrs ≡ some body
      → write net (sent body (checksum body)) ≡ some bs
      → validate_fingerprint net bs ≡ true
  accepted body bs e w =
      let (bs', _, w', right) =
        validate_fingerprint-add_fingerprint net (signed body) (signed_type body) (signed_id body)
          (signed-Fits body) (signed-IsTyped body) (omega (arith, signed_size body))
          (signed_length body ∙ sym (signed_size body)) in
      let same : write net (sent body (checksum body)) ≡ some bs' = rw (made_sent body e).0 at w' in
      let bytes : bs ≡ bs' = cc in rw bytes right

  -- All of it, by the bytes of the attributes before.
  exchange_of :
      (m' : StunMessage) (body : List ℕ)
      → All NoIntegrity m.attrs
      → write_attributes net m.attrs ≡ some body
      → length body ≡ total_size m.attrs
      → Exchanged net key m m'
  exchange_of m' body p e size =
      let v = checksum body in
      let (made, written, small) = made_sent body e in
      let (bs, w, _, back) =
        read-write net (sent body v) m' (rw sent_type ht) (rw sent_type hr) (rw sent_id hi)
          (sent-Fits body v small) (sent-IsTyped body v) (omega (arith, sent_size body v))
          (sent_length body v ∙ sym (sent_size body v)) in
      let bytes : bs
          ≡ (write_header net (sent body v) ++ (body ++ integrity_bytes (digest body)))
            ++ fingerprint_bytes v =
        cc in
      rw (made_signed body e, made)
        (
          refl,
          refl,
          bs,
          _,
          w,
          accepted body bs e w,
          back,
          validate_ok net key _ (sent_found body v) (digest_accepted body v bs p e size bytes),
          sent_type body v,
          sent_id body v,
          digest body,
          v,
          ap known (sent_attrs body v),
        )

-- A message with a 16-bit type without bit 0x0800, an id of 12 bytes and well-formed attributes, none
-- of them MESSAGE-INTEGRITY and each of the class that the reader makes for its type if it knows that,
-- whose length field counts them and that has room for 32 bytes more: add_message_integrity and
-- add_fingerprint succeed and the result is written; the receiver's fingerprint test accepts the
-- packet, the receiver parses it with nothing left, to a message of the same type and id with those of
-- the attributes and the two added ones that the reader knows, and its test of the digest under the
-- same key answers integrity_ok.
pub validate_message_integrity-add_message_integrity :
    (net : Net) (key : List ℕ) (m m' : StunMessage)
    → m.type < 65536
    → bit_and m.type 0x0800 ≡ 0
    → length m.transaction_id ≡ 12
    → All Fits m.attrs
    → All IsTyped m.attrs
    → All NoIntegrity m.attrs
    → total_size m.attrs + 32 < 65536
    → m.length_field ≡ total_size m.attrs
    → Exchanged net key m m'
validate_message_integrity-add_message_integrity net key m m' ht hr hi f t p room hn =
    let (body, e, size, _) = read_attributes-write_attributes net m.attrs f t in
    exchange_of net key m ht hr hi f t room hn m' body p e size
