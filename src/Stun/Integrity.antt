-- ===== src/Stun/Integrity.antt =====
-- StunMessage::validate_message_integrity on what add_message_integrity and then add_fingerprint made.
use mathlib.Core.List.{append_assoc, append-nil}
use xrtc_server.Prelude.{
  ℕ, zero, suc, ◌+◌, ◌-◌, ◌*◌, ◌/◌, ◌%◌, ◌≤◌, ◌<◌, ◌≡◌, ◌≢◌, refl, sym, ap, subst, ◌∙◌, List, [],
  ◌∷◌, ◌++◌, true, some, none, arith, ltb, length, length-append, take, take-append, drop,
  drop-append, get_or-append, All, Option-cases, inl, inr, replicate, same_bytes_iff,
}
use xrtc_server.Net.{Net}
use xrtc_server.Stun.Data.{
  Attribute, byte_string, StunMessage, attr_type, attr_length, add_attribute, padded,
  byte_string_of, integrity_ok, stun_attr_message_integrity, k_stun_magic_cookie,
}
use xrtc_server.Stun.Write.{write_attribute, write_attributes, write_header, add_message_integrity}
use xrtc_server.Stun.Check.{
  be16_at, be16_at_lem, find_integrity, integrity_text, validate_integrity_bytes,
}
use xrtc_server.Stun.Length.{Fits, write_attribute-Fits, attr_type-lt, attr_length-le, take_all}
use xrtc_server.Stun.Fingerprint.{write_last}

-- The bytes of a MESSAGE-INTEGRITY attribute with a value of 20 bytes.
abbrev pub integrity_bytes : List ℕ → List ℕ
integrity_bytes value = 0 ∷ 8 ∷ 0 ∷ 20 ∷ value

unfoldable pub with_integrity : List ℕ → List ℕ → StunMessage → StunMessage
with_integrity key value m =
    record (add_attribute (byte_string stun_attr_message_integrity 20 value) m) {
      attrs = m.attrs ++ (byte_string stun_attr_message_integrity 20 value ∷ []);
      password = key;
      integrity = integrity_ok;
    }

abbrev pub NoIntegrity : Attribute → Type 0
NoIntegrity a = attr_type a ≢ stun_attr_message_integrity

module _ (net : Net) where
  pub write_attribute-integrity :
      (value : List ℕ)
      → length value ≡ 20
      → write_attribute net (byte_string stun_attr_message_integrity 20 value)
        ≡ some (integrity_bytes value)
  unfolding write_attribute
  write_attribute-integrity value h = rw (
    net.write_uint16_lem 8 (omega arith),
    net.write_uint16_lem 20 (omega arith),
    net.write_bytes_lem,
    take_all value 20 (sym h),
    append-nil,
  )

  -- What add_message_integrity makes: the digest of the message without the attribute, but with a
  -- header that counts it.
  pub add_message_integrity_bytes :
      (key : List ℕ) (m : StunMessage) (body : List ℕ)
      → write_attributes net m.attrs ≡ some body
      → let text = write_header net (with_integrity key [] m) ++ body in
        add_message_integrity net key m ≡ (true, with_integrity key (net.hmac_sha1 key text) m)
  unfolding add_message_integrity with_integrity byte_string_of add_attribute write_header
  add_message_integrity_bytes key m body e =
      let zeros = replicate 20 b'0' in
      let a = byte_string stun_attr_message_integrity 20 zeros in
      let placed = add_attribute a m in
      let text = write_header net placed ++ body in
      let blank =
        write_last net placed m.attrs a body (integrity_bytes zeros) refl e
          (write_attribute-integrity zeros refl) in
      let n = length (text ++ integrity_bytes zeros) - 4 - 20 in
      let cut : take n (text ++ integrity_bytes zeros) ≡ text =
        take-append text (integrity_bytes zeros) n
          (omega (arith, length-append text (integrity_bytes zeros))) in
      rw (blank, add_message_integrity, cut, net.length-hmac_sha1)

  -- The two bytes that the walk reads at the start of what follows `front`.
  be16_behind :
      (front : List ℕ) (a b : ℕ) (rest : List ℕ) (k : ℕ)
      → k ≡ length front
      → be16_at net (front ++ (a ∷ b ∷ rest)) k ≡ a * 256 + b
  be16_behind front a b rest k h =
      be16_at_lem net (front ++ (a ∷ b ∷ rest)) k a b
        (get_or-append front (a ∷ b ∷ rest) k 0 0 (omega arith))
        (get_or-append front (a ∷ b ∷ rest) (k + 1) 1 0 (omega arith))

  -- A round of the walk over an attribute of another type.
  find_integrity_skip :
      (fuel pos t n : ℕ) (bs : List ℕ)
      → pos + 4 ≤ length bs
      → be16_at net bs pos ≡ t
      → t ≢ stun_attr_message_integrity
      → be16_at net bs (pos + 2) ≡ n
      → find_integrity net (suc fuel) bs pos ≡ find_integrity net fuel bs (pos + (4 + padded n))
  unfolding find_integrity
  find_integrity_skip fuel pos t n bs room e ne h = ground arith

  find_integrity_stop :
      (fuel pos : ℕ) (bs : List ℕ)
      → pos + 4 ≤ length bs
      → be16_at net bs pos ≡ stun_attr_message_integrity
      → find_integrity net (suc fuel) bs pos ≡ some pos
  unfolding find_integrity
  find_integrity_stop fuel pos bs room e = ground arith

  pass_attribute :
      (fuel pos t n : ℕ) (front v tail : List ℕ)
      → t < 65536
      → t ≢ stun_attr_message_integrity
      → n < 65536
      → pos ≡ length front
      → length v ≡ padded n
      → find_integrity net
          (suc fuel)
          (front ++ ((net.write_uint16 t ++ (net.write_uint16 n ++ v)) ++ tail))
          pos
        ≡ find_integrity net fuel
            ((front ++ (net.write_uint16 t ++ (net.write_uint16 n ++ v))) ++ tail)
            (pos + (4 + padded n))
  pass_attribute fuel pos t n front v tail ht ne hn h size =
      let rest = v ++ tail in
      let bytes = t / 256 ∷ t % 256 ∷ n / 256 ∷ n % 256 ∷ rest in
      rw (net.write_uint16_lem t ht, net.write_uint16_lem n hn, append_assoc front)
        (find_integrity_skip fuel pos t n (front ++ bytes)
          (omega (arith, length-append front bytes))
          (be16_behind front (t / 256) (t % 256) (n / 256 ∷ n % 256 ∷ rest) pos h ∙ omega arith) ne
          (be16_later ∙ omega arith))
    where
      be16_later :
          be16_at net (front ++ (t / 256 ∷ t % 256 ∷ n / 256 ∷ n % 256 ∷ (v ++ tail))) (pos + 2)
          ≡ n / 256 * 256 + n % 256
      be16_later =
          be16_at_lem net _ (pos + 2) (n / 256) (n % 256)
            (get_or-append front (t / 256 ∷ t % 256 ∷ n / 256 ∷ n % 256 ∷ (v ++ tail)) (pos + 2) 2 0
              (omega arith))
            (get_or-append front (t / 256 ∷ t % 256 ∷ n / 256 ∷ n % 256 ∷ (v ++ tail)) (pos + 2 + 1)
              3 0 (omega arith))

  head_size :
      (x : Attribute) (v : List ℕ)
      → attr_type x < 65536
      → attr_length x < 65536
      → length v ≡ padded (attr_length x)
      → length (net.write_uint16 (attr_type x) ++ (net.write_uint16 (attr_length x) ++ v))
        ≡ 4 + padded (attr_length x)
  head_size x v ht hn size =
      rw (net.write_uint16_lem (attr_type x) ht, net.write_uint16_lem (attr_length x) hn)
        (omega arith)

  -- The walk passes the attributes that were written before, and stops at the first MESSAGE-INTEGRITY.
  find_integrity-write_attributes :
      (xs : List Attribute) (fuel pos : ℕ) (front body value rest : List ℕ)
      → All Fits xs
      → All NoIntegrity xs
      → write_attributes net xs ≡ some body
      → pos ≡ length front
      → length body < fuel
      → find_integrity net fuel (front ++ (body ++ (integrity_bytes value ++ rest))) pos
        ≡ some (pos + length body)
  unfolding write_attributes
  find_integrity-write_attributes xs zero pos front body value rest f p e h big =
      absurd (omega arith)
  find_integrity-write_attributes [] (suc fuel) pos front body value rest f p e h big =
      let none_before : body ≡ [] = cc in
      let at = be16_behind front 0 8 (0 ∷ 20 ∷ (value ++ rest)) pos h in
      rw none_before (
        find_integrity_stop fuel pos (front ++ (integrity_bytes value ++ rest))
          (omega (arith, length-append front (integrity_bytes value ++ rest))) at
        ∙ ap some (omega arith))
  find_integrity-write_attributes (x ∷ xs) (suc fuel) pos front body value rest (f, fs) (p, ps) e h
        big =
      let (v, _, w, size) = write_attribute-Fits net x f in
      let t = attr_type x in
      let n = attr_length x in
      let ht = attr_type-lt x f in
      let hn : n < 65536 = omega (arith, attr_length-le x f) in
      let head = net.write_uint16 t ++ (net.write_uint16 n ++ v) in
      elim (Option-cases (write_attributes net xs)) [
        | inl nothing ↦ absurd (let bad : none ≡ some body = rw (w, nothing) at e in cc)
        | inr (later, k) ↦
            let same : some (head ++ later) ≡ some body = rw (w, k) at e in
            let body' : body ≡ head ++ later = cc in
            rw (body', append_assoc head later (integrity_bytes value ++ rest))
              (pass_attribute fuel pos t n front v (later ++ (integrity_bytes value ++ rest)) ht p
                  hn h size
                ∙ find_integrity-write_attributes xs fuel (pos + (4 + padded n)) (front ++ head)
                    later value rest fs ps k
                    (omega (arith, length-append front head, head_size x v ht hn size))
                    (omega
                      (arith, ap length body', length-append head later, head_size x v ht hn size))
                ∙ ap some (omega (arith, length-append head later, head_size x v ht hn size)))
      ]

  header_list :
      (m : StunMessage)
      → m.type < 65536
      → m.length_field < 65536
      → write_header net m
        ≡ m.type / 256
          ∷ m.type % 256
          ∷ m.length_field / 256
          ∷ m.length_field % 256
          ∷ (net.write_uint32 k_stun_magic_cookie ++ m.transaction_id)
  unfolding write_header
  header_list m ht hn =
      rw (
        net.write_uint16_lem m.type ht,
        net.write_uint16_lem m.length_field hn,
        net.write_bytes_lem,
      )

  -- With more behind the attribute, the text that is digested has the header of a message that ends
  -- with the attribute.
  pub integrity_text_lem :
      (m₁ m₂ : StunMessage) (body rest bs : List ℕ) (pos : ℕ)
      → m₁.type < 65536
      → m₂.length_field < 65536
      → m₁.type ≡ m₂.type
      → m₁.transaction_id ≡ m₂.transaction_id
      → m₁.length_field ≡ 24 + length body
      → m₁.length_field < 65536
      → length (write_header net m₂) ≡ 20
      → pos ≡ 20 + length body
      → bs ≡ (write_header net m₂ ++ body) ++ rest
      → 24 < length rest
      → integrity_text net bs pos ≡ write_header net m₁ ++ body
  unfolding integrity_text
  integrity_text_lem m₁ m₂ body rest bs pos ht h₂ et ei hl h₁ size hp e more =
      let whole : length bs ≡ pos + length rest = omega (
        arith,
        ap length e,
        length-append (write_header net m₂ ++ body) rest,
        length-append (write_header net m₂) body,
      ) in
      let temp : take pos bs ≡ write_header net m₂ ++ body = rw e (
        take-append (write_header net m₂ ++ body) rest pos
          (omega (arith, length-append (write_header net m₂) body))) in
      let longer : ltb (pos + 4 + 20) (length bs) ≡ true = ground arith in
      rw (longer, temp, header_list m₂ (omega arith) h₂, header_list m₁ ht h₁, net.set_be16_lem)
        (ground arith)

  -- The digest in a packet of these parts is the one that the receiver computes.
  pub validate_integrity_bytes_right :
      (key : List ℕ) (xs : List Attribute) (m₁ m₂ : StunMessage) (body value rest bs : List ℕ)
      → All Fits xs
      → All NoIntegrity xs
      → write_attributes net xs ≡ some body
      → length value ≡ 20
      → 0 < length rest
      → bs ≡ (write_header net m₂ ++ body) ++ (integrity_bytes value ++ rest)
      → length (write_header net m₂) ≡ 20
      → m₂.type < 65536
      → m₂.length_field < 65536
      → m₂.length_field + 20 ≡ length bs
      → length bs % 4 ≡ 0
      → integrity_text net bs (20 + length body) ≡ write_header net m₁ ++ body
      → value ≡ net.hmac_sha1 key (write_header net m₁ ++ body)
      → validate_integrity_bytes net key bs ≡ true
  unfolding validate_integrity_bytes
  validate_integrity_bytes_right key xs m₁ m₂ body value rest bs f p e hv hr hb size ht hn whole
        aligned text right =
      rw (found, text, kept, ← right, (same_bytes_iff value value).1 refl, hv)
        (ground (arith, field, long))
    where
      long : length bs ≡ 20 + length body + (24 + length rest)
      long = omega (
        arith,
        ap length hb,
        length-append (write_header net m₂ ++ body) (integrity_bytes value ++ rest),
        length-append (write_header net m₂) body,
        length-append value rest,
      )

      found : find_integrity net (length bs) bs 20 ≡ some (20 + length body)
      found =
          subst (λ z. find_integrity net (length bs) z 20 ≡ some (20 + length body))
            (sym (hb ∙ append_assoc (write_header net m₂) body (integrity_bytes value ++ rest)))
            (find_integrity-write_attributes xs (length bs) 20 (write_header net m₂) body value rest
              f p e (omega arith) (omega (arith, long)))

      field : be16_at net bs 2 ≡ m₂.length_field
      field =
          let body' = body ++ (integrity_bytes value ++ rest) in
          rw (hb, append_assoc, header_list m₂ ht hn) (net.get_be16_lem _ _ ∙ omega arith)

      kept : take 20 (drop (20 + length body + 4) bs) ≡ value
      kept =
          let front = (write_header net m₂ ++ body) ++ (0 ∷ 8 ∷ 0 ∷ 20 ∷ []) in
          let split : bs ≡ front ++ (value ++ rest) =
            hb
            ∙ sym (
                append_assoc (write_header net m₂ ++ body) (0 ∷ 8 ∷ 0 ∷ 20 ∷ []) (value ++ rest)) in
          let n : 20 + length body + 4 ≡ length front = omega (
            arith,
            length-append (write_header net m₂ ++ body) (0 ∷ 8 ∷ 0 ∷ 20 ∷ []),
            length-append (write_header net m₂) body,
          ) in
          rw (split, drop-append front (value ++ rest) (20 + length body + 4) n)
            (take-append value rest 20 (sym hv))
