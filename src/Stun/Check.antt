-- ===== src/Stun/Check.antt =====
-- ice/stun.cpp: StunMessage::validate_fingerprint and validate_message_integrity.
use xrtc_server.Prelude.{
  ℕ, zero, suc, ◌+◌, ◌-◌, ◌*◌, ◌≡◌, ◌%◌, List, ◌++◌, Bool, false, Option, some, none, ◌&&◌, ◌||◌,
  not, bit_xor, if◌then◌else◌, ◌==◌, ltb, leb, same_bytes, length, get_or, take, drop,
}
use xrtc_server.Net.{Net}
use xrtc_server.Stun.Data.{
  StunMessage, integrity_ok, integrity_bad, no_integrity, padded, k_stun_header_size,
  k_stun_attribute_header_size, k_stun_message_integrity_size, k_stun_magic_cookie,
  stun_attr_fingerprint, stun_attr_message_integrity, stun_fingerprint_xor_value,
}
use xrtc_server.Stun.Read.{get_attribute}

-- `data[k]`
abbrev pub byte_at : List ℕ → ℕ → ℕ
byte_at bs k = get_or bs k 0

module _ (net : Net) where
  abbrev pub be16_at : List ℕ → ℕ → ℕ
  be16_at bs k = net.get_be16 (byte_at bs k) (byte_at bs (k + 1))

  abbrev pub be32_at : List ℕ → ℕ → ℕ
  be32_at bs k =
      net.get_be32 (byte_at bs k) (byte_at bs (k + 1)) (byte_at bs (k + 2)) (byte_at bs (k + 3))

  pub be16_at_lem :
      (bs : List ℕ) (k a b : ℕ)
      → byte_at bs k ≡ a
      → byte_at bs (k + 1) ≡ b
      → be16_at bs k ≡ a * 256 + b
  be16_at_lem bs k a b p q = cc (net.get_be16_lem a b)

  pub be32_at_lem :
      (bs : List ℕ) (k a b c d : ℕ)
      → byte_at bs k ≡ a
      → byte_at bs (k + 1) ≡ b
      → byte_at bs (k + 2) ≡ c
      → byte_at bs (k + 3) ≡ d
      → be32_at bs k ≡ ((a * 256 + b) * 256 + c) * 256 + d
  be32_at_lem bs k a b c d p q r s = cc (net.get_be32_lem a b c d)

  -- StunMessage::validate_fingerprint; the attribute takes the last 8 bytes.
  unfoldable pub validate_fingerprint : List ℕ → Bool
  validate_fingerprint bs =
      let len = length bs in
      if not (len % 4 == 0) || ltb len (k_stun_header_size + 8)
      then false
      else if not (be32_at bs 4 == k_stun_magic_cookie)
      then false
      else if not (be16_at bs (len - 8) == stun_attr_fingerprint)
      then false
      else if not (be16_at bs (len - 8 + 2) == 4)
      then false
      else bit_xor (be32_at bs (len - 8 + 4)) stun_fingerprint_xor_value
        == net.crc32 (take (len - 8) bs)

  -- The `while` loop of _validate_message_integrity_of_type: the position of the first attribute of
  -- type MESSAGE-INTEGRITY. Each round goes four bytes on at least.
  unfoldable pub find_integrity : ℕ → List ℕ → ℕ → Option ℕ
  find_integrity zero bs pos = none
  find_integrity (suc fuel) bs pos =
      let next =
        find_integrity fuel bs
          (pos + (k_stun_attribute_header_size + padded (be16_at bs (pos + 2)))) in
      if leb (pos + k_stun_attribute_header_size) (length bs)
      then (if be16_at bs pos == stun_attr_message_integrity then some pos else next)
      else none

  -- The copy of the bytes before the attribute, with the length field set to end behind it where
  -- more attributes follow.
  unfoldable pub integrity_text : List ℕ → ℕ → List ℕ
  integrity_text bs pos =
      let end = pos + k_stun_attribute_header_size + k_stun_message_integrity_size in
      let temp = take pos bs in
      if ltb end (length bs)
      then take 2 temp ++ (net.set_be16 (end - k_stun_header_size) ++ drop 4 temp)
      else temp

  -- StunMessage::_validate_message_integrity_of_type at its one call. The comparison reads 20 bytes
  -- behind the attribute's header; past the end of the buffer the C++ reads what lies there.
  unfoldable pub validate_integrity_bytes : List ℕ → List ℕ → Bool
  unfolding find_integrity integrity_text
  validate_integrity_bytes password bs =
      if not (length bs % 4 == 0) || ltb (length bs) k_stun_header_size
      then false
      else if not (be16_at bs 2 + k_stun_header_size == length bs)
      then false
      else elim (find_integrity (length bs) bs k_stun_header_size) [
        | none ↦ false
        | some pos ↦
            let hmac = net.hmac_sha1 password (integrity_text bs pos) in
            length hmac == k_stun_message_integrity_size
            && same_bytes
                (take k_stun_message_integrity_size (drop (pos + k_stun_attribute_header_size) bs))
                hmac
      ]

  -- StunMessage::validate_message_integrity: the message with its new status.
  unfoldable pub validate_message_integrity : List ℕ → StunMessage → StunMessage
  unfolding validate_integrity_bytes get_attribute
  validate_message_integrity password m = record m {
    password = password;
    integrity = elim (get_attribute stun_attr_message_integrity m.attrs) [
      | none ↦ no_integrity
      | some a ↦ if validate_integrity_bytes password m.buffer then integrity_ok else integrity_bad
    ];
  }
