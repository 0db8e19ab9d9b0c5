-- ===== src/Net.antt =====
-- What the program takes from the `rtc_base` library, which is not in the repository: byte buffers in
-- network order, a checksum and a keyed digest. A byte is a number below 256. A reader is the list of
-- the bytes that it has left, and a call that fails leaves it as it was. A writer call is given by the
-- bytes that it appends. The fields after the operations are their documented behaviour.
pub mod Laws
pub mod Example
use xrtc_server.Prelude.{
  ℕ, ◌+◌, ◌*◌, ◌/◌, ◌%◌, ◌^◌, ◌<◌, ◌≡◌, List, [], ◌∷◌, ◌++◌, Option, some, none, length,
}

pub record Net : Type 0 where
  -- ByteBufferReader
  pub read_uint16 : List ℕ → Option (ℕ × List ℕ)
  pub read_uint32 : List ℕ → Option (ℕ × List ℕ)
  pub read_bytes : ℕ → List ℕ → Option (List ℕ × List ℕ)
  pub consume : ℕ → List ℕ → Option (List ℕ)
  -- ByteBufferWriter
  pub write_uint8 : ℕ → List ℕ
  pub write_uint16 : ℕ → List ℕ
  pub write_uint32 : ℕ → List ℕ
  pub write_uint64 : ℕ → List ℕ
  pub write_bytes : List ℕ → List ℕ
  -- GetBE16 and GetBE32 of the bytes at the pointer; SetBE16 gives the two bytes that it stores.
  pub get_be16 : ℕ → ℕ → ℕ
  pub get_be32 : ℕ → ℕ → ℕ → ℕ → ℕ
  pub set_be16 : ℕ → List ℕ
  -- ComputeCrc32, and ComputeHmac with DIGEST_SHA_1: what it stores, by key and text.
  pub crc32 : List ℕ → ℕ
  pub hmac_sha1 : List ℕ → List ℕ → List ℕ
  pub read_uint16-cons : (a b : ℕ) (r : List ℕ) → read_uint16 (a ∷ b ∷ r) ≡ some (a * 256 + b, r)
  pub read_uint16_short : (r : List ℕ) → length r < 2 → read_uint16 r ≡ none
  pub read_uint32-cons :
      (a b c d : ℕ) (r : List ℕ)
      → read_uint32 (a ∷ b ∷ c ∷ d ∷ r) ≡ some (((a * 256 + b) * 256 + c) * 256 + d, r)
  pub read_uint32_short : (r : List ℕ) → length r < 4 → read_uint32 r ≡ none
  pub read_bytes-append :
      (n : ℕ) (xs r : List ℕ) → n ≡ length xs → read_bytes n (xs ++ r) ≡ some (xs, r)
  pub read_bytes_short : (n : ℕ) (r : List ℕ) → length r < n → read_bytes n r ≡ none
  pub consume-append : (n : ℕ) (xs r : List ℕ) → n ≡ length xs → consume n (xs ++ r) ≡ some r
  pub consume_short : (n : ℕ) (r : List ℕ) → length r < n → consume n r ≡ none
  pub write_uint8_lem : (v : ℕ) → v < 256 → write_uint8 v ≡ v ∷ []
  pub write_uint16_lem : (v : ℕ) → v < 65536 → write_uint16 v ≡ v / 256 ∷ v % 256 ∷ []
  pub write_uint32_lem :
      (v : ℕ)
      → v < 2 ^ 32
      → write_uint32 v ≡ v / 2 ^ 24 ∷ v / 2 ^ 16 % 256 ∷ v / 2 ^ 8 % 256 ∷ v % 256 ∷ []
  pub length-write_uint64 : (v : ℕ) → length (write_uint64 v) ≡ 8
  pub write_bytes_lem : (xs : List ℕ) → write_bytes xs ≡ xs
  pub get_be16_lem : (a b : ℕ) → get_be16 a b ≡ a * 256 + b
  pub get_be32_lem : (a b c d : ℕ) → get_be32 a b c d ≡ ((a * 256 + b) * 256 + c) * 256 + d
  pub set_be16_lem : (v : ℕ) → set_be16 v ≡ v / 256 % 256 ∷ v % 256 ∷ []
  pub crc32-lt : (xs : List ℕ) → crc32 xs < 2 ^ 32
  pub length-hmac_sha1 : (key text : List ℕ) → length (hmac_sha1 key text) ≡ 20
