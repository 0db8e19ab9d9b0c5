-- ===== src/Tests/Server.antt =====
-- A query with a body of four bytes.
use xrtc_server.Prelude.{
  ℕ, ◌+◌, ◌*◌, ◌≡◌, refl, List, [], ◌∷◌, ◌++◌, Bool, true, false, replicate, arith,
}
use xrtc_server.Server.{
  Processed, waiting, refused, running, read_query, process_query_buffer, new_tcp_connection,
  body_len, magic_num, xhead_magic_num,
}
use xrtc_server.Server.Framing.{with_bytes, after_body, process_query_buffer_once}
use xrtc_server.Server.Framing.Flood.Ends.{Ends}
use xrtc_server.Server.Framing.Flood.{reads}

-- Four bytes of a host with the least significant byte first.
abbrev word : List ℕ → ℕ
word (a ∷ b ∷ c ∷ d ∷ []) = a + b * 256 + c * 65536 + d * 16777216
word bs = 0

abbrev accept : List ℕ → List ℕ → Bool
accept header body = true

abbrev header : List ℕ
header = replicate 24 0 ++ (0x02 ∷ 0x22 ∷ 0x20 ∷ 0xfb ∷ 0 ∷ 0 ∷ 0 ∷ 0 ∷ 4 ∷ 0 ∷ 0 ∷ 0 ∷ [])

abbrev query : List ℕ
query = header ++ (b'b' ∷ b'o' ∷ b'd' ∷ b'y' ∷ [])

query_magic : magic_num word query ≡ xhead_magic_num
unfolding magic_num
query_magic = refl

query_body : body_len word query ≡ 4
unfolding body_len
query_body = refl

process_query_buffer_once_example :
    process_query_buffer word accept 3 (with_bytes query) ≡ waiting (after_body word accept query)
process_query_buffer_once_example =
    process_query_buffer_once word accept 0 query query_magic refl (omega (arith, query_body))
      (omega (arith, query_body))

-- The same query with a body of 40000 bytes, and the same bytes twice more.
abbrev long_header : List ℕ
long_header = replicate 24 0 ++ (0x02 ∷ 0x22 ∷ 0x20 ∷ 0xfb ∷ 0 ∷ 0 ∷ 0 ∷ 0 ∷ 64 ∷ 156 ∷ 0 ∷ 0 ∷ [])

abbrev long_body : List ℕ
long_body = replicate 40000 0

-- It stays open.
abbrev is_waiting : Processed → Bool
is_waiting (waiting c) = true
is_waiting refused = false
is_waiting running = false

reads_wait :
    is_waiting
      (reads word accept 3 (header ∷ (b'b' ∷ b'o' ∷ b'd' ∷ b'y' ∷ []) ∷ []) new_tcp_connection)
    ≡ true
unfolding read_query new_tcp_connection
reads_wait = refl
