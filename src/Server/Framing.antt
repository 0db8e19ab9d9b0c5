-- ===== src/Server/Framing.antt =====
-- What the loop over the buffer does with a query.
pub mod Flood
use xrtc_server.Prelude.{
  ℕ, suc, ◌+◌, ◌<◌, ◌≤◌, ◌≡◌, refl, List, [], ◌∷◌, ◌++◌, Bool, true, false, arith, ◌∙◌, leb, length,
  take,
}
use xrtc_server.Server.{
  TcpConnection, state_head, state_body, waiting, xhead_size, xhead_magic_num, magic_num, body_len,
  body_of, process_round, process_query_buffer, new_tcp_connection,
}

-- A new connection that has read these bytes.
abbrev pub with_bytes : List ℕ → TcpConnection
unfolding new_tcp_connection
with_bytes buf = record new_tcp_connection { querybuf = buf }

module _ (word : List ℕ → ℕ) (process : List ℕ → List ℕ → Bool) where
  -- One round.
  round_on :
      (fuel : ℕ) (c c' : TcpConnection)
      → c.bytes_expected + c.bytes_processed ≤ length c.querybuf
      → process_round word process c.current_state c ≡ waiting c'
      → process_query_buffer word process (suc fuel) c ≡ process_query_buffer word process fuel c'
  unfolding process_query_buffer
  round_on fuel c c' n e =
      let b : leb (c.bytes_expected + c.bytes_processed) (length c.querybuf) ≡ true =
        ground arith in
      rw (b, e, process_query_buffer) refl

  round_waits :
      (fuel : ℕ) (c : TcpConnection)
      → length c.querybuf < c.bytes_expected + c.bytes_processed
      → process_query_buffer word process (suc fuel) c ≡ waiting c
  unfolding process_query_buffer
  round_waits fuel c n =
      let b : leb (c.bytes_expected + c.bytes_processed) (length c.querybuf) ≡ false =
        ground arith in
      rw (b, process_query_buffer) refl

  abbrev in_body : List ℕ → TcpConnection
  in_body buf = record {
    querybuf = buf;
    current_state = state_body;
    bytes_expected = body_len word buf;
    bytes_processed = xhead_size;
    requests = [];
  }

  abbrev pub after_body : List ℕ → TcpConnection
  after_body buf = record {
    querybuf = buf;
    current_state = state_body;
    bytes_expected = body_len word buf;
    bytes_processed = 65536;
    requests = body_of word buf ∷ [];
  }

  head_round :
      (buf : List ℕ)
      → magic_num word buf ≡ xhead_magic_num
      → process_round word process state_head (with_bytes buf) ≡ waiting (in_body buf)
  unfolding process_round new_tcp_connection
  head_round buf m = rw (m, process_round) refl

  body_round :
      (c : TcpConnection)
      → process (take xhead_size c.querybuf) (body_of word c.querybuf) ≡ true
      → process_round word process state_body c
        ≡ waiting (record c {
          bytes_processed = 65536;
          requests = c.requests ++ (body_of word c.querybuf ∷ []);
        })
  unfolding process_round
  body_round c p = rw (p, process_round) refl

  -- On a new connection, a query with the right magic number and a complete body, in a buffer of less
  -- than 65536 bytes more than the body's length, for which _process_request answers 0: three rounds of
  -- the loop are enough, the body is given to _process_request once, and the connection waits.
  pub process_query_buffer_once :
      (fuel : ℕ) (buf : List ℕ)
      → magic_num word buf ≡ xhead_magic_num
      → process (take xhead_size buf) (body_of word buf) ≡ true
      → xhead_size + body_len word buf ≤ length buf
      → length buf < body_len word buf + 65536
      → process_query_buffer word process (suc (suc (suc fuel))) (with_bytes buf)
        ≡ waiting (after_body buf)
  unfolding new_tcp_connection
  process_query_buffer_once fuel buf m p full small =
      round_on (suc (suc fuel)) (with_bytes buf) (in_body buf) (omega arith) (head_round buf m)
      ∙ round_on (suc fuel) (in_body buf) (after_body buf) (omega arith)
          (body_round (in_body buf) p)
      ∙ round_waits fuel (after_body buf) (omega arith)
