-- ===== src/Server.antt =====
-- server/signaling_worker.cpp: how a signalling query is cut out of the bytes that a connection sends.
-- `word` reads four bytes as a uint32_t of the host; `process` is _process_request, by whether it
-- answers 0.
pub mod Framing
use xrtc_server.Prelude.{
  ℕ, zero, suc, ◌+◌, List, [], ◌∷◌, ◌++◌, Bool, true, false, if◌then◌else◌, ◌==◌, ltb, leb, length,
  take, drop,
}

abbrev pub xhead_size : ℕ
xhead_size = 36

abbrev pub xhead_magic_num : ℕ
xhead_magic_num = 0xfb202202

pub data QueryState : Type 0 where
  state_head state_body : QueryState

-- `requests` has the bodies that were given to _process_request, in order.
pub record TcpConnection : Type 0 where
  pub querybuf : List ℕ
  pub current_state : QueryState
  pub bytes_expected : ℕ
  pub bytes_processed : ℕ
  pub requests : List (List ℕ)

-- `waiting` is the answer 0, `refused` the answer -1; `running` is no C++ value: the loop ran out of
-- fuel.
pub data Processed : Type 0 where
  waiting : TcpConnection → Processed
  refused running : Processed

-- TcpConnection::TcpConnection
unfoldable pub new_tcp_connection : TcpConnection
new_tcp_connection = record {
  querybuf = [];
  current_state = state_head;
  bytes_expected = xhead_size;
  bytes_processed = 0;
  requests = [];
}

module _ (word : List ℕ → ℕ) where
  -- Of the header at the front of the buffer.
  unfoldable pub magic_num : List ℕ → ℕ
  magic_num buf = word (take 4 (drop 24 buf))

  unfoldable pub body_len : List ℕ → ℕ
  body_len buf = word (take 4 (drop 32 buf))

  unfoldable pub body_of : List ℕ → List ℕ
  unfolding body_len
  body_of buf = take (body_len buf) (drop xhead_size buf)

module _ (word : List ℕ → ℕ) (process : List ℕ → List ℕ → Bool) where
  -- The body of the loop.
  unfoldable pub process_round : QueryState → TcpConnection → Processed
  unfolding magic_num body_len body_of
  process_round state_head c =
      if magic_num word c.querybuf == xhead_magic_num
      then waiting (record c {
        current_state = state_body;
        bytes_processed = xhead_size;
        bytes_expected = body_len word c.querybuf;
      })
      else refused
  process_round state_body c =
      if process (take xhead_size c.querybuf) (body_of word c.querybuf)
      then waiting (record c {
        bytes_processed = 65536;
        requests = c.requests ++ (body_of word c.querybuf ∷ []);
      })
      else refused

  -- SignalingWorker::_process_query_buffer
  unfoldable pub process_query_buffer : ℕ → TcpConnection → Processed
  unfolding process_round
  process_query_buffer zero c = running
  process_query_buffer (suc fuel) c =
      if leb (c.bytes_expected + c.bytes_processed) (length c.querybuf)
      then elim (process_round c.current_state c) [
        | waiting c' ↦ process_query_buffer fuel c'
        | refused ↦ refused
        | running ↦ running
      ]
      else waiting c

  -- SignalingWorker::_read_query on a connection, by the bytes that wait in the socket; a read of none
  -- or a failed one closes the connection. `read_len`, an int, is `bytes_expected` below 2 ^ 31.
  unfoldable pub read_query : ℕ → List ℕ → TcpConnection → Processed
  unfolding process_query_buffer
  read_query fuel waiting_bytes c =
      let got = take c.bytes_expected waiting_bytes in
      if length got == 0
      then refused
      else process_query_buffer fuel (record c { querybuf = c.querybuf ++ got })
