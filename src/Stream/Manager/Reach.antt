-- ===== src/Stream/Manager/Reach.antt =====
-- Any sequence of requests and events of the stream manager.
use xrtc_server.Prelude.{ℕ, ◌≡◌, List, [], false}
use xrtc_server.Ice.Controller.{member}
use xrtc_server.Pc.ConnectionState.{PeerConnectionState}
use xrtc_server.Stream.Table.{find}
use xrtc_server.Stream.Manager.{
  RtcStream, RtcStreamManager, RtcStreamType, create_push_stream, create_pull_stream,
  remove_push_stream, remove_pull_stream, on_stream_exception, on_connection_state,
}
use xrtc_server.Stream.Manager.Ownership.{
  IsOwner, create_push_stream-IsOwner, create_pull_stream-IsOwner, remove_push_stream-IsOwner,
  remove_pull_stream-IsOwner, remove_stream-IsOwner,
}

abbrev pub no_streams : RtcStreamManager
no_streams = record { push_streams = []; pull_streams = []; live = [] }

-- What requests and events make of an empty manager. A new object has an address that is not in use.
pub data Reaches : RtcStreamManager → Type 0 where
  start : Reaches no_streams
  pushed :
      {m : RtcStreamManager} (address uid : ℕ) (audio video name : List ℕ)
      → Reaches m
      → member address m.live ≡ false
      → Reaches (create_push_stream address audio video uid name m)
  pulled :
      {m : RtcStreamManager} (address uid : ℕ) (name : List ℕ)
      → Reaches m
      → member address m.live ≡ false
      → Reaches (create_pull_stream address uid name m).1
  push_stopped :
      {m : RtcStreamManager} (uid : ℕ) (name : List ℕ)
      → Reaches m
      → Reaches (remove_push_stream uid name m)
  pull_stopped :
      {m : RtcStreamManager} (uid : ℕ) (name : List ℕ)
      → Reaches m
      → Reaches (remove_pull_stream uid name m)
  stream_timed_out :
      {m : RtcStreamManager} (t : RtcStreamType) (s : RtcStream)
      → Reaches m
      → Reaches (on_stream_exception t s m)
  changed :
      {m : RtcStreamManager} (t : RtcStreamType) (s : RtcStream) (state : PeerConnectionState)
      → Reaches m
      → Reaches (on_connection_state t s state m)

empty-IsOwner : IsOwner no_streams
unfolding find
empty-IsOwner = record {
  named = λ n s e. cc;
  named_too = λ n s e. cc;
  once = λ n k s r p q e. cc;
  once_too = λ n k s r p q e. cc;
  apart = λ n k s r p q e. cc;
  unique = tt;
}

-- After any sequence of requests to push, to pull and to stop, of timeouts and of changes of a
-- connection's state, the tables hold only existing objects, each under its name and in one entry.
pub Reaches-IsOwner : (m : RtcStreamManager) → Reaches m → IsOwner m
Reaches-IsOwner m start = empty-IsOwner
Reaches-IsOwner m (pushed {m = k} address uid audio video name r fresh) =
    create_push_stream-IsOwner address uid audio video name k fresh (Reaches-IsOwner k r)
Reaches-IsOwner m (pulled {m = k} address uid name r fresh) =
    create_pull_stream-IsOwner address uid name k fresh (Reaches-IsOwner k r)
Reaches-IsOwner m (push_stopped {m = k} uid name r) =
    remove_push_stream-IsOwner uid name k (Reaches-IsOwner k r)
Reaches-IsOwner m (pull_stopped {m = k} uid name r) =
    remove_pull_stream-IsOwner uid name k (Reaches-IsOwner k r)
Reaches-IsOwner m (stream_timed_out {m = k} t s r) =
    (remove_stream-IsOwner t s PeerConnectionState.k_failed k (Reaches-IsOwner k r)).0
Reaches-IsOwner m (changed {m = k} t s state r) =
    (remove_stream-IsOwner t s state k (Reaches-IsOwner k r)).1
