-- ===== src/Stream/Manager.antt =====
-- stream/rtc_stream_manager.cpp: the tables of push and pull streams. An object is named by its
-- address; `live` has the addresses of the streams that have been made and not deleted. The
-- descriptions of media in a stream are bytes here.
pub mod Ownership
pub mod Reach
pub mod Forwarding
use xrtc_server.Prelude.{
  ℕ, List, [], ◌∷◌, Bool, true, false, Option, some, none, if◌then◌else◌, ◌==◌, same_bytes,
}
use xrtc_server.Stream.Table.{find, put, remove}
use xrtc_server.Ice.Controller.{erase}
use xrtc_server.Pc.ConnectionState.{PeerConnectionState, k_failed, pc_index}

pub data RtcStreamType : Type 0 where
  k_push k_pull : RtcStreamType

pub record RtcStream : Type 0 where
  pub address : ℕ
  pub uid : ℕ
  pub stream_name : List ℕ
  pub audio_source : List ℕ
  pub video_source : List ℕ

abbrev pub Table : Type 0
Table = List (List ℕ × RtcStream)

pub record RtcStreamManager : Type 0 where
  pub push_streams : Table
  pub pull_streams : Table
  pub live : List ℕ

-- RtcStreamManager::create_push_stream, with the address of the new object and the media that it
-- will offer.
unfoldable pub create_push_stream :
    ℕ → List ℕ → List ℕ → ℕ → List ℕ → RtcStreamManager → RtcStreamManager
unfolding put
create_push_stream address audio video uid name m =
    let stream : RtcStream = record {
      address = address;
      uid = uid;
      stream_name = name;
      audio_source = audio;
      video_source = video;
    } in
    record m { push_streams = put name stream m.push_streams; live = address ∷ m.live }

-- The tests of the two _remove functions: the entry of that name, if its uid is the one given.
unfoldable pub owned : ℕ → Option RtcStream → Option RtcStream
owned uid none = none
owned uid (some s) = if uid == s.uid then some s else none

-- RtcStreamManager::_remove_push_stream
unfoldable pub remove_push_stream : ℕ → List ℕ → RtcStreamManager → RtcStreamManager
unfolding owned find remove erase
remove_push_stream uid name m = elim (owned uid (find name m.push_streams)) [
  | none ↦ m
  | some s ↦ record m { push_streams = remove name m.push_streams; live = erase s.address m.live }
]

-- RtcStreamManager::_remove_pull_stream
unfoldable pub remove_pull_stream : ℕ → List ℕ → RtcStreamManager → RtcStreamManager
unfolding owned find remove erase
remove_pull_stream uid name m = elim (owned uid (find name m.pull_streams)) [
  | none ↦ m
  | some s ↦ record m { pull_streams = remove name m.pull_streams; live = erase s.address m.live }
]

-- RtcStreamManager::create_pull_stream; `false` is the answer -1.
unfoldable pub create_pull_stream : ℕ → ℕ → List ℕ → RtcStreamManager → Bool × RtcStreamManager
unfolding find put remove_pull_stream
create_pull_stream address uid name m = elim (find name m.push_streams) [
  | none ↦ (false, m)
  | some source ↦
      let m₁ = remove_pull_stream uid name m in
      let stream : RtcStream = record {
        address = address;
        uid = uid;
        stream_name = name;
        audio_source = source.audio_source;
        video_source = source.video_source;
      } in
      (true, record m₁ { pull_streams = put name stream m₁.pull_streams; live = address ∷ m₁.live })
]

-- RtcStreamManager::set_answer: the stream that is given the answer; `none` is the answer -1.
unfoldable pub set_answer : ℕ → List ℕ → List ℕ → RtcStreamManager → Option RtcStream
unfolding owned find
set_answer uid name stream_type m =
    if same_bytes stream_type (b'p' ∷ b'u' ∷ b's' ∷ b'h' ∷ [])
    then owned uid (find name m.push_streams)
    else owned uid (find name m.pull_streams)

unfoldable pub remove_stream : RtcStreamType → RtcStream → RtcStreamManager → RtcStreamManager
unfolding remove_push_stream remove_pull_stream
remove_stream k_push s m = remove_push_stream s.uid s.stream_name m
remove_stream k_pull s m = remove_pull_stream s.uid s.stream_name m

-- RtcStreamManager::on_connection_state
unfoldable pub on_connection_state :
    RtcStreamType → RtcStream → PeerConnectionState → RtcStreamManager → RtcStreamManager
unfolding remove_stream
on_connection_state t s state m =
    if pc_index state == pc_index k_failed then remove_stream t s m else m

-- RtcStreamManager::on_stream_exception
unfoldable pub on_stream_exception : RtcStreamType → RtcStream → RtcStreamManager → RtcStreamManager
unfolding remove_stream
on_stream_exception t s m = remove_stream t s m

-- RtcStreamManager::on_rtp_packet_received: the stream that the packet is sent on to.
unfoldable pub on_rtp_packet_received :
    RtcStreamType → RtcStream → RtcStreamManager → Option RtcStream
unfolding find
on_rtp_packet_received k_push s m = find s.stream_name m.pull_streams
on_rtp_packet_received k_pull s m = none

-- RtcStreamManager::on_rtcp_packet_received
unfoldable pub on_rtcp_packet_received :
    RtcStreamType → RtcStream → RtcStreamManager → Option RtcStream
unfolding find
on_rtcp_packet_received k_push s m = find s.stream_name m.pull_streams
on_rtcp_packet_received k_pull s m = find s.stream_name m.push_streams
