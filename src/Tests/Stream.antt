-- ===== src/Tests/Stream.antt =====
-- The stream manager with one publisher and one viewer.
use xrtc_server.Prelude.{ℕ, ◌≡◌, refl, List, [], ◌∷◌, true, false, some, none, same_bytes}
use xrtc_server.Ice.Controller.{member}
use xrtc_server.Pc.ConnectionState.{k_failed}
use xrtc_server.Stream.Table.{find}
use xrtc_server.Stream.Manager.{
  k_push, k_pull, RtcStream, RtcStreamManager, create_push_stream, create_pull_stream,
  on_connection_state, set_answer, on_rtp_packet_received, on_rtcp_packet_received,
}
use xrtc_server.Stream.Manager.Reach.{Reaches, start, pushed, pulled, Reaches-IsOwner}
use xrtc_server.Stream.Manager.Ownership.{
  IsOwner, create_push_stream-IsOwner, create_pull_stream-IsOwner,
}
use xrtc_server.Stream.Manager.Forwarding.{on_connection_state_wrong}

abbrev room : List ℕ
room = b'r' ∷ []

abbrev empty : RtcStreamManager
empty = record { push_streams = []; pull_streams = []; live = [] }

empty-IsOwner : IsOwner empty
unfolding find
empty-IsOwner = record {
  named = λ n s e. cc;
  named_too = λ n s e. cc;
  once = λ n k s r e. cc;
  once_too = λ n k s r e. cc;
  apart = λ n k s r e. cc;
  unique = tt;
}

abbrev publisher : RtcStream
publisher = record {
  address = 1;
  uid = 7;
  stream_name = room;
  audio_source = b'a' ∷ [];
  video_source = [];
}

abbrev viewer : RtcStream
viewer = record publisher { address = 2; uid = 8 }

unused_one : member 1 empty.live ≡ false
unfolding member
unused_one = refl

abbrev one : RtcStreamManager
one = create_push_stream 1 (b'a' ∷ []) [] 7 room empty

one-IsOwner : IsOwner one
one-IsOwner = create_push_stream-IsOwner 1 7 (b'a' ∷ []) [] room empty unused_one empty-IsOwner

unused_two : member 2 one.live ≡ false
unfolding member create_push_stream
unused_two = refl

abbrev two : RtcStreamManager
two = (create_pull_stream 2 8 room one).1

two-IsOwner : IsOwner two
two-IsOwner = create_pull_stream-IsOwner 2 8 room one unused_two one-IsOwner

forwarded : on_rtp_packet_received k_push publisher two ≡ some viewer
unfolding same_bytes on_rtp_packet_received create_pull_stream create_push_stream
forwarded = refl

reported : on_rtcp_packet_received k_pull viewer two ≡ some publisher
unfolding same_bytes on_rtcp_packet_received create_pull_stream create_push_stream
reported = refl

holds_viewer : k_pull ≡ k_pull → find viewer.stream_name two.pull_streams ≡ some viewer
unfolding same_bytes find create_pull_stream create_push_stream
holds_viewer e = refl

no_push : k_pull ≡ k_push → find viewer.stream_name two.push_streams ≡ some viewer
no_push e = cc

answered : set_answer 8 room (b'p' ∷ b'u' ∷ b'l' ∷ b'l' ∷ []) two ≡ some viewer
unfolding same_bytes set_answer create_pull_stream create_push_stream
answered = refl

holds_publisher : find room one.push_streams ≡ some publisher
unfolding same_bytes find create_push_stream
holds_publisher = refl

on_connection_state_wrong_example :
    let after =
      on_connection_state k_push publisher k_failed (create_push_stream 2 [] [] 7 room one) in
    (find room after.push_streams ≡ none)
    × (member publisher.address after.live ≡ true)
    × (member 2 after.live ≡ false)
on_connection_state_wrong_example =
    on_connection_state_wrong 2 7 [] [] room publisher one one-IsOwner unused_two holds_publisher
      refl

two-Reaches : Reaches two
two-Reaches = pulled 2 8 room (pushed 1 7 (b'a' ∷ []) [] room start unused_one) unused_two

Reaches-IsOwner_example : IsOwner two
Reaches-IsOwner_example = Reaches-IsOwner two two-Reaches
