-- ===== src/Tests/Rtp.antt =====
-- An RTP packet of twelve bytes and a receiver report.
use xrtc_server.Prelude.{ℕ, ◌≡◌, ◌≤◌, ◌<◌, ◌⊎◌, ◌↔◌, List, [], ◌∷◌, length, arith}
use xrtc_server.Rtp.{k_rtp, k_rtcp, infer_rtp_packet_type}
use xrtc_server.Rtp.Demultiplexing.{infer_rtp_packet_type_lem}

abbrev tail : List ℕ
tail = 0 ∷ 1 ∷ 0 ∷ 0 ∷ 0 ∷ 1 ∷ 0 ∷ 0 ∷ 0 ∷ 1 ∷ []

infer_rtp_packet_type_example :
    let packet = 128 ∷ 111 ∷ tail in
    let rtcp = ((64 ≤ 111) × (111 < 96)) ⊎ ((192 ≤ 111) × (111 < 224)) in
    ((infer_rtp_packet_type packet ≡ k_rtp)
      ↔ ((12 ≤ length packet) × (128 ≤ 128) × (128 < 192) × ¬ rtcp))
    × ((infer_rtp_packet_type packet ≡ k_rtcp) ↔ ((4 ≤ length packet) × rtcp))
infer_rtp_packet_type_example = infer_rtp_packet_type_lem 128 111 tail (omega arith) (omega arith)
