-- ===== src/Rtp/Demultiplexing.antt =====
-- Which packets are taken for RTP and which for RTCP.
use xrtc_server.Prelude.{ℕ, ◌<◌, ◌≤◌, ◌≡◌, ◌⊎◌, ◌↔◌, List, ◌∷◌, arith, length, get_or, some}
use xrtc_server.Rtp.{k_rtp, k_rtcp, infer_rtp_packet_type, get_rtcp_type}

-- For a first and second byte `b` and `c`: a packet is taken for RTP exactly if it has twelve bytes,
-- b is from 128 to 191, and c is neither from 64 to 95 nor from 192 to 223; it is taken for RTCP exactly
-- if it has four bytes and c is in one of these ranges.
pub infer_rtp_packet_type_lem :
    (b c : ℕ) (rest : List ℕ)
    → b < 256
    → c < 256
    → let packet = b ∷ c ∷ rest in
      let rtcp = ((64 ≤ c) × (c < 96)) ⊎ ((192 ≤ c) × (c < 224)) in
      ((infer_rtp_packet_type packet ≡ k_rtp)
        ↔ ((12 ≤ length packet) × (128 ≤ b) × (b < 192) × ¬ rtcp))
      × ((infer_rtp_packet_type packet ≡ k_rtcp) ↔ ((4 ≤ length packet) × rtcp))
unfolding infer_rtp_packet_type
infer_rtp_packet_type_lem b c rest p q = ground arith

-- The type that get_rtcp_type reads from a packet taken for RTCP, of bytes, is one of the values of a
-- control packet or, without the marker bit, one of those less 128.
pub get_rtcp_type-infer_rtp_packet_type :
    (packet : List ℕ)
    → get_or packet 1 0 < 256
    → infer_rtp_packet_type packet ≡ k_rtcp
    → (t : ℕ) × (get_rtcp_type packet ≡ some t) × (((64 ≤ t) × (t < 96)) ⊎ ((192 ≤ t) × (t < 224)))
unfolding infer_rtp_packet_type get_rtcp_type
get_rtcp_type-infer_rtp_packet_type packet p e = (get_or packet 1 0, ground arith, ground arith)
