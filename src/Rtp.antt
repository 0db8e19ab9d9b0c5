-- ===== src/Rtp.antt =====
-- module/rtp_rtcp/rtp_utils.cpp: telling RTP from RTCP in what arrives on one port. A packet is the
-- list of its bytes.
pub mod Demultiplexing
use xrtc_server.Prelude.{
  ℕ, ◌/◌, ◌%◌, List, [], ◌∷◌, Bool, true, false, not, ◌&&◌, Option, some, none, if◌then◌else◌, ◌==◌,
  ltb, leb, length, get_or,
}

abbrev k_rtp_version : ℕ
k_rtp_version = 2

abbrev k_min_rtp_packet_len : ℕ
k_min_rtp_packet_len = 12

abbrev k_min_rtcp_packet_len : ℕ
k_min_rtcp_packet_len = 4

pub data RtpPacketType : Type 0 where
  k_rtp k_rtcp k_unknown : RtpPacketType

-- `packet[0] >> 6` of a byte.
unfoldable pub has_correct_rtp_version : List ℕ → Bool
has_correct_rtp_version packet = get_or packet 0 0 / 64 == k_rtp_version

unfoldable pub payload_type_is_reserved_for_rtcp : ℕ → Bool
payload_type_is_reserved_for_rtcp payload_type = leb 64 payload_type && ltb payload_type 96

-- `packet[1] & 0x7F` is the remainder by 128.
unfoldable pub is_rtp_packet : List ℕ → Bool
unfolding has_correct_rtp_version payload_type_is_reserved_for_rtcp
is_rtp_packet packet =
    leb k_min_rtp_packet_len (length packet)
    && has_correct_rtp_version packet
    && not (payload_type_is_reserved_for_rtcp (get_or packet 1 0 % 128))

unfoldable pub is_rtcp_packet : List ℕ → Bool
unfolding payload_type_is_reserved_for_rtcp
is_rtcp_packet packet =
    leb k_min_rtcp_packet_len (length packet)
    && payload_type_is_reserved_for_rtcp (get_or packet 1 0 % 128)

unfoldable pub infer_rtp_packet_type : List ℕ → RtpPacketType
unfolding is_rtp_packet is_rtcp_packet
infer_rtp_packet_type packet =
    if is_rtp_packet packet then k_rtp else if is_rtcp_packet packet then k_rtcp else k_unknown

-- get_rtcp_type, with pointers that are not null: `none` is the answer false.
unfoldable pub get_rtcp_type : List ℕ → Option ℕ
get_rtcp_type packet =
    if ltb (length packet) k_min_rtcp_packet_len then none else some (get_or packet 1 0)
