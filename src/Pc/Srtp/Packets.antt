-- ===== src/Pc/Srtp/Packets.antt =====
-- The packets of pc/dtls_srtp_transport.cpp, pc/srtp_transport.cpp and pc/srtp_session.cpp: what is
-- sent and what is passed on.
pub mod Room
use xrtc_server.Prelude.{
  ℕ, ◌+◌, List, Bool, true, false, not, Option, some, none, if◌then◌else◌, ltb, length,
}
use xrtc_server.Pc.Srtp.{Libsrtp, SrtpSession, SrtpTransport, is_srtp_active}
use xrtc_server.Rtp.{RtpPacketType, k_rtp, k_rtcp, k_unknown, infer_rtp_packet_type}

-- signal_rtp_packet_received and signal_rtcp_packet_received.
pub data Media : Type 0 where
  rtp_media : List ℕ → Media
  rtcp_media : List ℕ → Media

-- A call of libsrtp, and the session behind it.
abbrev pub called :
    {S : Type 0} → SrtpSession S → S × Option (List ℕ) → SrtpSession S × Option (List ℕ)
called s (x, made) = (record s { session = some x }, made)

-- SrtpSession::unprotect_rtp and unprotect_rtcp, by the call of libsrtp.
abbrev pub unprotect :
    {S : Type 0}
    → (S → List ℕ → S × Option (List ℕ))
    → List ℕ
    → SrtpSession S
    → SrtpSession S × Option (List ℕ)
unprotect call packet s = elim s.session [ none ↦ (s, none) | some x ↦ called s (call x packet) ]

abbrev pub protect_with :
    {S : Type 0}
    → (S → List ℕ → S × Option (List ℕ))
    → ℕ
    → ℕ
    → List ℕ
    → SrtpSession S
    → Option S
    → SrtpSession S × Option (List ℕ)
protect_with call max_len need_len packet s none = (s, none)
protect_with call max_len need_len packet s (some x) =
    if ltb max_len need_len then (s, none) else called s (call x packet)

-- SrtpSession::protect_rtp and protect_rtcp, by the call of libsrtp, the room in the buffer and what
-- the session takes to be needed.
abbrev pub protect :
    {S : Type 0}
    → (S → List ℕ → S × Option (List ℕ))
    → ℕ
    → ℕ
    → List ℕ
    → SrtpSession S
    → SrtpSession S × Option (List ℕ)
protect call max_len need_len packet s = protect_with call max_len need_len packet s s.session

-- SrtpSession::get_auth_tag_len leaves the zero of its caller if there is no session.
abbrev pub tag_of : {S : Type 0} → ℕ → Option S → ℕ
tag_of n none = 0
tag_of n (some x) = n

abbrev pub sent_by :
    {S : Type 0}
    → SrtpTransport S
    → SrtpSession S × Option (List ℕ)
    → SrtpTransport S × Option (List ℕ)
sent_by t (s, made) = (record t { send_session = some s }, made)

abbrev pub wrapped : (List ℕ → Media) → Option (List ℕ) → Option Media
wrapped media none = none
wrapped media (some packet) = some (media packet)

abbrev pub passed_by :
    {S : Type 0}
    → (List ℕ → Media)
    → SrtpTransport S
    → SrtpSession S × Option (List ℕ)
    → SrtpTransport S × Option Media
passed_by media t (s, made) = (record t { recv_session = some s }, wrapped media made)

module _ {S : Type 0} (lib : Libsrtp S) where
  abbrev pub send_rtp_with :
      List ℕ → SrtpTransport S → Option (SrtpSession S) → SrtpTransport S × Option (List ℕ)
  send_rtp_with packet t none = (t, none)
  send_rtp_with packet t (some s) = sent_by t (
      protect lib.protect_rtp_of (length packet + tag_of s.rtp_auth_tag_len s.session)
        (length packet + s.rtp_auth_tag_len) packet s)

  -- DtlsSrtpTransport::send_rtp: the packet for the transport below, `none` for the answer -1.
  unfoldable pub send_rtp : List ℕ → SrtpTransport S → SrtpTransport S × Option (List ℕ)
  send_rtp packet t =
      if not (is_srtp_active t) then (t, none) else send_rtp_with packet t t.send_session

  abbrev pub send_rtcp_with :
      List ℕ → SrtpTransport S → Option (SrtpSession S) → SrtpTransport S × Option (List ℕ)
  send_rtcp_with packet t none = (t, none)
  send_rtcp_with packet t (some s) = sent_by t (
      protect lib.protect_rtcp_of (length packet + tag_of s.rtcp_auth_tag_len s.session + 4)
        (length packet + s.rtp_auth_tag_len + 4) packet s)

  -- DtlsSrtpTransport::send_rtcp
  unfoldable pub send_rtcp : List ℕ → SrtpTransport S → SrtpTransport S × Option (List ℕ)
  send_rtcp packet t =
      if not (is_srtp_active t) then (t, none) else send_rtcp_with packet t t.send_session

  abbrev pub received_with :
      (S → List ℕ → S × Option (List ℕ))
      → (List ℕ → Media)
      → List ℕ
      → SrtpTransport S
      → Option (SrtpSession S)
      → SrtpTransport S × Option Media
  received_with call media packet t none = (t, none)
  received_with call media packet t (some r) = passed_by media t (unprotect call packet r)

  -- _on_rtp_packet_received and _on_rtcp_packet_received
  abbrev pub on_packet_received :
      (S → List ℕ → S × Option (List ℕ))
      → (List ℕ → Media)
      → List ℕ
      → SrtpTransport S
      → SrtpTransport S × Option Media
  on_packet_received call media packet t =
      if not (is_srtp_active t) then (t, none) else received_with call media packet t t.recv_session

  abbrev pub on_packet_of :
      RtpPacketType → List ℕ → SrtpTransport S → SrtpTransport S × Option Media
  on_packet_of k_rtp packet t = on_packet_received lib.unprotect_rtp_of rtp_media packet t
  on_packet_of k_rtcp packet t = on_packet_received lib.unprotect_rtcp_of rtcp_media packet t
  on_packet_of k_unknown packet t = (t, none)

  -- DtlsSrtpTransport::_on_read_packet
  unfoldable pub on_srtp_packet : List ℕ → SrtpTransport S → SrtpTransport S × Option Media
  unfolding infer_rtp_packet_type
  on_srtp_packet packet t = on_packet_of (infer_rtp_packet_type packet) packet t
