-- ===== src/Pc/Srtp/Packets/Room.antt =====
-- The room that a packet is sent with, against what the session asks for.
use xrtc_server.Prelude.{
  ℕ, ◌+◌, ◌≡◌, ◌≤◌, refl, List, Bool, true, false, not, ◌&&◌, ◌||◌, arith, Option, some, none,
  if◌then◌else◌, ◌==◌, ltb, length, ap, ◌∙◌, Bool-cases, inl, inr,
}
use xrtc_server.Pc.ConnectionState.{dtls_connected}
use xrtc_server.Pc.Srtp.{
  Policy, Libsrtp, SrtpSession, SrtpTransport, SrtpKeys, DtlsLink, new_session, reset_params,
  is_srtp_active, extract_params, is_dtls_writable, installed, create_or_update, set_key_with,
  do_set_key, set_key, params_recv, params_send, set_rtp_params, install_params,
  maybe_setup_dtls_srtp, on_dtls_state,
}
use xrtc_server.Pc.Srtp.Packets.{
  called, protect_with, protect, tag_of, sent_by, send_rtp_with, send_rtp, send_rtcp_with,
  send_rtcp,
}

active_if : {B : Type 0} (b : Bool) (x y : B) → b ≡ true → (if not b then x else y) ≡ y
active_if b x y e = rw e refl

room_off :
    {S : Type 0} (s : SrtpSession S) (r : SrtpSession S × Option (List ℕ)) (max_len need_len : ℕ)
    → need_len ≤ max_len
    → (if ltb max_len need_len then (s, none) else r) ≡ r
room_off s r max_len need_len h =
    let off : ltb max_len need_len ≡ false = ground arith in rw off refl

module _ {S : Type 0} (lib : Libsrtp S) (t : SrtpTransport S) (s : SrtpSession S) (x : S)
    (packet : List ℕ) where
  rtp_at :
      is_srtp_active t ≡ true
      → t.send_session ≡ some s
      → send_rtp lib packet t
        ≡ sent_by t (
            protect lib.protect_rtp_of
              (length packet + tag_of s.rtp_auth_tag_len s.session)
              (length packet + s.rtp_auth_tag_len)
              packet
              s)
  unfolding send_rtp
  rtp_at a e =
      active_if (is_srtp_active t) (t, none) (send_rtp_with lib packet t t.send_session) a
      ∙ ap (send_rtp_with lib packet t) e

  rtcp_at :
      is_srtp_active t ≡ true
      → t.send_session ≡ some s
      → send_rtcp lib packet t
        ≡ sent_by t (
            protect lib.protect_rtcp_of
              (length packet + tag_of s.rtcp_auth_tag_len s.session + 4)
              (length packet + s.rtp_auth_tag_len + 4)
              packet
              s)
  unfolding send_rtcp
  rtcp_at a e =
      active_if (is_srtp_active t) (t, none) (send_rtcp_with lib packet t t.send_session) a
      ∙ ap (send_rtcp_with lib packet t) e

  rtp_sent :
      is_srtp_active t ≡ true
      → t.send_session ≡ some s
      → s.session ≡ some x
      → send_rtp lib packet t ≡ sent_by t (called s (lib.protect_rtp_of x packet))
  rtp_sent a e f =
      let n = length packet in
      rtp_at a e
      ∙ ap
          (λ o. sent_by t (
            protect_with lib.protect_rtp_of (n + tag_of s.rtp_auth_tag_len o)
              (n + s.rtp_auth_tag_len) packet s o))
          f
      ∙ ap (sent_by t) (
          room_off s (called s (lib.protect_rtp_of x packet)) (n + s.rtp_auth_tag_len)
            (n + s.rtp_auth_tag_len) (omega arith))

  rtcp_sent :
      is_srtp_active t ≡ true
      → t.send_session ≡ some s
      → s.session ≡ some x
      → s.rtp_auth_tag_len ≤ s.rtcp_auth_tag_len
      → send_rtcp lib packet t ≡ sent_by t (called s (lib.protect_rtcp_of x packet))
  rtcp_sent a e f h =
      let n = length packet in
      rtcp_at a e
      ∙ ap
          (λ o. sent_by t (
            protect_with lib.protect_rtcp_of (n + tag_of s.rtcp_auth_tag_len o + 4)
              (n + s.rtp_auth_tag_len + 4) packet s o))
          f
      ∙ ap (sent_by t) (
          room_off s (called s (lib.protect_rtcp_of x packet)) (n + s.rtcp_auth_tag_len + 4)
            (n + s.rtp_auth_tag_len + 4) (omega (arith, h)))

-- A suite's tag for RTP is not longer than that for RTCP, as in every profile of libsrtp.
abbrev pub TagsOrdered : {S : Type 0} → Libsrtp S → Type 0
TagsOrdered lib =
    (cs : ℕ) (p : Policy) → lib.policy_of cs ≡ some p → p.rtp_auth_tag_len ≤ p.rtcp_auth_tag_len

-- A transport that can send: its sessions are there, and that for sending has keys of such a suite.
abbrev pub CanSend : {S : Type 0} → SrtpTransport S → Type 0
CanSend {S} t =
    (s : SrtpSession S) × (x : S) × (is_srtp_active t ≡ true)
    × (t.send_session ≡ some s)
    × (s.session ≡ some x)
    × (s.rtp_auth_tag_len ≤ s.rtcp_auth_tag_len)

-- What set_key leaves when it answers true.
abbrev Tagged : {S : Type 0} → (SrtpSession S × ℕ) × Bool → Type 0
Tagged {S} ((s, n), ok) =
    ok ≡ true → (x : S) × (s.session ≡ some x) × (s.rtp_auth_tag_len ≤ s.rtcp_auth_tag_len)

module _ {S : Type 0} (lib : Libsrtp S) (law : TagsOrdered lib) where
  installed-Tagged :
      (s : SrtpSession S) (n cs : ℕ) (p : Policy) (o : Option S)
      → lib.policy_of cs ≡ some p
      → Tagged (((installed lib s p o).0, n), (installed lib s p o).1)
  installed-Tagged s n cs p none e ok = cc
  installed-Tagged s n cs p (some x) e ok = (x, refl, law cs p e)

  set_key_with-Tagged :
      (outbound : Bool) (cs : ℕ) (key : List ℕ) (s : SrtpSession S) (n : ℕ) (o : Option Policy)
      → lib.policy_of cs ≡ o
      → let r = set_key_with lib outbound cs key s o in Tagged ((r.0, n), r.1)
  set_key_with-Tagged outbound cs key s n none e = λ ok. cc
  set_key_with-Tagged outbound cs key s n (some p) e =
      elim (Bool-cases (length key == p.cipher_key_len)) [
        | inl b ↦
            rw b (installed-Tagged s n cs p (create_or_update lib outbound cs key s.session) e)
        | inr b ↦ rw b (λ ok. cc)
      ]

  Tagged-if :
      (b : Bool) (x y : (SrtpSession S × ℕ) × Bool)
      → Tagged x
      → Tagged y
      → Tagged (if b then x else y)
  Tagged-if true x y p q = p
  Tagged-if false x y p q = q

  set_key-Tagged :
      (outbound : Bool) (cs : ℕ) (key : List ℕ) (n : ℕ)
      → Tagged (set_key lib outbound cs key (new_session, n))
  unfolding set_key do_set_key
  set_key-Tagged outbound cs key n =
      let r : SrtpSession S = record new_session { inited = true } in
      let d = do_set_key lib outbound cs key r in
      Tagged-if (n == 0 && not lib.init_ok) ((new_session, n), false) ((d.0, n + 1), d.1) (λ ok. cc)
        (set_key_with-Tagged outbound cs key r (n + 1) (lib.policy_of cs) refl)

  recv-CanSend :
      (cs : ℕ) (key : List ℕ) (s : SrtpSession S) (x : S) (r : (SrtpSession S × ℕ) × Bool)
      → s.session ≡ some x
      → s.rtp_auth_tag_len ≤ s.rtcp_auth_tag_len
      → is_srtp_active (params_recv lib cs key s r).0 ≡ true
      → CanSend (params_recv lib cs key s r).0
  unfolding reset_params
  recv-CanSend cs key s x ((q, l), true) e h a = (s, x, refl, refl, e, h)
  recv-CanSend cs key s x ((q, l), false) e h a = cc

  send-CanSend :
      (cs : ℕ) (key : List ℕ) (r : (SrtpSession S × ℕ) × Bool)
      → Tagged r
      → is_srtp_active (params_send lib cs key r).0 ≡ true
      → CanSend (params_send lib cs key r).0
  unfolding reset_params
  send-CanSend cs key ((s, n), true) tagged a =
      let (x, e, h) = tagged refl in
      recv-CanSend cs key s x (set_key lib false cs key (new_session, n)) e h a
  send-CanSend cs key ((s, n), false) tagged a = cc

  install-CanSend :
      (t : SrtpTransport S) (o : Option (ℕ × SrtpKeys))
      → is_srtp_active t ≡ false
      → is_srtp_active (install_params lib t o) ≡ true
      → CanSend (install_params lib t o)
  unfolding set_rtp_params
  install-CanSend t none off a = cc
  install-CanSend t (some (cs, keys)) off a =
      send-CanSend cs keys.recv_key (set_key lib true cs keys.send_key (new_session, t.usage_count))
        (set_key-Tagged true cs keys.send_key t.usage_count) a

  CanSend-if :
      (b : Bool) (t u : SrtpTransport S)
      → is_srtp_active t ≡ false
      → (is_srtp_active u ≡ true → CanSend u)
      → is_srtp_active (if b then t else u) ≡ true
      → CanSend (if b then t else u)
  CanSend-if true t u off h a = cc
  CanSend-if false t u off h a = h a

  setup-CanSend :
      (d : DtlsLink) (t : SrtpTransport S)
      → is_srtp_active t ≡ false
      → is_srtp_active (on_dtls_state lib d dtls_connected t) ≡ true
      → CanSend (on_dtls_state lib d dtls_connected t)
  unfolding on_dtls_state maybe_setup_dtls_srtp
  setup-CanSend d t off a =
      CanSend-if (is_srtp_active t || not (is_dtls_writable d)) t
        (install_params lib t (extract_params d)) off (install-CanSend t (extract_params d) off) a

  -- For suites whose RTP tag is not longer than their RTCP tag: when CONNECTED makes a transport active
  -- that was not, its sending session has a libsrtp session, and each RTP and each RTCP packet is sent as
  -- that session protects it: neither test of the room in the buffer ever refuses one.
  pub on_dtls_state-send :
      (d : DtlsLink) (t : SrtpTransport S) (packet : List ℕ)
      → is_srtp_active t ≡ false
      → is_srtp_active (on_dtls_state lib d dtls_connected t) ≡ true
      → (s : SrtpSession S) × (x : S) × ((on_dtls_state lib d dtls_connected t).send_session
          ≡ some s)
        × (s.session ≡ some x)
        × (send_rtp lib packet (on_dtls_state lib d dtls_connected t)
            ≡ sent_by
                (on_dtls_state lib d dtls_connected t)
                (called s (lib.protect_rtp_of x packet)))
        × (send_rtcp lib packet (on_dtls_state lib d dtls_connected t)
            ≡ sent_by
                (on_dtls_state lib d dtls_connected t)
                (called s (lib.protect_rtcp_of x packet)))
  on_dtls_state-send d t packet off on =
      let u = on_dtls_state lib d dtls_connected t in
      let (s, x, a, e, f, h) = setup-CanSend d t off on in
      (s, x, e, f, rtp_sent lib u s x packet a e f, rtcp_sent lib u s x packet a e f h)
