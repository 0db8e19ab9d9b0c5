-- ===== src/Pc/Srtp.antt =====
-- pc/srtp_session.cpp, pc/srtp_transport.cpp and pc/dtls_srtp_transport.cpp: the sessions that encrypt
-- media, with keys from the DTLS handshake. libsrtp is a parameter. The usage count of libsrtp, which is
-- global in the program, is a field of the transport. Extension ids, which nothing reads, are left out.
pub mod Keys
pub mod Packets
pub mod Sessions
use xrtc_server.Prelude.{
  ℕ, ◌+◌, ◌-◌, ◌*◌, List, [], ◌∷◌, ◌++◌, Bool, true, false, not, ◌&&◌, ◌||◌, Option, some, none,
  if◌then◌else◌, ◌==◌, ltb, length, take, drop,
}
use xrtc_server.Pc.ConnectionState.{
  DtlsTransportState, dtls_new, dtls_connecting, dtls_connected, dtls_closed, dtls_failed,
}
use xrtc_server.Rtp.{RtpPacketType, k_rtp, k_rtcp, k_unknown, infer_rtp_packet_type}

-- What a crypto profile stands for.
pub record Policy : Type 0 where
  pub cipher_key_len : ℕ
  pub rtp_auth_tag_len : ℕ
  pub rtcp_auth_tag_len : ℕ

pub record Libsrtp (S : Type 0) : Type 0 where
  -- srtp_crypto_policy_set_from_profile_for_rtp and _for_rtcp; `none` if one fails.
  pub policy_of : ℕ → Option Policy
  -- srtp_init and srtp_install_event_handler, whether both are ok.
  pub init_ok : Bool
  -- srtp_create and srtp_update, by whether the session is outbound, with the key.
  pub srtp_create : Bool → ℕ → List ℕ → Option S
  pub srtp_update : Bool → ℕ → List ℕ → S → Option S
  -- srtp_protect and its kin: the session behind it, and what stands in the buffer.
  pub protect_rtp_of : S → List ℕ → S × Option (List ℕ)
  pub protect_rtcp_of : S → List ℕ → S × Option (List ℕ)
  pub unprotect_rtp_of : S → List ℕ → S × Option (List ℕ)
  pub unprotect_rtcp_of : S → List ℕ → S × Option (List ℕ)

pub record SrtpSession (S : Type 0) : Type 0 where
  pub session : Option S
  pub inited : Bool
  pub rtp_auth_tag_len : ℕ
  pub rtcp_auth_tag_len : ℕ

pub record SrtpTransport (S : Type 0) : Type 0 where
  pub send_session : Option (SrtpSession S)
  pub recv_session : Option (SrtpSession S)
  pub usage_count : ℕ

abbrev pub new_session : {S : Type 0} → SrtpSession S
new_session = record { session = none; inited = false; rtp_auth_tag_len = 0; rtcp_auth_tag_len = 0 }

-- SrtpSession::~SrtpSession, by the count that it leaves.
abbrev pub released : {S : Type 0} → Option (SrtpSession S) → ℕ → ℕ
released none n = n
released (some s) n = if s.inited then n - 1 else n

-- SrtpTransport::reset_params
unfoldable pub reset_params : {S : Type 0} → SrtpTransport S → SrtpTransport S
reset_params t = record {
  send_session = none;
  recv_session = none;
  usage_count = released t.recv_session (released t.send_session t.usage_count);
}

abbrev pub both_there : {S : Type 0} → Option S → Option S → Bool
both_there none s = false
both_there (some r) none = false
both_there (some r) (some s) = true

abbrev pub is_srtp_active : {S : Type 0} → SrtpTransport S → Bool
is_srtp_active t = both_there t.recv_session t.send_session

-- The keys of _extract_params, from the exported bytes.
pub record SrtpKeys : Type 0 where
  pub send_key : List ℕ
  pub recv_key : List ℕ

-- `memcpy` of `n` bytes at `offset`.
abbrev pub slice : ℕ → ℕ → List ℕ → List ℕ
slice offset n buffer = take n (drop offset buffer)

unfoldable pub split_keys : ℕ → ℕ → List ℕ → SrtpKeys
split_keys key_len salt_len buffer = record {
  send_key = slice key_len key_len buffer ++ slice (2 * key_len + salt_len) salt_len buffer;
  recv_key = slice 0 key_len buffer ++ slice (2 * key_len) salt_len buffer;
}

-- What a transport sees of its DtlsTransport: writable, active, the negotiated suite, and the export of
-- keying material of a length; and whether the RTCP transport, if there is one, is writable.
pub record DtlsLink : Type 0 where
  pub writable : Bool
  pub dtls_active : Bool
  pub crypto_suite : Option ℕ
  pub key_and_salt_lengths : ℕ → Option (ℕ × ℕ)
  pub export_keying_material : ℕ → Option (List ℕ)
  pub rtcp_writable : Option Bool

abbrev pub exported : DtlsLink → ℕ → Option (ℕ × ℕ) → Option (ℕ × SrtpKeys)
exported d cs none = none
exported d cs (some (key_len, salt_len)) =
    elim (d.export_keying_material (2 * (key_len + salt_len))) [
      | none ↦ none
      | some buffer ↦ some (cs, split_keys key_len salt_len buffer)
    ]

unfoldable pub extract_params : DtlsLink → Option (ℕ × SrtpKeys)
unfolding split_keys
extract_params d =
    if not d.dtls_active
    then none
    else elim d.crypto_suite [ none ↦ none | some cs ↦ exported d cs (d.key_and_salt_lengths cs) ]

abbrev pub is_dtls_writable : DtlsLink → Bool
is_dtls_writable d = d.writable && elim d.rtcp_writable [ none ↦ true | some w ↦ w ]

module _ {S : Type 0} (lib : Libsrtp S) where
  abbrev pub installed : SrtpSession S → Policy → Option S → SrtpSession S × Bool
  installed s p none = (s, false)
  installed s p (some x) = (
    record {
      session = some x;
      inited = s.inited;
      rtp_auth_tag_len = p.rtp_auth_tag_len;
      rtcp_auth_tag_len = p.rtcp_auth_tag_len;
    },
    true,
  )

  abbrev pub create_or_update : Bool → ℕ → List ℕ → Option S → Option S
  create_or_update outbound cs key none = lib.srtp_create outbound cs key
  create_or_update outbound cs key (some x) = lib.srtp_update outbound cs key x

  abbrev pub set_key_with : Bool → ℕ → List ℕ → SrtpSession S → Option Policy → SrtpSession S × Bool
  set_key_with outbound cs key s none = (s, false)
  set_key_with outbound cs key s (some p) =
      if not (length key == p.cipher_key_len)
      then (s, false)
      else installed s p (create_or_update outbound cs key s.session)

  -- SrtpSession::_do_set_key
  unfoldable pub do_set_key : Bool → ℕ → List ℕ → SrtpSession S → SrtpSession S × Bool
  do_set_key outbound cs key s = set_key_with outbound cs key s (lib.policy_of cs)

  -- SrtpSession::_set_key, with the usage count.
  unfoldable pub set_key : Bool → ℕ → List ℕ → SrtpSession S × ℕ → (SrtpSession S × ℕ) × Bool
  unfolding do_set_key
  set_key outbound cs key (s, n) = elim s.session [
    | some x ↦ ((s, n), false)
    | none ↦
        if n == 0 && not lib.init_ok
        then ((s, n), false)
        else let r = do_set_key outbound cs key (record s { inited = true }) in ((r.0, n + 1), r.1)
  ]

  abbrev pub params_recv :
      ℕ → List ℕ → SrtpSession S → (SrtpSession S × ℕ) × Bool → SrtpTransport S × Bool
  params_recv cs recv_key s ((r, n), ok) =
      let t : SrtpTransport S = record {
        send_session = some s;
        recv_session = some r;
        usage_count = n;
      } in
      if ok then (t, true) else (reset_params t, false)

  abbrev pub params_send : ℕ → List ℕ → (SrtpSession S × ℕ) × Bool → SrtpTransport S × Bool
  params_send cs recv_key ((s, n), ok) =
      if ok then params_recv cs recv_key s (set_key false cs recv_key (new_session, n)) else (
        reset_params
            (record { send_session = some s; recv_session = some new_session; usage_count = n }),
        false,
      )

  -- SrtpTransport::set_rtp_params where there is no session yet, its one use.
  unfoldable pub set_rtp_params : ℕ → SrtpKeys → SrtpTransport S → SrtpTransport S × Bool
  unfolding set_key reset_params
  set_rtp_params cs keys t =
      params_send cs keys.recv_key (set_key true cs keys.send_key (new_session, t.usage_count))

  abbrev pub install_params : SrtpTransport S → Option (ℕ × SrtpKeys) → SrtpTransport S
  install_params t none = t
  install_params t (some (cs, keys)) = (set_rtp_params cs keys t).0

  -- DtlsSrtpTransport::_maybe_setup_dtls_srtp, with _setup_dtls_srtp.
  unfoldable pub maybe_setup_dtls_srtp : DtlsLink → SrtpTransport S → SrtpTransport S
  unfolding extract_params set_rtp_params
  maybe_setup_dtls_srtp d t =
      if is_srtp_active t || not (is_dtls_writable d)
      then t
      else install_params t (extract_params d)

  -- DtlsSrtpTransport::_on_dtls_state
  unfoldable pub on_dtls_state : DtlsLink → DtlsTransportState → SrtpTransport S → SrtpTransport S
  unfolding maybe_setup_dtls_srtp reset_params
  on_dtls_state d dtls_connected t = maybe_setup_dtls_srtp d t
  on_dtls_state d dtls_new t = reset_params t
  on_dtls_state d dtls_connecting t = reset_params t
  on_dtls_state d dtls_closed t = reset_params t
  on_dtls_state d dtls_failed t = reset_params t
