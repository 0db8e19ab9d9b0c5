-- ===== src/Tests/Srtp.antt =====
-- A pair of sessions with the keys of a short handshake.
use xrtc_server.Prelude.{ℕ, ◌≡◌, ◌≢◌, ap, arith, inl, refl, List, [], ◌∷◌, true, some, none}
use xrtc_server.Pc.ConnectionState.{dtls_connected}
use xrtc_server.Pc.Srtp.{
  Libsrtp, SrtpSession, SrtpTransport, DtlsLink, is_srtp_active, extract_params, on_dtls_state,
}
use xrtc_server.Pc.Srtp.Packets.{called, sent_by, send_rtp, send_rtcp}
use xrtc_server.Pc.Srtp.Packets.Room.{TagsOrdered, on_dtls_state-send}
use xrtc_server.Pc.Srtp.Keys.{extract_params_lem}
use xrtc_server.Pc.Srtp.Sessions.{IsPaired, on_dtls_state-IsPaired}

-- A session is its key; nothing is encrypted.
abbrev lib : Libsrtp (List ℕ)
lib = record {
  policy_of =
      λ cs. some (record { cipher_key_len = 3; rtp_auth_tag_len = 10; rtcp_auth_tag_len = 10 });
  init_ok = true;
  srtp_create = λ outbound cs key. some key;
  srtp_update = λ outbound cs key s. some key;
  protect_rtp_of = λ s p. (s, some p);
  protect_rtcp_of = λ s p. (s, some p);
  unprotect_rtp_of = λ s p. (s, some p);
  unprotect_rtcp_of = λ s p. (s, some p);
}

-- Keys of two bytes and salts of one.
abbrev link : DtlsLink
link = record {
  writable = true;
  dtls_active = true;
  crypto_suite = some 1;
  key_and_salt_lengths = λ cs. some (2, 1);
  export_keying_material = λ n. some (1 ∷ 2 ∷ 3 ∷ 4 ∷ 5 ∷ 6 ∷ []);
  rtcp_writable = none;
}

extract_params_example :
    extract_params link ≡ some (1, record { send_key = 3 ∷ 4 ∷ 6 ∷ []; recv_key = 1 ∷ 2 ∷ 5 ∷ [] })
extract_params_example =
    extract_params_lem link 1 2 1 (1 ∷ 2 ∷ []) (3 ∷ 4 ∷ []) (5 ∷ []) (6 ∷ []) refl refl refl refl
      refl refl refl refl

abbrev no_sessions : SrtpTransport (List ℕ)
no_sessions = record { send_session = none; recv_session = none; usage_count = 4 }

on_dtls_state-IsPaired_example :
    IsPaired 4 (on_dtls_state lib link dtls_connected no_sessions)
    × (dtls_connected ≢ dtls_connected
        → (on_dtls_state lib link dtls_connected no_sessions).usage_count ≡ 4)
on_dtls_state-IsPaired_example =
    on_dtls_state-IsPaired lib 4 link dtls_connected no_sessions (inl (refl, refl, refl))

set_up : (on_dtls_state lib link dtls_connected no_sessions).usage_count ≡ 6
unfolding on_dtls_state
set_up = refl

-- libsrtp with a suite whose RTCP tag is the longer.
abbrev short_lib : Libsrtp (List ℕ)
short_lib = record lib {
  policy_of =
      λ cs. some (record { cipher_key_len = 3; rtp_auth_tag_len = 4; rtcp_auth_tag_len = 10 });
}

short_ordered : TagsOrdered short_lib
short_ordered cs p e =
    let f = ap {B = ℕ} (λ o. elim o [ none ↦ 0 | some q ↦ q.rtp_auth_tag_len ]) e in
    let g = ap {B = ℕ} (λ o. elim o [ none ↦ 0 | some q ↦ q.rtcp_auth_tag_len ]) e in
    omega (arith, f, g)

abbrev connected : SrtpTransport (List ℕ)
connected = on_dtls_state short_lib link dtls_connected no_sessions

connected_active : is_srtp_active connected ≡ true
unfolding on_dtls_state
connected_active = refl

on_dtls_state-send_example :
    (s : SrtpSession (List ℕ)) × (x : List ℕ) × (connected.send_session ≡ some s)
    × (s.session ≡ some x)
    × (send_rtp short_lib (128 ∷ []) connected ≡ sent_by connected (called s (x, some (128 ∷ []))))
    × (send_rtcp short_lib (128 ∷ []) connected ≡ sent_by connected (called s (x, some (128 ∷ []))))
on_dtls_state-send_example =
    on_dtls_state-send short_lib short_ordered link no_sessions (128 ∷ []) refl connected_active
