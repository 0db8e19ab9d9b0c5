-- ===== src/Pc/Dtls/Calls.antt =====
-- One call of a transport: it uses no null pointer, and passes on what it should.
use mathlib.Core.List.{append-nil}
use xrtc_server.Prelude.{
  ℕ, ◌≡◌, inl, inr, refl, List, [], ◌∷◌, ◌++◌, Bool, true, false, not, ◌&&◌, arith, Option, some,
  none, ap, ◌∙◌, sym, subst, Bool-cases, if◌then◌else◌, ◌==◌, same_bytes,
}
use xrtc_server.Pc.ConnectionState.{
  DtlsTransportState, dtls_new, dtls_connecting, dtls_connected, dtls_closed, dtls_failed,
  dtls_index,
}
use xrtc_server.Pc.Ssl.{Ssl}
use xrtc_server.Pc.Dtls.{
  DtlsTransport, read_packet_signal, signal, is_dtls_packet, is_rtp_packet, set_dtls_state,
  set_receiving, handle_dtls_packet, failed_unless, setup_dtls, on_packet, on_read_in,
  on_read_packet, set_local_certificate, digest_set, rebuilt, setup_or_fail, apply_fingerprint,
  set_remote_fingerprint, is_empty, ◌>>=◌,
}
use xrtc_server.Pc.Dtls.Follows.{
  Follows-refl, Follows-trans, Does, Does-bind, itself, answered, started, media, with_dtls-Follows,
  set_dtls_state-Follows, set_writable_state-Follows, set_receiving-Follows,
}
use xrtc_server.Pc.Dtls.Handshake.{
  on_dtls_event-Does, handle_dtls_packet-Does, failed_unless-Follows,
}
use xrtc_server.Pc.Dtls.Setup.{
  setup_dtls-Does, on_writable_state-Does, catch_client_hello-Does, with_fingerprint-Follows,
}
use xrtc_server.Pc.Dtls.Ready.{
  call, IsReady, channel_writable, channel_receiving, packet, certificate, fingerprint, event, Call,
  CanCome, passes, Ends, not_connected, Follows-IsReady, Does-Ends, Ends-if, quiet, stays,
  passed_on, set_dtls_state_new, dtls-set_dtls_state, dtls-set_writable_state,
  state-set_writable_state,
}

module _ {A : Type 0} (ssl : Ssl A) where
  set_local_certificate_active :
      (c : ℕ) (t : DtlsTransport A) → t.dtls_active ≡ true → (set_local_certificate ssl c t).0 ≡ t
  unfolding set_local_certificate
  set_local_certificate_active c t a = simp (a, set_local_certificate)

  set_local_certificate_null :
      (c : ℕ) (t : DtlsTransport A)
      → t.dtls_active ≡ false
      → (c == 0) ≡ true
      → (set_local_certificate ssl c t).0 ≡ t
  unfolding set_local_certificate
  set_local_certificate_null c t a z = simp (a, z, set_local_certificate)

  set_local_certificate_new :
      (c : ℕ) (t : DtlsTransport A)
      → t.dtls_active ≡ false
      → (c == 0) ≡ false
      → (set_local_certificate ssl c t).0 ≡ record t { local_certificate = c; dtls_active = true }
  unfolding set_local_certificate
  set_local_certificate_new c t a z = simp (a, z, set_local_certificate)

  on_packet-Ends :
      (w : Bool) (buf : List ℕ) (ts : ℕ) (t : DtlsTransport A)
      → IsReady t
      → started t.dtls_state ≡ true
      → Ends itself t (passes (packet w buf ts) t) (on_packet ssl buf ts t)
  unfolding on_packet
  on_packet-Ends w buf ts t r run =
      let connected = dtls_index t.dtls_state == dtls_index dtls_connected in
      let d = is_dtls_packet buf in
      let m = is_rtp_packet buf in
      let more = passes (packet w buf ts) t in
      let c = connected && (not d && m) in
      Ends-if t more d
        (λ e.
          quiet t c (buf, ts) (ground arith)
            (Does-Ends r (
              Does-bind (handle_dtls_packet ssl buf t) (λ x. some x.0)
                (handle_dtls_packet-Does ssl buf t (r.sound run))
                (λ x k. (x.0, refl, Follows-refl x.0)))))
        (λ e.
          Ends-if t more (not connected) (λ f. quiet t c (buf, ts) (ground arith) (stays t r))
            (λ f.
              Ends-if t more (not m) (λ g. quiet t c (buf, ts) (ground arith) (stays t r))
                (λ g.
                  (let yes_ : c ≡ true = ground arith in
                    subst
                      (λ x.
                        Ends itself t (if x then (buf, ts) ∷ [] else [])
                          (some (signal (read_packet_signal buf ts) t)))
                      (sym yes_) (passed_on buf ts t r)))))

  on_read_in-Ends :
      (s : DtlsTransportState) (w : Bool) (buf : List ℕ) (ts : ℕ) (t : DtlsTransport A)
      → IsReady t
      → t.dtls_state ≡ s
      → Ends itself t (passes (packet w buf ts) t) (on_read_in ssl s w buf ts t)
  on_read_in-Ends dtls_new w buf ts t r e =
      quiet t
        (dtls_index t.dtls_state == dtls_index dtls_connected
          && (not (is_dtls_packet buf) && is_rtp_packet buf))
        (buf, ts) (not_connected t.dtls_state dtls_new _ e refl)
        (Does-Ends r (catch_client_hello-Does ssl w buf t))
  on_read_in-Ends dtls_connecting w buf ts t r e = on_packet-Ends w buf ts t r (ap started e)
  on_read_in-Ends dtls_connected w buf ts t r e = on_packet-Ends w buf ts t r (ap started e)
  on_read_in-Ends dtls_closed w buf ts t r e =
      quiet t
        (dtls_index t.dtls_state == dtls_index dtls_connected
          && (not (is_dtls_packet buf) && is_rtp_packet buf))
        (buf, ts) (not_connected t.dtls_state dtls_closed _ e refl) (stays t r)
  on_read_in-Ends dtls_failed w buf ts t r e =
      quiet t
        (dtls_index t.dtls_state == dtls_index dtls_connected
          && (not (is_dtls_packet buf) && is_rtp_packet buf))
        (buf, ts) (not_connected t.dtls_state dtls_failed _ e refl) (stays t r)

  certificate-Ends :
      (c : ℕ) (t : DtlsTransport A)
      → IsReady t
      → Ends itself t [] (some (set_local_certificate ssl c t).0)
  certificate-Ends c t r = elim (Bool-cases t.dtls_active) [
    | inl a ↦
        (t, ap some (set_local_certificate_active c t a), r, sym (append-nil (media t.signals)))
    | inr a ↦ elim (Bool-cases (c == 0)) [
      | inl z ↦
          (t, ap some (set_local_certificate_null c t a z), r, sym (append-nil (media t.signals)))
      | inr z ↦ (
        record t { local_certificate = c; dtls_active = true },
        ap some (set_local_certificate_new c t a z),
        record { sound = r.sound; certified = λ x. z; whole = r.whole },
        sym (append-nil (media t.signals)),
      )
    ]
  ]

  setup_or_fail-Does :
      (w : Bool) (t : DtlsTransport A)
      → t.dtls ≡ none
      → (t.local_certificate == 0) ≡ false
      → Does answered t (setup_or_fail ssl w t)
  setup_or_fail-Does w t n c =
      Does-bind (setup_dtls ssl w t) (λ r. some (failed_unless ssl r.1 r.0, r.1))
        (setup_dtls-Does ssl w t n c)
        (λ r k. ((failed_unless ssl r.1 r.0, r.1), refl, failed_unless-Follows ssl r.1 r.0))

  digest_set-Does :
      (t : DtlsTransport A) (r : A × Option Bool) → Does answered t (digest_set ssl t r)
  digest_set-Does t (a, none) = ((record t { dtls = some a }, true), refl, with_dtls-Follows t a)
  digest_set-Does t (a, some b) =
      let u : DtlsTransport A = record t { dtls = some a } in
      (
        (set_dtls_state dtls_failed u, b),
        refl,
        Follows-trans (with_dtls-Follows t a) (set_dtls_state-Follows u dtls_failed (λ e. cc)),
      )

  rebuilt-IsReady :
      (t : DtlsTransport A)
      → IsReady t
      → IsReady (rebuilt ssl t)
        × ((rebuilt ssl t).dtls ≡ none)
        × ((rebuilt ssl t).local_certificate ≡ t.local_certificate)
        × (media (rebuilt ssl t).signals ≡ media t.signals)
  rebuilt-IsReady t r =
      let v : DtlsTransport A = record t { dtls = none } in
      let x = set_dtls_state dtls_new v in
      let f =
        Follows-trans (set_dtls_state-Follows v dtls_new (λ e. cc))
          (set_writable_state-Follows x false) in
      let off = ap started (state-set_writable_state false x) ∙ set_dtls_state_new v in
      (
        record {
          sound = λ e. (let z = sym e ∙ off in cc);
          certified =
              λ a. ap (λ c. c == 0) f.same_certificate ∙ r.certified (sym f.same_active ∙ a);
          whole = f.whole r.whole;
        },
        dtls-set_writable_state false x ∙ dtls-set_dtls_state dtls_new v,
        f.same_certificate,
        f.same_media,
      )

  apply_fingerprint-Ends :
      (w change : Bool) (t : DtlsTransport A) (o : Option A)
      → t.dtls ≡ o
      → IsReady t
      → (t.local_certificate == 0) ≡ false
      → Ends answered t [] (apply_fingerprint ssl w change t o)
  apply_fingerprint-Ends w change t none e r c = Does-Ends r (setup_or_fail-Does w t e c)
  apply_fingerprint-Ends w change t (some a) e r c =
      let (r', n, same, m) = rebuilt-IsReady t r in
      let (x, goes, ready, more) =
        Does-Ends r' (setup_or_fail-Does w (rebuilt ssl t) n (ap (λ c. c == 0) same ∙ c)) in
      Ends-if t [] (not change)
        (λ e. Does-Ends r (
          digest_set-Does t (
            ssl.set_peer_certificate_digest t.remote_fingerprint_alg t.remote_fingerprint_value a)))
        (λ e. (x, goes, ready, more ∙ ap (λ z. z ++ []) m))

  fingerprint-Ends :
      (w : Bool) (alg digest : List ℕ) (t : DtlsTransport A)
      → IsReady t
      → Ends answered t [] (set_remote_fingerprint ssl w alg digest t)
  unfolding set_remote_fingerprint
  fingerprint-Ends w alg digest t r =
      let same = sym (append-nil (media t.signals)) in
      Ends-if t [] (t.dtls_active && same_bytes t.remote_fingerprint_value digest)
        (λ e. ((t, true), refl, r, same))
        (λ e.
          Ends-if t [] (is_empty alg)
            (λ f. (
              (record t { dtls_active = false }, false),
              refl,
              record { sound = r.sound; certified = λ x. cc; whole = r.whole },
              same,
            ))
            (λ f.
              Ends-if t [] (not t.dtls_active) (λ g. ((t, false), refl, r, same))
                (λ g.
                  apply_fingerprint-Ends w (not (is_empty t.remote_fingerprint_alg))
                    (record t { remote_fingerprint_value = digest; remote_fingerprint_alg = alg })
                    t.dtls refl (Follows-IsReady (with_fingerprint-Follows t alg digest) r)
                    (r.certified (ground arith)))))

  -- A call that can come in a ready transport succeeds, the transport is ready again, and the media are
  -- those that `passes` names.
  pub call-IsReady :
      (c : Call) (t : DtlsTransport A)
      → IsReady t
      → CanCome c t
      → (u : DtlsTransport A) × (call ssl c t ≡ some u)
        × IsReady u
        × (media u.signals ≡ media t.signals ++ passes c t)
  unfolding call on_read_packet
  call-IsReady (channel_writable w) t r can = Does-Ends r (on_writable_state-Does ssl w t)
  call-IsReady (channel_receiving b) t r can =
      Does-Ends r (set_receiving b t, refl, set_receiving-Follows t b)
  call-IsReady (packet w buf ts) t r can = on_read_in-Ends t.dtls_state w buf ts t r refl
  call-IsReady (certificate c) t r can = certificate-Ends c t r
  call-IsReady (fingerprint w alg digest) t r can =
      let (x, e, ready, m) = fingerprint-Ends w alg digest t r in
      (x.0, ap (λ z. z >>= λ r. some r.0) e, ready, m)
  call-IsReady (event e) t r can = Does-Ends r (on_dtls_event-Does ssl e t can)
