-- ===== src/Pc/Dtls/Setup.antt =====
-- An adapter is set up, and the channel's signals: each part succeeds, and sends no media.
use xrtc_server.Prelude.{
  ℕ, ◌≡◌, inl, inr, refl, List, Bool, true, false, not, Option, some, none, ap, ◌∙◌, sym,
  Option-cases, ◌==◌,
}
use xrtc_server.Pc.ConnectionState.{
  DtlsTransportState, dtls_new, dtls_connecting, dtls_connected, dtls_closed, dtls_failed,
}
use xrtc_server.Pc.Ssl.{Ssl}
use xrtc_server.Pc.Dtls.{
  DtlsTransport, is_dtls_client_hello_packet, set_writable_state, maybe_start_dtls, with_suites,
  with_digest, finish_setup, setup_with, setup_dtls, on_writable_in, on_writable_state,
  setup_for_hello, catch_client_hello,
}
use xrtc_server.Pc.Dtls.Follows.{
  Follows, Follows-refl, Does, Does-bind, Does-after, Does-equal, Does-if, itself, answered, has,
  with_dtls-Follows, with_hello-Follows, set_writable_state-Follows,
}
use xrtc_server.Pc.Dtls.Handshake.{maybe_start_dtls-Does}

no_adapter-Follows :
    {A : Type 0} (t : DtlsTransport A) → t.dtls ≡ none → Follows t (record t { dtls = none })
no_adapter-Follows t n = record {
  same_media = refl;
  same_certificate = refl;
  same_active = refl;
  whole = λ h. h;
  adapter = λ h. (let z = sym h ∙ ap has n in cc);
  sound = λ h e. (let z = sym (h e) ∙ ap has n in cc);
}

pub with_fingerprint-Follows :
    {A : Type 0} (t : DtlsTransport A) (alg digest : List ℕ)
    → Follows t (record t { remote_fingerprint_value = digest; remote_fingerprint_alg = alg })
with_fingerprint-Follows t alg digest = record {
  same_media = refl;
  same_certificate = refl;
  same_active = refl;
  whole = λ h. h;
  adapter = λ h. h;
  sound = λ h. h;
}

module _ {A : Type 0} (ssl : Ssl A) where
  pub finish_setup-Does :
      (w : Bool) (t : DtlsTransport A) (r : A × Bool) → Does answered t (finish_setup ssl w t r)
  finish_setup-Does w t (a, false) =
      ((record t { dtls = some a }, false), refl, with_dtls-Follows t a)
  finish_setup-Does w t (a, true) =
      Does-bind (maybe_start_dtls ssl w (record t { dtls = some a })) (λ u. some (u, true))
        (Does-after (with_dtls-Follows t a)
          (maybe_start_dtls-Does ssl w (record t { dtls = some a })))
        (λ u k. ((u, true), refl, Follows-refl u))

  pub setup_with-Does :
      (w : Bool) (t : DtlsTransport A) (r : A × Option Bool)
      → Does answered t (setup_with ssl w t r)
  setup_with-Does w t (a, some e) =
      ((record t { dtls = some a }, false), refl, with_dtls-Follows t a)
  setup_with-Does w t (a, none) = finish_setup-Does w t (with_suites ssl t a)

  setup_at :
      (w : Bool) (t : DtlsTransport A) (a : A)
      → ssl.create ≡ some a
      → (t.local_certificate == 0) ≡ false
      → setup_dtls ssl w t
        ≡ setup_with ssl w t (with_digest ssl t (ssl.configure t.local_certificate a))
  unfolding setup_dtls
  setup_at w t a e c = simp (e, c, setup_dtls)

  pub setup_dtls-Does :
      (w : Bool) (t : DtlsTransport A)
      → t.dtls ≡ none
      → (t.local_certificate == 0) ≡ false
      → Does answered t (setup_dtls ssl w t)
  unfolding setup_dtls
  setup_dtls-Does w t n c = elim (Option-cases ssl.create) [
    | inl e ↦ ((record t { dtls = none }, false), simp (e, setup_dtls), no_adapter-Follows t n)
    | inr (a, e) ↦
        Does-equal (setup_at w t a e c)
          (setup_with-Does w t (with_digest ssl t (ssl.configure t.local_certificate a)))
  ]

  on_writable_in-Does :
      (s : DtlsTransportState) (w : Bool) (t : DtlsTransport A)
      → Does itself t (on_writable_in ssl s w t)
  on_writable_in-Does dtls_new w t = maybe_start_dtls-Does ssl w t
  on_writable_in-Does dtls_connecting w t = (t, refl, Follows-refl t)
  on_writable_in-Does dtls_connected w t =
      (set_writable_state w t, refl, set_writable_state-Follows t w)
  on_writable_in-Does dtls_closed w t = (t, refl, Follows-refl t)
  on_writable_in-Does dtls_failed w t = (t, refl, Follows-refl t)

  pub on_writable_state-Does :
      (w : Bool) (t : DtlsTransport A) → Does itself t (on_writable_state ssl w t)
  unfolding on_writable_state
  on_writable_state-Does w t =
      Does-if (not t.dtls_active)
        (λ e. (set_writable_state w t, refl, set_writable_state-Follows t w))
        (λ e. on_writable_in-Does t.dtls_state w t)

  setup_for_hello-Does :
      (w : Bool) (t : DtlsTransport A) (o : Option A)
      → t.dtls ≡ o
      → Does itself t (setup_for_hello ssl w t o)
  setup_for_hello-Does w t (some a) e = (t, refl, Follows-refl t)
  setup_for_hello-Does w t none e =
      Does-if (t.local_certificate == 0) (λ c. (t, refl, Follows-refl t))
        (λ c.
          Does-bind (setup_dtls ssl w t) (λ r. some r.0) (setup_dtls-Does w t e c)
            (λ r k. (r.0, refl, Follows-refl r.0)))

  pub catch_client_hello-Does :
      (w : Bool) (buf : List ℕ) (t : DtlsTransport A)
      → Does itself t (catch_client_hello ssl w buf t)
  unfolding catch_client_hello
  catch_client_hello-Does w buf t =
      Does-if (is_dtls_client_hello_packet buf)
        (λ e.
          Does-after (with_hello-Follows t buf)
            (setup_for_hello-Does w (record t { catched_client_hello = buf }) t.dtls refl))
        (λ e. (t, refl, Follows-refl t))
