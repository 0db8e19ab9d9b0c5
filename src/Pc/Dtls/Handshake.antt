-- ===== src/Pc/Dtls/Handshake.antt =====
-- The handshake with an adapter that is there: each part succeeds, and sends no media.
use xrtc_server.Prelude.{
  ℕ, suc, zero, ◌<◌, ◌≡◌, inl, inr, refl, List, [], ◌∷◌, Bool, true, false, not, arith, length,
  Option, some, none, Bool-cases, Option-cases, if◌then◌else◌, ◌==◌,
}
use xrtc_server.Pc.ConnectionState.{dtls_connecting, dtls_connected, dtls_closed, dtls_failed}
use xrtc_server.Pc.Ssl.{Ssl, StreamResult, sr_error, sr_success, sr_block, sr_eos, DtlsEvent}
use xrtc_server.Pc.Dtls.{
  DtlsTransport, handed_over, signal, whole_records, set_dtls_state, set_writable_state,
  closed_by_remote, read_loop, read_end, read_all, event_opens, event_closes, on_dtls_event,
  on_dtls_events, handle_dtls_packet, failed_unless, replay_client_hello, maybe_start_dtls,
  is_empty, ◌>>=◌,
}
use xrtc_server.Pc.Dtls.Follows.{
  Follows, Follows-refl, Follows-trans, Follows-if, Does, Does-bind, Does-after, Does-if,
  Does-equal, itself, answered, has, started, signal-Follows, with_dtls-Follows, with_hello-Follows,
  set_dtls_state-Follows, set_writable_state-Follows, closed_by_remote-Follows,
}

read_end-Does :
    {A : Type 0} (r : StreamResult) (u : DtlsTransport A) (rest : Option (DtlsTransport A))
    → (r ≡ sr_success → Does itself u rest)
    → Does itself u (read_end r u rest)
read_end-Does sr_error u rest h = (closed_by_remote u, refl, closed_by_remote-Follows u)
read_end-Does sr_success u rest h = h refl
read_end-Does sr_block u rest h = (u, refl, Follows-refl u)
read_end-Does sr_eos u rest h = (closed_by_remote u, refl, closed_by_remote-Follows u)

has-some : {A : Type 0} (o : Option A) → has o ≡ true → (a : A) × (o ≡ some a)
has-some none e = cc
has-some (some a) e = (a, refl)

module _ {A : Type 0} (ssl : Ssl A) where
  read_loop_at :
      (fuel : ℕ) (t : DtlsTransport A) (a : A)
      → t.dtls ≡ some a
      → read_loop ssl (suc fuel) t
        ≡ read_end
            (ssl.read a).1
            (record t { dtls = some (ssl.read a).0 })
            (read_loop ssl fuel (record t { dtls = some (ssl.read a).0 }))
  unfolding read_loop
  read_loop_at fuel t a e = rw (e, read_loop)

  read_all_at :
      (t : DtlsTransport A) (a : A)
      → t.dtls ≡ some a
      → read_all ssl t ≡ read_loop ssl (suc (ssl.pending a)) t
  unfolding read_all
  read_all_at t a e = simp (e, read_all)

  -- The adapter has only so many messages: the loop ends.
  read_loop-Does :
      (fuel : ℕ) (t : DtlsTransport A) (a : A)
      → t.dtls ≡ some a
      → ssl.pending a < fuel
      → Does itself t (read_loop ssl fuel t)
  read_loop-Does zero t a e l = absurd (omega arith)
  read_loop-Does (suc fuel) t a e l =
      let u : DtlsTransport A = record t { dtls = some (ssl.read a).0 } in
      Does-equal (read_loop_at fuel t a e) (
        Does-after (with_dtls-Follows t (ssl.read a).0) (
          read_end-Does (ssl.read a).1 u (read_loop ssl fuel u) (λ s.
            read_loop-Does fuel u (ssl.read a).0 refl (omega (arith, l, ssl.pending-read a s)))))

  read_all-Does : (t : DtlsTransport A) → has t.dtls ≡ true → Does itself t (read_all ssl t)
  read_all-Does t h =
      let (a, e) = has-some t.dtls h in
      Does-equal (read_all_at t a e) (read_loop-Does (suc (ssl.pending a)) t a e (omega arith))

  event_opens-Follows :
      (e : DtlsEvent) (t : DtlsTransport A) → has t.dtls ≡ true → Follows t (event_opens ssl e t)
  event_opens-Follows e t h =
      let f = set_writable_state-Follows t true in
      Follows-if e.se_open
        (Follows-trans f
          (set_dtls_state-Follows (set_writable_state true t) dtls_connected (λ x. f.adapter h)))
        (Follows-refl t)

  not_started : (b : Bool) → started (if b then dtls_closed else dtls_failed) ≡ false
  not_started true = refl
  not_started false = refl

  event_closes-Follows : (e : DtlsEvent) (t : DtlsTransport A) → Follows t (event_closes ssl e t)
  event_closes-Follows e t =
      let n = not_started (e.error == 0) in
      Follows-if e.se_close
        (Follows-trans (set_writable_state-Follows t false) (
          set_dtls_state-Follows (set_writable_state false t)
            (if e.error == 0 then dtls_closed else dtls_failed) (λ x. cc)))
        (Follows-refl t)

  pub on_dtls_event-Does :
      (e : DtlsEvent) (t : DtlsTransport A)
      → has t.dtls ≡ true
      → Does itself t (on_dtls_event ssl e t)
  unfolding on_dtls_event
  on_dtls_event-Does e t h =
      let f = event_opens-Follows e t h in
      Does-bind
        (if e.se_read then read_all ssl (event_opens ssl e t) else some (event_opens ssl e t))
        (λ u. some (event_closes ssl e u))
        (Does-after f (
          Does-if e.se_read (λ x. read_all-Does (event_opens ssl e t) (f.adapter h))
            (λ x. (event_opens ssl e t, refl, Follows-refl (event_opens ssl e t)))))
        (λ u k. (event_closes ssl e u, refl, event_closes-Follows e u))

  pub on_dtls_events-Does :
      (es : List DtlsEvent) (t : DtlsTransport A)
      → has t.dtls ≡ true
      → Does itself t (on_dtls_events ssl es t)
  unfolding on_dtls_events
  on_dtls_events-Does [] t h = (t, refl, Follows-refl t)
  on_dtls_events-Does (e ∷ es) t h =
      Does-bind (on_dtls_event ssl e t) (on_dtls_events ssl es) (on_dtls_event-Does e t h)
        (λ u k. on_dtls_events-Does es u (k.adapter h))

  handle_at :
      (d : List ℕ) (t : DtlsTransport A) (a : A)
      → t.dtls ≡ some a
      → whole_records (length d) d ≡ true
      → handle_dtls_packet ssl d t ≡ (
          on_dtls_events ssl
            (ssl.on_received_packet d a).1
            (signal (handed_over d) (record t { dtls = some (ssl.on_received_packet d a).0 }))
          >>= λ u. some (u, true))
  unfolding handle_dtls_packet
  handle_at d t a e w = simp (e, w, handle_dtls_packet)

  pub handle_dtls_packet-Does :
      (d : List ℕ) (t : DtlsTransport A)
      → has t.dtls ≡ true
      → Does answered t (handle_dtls_packet ssl d t)
  unfolding handle_dtls_packet
  handle_dtls_packet-Does d t h = elim (Bool-cases (whole_records (length d) d)) [
    | inl w ↦
        let (a, e) = has-some t.dtls h in
        let u : DtlsTransport A = record t { dtls = some (ssl.on_received_packet d a).0 } in
        Does-equal (handle_at d t a e w) (
          Does-bind (on_dtls_events ssl (ssl.on_received_packet d a).1 (signal (handed_over d) u))
            (λ u. some (u, true))
            (Does-after
              (Follows-trans (with_dtls-Follows t (ssl.on_received_packet d a).0)
                (signal-Follows u (handed_over d) refl w))
              (on_dtls_events-Does (ssl.on_received_packet d a).1 (signal (handed_over d) u) refl))
            (λ u k. ((u, true), refl, Follows-refl u)))
    | inr w ↦ ((t, false), simp (w, handle_dtls_packet), Follows-refl t)
  ]

  pub failed_unless-Follows : (b : Bool) (t : DtlsTransport A) → Follows t (failed_unless ssl b t)
  failed_unless-Follows b t =
      Follows-if b (Follows-refl t) (set_dtls_state-Follows t dtls_failed (λ x. cc))

  replay_client_hello-Does :
      (t : DtlsTransport A) → has t.dtls ≡ true → Does itself t (replay_client_hello ssl t)
  unfolding replay_client_hello
  replay_client_hello-Does t h =
      let hello = t.catched_client_hello in
      Does-if (is_empty hello) (λ e. (t, refl, Follows-refl t))
        (λ e.
          Does-bind (handle_dtls_packet ssl hello t)
            (λ r. some (record (failed_unless ssl r.1 r.0) { catched_client_hello = [] }))
            (handle_dtls_packet-Does hello t h)
            (λ r k. (
              record (failed_unless ssl r.1 r.0) { catched_client_hello = [] },
              refl,
              Follows-trans (failed_unless-Follows r.1 r.0)
                  (with_hello-Follows (failed_unless ssl r.1 r.0) []),
            )))

  start_at :
      (w : Bool) (t : DtlsTransport A) (a : A)
      → t.dtls ≡ some a
      → maybe_start_dtls ssl w t ≡ (
          if not w
          then some t
          else if not ((ssl.start_ssl a).1 == 0)
          then some (set_dtls_state dtls_failed (record t { dtls = some (ssl.start_ssl a).0 }))
          else replay_client_hello ssl
              (set_dtls_state dtls_connecting (record t { dtls = some (ssl.start_ssl a).0 })))
  unfolding maybe_start_dtls
  start_at w t a e = simp (e, maybe_start_dtls)

  no_start : (w : Bool) (t : DtlsTransport A) → t.dtls ≡ none → maybe_start_dtls ssl w t ≡ some t
  unfolding maybe_start_dtls
  no_start w t e = simp (e, maybe_start_dtls)

  pub maybe_start_dtls-Does :
      (w : Bool) (t : DtlsTransport A) → Does itself t (maybe_start_dtls ssl w t)
  maybe_start_dtls-Does w t = elim (Option-cases t.dtls) [
    | inl e ↦ (t, no_start w t e, Follows-refl t)
    | inr (a, e) ↦
        let u : DtlsTransport A = record t { dtls = some (ssl.start_ssl a).0 } in
        let f = with_dtls-Follows t (ssl.start_ssl a).0 in
        let g = set_dtls_state-Follows u dtls_connecting (λ x. refl) in
        Does-equal (start_at w t a e) (
          Does-if (not w) (λ x. (t, refl, Follows-refl t))
            (λ x.
              Does-if (not ((ssl.start_ssl a).1 == 0))
                (λ y. (
                  set_dtls_state dtls_failed u,
                  refl,
                  Follows-trans f (set_dtls_state-Follows u dtls_failed (λ x. cc)),
                ))
                (λ y.
                  Does-after (Follows-trans f g) (
                    replay_client_hello-Does (set_dtls_state dtls_connecting u) (g.adapter refl)))))
  ]
