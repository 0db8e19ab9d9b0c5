-- ===== src/Pc/Srtp/Sessions.antt =====
-- Sessions come and go in pairs, and the usage count of libsrtp follows them.
use xrtc_server.Prelude.{
  ℕ, ◌+◌, ◌≡◌, ◌≢◌, ◌⊎◌, inl, inr, refl, List, Bool, true, false, not, ◌&&◌, ◌||◌, arith, Option,
  some, none, if◌then◌else◌, ◌==◌, ap, ◌∙◌, subst, Bool-cases, length,
}
use xrtc_server.Pc.ConnectionState.{
  DtlsTransportState, dtls_new, dtls_connecting, dtls_connected, dtls_closed, dtls_failed,
}
use xrtc_server.Pc.Srtp.{
  Policy, Libsrtp, SrtpSession, SrtpTransport, SrtpKeys, DtlsLink, new_session, released,
  reset_params, is_srtp_active, both_there, extract_params, is_dtls_writable, installed,
  create_or_update, set_key_with, do_set_key, set_key, params_recv, params_send, set_rtp_params,
  install_params, maybe_setup_dtls_srtp, on_dtls_state,
}

abbrev pub has : {S : Type 0} → Option S → Bool
has none = false
has (some x) = true

-- A session that is set up, and counted.
abbrev pub IsReady : {S : Type 0} → Option (SrtpSession S) → Type 0
IsReady none = ⊥
IsReady (some s) = (s.inited ≡ true) × (has s.session ≡ true)

-- No session, or two that are set up; `others` is what other transports count.
abbrev pub IsPaired : {S : Type 0} → ℕ → SrtpTransport S → Type 0
IsPaired others t =
    ((t.send_session ≡ none) × (t.recv_session ≡ none) × (t.usage_count ≡ others))
    ⊎ (IsReady t.send_session × IsReady t.recv_session × (t.usage_count ≡ others + 2))

-- A session behind set_key: releasing it gives the count back, and it is ready if the answer is true.
abbrev Keyed : {S : Type 0} → ℕ → (SrtpSession S × ℕ) × Bool → Type 0
Keyed n ((s, m), ok) =
    (((s.inited ≡ true) × (m ≡ n + 1)) ⊎ ((s.inited ≡ false) × (m ≡ n) × (ok ≡ false)))
    × (ok ≡ true → has s.session ≡ true)

reset_none :
    {S : Type 0} (x y : Option (SrtpSession S)) (n others : ℕ)
    → x ≡ none
    → y ≡ none
    → n ≡ others
    → released y (released x n) ≡ others
reset_none x y n others a b e = ap (λ z. released z (released x n)) b ∙ ap (λ z. released z n) a ∙ e

reset_both :
    {S : Type 0} (x y : Option (SrtpSession S)) (n others : ℕ)
    → IsReady x
    → IsReady y
    → n ≡ others + 2
    → released y (released x n) ≡ others
reset_both none y n others a b e = absurd a
reset_both (some s) none n others a b e = absurd b
reset_both (some s) (some r) n others (on, there) (on', there') e = ground arith

Keyed-if :
    {S : Type 0} (n : ℕ) (b : Bool) (x y : (SrtpSession S × ℕ) × Bool)
    → Keyed n x
    → Keyed n y
    → Keyed n (if b then x else y)
Keyed-if n true x y p q = p
Keyed-if n false x y p q = q

module _ {S : Type 0} (lib : Libsrtp S) where
  installed-has :
      (s : SrtpSession S) (p : Policy) (o : Option S)
      → ((installed lib s p o).0.inited ≡ s.inited)
        × ((installed lib s p o).1 ≡ true → has (installed lib s p o).0.session ≡ true)
  installed-has s p none = (refl, λ e. cc)
  installed-has s p (some x) = (refl, λ e. refl)

  set_key_with-has :
      (outbound : Bool) (cs : ℕ) (key : List ℕ) (s : SrtpSession S) (o : Option Policy)
      → ((set_key_with lib outbound cs key s o).0.inited ≡ s.inited)
        × ((set_key_with lib outbound cs key s o).1 ≡ true
            → has (set_key_with lib outbound cs key s o).0.session ≡ true)
  set_key_with-has outbound cs key s none = (refl, λ e. cc)
  set_key_with-has outbound cs key s (some p) = elim (Bool-cases (length key == p.cipher_key_len)) [
    | inl e ↦ rw e (installed-has s p (create_or_update lib outbound cs key s.session))
    | inr e ↦ rw e (refl, λ f. cc)
  ]

  set_key-Keyed :
      (outbound : Bool) (cs : ℕ) (key : List ℕ) (n : ℕ)
      → Keyed n (set_key lib outbound cs key (new_session, n))
  unfolding set_key do_set_key
  set_key-Keyed outbound cs key n =
      let r : SrtpSession S = record new_session { inited = true } in
      let (same, ready) = set_key_with-has outbound cs key r (lib.policy_of cs) in
      Keyed-if n (n == 0 && not lib.init_ok) ((new_session, n), false)
        (((do_set_key lib outbound cs key r).0, n + 1), (do_set_key lib outbound cs key r).1)
        (inr (refl, refl, refl), λ e. cc) (inl (same, refl), ready)

  params_recv-IsPaired :
      (others cs m : ℕ) (key : List ℕ) (s : SrtpSession S) (r : (SrtpSession S × ℕ) × Bool)
      → (s.inited ≡ true) × (has s.session ≡ true)
      → m ≡ others + 1
      → Keyed m r
      → IsPaired others (params_recv lib cs key s r).0
  unfolding reset_params
  params_recv-IsPaired others cs m key s ((q, l), true) (on, there) e (inl (i, f), h) =
      inr ((on, there), (i, h refl), omega (arith, e, f))
  params_recv-IsPaired others cs m key s ((q, l), true) ready e (inr (i, f, no_), h) = cc
  params_recv-IsPaired others cs m key s ((q, l), false) (on, there) e (inl (i, f), h) =
      inl (refl, refl, ground arith)
  params_recv-IsPaired others cs m key s ((q, l), false) (on, there) e (inr (i, f, no_), h) =
      inl (refl, refl, ground arith)

  params_send-IsPaired :
      (others cs : ℕ) (key : List ℕ) (r : (SrtpSession S × ℕ) × Bool)
      → Keyed others r
      → IsPaired others (params_send lib cs key r).0
  unfolding reset_params
  params_send-IsPaired others cs key ((s, n), true) (inl (i, f), h) =
      params_recv-IsPaired others cs n key s (set_key lib false cs key (new_session, n)) (i, h refl)
        f (set_key-Keyed false cs key n)
  params_send-IsPaired others cs key ((s, n), true) (inr (i, f, no_), h) = cc
  params_send-IsPaired others cs key ((s, n), false) (inl (i, f), h) =
      inl (refl, refl, ground arith)
  params_send-IsPaired others cs key ((s, n), false) (inr (i, f, no_), h) =
      inl (refl, refl, ground arith)

  install_params-IsPaired :
      (others : ℕ) (t : SrtpTransport S) (o : Option (ℕ × SrtpKeys))
      → t.usage_count ≡ others
      → IsPaired others t
      → IsPaired others (install_params lib t o)
  unfolding set_rtp_params
  install_params-IsPaired others t none e p = p
  install_params-IsPaired others t (some (cs, keys)) e p =
      params_send-IsPaired others cs keys.recv_key
        (set_key lib true cs keys.send_key (new_session, t.usage_count))
        (subst (λ n. Keyed n (set_key lib true cs keys.send_key (new_session, t.usage_count))) e
          (set_key-Keyed true cs keys.send_key t.usage_count))

reset_count :
    {S : Type 0} (others : ℕ) (t : SrtpTransport S)
    → IsPaired others t
    → (reset_params t).usage_count ≡ others
unfolding reset_params
reset_count others t (inl (a, b, e)) =
    reset_none t.send_session t.recv_session t.usage_count others a b e
reset_count others t (inr (a, b, e)) =
    reset_both t.send_session t.recv_session t.usage_count others a b e

reset_params-IsPaired :
    {S : Type 0} (others : ℕ) (t : SrtpTransport S)
    → IsPaired others t
    → IsPaired others (reset_params t)
unfolding reset_params
reset_params-IsPaired others t p = inl (refl, refl, reset_count others t p)

ready_active :
    {S : Type 0} (x y : Option (SrtpSession S)) → IsReady x → IsReady y → both_there y x ≡ true
ready_active none y a b = absurd a
ready_active (some s) none a b = absurd b
ready_active (some s) (some r) a b = refl

both_ways : (a b : Bool) → a ≡ true → a || b ≡ false → ⊥
both_ways true b e f = cc
both_ways false b e f = cc

IsPaired-if :
    {S : Type 0} (others : ℕ) (b : Bool) (t u : SrtpTransport S)
    → IsPaired others t
    → (b ≡ false → IsPaired others u)
    → IsPaired others (if b then t else u)
IsPaired-if others true t u p q = p
IsPaired-if others false t u p q = q refl

maybe_setup-IsPaired :
    {S : Type 0} (lib : Libsrtp S) (others : ℕ) (d : DtlsLink) (t : SrtpTransport S)
    → IsPaired others t
    → IsPaired others (maybe_setup_dtls_srtp lib d t)
unfolding maybe_setup_dtls_srtp
maybe_setup-IsPaired lib others d t (inl (a, b, e)) =
    IsPaired-if others (is_srtp_active t || not (is_dtls_writable d)) t
      (install_params lib t (extract_params d)) (inl (a, b, e))
      (λ off. install_params-IsPaired lib others t (extract_params d) e (inl (a, b, e)))
maybe_setup-IsPaired lib others d t (inr (a, b, e)) =
    IsPaired-if others (is_srtp_active t || not (is_dtls_writable d)) t
      (install_params lib t (extract_params d)) (inr (a, b, e))
      (λ off.
        (let on = ready_active t.send_session t.recv_session a b in
          absurd (both_ways (is_srtp_active t) (not (is_dtls_writable d)) on off)))

-- Through every change of the DTLS state the transport keeps either no session or a pair of sessions
-- with keys, and the usage count of libsrtp is what the other transports count, with two for a pair.
-- In every state but CONNECTED there is none.
pub on_dtls_state-IsPaired :
    {S : Type 0} (lib : Libsrtp S) (others : ℕ) (d : DtlsLink) (s : DtlsTransportState)
    (t : SrtpTransport S)
    → IsPaired others t
    → IsPaired others (on_dtls_state lib d s t)
      × (s ≢ dtls_connected → (on_dtls_state lib d s t).usage_count ≡ others)
unfolding on_dtls_state
on_dtls_state-IsPaired lib others d dtls_connected t p =
    (maybe_setup-IsPaired lib others d t p, λ ne. absurd (ne refl))
on_dtls_state-IsPaired lib others d dtls_new t p =
    (reset_params-IsPaired others t p, λ ne. reset_count others t p)
on_dtls_state-IsPaired lib others d dtls_connecting t p =
    (reset_params-IsPaired others t p, λ ne. reset_count others t p)
on_dtls_state-IsPaired lib others d dtls_closed t p =
    (reset_params-IsPaired others t p, λ ne. reset_count others t p)
on_dtls_state-IsPaired lib others d dtls_failed t p =
    (reset_params-IsPaired others t p, λ ne. reset_count others t p)
