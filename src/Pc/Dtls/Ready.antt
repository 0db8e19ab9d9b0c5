-- ===== src/Pc/Dtls/Ready.antt =====
-- What holds of a transport between calls, the calls, and what they pass on.
use mathlib.Core.List.{append-nil}
use xrtc_server.Prelude.{
  ℕ, ◌≡◌, refl, List, [], ◌∷◌, ◌++◌, Bool, true, false, not, ◌&&◌, arith, All, Option, some, ap,
  ◌∙◌, sym, if◌then◌else◌, ◌==◌,
}
use xrtc_server.Pc.ConnectionState.{
  DtlsTransportState, dtls_new, dtls_connecting, dtls_connected, dtls_closed, dtls_failed,
  dtls_index,
}
use xrtc_server.Pc.Ssl.{Ssl, DtlsEvent}
use xrtc_server.Pc.Dtls.{
  DtlsTransport, read_packet_signal, signal, is_dtls_packet, is_rtp_packet, set_dtls_state,
  set_writable_state, set_receiving, on_dtls_event, on_writable_state, on_read_packet,
  set_local_certificate, set_remote_fingerprint, same_flag, ◌>>=◌,
}
use xrtc_server.Pc.Dtls.Follows.{
  Follows, Does, itself, has, started, IsSound, media, media-append, IsWhole, All-append,
}

-- The adapter is there while the handshake runs, an active transport has a certificate, and the adapter
-- has been handed whole records only.
pub record IsReady {A : Type 0} (t : DtlsTransport A) : Type 0 where
  pub sound : IsSound t
  pub certified : t.dtls_active ≡ true → (t.local_certificate == 0) ≡ false
  pub whole : All IsWhole t.signals

-- What can happen to a transport; a `Bool` in front is whether the channel is writable.
pub data Call : Type 0 where
  channel_writable : Bool → Call
  channel_receiving : Bool → Call
  packet : Bool → List ℕ → ℕ → Call
  certificate : ℕ → Call
  fingerprint : Bool → List ℕ → List ℕ → Call
  event : DtlsEvent → Call

unfoldable pub call : {A : Type 0} → Ssl A → Call → DtlsTransport A → Option (DtlsTransport A)
unfolding on_writable_state on_read_packet set_receiving set_local_certificate
    set_remote_fingerprint on_dtls_event
call ssl (channel_writable w) t = on_writable_state ssl w t
call ssl (channel_receiving r) t = some (set_receiving r t)
call ssl (packet w buf ts) t = on_read_packet ssl w buf ts t
call ssl (certificate c) t = some (set_local_certificate ssl c t).0
call ssl (fingerprint w alg digest) t = set_remote_fingerprint ssl w alg digest t >>= λ r. some r.0
call ssl (event e) t = on_dtls_event ssl e t

-- An adapter that is not there signals nothing.
abbrev pub CanCome : {A : Type 0} → Call → DtlsTransport A → Type 0
CanCome (channel_writable w) t = Unit {0}
CanCome (channel_receiving r) t = Unit {0}
CanCome (packet w buf ts) t = Unit {0}
CanCome (certificate c) t = Unit {0}
CanCome (fingerprint w alg digest) t = Unit {0}
CanCome (event e) t = has t.dtls ≡ true

-- The media packets that a call passes on.
abbrev pub passes : {A : Type 0} → Call → DtlsTransport A → List (List ℕ × ℕ)
passes (channel_writable w) t = []
passes (channel_receiving r) t = []
passes (packet w buf ts) t =
    if dtls_index t.dtls_state == dtls_index dtls_connected
      && (not (is_dtls_packet buf) && is_rtp_packet buf)
    then (buf, ts) ∷ []
    else []
passes (certificate c) t = []
passes (fingerprint w alg digest) t = []
passes (event e) t = []

-- A call that succeeds in a ready transport, with more media signalled.
abbrev pub Ends :
    {A X : Type 0} → (X → DtlsTransport A) → DtlsTransport A → List (List ℕ × ℕ) → Option X → Type 0
Ends {X = X} g t more o =
    (x : X) × (o ≡ some x) × IsReady (g x) × (media (g x).signals ≡ media t.signals ++ more)

pub some_injective : {A : Type 0} {a b : A} → some a ≡ some b → a ≡ b
some_injective e = cc

pub not_connected :
    (s s' : DtlsTransportState) (b : Bool)
    → s ≡ s'
    → (dtls_index s' == dtls_index dtls_connected) ≡ false
    → (dtls_index s == dtls_index dtls_connected && b) ≡ false
not_connected s s' b e f =
    let g = ap (λ x. dtls_index x == dtls_index dtls_connected) e ∙ f in ground arith

module _ {A : Type 0} where
  pub Follows-IsReady : {t u : DtlsTransport A} → Follows t u → IsReady t → IsReady u
  Follows-IsReady f r = record {
    sound = f.sound r.sound;
    certified = λ a. ap (λ c. c == 0) f.same_certificate ∙ r.certified (sym f.same_active ∙ a);
    whole = f.whole r.whole;
  }

  pub Does-Ends :
      {X : Type 0} {g : X → DtlsTransport A} {t : DtlsTransport A} {o : Option X}
      → IsReady t
      → Does g t o
      → Ends g t [] o
  Does-Ends {t = t} r (x, e, f) =
      (x, e, Follows-IsReady f r, f.same_media ∙ sym (append-nil (media t.signals)))

  pub Ends-if :
      {X : Type 0} {g : X → DtlsTransport A} {o p : Option X} (t : DtlsTransport A)
      (more : List (List ℕ × ℕ)) (b : Bool)
      → (b ≡ true → Ends g t more o)
      → (b ≡ false → Ends g t more p)
      → Ends g t more (if b then o else p)
  Ends-if t more true y n = y refl
  Ends-if t more false y n = n refl

  -- Nothing passed on.
  pub quiet :
      {X : Type 0} {g : X → DtlsTransport A} {o : Option X} (t : DtlsTransport A) (b : Bool)
      (p : List ℕ × ℕ)
      → b ≡ false
      → Ends g t [] o
      → Ends g t (if b then p ∷ [] else []) o
  quiet t true p e h = cc
  quiet t false p e h = h

  pub stays : (t : DtlsTransport A) → IsReady t → Ends itself t [] (some t)
  stays t r = (t, refl, r, sym (append-nil (media t.signals)))

  pub passed_on :
      (buf : List ℕ) (ts : ℕ) (t : DtlsTransport A)
      → IsReady t
      → Ends itself t ((buf, ts) ∷ []) (some (signal (read_packet_signal buf ts) t))
  passed_on buf ts t r = (
    signal (read_packet_signal buf ts) t,
    refl,
    record {
      sound = r.sound;
      certified = r.certified;
      whole = All-append IsWhole t.signals (read_packet_signal buf ts ∷ []) r.whole (tt, tt);
    },
    media-append t.signals (read_packet_signal buf ts ∷ []),
  )

pub started_new :
    (s : DtlsTransportState) → (dtls_index s == dtls_index dtls_new) ≡ true → started s ≡ false
started_new dtls_new e = refl
started_new dtls_connecting e = cc
started_new dtls_connected e = cc
started_new dtls_closed e = cc
started_new dtls_failed e = cc

pub picked :
    {A : Type 0} (P : A → Type 0) {x y : A} (b : Bool)
    → (b ≡ true → P x)
    → (b ≡ false → P y)
    → P (if b then x else y)
picked P true p q = p refl
picked P false p q = q refl

module _ {A : Type 0} where
  pub set_dtls_state_new :
      (t : DtlsTransport A) → started (set_dtls_state dtls_new t).dtls_state ≡ false
  unfolding set_dtls_state
  set_dtls_state_new t =
      picked (λ (u : DtlsTransport A). started u.dtls_state ≡ false)
        (dtls_index t.dtls_state == dtls_index dtls_new) (started_new t.dtls_state) (λ e. refl)

  pub dtls-set_dtls_state :
      (s : DtlsTransportState) (t : DtlsTransport A) → (set_dtls_state s t).dtls ≡ t.dtls
  unfolding set_dtls_state
  dtls-set_dtls_state s t =
      picked (λ (u : DtlsTransport A). u.dtls ≡ t.dtls) (dtls_index t.dtls_state == dtls_index s)
        (λ e. refl) (λ e. refl)

  pub dtls-set_writable_state :
      (w : Bool) (t : DtlsTransport A) → (set_writable_state w t).dtls ≡ t.dtls
  unfolding set_writable_state
  dtls-set_writable_state w t =
      picked (λ (u : DtlsTransport A). u.dtls ≡ t.dtls) (same_flag t.writable w) (λ e. refl)
        (λ e. refl)

  pub state-set_writable_state :
      (w : Bool) (t : DtlsTransport A) → (set_writable_state w t).dtls_state ≡ t.dtls_state
  unfolding set_writable_state
  state-set_writable_state w t =
      picked (λ (u : DtlsTransport A). u.dtls_state ≡ t.dtls_state) (same_flag t.writable w)
        (λ e. refl) (λ e. refl)
