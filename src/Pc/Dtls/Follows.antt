-- ===== src/Pc/Dtls/Follows.antt =====
-- What every part of the handshake leaves alone, and that it uses no null pointer.
use mathlib.Core.List.{append-nil}
use xrtc_server.Prelude.{
  ℕ, ◌≡◌, refl, List, [], ◌∷◌, ◌++◌, Bool, true, false, All, length, Option, some, none, ap, ◌∙◌,
  if◌then◌else◌, ◌==◌,
}
use xrtc_server.Pc.ConnectionState.{
  DtlsTransportState, dtls_new, dtls_connecting, dtls_connected, dtls_closed, dtls_failed,
  dtls_index,
}
use xrtc_server.Pc.Dtls.{
  DtlsTransport, Signal, dtls_state_signal, writable_signal, receiving_signal, closed_signal,
  read_packet_signal, handed_over, signal, whole_records, set_dtls_state, set_writable_state,
  set_receiving, closed_by_remote, same_flag, ◌>>=◌,
}

-- The media packets among the signals.
abbrev pub media : List Signal → List (List ℕ × ℕ)
media [] = []
media (dtls_state_signal s ∷ ss) = media ss
media (writable_signal b ∷ ss) = media ss
media (receiving_signal b ∷ ss) = media ss
media (closed_signal ∷ ss) = media ss
media (read_packet_signal p ts ∷ ss) = (p, ts) ∷ media ss
media (handed_over d ∷ ss) = media ss

-- The adapter is handed whole records only.
abbrev pub IsWhole : Signal → Type 0
IsWhole (dtls_state_signal s) = Unit {0}
IsWhole (writable_signal b) = Unit {0}
IsWhole (receiving_signal b) = Unit {0}
IsWhole closed_signal = Unit {0}
IsWhole (read_packet_signal p ts) = Unit {0}
IsWhole (handed_over d) = whole_records (length d) d ≡ true

abbrev pub has : {A : Type 0} → Option A → Bool
has none = false
has (some a) = true

abbrev pub started : DtlsTransportState → Bool
started dtls_new = false
started dtls_connecting = true
started dtls_connected = true
started dtls_closed = false
started dtls_failed = false

abbrev pub IsSound : {A : Type 0} → DtlsTransport A → Type 0
IsSound t = started t.dtls_state ≡ true → has t.dtls ≡ true

pub record Follows {A : Type 0} (t u : DtlsTransport A) : Type 0 where
  pub same_media : media u.signals ≡ media t.signals
  pub same_certificate : u.local_certificate ≡ t.local_certificate
  pub same_active : u.dtls_active ≡ t.dtls_active
  pub whole : All IsWhole t.signals → All IsWhole u.signals
  pub adapter : has t.dtls ≡ true → has u.dtls ≡ true
  pub sound : IsSound t → IsSound u

pub Follows-refl : {A : Type 0} (t : DtlsTransport A) → Follows t t
Follows-refl t = record {
  same_media = refl;
  same_certificate = refl;
  same_active = refl;
  whole = λ h. h;
  adapter = λ h. h;
  sound = λ h. h;
}

pub Follows-trans : {A : Type 0} {t u v : DtlsTransport A} → Follows t u → Follows u v → Follows t v
Follows-trans f g = record {
  same_media = g.same_media ∙ f.same_media;
  same_certificate = g.same_certificate ∙ f.same_certificate;
  same_active = g.same_active ∙ f.same_active;
  whole = λ h. g.whole (f.whole h);
  adapter = λ h. g.adapter (f.adapter h);
  sound = λ h. g.sound (f.sound h);
}

pub Follows-if :
    {A : Type 0} {t u v : DtlsTransport A} (b : Bool)
    → Follows t u
    → Follows t v
    → Follows t (if b then u else v)
Follows-if true f g = f
Follows-if false f g = g

-- A call that succeeds, with a transport that follows.
abbrev pub Does : {A X : Type 0} → (X → DtlsTransport A) → DtlsTransport A → Option X → Type 0
Does {X = X} g t o = (x : X) × (o ≡ some x) × Follows t (g x)

abbrev pub itself : {A : Type 0} → DtlsTransport A → DtlsTransport A
itself t = t

abbrev pub answered : {A : Type 0} → DtlsTransport A × Bool → DtlsTransport A
answered r = r.0

module _ {A : Type 0} where
  pub Does-bind :
      {X Y : Type 0} {g : X → DtlsTransport A} {h : Y → DtlsTransport A} {t : DtlsTransport A}
      (o : Option X) (f : X → Option Y)
      → Does g t o
      → ((x : X) → Follows t (g x) → Does h (g x) (f x))
      → Does h t (o >>= f)
  Does-bind o f (x, e, follows) k =
      let (y, e', follows') = k x follows in
      (y, ap (λ z. z >>= f) e ∙ e', Follows-trans follows follows')

  pub Does-after :
      {X : Type 0} {g : X → DtlsTransport A} {t u : DtlsTransport A} {o : Option X}
      → Follows t u
      → Does g u o
      → Does g t o
  Does-after f (x, e, g) = (x, e, Follows-trans f g)

  pub Does-equal :
      {X : Type 0} {g : X → DtlsTransport A} {t : DtlsTransport A} {o p : Option X}
      → o ≡ p
      → Does g t p
      → Does g t o
  Does-equal e (x, e', f) = (x, e ∙ e', f)

  pub Does-if :
      {X : Type 0} {g : X → DtlsTransport A} {t : DtlsTransport A} {o p : Option X} (b : Bool)
      → (b ≡ true → Does g t o)
      → (b ≡ false → Does g t p)
      → Does g t (if b then o else p)
  Does-if true y n = y refl
  Does-if false y n = n refl

pub media-append : (ss tt_ : List Signal) → media (ss ++ tt_) ≡ media ss ++ media tt_
media-append [] ts = refl
media-append (dtls_state_signal s ∷ ss) ts = media-append ss ts
media-append (writable_signal b ∷ ss) ts = media-append ss ts
media-append (receiving_signal b ∷ ss) ts = media-append ss ts
media-append (closed_signal ∷ ss) ts = media-append ss ts
media-append (read_packet_signal p x ∷ ss) ts = ap (◌∷◌ (p, x)) (media-append ss ts)
media-append (handed_over d ∷ ss) ts = media-append ss ts

pub All-append :
    {B : Type 0} (P : B → Type 0) (xs ys : List B) → All P xs → All P ys → All P (xs ++ ys)
All-append P [] ys h k = k
All-append P (x ∷ xs) ys (p, h) k = (p, All-append P xs ys h k)

module _ {A : Type 0} (t : DtlsTransport A) where
  pub signal-Follows : (s : Signal) → media (s ∷ []) ≡ [] → IsWhole s → Follows t (signal s t)
  signal-Follows s none_ w = record {
    same_media =
        media-append t.signals (s ∷ [])
        ∙ ap (λ x. media t.signals ++ x) none_
        ∙ append-nil (media t.signals);
    same_certificate = refl;
    same_active = refl;
    whole = λ h. All-append IsWhole t.signals (s ∷ []) h (w, tt);
    adapter = λ h. h;
    sound = λ h. h;
  }

  -- Another state, for which the adapter is there if it has to be.
  with_state-Follows :
      (s : DtlsTransportState)
      → (started s ≡ true → has t.dtls ≡ true)
      → Follows t (record t { dtls_state = s })
  with_state-Follows s ok = record {
    same_media = refl;
    same_certificate = refl;
    same_active = refl;
    whole = λ h. h;
    adapter = λ h. h;
    sound = λ h. ok;
  }

  pub with_dtls-Follows : (a : A) → Follows t (record t { dtls = some a })
  with_dtls-Follows a = record {
    same_media = refl;
    same_certificate = refl;
    same_active = refl;
    whole = λ h. h;
    adapter = λ h. refl;
    sound = λ h e. refl;
  }

  with_writable-Follows : (w : Bool) → Follows t (record t { writable = w })
  with_writable-Follows w = record {
    same_media = refl;
    same_certificate = refl;
    same_active = refl;
    whole = λ h. h;
    adapter = λ h. h;
    sound = λ h. h;
  }

  with_receiving-Follows : (r : Bool) → Follows t (record t { receiving = r })
  with_receiving-Follows r = record {
    same_media = refl;
    same_certificate = refl;
    same_active = refl;
    whole = λ h. h;
    adapter = λ h. h;
    sound = λ h. h;
  }

  pub with_hello-Follows : (h : List ℕ) → Follows t (record t { catched_client_hello = h })
  with_hello-Follows h = record {
    same_media = refl;
    same_certificate = refl;
    same_active = refl;
    whole = λ h. h;
    adapter = λ h. h;
    sound = λ h. h;
  }

module _ {A : Type 0} (t : DtlsTransport A) where
  pub set_dtls_state-Follows :
      (s : DtlsTransportState)
      → (started s ≡ true → has t.dtls ≡ true)
      → Follows t (set_dtls_state s t)
  unfolding set_dtls_state
  set_dtls_state-Follows s ok =
      Follows-if (dtls_index t.dtls_state == dtls_index s) (Follows-refl t) (
        Follows-trans (with_state-Follows t s ok)
          (signal-Follows (record t { dtls_state = s }) (dtls_state_signal s) refl tt))

  pub set_writable_state-Follows : (w : Bool) → Follows t (set_writable_state w t)
  unfolding set_writable_state
  set_writable_state-Follows w = Follows-if (same_flag t.writable w) (Follows-refl t) (
      Follows-trans (with_writable-Follows t w)
        (signal-Follows (record t { writable = w }) (writable_signal w) refl tt))

  pub set_receiving-Follows : (r : Bool) → Follows t (set_receiving r t)
  unfolding set_receiving
  set_receiving-Follows r = Follows-if (same_flag t.receiving r) (Follows-refl t) (
      Follows-trans (with_receiving-Follows t r)
        (signal-Follows (record t { receiving = r }) (receiving_signal r) refl tt))

pub closed_by_remote-Follows : {A : Type 0} (t : DtlsTransport A) → Follows t (closed_by_remote t)
unfolding closed_by_remote
closed_by_remote-Follows t =
    let u = set_writable_state false t in
    let v = set_dtls_state dtls_closed u in
    Follows-trans (set_writable_state-Follows t false) (
      Follows-trans (set_dtls_state-Follows u dtls_closed (λ e. cc))
        (signal-Follows v closed_signal refl tt))
