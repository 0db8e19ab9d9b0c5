-- ===== src/Pc/Dtls/Reach.antt =====
-- Any sequence of calls of a transport.
use xrtc_server.Prelude.{ℕ, ◌≡◌, List, ◌++◌, true, All, some, ◌∙◌, sym, subst}
use xrtc_server.Pc.Ssl.{Ssl}
use xrtc_server.Pc.Dtls.{DtlsTransport, new_dtls_transport}
use xrtc_server.Pc.Dtls.Follows.{has, started, media, IsWhole}
use xrtc_server.Pc.Dtls.Ready.{IsReady, Call, call, CanCome, passes, some_injective}
use xrtc_server.Pc.Dtls.Calls.{call-IsReady}

-- What sequences of calls make of a new transport.
pub data Reaches {A : Type 0} (ssl : Ssl A) : DtlsTransport A → Type 0 where
  start : (suites : List ℕ) → Reaches ssl (new_dtls_transport suites)
  next :
      {t u : DtlsTransport A} (c : Call)
      → Reaches ssl t
      → CanCome c t
      → call ssl c t ≡ some u
      → Reaches ssl u

pub Reaches-IsReady : {A : Type 0} (ssl : Ssl A) {t : DtlsTransport A} → Reaches ssl t → IsReady t
Reaches-IsReady ssl (start suites) = record { sound = λ e. cc; certified = λ e. cc; whole = tt }
Reaches-IsReady ssl (next {t = t} c before can e) =
    let (u, e', r, m) = call-IsReady ssl c t (Reaches-IsReady ssl before) can in
    subst IsReady (some_injective (sym e' ∙ e)) r

-- After any sequence of calls, in which the adapter signals only while it is there: a further one uses
-- no null pointer and its loops end, while the handshake runs or is complete the adapter is there, all
-- that the adapter has been handed consists of whole records, and the call passes on the packet that
-- arrives exactly if the handshake is complete and the packet is RTP and not DTLS.
pub Reaches-call :
    {A : Type 0} (ssl : Ssl A) (t : DtlsTransport A) (c : Call)
    → Reaches ssl t
    → CanCome c t
    → (u : DtlsTransport A) × (call ssl c t ≡ some u)
      × (started u.dtls_state ≡ true → has u.dtls ≡ true)
      × All IsWhole u.signals
      × (media u.signals ≡ media t.signals ++ passes c t)
Reaches-call ssl t c before can =
    let (u, e, r, m) = call-IsReady ssl c t (Reaches-IsReady ssl before) can in
    (u, e, r.sound, r.whole, m)
