-- ===== src/Tests/Pc.antt =====
-- The aggregated connection state of two transports.
use xrtc_server.Prelude.{◌≡◌, ◌↔◌, List, [], ◌∷◌}
use xrtc_server.Pc.ConnectionState.{
  Transport, ice_connected, ice_checking, dtls_connected, dtls_new, k_connected, aggregate, totals,
}
use xrtc_server.Pc.ConnectionState.Meaning.{Each, Up, Idle, aggregate-connected}

abbrev audio : Transport
audio = record { dtls_state = dtls_connected; ice_state = ice_connected }

abbrev video : Transport
video = record { dtls_state = dtls_new; ice_state = ice_checking }

abbrev both : List Transport
both = audio ∷ video ∷ []

aggregate-connected_example :
    (aggregate (totals (audio ∷ [])) ≡ k_connected)
    ↔ (Each Up (audio ∷ []) × ¬ Each Idle (audio ∷ []))
aggregate-connected_example = aggregate-connected (audio ∷ [])
