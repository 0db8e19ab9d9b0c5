-- ===== src/Pc/ConnectionState/Meaning.antt =====
-- What the aggregated state of a connection says of the single transports.
use xrtc_server.Prelude.{
  ℕ, ◌+◌, ◌<◌, ◌≡◌, ◌⊎◌, ◌↔◌, inl, inr, refl, List, [], ◌∷◌, Bool, true, false, arith, ◌==◌,
  Bool-cases, ==_refl,
}
use xrtc_server.Pc.ConnectionState.{
  IceTransportState, ice_new, ice_checking, ice_connected, ice_completed, ice_failed,
  ice_disconnected, ice_closed, DtlsTransportState, dtls_new, dtls_connecting, dtls_connected,
  dtls_closed, dtls_failed, PeerConnectionState, k_new, k_connected, k_failed, Transport, Totals,
  totals, aggregate, update_state, ice_one, dtls_one, ice_count, dtls_count, pc_index,
}

abbrev pub Each : (Transport → Type 0) → List Transport → Type 0
Each p [] = Unit
Each p (t ∷ ts) = p t × Each p ts

abbrev pub Some : (Transport → Type 0) → List Transport → Type 0
Some p [] = ⊥
Some p (t ∷ ts) = p t ⊎ Some p ts

abbrev pub Failed : Transport → Type 0
Failed t = (t.ice_state ≡ ice_failed) ⊎ (t.dtls_state ≡ dtls_failed)

abbrev pub Up : Transport → Type 0
Up t =
    ((t.ice_state ≡ ice_connected) ⊎ ((t.ice_state ≡ ice_completed) ⊎ (t.ice_state ≡ ice_closed)))
    × ((t.dtls_state ≡ dtls_connected) ⊎ (t.dtls_state ≡ dtls_closed))

ice_once :
    (i : IceTransportState)
    → ice_one ice_new i
        + ice_one ice_checking i
        + ice_one ice_connected i
        + ice_one ice_completed i
        + ice_one ice_failed i
        + ice_one ice_disconnected i
        + ice_one ice_closed i
      ≡ 1
unfolding ice_one
ice_once ice_new = refl
ice_once ice_checking = refl
ice_once ice_connected = refl
ice_once ice_completed = refl
ice_once ice_failed = refl
ice_once ice_disconnected = refl
ice_once ice_closed = refl

dtls_once :
    (d : DtlsTransportState)
    → dtls_one dtls_new d
        + dtls_one dtls_connecting d
        + dtls_one dtls_connected d
        + dtls_one dtls_closed d
        + dtls_one dtls_failed d
      ≡ 1
unfolding dtls_one
dtls_once dtls_new = refl
dtls_once dtls_connecting = refl
dtls_once dtls_connected = refl
dtls_once dtls_closed = refl
dtls_once dtls_failed = refl

-- Each of the two states of a transport is counted once.
totals_add_up :
    (ts : List Transport)
    → let t = totals ts in
      t.connected + t.dtls_connecting_total + t.failed + t.closed + t.new + t.checking
        + t.disconnected + t.complete
      ≡ t.transports
unfolding totals ice_count dtls_count
totals_add_up [] = refl
totals_add_up (t ∷ ts) =
    let ih = totals_add_up ts in omega (arith, ice_once t.ice_state, dtls_once t.dtls_state)

failed_one :
    (i : IceTransportState) (d : DtlsTransportState)
    → (0 < ice_one ice_failed i + dtls_one dtls_failed d) ↔ ((i ≡ ice_failed) ⊎ (d ≡ dtls_failed))
unfolding ice_one dtls_one
failed_one i d = ground arith

up_one :
    (i : IceTransportState) (d : DtlsTransportState)
    → (ice_one ice_connected i
          + dtls_one dtls_connected d
          + ice_one ice_completed i
          + (ice_one ice_closed i + dtls_one dtls_closed d)
        ≡ 2)
      ↔ (((i ≡ ice_connected) ⊎ ((i ≡ ice_completed) ⊎ (i ≡ ice_closed)))
          × ((d ≡ dtls_connected) ⊎ (d ≡ dtls_closed)))
unfolding ice_one dtls_one
up_one i d = ground arith

idle_one :
    (i : IceTransportState) (d : DtlsTransportState)
    → (ice_one ice_new i + dtls_one dtls_new d + (ice_one ice_closed i + dtls_one dtls_closed d)
        ≡ 2)
      ↔ (((i ≡ ice_new) ⊎ (i ≡ ice_closed)) × ((d ≡ dtls_new) ⊎ (d ≡ dtls_closed)))
unfolding ice_one dtls_one
idle_one i d = ground arith

failed_iff : (ts : List Transport) → (0 < (totals ts).failed) ↔ Some Failed ts
unfolding totals ice_count dtls_count
failed_iff [] = ground arith
failed_iff (t ∷ ts) =
    let ih = failed_iff ts in let h = failed_one t.ice_state t.dtls_state in ground arith

abbrev up_total : Totals → ℕ
up_total t = t.connected + t.complete + t.closed

up_total_lem : (ts : List Transport) → (up_total (totals ts) ≡ (totals ts).transports) ↔ Each Up ts
unfolding totals ice_count dtls_count
up_total_lem [] = (λ _. tt, λ _. refl)
up_total_lem (t ∷ ts) =
    let ih = up_total_lem ts in
    let h = up_one t.ice_state t.dtls_state in
    let n = totals_add_up ts in
    let a = ice_once t.ice_state in let b = dtls_once t.dtls_state in ground arith

abbrev pub Idle : Transport → Type 0
Idle t =
    ((t.ice_state ≡ ice_new) ⊎ (t.ice_state ≡ ice_closed))
    × ((t.dtls_state ≡ dtls_new) ⊎ (t.dtls_state ≡ dtls_closed))

idle_total_lem :
    (ts : List Transport)
    → ((totals ts).new + (totals ts).closed ≡ (totals ts).transports) ↔ Each Idle ts
unfolding totals ice_count dtls_count
idle_total_lem [] = (λ _. tt, λ _. refl)
idle_total_lem (t ∷ ts) =
    let ih = idle_total_lem ts in
    let h = idle_one t.ice_state t.dtls_state in
    let n = totals_add_up ts in
    let a = ice_once t.ice_state in let b = dtls_once t.dtls_state in ground arith

-- The aggregated state is FAILED exactly when some transport has failed, in its ICE or its DTLS state.
pub aggregate-Failed : (ts : List Transport) → (aggregate (totals ts) ≡ k_failed) ↔ Some Failed ts
unfolding aggregate
aggregate-Failed ts = let f = failed_iff ts in ground arith

-- The aggregated state is NEW exactly when each state of each transport is new or closed: the variable
-- never keeps its first value because all tests have failed.
pub aggregate-new : (ts : List Transport) → (aggregate (totals ts) ≡ k_new) ↔ Each Idle ts
unfolding aggregate
aggregate-new ts = let f = idle_total_lem ts in let n = totals_add_up ts in ground arith

-- The aggregated state is CONNECTED exactly when each ICE state is connected, completed or closed, each
-- DTLS state is connected or closed, and the transports are not all new or closed.
pub aggregate-connected :
    (ts : List Transport) → (aggregate (totals ts) ≡ k_connected) ↔ (Each Up ts × ¬ Each Idle ts)
unfolding aggregate
aggregate-connected ts =
    let u = up_total_lem ts in let f = idle_total_lem ts in let n = totals_add_up ts in ground arith

pc_same : (p q : PeerConnectionState) → ((pc_index p == pc_index q) ≡ true) ↔ (p ≡ q)
pc_same p q = ground arith

nonempty : {A : Type 0} (p : PeerConnectionState) → (p ∷ []) ≡ [] → A
nonempty p h = cc

differ : {A : Type 0} {b : Bool} → b ≡ false → b ≡ true → A
differ e f = cc

settled :
    (ts : List Transport) → update_state ts (aggregate (totals ts)) ≡ (aggregate (totals ts), [])
unfolding update_state
settled ts = rw (==_refl (pc_index (aggregate (totals ts))), update_state) refl

-- An update leaves the aggregated state behind, and signals it exactly when it differs from the state
-- before; a second update over the same transports signals nothing.
pub update_state-again :
    (ts : List Transport) (pc : PeerConnectionState)
    → let after = (update_state ts pc).0 in
      (after ≡ aggregate (totals ts))
      × ((update_state ts pc).1 ≡ [] ↔ (pc ≡ after))
      × (update_state ts after ≡ (after, []))
unfolding update_state
update_state-again ts pc = elim (Bool-cases (pc_index pc == pc_index (aggregate (totals ts)))) [
  | inl e ↦
      (let p : pc ≡ aggregate (totals ts) = (pc_same pc (aggregate (totals ts))).0 e in
        rw (e, update_state) (p, (λ _. refl, λ _. refl), rw (e, update_state) refl))
  | inr e ↦
      (let s = (pc_same pc (aggregate (totals ts))).1 in
        rw (e, update_state)
          (
            refl,
            ((λ h. nonempty (aggregate (totals ts)) h), (λ h. (let f = s h in differ e f))),
            settled ts,
          ))
]
