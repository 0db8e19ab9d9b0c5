-- ===== src/Ice/Channel/State.antt =====
-- The state of a channel after an update.
use xrtc_server.Prelude.{
  ◌≡◌, ◌↔◌, inl, inr, refl, Bool, true, false, not, ◌&&◌, ◌||◌, arith, Bool-cases, ◌==◌, sym, ap,
  ◌∙◌,
}
use xrtc_server.Ice.Connection.{same_bool}
use xrtc_server.Ice.Controller.{Store}
use xrtc_server.Ice.Channel.{
  IceTransportChannel, set_writable, set_receiving, has_active, compute_state, selected_writable,
  any_receiving, set_state, update_state,
}
use xrtc_server.Pc.ConnectionState.{
  IceTransportState, ice_checking, ice_connected, ice_failed, ice_index,
}

-- A channel that is writable has been.
abbrev pub HasBeen : IceTransportChannel → Type 0
HasBeen ch = ch.is_writable ≡ true → ch.has_been_connection ≡ true

state_same : (s t : IceTransportState) → (ice_index s == ice_index t) ≡ true → s ≡ t
state_same s t e = ground arith

-- What the three setters leave behind.
abbrev Same : IceTransportChannel → IceTransportChannel → Type 0
Same a b =
    (a.controller ≡ b.controller)
    × (a.selected_connection ≡ b.selected_connection)
    × (a.had_connection ≡ b.had_connection)

set_writable_lem :
    (w : Bool) (ch : IceTransportChannel)
    → let after = (set_writable w ch).0 in
      (after.is_writable ≡ w)
      × Same after ch
      × (after.has_been_connection ≡ (w && not ch.is_writable || ch.has_been_connection))
unfolding set_writable same_bool
set_writable_lem w ch = elim (Bool-cases (same_bool w ch.is_writable)) [
  | inl e ↦ rw (e, set_writable) (ground arith, (refl, refl, refl), ground arith)
  | inr e ↦ rw (e, set_writable) (refl, (refl, refl, refl), ground arith)
]

set_receiving_lem :
    (r : Bool) (ch : IceTransportChannel)
    → let after = (set_receiving r ch).0 in
      (after.is_receiving ≡ r)
      × Same after ch
      × (after.is_writable ≡ ch.is_writable)
      × (after.has_been_connection ≡ ch.has_been_connection)
unfolding set_receiving same_bool
set_receiving_lem r ch = elim (Bool-cases (same_bool r ch.is_receiving)) [
  | inl e ↦ rw (e, set_receiving) (ground arith, (refl, refl, refl), refl, refl)
  | inr e ↦ rw (e, set_receiving) (refl, (refl, refl, refl), refl, refl)
]

set_state_lem :
    (store : Store) (s : IceTransportState) (ch : IceTransportChannel)
    → let after = (set_state s ch).0 in
      (after.state ≡ s)
      × Same after ch
      × (after.is_writable ≡ ch.is_writable)
      × (after.is_receiving ≡ ch.is_receiving)
      × (after.has_been_connection ≡ ch.has_been_connection)
      × (compute_state store after ≡ compute_state store ch)
unfolding set_state compute_state
set_state_lem store s ch = elim (Bool-cases (ice_index s == ice_index ch.state)) [
  | inl e ↦
      rw (e, set_state) (sym (state_same s ch.state e), (refl, refl, refl), refl, refl, refl, refl)
  | inr e ↦ rw (e, set_state) (refl, (refl, refl, refl), refl, refl, refl, refl)
]

-- What an update has computed: the flags from the store, and the state from them.
pub update_state_parts :
    (store : Store) (ch : IceTransportChannel)
    → let after = (update_state store ch).0 in
      (after.is_writable ≡ selected_writable store ch.selected_connection)
      × (after.is_receiving ≡ any_receiving store ch.controller)
      × (after.controller ≡ ch.controller)
      × (after.selected_connection ≡ ch.selected_connection)
      × (after.had_connection ≡ ch.had_connection)
      × (after.has_been_connection
          ≡ (after.is_writable && not ch.is_writable || ch.has_been_connection))
      × (after.state ≡ compute_state store after)
unfolding update_state
update_state_parts store ch =
    let w = selected_writable store ch.selected_connection in
    let ch₁ = (set_writable w ch).0 in
    let (w₁, (k₁, c₁, h₁), b₁) = set_writable_lem w ch in
    let r = any_receiving store ch₁.controller in
    let ch₂ = (set_receiving r ch₁).0 in
    let (r₂, (k₂, c₂, h₂), w₂, b₂) = set_receiving_lem r ch₁ in
    let (s₃, (k₃, c₃, h₃), w₃, r₃, b₃, q₃) = set_state_lem store (compute_state store ch₂) ch₂ in
    let written = w₃ ∙ w₂ ∙ w₁ in
    (
      written,
      r₃ ∙ r₂ ∙ ap (any_receiving store) k₁,
      k₃ ∙ k₂ ∙ k₁,
      c₃ ∙ c₂ ∙ c₁,
      h₃ ∙ h₂ ∙ h₁,
      b₃ ∙ b₂ ∙ b₁ ∙ ap (λ v. v && not ch.is_writable || ch.has_been_connection) (sym written),
      s₃ ∙ sym q₃,
    )

-- A channel that was written as having been writable stays so after an update.
pub update_state-HasBeen :
    (store : Store) (ch : IceTransportChannel) → HasBeen ch → HasBeen (update_state store ch).0
update_state-HasBeen store ch h w =
    let (_, _, _, _, _, b, _) = update_state_parts store ch in
    elim (Bool-cases ch.is_writable) [
      | inl e ↦ (let x = h e in ground arith)
      | inr e ↦ ground arith
    ]

-- After an update the state is CONNECTED exactly when some connection has not timed out and the
-- selected one is writable; FAILED exactly when there have been connections and all that are left have
-- timed out; CHECKING exactly when some has not timed out, the selected one is not writable, and the
-- channel has never been writable.
pub update_state_meaning :
    (store : Store) (ch : IceTransportChannel)
    → let after = (update_state store ch).0 in
      let live = has_active store ch.controller in
      let up = selected_writable store ch.selected_connection in
      ((after.state ≡ ice_connected) ↔ ((live ≡ true) × (up ≡ true)))
      × ((after.state ≡ ice_failed) ↔ ((ch.had_connection ≡ true) × (live ≡ false)))
      × ((after.state ≡ ice_checking)
          ↔ ((live ≡ true) × (up ≡ false) × (ch.has_been_connection ≡ false)))
unfolding compute_state
update_state_meaning store ch =
    let (w, r, k, c, d, b, s) = update_state_parts store ch in
    let live = ap (has_active store) k in ground arith
