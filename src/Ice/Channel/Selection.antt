-- ===== src/Ice/Channel/Selection.antt =====
-- What happens to the two pointers to the selected connection.
use xrtc_server.Prelude.{
  ℕ, ◌+◌, ◌<◌, ◌≡◌, refl, List, Bool, true, false, arith, Option, some, none, ap, ◌∙◌,
}
use xrtc_server.Ice.Controller.{
  IceController, Store, member, sort_and_switch_connection, on_connection_destroyed,
}
use xrtc_server.Ice.Controller.Switch.{IsStableSort, sort_and_switch_connection_stuck}
use xrtc_server.Ice.Channel.{
  IceTransportChannel, set_selected, switch_selected_connection, maybe_switch_selected_connection,
  maybe_start_pinging, sort_connections_and_update_state, on_channel_connection_destroyed,
  is_selected, update_state,
}
use xrtc_server.Ice.Channel.State.{update_state_parts}

-- Starting to ping changes neither pointer.
pinging_keeps :
    (store : Store) (now : ℕ) (ch : IceTransportChannel)
    → let after = maybe_start_pinging store now ch in
      (after.selected_connection ≡ ch.selected_connection) × (after.controller ≡ ch.controller)
unfolding maybe_start_pinging
pinging_keeps store now ch = (ground arith, ground arith)

destroyed_keeps : (x : ℕ) (k : IceController) → (on_connection_destroyed x k).selected ≡ k.selected
unfolding on_connection_destroyed
destroyed_keeps x k = refl

selected_some : (x : ℕ) (o : Option ℕ) → o ≡ some x → is_selected x o ≡ true
unfolding is_selected
selected_some x none e = cc
selected_some x (some y) e = (let p : x ≡ y = cc in ground arith)

rtt_kept :
    (b : Bool) (o : Option ℕ) (store : Store) (y : ℕ)
    → (set_selected b o store y).rtt ≡ (store y).rtt
unfolding set_selected
rtt_kept b none store y = refl
rtt_kept b (some x) store y = ground arith

sort_keeps :
    (sort : (ℕ → ℕ → Bool) → List ℕ → List ℕ) (store : Store) (k : IceController)
    → (sort_and_switch_connection sort store k).0.selected ≡ k.selected
unfolding sort_and_switch_connection
sort_keeps sort store k = refl

nothing_switched :
    (sort : (ℕ → ℕ → Bool) → List ℕ → List ℕ) (now : ℕ) (store : Store) (ch : IceTransportChannel)
    → (sort_and_switch_connection sort store ch.controller).1 ≡ none
    → let after = (sort_connections_and_update_state sort now store ch).1 in
      (after.selected_connection ≡ ch.selected_connection)
      × (after.controller.selected ≡ ch.controller.selected)
unfolding sort_connections_and_update_state maybe_switch_selected_connection
nothing_switched sort now store ch e =
    let k = (sort_and_switch_connection sort store ch.controller).0 in
    let ch₁ : IceTransportChannel = record ch { controller = k } in
    let ch₂ = (update_state store ch₁).0 in
    let (s, c) = pinging_keeps store now ch₂ in
    let (_, _, u, v, _, _, _) = update_state_parts store ch₁ in
    rw (e, sort_connections_and_update_state, maybe_switch_selected_connection)
      (s ∙ v, ap (λ z. z.selected) (c ∙ u) ∙ sort_keeps sort store ch.controller)

-- When the selected connection is destroyed and no other of the controller's gains ten milliseconds of
-- round trip time on it, the channel has no selected connection, and the controller still has its
-- pointer to the destroyed one.
pub on_channel_connection_destroyed_dangling :
    (sort : (ℕ → ℕ → Bool) → List ℕ → List ℕ) (law : IsStableSort sort) (now x : ℕ) (store : Store)
    (ch : IceTransportChannel)
    → ch.selected_connection ≡ some x
    → ch.controller.selected ≡ some x
    → ((y : ℕ)
        → member y (on_connection_destroyed x ch.controller).connections ≡ true
        → (store x).rtt < (store y).rtt + 10)
    → let after = (on_channel_connection_destroyed sort now x store ch).1 in
      (after.selected_connection ≡ none) × (after.controller.selected ≡ some x)
unfolding on_channel_connection_destroyed switch_selected_connection
on_channel_connection_destroyed_dangling sort law now x store ch p q h =
    let k = on_connection_destroyed x ch.controller in
    let store₁ = set_selected false ch.selected_connection store in
    let ch₁ : IceTransportChannel = record ch { controller = k; selected_connection = none } in
    let same : (y : ℕ) → (store₁ y).rtt ≡ (store y).rtt =
      rtt_kept false ch.selected_connection store in
    let stuck =
      sort_and_switch_connection_stuck sort law store₁ k x (destroyed_keeps x ch.controller ∙ q)
        (λ y m. let l = h y m in let a = same x in let b = same y in omega (arith, a, b, l)) in
    let (s, c) = nothing_switched sort now store₁ ch₁ stuck in
    let selected : is_selected x ch.selected_connection ≡ true =
      selected_some x ch.selected_connection p in
    rw (selected, on_channel_connection_destroyed, switch_selected_connection)
      (s, c ∙ destroyed_keeps x ch.controller ∙ q)
