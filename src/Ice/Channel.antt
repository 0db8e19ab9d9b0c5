-- ===== src/Ice/Channel.antt =====
-- ice/ice_transport_channel.cpp: a channel over the connections of its controller. The channel and the
-- controller each have a pointer to the selected connection. A handler gives the new store, the new
-- channel and the signals emitted, in order; `now` is the time it reads.
pub mod State
pub mod Selection
use xrtc_server.Prelude.{
  ℕ, ◌+◌, List, [], ◌∷◌, ◌++◌, Bool, true, false, not, ◌&&◌, ◌||◌, Option, some, none,
  if◌then◌else◌, ◌==◌,
}
use xrtc_server.Ice.Connection.{IceConnection, writable, active, same_bool}
use xrtc_server.Ice.Controller.{
  IceController, Store, any, sort_and_switch_connection, has_pingable_connection,
  on_connection_destroyed, add_connection,
}
use xrtc_server.Pc.ConnectionState.{
  IceTransportState, ice_new, ice_checking, ice_connected, ice_failed, ice_disconnected, ice_index,
}

pub record IceTransportChannel : Type 0 where
  pub controller : IceController
  pub selected_connection : Option ℕ
  pub is_writable : Bool
  pub is_receiving : Bool
  pub had_connection : Bool
  pub has_been_connection : Bool
  pub state : IceTransportState
  pub start_pinging : Bool

pub data ChannelSignal : Type 0 where
  writable_state_change receiving_state_change ice_state_change : ChannelSignal

-- IceTransportChannel::_set_writable
unfoldable pub set_writable : Bool → IceTransportChannel → IceTransportChannel × List ChannelSignal
unfolding same_bool
set_writable w ch = if same_bool w ch.is_writable then (ch, []) else (
  record ch { is_writable = w; has_been_connection = w || ch.has_been_connection },
  writable_state_change ∷ [],
)

-- IceTransportChannel::_set_receiving
unfoldable pub set_receiving : Bool → IceTransportChannel → IceTransportChannel × List ChannelSignal
unfolding same_bool
set_receiving r ch =
    if same_bool r ch.is_receiving
    then (ch, [])
    else (record ch { is_receiving = r }, receiving_state_change ∷ [])

-- The loop of _compute_ice_transport_state.
unfoldable pub has_active : Store → IceController → Bool
unfolding any active
has_active store k = any (λ x. active (store x)) k.connections

-- IceTransportChannel::_compute_ice_transport_state
unfoldable pub compute_state : Store → IceTransportChannel → IceTransportState
unfolding has_active
compute_state store ch =
    let has = has_active store ch.controller in
    if ch.had_connection && not has
    then ice_failed
    else if ch.has_been_connection && not ch.is_writable
    then ice_disconnected
    else if not ch.had_connection && not has
    then ice_new
    else if has && not ch.is_writable
    then ice_checking
    else ice_connected

-- `_selected_connection && _selected_connection->writable()`
unfoldable pub selected_writable : Store → Option ℕ → Bool
unfolding writable
selected_writable store none = false
selected_writable store (some s) = writable (store s)

unfoldable pub any_receiving : Store → IceController → Bool
unfolding any
any_receiving store k = any (λ x. (store x).receiving) k.connections

-- The end of _update_state.
unfoldable pub set_state :
    IceTransportState → IceTransportChannel → IceTransportChannel × List ChannelSignal
set_state s ch =
    if ice_index s == ice_index ch.state
    then (ch, [])
    else (record ch { state = s }, ice_state_change ∷ [])

-- IceTransportChannel::_update_state
unfoldable pub update_state : Store → IceTransportChannel → IceTransportChannel × List ChannelSignal
unfolding set_writable set_receiving compute_state selected_writable any_receiving set_state
update_state store ch =
    let (ch₁, s₁) = set_writable (selected_writable store ch.selected_connection) ch in
    let (ch₂, s₂) = set_receiving (any_receiving store ch₁.controller) ch₁ in
    let (ch₃, s₃) = set_state (compute_state store ch₂) ch₂ in (ch₃, s₁ ++ (s₂ ++ s₃))

-- IceConnection::set_selected on the object at an address, if there is one.
unfoldable pub set_selected : Bool → Option ℕ → Store → Store
set_selected b none store = store
set_selected b (some x) store = λ y. if x == y then record (store y) { selected = b } else store y

-- IceTransportChannel::_switch_selected_connection
unfoldable pub switch_selected_connection :
    Option ℕ → Store → IceTransportChannel → Store × IceTransportChannel
unfolding set_selected
switch_selected_connection none store ch =
    (set_selected false ch.selected_connection store, record ch { selected_connection = none })
switch_selected_connection (some x) store ch = (
  set_selected true (some x) (set_selected false ch.selected_connection store),
  record ch {
    selected_connection = some x;
    controller = record ch.controller { selected = some x };
  },
)

-- IceTransportChannel::_maybe_switch_selected_connection
unfoldable pub maybe_switch_selected_connection :
    Option ℕ → Store → IceTransportChannel → Store × IceTransportChannel
unfolding switch_selected_connection
maybe_switch_selected_connection none store ch = (store, ch)
maybe_switch_selected_connection (some x) store ch = switch_selected_connection (some x) store ch

-- IceTransportChannel::_maybe_start_pinging, without the timer.
unfoldable pub maybe_start_pinging : Store → ℕ → IceTransportChannel → IceTransportChannel
unfolding has_pingable_connection
maybe_start_pinging store now ch =
    if ch.start_pinging
    then ch
    else if has_pingable_connection store now ch.controller
    then record ch { start_pinging = true }
    else ch

-- IceTransportChannel::_sort_connections_and_update_state
unfoldable pub sort_connections_and_update_state :
    ((ℕ → ℕ → Bool) → List ℕ → List ℕ)
    → ℕ
    → Store
    → IceTransportChannel
    → Store × IceTransportChannel × List ChannelSignal
unfolding sort_and_switch_connection maybe_switch_selected_connection update_state
    maybe_start_pinging
sort_connections_and_update_state sort now store ch =
    let (k, best) = sort_and_switch_connection sort store ch.controller in
    let (store₁, ch₁) =
      maybe_switch_selected_connection best store (record ch { controller = k }) in
    let (ch₂, signals) = update_state store₁ ch₁ in
    (store₁, maybe_start_pinging store₁ now ch₂, signals)

-- IceTransportChannel::_add_connection, with the connecting of the signals left out.
unfoldable pub add_channel_connection : ℕ → IceTransportChannel → IceTransportChannel
unfolding add_connection
add_channel_connection x ch = record ch {
  had_connection = true;
  controller = add_connection x ch.controller;
}

unfoldable pub is_selected : ℕ → Option ℕ → Bool
is_selected x none = false
is_selected x (some y) = x == y

-- IceTransportChannel::_on_connection_destroyed
unfoldable pub on_channel_connection_destroyed :
    ((ℕ → ℕ → Bool) → List ℕ → List ℕ)
    → ℕ
    → ℕ
    → Store
    → IceTransportChannel
    → Store × IceTransportChannel × List ChannelSignal
unfolding on_connection_destroyed is_selected switch_selected_connection
    sort_connections_and_update_state update_state
on_channel_connection_destroyed sort now x store ch =
    let ch₁ = record ch { controller = on_connection_destroyed x ch.controller } in
    if is_selected x ch.selected_connection
    then (let (store₂, ch₂) = switch_selected_connection none store ch₁ in
        sort_connections_and_update_state sort now store₂ ch₂)
    else (let (ch₂, signals) = update_state store ch₁ in (store, ch₂, signals))
