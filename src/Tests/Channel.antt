-- ===== src/Tests/Channel.antt =====
-- A channel whose selected connection, the only writable one, goes away.
use xrtc_server.Prelude.{ℕ, ◌≡◌, ◌↔◌, ◌+◌, ◌<◌, refl, [], ◌∷◌, true, false, some, none, arith}
use xrtc_server.Ice.Connection.{IceConnection, new_connection, writable_state}
use xrtc_server.Ice.Controller.{Store, member, on_connection_destroyed}
use xrtc_server.Ice.Controller.Insertion.{insertion_sort, insertion_sort-IsStableSort}
use xrtc_server.Ice.Channel.{
  IceTransportChannel, update_state, has_active, selected_writable, on_channel_connection_destroyed,
}
use xrtc_server.Ice.Channel.State.{update_state_meaning}
use xrtc_server.Ice.Channel.Selection.{on_channel_connection_destroyed_dangling}
use xrtc_server.Pc.ConnectionState.{ice_connected, ice_failed, ice_checking}

abbrev pair : IceConnection
unfolding new_connection
pair = new_connection 2 2130706431 1845501695 (b'u' ∷ []) (b'p' ∷ [])

abbrev store : Store
store a = record pair { write_state = writable_state; rtt = 30 }

abbrev channel : IceTransportChannel
channel = record {
  controller = record {
    selected = some 1;
    connections = 1 ∷ 2 ∷ [];
    pinged = [];
    unpinged = 1 ∷ 2 ∷ [];
  };
  selected_connection = some 1;
  is_writable = true;
  is_receiving = false;
  had_connection = true;
  has_been_connection = true;
  state = ice_connected;
  start_pinging = true;
}

update_state_meaning_example :
    let after = (update_state store channel).0 in
    let live = has_active store channel.controller in
    let up = selected_writable store channel.selected_connection in
    ((after.state ≡ ice_connected) ↔ ((live ≡ true) × (up ≡ true)))
    × ((after.state ≡ ice_failed) ↔ ((channel.had_connection ≡ true) × (live ≡ false)))
    × ((after.state ≡ ice_checking)
        ↔ ((live ≡ true) × (up ≡ false) × (channel.has_been_connection ≡ false)))
update_state_meaning_example = update_state_meaning store channel

no_gain :
    (y : ℕ)
    → member y (on_connection_destroyed 1 channel.controller).connections ≡ true
    → (store 1).rtt < (store y).rtt + 10
no_gain y m = omega arith

on_channel_connection_destroyed_dangling_example :
    let after = (on_channel_connection_destroyed insertion_sort 100 1 store channel).1 in
    (after.selected_connection ≡ none) × (after.controller.selected ≡ some 1)
on_channel_connection_destroyed_dangling_example =
    on_channel_connection_destroyed_dangling insertion_sort insertion_sort-IsStableSort 100 1 store
      channel refl refl no_gain
