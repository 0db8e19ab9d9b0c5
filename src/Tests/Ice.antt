-- ===== src/Tests/Ice.antt =====
-- The controller and the connections on a channel with two candidate pairs.
use xrtc_server.Prelude.{
  ℕ, ◌+◌, ◌^◌, ◌*◌, ◌≡◌, refl, [], ◌∷◌, true, false, Option, some, none, arith, ◌==◌, if◌then◌else◌,
  ltb, min, max, ◌<◌, ◌⊎◌, ◌↔◌,
}
use xrtc_server.Ice.Connection.{
  IceConnection, new_connection, writable_state, write_unreliable, state_change, alive,
  update_state, priority, SentPing,
}
use xrtc_server.Ice.Connection.Liveness.{update_state_alive, priority_lem, Unanswered, IsDestroyed}
use xrtc_server.Ice.Controller.{
  add_connection, mark_connection_pinged, IceController, Store, member, ready_to_send,
  sort_and_switch_connection, comes_before, find_next_pingable, select_connection_to_ping,
  is_pingable, selected_first, weak_channel,
}
use xrtc_server.Ice.Controller.Order.{Better, comes_before_iff}
use xrtc_server.Ice.Controller.Switch.{
  sort_and_switch_connection-Best, sort_and_switch_connection_cold, Best, Gains,
}
use xrtc_server.Ice.Controller.Insertion.{insertion_sort, insertion_sort-IsStableSort}
use xrtc_server.Ice.Controller.Reach.{no_connections, start, added, pinged, Reaches-IsTracked}
use xrtc_server.Ice.Controller.Tracking.{IsTracked}
use xrtc_server.Ice.Controller.Rotation.{find_next_pingable-some}
use xrtc_server.Ice.Controller.Rotation.Pacing.{
  select_connection_to_ping-paced, Rested, ChannelRested,
}

-- The pair at address 1 answers and the one at address 2 has not been tried.
abbrev fresh : IceConnection
unfolding new_connection
fresh = new_connection 2 2130706431 1845501695 (b'u' ∷ []) (b'p' ∷ [])

abbrev good : IceConnection
good = record fresh {
  address = 1;
  write_state = writable_state;
  receiving = true;
  rtt = 20;
  rtt_samples = 6;
  num_pings_sent = 9;
  last_ping_sent = 4000;
  last_ping_response_received = 4010;
}

abbrev store : Store
store a = if a == 1 then good else fresh

abbrev controller : IceController
controller = record {
  selected = none;
  connections = 2 ∷ 1 ∷ [];
  pinged = 1 ∷ [];
  unpinged = 2 ∷ [];
}

tracked : IsTracked controller
unfolding member
tracked = record {
  either = λ x. ground arith;
  never_both = λ x. ground arith;
  connections_unique = (refl, (refl, tt));
  pinged_unique = (refl, tt);
  unpinged_unique = (refl, tt);
}

switched : (sort_and_switch_connection insertion_sort store controller).1 ≡ some 1
unfolding sort_and_switch_connection insertion_sort fresh
switched = refl

sort_and_switch_connection-Best_example :
    (member 1 controller.connections ≡ true)
    × (ready_to_send (store 1) ≡ true)
    × Best store controller.connections 1
    × Gains store controller.selected 1
sort_and_switch_connection-Best_example =
    sort_and_switch_connection-Best insertion_sort insertion_sort-IsStableSort store controller 1
      switched

good_ready : ready_to_send (store 1) ≡ true
unfolding ready_to_send
good_ready = refl

good_registered : member 1 controller.connections ≡ true
unfolding member
good_registered = refl

sort_and_switch_connection_cold_example :
    (c : ℕ) × ((sort_and_switch_connection insertion_sort store controller).1 ≡ some c)
sort_and_switch_connection_cold_example =
    sort_and_switch_connection_cold insertion_sort insertion_sort-IsStableSort store controller 1
      refl good_registered good_ready

comes_before_iff_example : (comes_before good fresh ≡ true) ↔ Better good fresh
comes_before_iff_example = comes_before_iff good fresh

unregistered : member 5 controller.connections ≡ false
unfolding member
unregistered = refl

good_pingable : is_pingable store none 5000 1 ≡ true
unfolding is_pingable fresh
good_pingable = refl

no_selected : selected_first store 5000 none ≡ false
unfolding selected_first
no_selected = refl

find_next_pingable-some_example :
    (c : ℕ) × ((find_next_pingable store 5000 controller).1 ≡ some c)
    × (member c controller.connections ≡ true)
    × (is_pingable store none 5000 c ≡ true)
find_next_pingable-some_example =
    find_next_pingable-some store 5000 controller 1 tracked no_selected good_registered
      good_pingable

abbrev strong : IceController
strong = record controller { selected = some 1 }

strong_channel : weak_channel store (some 1) ≡ false
unfolding weak_channel
strong_channel = refl

abbrev chosen : IceController × Option ℕ × ℕ
chosen = select_connection_to_ping store 9000 100 strong

chosen_good : chosen.1 ≡ some 1
unfolding select_connection_to_ping fresh
chosen_good = refl

select_connection_to_ping-paced_example :
    Rested 9000 (store 1) × ChannelRested store 9000 100 strong
select_connection_to_ping-paced_example =
    select_connection_to_ping-paced store 9000 100 strong 1 strong_channel chosen_good

abbrev ping_at : ℕ → SentPing
ping_at t = record { id = []; sent_time = t }

abbrev waiting_long : IceConnection
waiting_long = record good {
  pings = ping_at 1000 ∷ ping_at 2000 ∷ ping_at 3000 ∷ ping_at 4000 ∷ ping_at 5000 ∷ [];
}

abbrev degraded : IceConnection
degraded = record waiting_long { write_state = write_unreliable }

degrades : update_state 9000 waiting_long ≡ alive degraded (state_change ∷ [])
unfolding update_state fresh
degrades = refl

update_state_alive_example :
    (degraded.pings ≡ waiting_long.pings)
    × ((degraded.write_state ≡ waiting_long.write_state)
        ⊎ ((waiting_long.write_state ≡ writable_state)
            × (degraded.write_state ≡ write_unreliable)
            × Unanswered 9000 waiting_long.pings))
update_state_alive_example =
    update_state_alive 9000 waiting_long degraded (state_change ∷ []) degrades

abbrev silent : IceConnection
silent = record fresh { pings = ping_at 1000 ∷ [] }

silent-IsDestroyed : IsDestroyed (update_state 20000 silent)
unfolding update_state fresh
silent-IsDestroyed = (refl, refl, state_change ∷ [], refl)

local_below : fresh.local_priority < 2 ^ 31
unfolding fresh
local_below = omega arith

remote_below : fresh.remote_priority < 2 ^ 31
unfolding fresh
remote_below = omega arith

priority_example :
    priority fresh
    ≡ 2 ^ 32 * min fresh.local_priority fresh.remote_priority
      + 2 * max fresh.local_priority fresh.remote_priority
      + (if ltb fresh.remote_priority fresh.local_priority then 1 else 0)
priority_example = priority_lem fresh local_below remote_below

one_there : member 1 (add_connection 1 no_connections).connections ≡ true
unfolding member add_connection
one_there = refl

none_there : member 1 no_connections.connections ≡ false
unfolding member
none_there = refl

Reaches-IsTracked_example : IsTracked (mark_connection_pinged 1 (add_connection 1 no_connections))
Reaches-IsTracked_example =
    Reaches-IsTracked (mark_connection_pinged 1 (add_connection 1 no_connections))
      (pinged 1 (added 1 start none_there) one_there)
