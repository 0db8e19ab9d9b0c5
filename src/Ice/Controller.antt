-- ===== src/Ice/Controller.antt =====
-- ice/ice_controller.cpp: which candidate pair of a channel is used for sending, and which one is
-- pinged next. A connection is named by its address; `store` gives the object at an address. A vector
-- of pointers is a list of addresses, a std::set of pointers a list of addresses in ascending order.
pub mod Order
pub mod Switch
pub mod Tracking
pub mod Search
pub mod Rotation
pub mod Insertion
pub mod Reach
use xrtc_server.Prelude.{
  ℕ, suc, ◌+◌, List, [], ◌∷◌, ◌++◌, Bool, true, false, not, ◌&&◌, ◌||◌, Option, some, none,
  if◌then◌else◌, ◌==◌, ltb, leb, length,
}
use xrtc_server.Ice.Connection.{IceConnection, write_value, writable, weak, stable, priority}

abbrev pub k_min_improvement : ℕ
k_min_improvement = 10

abbrev pub weak_ping_interval : ℕ
weak_ping_interval = 48

abbrev pub strong_ping_interval : ℕ
strong_ping_interval = 480

abbrev pub stabling_ping_interval : ℕ
stabling_ping_interval = 900

abbrev pub stable_ping_interval : ℕ
stable_ping_interval = 2500

abbrev pub min_pings_at_weak : ℕ
min_pings_at_weak = 3

abbrev pub Store : Type 0
Store = ℕ → IceConnection

pub record IceController : Type 0 where
  pub selected : Option ℕ
  pub connections : List ℕ
  pub pinged : List ℕ
  pub unpinged : List ℕ

-- The int that _compare_connections returns: 1, -1 or 0.
pub data Comparison : Type 0 where
  a_is_better b_is_better equal : Comparison

-- IceController::_compare_connections
unfoldable pub compare_connections : IceConnection → IceConnection → Comparison
unfolding writable
compare_connections a b =
    if writable a && not (writable b)
    then a_is_better
    else if not (writable a) && writable b
    then b_is_better
    else if ltb (write_value a.write_state) (write_value b.write_state)
    then a_is_better
    else if ltb (write_value b.write_state) (write_value a.write_state)
    then b_is_better
    else if a.receiving && not b.receiving
    then a_is_better
    else if not a.receiving && b.receiving
    then b_is_better
    else if ltb (priority b) (priority a)
    then a_is_better
    else if ltb (priority a) (priority b)
    then b_is_better
    else equal

unfoldable pub before_by : Comparison → Bool → Bool
before_by a_is_better by_rtt = true
before_by b_is_better by_rtt = false
before_by equal by_rtt = by_rtt

-- The function that sort_and_switch_connection sorts by.
unfoldable pub comes_before : IceConnection → IceConnection → Bool
unfolding compare_connections before_by
comes_before a b = before_by (compare_connections a b) (ltb a.rtt b.rtt)

-- IceController::ready_to_send, on a pointer that is not null.
unfoldable pub ready_to_send : IceConnection → Bool
unfolding writable
ready_to_send c = writable c || write_value c.write_state == 1

-- sort_and_switch_connection after the sort, by the first connection of the sorted vector.
unfoldable pub switch_to : Store → Option ℕ → List ℕ → Option ℕ
unfolding ready_to_send
switch_to store selected [] = none
switch_to store none (top ∷ rest) = if ready_to_send (store top) then some top else none
switch_to store (some s) (top ∷ rest) =
    if not (ready_to_send (store top)) || s == top
    then none
    else if leb ((store top).rtt + k_min_improvement) (store s).rtt
    then some top
    else none

-- IceController::sort_and_switch_connection. `sort` is absl::c_stable_sort, by a test that says which
-- element goes first.
unfoldable pub sort_and_switch_connection :
    ((ℕ → ℕ → Bool) → List ℕ → List ℕ) → Store → IceController → IceController × Option ℕ
unfolding comes_before switch_to
sort_and_switch_connection sort store k =
    let sorted = sort (λ a b. comes_before (store a) (store b)) k.connections in
    (record k { connections = sorted }, switch_to store k.selected sorted)

-- std::set and std::find on pointers.
unfoldable pub member : ℕ → List ℕ → Bool
member x [] = false
member x (y ∷ ys) = x == y || member x ys

unfoldable pub set_insert : ℕ → List ℕ → List ℕ
set_insert x [] = x ∷ []
set_insert x (y ∷ ys) =
    let rest = set_insert x ys in
    if ltb x y then x ∷ y ∷ ys else if x == y then y ∷ ys else y ∷ rest

unfoldable pub set_insert_all : List ℕ → List ℕ → List ℕ
unfolding set_insert
set_insert_all [] s = s
set_insert_all (x ∷ xs) s = set_insert_all xs (set_insert x s)

-- erase on a std::set or, in a vector, of the first that find meets.
unfoldable pub erase : ℕ → List ℕ → List ℕ
erase x [] = []
erase x (y ∷ ys) = let rest = erase x ys in if x == y then ys else y ∷ rest

-- IceController::add_connection
unfoldable pub add_connection : ℕ → IceController → IceController
unfolding set_insert
add_connection x k = record k {
  connections = k.connections ++ (x ∷ []);
  unpinged = set_insert x k.unpinged;
}

-- IceController::mark_connection_pinged, on a pointer that is not null.
unfoldable pub mark_connection_pinged : ℕ → IceController → IceController
unfolding member set_insert erase
mark_connection_pinged x k =
    if member x k.pinged
    then k
    else record k { pinged = set_insert x k.pinged; unpinged = erase x k.unpinged }

-- IceController::on_connection_destroyed
unfoldable pub on_connection_destroyed : ℕ → IceController → IceController
unfolding erase
on_connection_destroyed x k = record k {
  pinged = erase x k.pinged;
  unpinged = erase x k.unpinged;
  connections = erase x k.connections;
}

unfoldable pub weak_channel : Store → Option ℕ → Bool
unfolding weak
weak_channel store none = true
weak_channel store (some s) = weak (store s)

-- IceController::_get_connection_ping_interval
unfoldable pub ping_interval : ℕ → IceConnection → ℕ
unfolding stable
ping_interval now c =
    if ltb c.num_pings_sent min_pings_at_weak
    then weak_ping_interval
    else if not (stable now c)
    then stabling_ping_interval
    else stable_ping_interval

-- IceController::_is_connection_past_ping_interval
unfoldable pub past_ping_interval : ℕ → IceConnection → Bool
unfolding ping_interval
past_ping_interval now c = leb (c.last_ping_sent + ping_interval now c) now

-- IceController::_is_pingable
unfoldable pub is_pingable : Store → Option ℕ → ℕ → ℕ → Bool
unfolding weak_channel past_ping_interval
is_pingable store selected now x =
    if length (store x).username == 0 || length (store x).password == 0
    then false
    else if weak_channel store selected
    then true
    else past_ping_interval now (store x)

unfoldable pub any : (ℕ → Bool) → List ℕ → Bool
any test [] = false
any test (x ∷ xs) = test x || any test xs

-- IceController::has_pingable_connection
unfoldable pub has_pingable_connection : Store → ℕ → IceController → Bool
unfolding any is_pingable
has_pingable_connection store now k = any (is_pingable store k.selected now) k.connections

-- IceController::_more_pingable, with a first argument that is not null.
unfoldable pub more_pingable : Store → ℕ → Option ℕ → Bool
more_pingable store x none = true
more_pingable store x (some y) = ltb (store x).last_ping_sent (store y).last_ping_sent

-- The second loop of _find_next_pingable_connection.
unfoldable pub most_pingable : Store → (ℕ → Bool) → Option ℕ → List ℕ → Option ℕ
unfolding more_pingable
most_pingable store pingable found [] = found
most_pingable store pingable found (x ∷ xs) =
    most_pingable store pingable
      (if pingable x && more_pingable store x found then some x else found) xs

unfoldable pub selected_first : Store → ℕ → Option ℕ → Bool
unfolding writable past_ping_interval
selected_first store now none = false
selected_first store now (some s) = writable (store s) && past_ping_interval now (store s)

-- The sets after the first loop of _find_next_pingable_connection: a new round, if nothing is left of
-- the last.
unfoldable pub next_round : Store → ℕ → IceController → IceController
unfolding any is_pingable set_insert_all
next_round store now k =
    if any (is_pingable store k.selected now) k.unpinged
    then k
    else record k { unpinged = set_insert_all k.pinged k.unpinged; pinged = [] }

-- IceController::_find_next_pingable_connection
unfoldable pub find_next_pingable : Store → ℕ → IceController → IceController × Option ℕ
unfolding selected_first next_round most_pingable is_pingable
find_next_pingable store now k =
    if selected_first store now k.selected
    then (k, k.selected)
    else (let k₁ = next_round store now k in
        (k₁, most_pingable store (is_pingable store k.selected now) none k₁.unpinged))

-- IceController::select_connection_to_ping: the new sets, the connection and the interval.
unfoldable pub select_connection_to_ping :
    Store → ℕ → ℕ → IceController → IceController × Option ℕ × ℕ
unfolding any weak_channel find_next_pingable
select_connection_to_ping store now last k =
    let more = any (λ x. ltb (store x).num_pings_sent min_pings_at_weak) k.connections in
    let interval =
      if weak_channel store k.selected || more then weak_ping_interval else strong_ping_interval in
    if leb (last + interval) now
    then (let (k₁, found) = find_next_pingable store now k in (k₁, found, interval))
    else (k, none, interval)
