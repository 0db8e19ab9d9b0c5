-- ===== src/Ice/Connection.antt =====
-- ice/ice_connection.cpp: the state of a candidate pair. A time is the answer of rtc::TimeMillis, a
-- number of milliseconds; an object's address is a number. A method gives the new object and the
-- signals that it emits, in order.
pub mod Liveness
use xrtc_server.Prelude.{
  ℕ, suc, ◌+◌, ◌-◌, ◌*◌, ◌%◌, ◌^◌, max, min, List, [], ◌∷◌, ◌++◌, Bool, true, false, not, ◌&&◌,
  ◌||◌, Option, some, none, if◌then◌else◌, ◌==◌, ltb, leb, length, get_elem?, same_bytes,
}

-- In the order of the enum's values 0 to 3.
pub data WriteState : Type 0 where
  writable_state write_unreliable write_init write_timeout : WriteState

abbrev pub write_value : WriteState → ℕ
write_value writable_state = 0
write_value write_unreliable = 1
write_value write_init = 2
write_value write_timeout = 3

pub data PairState : Type 0 where
  waiting in_progress succeeded failed_pair : PairState

pub record SentPing : Type 0 where
  pub id : List ℕ
  pub sent_time : ℕ

-- Of the candidates: the priorities, and the remote user name and password.
pub record IceConnection : Type 0 where
  pub address : ℕ
  pub local_priority : ℕ
  pub remote_priority : ℕ
  pub username : List ℕ
  pub password : List ℕ
  pub write_state : WriteState
  pub receiving : Bool
  pub selected : Bool
  pub last_ping_sent : ℕ
  pub last_ping_response_received : ℕ
  pub last_ping_received : ℕ
  pub last_data_received : ℕ
  pub num_pings_sent : ℕ
  pub pings : List SentPing
  pub rtt : ℕ
  pub rtt_samples : ℕ
  pub state : PairState

pub data Signal : Type 0 where
  state_change connection_destroy : Signal

abbrev pub min_rtt : ℕ
min_rtt = 100

abbrev pub max_rtt : ℕ
max_rtt = 60000

abbrev pub rtt_ratio : ℕ
rtt_ratio = 3

abbrev pub receive_timeout : ℕ
receive_timeout = 2500

abbrev pub write_connect_fails : ℕ
write_connect_fails = 5

abbrev pub write_connect_timeout : ℕ
write_connect_timeout = 5000

abbrev pub write_timeout_ms : ℕ
write_timeout_ms = 15000

-- The constructor, with the initialisers of the header.
unfoldable pub new_connection : ℕ → ℕ → ℕ → List ℕ → List ℕ → IceConnection
new_connection address local remote username password = record {
  address = address;
  local_priority = local;
  remote_priority = remote;
  username = username;
  password = password;
  write_state = write_init;
  receiving = false;
  selected = false;
  last_ping_sent = 0;
  last_ping_response_received = 0;
  last_ping_received = 0;
  last_data_received = 0;
  num_pings_sent = 0;
  pings = [];
  rtt = 3000;
  rtt_samples = 0;
  state = waiting;
}

unfoldable pub writable : IceConnection → Bool
writable c = write_value c.write_state == 0

unfoldable pub weak : IceConnection → Bool
unfolding writable
weak c = not (writable c && c.receiving)

unfoldable pub active : IceConnection → Bool
active c = not (write_value c.write_state == 3)

-- An int64_t or a sum stored in an `int`, compared below `now`, which is not negative.
abbrev pub int_below : ℕ → ℕ → Bool
int_below x now = let w = x % 2 ^ 32 in if ltb w (2 ^ 31) then ltb w now else true

-- IceConnection::_too_many_ping_failed; `expected_response_time` is an `int`.
unfoldable pub too_many_ping_failed : ℕ → ℕ → ℕ → IceConnection → Bool
too_many_ping_failed max_pings rtt now c =
    if ltb (length c.pings) max_pings then false else elim (get_elem? c.pings (max_pings - 1)) [
      | none ↦ false
      | some p ↦ int_below (p.sent_time + rtt) now
    ]

-- IceConnection::_too_long_without_response
unfoldable pub too_long_without_response : ℕ → ℕ → List SentPing → Bool
too_long_without_response min_time now [] = false
too_long_without_response min_time now (p ∷ later) = ltb (p.sent_time + min_time) now

-- IceConnection::_miss_response, with `waiting` in an `int` and a clock that does not run backwards.
unfoldable pub miss_response : ℕ → ℕ → List SentPing → Bool
miss_response now rtt [] = false
miss_response now rtt (p ∷ later) =
    let waiting = (now - p.sent_time) % 2 ^ 32 in
    if ltb waiting (2 ^ 31) then ltb (2 * rtt) waiting else false

-- IceConnection::stable
unfoldable pub stable : ℕ → IceConnection → Bool
unfolding miss_response
stable now c = ltb (rtt_ratio + 1) c.rtt_samples && not (miss_response now c.rtt c.pings)

-- IceConnection::last_received
unfoldable pub last_received : IceConnection → ℕ
last_received c = max (max c.last_ping_received c.last_ping_response_received) c.last_data_received

-- IceConnection::set_write_state
unfoldable pub set_write_state : WriteState → IceConnection → IceConnection × List Signal
set_write_state s c = (
  record c { write_state = s },
  if write_value c.write_state == write_value s then [] else state_change ∷ [],
)

unfoldable pub same_bool : Bool → Bool → Bool
same_bool true b = b
same_bool false b = not b

-- The value that IceConnection::update_receiving computes.
unfoldable pub receiving_at : ℕ → IceConnection → Bool
unfolding last_received
receiving_at now c =
    if ltb c.last_ping_sent c.last_ping_response_received
    then true
    else ltb 0 (last_received c) && ltb now (last_received c + receive_timeout)

-- IceConnection::update_receiving
unfoldable pub update_receiving : ℕ → IceConnection → IceConnection × List Signal
unfolding receiving_at same_bool
update_receiving now c =
    if same_bool c.receiving (receiving_at now c)
    then (c, [])
    else (record c { receiving = receiving_at now c }, state_change ∷ [])

-- The window of IceConnection::update_state: 2 * _rtt, kept between 100 ms and 60 s.
unfoldable pub rtt_window : ℕ → ℕ
rtt_window r =
    if ltb (2 * r) min_rtt then min_rtt else if ltb max_rtt (2 * r) then max_rtt else 2 * r

-- What IceConnection::update_state comes to. `freed` is the object that `delete this` has freed when
-- the last line of the function, update_receiving(now), is called on it.
pub data Update : Type 0 where
  alive : IceConnection → List Signal → Update
  freed : IceConnection → List Signal → Update

-- The test of the first `if`.
unfoldable pub must_degrade : ℕ → IceConnection → Bool
unfolding too_many_ping_failed too_long_without_response rtt_window writable
must_degrade now c =
    writable c
    && too_many_ping_failed write_connect_fails (rtt_window c.rtt) now c
    && too_long_without_response write_connect_timeout now c.pings

-- The first `if`: from WRITABLE to WRITE_UNRELIABLE.
unfoldable pub degrade : ℕ → IceConnection → IceConnection × List Signal
unfolding set_write_state must_degrade
degrade now c = if must_degrade now c then set_write_state write_unreliable c else (c, [])

-- The test of the second `if`.
unfoldable pub timed_out : ℕ → IceConnection → Bool
unfolding too_long_without_response
timed_out now c =
    (write_value c.write_state == 1 || write_value c.write_state == 2)
    && too_long_without_response write_timeout_ms now c.pings

-- IceConnection::update_state; fail_and_destroy sets the state FAILED, emits connection_destroy and
-- deletes the object.
unfoldable pub update_state : ℕ → IceConnection → Update
unfolding degrade timed_out set_write_state update_receiving
update_state now c =
    let (c₁, s₁) = degrade now c in
    if timed_out now c₁
    then (let (c₂, s₂) = set_write_state write_timeout c₁ in
        freed (record c₂ { state = failed_pair }) (s₁ ++ (s₂ ++ (connection_destroy ∷ []))))
    else (let (c₂, s₂) = update_receiving now c₁ in alive c₂ (s₁ ++ s₂))

-- IceConnection::ping, by the id of the new request; the packet itself is made in stun_request.cpp.
unfoldable pub ping : ℕ → List ℕ → IceConnection → IceConnection
ping now id c = record c {
  last_ping_sent = now;
  pings = c.pings ++ (record { id = id; sent_time = now } ∷ []);
  state = in_progress;
  num_pings_sent = suc c.num_pings_sent;
}

-- IceConnection::received_ping_response. `average` is rtc::GetNextMovingAverage.
unfoldable pub received_ping_response :
    (ℕ → ℕ → ℕ → ℕ) → ℕ → ℕ → IceConnection → IceConnection × List Signal
unfolding update_receiving set_write_state
received_ping_response average now measured c =
    let c₁ = record c {
      rtt = if ltb 0 c.rtt_samples then average c.rtt measured rtt_ratio else measured;
      rtt_samples = suc c.rtt_samples;
      last_ping_response_received = now;
      pings = [];
    } in
    let (c₂, s₂) = update_receiving now c₁ in
    let (c₃, s₃) = set_write_state writable_state c₂ in (record c₃ { state = succeeded }, s₂ ++ s₃)

-- IceConnection::maybe_set_remote_ice_params
unfoldable pub maybe_set_remote_ice_params : List ℕ → List ℕ → IceConnection → IceConnection
maybe_set_remote_ice_params ufrag pwd c =
    if same_bytes c.username ufrag && length c.password == 0 then record c { password = pwd } else c

-- IceConnection::priority: `min << 32` in a uint64_t, and `2 * max` in a uint32_t.
unfoldable pub priority : IceConnection → ℕ
priority c =
    let g = c.local_priority in
    let d = c.remote_priority in
    (min g d * 2 ^ 32 + 2 * max g d % 2 ^ 32 + (if ltb d g then 1 else 0)) % 2 ^ 64

-- IceConnection::on_connection_request_error_response, by the answer of get_error_code_value: whether
-- the object is deleted.
unfoldable pub destroys_on_error : ℕ → Bool
destroys_on_error code = if code == 400 || code == 401 || code == 500 then false else true
