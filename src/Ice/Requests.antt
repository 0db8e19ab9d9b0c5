-- ===== src/Ice/Requests.antt =====
-- ice/stun_request.cpp: the requests of a connection that wait for a response, by transaction id, and
-- what a response does to them. An object is named by its address; `live` has those of the requests
-- that exist. `none` is the use or the second delete of an object that is gone.
pub mod Answers
use xrtc_server.Prelude.{
  ℕ, List, [], ◌∷◌, Bool, true, false, Option, some, none, if◌then◌else◌, ◌==◌,
}
use xrtc_server.Ice.Connection.{destroys_on_error}
use xrtc_server.Ice.Controller.{member, erase}
use xrtc_server.Stream.Table.{find, put, remove}
use xrtc_server.Stun.Codes.{get_stun_success_response, get_stun_error_response}
use xrtc_server.Stun.Data.{StunMessage}
use xrtc_server.Stun.Read.{get_error_code_value}

pub record StunRequest : Type 0 where
  pub address : ℕ
  pub id : List ℕ
  pub type : ℕ
  pub ts : ℕ

pub record StunRequestManager : Type 0 where
  pub requests : List (List ℕ × StunRequest)
  pub live : List ℕ

-- What on_request_response and on_request_error_response are called with.
pub data Handled : Type 0 where
  nothing : Handled
  response : StunRequest → Handled
  error_response : StunRequest → ℕ → Handled

pub record Checked : Type 0 where
  pub manager : StunRequestManager
  pub answer : Bool
  pub handled : Handled

-- `new ConnectionRequest`, then StunRequestManager::send.
unfoldable pub send : StunRequest → StunRequestManager → StunRequestManager
unfolding put
send r m = record { requests = put r.id r m.requests; live = r.address ∷ m.live }

-- StunRequestManager::remove
unfoldable pub remove_request : StunRequest → StunRequestManager → StunRequestManager
unfolding remove
remove_request r m = record m { requests = remove r.id m.requests }

-- `delete request`, whose destructor removes it.
unfoldable pub delete_request : StunRequest → StunRequestManager → Option StunRequestManager
unfolding remove_request member erase
delete_request r m =
    if member r.address m.live
    then some (remove_request r (record m { live = erase r.address m.live }))
    else none

-- StunRequestManager::~StunRequestManager, the loop over the requests of the table.
unfoldable pub delete_all : List (List ℕ × StunRequest) → List ℕ → Option (List ℕ)
unfolding member erase
delete_all [] live = some live
delete_all ((k, r) ∷ rest) live =
    let later = delete_all rest (erase r.address live) in
    if member r.address live then later else none

abbrev pub emptied : Option (List ℕ) → Option StunRequestManager
emptied none = none
emptied (some live) = some (record { requests = []; live = live })

-- IceConnection::on_connection_request_error_response: on most codes the connection goes away, and
-- its request manager with it.
unfoldable pub on_error : Option ℕ → StunRequestManager → Option StunRequestManager
unfolding delete_all
on_error none m = none
on_error (some code) m =
    if destroys_on_error code then emptied (delete_all m.requests m.live) else some m

abbrev pub same_type : ℕ → Option ℕ → Bool
same_type t none = false
same_type t (some u) = t == u

abbrev pub code_or : Option ℕ → ℕ
code_or none = 0
code_or (some c) = c

abbrev pub deleted : StunRequest → Bool → Handled → Option StunRequestManager → Option Checked
deleted r answer h none = none
deleted r answer h (some m) = elim (delete_request r m) [
  | none ↦ none
  | some n ↦ some (record { manager = n; answer = answer; handled = h })
]

abbrev pub respond : StunMessage → StunRequest → StunRequestManager → Option Checked
respond msg r m =
    if same_type msg.type (get_stun_success_response r.type)
    then deleted r true (response r) (some m)
    else if same_type msg.type (get_stun_error_response r.type)
    then deleted r true (error_response r (code_or (get_error_code_value msg)))
        (on_error (get_error_code_value msg) m)
    else deleted r false nothing (some m)

abbrev pub check_found : StunMessage → StunRequestManager → Option StunRequest → Option Checked
check_found msg m none = some (record { manager = m; answer = false; handled = nothing })
check_found msg m (some r) = respond msg r m

-- StunRequestManager::check_response
unfoldable pub check_response : StunMessage → StunRequestManager → Option Checked
unfolding find delete_request on_error get_stun_success_response get_stun_error_response
    get_error_code_value
check_response msg m = check_found msg m (find msg.transaction_id m.requests)
