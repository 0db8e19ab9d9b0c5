-- ===== src/Tests/Requests.antt =====
-- One waiting request and its responses.
use xrtc_server.Prelude.{
  ℕ, ◌≡◌, refl, List, [], ◌∷◌, true, false, some, none, if◌then◌else◌, same_bytes,
}
use xrtc_server.Net.Example.{example_net}
use xrtc_server.Stun.Data.{
  StunMessage, new_message, stun_binding_response, stun_binding_error_response,
}
use xrtc_server.Stun.Read.{read, read_attributes, is_magic_cookie}
use xrtc_server.Stream.Table.{find}
use xrtc_server.Ice.Controller.{member}
use xrtc_server.Ice.Requests.{
  StunRequest, StunRequestManager, nothing, response, send, check_response,
}
use xrtc_server.Ice.Requests.Answers.{
  IsTable, send-IsTable, check_response_once, check_response_twice_deleted,
}

abbrev id : List ℕ
id = 1 ∷ 2 ∷ 3 ∷ 4 ∷ 5 ∷ 6 ∷ 7 ∷ 8 ∷ 9 ∷ 10 ∷ 11 ∷ 12 ∷ []

abbrev first_request : StunRequest
first_request = record { address = 5; id = id; type = 1; ts = 40 }

abbrev pub no_requests : StunRequestManager
no_requests = record { requests = []; live = [] }

pub no_requests-IsTable : IsTable no_requests
unfolding find
no_requests-IsTable = record {
  named = λ k r e. cc;
  held = λ k r e. cc;
  apart = λ k l r s e f same. cc;
  unique = tt;
}

abbrev waiting : StunRequestManager
waiting = send first_request no_requests

waiting-IsTable : IsTable waiting
unfolding member
waiting-IsTable = send-IsTable first_request no_requests refl no_requests-IsTable

abbrev answer : StunMessage
unfolding new_message
answer = record new_message { type = stun_binding_response; transaction_id = id }

check_response_once_example :
    (n : StunRequestManager) × (check_response answer waiting
      ≡ some (record { manager = n; answer = true; handled = response first_request }))
    × IsTable n
    × ((k : List ℕ)
        → find k n.requests ≡ (if same_bytes k id then none else find k waiting.requests))
    × (member 5 n.live ≡ false)
    × (check_response answer n ≡ some (record { manager = n; answer = false; handled = nothing }))
unfolding find send answer same_bytes
check_response_once_example =
    check_response_once answer waiting first_request waiting-IsTable refl refl refl

abbrev error_packet : List ℕ
error_packet = 1 ∷ 17 ∷ 0 ∷ 0 ∷ 0x21 ∷ 0x12 ∷ 0xA4 ∷ 0x42 ∷ id

abbrev error_answer : StunMessage
unfolding new_message
error_answer = record new_message {
  type = stun_binding_error_response;
  transaction_id = id;
  buffer = error_packet;
}

check_response_twice_deleted_example : check_response error_answer waiting ≡ none
unfolding find send read is_magic_cookie read_attributes example_net new_message error_answer
    same_bytes
check_response_twice_deleted_example =
    check_response_twice_deleted example_net new_message error_answer error_packet [] waiting
      first_request refl waiting-IsTable refl refl refl
