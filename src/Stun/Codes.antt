-- ===== src/Stun/Codes.antt =====
-- ice/stun.cpp: classes of message types and the code of an error attribute.
use xrtc_server.Prelude.{
  ℕ, zero, suc, ◌+◌, ◌*◌, ◌/◌, ◌%◌, ◌<◌, ◌≡◌, ◌≢◌, refl, Bool, true, false, ◌&&◌, not, Option, some,
  none, List, [], ◌∷◌, bit_and, bit_or, arith, ◌==◌, if◌then◌else◌, Bool-cases,
}
use xrtc_server.Stun.Data.{Attribute, error_code, stun_attr_error_code}

abbrev pub k_stun_class_mask : ℕ
k_stun_class_mask = 0x0110

abbrev pub stun_error_global_fail : ℕ
stun_error_global_fail = 600

-- static bool is_stun_request_type(uint16_t)
unfoldable pub is_stun_request_type : ℕ → Bool
is_stun_request_type t = bit_and (t % 65536) k_stun_class_mask == 0

-- `req_type & ~k_stun_class_mask | c` on an int from a uint16_t; `none` is the answer -1.
unfoldable pub response_of_class : ℕ → ℕ → Option ℕ
unfolding is_stun_request_type
response_of_class c t = if is_stun_request_type t then some (bit_or (bit_and t 0xFEEF) c) else none

unfoldable pub get_stun_success_response : ℕ → Option ℕ
unfolding response_of_class
get_stun_success_response t = response_of_class 0x100 t

unfoldable pub get_stun_error_response : ℕ → Option ℕ
unfolding response_of_class
get_stun_error_response t = response_of_class 0x110 t

-- StunErrorCodeAttribute: create_error_code, then set_code and set_reason. `_class` and `_number` are
-- uint8_t.
unfoldable pub error_code_of : ℕ → List ℕ → Attribute
error_code_of code reason =
    error_code stun_attr_error_code ((4 + xrtc_server.Prelude.length reason) % 65536)
      (code / 100 % 256) (code % 100) reason

-- StunErrorCodeAttribute::code; any other attribute read as one is undefined in C++.
unfoldable pub code_of : Attribute → Option ℕ
code_of (error_code t n c k r) = some (c * 100 + k)
code_of a = none

-- The code that was set is the code that is read back, for every code whose hundreds fit a byte.
pub code_of-error_code_of :
    (code : ℕ) (reason : List ℕ) → code < 25600 → code_of (error_code_of code reason) ≡ some code
unfolding code_of error_code_of
code_of-error_code_of code reason h = ground arith

-- A test of each number under a limit.
each_below : (ℕ → Bool) → ℕ → Bool
each_below test zero = true
each_below test (suc limit) = let rest = each_below test limit in test limit && rest

each_below-true :
    (test : ℕ → Bool) (limit number : ℕ)
    → number < limit
    → each_below test limit ≡ true
    → test number ≡ true
unfolding each_below
each_below-true test zero number small all = absurd (omega arith)
each_below-true test (suc limit) number small all =
    let smaller = each_below-true test limit number in ground arith

-- On one type: of a request both responses exist, differ, are no requests, and keep the method bits;
-- of anything else there is none.
abbrev pub ResponsesOf : ℕ → Option ℕ → Option ℕ → Type 0
ResponsesOf t (some s) (some e) =
    (is_stun_request_type t ≡ true)
    × (is_stun_request_type s ≡ false)
    × (is_stun_request_type e ≡ false)
    × (bit_and s 0x3EEF ≡ bit_and t 0x3EEF)
    × (bit_and e 0x3EEF ≡ bit_and t 0x3EEF)
    × (bit_and s 0x0110 ≡ 0x0100)
    × (bit_and e 0x0110 ≡ 0x0110)
ResponsesOf t (some s) none = ⊥
ResponsesOf t none (some e) = ⊥
ResponsesOf t none none = is_stun_request_type t ≡ false

responses_agree : ℕ → Option ℕ → Option ℕ → Bool
responses_agree t (some s) (some e) =
    is_stun_request_type t
    && not (is_stun_request_type s)
    && not (is_stun_request_type e)
    && bit_and s 0x3EEF == bit_and t 0x3EEF
    && bit_and e 0x3EEF == bit_and t 0x3EEF
    && bit_and s 0x0110 == 0x0100
    && bit_and e 0x0110 == 0x0110
responses_agree t (some s) none = false
responses_agree t none (some e) = false
responses_agree t none none = not (is_stun_request_type t)

responses_agree_sound : (t : ℕ) (s e : Option ℕ) → responses_agree t s e ≡ true → ResponsesOf t s e
unfolding responses_agree
responses_agree_sound t (some s) (some e) h = ground arith
responses_agree_sound t (some s) none h = cc
responses_agree_sound t none (some e) h = cc
responses_agree_sound t none none h = ground arith

-- Checked on every value of a uint16_t.
responses_table :
    each_below
      (λ t. responses_agree t (get_stun_success_response t) (get_stun_error_response t))
      65536
    ≡ true
unfolding each_below responses_agree get_stun_success_response get_stun_error_response
    is_stun_request_type
responses_table = refl

-- For each uint16_t type, both responses exist exactly for a request; they are then no requests, keep
-- the method bits, and have the class bits of a success and of an error.
pub get_stun_response_lem :
    (t : ℕ) → t < 65536 → ResponsesOf t (get_stun_success_response t) (get_stun_error_response t)
get_stun_response_lem t h =
    responses_agree_sound t _ _ (each_below-true _ 65536 t h responses_table)
