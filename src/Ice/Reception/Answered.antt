-- ===== src/Ice/Reception/Answered.antt =====
-- Which request a response is handled for.
use xrtc_server.Prelude.{
  ℕ, ◌≡◌, ◌≢◌, inl, inr, refl, List, Bool, true, false, Option, some, none, ap, ◌∙◌, sym,
  Bool-cases, Option-cases,
}
use xrtc_server.Net.{Net}
use xrtc_server.Stun.Data.{StunMessage}
use xrtc_server.Stun.Codes.{get_stun_success_response, get_stun_error_response}
use xrtc_server.Stun.Read.{get_error_code_value}
use xrtc_server.Stun.Check.{validate_message_integrity}
use xrtc_server.Stream.Table.{find}
use xrtc_server.Ice.Connection.{IceConnection, writable}
use xrtc_server.Ice.Port.{accepted}
use xrtc_server.Ice.Requests.{
  StunRequest, StunRequestManager, Handled, nothing, response, error_response, Checked, same_type,
  deleted, delete_request, on_error, respond, check_response, code_or,
}
use xrtc_server.Ice.Requests.Answers.{deleted_at, check_response_at, some_back, respond_error}
use xrtc_server.Ice.Reception.{Reception, after_handled, checked_response}

-- The request that a response was handled for.
abbrev pub Answers : StunMessage → StunRequestManager → StunRequest → Type 0
Answers msg m r =
    (find msg.transaction_id m.requests ≡ some r)
    × (same_type msg.type (get_stun_success_response r.type) ≡ true)

abbrev pub is_response : Handled → Bool
is_response nothing = false
is_response (response r) = true
is_response (error_response r c) = false

pub deleted_handled :
    (r : StunRequest) (b : Bool) (h : Handled) (o : Option StunRequestManager) (c : Checked)
    → deleted r b h o ≡ some c
    → c.handled ≡ h
deleted_handled r b h none c e = cc
deleted_handled r b h (some m) c e = elim (Option-cases (delete_request r m)) [
  | inl x ↦ (let z = sym (deleted_at r b h m none x) ∙ e in cc)
  | inr (n, x) ↦ sym (ap (λ z. z.handled) (some_back (sym (deleted_at r b h m (some n) x) ∙ e)))
]

pub respond_other :
    (msg : StunMessage) (r : StunRequest) (m : StunRequestManager)
    → same_type msg.type (get_stun_success_response r.type) ≡ false
    → same_type msg.type (get_stun_error_response r.type) ≡ false
    → respond msg r m ≡ deleted r false nothing (some m)
respond_other msg r m e f = rw (e, f) refl

pub respond-Answers :
    (msg : StunMessage) (r : StunRequest) (m : StunRequestManager) (c : Checked)
    → respond msg r m ≡ some c
    → is_response c.handled ≡ true
    → same_type msg.type (get_stun_success_response r.type) ≡ true
respond-Answers msg r m c e h =
    elim (Bool-cases (same_type msg.type (get_stun_success_response r.type))) [
      | inl on ↦ on
      | inr off ↦ elim (Bool-cases (same_type msg.type (get_stun_error_response r.type))) [
        | inl err ↦
            let z =
              deleted_handled r true (error_response r (code_or (get_error_code_value msg)))
                (on_error (get_error_code_value msg) m) c
                (sym (respond_error msg r m off err) ∙ e) in
            (let y = sym h ∙ ap is_response z in cc)
        | inr other ↦
            let z =
              deleted_handled r false nothing (some m) c
                (sym (respond_other msg r m off other) ∙ e) in
            (let y = sym h ∙ ap is_response z in cc)
      ]
    ]

pub check_response-Answers :
    (msg : StunMessage) (m : StunRequestManager) (c : Checked)
    → check_response msg m ≡ some c
    → is_response c.handled ≡ true
    → (r : StunRequest) × Answers msg m r
check_response-Answers msg m c e h = elim (Option-cases (find msg.transaction_id m.requests)) [
  | inl x ↦
      let z =
        ap is_response
          (ap (λ y. y.handled) (some_back (sym (check_response_at msg m none x) ∙ e))) in
      (let y = z ∙ h in cc)
  | inr (r, x) ↦
      (r, (x, respond-Answers msg r m c (sym (check_response_at msg m (some r) x) ∙ e) h))
]

-- A response that is not handled leaves the write state.
pub handled_writable :
    (round : ℕ → ℕ → ℕ → ℕ) (now : ℕ) (c : IceConnection) (m : StunRequestManager) (h : Handled)
    → writable c ≡ false
    → writable (after_handled round now c m h).connection ≡ true
    → is_response h ≡ true
handled_writable round now c m nothing off on = cc
handled_writable round now c m (response r) off on = refl
handled_writable round now c m (error_response r k) off on = cc

pub checked_writable :
    (round : ℕ → ℕ → ℕ → ℕ) (now : ℕ) (c : IceConnection) (o : Option Checked) (x : Reception)
    → checked_response round now c o ≡ some x
    → writable c ≡ false
    → writable x.connection ≡ true
    → (h : Checked) × (o ≡ some h) × (is_response h.handled ≡ true)
checked_writable round now c none x e off on = cc
checked_writable round now c (some h) x e off on = (
  h,
  refl,
  handled_writable round now c h.manager h.handled off
      (ap (λ y. writable y.connection) (some_back e) ∙ on),
)

pub stays_off :
    (o : Option Reception) (c : IceConnection) (r x : Reception)
    → o ≡ some r
    → writable r.connection ≡ false
    → o ≡ some x
    → writable x.connection ≢ true
stays_off o c r x e off f on = let z = ap (λ y. writable y.connection) (some_back (sym e ∙ f)) in cc

pub accepted_back : (m n : StunMessage) (u v : List ℕ) → accepted m u ≡ accepted n v → m ≡ n
accepted_back m n u v e = cc

-- The test of the digest keeps type and id.
pub kept-Answers :
    (net : Net) (pwd : List ℕ) (msg : StunMessage) (m : StunRequestManager) (r : StunRequest)
    → Answers (validate_message_integrity net pwd msg) m r
    → Answers msg m r
unfolding validate_message_integrity
kept-Answers net pwd msg m r a = a
