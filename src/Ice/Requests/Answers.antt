-- ===== src/Ice/Requests/Answers.antt =====
-- A response finds its request once; an error response destroys the request twice.
use xrtc_server.Prelude.{
  ℕ, ◌≡◌, ◌≢◌, ◌⊎◌, inl, inr, refl, List, [], ◌∷◌, Bool, true, false, arith, Option, some, none, ap,
  ◌∙◌, sym, subst, if◌then◌else◌, same_bytes, same_bytes_iff,
}
use xrtc_server.Net.{Net}
use xrtc_server.Ice.Connection.{destroys_on_error}
use xrtc_server.Ice.Controller.{member, erase}
use xrtc_server.Ice.Controller.Tracking.{Unique, member-erase, erase-Unique}
use xrtc_server.Stream.Table.{find, put, find-put, find-remove}
use xrtc_server.Stun.Codes.{get_stun_success_response, get_stun_error_response}
use xrtc_server.Stun.Data.{
  StunMessage, stun_binding_request, stun_binding_response, stun_binding_error_response,
}
use xrtc_server.Stun.Read.{get_error_code_value, read, parsed}
use xrtc_server.Stun.Parsed.{get_error_code_value-read}
use xrtc_server.Ice.Requests.{
  StunRequest, StunRequestManager, Handled, nothing, response, error_response, same_type, code_or,
  send, delete_request, remove_request, delete_all, emptied, on_error, deleted, respond,
  check_found, check_response,
}

-- A request stands under its id, exists, and stands there only.
pub record IsTable (m : StunRequestManager) : Type 0 where
  pub named : (k : List ℕ) (r : StunRequest) → find k m.requests ≡ some r → r.id ≡ k
  pub held :
      (k : List ℕ) (r : StunRequest) → find k m.requests ≡ some r → member r.address m.live ≡ true
  pub apart :
      (k l : List ℕ) (r s : StunRequest)
      → find k m.requests ≡ some r
      → find l m.requests ≡ some s
      → r.address ≡ s.address
      → k ≡ l
  pub unique : Unique m.live

same_self : (k : List ℕ) → same_bytes k k ≡ true
same_self k = (same_bytes_iff k k).1 refl

pub some_back : {B : Type 0} {a b : B} → some a ≡ some b → a ≡ b
some_back e = cc

chosen_none :
    {B : Type 0} (b : Bool) (o : Option B) (x : B)
    → (if b then o else none) ≡ some x
    → (b ≡ true) × (o ≡ some x)
chosen_none true o x e = (refl, e)
chosen_none false o x e = cc

some_ap : {B : Type 0} {C : Type 0} (g : B → C) {a b : B} → some a ≡ some b → g a ≡ g b
some_ap g e = ap g (some_back e)

-- What a lookup finds that is made of two.
chosen :
    {B : Type 0} (b : Bool) (o p : Option B) (x : B)
    → (if b then o else p) ≡ some x
    → ((b ≡ true) × (o ≡ some x)) ⊎ ((b ≡ false) × (p ≡ some x))
chosen true o p x e = inl (refl, e)
chosen false o p x e = inr (refl, e)

not_there : (live : List ℕ) (x y : ℕ) → x ≡ y → member x live ≡ true → member y live ≡ false → ⊥
not_there live x y e p q = let z = ap (λ w. member w live) e in cc

-- A new object with an id that is not in use.
pub send-IsTable :
    (r : StunRequest) (m : StunRequestManager)
    → member r.address m.live ≡ false
    → IsTable m
    → IsTable (send r m)
unfolding send member
send-IsTable r m fresh t =
    let at = λ (k : List ℕ). find-put k r.id r m.requests in
    let cases = λ (k : List ℕ) (s : StunRequest) (e : find k (put r.id r m.requests) ≡ some s).
      chosen (same_bytes k r.id) (some r) (find k m.requests) s (sym (at k) ∙ e) in
    record {
      named = λ k s e. elim (cases k s e) [
        | inl (b, x) ↦ some_ap (λ z. z.id) (sym x) ∙ sym ((same_bytes_iff k r.id).0 b)
        | inr (b, x) ↦ t.named k s x
      ];
      held = λ k s e. elim (cases k s e) [
        | inl (b, x) ↦ (let z = some_ap (λ z. z.address) x in ground arith)
        | inr (b, x) ↦ (let z = t.held k s x in ground arith)
      ];
      apart = λ k l s u e f same. elim (cases k s e) [
        | inl (b, x) ↦ elim (cases l u f) [
          | inl (c, y) ↦ (same_bytes_iff k r.id).0 b ∙ sym ((same_bytes_iff l r.id).0 c)
          | inr (c, y) ↦ absurd (
              not_there m.live u.address r.address (sym same ∙ sym (some_ap (λ z. z.address) x))
                (t.held l u y) fresh)
        ]
        | inr (b, x) ↦ elim (cases l u f) [
          | inl (c, y) ↦ absurd (
              not_there m.live s.address r.address (same ∙ sym (some_ap (λ z. z.address) y))
                (t.held k s x) fresh)
          | inr (c, y) ↦ t.apart k l s u x y same
        ]
      ];
      unique = (fresh, t.unique);
    }

-- What is left when a request is deleted.
abbrev without : StunRequest → StunRequestManager → StunRequestManager
unfolding remove_request erase
without r m = remove_request r (record m { live = erase r.address m.live })

delete_request_at :
    (r : StunRequest) (m : StunRequestManager)
    → member r.address m.live ≡ true
    → delete_request r m ≡ some (without r m)
unfolding delete_request
delete_request_at r m e = simp (e, delete_request)

delete_request_twice :
    (r : StunRequest) (m : StunRequestManager)
    → member r.address m.live ≡ false
    → delete_request r m ≡ none
unfolding delete_request
delete_request_twice r m e = simp (e, delete_request)

find-without :
    (k : List ℕ) (r : StunRequest) (m : StunRequestManager)
    → find k (without r m).requests ≡ (if same_bytes k r.id then none else find k m.requests)
unfolding remove_request without
find-without k r m = find-remove k r.id m.requests

other_found :
    (k : List ℕ) (r s : StunRequest) (m : StunRequestManager)
    → find k (without r m).requests ≡ some s
    → (same_bytes k r.id ≡ false) × (find k m.requests ≡ some s)
other_found k r s m e =
    elim (chosen (same_bytes k r.id) none (find k m.requests) s (sym (find-without k r m) ∙ e)) [
      | inl (b, x) ↦ cc
      | inr (b, x) ↦ (b, x)
    ]

without-IsTable :
    (k : List ℕ) (r : StunRequest) (m : StunRequestManager)
    → find k m.requests ≡ some r
    → IsTable m
    → IsTable (without r m)
unfolding without remove_request
without-IsTable k r m here t = record {
  named = λ l s e. t.named l s (other_found l r s m e).1;
  held = λ l s e.
      (let (off, e') = other_found l r s m e in
        let there = t.held l s e' in
        let one = member-erase s.address r.address m.live t.unique in
        let apart : s.address ≢ r.address = λ same.
          (let z = same_self l in
            let w = ap (same_bytes l) (t.apart l k s r e' here same ∙ sym (t.named k r here)) in
            cc) in
        ground arith);
  apart =
      λ l j s u e f same. t.apart l j s u (other_found l r s m e).1 (other_found j r u m f).1 same;
  unique = erase-Unique r.address m.live t.unique;
}

respond_success :
    (msg : StunMessage) (r : StunRequest) (m : StunRequestManager)
    → same_type msg.type (get_stun_success_response r.type) ≡ true
    → respond msg r m ≡ deleted r true (response r) (some m)
respond_success msg r m e = rw e refl

pub respond_error :
    (msg : StunMessage) (r : StunRequest) (m : StunRequestManager)
    → same_type msg.type (get_stun_success_response r.type) ≡ false
    → same_type msg.type (get_stun_error_response r.type) ≡ true
    → respond msg r m
      ≡ deleted r true
          (error_response r (code_or (get_error_code_value msg)))
          (on_error (get_error_code_value msg) m)
respond_error msg r m e f = rw (e, f) refl

success_matches : (t u : ℕ) → t ≡ 1 → u ≡ 0x101 → same_type u (get_stun_success_response t) ≡ true
unfolding get_stun_success_response
success_matches t u e f = rw (e, f) refl

error_matches :
    (t u : ℕ)
    → t ≡ 1
    → u ≡ 0x111
    → (same_type u (get_stun_success_response t) ≡ false)
      × (same_type u (get_stun_error_response t) ≡ true)
unfolding get_stun_success_response get_stun_error_response
error_matches t u e f = (rw (e, f) refl, rw (e, f) refl)

pub check_response_at :
    (msg : StunMessage) (m : StunRequestManager) (o : Option StunRequest)
    → find msg.transaction_id m.requests ≡ o
    → check_response msg m ≡ check_found msg m o
unfolding check_response
check_response_at msg m o e = ap (check_found msg m) e

pub deleted_at :
    (r : StunRequest) (b : Bool) (h : Handled) (m : StunRequestManager)
    (o : Option StunRequestManager)
    → delete_request r m ≡ o
    → deleted r b h (some m)
      ≡ (elim o [ none ↦ none | some n ↦ some (record { manager = n; answer = b; handled = h }) ])
deleted_at r b h m o e = rw (e, deleted) refl

-- In a table whose requests exist, each under its id, a binding response with the id of a waiting
-- binding request gives that request to the handler and deletes it: it is gone from the table and from
-- the objects, every other request stays, and the same response again finds nothing.
pub check_response_once :
    (msg : StunMessage) (m : StunRequestManager) (r : StunRequest)
    → IsTable m
    → find msg.transaction_id m.requests ≡ some r
    → r.type ≡ stun_binding_request
    → msg.type ≡ stun_binding_response
    → (n : StunRequestManager) × (check_response msg m
        ≡ some (record { manager = n; answer = true; handled = response r }))
      × IsTable n
      × ((k : List ℕ)
          → find k n.requests
            ≡ (if same_bytes k msg.transaction_id then none else find k m.requests))
      × (member r.address n.live ≡ false)
      × (check_response msg n ≡ some (record { manager = n; answer = false; handled = nothing }))
unfolding without
check_response_once msg m r t here et em =
    let n = without r m in
    let id = t.named msg.transaction_id r here in
    let alone = member-erase r.address r.address m.live t.unique in
    let left : (k : List ℕ)
        → find k n.requests
          ≡ (if same_bytes k msg.transaction_id then none else find k m.requests) =
      λ k. find-without k r m ∙ ap (λ x. if same_bytes k x then none else find k m.requests) id in
    let gone : find msg.transaction_id n.requests ≡ none =
      left msg.transaction_id
      ∙ ap (λ b. if b then none else find msg.transaction_id m.requests)
          (same_self msg.transaction_id) in
    (
      n,
      check_response_at msg m (some r) here
          ∙ respond_success msg r m (success_matches r.type msg.type et em)
          ∙ deleted_at r true (response r) m (some n)
              (delete_request_at r m (t.held msg.transaction_id r here)),
      without-IsTable msg.transaction_id r m here t,
      left,
      ground arith,
      check_response_at msg n none gone,
    )

-- Deleting all of a table leaves none of its requests.
delete_all_keeps_out :
    (rs : List (List ℕ × StunRequest)) (live left : List ℕ) (x : ℕ)
    → Unique live
    → member x live ≡ false
    → delete_all rs live ≡ some left
    → member x left ≡ false
unfolding delete_all
delete_all_keeps_out [] live left x u out e = ap (member x) (sym (some_back e)) ∙ out
delete_all_keeps_out ((k, r) ∷ rs) live left x u out e =
    let fewer = member-erase x r.address live u in
    let (b, e') =
      chosen_none (member r.address live) (delete_all rs (erase r.address live)) left e in
    delete_all_keeps_out rs (erase r.address live) left x (erase-Unique r.address live u)
      (ground arith) e'

delete_all_gone :
    (rs : List (List ℕ × StunRequest)) (live left k : List ℕ) (r : StunRequest)
    → Unique live
    → find k rs ≡ some r
    → delete_all rs live ≡ some left
    → member r.address left ≡ false
unfolding delete_all find
delete_all_gone [] live left k r u here e = cc
delete_all_gone ((l, s) ∷ rs) live left k r u here e =
    let (b, e') =
      chosen_none (member s.address live) (delete_all rs (erase s.address live)) left e in
    let u' = erase-Unique s.address live u in
    elim (chosen (same_bytes k l) (some s) (find k rs) r here) [
      | inl (c, x) ↦
          let alone = member-erase s.address s.address live u in
          let out : member s.address (erase s.address live) ≡ false = ground arith in
          subst (λ z. member z left ≡ false) (some_ap (λ z. z.address) x)
            (delete_all_keeps_out rs (erase s.address live) left s.address u' out e')
      | inr (c, x) ↦ delete_all_gone rs (erase s.address live) left k r u' x e'
    ]

emptied_then :
    (o : Option (List ℕ)) (r : StunRequest) (b : Bool) (h : Handled)
    → ((left : List ℕ) → o ≡ some left → member r.address left ≡ false)
    → deleted r b h (emptied o) ≡ none
emptied_then none r b h gone = refl
emptied_then (some left) r b h gone =
    let m : StunRequestManager = record { requests = []; live = left } in
    deleted_at r b h m none (delete_request_twice r m (gone left refl))

on_error_600 :
    (o : Option ℕ) (m : StunRequestManager)
    → o ≡ some 600
    → on_error o m ≡ emptied (delete_all m.requests m.live)
unfolding on_error destroys_on_error
on_error_600 o m e = rw e refl

-- In such a table a binding error response that was parsed from a packet, with the id of a waiting
-- binding request, ends in the use of what is gone: the handler deletes the connection with its
-- request manager and all requests, whatever code the response carries, and then the request is
-- deleted again.
pub check_response_twice_deleted :
    (net : Net) (blank msg : StunMessage) (buf rest : List ℕ) (m : StunRequestManager)
    (r : StunRequest)
    → read net blank buf ≡ parsed (msg, rest)
    → IsTable m
    → find msg.transaction_id m.requests ≡ some r
    → r.type ≡ stun_binding_request
    → msg.type ≡ stun_binding_error_response
    → check_response msg m ≡ none
check_response_twice_deleted net blank msg buf rest m r e t here et em =
    let (off, on) = error_matches r.type msg.type et em in
    let code = get_error_code_value-read net blank msg buf rest e in
    check_response_at msg m (some r) here
    ∙ respond_error msg r m off on
    ∙ ap (deleted r true (error_response r (code_or (get_error_code_value msg))))
        (on_error_600 (get_error_code_value msg) m code)
    ∙ emptied_then (delete_all m.requests m.live) r true
        (error_response r (code_or (get_error_code_value msg)))
        (λ left d. delete_all_gone m.requests m.live left msg.transaction_id r t.unique here d)
