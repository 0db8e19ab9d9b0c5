-- ===== src/Ice/Port/Authentication.antt =====
-- Which binding requests a port takes.
use xrtc_server.Prelude.{
  ℕ, ◌≡◌, ◌≢◌, ◌↔◌, inl, inr, refl, List, [], ◌∷◌, ◌++◌, Bool, true, false, ◌&&◌, All, Option, some,
  none, ap, ◌∙◌, sym, subst, Bool-cases, Option-cases, ◌==◌, same_bytes, same_bytes_iff,
}
use xrtc_server.Net.{Net}
use xrtc_server.Stun.Data.{
  Attribute, StunMessage, new_message, stun_binding_request, stun_attr_username,
  stun_attr_message_integrity,
}
use xrtc_server.Stun.Read.{parsed, get_attribute, read}
use xrtc_server.Stun.Check.{
  validate_fingerprint, validate_integrity_bytes, validate_message_integrity,
}
use xrtc_server.Stun.Parsed.{read_parsed}
use xrtc_server.Ice.Port.{
  UdpPort, refused, accepted, get_byte_string, is_some, is_ok, two_fields, parse_stun_username,
  check_user, check_message, get_stun_message, send_binding_error_response, stun_error_unauthorized,
  unauthorized, stun_error_bad_request, bad_request,
}

abbrev pub NoColon : List ℕ → Type 0
NoColon xs = All (λ c. c ≢ b':') xs

-- rtc::split at ':' gives the parts of the text, which have no colon.
abbrev pub Splits : (List ℕ → List (List ℕ)) → Type 0
Splits split =
    (xs a b : List ℕ) → (split xs ≡ a ∷ b ∷ []) ↔ ((xs ≡ a ++ (b':' ∷ b)) × NoColon a × NoColon b)

two_fields_iff :
    (fs : List (List ℕ)) (a b : List ℕ) → (two_fields fs ≡ some (a, b)) ↔ (fs ≡ a ∷ b ∷ [])
two_fields_iff [] a b = (λ e. cc, λ e. cc)
two_fields_iff (x ∷ []) a b = (λ e. cc, λ e. cc)
two_fields_iff (x ∷ y ∷ []) a b = (λ e. cc, λ e. cc)
two_fields_iff (x ∷ y ∷ z ∷ more) a b = (λ e. cc, λ e. cc)

no_bytes : (t : ℕ) (m : StunMessage) → get_attribute t m.attrs ≡ none → get_byte_string t m ≡ none
unfolding get_byte_string
no_bytes t m e = simp (e, get_byte_string)

attr_there :
    (t : ℕ) (m : StunMessage)
    → is_some (get_byte_string t m) ≡ true
    → get_attribute t m.attrs ≢ none
attr_there t m e missing = let z = sym e ∙ ap is_some (no_bytes t m missing) in cc

both_true : (a b : Bool) → a && b ≡ true → (a ≡ true) × (b ≡ true)
both_true true b e = (refl, e)
both_true false b e = cc

pub never : (o : Option (List ℕ)) (v : StunMessage) (u : List ℕ) → refused o ≢ accepted v u
never o v u e = cc

module _ (net : Net) (split : List ℕ → List (List ℕ)) where
  parse_none :
      (m : StunMessage)
      → get_byte_string stun_attr_username m ≡ none
      → parse_stun_username net split m ≡ none
  unfolding parse_stun_username
  parse_none m x = simp (x, parse_stun_username)

  parse_some :
      (m : StunMessage) (name : List ℕ)
      → get_byte_string stun_attr_username m ≡ some name
      → parse_stun_username net split m ≡ two_fields (split name)
  unfolding parse_stun_username
  parse_some m name x = simp (x, parse_stun_username)

  pub get_stun_message_at :
      (p : UdpPort) (m : StunMessage) (buf : List ℕ)
      → validate_fingerprint net buf ≡ true
      → read net new_message buf ≡ parsed (m, [])
      → get_stun_message net split p buf ≡ check_message net split p m
  unfolding get_stun_message
  get_stun_message_at p m buf f e = rw (f, get_stun_message) (rw e refl)

  status_ok :
      (pwd : List ℕ) (m : StunMessage) (a : Attribute)
      → get_attribute stun_attr_message_integrity m.attrs ≡ some a
      → validate_integrity_bytes net pwd m.buffer ≡ true
      → is_ok (validate_message_integrity net pwd m).integrity ≡ true
  unfolding validate_message_integrity
  status_ok pwd m a e b = rw (validate_message_integrity, e, b) refl

  status_bad :
      (pwd : List ℕ) (m : StunMessage) (a : Attribute)
      → get_attribute stun_attr_message_integrity m.attrs ≡ some a
      → validate_integrity_bytes net pwd m.buffer ≡ false
      → is_ok (validate_message_integrity net pwd m).integrity ≡ false
  unfolding validate_message_integrity
  status_bad pwd m a e b = rw (validate_message_integrity, e, b) refl

  check_message_at :
      (p : UdpPort) (m : StunMessage)
      → m.type ≡ stun_binding_request
      → is_some (get_byte_string stun_attr_username m) ≡ true
      → is_some (get_byte_string stun_attr_message_integrity m) ≡ true
      → check_message net split p m ≡ check_user net split p m (parse_stun_username net split m)
  unfolding check_message
  check_message_at p m t a b =
      let is_one : (m.type == 1) ≡ true = ap (λ x. x == 1) t in simp (is_one, a, b, check_message)

  check_message_refuses :
      (p : UdpPort) (m : StunMessage)
      → m.type ≡ stun_binding_request
      → is_some (get_byte_string stun_attr_username m)
          && is_some (get_byte_string stun_attr_message_integrity m)
        ≡ false
      → check_message net split p m
        ≡ refused (send_binding_error_response net split p m stun_error_bad_request bad_request)
  unfolding check_message
  check_message_refuses p m t b =
      let is_one : (m.type == 1) ≡ true = ap (λ x. x == 1) t in simp (is_one, b, check_message)

  parse_back :
      (m : StunMessage) (a b : List ℕ)
      → parse_stun_username net split m ≡ some (a, b)
      → (name : List ℕ) × (get_byte_string stun_attr_username m ≡ some name)
        × (split name ≡ a ∷ b ∷ [])
  unfolding parse_stun_username
  parse_back m a b e = elim (Option-cases (get_byte_string stun_attr_username m)) [
    | inl x ↦ (let z = sym (parse_none m x) ∙ e in cc)
    | inr (name, x) ↦ (name, x, (two_fields_iff (split name) a b).0 (sym (parse_some m name x) ∙ e))
  ]

  pub check_message_back :
      (p : UdpPort) (m v : StunMessage) (u : List ℕ)
      → m.type ≡ stun_binding_request
      → check_message net split p m ≡ accepted v u
      → (is_some (get_byte_string stun_attr_username m)
            && is_some (get_byte_string stun_attr_message_integrity m)
          ≡ true)
        × (check_user net split p m (parse_stun_username net split m) ≡ accepted v u)
  unfolding check_message
  check_message_back p m v u t e =
      let is_one : (m.type == 1) ≡ true = ap (λ x. x == 1) t in
      elim (Bool-cases (
        is_some (get_byte_string stun_attr_username m)
        && is_some (get_byte_string stun_attr_message_integrity m))) [
          | inl b ↦ (b, sym (simp (is_one, b, check_message)) ∙ e)
          | inr b ↦ absurd (
              never (send_binding_error_response net split p m stun_error_bad_request bad_request) v
                u (sym (check_message_refuses p m t b) ∙ e))
        ]

  check_user_name :
      (p : UdpPort) (m : StunMessage) (l r : List ℕ)
      → same_bytes l p.ice_ufrag ≡ false
      → check_user net split p m (some (l, r))
        ≡ refused (send_binding_error_response net split p m stun_error_unauthorized unauthorized)
  check_user_name p m l r e = rw e refl

  check_user_digest :
      (p : UdpPort) (m : StunMessage) (l r : List ℕ)
      → same_bytes l p.ice_ufrag ≡ true
      → is_ok (validate_message_integrity net p.ice_pwd m).integrity ≡ false
      → check_user net split p m (some (l, r))
        ≡ refused (
            send_binding_error_response net split p
              (validate_message_integrity net p.ice_pwd m)
              stun_error_unauthorized
              unauthorized)
  check_user_digest p m l r e f = rw (e, f) refl

  check_user_accepts :
      (p : UdpPort) (m : StunMessage) (l r : List ℕ)
      → same_bytes l p.ice_ufrag ≡ true
      → is_ok (validate_message_integrity net p.ice_pwd m).integrity ≡ true
      → check_user net split p m (some (l, r))
        ≡ accepted (validate_message_integrity net p.ice_pwd m) r
  check_user_accepts p m l r e f = rw (e, f) refl

  pub check_user_back :
      (p : UdpPort) (m v : StunMessage) (u : List ℕ) (o : Option (List ℕ × List ℕ))
      → check_user net split p m o ≡ accepted v u
      → (v ≡ validate_message_integrity net p.ice_pwd m)
        × (o ≡ some (p.ice_ufrag, u))
        × (is_ok v.integrity ≡ true)
  check_user_back p m v u none e = cc
  check_user_back p m v u (some (l, r)) e = elim (Bool-cases (same_bytes l p.ice_ufrag)) [
    | inr off ↦ (let z = check_user_name p m l r off in cc)
    | inl on ↦ elim (Bool-cases (is_ok (validate_message_integrity net p.ice_pwd m).integrity)) [
      | inr bad ↦ (let z = check_user_digest p m l r on bad in cc)
      | inl ok ↦
          let z = sym (check_user_accepts p m l r on ok) ∙ e in
          let same_v : validate_message_integrity net p.ice_pwd m ≡ v = cc in
          let same_u : r ≡ u = cc in
          let same_l = (same_bytes_iff l p.ice_ufrag).0 on in
          (
            sym same_v,
            ap some (cc (same_l, same_u)),
            subst (λ x. is_ok x.integrity ≡ true) same_v ok,
          )
    ]
  ]

  status_none :
      (pwd : List ℕ) (m : StunMessage)
      → get_attribute stun_attr_message_integrity m.attrs ≡ none
      → is_ok (validate_message_integrity net pwd m).integrity ≡ false
  unfolding validate_message_integrity
  status_none pwd m e = rw (validate_message_integrity, e) refl

  pub is_ok_bytes :
      (pwd : List ℕ) (m : StunMessage)
      → is_ok (validate_message_integrity net pwd m).integrity ≡ true
      → validate_integrity_bytes net pwd m.buffer ≡ true
  is_ok_bytes pwd m ok = elim (Option-cases (get_attribute stun_attr_message_integrity m.attrs)) [
    | inl e ↦ (let z = sym ok ∙ status_none pwd m e in cc)
    | inr (a, e) ↦ elim (Bool-cases (validate_integrity_bytes net pwd m.buffer)) [
      | inl b ↦ b
      | inr b ↦ (let z = sym ok ∙ status_bad pwd m a e b in cc)
    ]
  ]

  is_ok_iff :
      (pwd : List ℕ) (m : StunMessage)
      → get_attribute stun_attr_message_integrity m.attrs ≢ none
      → (is_ok (validate_message_integrity net pwd m).integrity ≡ true)
        ↔ (validate_integrity_bytes net pwd m.buffer ≡ true)
  is_ok_iff pwd m there = elim (Option-cases (get_attribute stun_attr_message_integrity m.attrs)) [
    | inl e ↦ absurd (there e)
    | inr (a, e) ↦ elim (Bool-cases (validate_integrity_bytes net pwd m.buffer)) [
      | inl b ↦ (λ x. b, λ x. status_ok pwd m a e b)
      | inr b ↦ (λ x. (let z = status_bad pwd m a e b in cc), λ x. (let z = b in cc))
    ]
  ]

  -- For rtc::split as documented: of a packet with a right fingerprint that parses to a binding
  -- request, the request and the name `u` of its sender are taken exactly if USERNAME is the port's own
  -- name, a colon and `u`, with no other colon, MESSAGE-INTEGRITY is there, and the digest in the bytes
  -- of the packet is the one that the port's password makes.
  pub get_stun_message_iff :
      (p : UdpPort) (m : StunMessage) (buf u : List ℕ)
      → Splits split
      → validate_fingerprint net buf ≡ true
      → read net new_message buf ≡ parsed (m, [])
      → m.type ≡ stun_binding_request
      → (get_stun_message net split p buf ≡ accepted (validate_message_integrity net p.ice_pwd m) u)
        ↔ ((get_byte_string stun_attr_username m ≡ some (p.ice_ufrag ++ (b':' ∷ u)))
            × NoColon p.ice_ufrag
            × NoColon u
            × (is_some (get_byte_string stun_attr_message_integrity m) ≡ true)
            × (validate_integrity_bytes net p.ice_pwd buf ≡ true))
  get_stun_message_iff p m buf u law f e t =
      let at = get_stun_message_at p m buf f e in
      let kept = (read_parsed net new_message m buf [] e).2 in
      (
        (λ x.
            (let (both, y) =
                check_message_back p m (validate_message_integrity net p.ice_pwd m) u t
                  (sym at ∙ x) in
              let (has_name, has_digest) =
                both_true (is_some (get_byte_string stun_attr_username m))
                  (is_some (get_byte_string stun_attr_message_integrity m)) both in
              let (v, parse, ok) =
                check_user_back p m (validate_message_integrity net p.ice_pwd m) u
                  (parse_stun_username net split m) y in
              let (name, found, parts) = parse_back m p.ice_ufrag u parse in
              let (whole, clean, clean') = (law name p.ice_ufrag u).0 parts in
              let digest =
                (is_ok_iff p.ice_pwd m (attr_there stun_attr_message_integrity m has_digest)).0
                  ok in
              (
                found ∙ ap some whole,
                clean,
                clean',
                has_digest,
                ap (validate_integrity_bytes net p.ice_pwd) (sym kept) ∙ digest,
              ))),
        (λ (name, clean, clean', mi, digest).
            (let parts = (law (p.ice_ufrag ++ (b':' ∷ u)) p.ice_ufrag u).1 (refl, clean, clean') in
              let parse =
                parse_some m (p.ice_ufrag ++ (b':' ∷ u)) name
                ∙ (two_fields_iff (split (p.ice_ufrag ++ (b':' ∷ u))) p.ice_ufrag u).1 parts in
              let ok =
                (is_ok_iff p.ice_pwd m (attr_there stun_attr_message_integrity m mi)).1
                  (ap (validate_integrity_bytes net p.ice_pwd) kept ∙ digest) in
              at
              ∙ check_message_at p m t (ap is_some name) mi
              ∙ ap (check_user net split p m) parse
              ∙ check_user_accepts p m p.ice_ufrag u
                  ((same_bytes_iff p.ice_ufrag p.ice_ufrag).1 refl) ok)),
      )
