-- ===== src/Pc/Dtls.antt =====
-- pc/dtls_transport.cpp: the handshake over an ICE channel, and telling its packets from media. `none`
-- is the use of a null pointer. A null certificate is 0. The log of `signals` has what the transport has
-- signalled and handed to the adapter so far, in order.
pub mod Records
pub mod Follows
pub mod Handshake
pub mod Setup
pub mod Ready
pub mod Calls
pub mod Reach
use xrtc_server.Prelude.{
  ℕ, suc, zero, ◌+◌, ◌*◌, ◌-◌, List, [], ◌∷◌, ◌++◌, Bool, true, false, not, ◌&&◌, ◌||◌, Option,
  some, none, if◌then◌else◌, ◌==◌, ltb, leb, length, get_or, drop, bit_and, bit_or, same_bytes,
}
use xrtc_server.Pc.ConnectionState.{
  DtlsTransportState, dtls_new, dtls_connecting, dtls_connected, dtls_closed, dtls_failed,
  dtls_index,
}
use xrtc_server.Pc.Ssl.{Ssl, StreamResult, sr_error, sr_success, sr_block, sr_eos, DtlsEvent}

infixl 5 ◌>>=◌
abbrev pub ◌>>=◌ : {A B : Type 0} → Option A → (A → Option B) → Option B
none >>= f = none
some a >>= f = f a

abbrev pub k_dtls_record_header_len : ℕ
k_dtls_record_header_len = 13

abbrev k_dtls_handshake_value_offset : ℕ
k_dtls_handshake_value_offset = 17

abbrev k_min_rtp_packet_len : ℕ
k_min_rtp_packet_len = 12

unfoldable pub is_dtls_packet : List ℕ → Bool
is_dtls_packet buf =
    if ltb (length buf) k_dtls_record_header_len
    then false
    else ltb 19 (get_or buf 0 0) && ltb (get_or buf 0 0) 64

unfoldable pub is_dtls_client_hello_packet : List ℕ → Bool
unfolding is_dtls_packet
is_dtls_client_hello_packet buf =
    if not (is_dtls_packet buf)
    then false
    else ltb k_dtls_handshake_value_offset (length buf)
      && (get_or buf 0 0 == 22 && get_or buf 13 0 == 1)

unfoldable pub is_rtp_packet : List ℕ → Bool
is_rtp_packet buf = leb k_min_rtp_packet_len (length buf) && bit_and (get_or buf 0 0) 0xC0 == 0x80

-- The loop of _handle_dtls_packet over the records in a packet. Each round takes at least 13 bytes.
unfoldable pub record_len : List ℕ → ℕ
record_len buf = bit_or (get_or buf 11 0 * 256) (get_or buf 12 0)

unfoldable pub whole_records : ℕ → List ℕ → Bool
unfolding record_len
whole_records fuel [] = true
whole_records zero (b ∷ buf) = false
whole_records (suc fuel) (b ∷ buf) =
    let n = record_len (b ∷ buf) in
    let rest = whole_records fuel (drop (k_dtls_record_header_len + n) (b ∷ buf)) in
    if ltb (length (b ∷ buf)) k_dtls_record_header_len
    then false
    else if ltb (length (b ∷ buf)) (n + k_dtls_record_header_len)
    then false
    else rest

pub data Signal : Type 0 where
  dtls_state_signal : DtlsTransportState → Signal
  writable_signal : Bool → Signal
  receiving_signal : Bool → Signal
  closed_signal : Signal
  read_packet_signal : List ℕ → ℕ → Signal
  handed_over : List ℕ → Signal

pub record DtlsTransport (A : Type 0) : Type 0 where
  pub dtls_state : DtlsTransportState
  pub receiving : Bool
  pub writable : Bool
  pub dtls : Option A
  pub catched_client_hello : List ℕ
  pub local_certificate : ℕ
  pub remote_fingerprint_value : List ℕ
  pub remote_fingerprint_alg : List ℕ
  pub dtls_active : Bool
  pub srtp_ciphers : List ℕ
  pub signals : List Signal

-- A transport and the answer of the call.
abbrev pub Answer : Type 0 → Type 0
Answer A = Option (DtlsTransport A × Bool)

abbrev pub new_dtls_transport : {A : Type 0} → List ℕ → DtlsTransport A
new_dtls_transport suites = record {
  dtls_state = dtls_new;
  receiving = false;
  writable = false;
  dtls = none;
  catched_client_hello = [];
  local_certificate = 0;
  remote_fingerprint_value = [];
  remote_fingerprint_alg = [];
  dtls_active = false;
  srtp_ciphers = suites;
  signals = [];
}

abbrev pub is_empty : List ℕ → Bool
is_empty [] = true
is_empty (x ∷ xs) = false

abbrev pub same_flag : Bool → Bool → Bool
same_flag true b = b
same_flag false b = not b

abbrev pub signal : {A : Type 0} → Signal → DtlsTransport A → DtlsTransport A
signal s t = record t { signals = t.signals ++ (s ∷ []) }

unfoldable pub set_dtls_state :
    {A : Type 0} → DtlsTransportState → DtlsTransport A → DtlsTransport A
set_dtls_state s t =
    if dtls_index t.dtls_state == dtls_index s
    then t
    else signal (dtls_state_signal s) (record t { dtls_state = s })

unfoldable pub set_writable_state : {A : Type 0} → Bool → DtlsTransport A → DtlsTransport A
set_writable_state w t =
    if same_flag t.writable w then t else signal (writable_signal w) (record t { writable = w })

unfoldable pub set_receiving : {A : Type 0} → Bool → DtlsTransport A → DtlsTransport A
set_receiving r t =
    if same_flag t.receiving r then t else signal (receiving_signal r) (record t { receiving = r })

-- Both ends of the loop in _on_dtls_event that close the transport.
unfoldable pub closed_by_remote : {A : Type 0} → DtlsTransport A → DtlsTransport A
unfolding set_dtls_state set_writable_state
closed_by_remote t = signal closed_signal (set_dtls_state dtls_closed (set_writable_state false t))

-- One round, by the result of the read, with what the next rounds give.
abbrev pub read_end :
    {A : Type 0}
    → StreamResult
    → DtlsTransport A
    → Option (DtlsTransport A)
    → Option (DtlsTransport A)
read_end sr_error u rest = some (closed_by_remote u)
read_end sr_success u rest = rest
read_end sr_block u rest = some u
read_end sr_eos u rest = some (closed_by_remote u)

module _ {A : Type 0} (ssl : Ssl A) where
  -- The loop of _on_dtls_event that reads until a read does not succeed.
  unfoldable pub read_loop : ℕ → DtlsTransport A → Option (DtlsTransport A)
  unfolding closed_by_remote
  read_loop zero t = none
  read_loop (suc fuel) t = elim t.dtls [
    | none ↦ none
    | some a ↦
        let u : DtlsTransport A = record t { dtls = some (ssl.read a).0 } in
        let rest = read_loop fuel u in read_end (ssl.read a).1 u rest
  ]

  unfoldable pub read_all : DtlsTransport A → Option (DtlsTransport A)
  unfolding read_loop
  read_all t = elim t.dtls [ none ↦ none | some a ↦ read_loop (suc (ssl.pending a)) t ]

  abbrev pub event_opens : DtlsEvent → DtlsTransport A → DtlsTransport A
  event_opens e t =
      if e.se_open then set_dtls_state dtls_connected (set_writable_state true t) else t

  abbrev pub event_closes : DtlsEvent → DtlsTransport A → DtlsTransport A
  event_closes e t =
      if e.se_close
      then set_dtls_state (if e.error == 0 then dtls_closed else dtls_failed)
          (set_writable_state false t)
      else t

  unfoldable pub on_dtls_event : DtlsEvent → DtlsTransport A → Option (DtlsTransport A)
  unfolding read_all set_dtls_state set_writable_state
  on_dtls_event e t = do
    u ← if e.se_read then read_all (event_opens e t) else some (event_opens e t)
    some (event_closes e u)

  unfoldable pub on_dtls_events : List DtlsEvent → DtlsTransport A → Option (DtlsTransport A)
  unfolding on_dtls_event
  on_dtls_events [] t = some t
  on_dtls_events (e ∷ es) t = do u ← on_dtls_event e t; on_dtls_events es u

  unfoldable pub handle_dtls_packet : List ℕ → DtlsTransport A → Answer A
  unfolding whole_records on_dtls_events
  handle_dtls_packet data_ t =
      if not (whole_records (length data_) data_) then some (t, false) else elim t.dtls [
        | none ↦ none
        | some a ↦ do
          u ← on_dtls_events (ssl.on_received_packet data_ a).1 (
              signal (handed_over data_)
                (record t { dtls = some (ssl.on_received_packet data_ a).0 }))
          some (u, true)
      ]

  abbrev pub failed_unless : Bool → DtlsTransport A → DtlsTransport A
  failed_unless ok t = if ok then t else set_dtls_state dtls_failed t

  -- Behind StartSSL.
  unfoldable pub replay_client_hello : DtlsTransport A → Option (DtlsTransport A)
  unfolding handle_dtls_packet set_dtls_state
  replay_client_hello t = if is_empty t.catched_client_hello then some t else do
    r ← handle_dtls_packet t.catched_client_hello t
    some (record (failed_unless r.1 r.0) { catched_client_hello = [] })

  unfoldable pub maybe_start_dtls : Bool → DtlsTransport A → Option (DtlsTransport A)
  unfolding replay_client_hello set_dtls_state
  maybe_start_dtls channel_writable t = elim t.dtls [
    | none ↦ some t
    | some a ↦
        if not channel_writable
        then some t
        else let u : DtlsTransport A = record t { dtls = some (ssl.start_ssl a).0 } in
          if not ((ssl.start_ssl a).1 == 0)
          then some (set_dtls_state dtls_failed u)
          else replay_client_hello (set_dtls_state dtls_connecting u)
  ]

  abbrev pub with_digest : DtlsTransport A → A → A × Option Bool
  with_digest t a =
      if is_empty t.remote_fingerprint_value
      then (a, none)
      else ssl.set_peer_certificate_digest t.remote_fingerprint_alg t.remote_fingerprint_value a

  abbrev pub with_suites : DtlsTransport A → A → A × Bool
  with_suites t a =
      if is_empty t.srtp_ciphers
      then (a, true)
      else ssl.set_dtls_srtp_crypto_suites t.srtp_ciphers a

  abbrev pub finish_setup : Bool → DtlsTransport A → A × Bool → Answer A
  finish_setup channel_writable t (a, false) = some (record t { dtls = some a }, false)
  finish_setup channel_writable t (a, true) = do
    u ← maybe_start_dtls channel_writable (record t { dtls = some a })
    some (u, true)

  abbrev pub setup_with : Bool → DtlsTransport A → A × Option Bool → Answer A
  setup_with channel_writable t (a, some e) = some (record t { dtls = some a }, false)
  setup_with channel_writable t (a, none) = finish_setup channel_writable t (with_suites t a)

  unfoldable pub setup_dtls : Bool → DtlsTransport A → Answer A
  unfolding maybe_start_dtls
  setup_dtls channel_writable t = elim ssl.create [
    | none ↦ some (record t { dtls = none }, false)
    | some a ↦
        if t.local_certificate == 0
        then none
        else setup_with channel_writable t (with_digest t (ssl.configure t.local_certificate a))
  ]

  abbrev pub on_writable_in : DtlsTransportState → Bool → DtlsTransport A → Option (DtlsTransport A)
  on_writable_in dtls_new channel_writable t = maybe_start_dtls channel_writable t
  on_writable_in dtls_connecting channel_writable t = some t
  on_writable_in dtls_connected channel_writable t = some (set_writable_state channel_writable t)
  on_writable_in dtls_closed channel_writable t = some t
  on_writable_in dtls_failed channel_writable t = some t

  unfoldable pub on_writable_state : Bool → DtlsTransport A → Option (DtlsTransport A)
  unfolding maybe_start_dtls set_writable_state
  on_writable_state channel_writable t =
      if not t.dtls_active
      then some (set_writable_state channel_writable t)
      else on_writable_in t.dtls_state channel_writable t

  -- A ClientHello has been kept.
  abbrev pub setup_for_hello : Bool → DtlsTransport A → Option A → Option (DtlsTransport A)
  setup_for_hello channel_writable t (some a) = some t
  setup_for_hello channel_writable t none =
      if t.local_certificate == 0 then some t else do r ← setup_dtls channel_writable t; some r.0

  unfoldable pub catch_client_hello : Bool → List ℕ → DtlsTransport A → Option (DtlsTransport A)
  unfolding is_dtls_client_hello_packet setup_dtls
  catch_client_hello channel_writable buf t =
      if is_dtls_client_hello_packet buf
      then setup_for_hello channel_writable (record t { catched_client_hello = buf }) t.dtls
      else some t

  -- The cases of k_connecting and k_connected.
  unfoldable pub on_packet : List ℕ → ℕ → DtlsTransport A → Option (DtlsTransport A)
  unfolding is_dtls_packet is_rtp_packet handle_dtls_packet
  on_packet buf ts t =
      if is_dtls_packet buf
      then (do r ← handle_dtls_packet buf t; some r.0)
      else if not (dtls_index t.dtls_state == dtls_index dtls_connected)
      then some t
      else if not (is_rtp_packet buf)
      then some t
      else some (signal (read_packet_signal buf ts) t)

  abbrev pub on_read_in :
      DtlsTransportState → Bool → List ℕ → ℕ → DtlsTransport A → Option (DtlsTransport A)
  on_read_in dtls_new channel_writable buf ts t = catch_client_hello channel_writable buf t
  on_read_in dtls_connecting channel_writable buf ts t = on_packet buf ts t
  on_read_in dtls_connected channel_writable buf ts t = on_packet buf ts t
  on_read_in dtls_closed channel_writable buf ts t = some t
  on_read_in dtls_failed channel_writable buf ts t = some t

  unfoldable pub on_read_packet : Bool → List ℕ → ℕ → DtlsTransport A → Option (DtlsTransport A)
  unfolding catch_client_hello on_packet
  on_read_packet channel_writable buf ts t = on_read_in t.dtls_state channel_writable buf ts t

  unfoldable pub set_local_certificate : ℕ → DtlsTransport A → DtlsTransport A × Bool
  set_local_certificate certificate t =
      if t.dtls_active
      then (t, certificate == t.local_certificate)
      else if certificate == 0
      then (t, true)
      else (record t { local_certificate = certificate; dtls_active = true }, true)

  -- The two cases of an adapter that is there; `t` has the new fingerprint.
  abbrev pub digest_set : DtlsTransport A → A × Option Bool → Answer A
  digest_set t (a, none) = some (record t { dtls = some a }, true)
  digest_set t (a, some verification_failed) =
      some (set_dtls_state dtls_failed (record t { dtls = some a }), verification_failed)

  abbrev pub rebuilt : DtlsTransport A → DtlsTransport A
  rebuilt t = set_writable_state false (set_dtls_state dtls_new (record t { dtls = none }))

  abbrev pub setup_or_fail : Bool → DtlsTransport A → Answer A
  setup_or_fail channel_writable t = do
    r ← setup_dtls channel_writable t
    some (failed_unless r.1 r.0, r.1)

  -- `t` has the new fingerprint; `change` is is_fingerprint_change.
  abbrev pub apply_fingerprint : Bool → Bool → DtlsTransport A → Option A → Answer A
  apply_fingerprint channel_writable change t none = setup_or_fail channel_writable t
  apply_fingerprint channel_writable change t (some a) =
      if not change
      then digest_set t
          (ssl.set_peer_certificate_digest t.remote_fingerprint_alg t.remote_fingerprint_value a)
      else setup_or_fail channel_writable (rebuilt t)

  unfoldable pub set_remote_fingerprint : Bool → List ℕ → List ℕ → DtlsTransport A → Answer A
  unfolding same_bytes set_dtls_state set_writable_state setup_dtls
  set_remote_fingerprint channel_writable digest_alg digest t =
      if t.dtls_active && same_bytes t.remote_fingerprint_value digest
      then some (t, true)
      else if is_empty digest_alg
      then some (record t { dtls_active = false }, false)
      else if not t.dtls_active
      then some (t, false)
      else apply_fingerprint channel_writable (not (is_empty t.remote_fingerprint_alg))
          (record t { remote_fingerprint_value = digest; remote_fingerprint_alg = digest_alg })
          t.dtls
