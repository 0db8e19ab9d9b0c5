-- ===== src/Stream/Manager/Forwarding.antt =====
-- Where packets and answers go, and what a second stream of the same name does.
use xrtc_server.Prelude.{
  ℕ, ◌≡◌, ◌≢◌, inl, inr, refl, List, [], ◌∷◌, true, false, arith, Bool-cases, some, none, ◌==◌,
  subst, sym, same_bytes, same_bytes_iff,
}
use xrtc_server.Stream.Table.{find, put, remove, find-put, find-remove}
use xrtc_server.Ice.Controller.{erase, member}
use xrtc_server.Ice.Controller.Tracking.{Unique, member-erase}
use xrtc_server.Pc.ConnectionState.{k_failed}
use xrtc_server.Stream.Manager.{
  RtcStreamType, k_push, k_pull, RtcStream, Table, RtcStreamManager, create_push_stream, owned,
  remove_push_stream, on_connection_state, remove_stream, set_answer, on_rtp_packet_received,
  on_rtcp_packet_received,
}
use xrtc_server.Stream.Manager.Ownership.{IsOwner, owned_found}

-- Media goes from a push stream to the pull stream of the same name, which exists, and from a pull
-- stream nowhere.
pub on_rtp_packet_received-live :
    (t : RtcStreamType) (s r : RtcStream) (m : RtcStreamManager)
    → IsOwner m
    → on_rtp_packet_received t s m ≡ some r
    → (t ≡ k_push) × (r.stream_name ≡ s.stream_name) × (member r.address m.live ≡ true)
unfolding on_rtp_packet_received
on_rtp_packet_received-live k_push s r m o e =
    let (name, alive) = o.named_too s.stream_name r e in (refl, name, alive)
on_rtp_packet_received-live k_pull s r m o e = cc

-- Control packets go from a stream of one kind to the one of the other kind and the same name, which
-- exists and is not the sender.
pub on_rtcp_packet_received-live :
    (t : RtcStreamType) (s r : RtcStream) (m : RtcStreamManager)
    → IsOwner m
    → (t ≡ k_push → find s.stream_name m.push_streams ≡ some s)
    → (t ≡ k_pull → find s.stream_name m.pull_streams ≡ some s)
    → on_rtcp_packet_received t s m ≡ some r
    → (r.stream_name ≡ s.stream_name) × (member r.address m.live ≡ true) × (r.address ≢ s.address)
unfolding on_rtcp_packet_received
on_rtcp_packet_received-live k_push s r m o p q e =
    let (name, alive) = o.named_too s.stream_name r e in
    (name, alive, λ same. o.apart s.stream_name s.stream_name s r (p refl) e (sym same))
on_rtcp_packet_received-live k_pull s r m o p q e =
    let (name, alive) = o.named s.stream_name r e in
    (name, alive, λ same. o.apart s.stream_name s.stream_name r s e (q refl) same)

-- An answer reaches a stream exactly as it was asked for: of that name and that user, and one that
-- exists.
pub set_answer-live :
    (uid : ℕ) (name kind : List ℕ) (m : RtcStreamManager) (s : RtcStream)
    → IsOwner m
    → set_answer uid name kind m ≡ some s
    → (s.uid ≡ uid) × (s.stream_name ≡ name) × (member s.address m.live ≡ true)
unfolding set_answer
set_answer-live uid name kind m s o e =
    elim (Bool-cases (same_bytes kind (b'p' ∷ b'u' ∷ b's' ∷ b'h' ∷ []))) [
      | inl b ↦
          let (f, u) = owned_found uid (find name m.push_streams) s (rw b at e) in
          let (n, alive) = o.named name s f in (sym u, n, alive)
      | inr b ↦
          let (f, u) = owned_found uid (find name m.pull_streams) s (rw b at e) in
          let (n, alive) = o.named_too name s f in (sym u, n, alive)
    ]

same_refl : (n : List ℕ) → same_bytes n n ≡ true
same_refl n = (same_bytes_iff n n).1 refl

found_new : (n : List ℕ) (s : RtcStream) (t : Table) → find n (put n s t) ≡ some s
found_new n s t = (let g = rw (same_refl n) at (find-put n n s t) in g)

abbrev new_stream : ℕ → List ℕ → List ℕ → ℕ → List ℕ → RtcStream
new_stream address audio video uid name = record {
  address = address;
  uid = uid;
  stream_name = name;
  audio_source = audio;
  video_source = video;
}

distinct :
    (x y : ℕ) (m : RtcStreamManager) → member x m.live ≡ false → member y m.live ≡ true → x ≢ y
distinct x y m p q e = (let r = subst (λ z. member z m.live ≡ false) e p in cc)

-- No entry is the object.
abbrev pub Absent : ℕ → Table → Type 0
Absent x t = (n : List ℕ) (s : RtcStream) → find n t ≡ some s → s.address ≢ x

removed :
    (uid : ℕ) (name : List ℕ) (m : RtcStreamManager) (s : RtcStream)
    → find name m.push_streams ≡ some s
    → uid ≡ s.uid
    → remove_push_stream uid name m
      ≡ record m { push_streams = remove name m.push_streams; live = erase s.address m.live }
unfolding remove_push_stream owned
removed uid name m s f u =
    let b : (uid == s.uid) ≡ true = ground arith in rw (f, remove_push_stream, owned, b) refl

-- What is left after a second push stream of the name has been removed.
second_removed :
    (address uid : ℕ) (audio video name : List ℕ) (old : RtcStream) (m : RtcStreamManager)
    → IsOwner m
    → member address m.live ≡ false
    → member old.address m.live ≡ true
    → let after = remove_push_stream uid name (create_push_stream address audio video uid name m) in
      (find name after.push_streams ≡ none)
      × (member old.address after.live ≡ true)
      × (member address after.live ≡ false)
unfolding create_push_stream member
second_removed address uid audio video name old m o fresh alive =
    let new = new_stream address audio video uid name in
    let m₁ = create_push_stream address audio video uid name m in
    let e = removed uid name m₁ new (found_new name new m.push_streams) refl in
    let u : Unique m₁.live = (fresh, o.unique) in
    let gone = rw (same_refl name) at (find-remove name name m₁.push_streams) in
    let ne = distinct address old.address m fresh alive in
    rw e (
      gone,
      (let c = member-erase old.address address m₁.live u in ground arith),
      (let c = member-erase address address m₁.live u in ground arith),
    )

-- When the connection of the first of two push streams of one name and user fails, it is the second
-- that is deleted: the name has no push stream any more, the first object still exists and the second
-- does not.
pub on_connection_state_wrong :
    (address uid : ℕ) (audio video name : List ℕ) (old : RtcStream) (m : RtcStreamManager)
    → IsOwner m
    → member address m.live ≡ false
    → find name m.push_streams ≡ some old
    → old.uid ≡ uid
    → let after =
        on_connection_state k_push old k_failed
          (create_push_stream address audio video uid name m) in
      (find name after.push_streams ≡ none)
      × (member old.address after.live ≡ true)
      × (member address after.live ≡ false)
unfolding on_connection_state remove_stream
on_connection_state_wrong address uid audio video name old m o fresh f u =
    let (n, alive) = o.named name old f in
    rw (n, u, remove_stream) (second_removed address uid audio video name old m o fresh alive)
