-- ===== src/Stream/Manager/Ownership.antt =====
-- Which objects the tables of streams hold, and which exist.
use xrtc_server.Prelude.{
  ℕ, ◌≡◌, ◌≢◌, ◌⊎◌, inl, inr, refl, List, ◌∷◌, Bool, true, false, arith, Bool-cases, Option-cases,
  Option, some, none, ◌==◌, subst, ap, sym, ◌∙◌, if◌then◌else◌, same_bytes, same_bytes_iff,
}
use xrtc_server.Stream.Table.{find, put, remove, find-put, find-remove}
use xrtc_server.Ice.Controller.{erase, member}
use xrtc_server.Ice.Controller.Tracking.{Unique, member-erase, erase-Unique}
use xrtc_server.Pc.ConnectionState.{PeerConnectionState, k_failed, pc_index}
use xrtc_server.Stream.Manager.{
  RtcStreamType, k_push, k_pull, RtcStream, Table, RtcStreamManager, create_push_stream, owned,
  remove_push_stream, remove_pull_stream, create_pull_stream, on_connection_state,
  on_stream_exception, remove_stream,
}

-- Each entry is an object that exists, under its name.
abbrev pub Named : List ℕ → Table → Type 0
Named live t =
    (n : List ℕ) (s : RtcStream)
    → find n t ≡ some s
    → (s.stream_name ≡ n) × (member s.address live ≡ true)

-- No object stands in two entries.
abbrev pub Apart : Table → Table → Type 0
Apart t u =
    (n k : List ℕ) (s r : RtcStream) → find n t ≡ some s → find k u ≡ some r → s.address ≢ r.address

abbrev pub Once : Table → Type 0
Once t =
    (n k : List ℕ) (s r : RtcStream)
    → find n t ≡ some s
    → find k t ≡ some r
    → s.address ≡ r.address
    → n ≡ k

-- Two tables own what they hold: each entry is an object that exists, under its name, and no object
-- stands in two entries.
pub record Owns (live : List ℕ) (t u : Table) : Type 0 where
  pub named : Named live t
  pub named_too : Named live u
  pub once : Once t
  pub once_too : Once u
  pub apart : Apart t u
  pub unique : Unique live

abbrev pub IsOwner : RtcStreamManager → Type 0
IsOwner m = Owns m.live m.push_streams m.pull_streams

swapped : (live : List ℕ) (t u : Table) → Owns live t u → Owns live u t
swapped live t u o = record {
  named = o.named_too;
  named_too = o.named;
  once = o.once_too;
  once_too = o.once;
  apart = λ n k s r p q e. o.apart k n r s q p (sym e);
  unique = o.unique;
}

none_some : {A : Type 0} {r : RtcStream} → none ≡ some r → A
none_some e = cc

-- What a table with a new entry answers, and one without an entry.
pub put_cases :
    (m n : List ℕ) (s r : RtcStream) (t : Table)
    → find m (put n s t) ≡ some r
    → ((m ≡ n) × (s ≡ r)) ⊎ (find m t ≡ some r)
put_cases m n s r t e = elim (Bool-cases (same_bytes m n)) [
  | inl p ↦
      let f : some s ≡ some r = (let g = rw p at (find-put m n s t) in sym g ∙ e) in
      inl ((same_bytes_iff m n).0 p, cc)
  | inr p ↦ inr (let g = rw p at (find-put m n s t) in sym g ∙ e)
]

remove_cases :
    (m n : List ℕ) (r : RtcStream) (t : Table)
    → find m (remove n t) ≡ some r
    → (find m t ≡ some r) × (m ≢ n)
remove_cases m n r t e = elim (Bool-cases (same_bytes m n)) [
  | inl p ↦ (let g = rw p at (find-remove m n t) in none_some (sym g ∙ e))
  | inr p ↦ (
    (let g = rw p at (find-remove m n t) in sym g ∙ e),
    λ q. (let h = (same_bytes_iff m n).1 q in cc),
  )
]

kept-Named :
    (live : List ℕ) (x : ℕ) (t t' : Table)
    → Unique live
    → Named live t
    → ((n : List ℕ) (s : RtcStream) → find n t' ≡ some s → (find n t ≡ some s) × (s.address ≢ x))
    → Named (erase x live) t'
kept-Named live x t t' u h old n s e =
    let (f, apart) = old n s e in
    let (name, alive) = h n s f in (name, (let c = member-erase s.address x live u in ground arith))

removed-Owns :
    (live : List ℕ) (t u : Table) (n : List ℕ) (s : RtcStream)
    → Owns live t u
    → find n t ≡ some s
    → Owns (erase s.address live) (remove n t) u
removed-Owns live t u n s o f = record {
  named = kept-Named live s.address t (remove n t) o.unique o.named (λ k r e.
      let (g, apart) = remove_cases k n r t e in (g, λ same. apart (o.once k n r s g f same)));
  named_too =
      kept-Named live s.address u u o.unique o.named_too
        (λ k r e. (e, λ same. o.apart n k s r f e (sym same)));
  once = λ k l r q e g. o.once k l r q (remove_cases k n r t e).0 (remove_cases l n q t g).0;
  once_too = o.once_too;
  apart = λ k l r q e g. o.apart k l r q (remove_cases k n r t e).0 g;
  unique = erase-Unique s.address live o.unique;
}

grown-Named : (live : List ℕ) (x : ℕ) (t : Table) → Named live t → Named (x ∷ live) t
unfolding member
grown-Named live x t h n s e = let (name, alive) = h n s e in (name, ground arith)

-- An object that is not in use stands in no entry.
unused :
    (live : List ℕ) (t : Table) (x : ℕ) (n : List ℕ) (r : RtcStream)
    → Named live t
    → member x live ≡ false
    → find n t ≡ some r
    → x ≢ r.address
unused live t x n r h fresh e same =
    let (_, alive) = h n r e in let gone = subst (λ a. member a live ≡ false) same fresh in cc

member_here : (x : ℕ) (live : List ℕ) → member x (x ∷ live) ≡ true
unfolding member
member_here x live = ground arith

added-Owns :
    (live : List ℕ) (t u : Table) (n : List ℕ) (s : RtcStream)
    → Owns live t u
    → s.stream_name ≡ n
    → member s.address live ≡ false
    → Owns (s.address ∷ live) (put n s t) u
unfolding member
added-Owns live t u n s o name fresh = record {
  named = λ k r e. elim (put_cases k n s r t e) [
    | inl (p, q) ↦ (
      sym (ap (λ z. z.stream_name) q) ∙ (name ∙ sym p),
      subst (λ z. member z.address (s.address ∷ live) ≡ true) q (member_here s.address live),
    )
    | inr f ↦ grown-Named live s.address t o.named k r f
  ];
  named_too = grown-Named live s.address u o.named_too;
  once = λ k l r q e f same. elim (put_cases k n s r t e) [
    | inl (p, w) ↦ elim (put_cases l n s q t f) [
      | inl (v, x) ↦ p ∙ sym v
      | inr g ↦ absurd (unused live t s.address l q o.named fresh g (ap (λ z. z.address) w ∙ same))
    ]
    | inr h ↦ elim (put_cases l n s q t f) [
      | inl (v, x) ↦
          absurd (unused live t s.address k r o.named fresh h (ap (λ z. z.address) x ∙ sym same))
      | inr g ↦ o.once k l r q h g same
    ]
  ];
  once_too = o.once_too;
  apart = λ k l r q e f same. elim (put_cases k n s r t e) [
    | inl (p, w) ↦ unused live u s.address l q o.named_too fresh f (ap (λ z. z.address) w ∙ same)
    | inr g ↦ o.apart k l r q g f same
  ];
  unique = (fresh, o.unique);
}

pub owned_found :
    (uid : ℕ) (o : Option RtcStream) (s : RtcStream)
    → owned uid o ≡ some s
    → (o ≡ some s) × (uid ≡ s.uid)
unfolding owned
owned_found uid none s e = cc
owned_found uid (some r) s e = elim (Bool-cases (uid == r.uid)) [
  | inl b ↦
      let p : some r ≡ some s = rw b at e in
      let q : r ≡ s = cc in let n : uid ≡ r.uid = ground arith in (p, n ∙ ap (λ z. z.uid) q)
  | inr b ↦ (let p : none ≡ some s = rw b at e in none_some p)
]

pub remove_push_stream-IsOwner :
    (uid : ℕ) (name : List ℕ) (m : RtcStreamManager)
    → IsOwner m
    → IsOwner (remove_push_stream uid name m)
unfolding remove_push_stream
remove_push_stream-IsOwner uid name m o =
    elim (Option-cases (owned uid (find name m.push_streams))) [
      | inl e ↦ rw (e, remove_push_stream) o
      | inr (s, e) ↦
          rw (e, remove_push_stream)
            (removed-Owns m.live m.push_streams m.pull_streams name s o (owned_found uid _ s e).0)
    ]

pub remove_pull_stream-IsOwner :
    (uid : ℕ) (name : List ℕ) (m : RtcStreamManager)
    → IsOwner m
    → IsOwner (remove_pull_stream uid name m)
unfolding remove_pull_stream
remove_pull_stream-IsOwner uid name m o =
    elim (Option-cases (owned uid (find name m.pull_streams))) [
      | inl e ↦ rw (e, remove_pull_stream) o
      | inr (s, e) ↦
          rw (e, remove_pull_stream)
            (swapped _ _ _ (
              removed-Owns m.live m.pull_streams m.push_streams name s (swapped _ _ _ o)
                (owned_found uid _ s e).0))
    ]

-- A push stream at an address that is not in use keeps the ownership.
pub create_push_stream-IsOwner :
    (address uid : ℕ) (audio video name : List ℕ) (m : RtcStreamManager)
    → member address m.live ≡ false
    → IsOwner m
    → IsOwner (create_push_stream address audio video uid name m)
unfolding create_push_stream
create_push_stream-IsOwner address uid audio video name m fresh o =
    added-Owns m.live m.push_streams m.pull_streams name _ o refl fresh

remove_live :
    (uid x : ℕ) (name : List ℕ) (m : RtcStreamManager)
    → IsOwner m
    → member x m.live ≡ false
    → member x (remove_pull_stream uid name m).live ≡ false
unfolding remove_pull_stream
remove_live uid x name m o h = elim (Option-cases (owned uid (find name m.pull_streams))) [
  | inl e ↦ rw (e, remove_pull_stream) h
  | inr (s, e) ↦
      rw (e, remove_pull_stream) (let c = member-erase x s.address m.live o.unique in ground arith)
]

-- A request to pull, with an address that is not in use for the new stream, keeps the ownership.
pub create_pull_stream-IsOwner :
    (address uid : ℕ) (name : List ℕ) (m : RtcStreamManager)
    → member address m.live ≡ false
    → IsOwner m
    → IsOwner (create_pull_stream address uid name m).1
unfolding create_pull_stream
create_pull_stream-IsOwner address uid name m fresh o =
    elim (Option-cases (find name m.push_streams)) [
      | inl e ↦ rw (e, create_pull_stream) o
      | inr (s, e) ↦
          rw (e, create_pull_stream)
            (let m₁ = remove_pull_stream uid name m in
              swapped _ _ _ (
                added-Owns m₁.live m₁.pull_streams m₁.push_streams name _
                  (swapped _ _ _ (remove_pull_stream-IsOwner uid name m o)) refl
                  (remove_live uid address name m o fresh)))
    ]

either-IsOwner :
    (b : Bool) (m n : RtcStreamManager) → IsOwner m → IsOwner n → IsOwner (if b then m else n)
either-IsOwner true m n p q = p
either-IsOwner false m n p q = q

-- The events that end a stream, a failed connection or a timeout, keep the ownership.
pub remove_stream-IsOwner :
    (t : RtcStreamType) (s : RtcStream) (state : PeerConnectionState) (m : RtcStreamManager)
    → IsOwner m
    → IsOwner (on_stream_exception t s m) × IsOwner (on_connection_state t s state m)
unfolding on_stream_exception on_connection_state remove_stream
remove_stream-IsOwner k_push s state m o =
    let removed = remove_push_stream-IsOwner s.uid s.stream_name m o in
    (removed, either-IsOwner (pc_index state == pc_index k_failed) _ m removed o)
remove_stream-IsOwner k_pull s state m o =
    let removed = remove_pull_stream-IsOwner s.uid s.stream_name m o in
    (removed, either-IsOwner (pc_index state == pc_index k_failed) _ m removed o)
