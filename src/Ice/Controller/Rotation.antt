-- ===== src/Ice/Controller/Rotation.antt =====
-- Which connection is pinged next: the rounds of _find_next_pingable_connection.
pub mod Pacing
use xrtc_server.Prelude.{
  ℕ, ◌+◌, ◌<◌, ltb, ◌≡◌, ◌⊎◌, inl, inr, refl, List, [], ◌∷◌, Bool, true, false, ◌&&◌, arith,
  Bool-cases, Option, some, none, ◌==◌, ◌∙◌,
}
use xrtc_server.Ice.Connection.{IceConnection, stable}
use xrtc_server.Ice.Controller.{
  IceController, Store, member, any, set_insert_all, set_insert, next_round, find_next_pingable,
  selected_first, most_pingable, is_pingable, past_ping_interval, weak_channel,
  select_connection_to_ping, ping_interval, min_pings_at_weak,
}
use xrtc_server.Ice.Controller.Tracking.{
  IsTracked, Unique, member-set_insert, member-set_insert_all, set_insert-Unique, member_at,
}
use xrtc_server.Ice.Controller.Search.{most_pingable_source, most_pingable-Waits}

set_insert_all-Unique :
    (xs s : List ℕ)
    → Unique xs
    → Unique s
    → ((y : ℕ) → (member y xs && member y s) ≡ false)
    → Unique (set_insert_all xs s)
unfolding member set_insert_all
set_insert_all-Unique [] s u v d = v
set_insert_all-Unique (x ∷ xs) s (n, u) v d =
    set_insert_all-Unique xs (set_insert x s) u
      (set_insert-Unique x s (let h = d x in ground arith) v)
      (λ y.
        let h = d y in
        let i = member-set_insert y x s in
        let j = member_at y x xs in
        elim (Bool-cases (y == x)) [ inl e ↦ (let q = j e in ground arith) | inr e ↦ ground arith ])

merged-IsTracked :
    (k : IceController)
    → IsTracked k
    → IsTracked (record k { unpinged = set_insert_all k.pinged k.unpinged; pinged = [] })
unfolding member
merged-IsTracked k t = record {
  either = λ y.
      let e = t.either y in let i = member-set_insert_all y k.pinged k.unpinged in ground arith;
  never_both = λ y. refl;
  connections_unique = t.connections_unique;
  pinged_unique = tt;
  unpinged_unique =
      set_insert_all-Unique k.pinged k.unpinged t.pinged_unique t.unpinged_unique t.never_both;
}

-- Starting a new round keeps the collections in step.
pub next_round-IsTracked :
    (store : Store) (now : ℕ) (k : IceController) → IsTracked k → IsTracked (next_round store now k)
unfolding next_round
next_round-IsTracked store now k t =
    elim (Bool-cases (any (is_pingable store k.selected now) k.unpinged)) [
      | inl h ↦ rw (h, next_round) t
      | inr h ↦ rw (h, next_round) (merged-IsTracked k t)
    ]

any_found :
    (test : ℕ → Bool) (xs : List ℕ)
    → any test xs ≡ true
    → (y : ℕ) × (member y xs ≡ true) × (test y ≡ true)
unfolding member any
any_found test [] h = cc
any_found test (x ∷ xs) h = elim (Bool-cases (test x)) [
  | inl e ↦ (x, ground arith, e)
  | inr e ↦ (let (y, m, g) = any_found test xs (ground arith) in (y, ground arith, g))
]

searched :
    (store : Store) (now : ℕ) (k : IceController)
    → selected_first store now k.selected ≡ false
    → (find_next_pingable store now k).1
      ≡ most_pingable store
          (is_pingable store k.selected now)
          none
          (next_round store now k).unpinged
unfolding find_next_pingable
searched store now k s = rw (s, find_next_pingable) refl

round_registered :
    (store : Store) (now : ℕ) (k : IceController) (c : ℕ)
    → IsTracked k
    → member c (next_round store now k).unpinged ≡ true
    → member c k.connections ≡ true
unfolding next_round
round_registered store now k c t m =
    let e = t.either c in let i = member-set_insert_all c k.pinged k.unpinged in ground arith

search_finds :
    (store : Store) (now : ℕ) (k : IceController) (y : ℕ)
    → IsTracked k
    → selected_first store now k.selected ≡ false
    → member y (next_round store now k).unpinged ≡ true
    → is_pingable store k.selected now y ≡ true
    → (c : ℕ) × ((find_next_pingable store now k).1 ≡ some c)
      × (member c k.connections ≡ true)
      × (is_pingable store k.selected now c ≡ true)
search_finds store now k y t s m h =
    let test = is_pingable store k.selected now in
    let round = (next_round store now k).unpinged in
    let (c, e, _) = most_pingable-Waits store test none round y m h in
    elim (most_pingable_source store test none round c e) [
      | inl f ↦ cc
      | inr (i, g) ↦ (c, searched store now k s ∙ e, round_registered store now k c t i, g)
    ]

round_member :
    (store : Store) (now : ℕ) (k : IceController) (x : ℕ)
    → IsTracked k
    → member x k.connections ≡ true
    → is_pingable store k.selected now x ≡ true
    → (member x (next_round store now k).unpinged ≡ true)
      ⊎ ((y : ℕ) × (member y (next_round store now k).unpinged ≡ true)
          × (is_pingable store k.selected now y ≡ true))
unfolding next_round
round_member store now k x t m h =
    elim (Bool-cases (any (is_pingable store k.selected now) k.unpinged)) [
      | inl a ↦ inr (rw (a, next_round) (any_found (is_pingable store k.selected now) k.unpinged a))
      | inr a ↦ inl (
          rw (a, next_round)
            (let e = t.either x in
              let i = member-set_insert_all x k.pinged k.unpinged in ground arith))
    ]

-- A connection in the rotation that may be pinged: the search finds one, of the registered ones, that
-- may be pinged too.
pub find_next_pingable-some :
    (store : Store) (now : ℕ) (k : IceController) (x : ℕ)
    → IsTracked k
    → selected_first store now k.selected ≡ false
    → member x k.connections ≡ true
    → is_pingable store k.selected now x ≡ true
    → (c : ℕ) × ((find_next_pingable store now k).1 ≡ some c)
      × (member c k.connections ≡ true)
      × (is_pingable store k.selected now c ≡ true)
unfolding find_next_pingable
find_next_pingable-some store now k x t s m h = elim (round_member store now k x t m h) [
  | inl i ↦ search_finds store now k x t s i h
  | inr (y, i, g) ↦ search_finds store now k y t s i g
]
