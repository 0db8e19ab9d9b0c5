-- ===== src/Ice/Controller/Tracking.antt =====
-- The vector of connections and the two sets of the ping rotation, and what holds between them.
use xrtc_server.Prelude.{
  ℕ, ◌≡◌, ◌⊎◌, inl, inr, refl, List, [], ◌∷◌, ◌++◌, true, false, not, ◌||◌, ◌&&◌, arith, Bool-cases,
  ◌==◌, ℕ_discrete, subst, ltb, ap,
}
use xrtc_server.Ice.Controller.{
  IceController, member, set_insert, set_insert_all, erase, add_connection, mark_connection_pinged,
  on_connection_destroyed,
}

-- Nothing stands twice.
abbrev pub Unique : List ℕ → Type 0
Unique [] = Unit
Unique (x ∷ xs) = (member x xs ≡ false) × Unique xs

pub member-set_insert : (y x : ℕ) (s : List ℕ) → member y (set_insert x s) ≡ (y == x || member y s)
unfolding member set_insert
member-set_insert y x [] = ground arith
member-set_insert y x (z ∷ s) = let ih = member-set_insert y x s in ground arith

pub member-set_insert_all :
    (y : ℕ) (xs s : List ℕ) → member y (set_insert_all xs s) ≡ (member y xs || member y s)
unfolding member set_insert_all
member-set_insert_all y [] s = refl
member-set_insert_all y (x ∷ xs) s =
    let ih = member-set_insert_all y xs (set_insert x s) in
    let one = member-set_insert y x s in ground arith

pub member-erase :
    (y x : ℕ) (s : List ℕ) → Unique s → member y (erase x s) ≡ (not (y == x) && member y s)
unfolding member erase
member-erase y x [] u = ground arith
member-erase y x (z ∷ s) (n, u) =
    let ih = member-erase y x s u in
    elim (ℕ_discrete z y) [
      | yes e ↦ (let m = subst (λ w. member w s ≡ false) e n in ground arith)
      | no e ↦ ground arith
    ]

pub member-append : (y : ℕ) (xs ys : List ℕ) → member y (xs ++ ys) ≡ (member y xs || member y ys)
unfolding member
member-append y [] ys = refl
member-append y (x ∷ xs) ys = let ih = member-append y xs ys in ground arith

lt_or_gt :
    (x y : ℕ) → (ltb x y ≡ true) ⊎ (((x == y) ≡ true) ⊎ ((ltb x y ≡ false) × ((x == y) ≡ false)))
lt_or_gt x y = ground arith

pub set_insert-Unique :
    (x : ℕ) (s : List ℕ) → member x s ≡ false → Unique s → Unique (set_insert x s)
unfolding member set_insert
set_insert-Unique x [] m u = (refl, tt)
set_insert-Unique x (z ∷ s) m (n, u) =
    let ih = set_insert-Unique x s (ground arith) u in
    let one = member-set_insert z x s in
    elim (lt_or_gt x z) [
      | inl l ↦ rw (l, set_insert) (m, (n, u))
      | inr (inl e) ↦ ground arith
      | inr (inr (l, ne)) ↦ rw (l, ne, set_insert) (ground arith, ih)
    ]

pub erase-Unique : (x : ℕ) (s : List ℕ) → Unique s → Unique (erase x s)
unfolding member erase
erase-Unique x [] u = tt
erase-Unique x (z ∷ s) (n, u) =
    let ih = erase-Unique x s u in let one = member-erase z x s u in ground arith

-- The first clause: each registered connection is in one of the two sets, and in no more than one.
-- The others: nothing is held twice.
pub record IsTracked (k : IceController) : Type 0 where
  pub either : (x : ℕ) → member x k.connections ≡ (member x k.pinged || member x k.unpinged)
  pub never_both : (x : ℕ) → (member x k.pinged && member x k.unpinged) ≡ false
  pub connections_unique : Unique k.connections
  pub pinged_unique : Unique k.pinged
  pub unpinged_unique : Unique k.unpinged

pub append-Unique :
    (xs : List ℕ) (x : ℕ) → Unique xs → member x xs ≡ false → Unique (xs ++ (x ∷ []))
unfolding member
append-Unique [] x u m = (refl, tt)
append-Unique (z ∷ s) x (n, u) m =
    let one = member-append z s (x ∷ []) in (ground arith, append-Unique s x u (ground arith))

pub member_at : (x y : ℕ) (s : List ℕ) → (x == y) ≡ true → member x s ≡ member y s
member_at x y s e = ap (λ z. member z s) (ground arith)

add_either :
    (x y : ℕ) (k : IceController)
    → member x k.connections ≡ false
    → IsTracked k
    → member y (k.connections ++ (x ∷ []))
      ≡ (member y k.pinged || member y (set_insert x k.unpinged))
unfolding member
add_either x y k m t =
    let e = t.either y in
    let c = member-append y k.connections (x ∷ []) in
    let u = member-set_insert y x k.unpinged in ground arith

add_never_both :
    (x y : ℕ) (k : IceController)
    → member x k.connections ≡ false
    → IsTracked k
    → (member y k.pinged && member y (set_insert x k.unpinged)) ≡ false
add_never_both x y k m t =
    let e = t.either x in
    let b = t.never_both y in
    let u = member-set_insert y x k.unpinged in
    let p = member_at y x k.pinged in
    elim (Bool-cases (y == x)) [ inl h ↦ (let q = p h in ground arith) | inr h ↦ ground arith ]

moved-IsTracked :
    (x : ℕ) (k : IceController)
    → member x k.connections ≡ true
    → member x k.pinged ≡ false
    → IsTracked k
    → IsTracked (record k { pinged = set_insert x k.pinged; unpinged = erase x k.unpinged })
moved-IsTracked x k m n t = record {
  either = λ y.
      let e = t.either y in
      let p = member-set_insert y x k.pinged in
      let u = member-erase y x k.unpinged t.unpinged_unique in
      let c = member_at y x k.connections in
      elim (Bool-cases (y == x)) [ inl h ↦ (let q = c h in ground arith) | inr h ↦ ground arith ];
  never_both = λ y.
      let b = t.never_both y in
      let p = member-set_insert y x k.pinged in
      let u = member-erase y x k.unpinged t.unpinged_unique in ground arith;
  connections_unique = t.connections_unique;
  pinged_unique = set_insert-Unique x k.pinged n t.pinged_unique;
  unpinged_unique = erase-Unique x k.unpinged t.unpinged_unique;
}

-- Registering a connection that is not registered yet keeps the collections in step.
pub add_connection-IsTracked :
    (x : ℕ) (k : IceController)
    → member x k.connections ≡ false
    → IsTracked k
    → IsTracked (add_connection x k)
unfolding add_connection
add_connection-IsTracked x k m t = record {
  either = λ y. add_either x y k m t;
  never_both = λ y. add_never_both x y k m t;
  connections_unique = append-Unique k.connections x t.connections_unique m;
  pinged_unique = t.pinged_unique;
  unpinged_unique =
      set_insert-Unique x k.unpinged (let e = t.either x in ground arith) t.unpinged_unique;
}

-- Pinging a registered connection keeps the collections in step.
pub mark_connection_pinged-IsTracked :
    (x : ℕ) (k : IceController)
    → member x k.connections ≡ true
    → IsTracked k
    → IsTracked (mark_connection_pinged x k)
unfolding mark_connection_pinged
mark_connection_pinged-IsTracked x k m t = elim (Bool-cases (member x k.pinged)) [
  | inl p ↦ rw (p, mark_connection_pinged) t
  | inr p ↦ rw (p, mark_connection_pinged) (moved-IsTracked x k m p t)
]

-- Destroying a connection keeps the collections in step, and leaves no trace of it in them.
pub on_connection_destroyed-IsTracked :
    (x : ℕ) (k : IceController)
    → IsTracked k
    → IsTracked (on_connection_destroyed x k)
      × (member x (on_connection_destroyed x k).connections ≡ false)
      × (member x (on_connection_destroyed x k).pinged ≡ false)
      × (member x (on_connection_destroyed x k).unpinged ≡ false)
unfolding on_connection_destroyed
on_connection_destroyed-IsTracked x k t =
    let c = member-erase x x k.connections t.connections_unique in
    let p = member-erase x x k.pinged t.pinged_unique in
    let u = member-erase x x k.unpinged t.unpinged_unique in
    (
      record {
        either = λ y.
            let e = t.either y in
            let c = member-erase y x k.connections t.connections_unique in
            let p = member-erase y x k.pinged t.pinged_unique in
            let u = member-erase y x k.unpinged t.unpinged_unique in ground arith;
        never_both = λ y.
            let e = t.never_both y in
            let p = member-erase y x k.pinged t.pinged_unique in
            let u = member-erase y x k.unpinged t.unpinged_unique in ground arith;
        connections_unique = erase-Unique x k.connections t.connections_unique;
        pinged_unique = erase-Unique x k.pinged t.pinged_unique;
        unpinged_unique = erase-Unique x k.unpinged t.unpinged_unique;
      },
      ground arith,
      ground arith,
      ground arith,
    )
