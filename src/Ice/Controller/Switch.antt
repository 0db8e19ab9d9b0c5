-- ===== src/Ice/Controller/Switch.antt =====
-- Which connection sort_and_switch_connection tells the channel to switch to.
use xrtc_server.Prelude.{
  ℕ, ◌+◌, ◌<◌, ◌≤◌, ◌≡◌, ◌≢◌, refl, List, [], ◌∷◌, Bool, true, false, arith, ℕ_discrete, subst, sym,
  ◌∙◌, Option, some, none,
}
use xrtc_server.Ice.Connection.{IceConnection}
use xrtc_server.Ice.Controller.{
  IceController, Store, comes_before, ready_to_send, switch_to, sort_and_switch_connection, member,
}
use xrtc_server.Ice.Controller.Order.{
  Better, StrictWeakOrder, comes_before_iff, comes_before-StrictWeakOrder,
}

-- No element comes before one that stands ahead of it.
abbrev pub Sorted : (ℕ → ℕ → Bool) → List ℕ → Type 0
Sorted less [] = Unit
Sorted less (x ∷ xs) = ((y : ℕ) → member y xs ≡ true → less y x ≡ false) × Sorted less xs

-- What the documentation of std::stable_sort promises of the result, as far as the controller needs it:
-- for a strict weak order, the same elements, sorted.
pub record IsStableSort (sort : (ℕ → ℕ → Bool) → List ℕ → List ℕ) : Type 0 where
  pub same_members :
      (less : ℕ → ℕ → Bool) (xs : List ℕ)
      → StrictWeakOrder less
      → (x : ℕ) → member x (sort less xs) ≡ member x xs
  pub sorted :
      (less : ℕ → ℕ → Bool) (xs : List ℕ) → StrictWeakOrder less → Sorted less (sort less xs)

abbrev by_quality : Store → ℕ → ℕ → Bool
by_quality store a b = comes_before (store a) (store b)

store-StrictWeakOrder : (store : Store) → StrictWeakOrder (by_quality store)
store-StrictWeakOrder store =
    let w = comes_before-StrictWeakOrder in
    record {
      irreflexive = λ a. w.irreflexive (store a);
      transitive = λ a b c p q. w.transitive (store a) (store b) (store c) p q;
      unordered = λ a b c p q. w.unordered (store a) (store b) (store c) p q;
    }

-- What makes a switch worth it: ten milliseconds of round trip time less than the selected connection.
abbrev pub Gains : Store → Option ℕ → ℕ → Type 0
Gains store none c = Unit
Gains store (some s) c = (s ≢ c) × ((store c).rtt + 10 ≤ (store s).rtt)

-- The head of the list is best.
abbrev pub Best : Store → List ℕ → ℕ → Type 0
Best store xs c = (b : ℕ) → member b xs ≡ true → ¬ Better (store b) (store c)

head-Best :
    (store : Store) (top : ℕ) (rest : List ℕ)
    → Sorted (by_quality store) (top ∷ rest)
    → Best store (top ∷ rest) top
unfolding member
head-Best store top rest (h, _) b m better =
    let e = (comes_before_iff (store b) (store top)).1 better in
    elim (ℕ_discrete b top) [
      | yes p ↦ (let i = comes_before-StrictWeakOrder.irreflexive (store top) in cc)
      | no n ↦ (let f = h b (ground arith) in cc)
    ]

switch_to-top :
    (store : Store) (selected : Option ℕ) (top : ℕ) (rest : List ℕ) (c : ℕ)
    → switch_to store selected (top ∷ rest) ≡ some c
    → (top ≡ c) × (ready_to_send (store top) ≡ true) × Gains store selected top
unfolding switch_to
switch_to-top store none top rest c e = ground arith
switch_to-top store (some x) top rest c e = ground arith

member_head : (x : ℕ) (xs : List ℕ) → member x (x ∷ xs) ≡ true
unfolding member
member_head x xs = ground arith

switch_to-Best :
    (store : Store) (selected : Option ℕ) (xs : List ℕ) (c : ℕ)
    → Sorted (by_quality store) xs
    → switch_to store selected xs ≡ some c
    → (member c xs ≡ true)
      × (ready_to_send (store c) ≡ true)
      × Best store xs c
      × Gains store selected c
unfolding switch_to
switch_to-Best store selected [] c s e = cc
switch_to-Best store selected (top ∷ rest) c s e =
    let (p, r, g) = switch_to-top store selected top rest c e in
    subst
      (λ x.
        (member x (top ∷ rest) ≡ true)
        × (ready_to_send (store x) ≡ true)
        × Best store (top ∷ rest) x
        × Gains store selected x)
      p (member_head top rest, r, head-Best store top rest s, g)

-- For a sort that does what std::stable_sort promises: a connection that sort_and_switch_connection
-- returns is one of the controller's, can send, is not the selected one, and no connection of the
-- controller is better; against a selected connection it gains at least ten milliseconds of round trip
-- time.
pub sort_and_switch_connection-Best :
    (sort : (ℕ → ℕ → Bool) → List ℕ → List ℕ) (law : IsStableSort sort) (store : Store)
    (k : IceController) (c : ℕ)
    → (sort_and_switch_connection sort store k).1 ≡ some c
    → (member c k.connections ≡ true)
      × (ready_to_send (store c) ≡ true)
      × Best store k.connections c
      × Gains store k.selected c
unfolding sort_and_switch_connection
sort_and_switch_connection-Best sort law store k c e =
    let less = by_quality store in
    let w = store-StrictWeakOrder store in
    let same = law.same_members less k.connections w in
    let (m, r, b, g) =
      switch_to-Best store k.selected (sort less k.connections) c (law.sorted less k.connections w)
        e in
    (sym (same c) ∙ m, r, (λ x i. b x (same x ∙ i)), g)

-- A better connection can send if a worse one can.
ready_upward :
    (a b : IceConnection)
    → ready_to_send b ≡ true
    → comes_before b a ≡ false
    → ready_to_send a ≡ true
unfolding ready_to_send comes_before
ready_upward a b r h = ground arith

cold_ready :
    (store : Store) (top : ℕ) (rest : List ℕ) (b : ℕ)
    → ((y : ℕ) → member y rest ≡ true → by_quality store y top ≡ false)
    → member b (top ∷ rest) ≡ true
    → ready_to_send (store b) ≡ true
    → ready_to_send (store top) ≡ true
unfolding member
cold_ready store top rest b h m r = elim (ℕ_discrete b top) [
  | yes p ↦ subst (λ x. ready_to_send (store x) ≡ true) p r
  | no n ↦ ready_upward (store top) (store b) r (h b (ground arith))
]

switch_to_cold :
    (store : Store) (xs : List ℕ) (b : ℕ)
    → Sorted (by_quality store) xs
    → member b xs ≡ true
    → ready_to_send (store b) ≡ true
    → (c : ℕ) × (switch_to store none xs ≡ some c)
unfolding switch_to member
switch_to_cold store [] b s m r = cc
switch_to_cold store (top ∷ rest) b (h, _) m r =
    (top, rw (cold_ready store top rest b h m r, switch_to) refl)

-- For such a sort, and a channel with no selected connection: if any connection can send, one is
-- returned.
pub sort_and_switch_connection_cold :
    (sort : (ℕ → ℕ → Bool) → List ℕ → List ℕ) (law : IsStableSort sort) (store : Store)
    (k : IceController) (b : ℕ)
    → k.selected ≡ none
    → member b k.connections ≡ true
    → ready_to_send (store b) ≡ true
    → (c : ℕ) × ((sort_and_switch_connection sort store k).1 ≡ some c)
unfolding sort_and_switch_connection
sort_and_switch_connection_cold sort law store k b n m r =
    let less = by_quality store in
    let w = store-StrictWeakOrder store in
    rw (n, sort_and_switch_connection)
      (switch_to_cold store (sort less k.connections) b (law.sorted less k.connections w)
        (law.same_members less k.connections w b ∙ m) r)

switch_to_stuck :
    (store : Store) (s : ℕ) (xs : List ℕ)
    → ((x : ℕ) → member x xs ≡ true → (store s).rtt < (store x).rtt + 10)
    → switch_to store (some s) xs ≡ none
unfolding switch_to
switch_to_stuck store s [] h = refl
switch_to_stuck store s (top ∷ rest) h = let lt = h top (member_head top rest) in ground arith

-- For such a sort: when no connection gains ten milliseconds of round trip time on the selected one,
-- nothing is returned, whatever the write states are: a selected connection that has timed out keeps
-- its place before a writable one.
pub sort_and_switch_connection_stuck :
    (sort : (ℕ → ℕ → Bool) → List ℕ → List ℕ) (law : IsStableSort sort) (store : Store)
    (k : IceController) (s : ℕ)
    → k.selected ≡ some s
    → ((x : ℕ) → member x k.connections ≡ true → (store s).rtt < (store x).rtt + 10)
    → (sort_and_switch_connection sort store k).1 ≡ none
unfolding sort_and_switch_connection
sort_and_switch_connection_stuck sort law store k s n h =
    let less = by_quality store in
    let same = law.same_members less k.connections (store-StrictWeakOrder store) in
    rw (n, sort_and_switch_connection)
      (switch_to_stuck store s (sort less k.connections) (λ x m. h x (sym (same x) ∙ m)))
