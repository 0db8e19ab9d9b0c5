-- ===== src/Queue/Invariant.antt =====
-- What holds between the pointers, the heap and the two threads.
use xrtc_server.Prelude.{
  ℕ, ◌+◌, ◌%◌, ◌^◌, ◌≡◌, ◌≢◌, refl, List, [], ◌∷◌, ◌++◌, true, false, arith, Option, some, none,
  length, ℕ_discrete, subst, sym,
}
use xrtc_server.Ice.Controller.{member}
use xrtc_server.Ice.Controller.Tracking.{Unique}
use xrtc_server.Queue.{
  Node, Heap, store, System, Producer, idle, linked, moved, cleaning, Consumer, waiting, passed,
  copied, taken, new_queue,
}
use xrtc_server.Queue.Chain.{next_of, value_of, Cells, addresses, PathTo, end_member, cell_held}

-- Where a chain of cells from an address ends.
abbrev pub end_of : {A : Type 0} → ℕ → Cells A → ℕ
end_of a [] = a
end_of a ((c, v) ∷ cs) = end_of c cs

abbrev pub FirstIs : {A : Type 0} → Cells A → (A → Type 0) → Type 0
FirstIs [] p = ⊥
FirstIs ((c, v) ∷ cs) p = p v

-- Past its test the consumer has an element to take, and has copied the first.
abbrev pub ConsumerAt : {A : Type 0} → Consumer A → Cells A → Type 0
ConsumerAt waiting live = Unit {0}
ConsumerAt passed live = FirstIs live (λ v. Unit {0})
ConsumerAt (copied w) live = FirstIs live (λ v. v ≡ w)
ConsumerAt (taken w) live = Unit {0}

-- A linked node is behind the last one, holds the value, and is not in the chain yet.
abbrev pub ProducerAt : {A : Type 0} → Producer A → Heap A → ℕ → List ℕ → Type 0
ProducerAt idle h l chain = Unit {0}
ProducerAt (linked t) h l chain =
    (value_of (h (next_of (h l))) ≡ some t) × (member (next_of (h l)) chain ≡ false)
ProducerAt moved h l chain = Unit {0}
ProducerAt cleaning h l chain = Unit {0}

-- What `size` does not count yet, and what it still counts.
abbrev pub uncounted : {A : Type 0} → Producer A → ℕ
uncounted idle = 0
uncounted (linked t) = 0
uncounted moved = 1
uncounted cleaning = 0

abbrev pub overcounted : {A : Type 0} → Consumer A → ℕ
overcounted waiting = 0
overcounted passed = 0
overcounted (copied v) = 0
overcounted (taken v) = 1

abbrev pub nodes : {A : Type 0} → System A → Cells A → Cells A → List ℕ
nodes s dead live = s.first ∷ addresses (dead ++ live)

-- One chain of distinct nodes: up to `divider` those that are consumed, then those that are not, up to
-- `last`.
pub record IsQueue {A : Type 0} (s : System A) (dead live : Cells A) : Type 0 where
  pub chain : PathTo s.heap s.first (dead ++ live) s.last
  pub divider_at : s.divider ≡ end_of s.first dead
  pub distinct : Unique (nodes s dead live)
  pub first_held : (v : A) × (value_of (s.heap s.first) ≡ some v)
  pub null_free : s.heap 0 ≡ none
  pub producer_at : ProducerAt s.producer s.heap s.last (nodes s dead live)
  pub consumer_at : ConsumerAt s.consumer live
  pub sized :
      (s.size + uncounted s.producer) % 2 ^ 32 ≡ (length live + overcounted s.consumer) % 2 ^ 32

module _ {A : Type 0} {s : System A} {dead live : Cells A} (q : IsQueue s dead live) where
  -- Every node of the chain is there.
  pub node_held :
      (x : ℕ) → member x (nodes s dead live) ≡ true → (v : A) × (value_of (s.heap x) ≡ some v)
  unfolding member
  node_held x m = elim (ℕ_discrete x s.first) [
    | yes e ↦ subst (λ z. (v : A) × (value_of (s.heap z) ≡ some v)) (sym e) q.first_held
    | no e ↦ cell_held s.heap s.first (dead ++ live) s.last x q.chain (ground arith)
  ]

  pub last_member : member s.last (nodes s dead live) ≡ true
  last_member = end_member s.heap s.first (dead ++ live) s.last q.chain

pub held_some :
    {A : Type 0} (o : Option (Node A)) (v : A)
    → value_of o ≡ some v
    → (n : Node A) × (o ≡ some n) × (n.value ≡ v)
held_some none v e = cc
held_some (some n) v e = (n, refl, cc)

pub PathTo-split :
    {A : Type 0} (h : Heap A) (a : ℕ) (cs ds : Cells A) (e : ℕ)
    → PathTo h a (cs ++ ds) e
    → PathTo h (end_of a cs) ds e
PathTo-split h a [] ds e p = p
PathTo-split h a ((c, v) ∷ cs) ds e (n, w, p) = PathTo-split h c cs ds e p

pub Unique-split :
    {A : Type 0} (a : ℕ) (cs ds : Cells A)
    → Unique (a ∷ addresses (cs ++ ds))
    → Unique (end_of a cs ∷ addresses ds)
Unique-split a [] ds u = u
Unique-split a ((c, v) ∷ cs) ds (m, u) = Unique-split c cs ds u

pub end_of-append :
    {A : Type 0} (a : ℕ) (cs : Cells A) (c : ℕ) (v : A) → end_of a (cs ++ ((c, v) ∷ [])) ≡ c
end_of-append a [] c v = refl
end_of-append a ((b, w) ∷ cs) c v = end_of-append b cs c v

pub divider_member :
    {A : Type 0} (a : ℕ) (cs ds : Cells A) → member (end_of a cs) (a ∷ addresses (cs ++ ds)) ≡ true
unfolding member
divider_member a [] ds = ground arith
divider_member a ((c, v) ∷ cs) ds = let ih = divider_member c cs ds in ground arith

-- A new queue is one dummy node.
pub new_queue-IsQueue : {A : Type 0} (a : ℕ) (t : A) → a ≢ 0 → IsQueue (new_queue a t) [] []
unfolding new_queue member store
new_queue-IsQueue a t nz = record {
  chain = refl;
  divider_at = refl;
  distinct = (refl, tt);
  first_held = (t, ground arith);
  null_free = ground arith;
  producer_at = tt;
  consumer_at = tt;
  sized = refl;
}
