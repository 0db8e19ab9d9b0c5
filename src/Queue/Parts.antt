-- ===== src/Queue/Parts.antt =====
-- The abstract queue of values, and what a step of either thread is proved with.
use xrtc_server.Prelude.{
  ℕ, ◌+◌, ◌%◌, ◌^◌, ◌≡◌, ◌≢◌, List, [], ◌∷◌, ◌++◌, true, false, arith, Option, some, none, ◌==◌,
  length, subst, ap,
}
use xrtc_server.Ice.Controller.{member}
use xrtc_server.Queue.{
  Node, Heap, store, System, Producer, linked, moved, Consumer, waiting, passed, copied, taken,
  Event, silent, enqueued, dequeued, found_empty, Outcome, went, link_step, move_step, clean_step,
  copy_step, advance_step,
}
use xrtc_server.Queue.Chain.{value_of, Cells, values}
use xrtc_server.Queue.Invariant.{IsQueue, nodes, ConsumerAt, ProducerAt, uncounted, overcounted}

-- What an event means for a queue of values: the abstract queue's transitions.
abbrev pub Does : {A : Type 0} → Event A → List A → List A → Type 0
Does silent q r = q ≡ r
Does (enqueued v) q r = r ≡ q ++ (v ∷ [])
Does (dequeued v) q r = q ≡ v ∷ r
Does found_empty q r = (q ≡ []) × (r ≡ [])

-- A step that goes well, to a queue again, and does to its values what the event says.
abbrev pub Simulates : {A : Type 0} → Outcome A → Cells A → Type 0
Simulates {A} o live =
    (e : Event A) × (u : System A) × (dead : Cells A) × (after : Cells A) × (o ≡ went e u)
    × IsQueue u dead after
    × Does e (values live) (values after)

pub store_same : {A : Type 0} (h : Heap A) (a : ℕ) (n : Option (Node A)) → store h a n a ≡ n
unfolding store
store_same h a n = ground arith

pub store_other :
    {A : Type 0} (h : Heap A) (a : ℕ) (n : Option (Node A)) (x : ℕ) → x ≢ a → store h a n x ≡ h x
unfolding store
store_other h a n x e = ground arith

pub null_kept : {A : Type 0} (h : Heap A) (a : ℕ) → h 0 ≡ none → store h a none 0 ≡ none
unfolding store
null_kept h a e = ground arith

pub held_ne :
    {A : Type 0} (h : Heap A) (a x : ℕ) (v : A) → h a ≡ none → value_of (h x) ≡ some v → x ≢ a
held_ne h a x v free held e =
    (let f = subst (λ z. value_of (h z) ≡ some v) e held in let g = ap value_of free in cc)

pub first_member :
    {A : Type 0} (s : System A) (dead live : Cells A) → member s.first (nodes s dead live) ≡ true
unfolding member
first_member s dead live = ground arith

pub link_at :
    {A : Type 0} (a : ℕ) (t : A) (s : System A) (n : Node A)
    → s.heap s.last ≡ some n
    → link_step a t s
      ≡ went silent (record s {
        heap =
            store
              (store s.heap a (some (record { value = t; next = 0 })))
              s.last
              (some (record n { next = a }));
        producer = linked t;
      })
unfolding link_step
link_at a t s n e = rw (e, link_step)

pub move_at :
    {A : Type 0} (t : A) (s : System A) (n : Node A)
    → s.heap s.last ≡ some n
    → move_step t s ≡ went (enqueued t) (record s { last = n.next; producer = moved })
unfolding move_step
move_at t s n e = rw (e, move_step)

pub clean_at :
    {A : Type 0} (s : System A) (n : Node A)
    → s.heap s.first ≡ some n
    → s.divider ≢ s.first
    → clean_step s ≡ went silent (record s { first = n.next; heap = store s.heap s.first none })
unfolding clean_step
clean_at s n e ne = let off : (s.divider == s.first) ≡ false = ground arith in rw (off, e)

pub copy_at :
    {A : Type 0} (s : System A) (n k : Node A)
    → s.heap s.divider ≡ some n
    → s.heap n.next ≡ some k
    → copy_step s ≡ went silent (record s { consumer = copied k.value })
unfolding copy_step
copy_at s n k e f = rw (e, f, copy_step)

pub advance_at :
    {A : Type 0} (v : A) (s : System A) (n : Node A)
    → s.heap s.divider ≡ some n
    → advance_step v s ≡ went (dequeued v) (record s { divider = n.next; consumer = taken v })
unfolding advance_step
advance_at v s n e = rw (e, advance_step)

-- The threads move on over the same nodes.
pub relocated :
    {A : Type 0} {s : System A} {dead live : Cells A} (q : IsQueue s dead live) (p : Producer A)
    (c : Consumer A) (z : ℕ)
    → ProducerAt p s.heap s.last (nodes s dead live)
    → ConsumerAt c live
    → (z + uncounted p) % 2 ^ 32 ≡ (length live + overcounted c) % 2 ^ 32
    → IsQueue (record s { producer = p; consumer = c; size = z }) dead live
relocated q p c z pa ca sz = record {
  chain = q.chain;
  divider_at = q.divider_at;
  distinct = q.distinct;
  first_held = q.first_held;
  null_free = q.null_free;
  producer_at = pa;
  consumer_at = ca;
  sized = sz;
}

-- `size` against the elements, the threads' places named.
pub sized_at :
    {A : Type 0} {s : System A} {dead live : Cells A} (q : IsQueue s dead live) {p : Producer A}
    {c : Consumer A}
    → s.producer ≡ p
    → s.consumer ≡ c
    → (s.size + uncounted p) % 2 ^ 32 ≡ (length live + overcounted c) % 2 ^ 32
sized_at {s = s} {live = live} q {p = p} e f =
    subst (λ x. (s.size + uncounted p) % 2 ^ 32 ≡ (length live + overcounted x) % 2 ^ 32) f
      (subst
        (λ x. (s.size + uncounted x) % 2 ^ 32 ≡ (length live + overcounted s.consumer) % 2 ^ 32) e
        q.sized)

pub ConsumerAt-append :
    {A : Type 0} (c : Consumer A) (live more : Cells A)
    → ConsumerAt c live
    → ConsumerAt c (live ++ more)
ConsumerAt-append waiting live more h = tt
ConsumerAt-append passed [] more h = absurd h
ConsumerAt-append passed ((a, v) ∷ live) more h = h
ConsumerAt-append (copied w) [] more h = absurd h
ConsumerAt-append (copied w) ((a, v) ∷ live) more h = h
ConsumerAt-append (taken w) live more h = tt
