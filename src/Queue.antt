-- ===== src/Queue.antt =====
-- base/lock_free_queue.h: a linked list that one thread appends to and one thread takes from. A null
-- pointer is 0, and the heap gives the node at an address, or nothing where none is. produce and
-- consume are cut into steps at their accesses to what the threads share, and a step sees the writes
-- of all earlier steps. `size` is the two's complement of the atomic int.
pub mod Chain
pub mod Invariant
pub mod Parts
pub mod Produce
pub mod Consume
pub mod Trace
use xrtc_server.Prelude.{ℕ, ◌+◌, ◌-◌, ◌%◌, ◌^◌, Option, some, none, if◌then◌else◌, ◌==◌}

pub record Node (A : Type 0) : Type 0 where
  pub value : A
  pub next : ℕ

abbrev pub Heap : Type 0 → Type 0
Heap A = ℕ → Option (Node A)

unfoldable pub store : {A : Type 0} → Heap A → ℕ → Option (Node A) → Heap A
store h a n x = if x == a then n else h x

-- Where the producer stands in produce: before the call, behind `last->next = new Node(t)`, behind
-- `last = last->next`, and behind `++_size`, in the loop.
pub data Producer (A : Type 0) : Type 0 where
  idle : Producer A
  linked : A → Producer A
  moved : Producer A
  cleaning : Producer A

-- Where the consumer stands in consume: before the call, behind the test, behind the copy of the
-- value, and behind the move of `divider`.
pub data Consumer (A : Type 0) : Type 0 where
  waiting : Consumer A
  passed : Consumer A
  copied : A → Consumer A
  taken : A → Consumer A

pub record System (A : Type 0) : Type 0 where
  pub heap : Heap A
  pub first : ℕ
  pub divider : ℕ
  pub last : ℕ
  pub size : ℕ
  pub producer : Producer A
  pub consumer : Consumer A

-- What a step does to the queue, seen from outside.
pub data Event (A : Type 0) : Type 0 where
  silent : Event A
  enqueued : A → Event A
  dequeued : A → Event A
  found_empty : Event A

-- `blocked`: the thread is not where this step begins. `fault`: the step uses a null pointer or an
-- address with no node.
pub data Outcome (A : Type 0) : Type 0 where
  blocked : Outcome A
  fault : Outcome A
  went : Event A → System A → Outcome A

pub data Action (A : Type 0) : Type 0 where
  link : ℕ → A → Action A
  move count clean : Action A
  test copy advance uncount : Action A

-- The constructor, with the address of the dummy node and its value T().
unfoldable pub new_queue : {A : Type 0} → ℕ → A → System A
unfolding store
new_queue a t = record {
  heap = store (λ x. none) a (some (record { value = t; next = 0 }));
  first = a;
  divider = a;
  last = a;
  size = 0;
  producer = idle;
  consumer = waiting;
}

-- The steps of produce.
unfoldable pub link_step : {A : Type 0} → ℕ → A → System A → Outcome A
unfolding store
link_step a t s = elim (s.heap s.last) [
  | none ↦ fault
  | some n ↦ went silent (record s {
    heap =
        store (store s.heap a (some (record { value = t; next = 0 }))) s.last
          (some (record n { next = a }));
    producer = linked t;
  })
]

unfoldable pub move_step : {A : Type 0} → A → System A → Outcome A
move_step t s = elim (s.heap s.last) [
  | none ↦ fault
  | some n ↦ went (enqueued t) (record s { last = n.next; producer = moved })
]

unfoldable pub count_step : {A : Type 0} → System A → Outcome A
count_step s = went silent (record s { size = (s.size + 1) % 2 ^ 32; producer = cleaning })

-- One round of the loop that frees what has been consumed.
unfoldable pub clean_step : {A : Type 0} → System A → Outcome A
unfolding store
clean_step s =
    if s.divider == s.first
    then went silent (record s { producer = idle })
    else elim (s.heap s.first) [
      | none ↦ fault
      | some n ↦ went silent (record s { first = n.next; heap = store s.heap s.first none })
    ]

-- The steps of consume.
unfoldable pub test_step : {A : Type 0} → System A → Outcome A
test_step s =
    if s.divider == s.last then went found_empty s else went silent (record s { consumer = passed })

unfoldable pub copy_step : {A : Type 0} → System A → Outcome A
copy_step s = elim (s.heap s.divider) [
  | none ↦ fault
  | some n ↦ elim (s.heap n.next) [
    | none ↦ fault
    | some k ↦ went silent (record s { consumer = copied k.value })
  ]
]

unfoldable pub advance_step : {A : Type 0} → A → System A → Outcome A
advance_step v s = elim (s.heap s.divider) [
  | none ↦ fault
  | some n ↦ went (dequeued v) (record s { divider = n.next; consumer = taken v })
]

unfoldable pub uncount_step : {A : Type 0} → System A → Outcome A
uncount_step s =
    went silent (record s { size = (s.size + (2 ^ 32 - 1)) % 2 ^ 32; consumer = waiting })

unfoldable pub produce_step : {A : Type 0} → Action A → Producer A → System A → Outcome A
unfolding link_step move_step count_step clean_step
produce_step (link a t) idle s = link_step a t s
produce_step move (linked t) s = move_step t s
produce_step count moved s = count_step s
produce_step clean cleaning s = clean_step s
produce_step act p s = blocked

unfoldable pub consume_step : {A : Type 0} → Action A → Consumer A → System A → Outcome A
unfolding test_step copy_step advance_step uncount_step
consume_step test waiting s = test_step s
consume_step copy passed s = copy_step s
consume_step advance (copied v) s = advance_step v s
consume_step uncount (taken v) s = uncount_step s
consume_step act c s = blocked

abbrev pub is_produce : {A : Type 0} → Action A → Outcome A → Outcome A → Outcome A
is_produce (link a t) p c = p
is_produce move p c = p
is_produce count p c = p
is_produce clean p c = p
is_produce test p c = c
is_produce copy p c = c
is_produce advance p c = c
is_produce uncount p c = c

unfoldable pub step : {A : Type 0} → Action A → System A → Outcome A
unfolding produce_step consume_step
step act s = is_produce act (produce_step act s.producer s) (consume_step act s.consumer s)
