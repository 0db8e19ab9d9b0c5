-- ===== src/Queue/Trace.antt =====
-- Runs of the two threads in any order: the events of a run are those of a queue of values.
use mathlib.Core.List.{append_assoc, append-nil}
use xrtc_server.Prelude.{
  ℕ, ◌+◌, ◌%◌, ◌^◌, ◌≡◌, ◌≢◌, ◌⊎◌, inl, inr, refl, List, [], ◌∷◌, ◌++◌, none, length, subst, sym,
  ap, ◌∙◌,
}
use xrtc_server.Queue.{
  Heap, System, Producer, idle, linked, moved, cleaning, Consumer, waiting, passed, copied, taken,
  new_queue, Event, silent, enqueued, dequeued, found_empty, Outcome, blocked, fault, went, Action,
  link, move, count, clean, test, copy, advance, uncount, produce_step, consume_step, step,
}
use xrtc_server.Ice.Controller.Tracking.{Unique}
use xrtc_server.Queue.Chain.{Cells, values, addresses, PathTo}
use xrtc_server.Queue.Invariant.{
  IsQueue, new_queue-IsQueue, PathTo-split, Unique-split, uncounted, overcounted,
}
use xrtc_server.Queue.Parts.{Does, Simulates}
use xrtc_server.Queue.Produce.{link_lem, move_lem, count_lem, clean_lem}
use xrtc_server.Queue.Consume.{test_lem, copy_lem, advance_lem, uncount_lem}

-- What `new` promises: no node is at the address yet, and it is not null.
abbrev pub Fresh : {A : Type 0} → Action A → Heap A → Type 0
Fresh (link a t) h = (h a ≡ none) × (a ≢ 0)
Fresh move h = Unit {0}
Fresh count h = Unit {0}
Fresh clean h = Unit {0}
Fresh test h = Unit {0}
Fresh copy h = Unit {0}
Fresh advance h = Unit {0}
Fresh uncount h = Unit {0}

abbrev Goes : {A : Type 0} → Outcome A → Cells A → Type 0
Goes o live = (o ≡ blocked) ⊎ Simulates o live

module _ {A : Type 0} {s : System A} {dead live : Cells A} (q : IsQueue s dead live) where
  produce-Goes :
      (act : Action A) (p : Producer A)
      → s.producer ≡ p
      → Fresh act s.heap
      → Goes (produce_step act p s) live
  unfolding produce_step
  produce-Goes (link a t) idle e (free, nz) = inr (link_lem q a t e free nz)
  produce-Goes (link a t) (linked u) e f = inl refl
  produce-Goes (link a t) moved e f = inl refl
  produce-Goes (link a t) cleaning e f = inl refl
  produce-Goes move idle e f = inl refl
  produce-Goes move (linked t) e f = inr (move_lem q t e)
  produce-Goes move moved e f = inl refl
  produce-Goes move cleaning e f = inl refl
  produce-Goes count idle e f = inl refl
  produce-Goes count (linked t) e f = inl refl
  produce-Goes count moved e f = inr (count_lem q e)
  produce-Goes count cleaning e f = inl refl
  produce-Goes clean idle e f = inl refl
  produce-Goes clean (linked t) e f = inl refl
  produce-Goes clean moved e f = inl refl
  produce-Goes clean cleaning e f = inr (clean_lem dead q e)
  produce-Goes test p e f = inl refl
  produce-Goes copy p e f = inl refl
  produce-Goes advance p e f = inl refl
  produce-Goes uncount p e f = inl refl

  consume-Goes :
      (act : Action A) (c : Consumer A) → s.consumer ≡ c → Goes (consume_step act c s) live
  unfolding consume_step
  consume-Goes test waiting e = inr (test_lem live q e)
  consume-Goes test passed e = inl refl
  consume-Goes test (copied v) e = inl refl
  consume-Goes test (taken v) e = inl refl
  consume-Goes copy waiting e = inl refl
  consume-Goes copy passed e = inr (copy_lem live q e)
  consume-Goes copy (copied v) e = inl refl
  consume-Goes copy (taken v) e = inl refl
  consume-Goes advance waiting e = inl refl
  consume-Goes advance passed e = inl refl
  consume-Goes advance (copied v) e = inr (advance_lem live v q e)
  consume-Goes advance (taken v) e = inl refl
  consume-Goes uncount waiting e = inl refl
  consume-Goes uncount passed e = inl refl
  consume-Goes uncount (copied v) e = inl refl
  consume-Goes uncount (taken v) e = inr (uncount_lem q v e)
  consume-Goes (link a t) c e = inl refl
  consume-Goes move c e = inl refl
  consume-Goes count c e = inl refl
  consume-Goes clean c e = inl refl

  step-Goes : (act : Action A) → Fresh act s.heap → Goes (step act s) live
  unfolding step
  step-Goes (link a t) f = produce-Goes (link a t) s.producer refl f
  step-Goes move f = produce-Goes move s.producer refl f
  step-Goes count f = produce-Goes count s.producer refl f
  step-Goes clean f = produce-Goes clean s.producer refl f
  step-Goes test f = consume-Goes test s.consumer refl
  step-Goes copy f = consume-Goes copy s.consumer refl
  step-Goes advance f = consume-Goes advance s.consumer refl
  step-Goes uncount f = consume-Goes uncount s.consumer refl

-- A run: steps of either thread, in any order, with their events.
pub data Run (A : Type 0) : System A → System A → List (Event A) → Type 0 where
  done : {s : System A} → Run A s s []
  next :
      {s u w : System A} {e : Event A} {es : List (Event A)} (act : Action A)
      → Fresh act s.heap
      → step act s ≡ went e u
      → Run A u w es
      → Run A s w (e ∷ es)

-- The same events of a queue of values.
abbrev pub Replays : {A : Type 0} → List (Event A) → List A → List A → Type 0
Replays [] q r = q ≡ r
Replays {A} (e ∷ es) q r = (m : List A) × Does e q m × Replays es m r

abbrev pub event_of : {A : Type 0} → Outcome A → Event A → Event A
event_of blocked d = d
event_of fault d = d
event_of (went e s) d = e

abbrev pub system_of : {A : Type 0} → Outcome A → System A → System A
system_of blocked d = d
system_of fault d = d
system_of (went e s) d = s

run_lem :
    {A : Type 0} {s w : System A} {es : List (Event A)} {live dead : Cells A}
    → Run A s w es
    → IsQueue s dead live
    → (gone : Cells A) × (left : Cells A) × IsQueue w gone left
      × Replays es (values live) (values left)
run_lem {live = live} {dead = dead} done q = (dead, live, q, refl)
run_lem {s = s} {live = live} (next {u = u} {e = e} act f go rest) q = elim (step-Goes q act f) [
  | inl stuck ↦ absurd (let z = sym go ∙ stuck in cc)
  | inr (e', u', gone, left, goes, q', does) ↦
      let same_e : e' ≡ e = ap (λ o. event_of o e) (sym goes ∙ go) in
      let same_u : u' ≡ u = ap (λ o. system_of o u) (sym goes ∙ go) in
      let (gone', left', last, more) = run_lem rest (subst (λ x. IsQueue x gone left) same_u q') in
      (
        gone',
        left',
        last,
        (values left, subst (λ x. Does x (values live) (values left)) same_e does, more),
      )
]

abbrev pub enqueues : {A : Type 0} → List (Event A) → List A
enqueues [] = []
enqueues (silent ∷ es) = enqueues es
enqueues (enqueued v ∷ es) = v ∷ enqueues es
enqueues (dequeued v ∷ es) = enqueues es
enqueues (found_empty ∷ es) = enqueues es

abbrev pub dequeues : {A : Type 0} → List (Event A) → List A
dequeues [] = []
dequeues (silent ∷ es) = dequeues es
dequeues (enqueued v ∷ es) = dequeues es
dequeues (dequeued v ∷ es) = v ∷ dequeues es
dequeues (found_empty ∷ es) = dequeues es

replays_lem :
    {A : Type 0} (es : List (Event A)) (q r : List A)
    → Replays es q r
    → q ++ enqueues es ≡ dequeues es ++ r
replays_lem [] q r e = append-nil q ∙ e
replays_lem (silent ∷ es) q r (m, d, more) =
    subst (λ x. x ++ enqueues es ≡ dequeues es ++ r) (sym d) (replays_lem es m r more)
replays_lem (enqueued v ∷ es) q r (m, d, more) =
    sym (append_assoc q (v ∷ []) (enqueues es))
    ∙ subst (λ x. x ++ enqueues es ≡ dequeues es ++ r) d (replays_lem es m r more)
replays_lem (dequeued v ∷ es) q r (m, d, more) =
    ap (λ x. x ++ enqueues es) d ∙ ap (◌∷◌ v) (replays_lem es m r more)
replays_lem (found_empty ∷ es) q r (m, d, more) =
    subst (λ x. x ++ enqueues es ≡ dequeues es ++ r) (d.1 ∙ sym d.0) (replays_lem es m r more)

-- The queue's contents: the `next` pointers lead from `divider` to `last` through distinct nodes that
-- hold, in order, these values.
abbrev pub Holds : {A : Type 0} → System A → Cells A → Type 0
Holds w live = PathTo w.heap w.divider live w.last × Unique (w.divider ∷ addresses live)

IsQueue-Holds :
    {A : Type 0} {s : System A} {dead live : Cells A} → IsQueue s dead live → Holds s live
IsQueue-Holds {s = s} {dead = dead} {live = live} q = (
  subst (λ d. PathTo s.heap d live s.last) (sym q.divider_at)
      (PathTo-split s.heap s.first dead live s.last q.chain),
  subst (λ d. Unique (d ∷ addresses live)) (sym q.divider_at)
      (Unique-split s.first dead live q.distinct),
)

module _ {A : Type 0} (a : ℕ) (t : A) (w : System A) (es : List (Event A)) where
  -- From a new queue on, in every interleaving of the steps of the two threads in which `new` returns
  -- unused addresses other than null, the events are those of a queue of values that starts empty: a
  -- value enters at the back, a value leaves at the front, and the consumer finds the queue empty only
  -- when it is.
  pub Run-Replays : a ≢ 0 → Run A (new_queue a t) w es → (r : List A) × Replays es [] r
  Run-Replays nz run =
      let (gone, left, q, more) = run_lem run (new_queue-IsQueue a t nz) in (values left, more)

  -- In such a run no next step of either thread uses a null pointer or a node that is not there.
  pub Run-safe :
      (act : Action A) → a ≢ 0 → Run A (new_queue a t) w es → Fresh act w.heap → step act w ≢ fault
  Run-safe act nz run f e =
      let (gone, left, q, more) = run_lem run (new_queue-IsQueue a t nz) in
      elim (step-Goes q act f) [
        | inl stuck ↦ (let z = sym e ∙ stuck in cc)
        | inr (e', u', gone', left', goes, q', does) ↦ (let z = sym e ∙ goes in cc)
      ]

  -- In such a run, wherever the two threads stand: the nodes behind `divider`, up to `last`, are
  -- distinct, and their values are, in order, those that have entered and have not left; `size` is their
  -- number modulo 2 ^ 32, but for one that the producer has not counted yet and one that the consumer
  -- still counts.
  pub Run-contents :
      a ≢ 0
      → Run A (new_queue a t) w es
      → (live : Cells A) × Holds w live
        × (enqueues es ≡ dequeues es ++ values live)
        × ((w.size + uncounted w.producer) % 2 ^ 32
            ≡ (length live + overcounted w.consumer) % 2 ^ 32)
  Run-contents nz run =
      let (gone, left, q, more) = run_lem run (new_queue-IsQueue a t nz) in
      (left, IsQueue-Holds q, replays_lem es [] (values left) more, q.sized)
