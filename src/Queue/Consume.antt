-- ===== src/Queue/Consume.antt =====
-- Each step of consume against a queue of values.
use mathlib.Core.List.{append_assoc}
use xrtc_server.Prelude.{
  ℕ, ◌+◌, ◌-◌, ◌%◌, ◌^◌, ◌≡◌, ◌≢◌, refl, [], ◌∷◌, ◌++◌, true, false, arith, some, ◌==◌, subst, sym,
  ap, ◌∙◌,
}
use xrtc_server.Ice.Controller.{member}
use xrtc_server.Ice.Controller.Tracking.{Unique}
use xrtc_server.Queue.{
  Node, Heap, System, waiting, passed, copied, taken, silent, dequeued, found_empty, test_step,
  copy_step, advance_step, uncount_step,
}
use xrtc_server.Queue.Chain.{next_of, value_of, Cells, addresses, PathTo, end_member, values}
use xrtc_server.Queue.Invariant.{
  IsQueue, nodes, node_held, held_some, end_of, end_of-append, ConsumerAt, ProducerAt, PathTo-split,
  Unique-split, divider_member,
}
use xrtc_server.Queue.Parts.{Simulates, copy_at, advance_at, relocated, sized_at}

module _ {A : Type 0} {s : System A} {dead live : Cells A} (q : IsQueue s dead live) where
  pub uncount_lem : (v : A) → s.consumer ≡ taken v → Simulates (uncount_step s) live
  unfolding uncount_step
  uncount_lem v c =
      let z = sized_at q refl c in
      (
        silent,
        record s { size = (s.size + (2 ^ 32 - 1)) % 2 ^ 32; consumer = waiting },
        dead,
        live,
        refl,
        relocated q s.producer waiting ((s.size + (2 ^ 32 - 1)) % 2 ^ 32) q.producer_at tt
            (omega (arith, z)),
        refl,
      )

-- The start of a chain of distinct nodes with a cell is not its end.
ends_apart :
    {A : Type 0} (h : Heap A) (a c : ℕ) (v : A) (cs : Cells A) (b : ℕ)
    → PathTo h a ((c, v) ∷ cs) b
    → Unique (a ∷ addresses ((c, v) ∷ cs))
    → a ≢ b
ends_apart h a c v cs b (n, w, p) (out, u) e =
    let z = subst (λ x. member x (c ∷ addresses cs) ≡ true) (sym e) (end_member h c cs b p) in cc

pub test_lem :
    {A : Type 0} {s : System A} {dead : Cells A} (live : Cells A) (q : IsQueue s dead live)
    → s.consumer ≡ waiting
    → Simulates (test_step s) live
unfolding test_step
test_lem {s = s} {dead = dead} [] q c =
    let e : s.divider ≡ s.last =
      q.divider_at ∙ PathTo-split s.heap s.first dead [] s.last q.chain in
    let on : (s.divider == s.last) ≡ true = ground arith in
    (found_empty, s, dead, [], (rw on), q, (refl, refl))
test_lem {s = s} {dead = dead} ((a, v) ∷ live) q c =
    let ne =
      ends_apart s.heap (end_of s.first dead) a v live s.last
        (PathTo-split s.heap s.first dead ((a, v) ∷ live) s.last q.chain)
        (Unique-split s.first dead ((a, v) ∷ live) q.distinct) in
    let e = q.divider_at in
    let off : (s.divider == s.last) ≡ false = ground arith in
    (
      silent,
      record s { consumer = passed },
      dead,
      (a, v) ∷ live,
      (rw off),
      relocated q s.producer passed s.size q.producer_at tt (sized_at q refl c),
      refl,
    )

-- The nodes around `divider` when there is an element.
at_divider :
    {A : Type 0} {s : System A} {dead : Cells A} (a : ℕ) (v : A) (live : Cells A)
    → IsQueue s dead ((a, v) ∷ live)
    → (n : Node A) × (s.heap s.divider ≡ some n) × (n.next ≡ a) × (value_of (s.heap a) ≡ some v)
at_divider {s = s} {dead = dead} a v live q =
    let (d, hd) = node_held q s.divider (
      subst (λ x. member x (nodes s dead ((a, v) ∷ live)) ≡ true) (sym q.divider_at)
        (divider_member s.first dead ((a, v) ∷ live))) in
    let (n, en, _) = held_some (s.heap s.divider) d hd in
    let (to, val, rest) = PathTo-split s.heap s.first dead ((a, v) ∷ live) s.last q.chain in
    (n, en, sym (ap next_of en) ∙ ap (λ x. next_of (s.heap x)) q.divider_at ∙ to, val)

pub copy_lem :
    {A : Type 0} {s : System A} {dead : Cells A} (live : Cells A) (q : IsQueue s dead live)
    → s.consumer ≡ passed
    → Simulates (copy_step s) live
copy_lem {s = s} [] q c = absurd (subst (λ x. ConsumerAt x []) c q.consumer_at)
copy_lem {s = s} {dead = dead} ((a, v) ∷ live) q c =
    let (n, en, to, val) = at_divider a v live q in
    let (k, ek, same) = held_some (s.heap a) v val in
    (
      silent,
      record s { consumer = copied k.value },
      dead,
      (a, v) ∷ live,
      copy_at s n k en (ap s.heap to ∙ ek),
      relocated q s.producer (copied k.value) s.size q.producer_at (sym same) (sized_at q refl c),
      refl,
    )

pub advance_lem :
    {A : Type 0} {s : System A} {dead : Cells A} (live : Cells A) (w : A) (q : IsQueue s dead live)
    → s.consumer ≡ copied w
    → Simulates (advance_step w s) live
advance_lem [] w q c = absurd (subst (λ x. ConsumerAt x []) c q.consumer_at)
advance_lem {s = s} {dead = dead} ((a, v) ∷ live) w q c =
    let (n, en, to, val) = at_divider a v live q in
    let same : v ≡ w = subst (λ x. ConsumerAt x ((a, v) ∷ live)) c q.consumer_at in
    let through : dead ++ ((a, v) ∷ live) ≡ (dead ++ ((a, v) ∷ [])) ++ live =
      sym (append_assoc dead ((a, v) ∷ []) live) in
    let z = sized_at q refl c in
    (
      dequeued w,
      record s { divider = n.next; consumer = taken w },
      dead ++ ((a, v) ∷ []),
      live,
      advance_at w s n en,
      record {
        chain = subst (λ cs. PathTo s.heap s.first cs s.last) through q.chain;
        divider_at = to ∙ sym (end_of-append s.first dead a v);
        distinct = subst (λ cs. Unique (s.first ∷ addresses cs)) through q.distinct;
        first_held = q.first_held;
        null_free = q.null_free;
        producer_at =
            subst (λ cs. ProducerAt s.producer s.heap s.last (s.first ∷ addresses cs)) through
              q.producer_at;
        consumer_at = tt;
        sized = omega (arith, z);
      },
      ap (λ x. x ∷ values live) same,
    )
