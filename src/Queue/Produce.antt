-- ===== src/Queue/Produce.antt =====
-- Each step of produce against a queue of values.
use mathlib.Core.List.{append_assoc}
use xrtc_server.Prelude.{
  ℕ, ◌+◌, ◌%◌, ◌^◌, ◌≡◌, ◌≢◌, inl, inr, refl, [], ◌∷◌, ◌++◌, true, false, arith, some, none, ◌==◌,
  subst, sym, ap, ◌∙◌, ℕ_discrete, Bool-cases, length-append,
}
use xrtc_server.Ice.Controller.{member}
use xrtc_server.Ice.Controller.Tracking.{Unique, append-Unique}
use xrtc_server.Queue.{
  Node, store, System, idle, linked, moved, cleaning, silent, enqueued, link_step, move_step,
  count_step, clean_step,
}
use xrtc_server.Queue.Chain.{
  next_of, value_of, Cells, addresses, addresses-append, PathTo, PathTo-append, PathTo-frame,
  values-append,
}
use xrtc_server.Queue.Invariant.{
  IsQueue, nodes, node_held, last_member, held_some, end_of, ProducerAt, divider_member,
}
use xrtc_server.Queue.Parts.{
  Simulates, store_same, store_other, null_kept, held_ne, first_member, link_at, move_at, clean_at,
  relocated, sized_at, ConsumerAt-append,
}

module _ {A : Type 0} {s : System A} {dead live : Cells A} (q : IsQueue s dead live) where
  pub link_lem :
      (a : ℕ) (t : A)
      → s.producer ≡ idle
      → s.heap a ≡ none
      → a ≢ 0
      → Simulates (link_step a t s) live
  unfolding link_step
  link_lem a t p free nz =
      let (v, held) = node_held q s.last (last_member q) in
      let (n, en, _) = held_some (s.heap s.last) v held in
      let l_ne : s.last ≢ a = held_ne s.heap a s.last v free held in
      let h₁ = store s.heap a (some (record { value = t; next = 0 })) in
      let node : Node A = record n { next = a } in
      let g = store h₁ s.last (some node) in
      let at_last : g s.last ≡ some node = store_same h₁ s.last (some node) in
      let at_a : g a ≡ some (record { value = t; next = 0 }) =
        store_other h₁ s.last (some node) a (λ e. l_ne (sym e))
        ∙ store_same s.heap a (some (record { value = t; next = 0 })) in
      let others : (x : ℕ) (w : A) → value_of (s.heap x) ≡ some w → x ≢ s.last → g x ≡ s.heap x =
        λ x w hw ne.
          store_other h₁ s.last (some node) x ne
          ∙ store_other s.heap a (some (record { value = t; next = 0 })) x
              (held_ne s.heap a x w free hw) in
      let same_value : (x : ℕ)
          → member x (nodes s dead live) ≡ true
          → value_of (g x) ≡ value_of (s.heap x) =
        λ x m. elim (ℕ_discrete x s.last) [
          | yes e ↦
              subst (λ z. value_of (g z) ≡ value_of (s.heap z)) (sym e)
                (ap value_of at_last ∙ sym (ap value_of en))
          | no ne ↦ (let (w, hw) = node_held q x m in ap value_of (others x w hw ne))
        ] in
      let same_next : (x : ℕ)
          → member x (nodes s dead live) ≡ true
          → x ≢ s.last
          → next_of (g x) ≡ next_of (s.heap x) =
        λ x m ne. (let (w, hw) = node_held q x m in ap next_of (others x w hw ne)) in
      let fresh : member a (nodes s dead live) ≡ false =
        elim (Bool-cases (member a (nodes s dead live))) [
          | inl m ↦ absurd (let (w, hw) = node_held q a m in held_ne s.heap a a w free hw refl)
          | inr m ↦ m
        ] in
      let to_a : next_of (g s.last) ≡ a = ap next_of at_last in
      let zero_ne : s.last ≢ 0 = held_ne s.heap 0 s.last v q.null_free held in
      let first_in : member s.first (nodes s dead live) ≡ true = first_member s dead live in
      let (f, hf) = q.first_held in
      (
        silent,
        record s { heap = g; producer = linked t },
        dead,
        live,
        link_at a t s n en,
        record {
          chain =
              PathTo-frame s.heap g s.first (dead ++ live) s.last q.chain q.distinct same_value
                same_next;
          divider_at = q.divider_at;
          distinct = q.distinct;
          first_held = (f, same_value s.first first_in ∙ hf);
          null_free =
              store_other h₁ s.last (some node) 0 (λ e. zero_ne (sym e))
              ∙ store_other s.heap a (some (record { value = t; next = 0 })) 0 (λ e. nz (sym e))
              ∙ q.null_free;
          producer_at = (
            ap value_of (ap g to_a ∙ at_a),
            subst (λ z. member z (nodes s dead live) ≡ false) (sym to_a) fresh,
          );
          consumer_at = q.consumer_at;
          sized = sized_at q p refl;
        },
        refl,
      )

  -- The same nodes, threads elsewhere.
  pub count_lem : s.producer ≡ moved → Simulates (count_step s) live
  unfolding count_step
  count_lem p =
      let z = sized_at q p refl in
      (
        silent,
        record s { size = (s.size + 1) % 2 ^ 32; producer = cleaning },
        dead,
        live,
        refl,
        relocated q cleaning s.consumer ((s.size + 1) % 2 ^ 32) tt q.consumer_at (omega (arith, z)),
        refl,
      )

  pub move_lem : (t : A) → s.producer ≡ linked t → Simulates (move_step t s) live
  unfolding move_step
  move_lem t p =
      let (v, held) = node_held q s.last (last_member q) in
      let (n, en, _) = held_some (s.heap s.last) v held in
      let at = subst (λ x. ProducerAt x s.heap s.last (nodes s dead live)) p q.producer_at in
      let to_n : next_of (s.heap s.last) ≡ n.next = ap next_of en in
      let more : Cells A = (n.next, t) ∷ [] in
      let longer : dead ++ (live ++ more) ≡ (dead ++ live) ++ more =
        sym (append_assoc dead live more) in
      let z = sized_at q p refl in
      let grown = length-append live more in
      (
        enqueued t,
        record s { last = n.next; producer = moved },
        dead,
        live ++ more,
        move_at t s n en,
        record {
          chain =
              subst (λ cs. PathTo s.heap s.first cs n.next) (sym longer)
                (PathTo-append s.heap s.first (dead ++ live) s.last more n.next q.chain
                  (to_n, subst (λ x. value_of (s.heap x) ≡ some t) to_n at.0, refl));
          divider_at = q.divider_at;
          distinct =
              (let fresh : member n.next (s.first ∷ addresses (dead ++ live)) ≡ false =
                  subst (λ x. member x (nodes s dead live) ≡ false) to_n at.1 in
                subst (λ xs. Unique (s.first ∷ xs))
                  (sym (ap addresses longer ∙ addresses-append (dead ++ live) more))
                  (append-Unique (s.first ∷ addresses (dead ++ live)) n.next q.distinct fresh));
          first_held = q.first_held;
          null_free = q.null_free;
          producer_at = tt;
          consumer_at = ConsumerAt-append s.consumer live more q.consumer_at;
          sized = omega (arith, z, grown);
        },
        values-append live more,
      )

pub clean_lem :
    {A : Type 0} {s : System A} (dead : Cells A) {live : Cells A} (q : IsQueue s dead live)
    → s.producer ≡ cleaning
    → Simulates (clean_step s) live
unfolding clean_step
clean_lem {s = s} [] {live = live} q p =
    let e = q.divider_at in
    let on : (s.divider == s.first) ≡ true = ground arith in
    (
      silent,
      record s { producer = idle },
      [],
      live,
      (rw on),
      relocated q idle s.consumer s.size tt q.consumer_at (sized_at q p refl),
      refl,
    )
clean_lem {s = s} ((c, v) ∷ dead) {live = live} q p =
    let (to, val, rest) = q.chain in
    let (out, uniq) = q.distinct in
    let (f, hf) = q.first_held in
    let (n, en, _) = held_some (s.heap s.first) f hf in
    let ahead : n.next ≡ c = sym (ap next_of en) ∙ to in
    let apart : s.divider ≢ s.first = λ e.
      (let z =
          subst (λ x. member x (c ∷ addresses (dead ++ live)) ≡ true) (sym q.divider_at ∙ e)
            (divider_member c dead live) in
        cc) in
    let g = store s.heap s.first none in
    let kept : (x : ℕ) → member x (c ∷ addresses (dead ++ live)) ≡ true → g x ≡ s.heap x = λ x m.
      store_other s.heap s.first none x
        (λ e. (let z = subst (λ y. member y (c ∷ addresses (dead ++ live)) ≡ true) e m in cc)) in
    let here : PathTo g c (dead ++ live) s.last =
      PathTo-frame s.heap g c (dead ++ live) s.last rest uniq (λ x m. ap value_of (kept x m))
        (λ x m ne. ap next_of (kept x m)) in
    (
      silent,
      record s { first = n.next; heap = g },
      dead,
      live,
      clean_at s n en apart,
      record {
        chain = subst (λ x. PathTo g x (dead ++ live) s.last) (sym ahead) here;
        divider_at = q.divider_at ∙ ap (λ x. end_of x dead) (sym ahead);
        distinct = subst (λ x. Unique (x ∷ addresses (dead ++ live))) (sym ahead) uniq;
        first_held = (
          v,
          ap value_of (ap g ahead ∙ kept c (first_member (record s { first = c }) dead live)) ∙ val,
        );
        null_free = null_kept s.heap s.first q.null_free;
        producer_at =
            subst (λ x. ProducerAt x g s.last (n.next ∷ addresses (dead ++ live))) (sym p) tt;
        consumer_at = q.consumer_at;
        sized = q.sized;
      },
      refl,
    )
