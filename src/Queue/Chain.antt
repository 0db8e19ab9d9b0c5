-- ===== src/Queue/Chain.antt =====
-- Chains of nodes, and what a write elsewhere leaves of them.
use xrtc_server.Prelude.{
  ℕ, ◌≡◌, ◌≢◌, refl, List, [], ◌∷◌, ◌++◌, true, arith, Option, some, none, ℕ_discrete, subst, sym,
  ap, ◌∙◌,
}
use xrtc_server.Ice.Controller.{member}
use xrtc_server.Ice.Controller.Tracking.{Unique}
use xrtc_server.Queue.{Node, Heap}

abbrev pub next_of : {A : Type 0} → Option (Node A) → ℕ
next_of none = 0
next_of (some n) = n.next

abbrev pub value_of : {A : Type 0} → Option (Node A) → Option A
value_of none = none
value_of (some n) = some n.value

abbrev pub Cells : Type 0 → Type 0
Cells A = List (ℕ × A)

abbrev pub addresses : {A : Type 0} → Cells A → List ℕ
addresses [] = []
addresses ((c, v) ∷ cs) = c ∷ addresses cs

-- From the node at `a` the `next` pointers lead through the cells, by address and value, to `b`.
abbrev pub PathTo : {A : Type 0} → Heap A → ℕ → Cells A → ℕ → Type 0
PathTo h a [] b = a ≡ b
PathTo h a ((c, v) ∷ cs) b = (next_of (h a) ≡ c) × (value_of (h c) ≡ some v) × PathTo h c cs b

pub addresses-append :
    {A : Type 0} (cs ds : Cells A) → addresses (cs ++ ds) ≡ addresses cs ++ addresses ds
addresses-append [] ds = refl
addresses-append ((c, v) ∷ cs) ds = ap (◌∷◌ c) (addresses-append cs ds)

-- The end of a chain is its start or one of its cells.
pub end_member :
    {A : Type 0} (h : Heap A) (a : ℕ) (cs : Cells A) (b : ℕ)
    → PathTo h a cs b
    → member b (a ∷ addresses cs) ≡ true
unfolding member
end_member h a [] b e = ground arith
end_member h a ((c, v) ∷ cs) b (n, w, p) = let ih = end_member h c cs b p in ground arith

pub PathTo-append :
    {A : Type 0} (h : Heap A) (a : ℕ) (cs : Cells A) (b : ℕ) (ds : Cells A) (e : ℕ)
    → PathTo h a cs b
    → PathTo h b ds e
    → PathTo h a (cs ++ ds) e
PathTo-append h a [] b ds e p q = subst (λ x. PathTo h x ds e) (sym p) q
PathTo-append h a ((c, v) ∷ cs) b ds e (n, w, p) q = (n, w, PathTo-append h c cs b ds e p q)

-- A chain survives what keeps its values, and its `next` pointers but for that of its end.
pub PathTo-frame :
    {A : Type 0} (h g : Heap A) (a : ℕ) (cs : Cells A) (b : ℕ)
    → PathTo h a cs b
    → Unique (a ∷ addresses cs)
    → ((x : ℕ) → member x (a ∷ addresses cs) ≡ true → value_of (g x) ≡ value_of (h x))
    → ((x : ℕ) → member x (a ∷ addresses cs) ≡ true → x ≢ b → next_of (g x) ≡ next_of (h x))
    → PathTo g a cs b
unfolding member
PathTo-frame h g a [] b e u vs ns = e
PathTo-frame h g a ((c, v) ∷ cs) b (n, w, p) (out, u) vs ns =
    let in_rest = end_member h c cs b p in
    let apart : a ≢ b =
      λ e. (let f = subst (λ z. member z (c ∷ addresses cs) ≡ true) (sym e) in_rest in cc) in
    (
      ns a (ground arith) apart ∙ n,
      vs c (ground arith) ∙ w,
      PathTo-frame h g c cs b p u (λ x m. vs x (ground arith)) (λ x m. ns x (ground arith)),
    )

-- Each cell holds its value.
pub cell_held :
    {A : Type 0} (h : Heap A) (a : ℕ) (cs : Cells A) (b x : ℕ)
    → PathTo h a cs b
    → member x (addresses cs) ≡ true
    → (v : A) × (value_of (h x) ≡ some v)
unfolding member
cell_held h a [] b x p m = cc
cell_held h a ((c, v) ∷ cs) b x (n, w, p) m = elim (ℕ_discrete x c) [
  | yes e ↦ (v, subst (λ z. value_of (h z) ≡ some v) (sym e) w)
  | no e ↦ cell_held h c cs b x p (ground arith)
]

-- A chain is as long as its values.
abbrev pub values : {A : Type 0} → Cells A → List A
values [] = []
values ((c, v) ∷ cs) = v ∷ values cs

pub values-append : {A : Type 0} (cs ds : Cells A) → values (cs ++ ds) ≡ values cs ++ values ds
values-append [] ds = refl
values-append ((c, v) ∷ cs) ds = ap (◌∷◌ v) (values-append cs ds)
