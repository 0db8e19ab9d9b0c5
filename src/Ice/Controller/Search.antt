-- ===== src/Ice/Controller/Search.antt =====
-- The search of _find_next_pingable_connection for the connection that has waited longest.
use xrtc_server.Prelude.{
  ℕ, ◌≤◌, ◌≡◌, ◌⊎◌, inl, inr, refl, List, [], ◌∷◌, Bool, true, ◌&&◌, arith, Bool-cases, Option,
  some, none, ℕ_discrete, subst, ltb, ap, sym, if◌then◌else◌,
}
use xrtc_server.Ice.Controller.{Store, member, most_pingable, more_pingable}

step_source :
    (test : ℕ → Bool) (more : Bool) (found : Option ℕ) (x c : ℕ)
    → (if test x && more then some x else found) ≡ some c
    → (found ≡ some c) ⊎ ((x ≡ c) × (test c ≡ true))
step_source test more found x c e = elim (Bool-cases (test x)) [
  | inr h ↦ ground arith
  | inl h ↦ elim (Bool-cases more) [
    | inr g ↦ ground arith
    | inl g ↦ (let p : x ≡ c = ground arith in inr (p, subst (λ z. test z ≡ true) p h))
  ]
]

pub most_pingable_source :
    (store : Store) (test : ℕ → Bool) (found : Option ℕ) (xs : List ℕ) (c : ℕ)
    → most_pingable store test found xs ≡ some c
    → (found ≡ some c) ⊎ ((member c xs ≡ true) × (test c ≡ true))
unfolding most_pingable member
most_pingable_source store test found [] c e = inl e
most_pingable_source store test found (x ∷ xs) c e =
    elim (most_pingable_source store test
      (if test x && more_pingable store x found then some x else found) xs c e) [
        | inr (m, h) ↦ inr (ground arith, h)
        | inl f ↦ elim (step_source test (more_pingable store x found) found x c f) [
          | inl g ↦ inl g
          | inr (p, h) ↦ inr (ground arith, h)
        ]
      ]

abbrev pub Waits : Store → Option ℕ → ℕ → Type 0
Waits store found x =
    (c : ℕ) × (found ≡ some c) × ((store c).last_ping_sent ≤ (store x).last_ping_sent)

step-Waits :
    (store : Store) (test : ℕ → Bool) (found : Option ℕ) (x : ℕ)
    → test x ≡ true
    → Waits store (if test x && more_pingable store x found then some x else found) x
unfolding more_pingable
step-Waits store test none x h = rw h (x, refl, ground arith)
step-Waits store test (some f) x h =
    elim (Bool-cases (ltb (store x).last_ping_sent (store f).last_ping_sent)) [
      | inl l ↦ rw (h, l, more_pingable) (x, refl, ground arith)
      | inr l ↦ rw (h, l, more_pingable) (f, refl, ground arith)
    ]

keep-Waits :
    (store : Store) (test : ℕ → Bool) (found : Option ℕ) (x y : ℕ)
    → Waits store found y
    → Waits store (if test x && more_pingable store x found then some x else found) y
unfolding more_pingable
keep-Waits store test none x y (c, e, l) = cc
keep-Waits store test (some f) x y (c, e, l) =
    elim (Bool-cases (test x && ltb (store x).last_ping_sent (store f).last_ping_sent)) [
      | inl h ↦
          (let p : f ≡ c = cc in
            let shorter : (store x).last_ping_sent ≤ (store y).last_ping_sent =
              (let q = ap (λ z. (store z).last_ping_sent) p in ground arith) in
            rw (h, more_pingable) (x, refl, shorter))
      | inr h ↦ rw (h, more_pingable) (c, e, l)
    ]

found-Waits :
    (store : Store) (test : ℕ → Bool) (found : Option ℕ) (xs : List ℕ) (y : ℕ)
    → Waits store found y
    → Waits store (most_pingable store test found xs) y
unfolding most_pingable
found-Waits store test found [] y w = w
found-Waits store test found (x ∷ xs) y w =
    found-Waits store test (if test x && more_pingable store x found then some x else found) xs y
      (keep-Waits store test found x y w)

pub most_pingable-Waits :
    (store : Store) (test : ℕ → Bool) (found : Option ℕ) (xs : List ℕ) (y : ℕ)
    → member y xs ≡ true
    → test y ≡ true
    → Waits store (most_pingable store test found xs) y
unfolding most_pingable member
most_pingable-Waits store test found [] y m h = cc
most_pingable-Waits store test found (x ∷ xs) y m h =
    let next = if test x && more_pingable store x found then some x else found in
    elim (ℕ_discrete x y) [
      | yes e ↦ found-Waits store test next xs y (
          subst (λ z. Waits store next z) e
            (step-Waits store test found x (subst (λ z. test z ≡ true) (sym e) h)))
      | no e ↦ most_pingable-Waits store test next xs y (ground arith) h
    ]
