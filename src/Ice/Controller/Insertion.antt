-- ===== src/Ice/Controller/Insertion.antt =====
-- A stable sort that keeps what the controller takes from std::stable_sort: insertion from the back.
use xrtc_server.Prelude.{
  ℕ, ◌≡◌, inl, inr, refl, List, [], ◌∷◌, Bool, true, false, ◌||◌, arith, Bool-cases, ◌==◌,
  ℕ_discrete, subst, if◌then◌else◌,
}
use xrtc_server.Ice.Controller.{member}
use xrtc_server.Ice.Controller.Order.{StrictWeakOrder}
use xrtc_server.Ice.Controller.Switch.{Sorted, IsStableSort}

unfoldable pub insert : (ℕ → ℕ → Bool) → ℕ → List ℕ → List ℕ
insert less x [] = x ∷ []
insert less x (y ∷ ys) = let rest = insert less x ys in if less y x then y ∷ rest else x ∷ y ∷ ys

unfoldable pub insertion_sort : (ℕ → ℕ → Bool) → List ℕ → List ℕ
unfolding insert
insertion_sort less [] = []
insertion_sort less (x ∷ xs) = insert less x (insertion_sort less xs)

member-insert :
    (less : ℕ → ℕ → Bool) (z x : ℕ) (ys : List ℕ)
    → member z (insert less x ys) ≡ (z == x || member z ys)
unfolding member insert
member-insert less z x [] = refl
member-insert less z x (y ∷ ys) = let ih = member-insert less z x ys in ground arith

member-insertion_sort :
    (less : ℕ → ℕ → Bool) (z : ℕ) (xs : List ℕ) → member z (insertion_sort less xs) ≡ member z xs
unfolding member insertion_sort
member-insertion_sort less z [] = refl
member-insertion_sort less z (x ∷ xs) =
    let ih = member-insertion_sort less z xs in
    let one = member-insert less z x (insertion_sort less xs) in ground arith

asymmetric :
    (less : ℕ → ℕ → Bool) (w : StrictWeakOrder less) (a b : ℕ) → less a b ≡ true → less b a ≡ false
asymmetric less w a b h = elim (Bool-cases (less b a)) [
  | inr f ↦ f
  | inl g ↦ (let t = w.transitive a b a h g in let i = w.irreflexive a in cc)
]

insert-Sorted :
    (less : ℕ → ℕ → Bool) (w : StrictWeakOrder less) (x : ℕ) (ys : List ℕ)
    → Sorted less ys
    → Sorted less (insert less x ys)
unfolding insert member
insert-Sorted less w x [] s = ((λ z m. cc), tt)
insert-Sorted less w x (y ∷ ys) (h, s) = elim (Bool-cases (less y x)) [
  | inl l ↦
      rw (l, insert)
        (
          (λ z m. elim (ℕ_discrete x z) [
            | yes e ↦ subst (λ v. less v y ≡ false) e (asymmetric less w y x l)
            | no n ↦ h z (let i = member-insert less z x ys in ground arith)
          ]),
          insert-Sorted less w x ys s,
        )
  | inr l ↦
      rw (l, insert)
        (
          (λ z m. elim (ℕ_discrete y z) [
            | yes e ↦ subst (λ v. less v x ≡ false) e l
            | no n ↦ w.unordered z y x (h z (ground arith)) l
          ]),
          (h, s),
        )
]

insertion_sort-Sorted :
    (less : ℕ → ℕ → Bool) (xs : List ℕ)
    → StrictWeakOrder less
    → Sorted less (insertion_sort less xs)
unfolding insertion_sort
insertion_sort-Sorted less [] w = tt
insertion_sort-Sorted less (x ∷ xs) w =
    insert-Sorted less w x (insertion_sort less xs) (insertion_sort-Sorted less xs w)

pub insertion_sort-IsStableSort : IsStableSort insertion_sort
insertion_sort-IsStableSort = record {
  same_members = λ less xs w x. member-insertion_sort less x xs;
  sorted = insertion_sort-Sorted;
}
