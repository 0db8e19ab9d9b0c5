-- ===== src/Stream/Table.antt =====
-- The unordered_map from the name of a stream to the stream that the stream manager uses twice.
use xrtc_server.Prelude.{
  ℕ, ◌≡◌, refl, List, [], ◌∷◌, true, Option, some, none, if◌then◌else◌, same_bytes, same_bytes_iff,
  Bool-cases, inl, inr, ap, subst,
}

-- Two names that both equal a third are equal.
same_same : (a b c : List ℕ) → same_bytes a b ≡ true → same_bytes a c ≡ true → same_bytes b c ≡ true
same_same a b c p q = subst (λ x. same_bytes x c ≡ true) ((same_bytes_iff a b).0 p) q

module _ {A : Type 0} where
  -- find
  unfoldable pub find : List ℕ → List (List ℕ × A) → Option A
  find n [] = none
  find n ((k, v) ∷ t) = let rest = find n t in if same_bytes n k then some v else rest

  -- table[n] = s
  unfoldable pub put : List ℕ → A → List (List ℕ × A) → List (List ℕ × A)
  put n s [] = (n, s) ∷ []
  put n s ((k, v) ∷ t) =
      let rest = put n s t in if same_bytes n k then (k, s) ∷ t else (k, v) ∷ rest

  -- erase
  unfoldable pub remove : List ℕ → List (List ℕ × A) → List (List ℕ × A)
  remove n [] = []
  remove n ((k, v) ∷ t) = let rest = remove n t in if same_bytes n k then rest else (k, v) ∷ rest

  pub find-put :
      (m n : List ℕ) (s : A) (t : List (List ℕ × A))
      → find m (put n s t) ≡ (if same_bytes m n then some s else find m t)
  unfolding find put
  find-put m n s [] = refl
  find-put m n s ((k, v) ∷ t) =
      let ih = find-put m n s t in
      elim (Bool-cases (same_bytes n k)) [
        | inl p ↦
            let e = ap (same_bytes m) ((same_bytes_iff n k).0 p) in
            elim (Bool-cases (same_bytes m k)) [
              | inl q ↦ rw (p, put, find, e, q) refl
              | inr q ↦ rw (p, put, find, e, q) refl
            ]
        | inr p ↦ elim (Bool-cases (same_bytes m n)) [
          | inl q ↦ elim (Bool-cases (same_bytes m k)) [
            | inl r ↦ (let x = same_same m n k q r in cc)
            | inr r ↦ rw (p, put, find, r, ih, q) refl
          ]
          | inr q ↦ rw (p, put, find, ih, q) refl
        ]
      ]

  pub find-remove :
      (m n : List ℕ) (t : List (List ℕ × A))
      → find m (remove n t) ≡ (if same_bytes m n then none else find m t)
  unfolding find remove
  find-remove m n [] = elim (Bool-cases (same_bytes m n)) [ inl q ↦ rw q refl | inr q ↦ rw q refl ]
  find-remove m n ((k, v) ∷ t) =
      let ih = find-remove m n t in
      elim (Bool-cases (same_bytes n k)) [
        | inl p ↦
            let e = ap (same_bytes m) ((same_bytes_iff n k).0 p) in
            elim (Bool-cases (same_bytes m k)) [
              | inl q ↦ rw (p, remove, find, ih, e, q) refl
              | inr q ↦ rw (p, remove, find, ih, e, q) refl
            ]
        | inr p ↦ elim (Bool-cases (same_bytes m n)) [
          | inl q ↦ elim (Bool-cases (same_bytes m k)) [
            | inl r ↦ (let x = same_same m n k q r in cc)
            | inr r ↦ rw (p, remove, find, r, ih, q) refl
          ]
          | inr q ↦ rw (p, remove, find, ih, q) refl
        ]
      ]
