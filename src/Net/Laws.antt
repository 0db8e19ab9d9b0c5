-- ===== src/Net/Laws.antt =====
-- Reading back what the writer appended.
use xrtc_server.Prelude.{
  ℕ, ◌+◌, ◌*◌, ◌/◌, ◌%◌, ◌^◌, ◌<◌, ◌≤◌, ◌≡◌, List, ◌++◌, some, arith, length, take, drop,
  length-take, length-drop, dec_lt, [], ◌∷◌, none, ◌⊎◌, inl, inr, take-append-drop,
}
use xrtc_server.Net.{Net}

module _ (net : Net) where
  pub read_uint16-write_uint16 :
      (v : ℕ) (r : List ℕ) → v < 65536 → net.read_uint16 (net.write_uint16 v ++ r) ≡ some (v, r)
  read_uint16-write_uint16 v r h =
      let e : v / 256 * 256 + v % 256 ≡ v = omega arith in
      rw (net.write_uint16_lem v h, net.read_uint16-cons, e)

  pub read_uint32-write_uint32 :
      (v : ℕ) (r : List ℕ) → v < 2 ^ 32 → net.read_uint32 (net.write_uint32 v ++ r) ≡ some (v, r)
  read_uint32-write_uint32 v r h =
      let e : ((v / 2 ^ 24 * 256 + v / 2 ^ 16 % 256) * 256 + v / 2 ^ 8 % 256) * 256 + v % 256 ≡ v =
        omega arith in
      rw (net.write_uint32_lem v h, net.read_uint32-cons, e)

  pub length-write_uint16 : (v : ℕ) → v < 65536 → length (net.write_uint16 v) ≡ 2
  length-write_uint16 v h = rw (net.write_uint16_lem v h)

  pub length-write_uint32 : (v : ℕ) → v < 2 ^ 32 → length (net.write_uint32 v) ≡ 4
  length-write_uint32 v h = rw (net.write_uint32_lem v h)

  -- Both ways to take n bytes, as the first n of the list.
  pub read_bytes-take :
      (n : ℕ) (r : List ℕ) → n ≤ length r → net.read_bytes n r ≡ some (take n r, drop n r)
  read_bytes-take n r h =
      rw (take-append-drop n r) at
        (net.read_bytes-append n (take n r) (drop n r) (omega (arith, length-take n r)))

  pub consume-drop : (n : ℕ) (r : List ℕ) → n ≤ length r → net.consume n r ≡ some (drop n r)
  consume-drop n r h =
      rw (take-append-drop n r) at
        (net.consume-append n (take n r) (drop n r) (omega (arith, length-take n r)))

  -- On any bytes a read fails, or takes its bytes.
  pub read_uint16_cases :
      (r : List ℕ)
      → (net.read_uint16 r ≡ none)
        ⊎ ((v : ℕ) × (r' : List ℕ) × (net.read_uint16 r ≡ some (v, r'))
            × (length r' + 2 ≡ length r))
  read_uint16_cases [] = inl (net.read_uint16_short [] (omega arith))
  read_uint16_cases (a ∷ []) = inl (net.read_uint16_short (a ∷ []) (omega arith))
  read_uint16_cases (a ∷ b ∷ r) = inr (_, r, net.read_uint16-cons a b r, omega arith)

  pub read_uint32_cases :
      (r : List ℕ)
      → (net.read_uint32 r ≡ none)
        ⊎ ((v : ℕ) × (r' : List ℕ) × (net.read_uint32 r ≡ some (v, r'))
            × (length r' + 4 ≡ length r))
  read_uint32_cases [] = inl (net.read_uint32_short _ (omega arith))
  read_uint32_cases (a ∷ []) = inl (net.read_uint32_short _ (omega arith))
  read_uint32_cases (a ∷ b ∷ []) = inl (net.read_uint32_short _ (omega arith))
  read_uint32_cases (a ∷ b ∷ c ∷ []) = inl (net.read_uint32_short _ (omega arith))
  read_uint32_cases (a ∷ b ∷ c ∷ d ∷ r) = inr (_, r, net.read_uint32-cons a b c d r, omega arith)

  pub read_bytes_cases :
      (n : ℕ) (r : List ℕ)
      → (net.read_bytes n r ≡ none)
        ⊎ ((xs : List ℕ) × (r' : List ℕ) × (net.read_bytes n r ≡ some (xs, r'))
            × (length xs ≡ n)
            × (length r' + n ≡ length r))
  read_bytes_cases n r = elim (dec_lt (length r) n) [
    | yes h ↦ inl (net.read_bytes_short n r h)
    | no h ↦ inr (
      take n r,
      drop n r,
      read_bytes-take n r (omega arith),
      omega (arith, length-take n r),
      omega (arith, length-drop n r),
    )
  ]
