-- ===== src/Server/Framing/Flood.antt =====
-- A client that goes on sending after its query, read by read.
pub mod Open
pub mod Ends
use xrtc_server.Prelude.{
  ℕ, zero, suc, ◌+◌, ◌<◌, ◌≤◌, ◌≡◌, refl, List, [], ◌∷◌, ◌++◌, Bool, arith, ap, length, take, drop,
}
use xrtc_server.Server.{TcpConnection, Processed, waiting, refused, running, read_query}

abbrev pub total : List (List ℕ) → ℕ
total [] = 0
total (b ∷ bs) = length b + total bs

-- What one read can bring: some bytes, and at most `n`.
abbrev pub IsChunk : ℕ → List ℕ → Type 0
IsChunk n b = (0 < length b) × (length b ≤ n)

take_front : (n : ℕ) (xs ys : List ℕ) → n ≤ length xs → take n (xs ++ ys) ≡ take n xs
take_front zero xs ys h = refl
take_front (suc n) [] ys h = absurd (omega arith)
take_front (suc n) (x ∷ xs) ys h = ap (◌∷◌ x) (take_front n xs ys (omega arith))

slice_front :
    (m n : ℕ) (xs ys : List ℕ) → m + n ≤ length xs → take n (drop m (xs ++ ys)) ≡ take n (drop m xs)
slice_front zero n xs ys h = take_front n xs ys (omega arith)
slice_front (suc m) n [] ys h = absurd (omega arith)
slice_front (suc m) n (x ∷ xs) ys h = slice_front m n xs ys (omega arith)

module _ (word : List ℕ → ℕ) (process : List ℕ → List ℕ → Bool) where
  -- Reads one after the other, as long as the connection stays open and the loop ends.
  abbrev pub reads : ℕ → List (List ℕ) → TcpConnection → Processed
  reads fuel [] c = waiting c
  reads fuel (b ∷ bs) c = elim (read_query word process fuel b c) [
    | waiting c' ↦ reads fuel bs c'
    | refused ↦ refused
    | running ↦ running
  ]
