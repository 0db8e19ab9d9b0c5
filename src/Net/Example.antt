-- ===== src/Net/Example.antt =====
-- An instance of the interface of Net, to evaluate the program with: the checksum is a sum of the
-- bytes, the digest twenty times a sum of the key and the text.
use xrtc_server.Prelude.{
  ℕ, ◌+◌, ◌*◌, ◌/◌, ◌%◌, ◌^◌, ◌<◌, ◌≤◌, ◌≡◌, List, [], ◌∷◌, ◌++◌, Option, some, none, refl,
  if◌then◌else◌, ltb, length, take, drop, replicate, arith, length-replicate, length-append, false,
  take-append, drop-append,
}
use xrtc_server.Net.{Net}

unfoldable pub read_16 : List ℕ → Option (ℕ × List ℕ)
read_16 [] = none
read_16 (a ∷ []) = none
read_16 (a ∷ b ∷ r) = some (a * 256 + b, r)

unfoldable pub read_32 : List ℕ → Option (ℕ × List ℕ)
read_32 [] = none
read_32 (a ∷ []) = none
read_32 (a ∷ b ∷ []) = none
read_32 (a ∷ b ∷ c ∷ []) = none
read_32 (a ∷ b ∷ c ∷ d ∷ r) = some (((a * 256 + b) * 256 + c) * 256 + d, r)

unfoldable pub read_n : ℕ → List ℕ → Option (List ℕ × List ℕ)
read_n n r = if ltb (length r) n then none else some (take n r, drop n r)

unfoldable pub skip_n : ℕ → List ℕ → Option (List ℕ)
skip_n n r = if ltb (length r) n then none else some (drop n r)

unfoldable pub sum : List ℕ → ℕ
sum [] = 0
sum (x ∷ xs) = x + sum xs

pub read_16_short : (r : List ℕ) → length r < 2 → read_16 r ≡ none
unfolding read_16
read_16_short [] h = refl
read_16_short (a ∷ []) h = refl
read_16_short (a ∷ b ∷ r) h = ground arith

pub read_32_short : (r : List ℕ) → length r < 4 → read_32 r ≡ none
unfolding read_32
read_32_short [] h = refl
read_32_short (a ∷ []) h = refl
read_32_short (a ∷ b ∷ []) h = refl
read_32_short (a ∷ b ∷ c ∷ []) h = refl
read_32_short (a ∷ b ∷ c ∷ d ∷ r) h = ground arith

enough : (n : ℕ) (r : List ℕ) → n ≤ length r → ltb (length r) n ≡ false
enough n r h = ground arith

pub read_n-append : (n : ℕ) (xs r : List ℕ) → n ≡ length xs → read_n n (xs ++ r) ≡ some (xs, r)
unfolding read_n
read_n-append n xs r h =
    let l = length-append xs r in
    rw (enough n (xs ++ r) (omega arith), read_n, take-append xs r n h, drop-append xs r n h) refl

pub skip_n-append : (n : ℕ) (xs r : List ℕ) → n ≡ length xs → skip_n n (xs ++ r) ≡ some r
unfolding skip_n
skip_n-append n xs r h =
    let l = length-append xs r in
    rw (enough n (xs ++ r) (omega arith), skip_n, drop-append xs r n h) refl

pub read_n_short : (n : ℕ) (r : List ℕ) → length r < n → read_n n r ≡ none
unfolding read_n
read_n_short n r h = ground arith

pub skip_n_short : (n : ℕ) (r : List ℕ) → length r < n → skip_n n r ≡ none
unfolding skip_n
skip_n_short n r h = ground arith

unfoldable pub example_net : Net
unfolding read_16 read_32 read_n skip_n sum
example_net = record {
  read_uint16 = read_16;
  read_uint32 = read_32;
  read_bytes = read_n;
  consume = skip_n;
  write_uint8 = λ v. v ∷ [];
  write_uint16 = λ v. v / 256 ∷ v % 256 ∷ [];
  write_uint32 = λ v. v / 2 ^ 24 ∷ v / 2 ^ 16 % 256 ∷ v / 2 ^ 8 % 256 ∷ v % 256 ∷ [];
  write_uint64 = λ v.
      v / 2 ^ 56
      ∷ v / 2 ^ 48 % 256
      ∷ v / 2 ^ 40 % 256
      ∷ v / 2 ^ 32 % 256
      ∷ v / 2 ^ 24 % 256
      ∷ v / 2 ^ 16 % 256
      ∷ v / 2 ^ 8 % 256
      ∷ v % 256
      ∷ [];
  write_bytes = λ xs. xs;
  get_be16 = λ a b. a * 256 + b;
  get_be32 = λ a b c d. ((a * 256 + b) * 256 + c) * 256 + d;
  set_be16 = λ v. v / 256 % 256 ∷ v % 256 ∷ [];
  crc32 = λ xs. sum xs % 2 ^ 32;
  hmac_sha1 = λ key text. replicate 20 ((sum key + sum text) % 256);
  read_uint16-cons = λ a b r. refl;
  read_uint16_short = read_16_short;
  read_uint32-cons = λ a b c d r. refl;
  read_uint32_short = read_32_short;
  read_bytes-append = read_n-append;
  read_bytes_short = read_n_short;
  consume-append = skip_n-append;
  consume_short = skip_n_short;
  write_uint8_lem = λ v h. refl;
  write_uint16_lem = λ v h. refl;
  write_uint32_lem = λ v h. refl;
  length-write_uint64 = λ v. refl;
  write_bytes_lem = λ xs. refl;
  get_be16_lem = λ a b. refl;
  get_be32_lem = λ a b c d. refl;
  set_be16_lem = λ v. refl;
  crc32-lt = λ xs. omega arith;
  length-hmac_sha1 = λ key text. length-replicate 20 ((sum key + sum text) % 256);
}
