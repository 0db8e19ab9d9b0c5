-- ===== src/Pc/Dtls/Records.antt =====
-- The walk over a packet's records against its meaning.
use xrtc_server.Prelude.{
  ℕ, suc, zero, ◌+◌, ◌*◌, bit_or, ◌≤◌, ◌<◌, ◌≡◌, ◌↔◌, refl, List, [], ◌∷◌, ◌++◌, true, arith, All,
  length, length-append, get_or, take, drop, take-append-drop, drop-append, length-take, ap, ◌∙◌,
  sym, subst,
}
use xrtc_server.Pc.Dtls.{record_len, whole_records}

-- A record: a header of 13 bytes, whose last two, at 11 and 12, are the length of what follows it.
abbrev pub IsRecord : List ℕ → Type 0
IsRecord r = length r ≡ 13 + bit_or (get_or r 11 0 * 256) (get_or r 12 0)

abbrev pub concat : List (List ℕ) → List ℕ
concat [] = []
concat (r ∷ rs) = r ++ concat rs

get_or-take : (xs : List ℕ) (n i d : ℕ) → i < n → get_or (take n xs) i d ≡ get_or xs i d
get_or-take [] zero i d l = absurd (omega arith)
get_or-take [] (suc n) i d l = refl
get_or-take (x ∷ xs) zero i d l = absurd (omega arith)
get_or-take (x ∷ xs) (suc n) zero d l = refl
get_or-take (x ∷ xs) (suc n) (suc i) d l = get_or-take xs n i d (omega arith)

get_or_front : (xs ys : List ℕ) (i d : ℕ) → i < length xs → get_or (xs ++ ys) i d ≡ get_or xs i d
get_or_front [] ys i d l = absurd (omega arith)
get_or_front (x ∷ xs) ys zero d l = refl
get_or_front (x ∷ xs) ys (suc i) d l = get_or_front xs ys i d (omega arith)

record_len-take : (buf : List ℕ) (n : ℕ) → record_len (take (13 + n) buf) ≡ record_len buf
unfolding record_len
record_len-take buf n =
    let e = get_or-take buf (13 + n) 11 0 (omega arith) in
    let f = get_or-take buf (13 + n) 12 0 (omega arith) in rw (e, f)

record_len-append : (r rest : List ℕ) → 13 ≤ length r → record_len (r ++ rest) ≡ record_len r
unfolding record_len
record_len-append r rest l =
    let e = get_or_front r rest 11 0 (omega arith) in
    let f = get_or_front r rest 12 0 (omega arith) in rw (e, f)

whole_split :
    (fuel b : ℕ) (buf : List ℕ)
    → whole_records (suc fuel) (b ∷ buf) ≡ true
    → let n = record_len (b ∷ buf) in
      (n + 13 ≤ length (b ∷ buf)) × (whole_records fuel (drop (13 + n) (b ∷ buf)) ≡ true)
unfolding whole_records
whole_split fuel b buf h = (ground arith, ground arith)

whole_join :
    (fuel b : ℕ) (buf : List ℕ)
    → record_len (b ∷ buf) + 13 ≤ length (b ∷ buf)
    → whole_records fuel (drop (13 + record_len (b ∷ buf)) (b ∷ buf)) ≡ true
    → whole_records (suc fuel) (b ∷ buf) ≡ true
unfolding whole_records
whole_join fuel b buf l h = ground arith

from_whole :
    (fuel : ℕ) (buf : List ℕ)
    → whole_records fuel buf ≡ true
    → (rs : List (List ℕ)) × All IsRecord rs × (concat rs ≡ buf)
unfolding whole_records record_len
from_whole fuel [] h = ([], tt, refl)
from_whole zero (b ∷ buf) h = cc
from_whole (suc fuel) (b ∷ buf) h =
    let n = record_len (b ∷ buf) in
    let (fits, more) = whole_split fuel b buf h in
    let (rs, each, all) = from_whole fuel (drop (13 + n) (b ∷ buf)) more in
    let r = take (13 + n) (b ∷ buf) in
    let e = record_len-take (b ∷ buf) n in
    let l = length-take (13 + n) (b ∷ buf) in
    (
      r ∷ rs,
      ((omega (arith, e, l, fits)), each),
      ap (λ x. r ++ x) all ∙ take-append-drop (13 + n) (b ∷ buf),
    )

to_whole :
    (fuel : ℕ) (rs : List (List ℕ))
    → All IsRecord rs
    → length (concat rs) ≤ fuel
    → whole_records fuel (concat rs) ≡ true
unfolding whole_records record_len
to_whole fuel [] h l = refl
to_whole fuel ([] ∷ rs) (e, h) l = absurd (omega arith)
to_whole zero ((b ∷ r) ∷ rs) (e, h) l = absurd (omega arith)
to_whole (suc fuel) ((b ∷ r) ∷ rs) (e, h) l =
    let n = record_len (b ∷ r) in
    let same = record_len-append (b ∷ r) (concat rs) (omega (arith, e)) in
    let sum = length-append r (concat rs) in
    let gone : drop (13 + n) ((b ∷ r) ++ concat rs) ≡ concat rs =
      drop-append (b ∷ r) (concat rs) (13 + n) (omega (arith, e)) in
    let ih = to_whole fuel rs h (omega (arith, l, sum)) in
    let rest = ap (λ k. drop (13 + k) ((b ∷ r) ++ concat rs)) same ∙ gone in
    whole_join fuel b (r ++ concat rs) (omega (arith, e, same, sum))
      (subst (λ x. whole_records fuel x ≡ true) (sym rest) ih)

-- _handle_dtls_packet takes a packet exactly if it is some records put together; its loop ends.
pub whole_records_iff :
    (buf : List ℕ)
    → (whole_records (length buf) buf ≡ true)
      ↔ ((rs : List (List ℕ)) × All IsRecord rs × (concat rs ≡ buf))
whole_records_iff buf = (
  from_whole (length buf) buf,
  λ (rs, each, e).
      subst (λ x. whole_records (length x) x ≡ true) e
        (to_whole (length (concat rs)) rs each (omega arith)),
)
