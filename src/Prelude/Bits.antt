-- ===== src/Prelude/Bits.antt =====
-- Exclusive or by a constant is its own inverse, at every width.
use Prim.Native.Nat.{
  ℕ, zero, suc, ◌+◌, ◌-◌, ◌*◌, ◌/◌, ◌%◌, ◌^◌, ◌≤◌, ◌<◌, bit_xor, digits, bit_xor-bitwise, differ,
}
use mathlib.Core.Path.{◌≡◌, refl, sym, ◌∙◌}
use native.Mathlib.Omega.{arith}
use native.Mathlib.Nat.{pow-suc}

-- The recursion behind bit_xor, by a bound on the number of digits.
abbrev bounded_xor : ℕ → ℕ → ℕ → ℕ
bounded_xor bound x y = digits (λ rest. rest) differ bound x y

bounded_xor-zero : (bound y : ℕ) → bounded_xor bound zero y ≡ y
bounded_xor-zero zero y = refl
bounded_xor-zero (suc bound) y = refl

suc_outside : (m n : ℕ) → suc m + n ≡ suc (m + n)
suc_outside m n = omega arith

-- A bound above the first number may be raised.
bounded_xor_raise :
    (bound more x y : ℕ) → x ≤ bound → bounded_xor (bound + more) x y ≡ bounded_xor bound x y
bounded_xor_raise bound more zero y le =
    bounded_xor-zero (bound + more) y ∙ sym (bounded_xor-zero bound y)
bounded_xor_raise zero more (suc x) y le = absurd (omega arith)
bounded_xor_raise (suc bound) more (suc x) y le =
    let half = bounded_xor_raise bound more (suc x / 2) (y / 2) (omega arith) in
    rw (suc_outside bound more) (omega arith)

bit_xor_step : (x y : ℕ) → bit_xor x y ≡ bit_xor (x / 2) (y / 2) * 2 + differ (x % 2) (y % 2)
bit_xor_step zero y = omega (arith, bit_xor-bitwise 0 y, bit_xor-bitwise 0 (y / 2))
bit_xor_step (suc x) y =
    let whole = bit_xor-bitwise (suc x) y in
    let half = bit_xor-bitwise (suc x / 2) (y / 2) in
    let raised : bounded_xor (suc x / 2 + (x - suc x / 2)) (suc x / 2) (y / 2)
        ≡ bounded_xor (suc x / 2) (suc x / 2) (y / 2) =
      bounded_xor_raise (suc x / 2) (x - suc x / 2) (suc x / 2) (y / 2) (omega arith) in
    let bound : suc x / 2 + (x - suc x / 2) ≡ x = omega arith in
    let same = rw bound at raised in omega arith

-- On single digits.
differ_digits : (x y : ℕ) → x < 2 → y < 2 → (differ x y < 2) × (differ (differ x y) y ≡ x)
differ_digits zero zero p q = (omega arith, refl)
differ_digits zero (suc zero) p q = (omega arith, refl)
differ_digits zero (suc (suc y)) p q = absurd (omega arith)
differ_digits (suc zero) zero p q = (omega arith, refl)
differ_digits (suc zero) (suc zero) p q = (omega arith, refl)
differ_digits (suc zero) (suc (suc y)) p q = absurd (omega arith)
differ_digits (suc (suc x)) y p q = absurd (omega arith)

bit_xor-halves :
    (a b : ℕ)
    → (bit_xor a b / 2 ≡ bit_xor (a / 2) (b / 2)) × (bit_xor a b % 2 ≡ differ (a % 2) (b % 2))
bit_xor-halves a b =
    let (small, _) = differ_digits (a % 2) (b % 2) (omega arith) (omega arith) in
    (omega (arith, bit_xor_step a b), omega (arith, bit_xor_step a b))

-- From the halves to the whole.
bit_xor_cancel_step :
    (a b : ℕ) → bit_xor (bit_xor (a / 2) (b / 2)) (b / 2) ≡ a / 2 → bit_xor (bit_xor a b) b ≡ a
bit_xor_cancel_step a b h =
    let (half, digit) = bit_xor-halves a b in
    let (_, back) = differ_digits (a % 2) (b % 2) (omega arith) (omega arith) in
    let e : bit_xor (bit_xor a b / 2) (b / 2) ≡ a / 2 = rw half h in
    let d : differ (bit_xor a b % 2) (b % 2) ≡ a % 2 = rw digit back in
    omega (arith, bit_xor_step (bit_xor a b) b)

bit_xor_cancel_fuel : (n a b : ℕ) → a + b ≤ n → bit_xor (bit_xor a b) b ≡ a
bit_xor_cancel_fuel zero a b h =
    let e : a ≡ 0 = omega arith in let d : b ≡ 0 = omega arith in rw (e, d)
bit_xor_cancel_fuel (suc n) zero zero h = refl
bit_xor_cancel_fuel (suc n) zero (suc b) h =
    bit_xor_cancel_step zero (suc b) (bit_xor_cancel_fuel n (0 / 2) (suc b / 2) (omega arith))
bit_xor_cancel_fuel (suc n) (suc a) b h =
    bit_xor_cancel_step (suc a) b (bit_xor_cancel_fuel n (suc a / 2) (b / 2) (omega arith))

-- Exclusive or by the same number twice gives the first back.
pub bit_xor_cancel : (a b : ℕ) → bit_xor (bit_xor a b) b ≡ a
bit_xor_cancel a b = bit_xor_cancel_fuel (a + b) a b (omega arith)

-- The result needs no more bits than the operands.
pub bit_xor-lt : (k a b : ℕ) → a < 2 ^ k → b < 2 ^ k → bit_xor a b < 2 ^ k
bit_xor-lt zero a b p q =
    let e : a ≡ 0 = omega arith in let d : b ≡ 0 = omega arith in rw (e, d) (omega arith)
bit_xor-lt (suc k) a b p q =
    let (small, _) = differ_digits (a % 2) (b % 2) (omega arith) (omega arith) in
    omega (
      arith,
      bit_xor_step a b,
      pow-suc 2 k,
      bit_xor-lt k (a / 2) (b / 2) (omega (arith, pow-suc 2 k)) (omega (arith, pow-suc 2 k)),
    )
