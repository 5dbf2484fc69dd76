-- ===== src/Wire/Bits.antt =====
-- `|` of fields that do not overlap is a sum, at every width and in both orders.
use Prim.Native.Nat.{max, bit_or, digits, bit_or-bitwise}
use native.Mathlib.Nat.{pow-suc}
use php_nsq.Prelude.{ℕ, zero, suc, ◌+◌, ◌*◌, ◌/◌, ◌%◌, ◌^◌, ◌≤◌, ◌<◌, ◌≡◌, refl, ap, arith}

-- The recursion on digits that the native operation stands for.
abbrev or_rounds : ℕ → ℕ → ℕ → ℕ
or_rounds = digits (λ y. y) max

-- Any number of rounds from `a` up gives the same result.
or_rounds_enough : (n m a b : ℕ) → a ≤ n → a ≤ m → or_rounds n a b ≡ or_rounds m a b
or_rounds_enough zero zero a b p q = refl
or_rounds_enough zero (suc m) zero b p q = refl
or_rounds_enough zero (suc m) (suc a) b p q = absurd (omega arith)
or_rounds_enough (suc n) zero zero b p q = refl
or_rounds_enough (suc n) zero (suc a) b p q = absurd (omega arith)
or_rounds_enough (suc n) (suc m) zero b p q = refl
or_rounds_enough (suc n) (suc m) (suc a) b p q =
    omega (arith, or_rounds_enough n m (suc a / 2) (b / 2) (omega arith) (omega arith))

zero-bit_or : (b : ℕ) → bit_or 0 b ≡ b
zero-bit_or b = bit_or-bitwise 0 b

bit_or_digit : (a b : ℕ) → bit_or a b ≡ bit_or (a / 2) (b / 2) * 2 + max (a % 2) (b % 2)
bit_or_digit zero b = omega (arith, zero-bit_or b, zero-bit_or (b / 2))
bit_or_digit (suc a) b = omega (
  arith,
  bit_or-bitwise (suc a) b,
  bit_or-bitwise (suc a / 2) (b / 2),
  or_rounds_enough a (suc a / 2) (suc a / 2) (b / 2) (omega arith) (omega arith),
)

shift_suc : (q k : ℕ) → q * 2 ^ suc k ≡ 2 * (q * 2 ^ k)
shift_suc q k = omega (arith, ap (λ (t : ℕ). q * t) (pow-suc 2 k))

bit_or-zero_below : (n a : ℕ) → a ≤ n → bit_or a 0 ≡ a
bit_or-zero_below n zero h = refl
bit_or-zero_below zero (suc a) h = absurd (omega arith)
bit_or-zero_below (suc n) (suc a) h =
    omega (arith, bit_or_digit (suc a) 0, bit_or-zero_below n (suc a / 2) (omega arith))

-- A field above bit `k`, then one below it.
pub bit_or_high_low : (k q r : ℕ) → r < 2 ^ k → bit_or (q * 2 ^ k) r ≡ q * 2 ^ k + r
bit_or_high_low zero q r h = ground (arith, bit_or-zero_below q q)
bit_or_high_low (suc k) q r h = ground (
  arith,
  bit_or_digit (q * 2 ^ suc k) r,
  shift_suc q k,
  pow-suc 2 k,
  bit_or_high_low k q (r / 2) (omega (arith, pow-suc 2 k)),
)

-- The field below bit `k` first.
pub bit_or_low_high : (k q r : ℕ) → r < 2 ^ k → bit_or r (q * 2 ^ k) ≡ q * 2 ^ k + r
bit_or_low_high zero q r h = ground (arith, zero-bit_or q)
bit_or_low_high (suc k) q r h = ground (
  arith,
  bit_or_digit r (q * 2 ^ suc k),
  shift_suc q k,
  pow-suc 2 k,
  bit_or_low_high k q (r / 2) (omega (arith, pow-suc 2 k)),
)
