-- ===== src/Print/Digits.antt =====
-- What `%d` prints: digits only, at most eleven bytes for an `int`, and the number can be read back.
use native.Mathlib.Nat.{pow-suc}
use php_nsq.Prelude.{
  ℕ, zero, suc, ◌+◌, ◌-◌, ◌*◌, ◌/◌, ◌%◌, ◌^◌, ◌≤◌, ◌<◌, ◌≡◌, refl, ap, ◌≢◌, Bytes, [], ◌∷◌, All,
  length, ◌==◌, if◌then◌else◌, arith,
}
use php_nsq.Wire.{ℤ, pos, negsuc}
use php_nsq.Print.{c_string, digits_from, digits, format_int, IsInt, int_of_long}

abbrev pub IsDigit : ℕ → Type 0
IsDigit c = (b'0' ≤ c) × (c ≤ b'9')

-- The number that decimal digits spell behind `n`.
abbrev pub decimal : ℕ → Bytes → ℕ
decimal n [] = n
decimal n (c ∷ s) = decimal (n * 10 + (c - b'0')) s

digits_from-IsDigit : (f n : ℕ) (out : Bytes) → All IsDigit out → All IsDigit (digits_from f n out)
unfolding digits_from
digits_from-IsDigit zero n out h = h
digits_from-IsDigit (suc f) n out h =
    ground (
      arith,
      digits_from-IsDigit f (n / 10) ((b'0' + n % 10) ∷ out) ((omega arith, omega arith), h),
    )

pub digits-IsDigit : (n : ℕ) → All IsDigit (digits n)
unfolding digits
digits-IsDigit n = digits_from-IsDigit (suc n) n [] tt

length-digits_from :
    (k f n : ℕ) (out : Bytes) → n < 10 ^ suc k → length (digits_from f n out) ≤ suc k + length out
unfolding digits_from
length-digits_from k zero n out h = omega arith
length-digits_from zero (suc f) n out h = ground arith
length-digits_from (suc k) (suc f) n out h =
    ground (arith, pow-suc 10 (suc k), length-digits_from k f (n / 10) ((b'0' + n % 10) ∷ out))

decimal-digits_from :
    (f n : ℕ) (out : Bytes) → n < f → decimal 0 (digits_from f n out) ≡ decimal n out
unfolding digits_from
decimal-digits_from zero n out h = elim h [ ]
decimal-digits_from (suc f) n out h =
    ground (arith, decimal-digits_from f (n / 10) ((b'0' + n % 10) ∷ out))

-- `decimal` reads back the digits of every number.
decimal-digits : (n : ℕ) → decimal 0 (digits n) ≡ n
unfolding digits
decimal-digits n = decimal-digits_from (suc n) n [] (omega arith)

abbrev negate : ℕ → ℤ
negate zero = pos 0
negate (suc n) = negsuc n

-- A decimal reader with an optional sign.
unfoldable pub read_int : Bytes → ℤ
read_int [] = pos 0
read_int (c ∷ s) = if c == b'-' then negate (decimal 0 s) else pos (decimal 0 (c ∷ s))

read_int-pos : (s : Bytes) → All IsDigit s → read_int s ≡ pos (decimal 0 s)
unfolding read_int
read_int-pos [] h = refl
read_int-pos (c ∷ s) h = ground arith

-- What `%d` prints reads back as the number printed.
read_int-format_int : (n : ℤ) → read_int (format_int n) ≡ n
unfolding format_int
read_int-format_int (pos n) = rw (read_int-pos (digits n) (digits-IsDigit n), decimal-digits n)
read_int-format_int (negsuc n) =
    let e : n + 1 ≡ suc n = omega arith in
    unfold read_int in rw (decimal-digits (n + 1)) (ap negate e)

-- An `int` prints in at most eleven bytes.
pub length-format_int : (n : ℤ) → IsInt n → length (format_int n) ≤ 11
unfolding format_int digits
length-format_int (pos n) h = omega (arith, length-digits_from 9 (suc n) n [] (omega arith))
length-format_int (negsuc n) h =
    omega (arith, length-digits_from 9 (suc (n + 1)) (n + 1) [] (omega arith))

-- Passing an `int` as a `zend_long` and back changes nothing.
int_of_long-IsInt : (n : ℤ) → IsInt n → int_of_long n ≡ n
unfolding int_of_long
int_of_long-IsInt (pos n) h = ground arith
int_of_long-IsInt (negsuc n) h = ground arith

-- A string without NUL is its own C string.
pub c_string-id : (s : Bytes) → All (λ c. c ≢ 0) s → c_string s ≡ s
unfolding c_string
c_string-id [] h = refl
c_string-id (c ∷ s) h = ground (arith, c_string-id s h.1)
