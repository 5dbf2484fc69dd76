-- ===== src/Print.antt =====
-- printf's `%s` and `%d`, as command.c, sub.c and pub.c use them, and the width of an `int`.
pub mod Digits
use php_nsq.Prelude.{
  ℕ, zero, suc, ◌+◌, ◌-◌, ◌*◌, ◌/◌, ◌%◌, ◌^◌, ◌≤◌, ◌<◌, Bytes, [], ◌∷◌, ltb, ◌==◌, if◌then◌else◌,
}
use php_nsq.Wire.{ℤ, pos, negsuc, signed32}

-- `%s`: the bytes before the first NUL.
unfoldable pub c_string : Bytes → Bytes
c_string [] = []
c_string (c ∷ s) = if c == 0 then [] else c ∷ c_string s

-- The decimal digits of `n` in front of `out`, one round for each digit.
digits_from : ℕ → ℕ → Bytes → Bytes
digits_from zero n out = out
digits_from (suc f) n out =
    let rest = digits_from f (n / 10) ((b'0' + n % 10) ∷ out) in
    if ltb n 10 then (b'0' + n) ∷ out else rest

-- `n + 1` rounds are more than the digits of `n`.
unfoldable pub digits : ℕ → Bytes
unfolding digits_from
digits n = digits_from (suc n) n []

-- `%d` and `%lld`
unfoldable pub format_int : ℤ → Bytes
unfolding digits
format_int (pos n) = digits n
format_int (negsuc n) = b'-' ∷ digits (n + 1)

abbrev pub IsInt : ℤ → Type 0
IsInt (pos n) = n < 2 ^ 31
IsInt (negsuc n) = n < 2 ^ 31

-- A `zend_long` passed as an `int` keeps its low 32 bits.
unfoldable pub int_of_long : ℤ → ℤ
int_of_long (pos n) = signed32 (n % 2 ^ 32)
int_of_long (negsuc n) = signed32 (2 ^ 32 - 1 - n % 2 ^ 32)
