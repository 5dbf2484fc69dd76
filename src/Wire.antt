-- ===== src/Wire.antt =====
-- common.c: the big-endian readers, the byte image of `htonl`, and `check_ipaddr`.
-- Memory behind a pointer is a function from offsets to bytes; a fixed-width result is its bit
-- pattern, and `signed32`, `signed64` give the integer that a signed type reads from it.
mod Bits
pub mod BigEndian
mod Tests
use Prim.Native.Nat.{bit_or}
use php_nsq.Prelude.{
  ℕ, ◌-◌, ◌*◌, ◌/◌, ◌%◌, ◌^◌, Bool, true, false, Option, none, some, Bytes, [], ◌∷◌, ltb,
  if◌then◌else◌,
}

-- The bytes behind a pointer, by offset.
abbrev pub Mem : Type 0
Mem = ℕ → ℕ

-- `n` as an integer: `negsuc n` is -(n + 1).
pub data ℤ : Type 0 where
  pos : ℕ → ℤ
  negsuc : ℕ → ℤ

abbrev pub signed32 : ℕ → ℤ
signed32 w = if ltb w (2 ^ 31) then pos w else negsuc (2 ^ 32 - w - 1)

abbrev pub signed64 : ℕ → ℤ
signed64 w = if ltb w (2 ^ 63) then pos w else negsuc (2 ^ 64 - w - 1)

infixl 60 ◌∣∣◌
abbrev pub ◌∣∣◌ : ℕ → ℕ → ℕ
◌∣∣◌ = bit_or

-- `x << k`, at a width that holds the result.
infixl 65 ◌<<<◌
abbrev pub ◌<<<◌ : ℕ → ℕ → ℕ
x <<< k = x * 2 ^ k

unfoldable pub read_i16 : Mem → ℕ
read_i16 d = (d 0 <<< 8 ∣∣ d 1) % 2 ^ 16

unfoldable pub read_i32 : Mem → ℕ
read_i32 d = (d 0 <<< 24 ∣∣ d 1 <<< 16 ∣∣ d 2 <<< 8 ∣∣ d 3) % 2 ^ 32

unfoldable pub read_i64 : Mem → ℕ
read_i64 d =
    (d 0 <<< 56
      ∣∣ d 1 <<< 48
      ∣∣ d 2 <<< 40
      ∣∣ d 3 <<< 32
      ∣∣ d 4 <<< 24
      ∣∣ d 5 <<< 16
      ∣∣ d 6 <<< 8
      ∣∣ d 7)
    % 2 ^ 64

unfoldable pub ntoh64 : Mem → ℕ
ntoh64 d =
    (d 7
      ∣∣ d 6 <<< 8
      ∣∣ d 5 <<< 16
      ∣∣ d 4 <<< 24
      ∣∣ d 3 <<< 32
      ∣∣ d 2 <<< 40
      ∣∣ d 1 <<< 48
      ∣∣ d 0 <<< 56)
    % 2 ^ 64

-- The four bytes that `htonl(x)` leaves in memory; the argument is first cut to 32 bits.
unfoldable pub htonl_bytes : ℕ → Bytes
htonl_bytes x = (x / 2 ^ 24 % 256) ∷ (x / 2 ^ 16 % 256) ∷ (x / 2 ^ 8 % 256) ∷ (x % 256) ∷ []

-- `none` is the null pointer; `pton4` and `pton6` say whether `inet_pton` returns 1.
unfoldable pub check_ipaddr : (pton4 pton6 : Bytes → Bool) → Option Bytes → Bool
check_ipaddr pton4 pton6 none = false
check_ipaddr pton4 pton6 (some []) = false
check_ipaddr pton4 pton6 (some (c ∷ s)) =
    if pton4 (c ∷ s) then true else if pton6 (c ∷ s) then true else false
