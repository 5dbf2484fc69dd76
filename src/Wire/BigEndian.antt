-- ===== src/Wire/BigEndian.antt =====
-- The readers of common.c against the value of a big-endian byte string.
use Prim.Native.Nat.{bit_or}
use php_nsq.Prelude.{
  ℕ, zero, suc, ◌+◌, ◌*◌, ◌%◌, ◌^◌, ◌<◌, ◌≡◌, refl, Bytes, [], ◌∷◌, ◌++◌, All, All-append, IsByte,
  arith,
}
use php_nsq.Wire.{Mem, read_i16, read_i32, read_i64, ntoh64, htonl_bytes}
use php_nsq.Wire.Bits.{bit_or_high_low, bit_or_low_high}

-- `|` with a field below the bits in use adds it.
or_sum_high : (k q m r : ℕ) → m ≡ q * 2 ^ k → r < 2 ^ k → bit_or m r ≡ m + r
or_sum_high k q m r e h = rw e (bit_or_high_low k q r h)

-- `|` with a field above the bits in use adds it.
or_sum_low : (k q m r : ℕ) → r ≡ q * 2 ^ k → m < 2 ^ k → bit_or m r ≡ m + r
or_sum_low k q m r e h = rw e (omega (arith, bit_or_low_high k q m h))

-- The first `n` bytes as a number, the most significant byte first.
abbrev pub be_value : ℕ → Mem → ℕ
be_value zero d = 0
be_value (suc n) d = be_value n d * 256 + d n

-- A byte string in memory, with zeros behind it.
abbrev pub mem_of : Bytes → Mem
mem_of [] i = 0
mem_of (b ∷ bs) zero = b
mem_of (b ∷ bs) (suc i) = mem_of bs i

module _ (d : Mem) (bytes : (i : ℕ) → d i < 256) where
  -- `readI16` reads the big-endian value of 2 bytes, in the bit pattern of its result.
  pub read_i16-be_value : read_i16 d ≡ be_value 2 d
  unfolding read_i16
  read_i16-be_value =
      let e1 = or_sum_high 8 (d 0) (d 0 * 2 ^ 8) (d 1) refl (omega (arith, bytes 1)) in
      omega (arith, e1, bytes 0, bytes 1)

  -- `readI32` reads the big-endian value of 4 bytes, in the bit pattern of its result.
  read_i32-be_value : read_i32 d ≡ be_value 4 d
  unfolding read_i32
  read_i32-be_value =
      let e1 = or_sum_high 24 (d 0) (d 0 * 2 ^ 24) (d 1 * 2 ^ 16) refl (omega (arith, bytes 1)) in
      let e2 =
        or_sum_high 16 (d 0 * 256 + d 1) (bit_or (d 0 * 2 ^ 24) (d 1 * 2 ^ 16)) (d 2 * 2 ^ 8)
          (omega (arith, e1)) (omega (arith, bytes 2)) in
      let e3 =
        or_sum_high 8 ((d 0 * 256 + d 1) * 256 + d 2)
          (bit_or (bit_or (d 0 * 2 ^ 24) (d 1 * 2 ^ 16)) (d 2 * 2 ^ 8)) (d 3) (omega (arith, e2))
          (omega (arith, bytes 3)) in
      omega (arith, e3, bytes 0, bytes 1, bytes 2, bytes 3)

  -- `readI64` reads the big-endian value of 8 bytes, in the bit pattern of its result.
  read_i64-be_value : read_i64 d ≡ be_value 8 d
  unfolding read_i64
  read_i64-be_value =
      let e1 = or_sum_high 56 (d 0) (d 0 * 2 ^ 56) (d 1 * 2 ^ 48) refl (omega (arith, bytes 1)) in
      let e2 =
        or_sum_high 48 (d 0 * 256 + d 1) (bit_or (d 0 * 2 ^ 56) (d 1 * 2 ^ 48)) (d 2 * 2 ^ 40)
          (omega (arith, e1)) (omega (arith, bytes 2)) in
      let e3 =
        or_sum_high 40 ((d 0 * 256 + d 1) * 256 + d 2)
          (bit_or (bit_or (d 0 * 2 ^ 56) (d 1 * 2 ^ 48)) (d 2 * 2 ^ 40)) (d 3 * 2 ^ 32)
          (omega (arith, e2)) (omega (arith, bytes 3)) in
      let e4 =
        or_sum_high 32 (((d 0 * 256 + d 1) * 256 + d 2) * 256 + d 3)
          (bit_or (bit_or (bit_or (d 0 * 2 ^ 56) (d 1 * 2 ^ 48)) (d 2 * 2 ^ 40)) (d 3 * 2 ^ 32))
          (d 4 * 2 ^ 24) (omega (arith, e3)) (omega (arith, bytes 4)) in
      let e5 =
        or_sum_high 24 ((((d 0 * 256 + d 1) * 256 + d 2) * 256 + d 3) * 256 + d 4)
          (bit_or
            (bit_or (bit_or (bit_or (d 0 * 2 ^ 56) (d 1 * 2 ^ 48)) (d 2 * 2 ^ 40)) (d 3 * 2 ^ 32))
            (d 4 * 2 ^ 24))
          (d 5 * 2 ^ 16) (omega (arith, e4)) (omega (arith, bytes 5)) in
      let e6 =
        or_sum_high 16 (((((d 0 * 256 + d 1) * 256 + d 2) * 256 + d 3) * 256 + d 4) * 256 + d 5)
          (bit_or
            (bit_or
              (bit_or (bit_or (bit_or (d 0 * 2 ^ 56) (d 1 * 2 ^ 48)) (d 2 * 2 ^ 40)) (d 3 * 2 ^ 32))
              (d 4 * 2 ^ 24))
            (d 5 * 2 ^ 16))
          (d 6 * 2 ^ 8) (omega (arith, e5)) (omega (arith, bytes 6)) in
      let e7 =
        or_sum_high 8
          ((((((d 0 * 256 + d 1) * 256 + d 2) * 256 + d 3) * 256 + d 4) * 256 + d 5) * 256 + d 6)
          (bit_or
            (bit_or
              (bit_or
                (bit_or (bit_or (bit_or (d 0 * 2 ^ 56) (d 1 * 2 ^ 48)) (d 2 * 2 ^ 40))
                  (d 3 * 2 ^ 32))
                (d 4 * 2 ^ 24))
              (d 5 * 2 ^ 16))
            (d 6 * 2 ^ 8))
          (d 7) (omega (arith, e6)) (omega (arith, bytes 7)) in
      omega (arith, e7, bytes 0, bytes 1, bytes 2, bytes 3, bytes 4, bytes 5, bytes 6, bytes 7)

  -- `ntoh64` reads the same value, though it joins the bytes from the last to the first.
  pub ntoh64-be_value : ntoh64 d ≡ be_value 8 d
  unfolding ntoh64
  ntoh64-be_value =
      let e1 = or_sum_low 8 (d 6) (d 7) (d 6 * 2 ^ 8) refl (omega (arith, bytes 7)) in
      let e2 =
        or_sum_low 16 (d 5) (bit_or (d 7) (d 6 * 2 ^ 8)) (d 5 * 2 ^ 16) refl
          (omega (arith, e1, bytes 7, bytes 6)) in
      let e3 =
        or_sum_low 24 (d 4) (bit_or (bit_or (d 7) (d 6 * 2 ^ 8)) (d 5 * 2 ^ 16)) (d 4 * 2 ^ 24) refl
          (omega (arith, e1, e2, bytes 7, bytes 6, bytes 5)) in
      let e4 =
        or_sum_low 32 (d 3)
          (bit_or (bit_or (bit_or (d 7) (d 6 * 2 ^ 8)) (d 5 * 2 ^ 16)) (d 4 * 2 ^ 24))
          (d 3 * 2 ^ 32) refl (omega (arith, e1, e2, e3, bytes 7, bytes 6, bytes 5, bytes 4)) in
      let e5 =
        or_sum_low 40 (d 2)
          (bit_or (bit_or (bit_or (bit_or (d 7) (d 6 * 2 ^ 8)) (d 5 * 2 ^ 16)) (d 4 * 2 ^ 24))
            (d 3 * 2 ^ 32))
          (d 2 * 2 ^ 40) refl
          (omega (arith, e1, e2, e3, e4, bytes 7, bytes 6, bytes 5, bytes 4, bytes 3)) in
      let e6 =
        or_sum_low 48 (d 1)
          (bit_or
            (bit_or (bit_or (bit_or (bit_or (d 7) (d 6 * 2 ^ 8)) (d 5 * 2 ^ 16)) (d 4 * 2 ^ 24))
              (d 3 * 2 ^ 32))
            (d 2 * 2 ^ 40))
          (d 1 * 2 ^ 48) refl
          (omega
            (arith, e1, e2, e3, e4, e5, bytes 7, bytes 6, bytes 5, bytes 4, bytes 3, bytes 2)) in
      let e7 =
        or_sum_low 56 (d 0)
          (bit_or
            (bit_or
              (bit_or (bit_or (bit_or (bit_or (d 7) (d 6 * 2 ^ 8)) (d 5 * 2 ^ 16)) (d 4 * 2 ^ 24))
                (d 3 * 2 ^ 32))
              (d 2 * 2 ^ 40))
            (d 1 * 2 ^ 48))
          (d 0 * 2 ^ 56) refl
          (omega (
            arith,
            e1,
            e2,
            e3,
            e4,
            e5,
            e6,
            bytes 7,
            bytes 6,
            bytes 5,
            bytes 4,
            bytes 3,
            bytes 2,
            bytes 1,
          )) in
      omega (
        arith,
        e1,
        e2,
        e3,
        e4,
        e5,
        e6,
        e7,
        bytes 0,
        bytes 1,
        bytes 2,
        bytes 3,
        bytes 4,
        bytes 5,
        bytes 6,
        bytes 7,
      )

  -- The three readers give the big-endian values of 2, 4 and 8 bytes, in the bit patterns of their
  -- results, and `ntoh64`, which joins its bytes from the last to the first, gives that of 8.
  pub readers-be_value :
      (read_i16 d ≡ be_value 2 d)
      × (read_i32 d ≡ be_value 4 d)
      × (read_i64 d ≡ be_value 8 d)
      × (ntoh64 d ≡ be_value 8 d)
  readers-be_value = (read_i16-be_value, read_i32-be_value, read_i64-be_value, ntoh64-be_value)

pub mem_of-IsByte : (bs : Bytes) → All IsByte bs → (i : ℕ) → mem_of bs i < 256
mem_of-IsByte [] h i = omega arith
mem_of-IsByte (b ∷ bs) h zero = h.0
mem_of-IsByte (b ∷ bs) h (suc i) = mem_of-IsByte bs h.1 i

htonl_bytes-IsByte : (x : ℕ) → All IsByte (htonl_bytes x)
unfolding htonl_bytes
htonl_bytes-IsByte x = omega arith

-- `readI32` reads back the number that `htonl` put in front of any bytes, cut to 32 bits.
read_i32-htonl_bytes :
    (x : ℕ) (rest : Bytes)
    → All IsByte rest
    → read_i32 (mem_of (htonl_bytes x ++ rest)) ≡ x % 2 ^ 32
unfolding htonl_bytes
read_i32-htonl_bytes x rest h =
    let image = mem_of (htonl_bytes x ++ rest) in
    let bytes = All-append IsByte (htonl_bytes x) rest (htonl_bytes-IsByte x) h in
    omega (arith, read_i32-be_value image (mem_of-IsByte (htonl_bytes x ++ rest) bytes))

pub read_i32-of_htonl : (x : ℕ) → read_i32 (mem_of (htonl_bytes x)) ≡ x % 2 ^ 32
unfolding htonl_bytes
read_i32-of_htonl x =
    let image = mem_of (htonl_bytes x) in
    omega (arith, read_i32-be_value image (mem_of-IsByte (htonl_bytes x) (htonl_bytes-IsByte x)))
