-- ===== src/Receive/Memory.antt =====
-- Reading back what was written to memory, field by field.
use php_nsq.Prelude.{
  ℕ, zero, suc, ◌+◌, ◌-◌, ◌<◌, ◌≡◌, refl, ap, ◌∙◌, ap₂, Bytes, [], ◌∷◌, ◌++◌, length, length-append,
  arith,
}
use php_nsq.Wire.{Mem, read_i16, read_i32, ntoh64}
use php_nsq.Wire.BigEndian.{mem_of}
use php_nsq.Receive.{shift, bytes_of, overlay}

-- The bytes of `p` stand at the front of the memory `m`.
abbrev pub Starts : Mem → Bytes → Type 0
Starts m p = (i : ℕ) → i < length p → m i ≡ mem_of p i

pub mem_of-append_left : (xs ys : Bytes) (i : ℕ) → i < length xs → mem_of (xs ++ ys) i ≡ mem_of xs i
mem_of-append_left [] ys i h = elim h [ ]
mem_of-append_left (x ∷ xs) ys zero h = refl
mem_of-append_left (x ∷ xs) ys (suc i) h = mem_of-append_left xs ys i (omega arith)

pub mem_of-append_right :
    (xs ys : Bytes) (i : ℕ) → length xs ≡ i → (k : ℕ) → mem_of (xs ++ ys) (i + k) ≡ mem_of ys k
mem_of-append_right [] ys i e k = ap (mem_of ys) (omega arith)
mem_of-append_right (x ∷ xs) ys zero e k = absurd (omega arith)
mem_of-append_right (x ∷ xs) ys (suc i) e k =
    ap (mem_of (x ∷ xs ++ ys)) shifted ∙ mem_of-append_right xs ys i (omega arith) k
  where
    shifted : suc i + k ≡ suc (i + k)
    shifted = omega arith

module _ (m : Mem) where
  Starts-left : (xs ys : Bytes) → Starts m (xs ++ ys) → Starts m xs
  Starts-left xs ys h i lt =
      h i (omega (arith, length-append xs ys)) ∙ mem_of-append_left xs ys i lt

  pub Starts-shift :
      (xs ys : Bytes) (k : ℕ) → length xs ≡ k → Starts m (xs ++ ys) → Starts (shift m k) ys
  Starts-shift xs ys k e h i lt =
      h (k + i) (omega (arith, length-append xs ys)) ∙ mem_of-append_right xs ys k e i

  -- `bufferevent_read` behind what has been read puts the two parts together.
  pub Starts-overlay :
      (part got : Bytes) → Starts m part → Starts (overlay m (length part) got) (part ++ got)
  unfolding overlay
  Starts-overlay part got h i lt = ground (
    arith,
    h i,
    mem_of-append_left part got i,
    mem_of-append_right part got (length part) refl (i - length part),
    length-append part got,
  )

pub bytes_of-Starts : (xs ys : Bytes) (m : Mem) → Starts m (xs ++ ys) → bytes_of (length xs) m ≡ xs
bytes_of-Starts [] ys m h = refl
bytes_of-Starts (x ∷ xs) ys m h =
    ap₂ ◌∷◌ (h 0 (omega arith))
      (bytes_of-Starts xs ys (λ i. m (suc i)) (λ i lt. h (suc i) (omega arith)))

-- The readers look at the first bytes only.
pub read_i16-Starts :
    (m : Mem) (xs ys : Bytes)
    → length xs ≡ 2
    → Starts m (xs ++ ys)
    → read_i16 m ≡ read_i16 (mem_of xs)
unfolding read_i16
read_i16-Starts m xs ys e h =
    let s = Starts-left m xs ys h in rw (s 0 (omega arith), s 1 (omega arith))

pub read_i32-Starts :
    (m : Mem) (xs ys : Bytes)
    → length xs ≡ 4
    → Starts m (xs ++ ys)
    → read_i32 m ≡ read_i32 (mem_of xs)
unfolding read_i32
read_i32-Starts m xs ys e h =
    let s = Starts-left m xs ys h in
    rw (s 0 (omega arith), s 1 (omega arith), s 2 (omega arith), s 3 (omega arith))

pub ntoh64-Starts :
    (m : Mem) (xs ys : Bytes) → length xs ≡ 8 → Starts m (xs ++ ys) → ntoh64 m ≡ ntoh64 (mem_of xs)
unfolding ntoh64
ntoh64-Starts m xs ys e h =
    let s = Starts-left m xs ys h in
    rw (
      s 0 (omega arith),
      s 1 (omega arith),
      s 2 (omega arith),
      s 3 (omega arith),
      s 4 (omega arith),
      s 5 (omega arith),
      s 6 (omega arith),
      s 7 (omega arith),
    )
