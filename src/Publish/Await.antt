-- ===== src/Publish/Await.antt =====
-- The wait for an answer, step by step: a size, then a payload that may come in pieces.
use php_nsq.Prelude.{
  ℕ, suc, ◌+◌, ◌-◌, ◌^◌, ◌≤◌, ◌<◌, ◌≡◌, refl, sym, ap₂, ◌∙◌, Bool, true, false, ◌&&◌, Bytes, List,
  [], ◌∷◌, ◌++◌, map, length, length-append, leb, ◌==◌, lt→ltb, le→not_ltb, arith,
}
use mathlib.Core.Path.{fun_ext}
use php_nsq.Wire.{Mem, htonl_bytes, read_i32}
use php_nsq.Wire.BigEndian.{mem_of, read_i32-of_htonl}
use php_nsq.Receive.{overlay, cleared}
use php_nsq.Receive.Memory.{mem_of-append_left, mem_of-append_right}
use php_nsq.Publish.{
  ReadResult, got, Outcome, crashed, Phase, at_size, at_body, Client, Step, next, done, behind_read,
  read_answer_size, read_answer_body, read_result, await, answer,
}

-- Not empty.
abbrev pub IsPiece : Bytes → Type 0
IsPiece x = 0 < length x

-- The pieces `xs` of `p`.
pub data IsSplit : List Bytes → Bytes → Type 0 where
  last : (x : Bytes) → IsPiece x → IsSplit (x ∷ []) x
  more :
      (x : Bytes) {xs : List Bytes} {p : Bytes}
      → IsPiece x
      → IsSplit xs p
      → IsSplit (x ∷ xs) (x ++ p)

pub IsSplit-IsPiece : {xs : List Bytes} {p : Bytes} → IsSplit xs p → IsPiece p
IsSplit-IsPiece (last x hx) = hx
IsSplit-IsPiece (more x {xs} {p} hx s) = omega (arith, length-append x p)

pub length-htonl_bytes : (n : ℕ) → length (htonl_bytes n) ≡ 4
unfolding htonl_bytes
length-htonl_bytes n = refl

le→not_leb : (a b : ℕ) → b < a → leb a b ≡ false
le→not_leb a b h = ground arith

and_false : (b : Bool) → (b && false) ≡ false
and_false true = refl
and_false false = refl

suc-nonzero : (n : ℕ) → (suc n == 0) ≡ false
suc-nonzero n = ground arith

overlay-append :
    (m : Mem) (l : ℕ) (x y : Bytes) (i : ℕ)
    → overlay (overlay m l x) (l + length x) y i ≡ overlay m l (x ++ y) i
unfolding overlay
overlay-append m l x y i = ground (
  arith,
  length-append x y,
  mem_of-append_left x y (i - l),
  mem_of-append_right x y (length x) refl (i - (l + length x)),
)

module _ (fresh : ℕ → Mem) where
  -- One step that ends in the next phase, or at the end.
  abbrev pub continue : Step → List ReadResult → Outcome × Client × List ReadResult
  continue (next p c) rs = await fresh p c rs
  continue (done o c) rs = (o, c, rs)

  pub await-step :
      (p : Phase) (c : Client) (r : ReadResult) (rs : List ReadResult) (s : Step)
      → read_result fresh p c r ≡ s
      → await fresh p c (r ∷ rs) ≡ continue s rs
  unfolding await
  await-step p c r rs (next p' c') h = rw (await, h)
  await-step p c r rs (done o c') h = rw (await, h)

  read_result-size :
      (n : ℕ) (c : Client)
      → n < 2 ^ 31 - 1
      → read_result fresh at_size c (got (htonl_bytes n))
        ≡ next (at_body n 0 (cleared (fresh c.allocs) n)) (record c { allocs = c.allocs + 1 })
  unfolding read_result read_answer_size
  read_result-size n c small =
      let same : read_i32 (mem_of (htonl_bytes n)) ≡ n = omega (arith, read_i32-of_htonl n) in
      rw (length-htonl_bytes n, same, le→not_leb (2 ^ 31 - 1) n small)

  -- A size that can be allocated is taken as it was sent.
  pub await-size :
      (n : ℕ) (c : Client) (rs : List ReadResult)
      → n < 2 ^ 31 - 1
      → await fresh at_size c (got (htonl_bytes n) ∷ rs)
        ≡ await fresh
            (at_body n 0 (cleared (fresh c.allocs) n))
            (record c { allocs = c.allocs + 1 })
            rs
  await-size n c rs small = await-step at_size c _ rs _ (read_result-size n c small)

  read_result-body :
      (size l : ℕ) (m : Mem) (c : Client) (x : Bytes)
      → l + length x ≤ size + 1
      → read_result fresh (at_body size l m) c (got x)
        ≡ behind_read size (l + length x) (overlay m l x) c
  unfolding read_result read_answer_body
  read_result-body size l m c x fits = rw (le→not_ltb (size + 1) (l + length x) fits, and_false _)

  -- More bytes than the block has room for.
  pub read_result-over :
      (size l : ℕ) (m : Mem) (c : Client) (x : Bytes)
      → IsPiece x
      → size + 1 < l + length x
      → read_result fresh (at_body size l m) c (got x) ≡ done crashed c
  unfolding read_result read_answer_body
  read_result-over size l m c [] hx over = absurd (omega arith)
  read_result-over size l m c (b ∷ x) hx over =
      rw (suc-nonzero (length x), lt→ltb (size + 1) (l + suc (length x)) over)

  -- A piece that is not the last.
  pub await-piece :
      (size l : ℕ) (m : Mem) (c : Client) (x : Bytes) (rs : List ReadResult)
      → IsPiece x
      → l + length x < size
      → await fresh (at_body size l m) c (got x ∷ rs)
        ≡ await fresh (at_body size (l + length x) (overlay m l x)) c rs
  await-piece size l m c x rs hx fits =
      await-step (at_body size l m) c (got x) rs
        (next (at_body size (l + length x) (overlay m l x)) c)
        (read_result-body size l m c x (omega arith)
          ∙ rw (lt→ltb (l + length x) size fits, lt→ltb 0 (l + length x) (omega arith)))

  -- Two pieces are as one.
  await-join :
      (size l : ℕ) (m : Mem) (c : Client) (x y : Bytes) (rs : List ReadResult)
      → IsPiece x
      → IsPiece y
      → l + length (x ++ y) ≤ size
      → await fresh (at_body size (l + length x) (overlay m l x)) c (got y ∷ rs)
        ≡ await fresh (at_body size l m) c (got (x ++ y) ∷ rs)
  await-join size l m c x y rs hx hy fits =
      let long = length-append x y in
      let whole = read_result-body size l m c (x ++ y) (omega arith) in
      let second = read_result-body size (l + length x) (overlay m l x) c y (omega (arith, long)) in
      let sum : l + length x + length y ≡ l + length (x ++ y) = omega (arith, long) in
      let same = fun_ext (overlay-append m l x y) in
      await-step _ c (got y) rs _ second
      ∙ ap₂ (λ k m'. continue (behind_read size k m' c) rs) sum same
      ∙ sym (await-step _ c (got (x ++ y)) rs _ whole)

  -- A payload in pieces is as the whole payload.
  pub await-split :
      (size l : ℕ) (m : Mem) (c : Client) {xs : List Bytes} {p : Bytes} (rs : List ReadResult)
      → IsSplit xs p
      → l + length p ≤ size
      → await fresh (at_body size l m) c (map got xs ++ rs)
        ≡ await fresh (at_body size l m) c (got p ∷ rs)
  await-split size l m c rs (last x hx) fits = refl
  await-split size l m c rs (more x {xs} {p} hx s) fits =
      let long = length-append x p in
      let hp = IsSplit-IsPiece s in
      await-piece size l m c x (map got xs ++ rs) hx (omega (arith, long, hp))
      ∙ await-split size (l + length x) (overlay m l x) c rs s (omega (arith, long))
      ∙ await-join size l m c x p rs hx hp fits

  -- A whole payload is taken for an answer.
  pub await-body :
      (m : Mem) (c : Client) (p : Bytes) (rs : List ReadResult)
      → await fresh (at_body (length p) 0 m) c (got p ∷ rs)
        ≡ continue (answer (length p) (overlay m 0 p) c) rs
  await-body m c p rs =
      let whole = read_result-body (length p) 0 m c p (omega arith) in
      let end : 0 + length p ≡ length p = omega arith in
      let full = le→not_ltb (length p) (length p) (omega arith) in
      await-step (at_body (length p) 0 m) c (got p) rs (answer (length p) (overlay m 0 p) c)
        (whole ∙ rw (end, full))
