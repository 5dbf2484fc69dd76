-- ===== src/Session/Wait.antt =====
-- The wait of `send_identify` for its answer.
use php_nsq.Prelude.{
  ℕ, ◌+◌, ◌-◌, ◌^◌, ◌<◌, ◌≤◌, ◌≡◌, refl, ◌∙◌, Bytes, List, [], ◌∷◌, ◌++◌, map, All, length,
  length-append, lt→ltb, le→not_ltb, arith,
}
use php_nsq.Wire.{pos, negsuc, htonl_bytes, read_i32}
use php_nsq.Wire.BigEndian.{mem_of, read_i32-of_htonl}
use php_nsq.Publish.{ReadResult, failed, got}
use php_nsq.Publish.Await.{IsPiece, IsSplit, last, more, IsSplit-IsPiece, length-htonl_bytes}
use php_nsq.Session.{
  at_size, at_body, next, crashed, behind, read_identify_size, read_identify_body, read_identify,
  over, fault, await_identify,
}

-- A read that brings nothing: nothing has come yet, or the connection is closed.
abbrev pub IsEmpty : ReadResult → Type 0
IsEmpty failed = Unit
IsEmpty (got bytes) = length bytes ≡ 0

-- Reads that bring nothing leave the wait for the size where it is.
pub await_identify-IsEmpty :
    (rs rest : List ReadResult)
    → All IsEmpty rs
    → await_identify at_size (rs ++ rest) ≡ await_identify at_size rest
unfolding await_identify read_identify read_identify_size
await_identify-IsEmpty [] rest h = refl
await_identify-IsEmpty (failed ∷ rs) rest h = await_identify-IsEmpty rs rest h.1
await_identify-IsEmpty (got [] ∷ rs) rest h = await_identify-IsEmpty rs rest h.1
await_identify-IsEmpty (got (b ∷ bs) ∷ rs) rest h = absurd (omega arith)

size_taken :
    (n : ℕ)
    → n < 2 ^ 31 - 1
    → read_identify at_size (got (htonl_bytes n)) ≡ next (at_body n (pos 0))
unfolding read_identify read_identify_size
size_taken n small =
    let same : read_i32 (mem_of (htonl_bytes n)) ≡ n = omega (arith, read_i32-of_htonl n) in
    ground (arith, length-htonl_bytes n, same)

-- A piece that fits the message.
piece_taken :
    (size l : ℕ) (x : Bytes)
    → l + length x ≤ size
    → read_identify (at_body size (pos l)) (got x) ≡ behind size (pos (l + length x))
unfolding read_identify read_identify_body
piece_taken size l x fits = ground arith

pieces_taken :
    (size l : ℕ) {xs : List Bytes} {p : Bytes} (rest : List ReadResult)
    → IsSplit xs p
    → l + length p ≡ size
    → await_identify (at_body size (pos l)) (map got xs ++ rest) ≡ over rest
unfolding await_identify behind
pieces_taken size l rest (last x hx) e = rw (
  await_identify,
  piece_taken size l x (omega (arith, e)),
  behind,
  le→not_ltb (l + length x) size (omega (arith, e)),
)
pieces_taken size l rest (more x {xs} {p} hx s) e =
    let long = length-append x p in
    let some_left = IsSplit-IsPiece s in
    rw
      (
        await_identify,
        piece_taken size l x (omega (arith, e, long)),
        behind,
        lt→ltb (l + length x) size (omega (arith, e, long, some_left)),
      )
      (pieces_taken size (l + length x) rest s (omega (arith, e, long)))

-- When reads that bring nothing are followed by a size and, in any number of pieces and with no empty
-- read between them, by as many bytes, the wait ends there and leaves what follows unread.
pub await_identify-over :
    (rs : List ReadResult) (xs : List Bytes) (p : Bytes) (rest : List ReadResult)
    → All IsEmpty rs
    → length p < 2 ^ 31 - 1
    → IsSplit xs p
    → await_identify at_size (rs ++ (got (htonl_bytes (length p)) ∷ (map got xs ++ rest)))
      ≡ over rest
unfolding await_identify
await_identify-over rs xs p rest h small s =
    await_identify-IsEmpty rs _ h
    ∙ rw (await_identify, size_taken (length p) small)
        (pieces_taken (length p) 0 rest s (omega arith))

failure_counted : (n : ℕ) → read_identify (at_body n (pos 0)) failed ≡ next (at_body n (negsuc 0))
unfolding read_identify read_identify_body behind
failure_counted n = refl

written_in_front :
    (n : ℕ) (x : Bytes) → IsPiece x → read_identify (at_body n (negsuc 0)) (got x) ≡ crashed
unfolding read_identify read_identify_body
written_in_front n x hx = ground arith

-- When nothing of the answer has come behind its size, a read that fails makes `l` negative, and the
-- next read that brings something writes in front of the message.
pub await_identify-fault :
    (n : ℕ) (x : Bytes) (rest : List ReadResult)
    → n < 2 ^ 31 - 1
    → IsPiece x
    → await_identify at_size (got (htonl_bytes n) ∷ failed ∷ got x ∷ rest) ≡ fault
unfolding await_identify
await_identify-fault n x rest small hx =
    rw (await_identify, size_taken n small, failure_counted n, written_in_front n x hx)
