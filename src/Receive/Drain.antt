-- ===== src/Receive/Drain.antt =====
-- `readcb` when nothing is left to read: it allocates a buffer for a frame of size 0, does not clear
-- it, and decides by the bytes that it happens to find there.
use php_nsq.Prelude.{
  ℕ, zero, suc, ◌+◌, ◌-◌, ◌%◌, ◌^◌, ◌≡◌, refl, ap, ◌∙◌, ◌≢◌, true, false, Bytes, List, [], take,
  drop, ltb, ◌==◌, arith,
}
use php_nsq.Wire.{read_i32}
use php_nsq.Wire.BigEndian.{mem_of}
use php_nsq.Command.{Output}
use php_nsq.Queue.{Pending}
use php_nsq.Receive.{
  Input, MessageQueue, Host, Reader, again, stop, and_then, overlay, cleared, read_size, read_body,
  take_response, dispatch, round, returned, still_running, readcb,
}
use php_nsq.Receive.Round.{IsIdle, readcb-again, readcb-stop}

-- Fewer than four bytes of a size, or none, with which the size that is read is 0.
pub record IsShort (short : Bytes) : Type 0 where
  pub taken : take 4 short ≡ short
  pub dropped : drop 4 short ≡ []
  pub size : read_i32 (mem_of short) ≡ 0

nothing-IsShort : IsShort []
unfolding read_i32
nothing-IsShort = record { taken = refl; dropped = refl; size = refl }

module _ (I : Input) (M : MessageQueue) (host : Host) where
  open host use {fresh}

  -- The type that `readcb` sees in the a-th buffer, whose first four bytes nobody has written.
  abbrev pub stray_type : ℕ → ℕ
  stray_type a = read_i32 (fresh a)

  abbrev empty_frame : Reader I M host → Reader I M host
  empty_frame r = record r {
    size = 0;
    room = 1;
    message = overlay (cleared (fresh r.allocs) 0) r.l [];
    l = r.l + 0;
    allocs = r.allocs + 1;
    input = (I.read 0 (I.read 4 r.input).1).1;
  }

  nothing_left :
      (r : Reader I M host) (short : Bytes)
      → IsShort short
      → r.is_first ≡ true
      → r.l ≡ 0
      → I.contents r.input ≡ short
      → (and_then I M host (read_size I M host r) (read_body I M host) ≡ again (empty_frame r))
        × (I.contents (empty_frame r).input ≡ [])
  unfolding read_size read_body
  nothing_left r short s first l c =
      let got : (I.read 4 r.input).0 ≡ short = I.read_bytes 4 r.input ∙ ap (take 4) c ∙ s.taken in
      let left : I.contents (I.read 4 r.input).1 ≡ [] =
        I.read_rest 4 r.input ∙ ap (drop 4) c ∙ s.dropped in
      let none_got : (I.read 0 (I.read 4 r.input).1).0 ≡ [] = I.read_bytes 0 (I.read 4 r.input).1 in
      let asks : (0 + 2 ^ 64 - r.l) % 2 ^ 64 ≡ 0 = omega (arith, l) in
      (rw (first, got, s.size, asks, none_got), I.read_rest 0 (I.read 4 r.input).1 ∙ left)

  stray : (r : Reader I M host) → r.l ≡ 0 → read_i32 (empty_frame r).message ≡ stray_type r.allocs
  unfolding read_i32 overlay cleared
  stray r l = rw l

  -- A buffer that happens to start with type 0: `readcb` returns, and nothing has changed.
  pub round-settles :
      (r : Reader I M host) (short : Bytes) {ms : List Pending} {os : List Output}
      → IsShort short
      → IsIdle I M host r short ms os
      → stray_type r.allocs ≡ 0
      → (r' : Reader I M host) × (round I M host r ≡ stop r') × IsIdle I M host r' [] ms os
  unfolding round dispatch take_response
  round-settles r short sh i zero_type =
      let (step, c) = nothing_left r short sh i.first i.l i.input in
      let past : ltb (r.l + 0) 0 ≡ false = ground arith in
      let full : (r.l + 0 == 0) ≡ true = ground (arith, i.l) in
      (
        record (empty_frame r) { l = 0; is_first = true },
        rw (step, past, full, stray r i.l ∙ zero_type),
        record { first = refl; l = refl; input = c; queue = i.queue; out = i.out },
      )

  -- A buffer that happens to start with neither 0 nor 2: another round.
  pub round-strays :
      (r : Reader I M host) (short : Bytes) {ms : List Pending} {os : List Output}
      → IsShort short
      → IsIdle I M host r short ms os
      → stray_type r.allocs ≢ 0
      → stray_type r.allocs ≢ 2
      → (r' : Reader I M host) × (round I M host r ≡ again r')
        × IsIdle I M host r' [] ms os
        × (r'.allocs ≡ r.allocs + 1)
  unfolding round dispatch
  round-strays r short sh i ne ne' =
      let (step, c) = nothing_left r short sh i.first i.l i.input in
      let past : ltb (r.l + 0) 0 ≡ false = ground arith in
      let full : (r.l + 0 == 0) ≡ true = ground (arith, i.l) in
      let kind = stray r i.l in
      let not_response : (stray_type r.allocs == 0) ≡ false = ground arith in
      let not_message : (stray_type r.allocs == 2) ≡ false = ground arith in
      (
        empty_frame r,
        rw (step, past, full, kind, not_response, not_message),
        record { first = i.first; l = omega (arith, i.l); input = c; queue = i.queue; out = i.out },
        refl,
      )

  -- The a-th buffer and those behind it: j of them start with neither 0 nor 2, the next with 0.
  abbrev pub Settles : ℕ → ℕ → Type 0
  Settles a zero = stray_type a ≡ 0
  Settles a (suc j) = (stray_type a ≢ 0) × (stray_type a ≢ 2) × Settles (a + 1) j

  -- With nothing left to read, `readcb` returns in the round in which it meets a buffer that starts
  -- with type 0, and has changed nothing.
  pub readcb-Settles :
      (j : ℕ) (r : Reader I M host) {ms : List Pending} {os : List Output}
      → IsIdle I M host r [] ms os
      → Settles r.allocs j
      → (r' : Reader I M host) × (readcb I M host (suc j) r ≡ returned r')
        × IsIdle I M host r' [] ms os
  readcb-Settles zero r i s =
      let (r', turn, i') = round-settles r [] nothing-IsShort i s in
      (r', readcb-stop I M host 0 r r' turn, i')
  readcb-Settles (suc j) r i (ne, ne', s) =
      let (r', turn, i', counted) = round-strays r [] nothing-IsShort i ne ne' in
      let (r'', done, i'') = readcb-Settles j r' i' (rw counted s) in
      (r'', readcb-again I M host (suc j) r r' turn ∙ done, i'')

  -- If every buffer happens to start with a type that is neither 0 nor 2, `readcb` never returns once
  -- it has read what was there, however many rounds it is given.
  pub readcb_spins :
      ((a : ℕ) → (stray_type a ≢ 0) × (stray_type a ≢ 2))
      → (k : ℕ) (r : Reader I M host) {ms : List Pending} {os : List Output}
      → IsIdle I M host r [] ms os
      → readcb I M host k r ≡ still_running
  unfolding readcb
  readcb_spins never zero r i = refl
  readcb_spins never (suc k) r i =
      let (r', turn, i', counted) =
        round-strays r [] nothing-IsShort i (never r.allocs).0 (never r.allocs).1 in
      readcb-again I M host k r r' turn ∙ readcb_spins never k r' i'
