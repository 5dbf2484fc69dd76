-- ===== src/Receive/Cut.antt =====
-- `readcb` when fewer than four bytes of a size have come: it takes the missing ones for 0.
use php_nsq.Prelude.{
  ℕ, zero, suc, ◌+◌, ◌-◌, ◌^◌, ◌<◌, ◌≡◌, refl, ap, ◌∙◌, true, false, Bytes, List, [], ◌∷◌, length,
  take, drop, take_all, drop_all, ltb, leb, arith,
}
use php_nsq.Wire.{read_i32}
use php_nsq.Wire.BigEndian.{mem_of}
use php_nsq.Command.{Output}
use php_nsq.Queue.{Pending}
use php_nsq.Receive.{
  Input, MessageQueue, Host, Reader, again, stop, read_size, dispatch, round, returned, readcb,
}
use php_nsq.Receive.Round.{
  IsIdle, IsWaiting, opened, filled, read_body-filled, readcb-again, readcb-stop,
}
use php_nsq.Receive.Drain.{IsShort, Settles, round-settles, round-strays, readcb-Settles}

abbrev pub zero_bytes : ℕ → Bytes
zero_bytes zero = []
zero_bytes (suc n) = 0 ∷ zero_bytes n

length-zero_bytes : (n : ℕ) → length (zero_bytes n) ≡ n
length-zero_bytes zero = refl
length-zero_bytes (suc n) = ap suc (length-zero_bytes n)

-- The size that is read from such bytes.
abbrev pub padded : Bytes → ℕ
padded c = read_i32 (mem_of c)

module _ (I : Input) (M : MessageQueue) (host : Host) where
  -- Where it is 0, `readcb` does what it does with no byte at all.
  readcb-zero_size :
      (c : Bytes) (j : ℕ) (r : Reader I M host) {ms : List Pending} {os : List Output}
      → IsShort c
      → IsIdle I M host r c ms os
      → Settles I M host r.allocs j
      → (r' : Reader I M host) × (readcb I M host (suc j) r ≡ returned r')
        × IsIdle I M host r' [] ms os
  readcb-zero_size c zero r short i s =
      let (r', turn, i') = round-settles I M host r c short i s in
      (r', readcb-stop I M host 0 r r' turn, i')
  readcb-zero_size c (suc j) r short i (ne, ne', s) =
      let (r', turn, i', counted) = round-strays I M host r c short i ne ne' in
      let (r'', done, i'') = readcb-Settles I M host j r' i' (rw counted s) in
      (r'', readcb-again I M host (suc j) r r' turn ∙ done, i'')

  read_size-cut :
      (c : Bytes) (n : ℕ) (r : Reader I M host)
      → length c < 4
      → padded c ≡ n
      → n < 2 ^ 31 - 1
      → r.is_first ≡ true
      → I.contents r.input ≡ c
      → (read_size I M host r ≡ again (opened I M host r n))
        × (I.contents (I.read 4 r.input).1 ≡ [])
  unfolding read_size
  read_size-cut c n r cut size small first input =
      let got : (I.read 4 r.input).0 ≡ c =
        I.read_bytes 4 r.input ∙ ap (take 4) input ∙ take_all 4 c (omega arith) in
      let fits : leb (2 ^ 31 - 1) n ≡ false = ground arith in
      (
        rw (first, got, size, fits),
        I.read_rest 4 r.input ∙ ap (drop 4) input ∙ drop_all 4 c (omega arith),
      )

  -- Where it is not, `readcb` waits for a payload of that size.
  round-wrong_size :
      (c : Bytes) (n : ℕ) (r : Reader I M host) {ms : List Pending} {os : List Output}
      → length c < 4
      → padded c ≡ suc n
      → suc n < 2 ^ 31 - 1
      → IsIdle I M host r c ms os
      → (r' : Reader I M host) × (round I M host r ≡ stop r')
        × IsWaiting I M host r' (zero_bytes (suc n)) [] [] ms os
  unfolding round dispatch
  round-wrong_size c n r cut size small i =
      let (sized, left) = read_size-cut c (suc n) r cut size small i.first i.input in
      let r1 = opened I M host r (suc n) in
      let long = length-zero_bytes n in
      let (step, o, c') =
        read_body-filled I M host r1 (zero_bytes (suc n)) [] [] (zero_bytes (suc n)) []
          (record {
            l = i.l;
            size = omega (arith, long);
            room = omega (arith, long);
            starts = λ k lt. absurd (omega arith);
          })
          refl (omega (arith, long)) (rw left refl) (rw left refl) in
      let early : ltb (r.l + 0) (suc n) ≡ true = ground (arith, i.l) in
      (
        record (filled I M host r1 []) { is_first = false },
        rw (sized, step, early),
        record {
          first = refl;
          buffer = record { l = o.l; size = o.size; room = o.room; starts = o.starts };
          input = c';
          queue = i.queue;
          out = i.out;
        },
      )

  -- Between two frames where the size is 0, and inside one of that size, with nothing of it, where it
  -- is not.
  abbrev pub Misled : ℕ → Reader I M host → List Pending → List Output → Type 0
  Misled zero r ms os = IsIdle I M host r [] ms os
  Misled (suc n) r ms os = IsWaiting I M host r (zero_bytes (suc n)) [] [] ms os

  -- When fewer than four bytes of a size have come, `readcb` returns, and takes the missing ones for 0:
  -- it waits for a payload of the size that this gives, or, where they are all 0, for another frame; the
  -- bytes are gone, and the queue and the output are as they were. The size must be less than 2 ^ 31 - 1, and
  -- where it is 0, some buffer that it goes on to allocate must happen to start with type 0.
  pub readcb-cut_size :
      (c : Bytes) (j : ℕ) (r : Reader I M host) {ms : List Pending} {os : List Output}
      → length c < 4
      → padded c < 2 ^ 31 - 1
      → IsIdle I M host r c ms os
      → Settles I M host r.allocs j
      → (r' : Reader I M host) × (readcb I M host (suc j) r ≡ returned r')
        × Misled (padded c) r' ms os
  readcb-cut_size c j r {ms} {os} cut small i s = by_size (padded c) refl small
    where
      by_size :
          (n : ℕ)
          → padded c ≡ n
          → n < 2 ^ 31 - 1
          → (r' : Reader I M host) × (readcb I M host (suc j) r ≡ returned r') × Misled n r' ms os
      by_size zero e h =
          readcb-zero_size c j r
            (record {
              taken = take_all 4 c (omega arith);
              dropped = drop_all 4 c (omega arith);
              size = e;
            })
            i s
      by_size (suc n) e h =
          let (r', turn, w) = round-wrong_size c n r cut e h i in
          (r', readcb-stop I M host j r r' turn, w)
