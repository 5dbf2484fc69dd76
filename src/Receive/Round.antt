-- ===== src/Receive/Round.antt =====
-- One round of `readcb` on the bytes of a frame: whole, or in parts.
use php_nsq.Prelude.{
  ℕ, suc, ◌+◌, ◌-◌, ◌%◌, ◌^◌, ◌<◌, ◌≤◌, ◌≡◌, ap, ◌∙◌, true, false, not, ◌&&◌, Bytes, List, ◌++◌,
  take, drop, length, length-append, take-append_exact, drop-append_exact, ltb, leb, ◌==◌, arith,
}
use php_nsq.Wire.{read_i32, htonl_bytes}
use php_nsq.Wire.BigEndian.{mem_of, read_i32-of_htonl}
use php_nsq.Command.{Output}
use php_nsq.Queue.{Pending}
use php_nsq.Receive.{
  Input, MessageQueue, Host, Reader, again, stop, fault, overlay, cleared, read_size, read_body,
  round, returned, crashed, readcb,
}
use php_nsq.Receive.Memory.{Starts, Starts-overlay}
use php_nsq.Receive.Frame.{length-htonl_bytes}

not_late : (n room e : ℕ) → e ≤ room → (not (n == 0) && ltb room e) ≡ false
not_late n room e h = ground arith

module _ (I : Input) (M : MessageQueue) (host : Host) where
  open I use {contents, read, read_bytes, read_rest}
  open host use {fresh}

  -- The buffer waits for the payload `p`, and has got `part` of it.
  pub record IsOpen (r : Reader I M host) (p part : Bytes) : Type 0 where
    pub l : r.l ≡ length part
    pub size : r.size ≡ length p
    pub room : r.room ≡ length p + 1
    pub starts : Starts r.message part

  -- Between two frames: `rest` waits to be read, the queue holds `ms`, `os` has been written.
  pub record IsIdle (r : Reader I M host) (rest : Bytes) (ms : List Pending) (os : List Output)
      : Type 0 where
    pub first : r.is_first ≡ true
    pub l : r.l ≡ 0
    pub input : contents r.input ≡ rest
    pub queue : M.Holding r.queue ms
    pub out : r.out ≡ os

  -- Inside a frame: `rest` has arrived since the last round, the other data as above.
  pub record IsWaiting (r : Reader I M host) (p part rest : Bytes) (ms : List Pending)
      (os : List Output) : Type 0 where
    pub first : r.is_first ≡ false
    pub buffer : IsOpen r p part
    pub input : contents r.input ≡ rest
    pub queue : M.Holding r.queue ms
    pub out : r.out ≡ os

  pub readcb-again :
      (k : ℕ) (r r' : Reader I M host)
      → round I M host r ≡ again r'
      → readcb I M host (suc k) r ≡ readcb I M host k r'
  unfolding readcb
  readcb-again k r r' e = rw (e, readcb)

  pub readcb-stop :
      (k : ℕ) (r r' : Reader I M host)
      → round I M host r ≡ stop r'
      → readcb I M host (suc k) r ≡ returned r'
  unfolding readcb
  readcb-stop k r r' e = rw (e, readcb)

  pub readcb-fault :
      (k : ℕ) (r : Reader I M host) → round I M host r ≡ fault → readcb I M host (suc k) r ≡ crashed
  unfolding readcb
  readcb-fault k r e = rw (e, readcb)

  abbrev pub opened : Reader I M host → ℕ → Reader I M host
  opened r size = record r {
    input = (read 4 r.input).1;
    size = size;
    room = size + 1;
    message = cleared (fresh r.allocs) size;
    allocs = r.allocs + 1;
  }

  pub read_size-opened :
      (r : Reader I M host) (n : ℕ) (rest : Bytes)
      → r.is_first ≡ true
      → contents r.input ≡ htonl_bytes n ++ rest
      → n < 2 ^ 31 - 1
      → (read_size I M host r ≡ again (opened r n)) × (contents (read 4 r.input).1 ≡ rest)
  unfolding read_size
  read_size-opened r n rest first c small =
      let four = length-htonl_bytes n in
      let got : (read 4 r.input).0 ≡ htonl_bytes n =
        read_bytes 4 r.input ∙ ap (take 4) c ∙ take-append_exact 4 (htonl_bytes n) rest four in
      let size : read_i32 (mem_of (htonl_bytes n)) ≡ n = omega (arith, read_i32-of_htonl n) in
      let fits : leb (2 ^ 31 - 1) n ≡ false = ground arith in
      (
        rw (first, got, size, fits),
        read_rest 4 r.input ∙ ap (drop 4) c ∙ drop-append_exact 4 (htonl_bytes n) rest four,
      )

  abbrev pub asked : Reader I M host → ℕ
  asked r = (r.size + 2 ^ 64 - r.l) % 2 ^ 64

  abbrev pub filled : Reader I M host → Bytes → Reader I M host
  filled r got = record r {
    input = (read (asked r) r.input).1;
    message = overlay r.message r.l got;
    l = r.l + length got;
  }

  -- Reading `got`, where `rest` of the payload is still to come after it.
  pub read_body-filled :
      (r : Reader I M host) (p part got rest tail : Bytes)
      → IsOpen r p part
      → p ≡ part ++ (got ++ rest)
      → length p < 2 ^ 31 - 1
      → take (length (got ++ rest)) (contents r.input) ≡ got
      → drop (length (got ++ rest)) (contents r.input) ≡ tail
      → (read_body I M host r ≡ again (filled r got))
        × IsOpen (filled r got) p (part ++ got)
        × (contents (filled r got).input ≡ tail)
  unfolding read_body
  read_body-filled r p part got rest tail o split small t d =
      let lengths : length p ≡ length part + length (got ++ rest) =
        ap length split ∙ length-append part (got ++ rest) in
      let wants : asked r ≡ length (got ++ rest) = omega (arith, o.l, o.size, lengths) in
      let bytes : (read (asked r) r.input).0 ≡ got =
        read_bytes (asked r) r.input ∙ ap (λ n. take n (contents r.input)) wants ∙ t in
      let fits : (not (length got == 0) && ltb r.room (r.l + length got)) ≡ false =
        not_late (length got) r.room (r.l + length got)
          (omega (arith, o.l, o.room, lengths, length-append got rest)) in
      (
        rw (bytes, fits),
        record {
          l = omega (arith, o.l, length-append part got);
          size = o.size;
          room = o.room;
          starts = λ i lt.
              ap (λ k. overlay r.message k got i) o.l
              ∙ Starts-overlay r.message part got o.starts i lt;
        },
        read_rest (asked r) r.input ∙ ap (λ n. drop n (contents r.input)) wants ∙ d,
      )
