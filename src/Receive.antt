-- ===== src/Receive.antt =====
-- sub.c, `readcb`: the loop that cuts the bytes of the connection into frames, answers heartbeats
-- and queues messages. Its static variables and the fields of NSQMsg that it uses are a record;
-- one round of `while (1)` is a function of that record.
pub mod Memory
pub mod Frame
pub mod Round
pub mod Deliver
pub mod Step
pub mod Drain
pub mod Cut
pub mod WholeFrame
pub mod LostFrame
pub mod Stream
pub mod ErrorFrame
pub mod Backing
pub mod View
pub mod Sample
mod Tests
use php_nsq.Prelude.{
  ℕ, zero, suc, ◌+◌, ◌-◌, ◌*◌, ◌%◌, ◌^◌, ◌≡◌, Bool, true, false, ◌&&◌, not, Option, none, some,
  Bytes, List, [], ◌∷◌, ◌++◌, codes, length, take, drop, ltb, leb, ◌==◌, if◌then◌else◌,
}
use php_nsq.Wire.{ℤ, Mem, read_i16, read_i32, ntoh64}
use php_nsq.Wire.BigEndian.{mem_of}
use php_nsq.Command.{Output, queued}
use php_nsq.Queue.{Pending}
use php_nsq.Queue.Chain.{kept}

-- The input of a bufferevent: `bufferevent_read(bev, p, n)` removes up to `n` of the bytes that
-- wait, from the front, and gives them to the caller.
pub record Input : Type 1 where
  pub Buf : Type 0
  pub contents : Buf → Bytes
  pub read : ℕ → Buf → Bytes × Buf
  pub read_bytes : (n : ℕ) (b : Buf) → (read n b).0 ≡ take n (contents b)
  pub read_rest : (n : ℕ) (b : Buf) → contents (read n b).1 ≡ drop n (contents b)

-- The queue behind `enqueue_message`, with the messages that it holds; `none` is a memory fault.
pub record MessageQueue : Type 1 where
  pub Q : Type 0
  pub Holding : Q → List Pending → Type 0
  pub enqueue : Pending → Q → Option Q
  pub enqueue-Holding :
      (m : Pending) (q : Q) (ms : List Pending)
      → Holding q ms
      → (q' : Q) × (enqueue m q ≡ some q') × Holding q' (ms ++ (kept m ∷ []))

-- What the process finds: the bytes that the k-th `emalloc` of a message buffer happens to return,
-- and whether `malloc` of a number of bytes succeeds. The last two are the subscriber's settings.
pub record Host : Type 0 where
  pub fresh : ℕ → Mem
  pub malloc_works : ℕ → Bool
  pub delay_time : ℤ
  pub auto_finish : Bool

-- `message + k`
abbrev pub shift : Mem → ℕ → Mem
shift m k = λ i. m (k + i)

-- `memcpy` of `n` bytes out of memory
abbrev pub bytes_of : ℕ → Mem → Bytes
bytes_of zero m = []
bytes_of (suc n) m = m 0 ∷ bytes_of n (λ i. m (suc i))

-- `bytes` written at offset `l`
unfoldable pub overlay : Mem → ℕ → Bytes → Mem
overlay m l bytes i =
    if ltb i l then m i else if ltb (i - l) (length bytes) then mem_of bytes (i - l) else m i

-- `emalloc(size + 1)` and `memset(message, 0, size)`
unfoldable pub cleared : Mem → ℕ → Mem
cleared m size i = if ltb i size then 0 else m i

module _ (I : Input) (M : MessageQueue) (host : Host) where
  open I use {Buf, read}
  open M use {Q, enqueue}
  open host use {fresh, malloc_works, delay_time, auto_finish}

  -- `room` is the size of the allocation behind `message`, `allocs` counts those made so far.
  pub record Reader : Type 0 where
    pub is_first : Bool
    pub l : ℕ
    pub message : Mem
    pub room : ℕ
    pub size : ℕ
    pub allocs : ℕ
    pub input : Buf
    pub queue : Q
    pub out : List Output

  -- How a round ends: by `continue` or the end of the body, by `break`, or by an access outside an
  -- allocation or a refused allocation, which end the process.
  pub data Turn : Type 0 where
    again : Reader → Turn
    stop : Reader → Turn
    fault : Turn

  abbrev pub and_then : Turn → (Reader → Turn) → Turn
  and_then (again r) f = f r
  and_then (stop r) f = stop r
  and_then fault f = fault

  -- `if (is_first) { … }`. A size of 2^31 - 1 or a negative one makes `size + 1` no allocation.
  unfoldable pub read_size : Reader → Turn
  read_size r =
      if r.is_first
      then (let (bytes, rest) = read 4 r.input in
          let size = read_i32 (mem_of bytes) in
          if leb (2 ^ 31 - 1) size
          then fault
          else again (record r {
            input = rest;
            size = size;
            room = size + 1;
            message = cleared (fresh r.allocs) size;
            allocs = r.allocs + 1;
          }))
      else again r

  -- `l += bufferevent_read(bev, message + l, msg->size - l)`; the count is a `size_t`.
  unfoldable pub read_body : Reader → Turn
  read_body r =
      let (bytes, rest) = read ((r.size + 2 ^ 64 - r.l) % 2 ^ 64) r.input in
      if not (length bytes == 0) && ltb r.room (r.l + length bytes)
      then fault
      else again
          (record r { input = rest; message = overlay r.message r.l bytes; l = r.l + length bytes })

  -- A response frame: 15 bytes are a heartbeat, which is answered.
  unfoldable pub take_response : Reader → Turn
  take_response r =
      let r' = record r {
        out = if r.size == 15 then r.out ++ (queued (codes "NOP\n") ∷ []) else r.out;
        l = 0;
        is_first = true;
        size = 0;
      } in
      if r.size == 0 then stop r' else again r'

  -- The message in the buffer, as it is passed to `enqueue_message`.
  abbrev pub pending_of : Reader → Pending
  pending_of r = record {
    message_id = bytes_of 16 (shift r.message 14);
    body = bytes_of (r.size - 30) (shift r.message 30);
    body_len = r.size - 30;
    timestamp = ntoh64 (shift r.message 4);
    attempts = read_i16 (shift r.message 12);
    delay_time = delay_time;
    auto_finish = auto_finish;
  }

  -- `l = 0; is_first = 1;` and the size cleared, with a new queue
  abbrev pub idle_with : Reader → Q → Reader
  idle_with r q = record r { queue = q; size = 0; l = 0; is_first = true }

  -- A message frame. `malloc(msg->size - 30 + 1)` takes a `size_t`; if it works for a frame of fewer
  -- than 30 bytes, the copy behind it runs out of every bound.
  unfoldable pub take_message : Reader → Turn
  take_message r =
      if malloc_works ((r.size + 2 ^ 64 - 29) % 2 ^ 64)
      then (if ltb r.size 30 then fault else elim (enqueue (pending_of r) r.queue) [
        | none ↦ fault
        | some q ↦ again (idle_with r q)
      ])
      else again (idle_with r r.queue)

  -- The tests on `l`. A frame of any other type leaves every variable as it is.
  unfoldable pub dispatch : Reader → Turn
  dispatch r =
      if ltb r.l r.size
      then stop (record r { is_first = false })
      else if r.l == r.size
      then (let frame_type = read_i32 r.message in
          if frame_type == 0
          then take_response r
          else if frame_type == 2
          then take_message r
          else again r)
      else stop (record r { size = 0; l = 0; is_first = true })

  unfoldable pub round : Reader → Turn
  round r = and_then (and_then (read_size r) read_body) dispatch

  pub data Result : Type 0 where
    returned : Reader → Result
    crashed : Result
    still_running : Result

  -- `while (1)` for at most some number of rounds.
  unfoldable pub readcb : ℕ → Reader → Result
  readcb zero r = still_running
  readcb (suc k) r = elim (round r) [
    | again r' ↦ readcb k r'
    | stop r' ↦ returned r'
    | fault ↦ crashed
  ]
