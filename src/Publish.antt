-- ===== src/Publish.antt =====
-- pub.c, `publish` and `deferredPublish`: one command to nsqd, and the wait for its answer. The
-- results of the calls of `read` come as a list, in order; that the kernel gives.
pub mod Line
pub mod Await
pub mod Answer
pub mod Failure
pub mod Attempts
pub mod Stale
pub mod Sample
mod Tests
use php_nsq.Prelude.{
  ℕ, zero, ◌+◌, ◌-◌, ◌^◌, Bool, true, false, not, ◌&&◌, Option, none, some, Bytes, List, [], ◌∷◌,
  ◌++◌, length, codes, ltb, leb, ◌==◌, if◌then◌else◌,
}
use php_nsq.Wire.{Mem, ℤ, pos, read_i32, htonl_bytes}
use php_nsq.Wire.BigEndian.{mem_of}
use php_nsq.Print.{c_string, format_int}
use php_nsq.Receive.{overlay, cleared}

-- `char buf[1024 * 1024]`
abbrev pub buf_size : ℕ
buf_size = 1048576

-- The command as it stands in `buf`; `none` is a write past its end.
abbrev pub in_buf : Bytes → Option Bytes
in_buf frame = if leb (length frame) buf_size then some frame else none

unfoldable pub publish_frame : (topic msg : Bytes) → Option Bytes
publish_frame topic msg =
    in_buf (codes "PUB " ++ (c_string topic ++ (codes "\n" ++ (htonl_bytes (length msg) ++ msg))))

-- `wide` is what `%lld` makes of an `int`.
unfoldable pub deferred_frame : (wide : ℤ → ℤ) (topic msg : Bytes) (defer_time : ℤ) → Option Bytes
deferred_frame wide topic msg defer_time = in_buf (
    codes "DPUB "
    ++ (c_string topic
        ++ (codes " "
            ++ (format_int (wide defer_time)
                ++ (codes "\n" ++ (htonl_bytes (length msg) ++ msg))))))

-- A result of `read`: -1, or the bytes it gives, none of them when the connection is closed.
pub data ReadResult : Type 0 where
  failed : ReadResult
  got : Bytes → ReadResult

-- How `publish` ends: it returns the socket, -1, or -1 with the exception of a lost connection; or
-- there is an access outside an allocation or a refused allocation; or it still waits when the
-- results are used up.
pub data Outcome : Type 0 where
  accepted : Outcome
  refused : Outcome
  lost : Outcome
  crashed : Outcome
  waiting : Outcome

-- Where it stands: at `again_read`, or at `again` with `size`, `l` and the buffer.
pub data Phase : Type 0 where
  at_size : Phase
  at_body : (size l : ℕ) → Mem → Phase

-- The allocations made, and what was sent behind the command.
pub record Client : Type 0 where
  pub allocs : ℕ
  pub sent : List Bytes

pub data Step : Type 0 where
  next : Phase → Client → Step
  done : Outcome → Client → Step

-- `strcmp(m + i, text) == 0`, which stops at the first difference; `none` is a read behind `room`.
unfoldable pub equals_text : (room : ℕ) → Mem → (i : ℕ) → Bytes → Option Bool
equals_text room m i [] = if ltb i room then some (m i == 0) else none
equals_text room m i (c ∷ text) =
    let rest = equals_text room m (i + 1) text in
    if ltb i room then (if m i == c then rest else some false) else none

-- The tests on the answer. The block of `size + 1` bytes was cleared but for its last.
unfoldable pub answer : (size : ℕ) → Mem → Client → Step
answer size m c = elim (equals_text (size + 1) m 4 (codes "OK")) [
  | none ↦ done crashed c
  | some true ↦ done accepted c
  | some false ↦ elim (equals_text (size + 1) m 4 (codes "_heartbeat_")) [
    | none ↦ done crashed c
    | some true ↦ next at_size (record c { sent = c.sent ++ (codes "NOP\n" ∷ []) })
    | some false ↦ done refused c
  ]
]

-- `if( l < msg_size && l>0) goto again;`. An `l` of -1 is 0 here: both end the reading.
abbrev pub behind_read : (size l : ℕ) → Mem → Client → Step
behind_read size l m c =
    if ltb l size && ltb 0 l then next (at_body size l m) c else answer size m c

-- `fresh k` is what the `k`th allocation holds.
module _ (fresh : ℕ → Mem) where
  -- `size = read(sock, msg_size_char, 4)` and what follows it. A size of 2^31 - 1 or a negative one
  -- makes `msg_size + 1` no allocation.
  unfoldable pub read_answer_size : Client → ReadResult → Step
  read_answer_size c failed = next at_size c
  read_answer_size c (got bytes) =
      let size = read_i32 (mem_of bytes) in
      if length bytes == 0
      then done lost c
      else if ltb 4 (length bytes)
      then done crashed c
      else if leb (2 ^ 31 - 1) size
      then done crashed c
      else next (at_body size 0 (cleared (fresh c.allocs) size))
          (record c { allocs = c.allocs + 1 })

  -- `l += read(sock, message +l , msg_size)`: the count asked for does not shrink with `l`.
  unfoldable pub read_answer_body : (size l : ℕ) → Mem → Client → ReadResult → Step
  read_answer_body size l m c failed = behind_read size (l - 1) m c
  read_answer_body size l m c (got bytes) =
      if not (length bytes == 0) && ltb (size + 1) (l + length bytes)
      then done crashed c
      else behind_read size (l + length bytes) (overlay m l bytes) c

  unfoldable pub read_result : Phase → Client → ReadResult → Step
  read_result at_size c r = read_answer_size c r
  read_result (at_body size l m) c r = read_answer_body size l m c r

  -- The wait for the answer, with the results that are not used.
  unfoldable pub await : Phase → Client → List ReadResult → Outcome × Client × List ReadResult
  await p c [] = (waiting, c, [])
  await p c (r ∷ rs) = elim (read_result p c r) [
    | next p' c' ↦ await p' c' rs
    | done o c' ↦ (o, c', rs)
  ]

  -- The wait behind a command that is sent, with the results of `read` that it does not use.
  abbrev pub await_answer : Bytes → List ReadResult → Outcome × List Bytes × List ReadResult
  await_answer frame rs =
      let (o, c, rest) = await at_size (record { allocs = 0; sent = frame ∷ [] }) rs in
      (o, c.sent, rest)

  -- `send` gives `sent`: 0 ends `publish`, a failure only prints.
  unfoldable pub publish :
      Option Bytes → (sent : ℤ) → List ReadResult → Outcome × List Bytes × List ReadResult
  publish none sent rs = (crashed, [], rs)
  publish (some frame) (pos zero) rs = (lost, frame ∷ [], rs)
  publish (some frame) sent rs = await_answer frame rs

  -- `deferredPublish` does not look at the result of `send`.
  unfoldable pub deferred_publish :
      Option Bytes → List ReadResult → Outcome × List Bytes × List ReadResult
  deferred_publish none rs = (crashed, [], rs)
  deferred_publish (some frame) rs = await_answer frame rs
