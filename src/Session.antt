-- ===== src/Session.antt =====
-- common.c, `send_identify`, and sub.c, `conn_eventcb`: how a worker's connection starts and what
-- happens at each of its events. The configuration in JSON comes from the encoder of PHP, the
-- results of `read` from the kernel, in order.
pub mod Identify
pub mod Wait
pub mod Event
pub mod Sample
mod Tests
use php_nsq.Prelude.{
  ℕ, zero, suc, ◌+◌, ◌-◌, ◌^◌, Bool, true, false, not, ◌&&◌, Option, none, some, Bytes, List, [],
  ◌∷◌, ◌++◌, length, codes, ltb, leb, ◌==◌, if◌then◌else◌,
}
use php_nsq.Wire.{ℤ, pos, negsuc, read_i32, htonl_bytes}
use php_nsq.Wire.BigEndian.{mem_of}
use php_nsq.Command.{Output, nsq_subscribe, nsq_ready}
use php_nsq.Publish.{ReadResult, failed, got}

-- `emalloc(256)`
abbrev pub identify_size : ℕ
identify_size = 256

-- The command with the NUL that `sprintf` writes behind it, in the block; `none` is a write past it.
-- JSON text holds no NUL, so `%s` prints all of it.
unfoldable pub identify_frame : (json : Bytes) → Option Bytes
identify_frame json =
    let frame = codes "IDENTIFY\n" ++ (htonl_bytes (length json) ++ json) in
    if ltb (length frame) identify_size then some frame else none

-- Where the wait for the answer stands: at `again_size`, or at `again` with `msg_size` and `l`.
pub data Awaited : Type 0 where
  at_size : Awaited
  at_body : (size : ℕ) (l : ℤ) → Awaited

-- The wait goes on, or is over, or there is an access outside the message or a refused allocation.
pub data Step : Type 0 where
  next : Awaited → Step
  answered : Step
  crashed : Step

-- `size = read(sock, msg_size_char, 4); if(size <= 0) goto again_size;`, then the allocation.
unfoldable pub read_identify_size : ReadResult → Step
read_identify_size failed = next at_size
read_identify_size (got bytes) =
    let size = read_i32 (mem_of bytes) in
    if length bytes == 0
    then next at_size
    else if ltb 4 (length bytes)
    then crashed
    else if leb (2 ^ 31 - 1) size
    then crashed
    else next (at_body size (pos 0))

abbrev pub minus_one : ℤ → ℤ
minus_one (pos zero) = negsuc 0
minus_one (pos (suc n)) = pos n
minus_one (negsuc n) = negsuc (suc n)

-- `if( l < msg_size ) goto again;`
unfoldable pub behind : (size : ℕ) (l : ℤ) → Step
behind size (pos l) = if ltb l size then next (at_body size (pos l)) else answered
behind size (negsuc n) = next (at_body size (negsuc n))

-- `l += read(sock, message +l , msg_size)`, with an `l` that may be negative; the message has
-- `msg_size + 1` bytes.
unfoldable pub read_identify_body : (size : ℕ) (l : ℤ) → ReadResult → Step
read_identify_body size l failed = behind size (minus_one l)
read_identify_body size (pos l) (got bytes) =
    if not (length bytes == 0) && ltb (size + 1) (l + length bytes)
    then crashed
    else behind size (pos (l + length bytes))
read_identify_body size (negsuc n) (got bytes) =
    if length bytes == 0 then behind size (negsuc n) else crashed

unfoldable pub read_identify : Awaited → ReadResult → Step
read_identify at_size r = read_identify_size r
read_identify (at_body size l) r = read_identify_body size l r

-- How the wait ends: with the results that are not used, or not yet, or in a fault.
pub data Waited : Type 0 where
  over : List ReadResult → Waited
  waiting : Awaited → Waited
  fault : Waited

unfoldable pub await_identify : Awaited → List ReadResult → Waited
await_identify w [] = waiting w
await_identify w (r ∷ rs) = elim (read_identify w r) [
  | next w' ↦ await_identify w' rs
  | answered ↦ over rs
  | crashed ↦ fault
]

-- What `conn_eventcb` does.
pub data Action : Type 0 where
  write_bytes : Bytes → Action
  command : Output → Action
  sleep : Action
  resubscribe : Action
  free_bufferevent : Action

-- It returns, or it still waits for the answer to IDENTIFY when the results are used up, or there is
-- a memory fault.
pub data Setup : Type 0 where
  does : List Action → Setup
  waits : Setup
  faults : Setup

-- Without a configuration nothing is sent.
unfoldable pub send_identify : Option Bytes → List ReadResult → Setup
send_identify none reads = does []
send_identify (some json) reads = elim (identify_frame json) [
  | none ↦ faults
  | some frame ↦ elim (await_identify at_size reads) [
    | over unread ↦ does (write_bytes frame ∷ [])
    | waiting w ↦ waits
    | fault ↦ faults
  ]
]

-- What is done behind a part that returns; `none` is a fault.
abbrev pub then_do : Setup → Option (List Action) → Setup
then_do (does before) none = faults
then_do (does before) (some behind) = does (before ++ behind)
then_do waits behind = waits
then_do faults behind = faults

-- `nsq_subscribe` and `nsq_ready`
unfoldable pub subscribe_lines : (topic channel : Bytes) (rdy : ℤ) → Option (List Action)
subscribe_lines topic channel rdy = elim (nsq_subscribe topic channel) [
  | none ↦ none
  | some sub ↦ elim (nsq_ready rdy) [
    | none ↦ none
    | some ready ↦ some (command sub ∷ command ready ∷ [])
  ]
]

abbrev pub greeted : Setup → Setup
greeted (does actions) = does (write_bytes (codes "  V2") ∷ actions)
greeted waits = waits
greeted faults = faults

-- The branch of BEV_EVENT_CONNECTED, which returns before the last `bufferevent_free`.
unfoldable pub connected :
    (config : Option Bytes) → List ReadResult → (topic channel : Bytes) (rdy : ℤ) → Setup
connected config reads topic channel rdy =
    then_do (greeted (send_identify config reads)) (subscribe_lines topic channel rdy)

-- The three tests are on the bits of `events`, in this order.
unfoldable pub conn_eventcb :
    (eof error is_connected : Bool) (config : Option Bytes)
    → List ReadResult
    → (topic channel : Bytes) (rdy : ℤ) → Setup
conn_eventcb eof error is_connected config reads topic channel rdy =
    if eof
    then does (resubscribe ∷ free_bufferevent ∷ [])
    else if error
    then does (sleep ∷ free_bufferevent ∷ resubscribe ∷ free_bufferevent ∷ [])
    else if is_connected
    then connected config reads topic channel rdy
    else does (free_bufferevent ∷ [])
