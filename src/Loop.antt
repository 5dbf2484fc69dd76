-- ===== src/Loop.antt =====
-- sub.c, the event loop that `subscribe` starts: bytes arrive on the connection and `readcb` is
-- called, or the timer runs and `process_message_queue` is called, in any order. The two share the
-- queue and the connection.
pub mod Arrival
pub mod Abstract
pub mod Ticks
pub mod Refinement
pub mod Dispatch
pub mod Progress
pub mod Replies
pub mod Reconnect
pub mod Sample
mod Tests
use php_nsq.Prelude.{
  ℕ, ◌+◌, ◌≡◌, Bytes, List, [], ◌∷◌, ◌++◌, Option, none, some, length, Bool, true, false,
  if◌then◌else◌,
}
use php_nsq.Wire.{ℤ, check_ipaddr}
use php_nsq.Exception.{ErrorCode, libevent_could_not_be_initialized, connection_failed}
use php_nsq.Command.{Output}
use php_nsq.Queue.{Store, cleanup_message_queue}
use php_nsq.Process.{Callback, process_message_queue}
use php_nsq.Receive.{Input, Host, Reader, returned, crashed, still_running, readcb}
use php_nsq.Receive.Backing.{Malloc, linked_queue}

-- The input of a bufferevent to which bytes come from the socket.
pub record Socket : Type 1 where
  pub input : Input
  pub arrive : Bytes → input.Buf → input.Buf
  pub arrive_contents :
      (bs : Bytes) (b : input.Buf) → input.contents (arrive bs b) ≡ input.contents b ++ bs

pub data Event : Type 0 where
  arrives : Bytes → Event
  timer : Event

-- What `subscribe` registers with libevent: the user's function and `msg->rdy`. `spare` is how many
-- rounds more than one for each byte `readcb` is given.
pub record Settings : Type 0 where
  pub callback : Callback
  pub rdy : ℤ
  pub spare : ℕ

module _ (S : Socket) (A : Malloc) (host : Host) (settings : Settings) where
  abbrev pub Loop : Type 0
  Loop = Reader S.input (linked_queue A) host

  abbrev pub fed : Loop → Bytes → Loop
  fed r bs = record r { input = S.arrive bs r.input }

  -- The allocator sees what the frees of a tick have given back.
  abbrev pub ticked : Loop → Store × List Output → Loop
  ticked r (s, os) = record r { queue = (s, A.reclaim r.queue.1 s.heap); out = r.out ++ os }

  -- A new connection, whose bufferevent has the input `b`. The variables of `readcb` are static, and
  -- the queue is that of the process: nothing else changes.
  abbrev pub reconnected : Loop → S.input.Buf → Loop
  reconnected r b = record r { input = b }

  -- One event; `none` is a memory fault, or a `readcb` that still runs when its rounds are used up.
  unfoldable pub step : Event → Loop → Option Loop
  step (arrives bs) r =
      elim (readcb S.input (linked_queue A) host (length bs + settings.spare) (fed r bs)) [
        | returned r' ↦ some r'
        | crashed ↦ none
        | still_running ↦ none
      ]
  step timer r = elim (process_message_queue settings.callback settings.rdy r.queue.0) [
    | none ↦ none
    | some done ↦ some (ticked r done)
  ]

  unfoldable pub run : List Event → Loop → Option Loop
  run [] r = some r
  run (e ∷ es) r = elim (step e r) [ none ↦ none | some r' ↦ run es r' ]

-- What `inet_pton`, `gethostbyname`, `event_base_new` and `bufferevent_socket_connect` answer, and whether
-- `event_base_dispatch` returns -1 behind the events, as it does where the kernel's polling fails. It
-- returns in no other way: the timer is persistent, so that there always is an event to wait for, and no
-- callback ends the loop.
pub record System : Type 0 where
  pub pton4 : Bytes → Bool
  pub pton6 : Bytes → Bool
  pub resolves : Bytes → Bool
  pub base_new : Bool
  pub connects : Bool
  pub polling_fails : Bool

-- Where `subscribe` stands behind the events: `exits` is `exit(1)`; `serving` is inside the event loop,
-- which goes on, with the queue; `cleaned` has returned 1, with the queue behind `cleanup_message_queue`.
pub data Ending : Type 0 where
  exits : Ending
  thrown : ErrorCode → Ending
  faulted : Ending
  serving : Store → Ending
  cleaned : Store → Ending

abbrev pub has_address : System → (name : Bytes) → Bool
has_address sys name =
    if check_ipaddr sys.pton4 sys.pton6 (some name) then true else sys.resolves name

abbrev pub cleaned_up : Option Store → Ending
cleaned_up none = faulted
cleaned_up (some s) = cleaned s

module _ (S : Socket) (A : Malloc) (host : Host) (settings : Settings) where
  abbrev pub dispatched : (polling_fails : Bool) → Option (Loop S A host settings) → Ending
  dispatched polling_fails none = faulted
  dispatched polling_fails (some r) =
      if polling_fails then cleaned_up (cleanup_message_queue r.queue.0) else serving r.queue.0

  -- `subscribe`, up to what is behind `events`. The queue stands in memory before and behind it.
  unfoldable pub subscribe : System → (name : Bytes) → List Event → Loop S A host settings → Ending
  subscribe sys name events r =
      if has_address sys name
      then (if sys.base_new
          then (if sys.connects
              then dispatched sys.polling_fails (run S A host settings events r)
              else thrown connection_failed)
          else thrown libevent_could_not_be_initialized)
      else exits
