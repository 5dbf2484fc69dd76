-- ===== src/Life.antt =====
-- sub.c, `conn_eventcb` and the `subscribe` that it calls: a worker across its connections. Each
-- `subscribe` runs an event loop inside the callback of the one before, and the variables of `readcb`
-- and the queue are those of the process. That the kernel's polling fails, which alone would end an event
-- loop, is not among what happens here.
pub mod Depth
pub mod Failed
pub mod Greeting
pub mod Reopened
mod Tests
use php_nsq.Prelude.{
  ℕ, Bool, true, false, Option, none, some, Bytes, List, [], ◌∷◌, ◌++◌, if◌then◌else◌,
}
use php_nsq.Exception.{ErrorCode, libevent_could_not_be_initialized, connection_failed}
use php_nsq.Command.{Output, direct}
use php_nsq.Publish.{ReadResult}
use php_nsq.Receive.{Host}
use php_nsq.Receive.Backing.{Malloc}
use php_nsq.Session.{
  Action, write_bytes, command, sleep, resubscribe, free_bufferevent, Setup, does, waits, faults,
  conn_eventcb,
}
use php_nsq.Loop.{Socket, Event, Settings, Loop, step, reconnected, System, has_address}

-- What conn_eventcb and `subscribe` read of `NSQArg` and of the object.
pub record Who : Type 0 where
  pub config : Option Bytes
  pub topic : Bytes
  pub channel : Bytes
  pub name : Bytes

-- What the innermost event loop calls: a callback of `Loop`, or `conn_eventcb` with one of its events.
-- `made` has the results of `read` in `send_identify`.
pub data Happening : Type 0 where
  event : Event → Happening
  made : List ReadResult → Happening
  closed : Happening
  broken : Happening
  other : Happening

module _ (S : Socket) (A : Malloc) (host : Host) (settings : Settings) (who : Who) where
  -- With what a call of `subscribe` would meet then: the system, and the input of a new bufferevent.
  pub record Moment : Type 0 where
    pub what : Happening
    pub system : System
    pub input : S.input.Buf

  -- `pending` is what the callbacks that have called `subscribe` have still to do, the innermost first,
  -- each with whether it has freed its bufferevent; `freed` says that of the innermost connection.
  -- `past` is what was written on the earlier connections.
  pub record Life : Type 0 where
    pub loop : Loop S A host settings
    pub past : List (List Output)
    pub pending : List (List Action × Bool)
    pub freed : Bool
    pub thrown : List ErrorCode

  -- `stranded`: the innermost event loop has a timer, but no bufferevent that lives. `exited` is
  -- `exit(1)`, `stuck` a wait of `send_identify` that is not over.
  pub data Now : Type 0 where
    alive : Life → Now
    stranded : Life → Now
    exited : Now
    stuck : Now
    faulted : Now

  abbrev pub wrote : Life → Output → Life
  wrote l o = record l { loop = record l.loop { out = l.loop.out ++ (o ∷ []) } }

  -- The event loop of a nested `subscribe`, on a new connection.
  abbrev pub entered : S.input.Buf → List Action → Life → Life
  entered b rest l = record l {
    loop = record (reconnected S A host settings l.loop b) { out = [] };
    past = l.past ++ (l.loop.out ∷ []);
    pending = (rest, l.freed) ∷ l.pending;
    freed = false;
  }

  -- The actions of `conn_eventcb`. A `subscribe` that runs its event loop has not returned; one that
  -- throws has.
  unfoldable pub perform : System → S.input.Buf → List Action → Life → Now
  perform sys b [] l = if l.freed then stranded l else alive l
  perform sys b (write_bytes x ∷ rest) l = perform sys b rest (wrote l (direct x))
  perform sys b (command o ∷ rest) l = perform sys b rest (wrote l o)
  perform sys b (sleep ∷ rest) l = perform sys b rest l
  perform sys b (free_bufferevent ∷ rest) l =
      let freed = perform sys b rest (record l { freed = true }) in
      if l.freed then faulted else freed
  perform sys b (resubscribe ∷ rest) l =
      let failed = perform sys b rest (record l {
        thrown =
            l.thrown
            ++ ((if sys.base_new then connection_failed else libevent_could_not_be_initialized)
                ∷ []);
      }) in
      if has_address sys who.name
      then (if sys.base_new
          then (if sys.connects then alive (entered b rest l) else failed)
          else failed)
      else exited

  abbrev pub act : System → S.input.Buf → Setup → Life → Now
  act sys b (does actions) l = perform sys b actions l
  act sys b waits l = stuck
  act sys b faults l = faulted

  abbrev pub called_back : (eof error is_connected : Bool) → List ReadResult → Setup
  called_back eof error is_connected reads =
      conn_eventcb eof error is_connected who.config reads who.topic who.channel settings.rdy

  abbrev pub moved : Life → Option (Loop S A host settings) → Now
  moved l none = faulted
  moved l (some r) = alive (record l { loop = r })

  abbrev pub by_happening : System → S.input.Buf → Happening → Life → Now
  by_happening sys b (event e) l = moved l (step S A host settings e l.loop)
  by_happening sys b (made reads) l = act sys b (called_back false false true reads) l
  by_happening sys b closed l = act sys b (called_back true false false []) l
  by_happening sys b broken l = act sys b (called_back false true false []) l
  by_happening sys b other l = act sys b (called_back false false false []) l

  unfoldable pub happens : Moment → Life → Now
  happens m l = by_happening m.system m.input m.what l

  -- A sequence of them, as long as the worker is alive.
  unfoldable pub live : List Moment → Life → Now
  live [] l = alive l
  live (m ∷ ms) l = elim (happens m l) [
    | alive l' ↦ live ms l'
    | stranded l' ↦ stranded l'
    | exited ↦ exited
    | stuck ↦ stuck
    | faulted ↦ faulted
  ]
