-- ===== src/Nsq.antt =====
-- nsq.c, the methods of the class Nsq that publish: connectNsqd, closeNsqdConnection, publish and
-- deferredPublish, on the properties of the object. What PHP's `explode`, its allocator and `rand`
-- do is a parameter.
pub mod Parse
pub mod Reach
pub mod Round
mod Tests
use mathlib.Core.Option
use php_nsq.Prelude.{
  ℕ, zero, suc, ◌+◌, ◌%◌, Bool, true, false, not, Option, none, some, Bytes, List, [], ◌∷◌, ◌++◌,
  length, get_elem?, ltb, ◌==◌, if◌then◌else◌,
}
use php_nsq.Wire.{Mem, ℤ, pos, negsuc}
use php_nsq.Print.{c_string, int_of_long}
use php_nsq.Exception.{ErrorCode, no_connection}
use php_nsq.Publish.{
  ReadResult, Outcome, accepted, refused, lost, crashed, waiting, publish_frame, deferred_frame,
  publish, deferred_publish,
}
use php_nsq.Connection.{
  Address, Network, Action, Fds, Ended, returns, exits, unfinished, faulted, is_positive,
  all_positive, connect_nsqd,
}

-- The declared properties of an object, the configuration as PHP's encoder prints it in JSON.
-- `conn_timeout` is none where it is not an integer.
pub record Object : Type 0 where
  pub nsq_config : Option Bytes
  pub connection_fds : Fds
  pub conn_timeout : Option ℤ

-- `__construct`: an argument becomes the configuration.
unfoldable pub construct : Option Bytes → Object → Object
construct none o = o
construct (some config) o = record o { nsq_config = some config }

-- `room n` is how many bytes `emalloc(n)` gives. `none` is a write behind them: `strcpy` writes the NUL
-- too.
unfoldable pub copied : (room : ℕ → ℕ) → Bytes → Option Bytes
copied room s = if ltb (room (length s)) (length (c_string s) + 1) then none else some (c_string s)

-- One round over the addresses; without a second part the port is read from the null pointer.
unfoldable pub parsed : (room : ℕ → ℕ) → (explode : Bytes → List Bytes) → Bytes → Option Address
parsed room explode text = elim (explode text) [
  | [] ↦ none
  | ◌∷◌ host rest ↦ elim rest [
    | [] ↦ none
    | ◌∷◌ port more ↦ elim (copied room host) [
      | none ↦ none
      | some h ↦ elim (copied room port) [
        | none ↦ none
        | some p ↦ some (record { host = h; port = p })
      ]
    ]
  ]
]

unfoldable pub parsed_all :
    (room : ℕ → ℕ) → (explode : Bytes → List Bytes) → List Bytes → Option (List Address)
parsed_all room explode [] = some []
parsed_all room explode (text ∷ texts) = elim (parsed room explode text) [
  | none ↦ none
  | some a ↦ elim (parsed_all room explode texts) [ none ↦ none | some rest ↦ some (a ∷ rest) ]
]

-- What a method returns and throws, the object behind it, and what was done with sockets.
pub record Called : Type 0 where
  pub result : Bool
  pub thrown : Option ErrorCode
  pub object : Object
  pub actions : List (List Action)
  pub closed : List ℕ

-- `sock_arr[i] > 0` for each of `count` addresses; to read an element that nobody has set is a fault.
abbrev pub called_with :
    Object → (count : ℕ) → Ended (List ℤ × Fds × List (List Action)) → Ended Called
called_with o count (returns (fds, property, actions)) =
    if ltb (length fds) count
    then faulted
    else returns (record {
      result = all_positive fds;
      thrown = none;
      object = record o { connection_fds = property };
      actions = actions;
      closed = [];
    })
called_with o count exits = exits
called_with o count unfinished = unfinished
called_with o count faulted = faulted

abbrev pub connect_to : Network → Object → Option (List Address) → Ended Called
connect_to net o none = faulted
connect_to net o (some addresses) =
    called_with o (length addresses)
      (connect_nsqd net o.nsq_config o.conn_timeout addresses o.connection_fds)

unfoldable pub connect_method :
    (room : ℕ → ℕ) → (explode : Bytes → List Bytes) → Network → List Bytes → Object → Ended Called
connect_method room explode net texts o = connect_to net o (parsed_all room explode texts)

-- The loop over the descriptors, with `close_success`.
unfoldable pub close_all : (close : ℕ → Bool) → List ℤ → Bool × List ℕ
close_all close [] = (true, [])
close_all close (pos zero ∷ fds) = close_all close fds
close_all close (pos (suc n) ∷ fds) =
    let (success, closed) = close_all close fds in
    (if close (suc n) then success else false, suc n ∷ closed)
close_all close (negsuc n ∷ fds) = close_all close fds

-- The property becomes null; `none` counts the elements of null.
abbrev pub close_fds : (close : ℕ → Bool) → Object → Fds → Option Called
close_fds close o none = none
close_fds close o (some fds) = some (record {
  result = (close_all close fds).0;
  thrown = if length fds == 0 then some no_connection else none;
  object = record o { connection_fds = none };
  actions = [];
  closed = (close_all close fds).1;
})

unfoldable pub close_method : (close : ℕ → Bool) → Object → Option Called
close_method close o = close_fds close o o.connection_fds

-- The connection that `rand() % count` chooses. `none` counts the elements of null, or divides by 0
-- behind the exception for no connection, which does not return.
unfoldable pub chosen : (rand : ℕ) → Fds → Option ℤ
chosen rand none = none
chosen rand (some []) = none
chosen rand (some (fd ∷ fds)) = get_elem? (fd ∷ fds) (rand % length (fd ∷ fds))

-- `re > 0`, where `publish` returns the socket or -1; `none` is a fault, or a wait that is not over.
unfoldable pub returned : (sock : ℤ) → Outcome → Option Bool
returned sock accepted = some (is_positive sock)
returned sock refused = some false
returned sock lost = some false
returned sock crashed = none
returned sock waiting = none

abbrev pub finished :
    (sock : ℤ) → Outcome × List Bytes × List ReadResult → Option (Bool × ℤ × List Bytes)
finished sock (outcome, lines, rest) = elim (returned sock outcome) [
  | none ↦ none
  | some result ↦ some (result, sock, lines)
]

abbrev pub on_chosen :
    Option ℤ → (ℤ → Outcome × List Bytes × List ReadResult) → Option (Bool × ℤ × List Bytes)
on_chosen none send = none
on_chosen (some sock) send = finished sock (send sock)

-- `fresh` is what the allocations of `publish` hold, `sent` and the list are what `send` and `read`
-- give for the socket that is chosen: the result, and the socket with the bytes sent on it.
unfoldable pub publish_method :
    (rand : ℕ)
    → (fresh : ℕ → Mem) → (sent : ℤ → ℤ) → (reads : ℤ → List ReadResult) → (topic msg : Bytes)
    → Object
    → Option (Bool × ℤ × List Bytes)
publish_method rand fresh sent reads topic msg o =
    on_chosen (chosen rand o.connection_fds)
      (λ sock. publish fresh (publish_frame topic msg) (sent sock) (reads sock))

-- The delay is an `int` for `deferredPublish` and a `zend_long` here.
unfoldable pub deferred_method :
    (rand : ℕ)
    → (fresh : ℕ → Mem) → (reads : ℤ → List ReadResult) → (wide : ℤ → ℤ) → (topic msg : Bytes)
    → (delay_time : ℤ) → Object
    → Option (Bool × ℤ × List Bytes)
deferred_method rand fresh reads wide topic msg delay_time o =
    on_chosen (chosen rand o.connection_fds) (λ sock.
      deferred_publish fresh (deferred_frame wide topic msg (int_of_long delay_time)) (reads sock))
