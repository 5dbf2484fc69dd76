-- ===== src/Connection.antt =====
-- pub.c, `nsq_conf_timeout` and `connect_nsqd`: the connections to the nsqd servers, each greeted with
-- `send_identify`. What the kernel and the resolver answer is a parameter.
pub mod Timeout
pub mod Opened
mod Tests
use php_nsq.Prelude.{
  ℕ, zero, suc, ◌+◌, ◌-◌, ◌*◌, ◌/◌, ◌%◌, ◌≤◌, Bool, true, false, not, ◌&&◌, Option, none, some,
  Bytes, List, [], ◌∷◌, ◌++◌, map, length, get_elem?, ltb, ◌==◌, if◌then◌else◌,
}
use php_nsq.Wire.{ℤ, pos, negsuc, check_ipaddr}
use php_nsq.Publish.{ReadResult}
use php_nsq.Session.{Setup, does, waits, faults, send_identify}
use php_nsq.Session as Session

-- `struct timeval`
pub record Timeval : Type 0 where
  pub tv_sec : ℕ
  pub tv_usec : ℕ

abbrev pub no_timeout : Timeval
no_timeout = record { tv_sec = 0; tv_usec = 0 }

-- `conn_timeout` is the property of that name where it is an integer. The value cleared by the caller
-- stays where the property is none or negative.
unfoldable pub conf_timeout : (conn_timeout : Option ℤ) → Timeval → Timeval
conf_timeout none t = t
conf_timeout (some (negsuc n)) t = t
conf_timeout (some (pos n)) t = record { tv_sec = n / 1000; tv_usec = (n % 1000) * 1000 }

-- The test before both calls of `setsockopt`.
unfoldable pub is_set : Timeval → Bool
is_set t = if ltb 0 t.tv_usec then true else ltb 0 t.tv_sec

pub record Address : Type 0 where
  pub host : Bytes
  pub port : Bytes

-- What a connection attempt does: the timeout for sending, which is set and, behind a successful
-- `connect`, set back to 0; `connect`; the flag O_NONBLOCK, the four bytes "  V2", and what
-- `send_identify` does.
pub data Action : Type 0 where
  set_timeout : Timeval → Action
  connect : Address → Action
  set_nonblocking : Action
  greet : Action
  identify : List Session.Action → Action

-- What the kernel and the resolver answer: the descriptor of the `i`th call of `socket`, -1 being `none`,
-- whether the `i`th `connect` works, and what the reads of the answer to IDENTIFY give behind it.
pub record Network : Type 0 where
  pub pton4 : Bytes → Bool
  pub pton6 : Bytes → Bool
  pub resolves : Bytes → Bool
  pub socket : ℕ → Option ℕ
  pub connects : ℕ → Bool
  pub reads : ℕ → List ReadResult

-- How a call ends: it returns, or the process ends by `exit(1)`, or it still waits for the answer to
-- IDENTIFY when the reads are used up, or there is a memory fault.
pub data Ended (A : Type 0) : Type 0 where
  returns : A → Ended A
  exits : Ended A
  unfinished : Ended A
  faulted : Ended A

-- What a call satisfies, if it returns.
abbrev pub IfReturns : {A : Type 0} → (A → Type 0) → Ended A → Type 0
IfReturns P (returns a) = P a
IfReturns P exits = Unit
IfReturns P unfinished = Unit
IfReturns P faulted = Unit

abbrev pub knows : Network → (host : Bytes) → Bool
knows net host = if check_ipaddr net.pton4 net.pton6 (some host) then true else net.resolves host

-- The end of a round whose connection is made.
abbrev pub identified : ℤ → Timeval → List Action → Setup → Ended (ℤ × Timeval × List Action)
identified fd t before (does sent) = returns (fd, t, before ++ (identify sent ∷ []))
identified fd t before waits = unfinished
identified fd t before faults = faulted

-- A `socket` that fails is only reported.
abbrev pub fd_of : Option ℕ → ℤ
fd_of none = negsuc 0
fd_of (some fd) = pos fd

-- One round of the loop of `connect_nsqd`: what goes into `sock_arr`, the timeout left for the next
-- round, and what was done with the socket. `config` is the property nsqConfig in JSON.
unfoldable pub connect_one :
    Network → (config : Option Bytes) → ℕ → Address → Timeval → Ended (ℤ × Timeval × List Action)
connect_one net config i a t =
    let before = if is_set t then set_timeout t ∷ [] else [] in
    if knows net a.host
    then (if net.connects i
        then identified (fd_of (net.socket i)) (if is_set t then no_timeout else t)
            (before
              ++ (connect a
                  ∷ ((if is_set t then set_timeout no_timeout ∷ [] else [])
                      ++ (set_nonblocking ∷ greet ∷ []))))
            (send_identify config (net.reads i))
        else returns (pos 0, t, before ++ (connect a ∷ [])))
    else exits

-- A round that has returned, in front of the others.
abbrev pub with_round :
    ℤ → List Action → Ended (List ℤ × List (List Action)) → Ended (List ℤ × List (List Action))
with_round fd done (returns (fds, actions)) = returns (fd ∷ fds, done ∷ actions)
with_round fd done exits = exits
with_round fd done unfinished = unfinished
with_round fd done faulted = faulted

-- The loop, over the addresses in the order in which it takes them.
unfoldable pub connect_all :
    Network
    → (config : Option Bytes) → ℕ
    → List Address
    → Timeval
    → Ended (List ℤ × List (List Action))
connect_all net config i [] t = returns ([], [])
connect_all net config i (a ∷ rest) t = elim (connect_one net config i a t) [
  | returns (fd, t', done) ↦ with_round fd done (connect_all net config (i + 1) rest t')
  | exits ↦ exits
  | unfinished ↦ unfinished
  | faulted ↦ faulted
]

abbrev pub is_positive : ℤ → Bool
is_positive (pos n) = ltb 0 n
is_positive (negsuc n) = false

-- `sock_arr[i] > 0` for all of them
abbrev pub all_positive : List ℤ → Bool
all_positive [] = true
all_positive (fd ∷ fds) = if is_positive fd then all_positive fds else false

-- The property `nsqd_connection_fds`, none being null.
abbrev pub Fds : Type 0
Fds = Option (List ℤ)

abbrev pub reversed : List Address → List Address
reversed [] = []
reversed (a ∷ rest) = reversed rest ++ (a ∷ [])

-- The property is set if every descriptor is positive.
abbrev pub stored : Ended (List ℤ × List (List Action)) → Ended (List ℤ × Fds × List (List Action))
stored (returns (fds, actions)) =
    returns (fds, if all_positive fds then some fds else none, actions)
stored exits = exits
stored unfinished = unfinished
stored faulted = faulted

-- Connections that exist are copied to an array of as many elements as there are addresses; a write
-- outside it is a fault. Otherwise the pointer to the addresses, which stands at the last, moves to the
-- first.
unfoldable pub connect_nsqd :
    Network
    → (config : Option Bytes) → Option ℤ
    → List Address
    → Fds
    → Ended (List ℤ × Fds × List (List Action))
connect_nsqd net config conn_timeout addresses (some fds) =
    if ltb (length addresses) (length fds) then faulted else returns (fds, some fds, [])
connect_nsqd net config conn_timeout addresses none =
    stored (connect_all net config 0 (reversed addresses) (conf_timeout conn_timeout no_timeout))
