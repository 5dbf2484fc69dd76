-- ===== src/Nsq/Reach.antt =====
-- The descriptors of an object, whatever methods are called on it.
use php_nsq.Prelude.{
  ℕ, zero, suc, ◌%◌, ◌<◌, ◌≡◌, refl, ap, ◌∙◌, Bool, true, Option, none, some, Bytes, List, [], ◌∷◌,
  ◌++◌, All, codes, length, get_elem?, ltb, if◌then◌else◌, Bool-cases, inl, inr, arith,
}
use mathlib.Core.Path.{subst}
use php_nsq.Wire.{Mem, ℤ, pos}
use php_nsq.Print.{int_of_long}
use php_nsq.Publish.{
  ReadResult, Outcome, accepted, publish, publish_frame, deferred_publish, deferred_frame,
}
use php_nsq.Publish.Await.{IsSplit}
use php_nsq.Publish.Answer.{
  response_payload, frame_reads, Wait, IsWait, reads, nops_for, publish-ok,
}
use php_nsq.Connection.{
  Address, Network, Action, Fds, Ended, IfReturns, returns, exits, unfinished, faulted, stored,
  is_positive, all_positive, connect_nsqd, conf_timeout, no_timeout, connect_all, reversed,
}
use php_nsq.Nsq.{
  finished, on_chosen, Object, Called, construct, parsed_all, called_with, connect_to,
  connect_method, close_fds, close_method, chosen, returned, publish_method, deferred_method,
}

-- The methods that change an object, where they return.
pub data Call (o : Object) : Object → Type 0 where
  constructs : (config : Option Bytes) → Call o (construct config o)
  connects :
      (room : ℕ → ℕ) (explode : Bytes → List Bytes) (net : Network) (texts : List Bytes)
      {c : Called}
      → connect_method room explode net texts o ≡ returns c
      → Call o c.object
  closes : (close : ℕ → Bool) {c : Called} → close_method close o ≡ some c → Call o c.object

pub data Calls (o : Object) : Object → Type 0 where
  none_yet : Calls o o
  then_one : {p q : Object} → Calls o p → Call p q → Calls o q

-- A new object: no property is set but perhaps the timeout.
abbrev pub fresh_object : Option ℤ → Object
fresh_object timeout = record { nsq_config = none; connection_fds = none; conn_timeout = timeout }

-- The descriptors are null or positive.
abbrev pub IsOpen : Fds → Type 0
IsOpen none = Unit
IsOpen (some fds) = all_positive fds ≡ true

-- What a result satisfies, if there is one.
abbrev IfSome : {A : Type 0} → (A → Type 0) → Option A → Type 0
IfSome P none = Unit
IfSome P (some a) = P a

IsOpen-kept : (fds : List ℤ) → IsOpen (if all_positive fds then some fds else none)
IsOpen-kept fds = elim (Bool-cases (all_positive fds)) [
  | inl all ↦ rw all all
  | inr not_all ↦ rw not_all tt
]

stored-IsOpen :
    (d : Ended (List ℤ × List (List Action)))
    → IfReturns (λ (d : List ℤ × Fds × List (List Action)). IsOpen d.1) (stored d)
stored-IsOpen (returns (fds, actions)) = IsOpen-kept fds
stored-IsOpen exits = tt
stored-IsOpen unfinished = tt
stored-IsOpen faulted = tt

connect_nsqd-IsOpen :
    (net : Network) (config : Option Bytes) (timeout : Option ℤ) (addresses : List Address)
    (fds : Fds)
    → IsOpen fds
    → IfReturns
        (λ (d : List ℤ × Fds × List (List Action)). IsOpen d.1)
        (connect_nsqd net config timeout addresses fds)
unfolding connect_nsqd
connect_nsqd-IsOpen net config timeout addresses (some fds) h =
    elim (Bool-cases (ltb (length addresses) (length fds))) [
      | inl over ↦ rw over tt
      | inr fits ↦ rw fits h
    ]
connect_nsqd-IsOpen net config timeout addresses none h =
    stored-IsOpen (connect_all net config 0 (reversed addresses) (conf_timeout timeout no_timeout))

connected-IsOpen :
    (o : Object) (n : ℕ) (d : Ended (List ℤ × Fds × List (List Action)))
    → IfReturns (λ d. IsOpen d.1) d
    → IfReturns (λ (c : Called). IsOpen c.object.connection_fds) (called_with o n d)
connected-IsOpen o n (returns (fds, property, actions)) h = elim (Bool-cases (ltb (length fds) n)) [
  | inl unset ↦ rw unset tt
  | inr all_set ↦ rw all_set h
]
connected-IsOpen o n exits h = tt
connected-IsOpen o n unfinished h = tt
connected-IsOpen o n faulted h = tt

connect_method-IsOpen :
    (room : ℕ → ℕ) (explode : Bytes → List Bytes) (net : Network) (texts : List Bytes) (o : Object)
    → IsOpen o.connection_fds
    → IfReturns
        (λ (c : Called). IsOpen c.object.connection_fds)
        (connect_method room explode net texts o)
unfolding connect_method
connect_method-IsOpen room explode net texts o h = by_addresses (parsed_all room explode texts)
  where
    by_addresses :
        (addresses : Option (List Address))
        → IfReturns (λ (c : Called). IsOpen c.object.connection_fds) (connect_to net o addresses)
    by_addresses none = tt
    by_addresses (some addresses) =
        connected-IsOpen o (length addresses)
          (connect_nsqd net o.nsq_config o.conn_timeout addresses o.connection_fds)
          (connect_nsqd-IsOpen net o.nsq_config o.conn_timeout addresses o.connection_fds h)

close_fds-IsOpen :
    (close : ℕ → Bool) (o : Object) (fds : Fds)
    → IfSome (λ (c : Called). IsOpen c.object.connection_fds) (close_fds close o fds)
close_fds-IsOpen close o none = tt
close_fds-IsOpen close o (some fds) = tt

Call-IsOpen : {o p : Object} → Call o p → IsOpen o.connection_fds → IsOpen p.connection_fds
unfolding construct close_method
Call-IsOpen {o} (constructs none) h = h
Call-IsOpen {o} (constructs (some config)) h = h
Call-IsOpen {o} (connects room explode net texts e) h =
    subst (IfReturns (λ (c : Called). IsOpen c.object.connection_fds)) e
      (connect_method-IsOpen room explode net texts o h)
Call-IsOpen {o} (closes close e) h =
    subst (IfSome (λ (c : Called). IsOpen c.object.connection_fds)) e
      (close_fds-IsOpen close o o.connection_fds)

-- Whatever methods that change it are called on an object whose descriptors are null or all of them
-- positive, in any order, they stay so.
Calls-IsOpen : {o p : Object} → Calls o p → IsOpen o.connection_fds → IsOpen p.connection_fds
Calls-IsOpen none_yet h = h
Calls-IsOpen (then_one before c) h = Call-IsOpen c (Calls-IsOpen before h)

get_elem?-positive :
    (fds : List ℤ) (i : ℕ)
    → i < length fds
    → all_positive fds ≡ true
    → (fd : ℤ) × (get_elem? fds i ≡ some fd) × (is_positive fd ≡ true)
get_elem?-positive [] i small h = absurd (omega arith)
get_elem?-positive (fd ∷ fds) zero small h = (fd, refl, ground arith)
get_elem?-positive (fd ∷ fds) (suc i) small h =
    get_elem?-positive fds i (omega arith) (ground arith)

chosen-positive :
    (rand : ℕ) (fds : Fds) (fd : ℤ) (rest : List ℤ)
    → fds ≡ some (fd ∷ rest)
    → IsOpen fds
    → (sock : ℤ) × (chosen rand fds ≡ some sock) × (is_positive sock ≡ true)
unfolding chosen
chosen-positive rand fds fd rest e h =
    let h' : all_positive (fd ∷ rest) ≡ true = subst IsOpen e h in
    let (sock, found, positive) =
      get_elem?-positive (fd ∷ rest) (rand % length (fd ∷ rest)) (omega arith) h' in
    (sock, ap (chosen rand) e ∙ found, positive)

on_chosen-true :
    {c : Option ℤ} {sock : ℤ} {lines : List Bytes} {left : List ReadResult}
    (send : ℤ → Outcome × List Bytes × List ReadResult)
    → c ≡ some sock
    → send sock ≡ (accepted, lines, left)
    → is_positive sock ≡ true
    → on_chosen c send ≡ some (true, sock, lines)
unfolding returned
on_chosen-true {sock = sock} send found ok positive =
    ap (λ c. on_chosen c send) found ∙ ap (finished sock) ok ∙ rw (positive)

-- Whatever methods have been called on a new object, where it has a connection and the server sends
-- heartbeats and then OK, in pieces or not, on each, the methods publish and deferredPublish choose one
-- of positive descriptor, whatever `rand` gives, return true, and send the command and one NOP for each
-- heartbeat. The bytes behind the texts of the answer, which are not cleared, must happen to be 0.
pub publish_method-true :
    {timeout : Option ℤ} {o : Object} (rand : ℕ) (fresh : ℕ → Mem) (k : ℕ) (ws : ℤ → List Wait)
    (xs : ℤ → List Bytes) (rs : ℤ → List ReadResult) (topic msg frame deferred : Bytes)
    (wide : ℤ → ℤ) (delay_time : ℤ) (fd : ℤ) (rest : List ℤ)
    → Calls (fresh_object timeout) o
    → o.connection_fds ≡ some (fd ∷ rest)
    → ((n : ℕ) → fresh n 15 ≡ 0)
    → ((n : ℕ) → fresh n 6 ≡ 0)
    → ((sock : ℤ) → All IsWait (ws sock) × IsSplit (xs sock) (response_payload (codes "OK")))
    → publish_frame topic msg ≡ some frame
    → deferred_frame wide topic msg (int_of_long delay_time) ≡ some deferred
    → let answers : ℤ → List ReadResult = λ sock.
      reads (ws sock) ++ (frame_reads (response_payload (codes "OK")) (xs sock) ++ rs sock) in
      (sock : ℤ) × (is_positive sock ≡ true)
      × (publish_method rand fresh (λ s. pos (suc k)) answers topic msg o
          ≡ some (true, sock, frame ∷ nops_for (ws sock)))
      × (deferred_method rand fresh answers wide topic msg delay_time o
          ≡ some (true, sock, deferred ∷ nops_for (ws sock)))
unfolding publish_method deferred_method
publish_method-true {o = o} rand fresh k ws xs rs topic msg frame deferred wide delay_time fd rest
      calls e clear clear' answered built built' =
    let (sock, found, positive) =
      chosen-positive rand o.connection_fds fd rest e (Calls-IsOpen calls tt) in
    let (waits, split) = answered sock in
    let ok =
      ap (λ (f : Option Bytes). publish fresh f (pos (suc k)) (answers sock)) built
      ∙ (publish-ok fresh frame k (ws sock) (xs sock) (rs sock) clear clear' waits split).0 in
    let ok' =
      ap (λ (f : Option Bytes). deferred_publish fresh f (answers sock)) built'
      ∙ (publish-ok fresh deferred k (ws sock) (xs sock) (rs sock) clear clear' waits split).1 in
    (
      sock,
      positive,
      on_chosen-true (λ s. publish fresh (publish_frame topic msg) (pos (suc k)) (answers s)) found
          ok positive,
      on_chosen-true
          (λ s.
            deferred_publish fresh (deferred_frame wide topic msg (int_of_long delay_time))
              (answers s))
          found ok' positive,
    )
  where
    answers : ℤ → List ReadResult
    answers sock =
        reads (ws sock) ++ (frame_reads (response_payload (codes "OK")) (xs sock) ++ rs sock)
