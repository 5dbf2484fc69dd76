-- ===== src/Connection/Opened.antt =====
-- Which connections `connect_nsqd` keeps.
use php_nsq.Prelude.{
  ℕ, zero, suc, ◌+◌, ◌<◌, ◌≡◌, refl, ap, ap₂, ◌∙◌, true, false, Option, none, some, Bytes, List, [],
  ◌∷◌, ◌++◌, All, All-append, length, length-append, get_elem?, Bool-cases, inl, inr, lt→ltb,
  if◌then◌else◌, arith,
}
use php_nsq.Wire.{ℤ, pos}
use php_nsq.Session.{does, send_identify}
use php_nsq.Session as Session
use php_nsq.Connection.{
  Timeval, no_timeout, conf_timeout, is_set, Address, Action, set_timeout, connect, set_nonblocking,
  greet, identify, Network, returns, faulted, knows, fd_of, connect_one, connect_all, is_positive,
  all_positive, reversed, connect_nsqd,
}

-- The first `n` descriptors behind the `i`th, as `socket` gives them.
abbrev pub fds_from : (ℕ → ℕ) → ℕ → List Address → List ℤ
fds_from fd i [] = []
fds_from fd i (a ∷ rest) = pos (fd i) ∷ fds_from fd (i + 1) rest

pub length-fds_from :
    (fd : ℕ → ℕ) (as' : List Address) (i : ℕ) → length (fds_from fd i as') ≡ length as'
length-fds_from fd [] i = refl
length-fds_from fd (a ∷ rest) i = ap suc (length-fds_from fd rest (i + 1))

pub length-reversed : (as' : List Address) → length (reversed as') ≡ length as'
length-reversed [] = refl
length-reversed (a ∷ rest) =
    omega (arith, length-append (reversed rest) (a ∷ []), length-reversed rest)

-- `send_identify` returns behind the `i`th connection.
abbrev pub Identifies : Network → (config : Option Bytes) → ℕ → Type 0
Identifies net config i =
    (sent : List Session.Action) × (send_identify config (net.reads i) ≡ does sent)

-- The host is an address or can be resolved.
abbrev pub IsKnown : Network → Address → Type 0
IsKnown net a = knows net a.host ≡ true

-- Every attempt gets a positive descriptor, connects, and has its answer to IDENTIFY.
abbrev pub AllConnect : Network → (config : Option Bytes) → (ℕ → ℕ) → Type 0
AllConnect net config fd =
    (i : ℕ)
    → (net.socket i ≡ some (fd i)) × (net.connects i ≡ true) × (0 < fd i) × Identifies net config i

-- What goes into `sock_arr`: the descriptor of an attempt that works, and 0 for one that does not.
abbrev pub attempted : Network → ℕ → ℤ
attempted net i = if net.connects i then fd_of (net.socket i) else pos 0

abbrev pub attempted_from : Network → ℕ → List Address → List ℤ
attempted_from net i [] = []
attempted_from net i (a ∷ rest) = attempted net i ∷ attempted_from net (i + 1) rest

pub All-reversed : (P : Address → Type 0) (as' : List Address) → All P as' → All P (reversed as')
All-reversed P [] h = tt
All-reversed P (a ∷ rest) h =
    All-append P (reversed rest) (a ∷ []) (All-reversed P rest h.1) (h.0, tt)

connect_one-attempted :
    (net : Network) (config : Option Bytes) (i : ℕ) (a : Address) (t : Timeval)
    → IsKnown net a
    → (net.connects i ≡ true → Identifies net config i)
    → (t' : Timeval) × (done : List Action) × (connect_one net config i a t
        ≡ returns (attempted net i, t', done))
unfolding connect_one
connect_one-attempted net config i a t known answers = elim (Bool-cases (net.connects i)) [
  | inl works ↦
      let (sent, e) = answers works in
      (
        if is_set t then no_timeout else t,
        ((if is_set t then set_timeout t ∷ [] else [])
              ++ (connect a
                  ∷ ((if is_set t then set_timeout no_timeout ∷ [] else [])
                      ++ (set_nonblocking ∷ greet ∷ []))))
            ++ (identify sent ∷ []),
        rw (known, works, e) refl,
      )
  | inr fails ↦
      (t, (if is_set t then set_timeout t ∷ [] else []) ++ (connect a ∷ []), rw (known, fails) refl)
]

-- Where every host is known and the answers to IDENTIFY come, the loop returns with the descriptors of
-- the attempts that have worked.
pub connect_all-attempted :
    (net : Network) (config : Option Bytes) (addresses : List Address) (i : ℕ) (t : Timeval)
    → All (IsKnown net) addresses
    → ((k : ℕ) → net.connects k ≡ true → Identifies net config k)
    → (actions : List (List Action)) × (connect_all net config i addresses t
        ≡ returns (attempted_from net i addresses, actions))
unfolding connect_all
connect_all-attempted net config [] i t known answers = ([], refl)
connect_all-attempted net config (a ∷ rest) i t known answers =
    let (t', done, first) = connect_one-attempted net config i a t known.0 (answers i) in
    let (actions, others) = connect_all-attempted net config rest (i + 1) t' known.1 answers in
    (done ∷ actions, rw (connect_all, first, others) refl)

attempted-connects :
    (net : Network) (i fd : ℕ)
    → net.connects i ≡ true
    → net.socket i ≡ some fd
    → attempted net i ≡ pos fd
attempted-connects net i fd works e = rw (works, e)

pub attempted_from-fds_from :
    (net : Network) (config : Option Bytes) (fd : ℕ → ℕ) (addresses : List Address) (i : ℕ)
    → AllConnect net config fd
    → attempted_from net i addresses ≡ fds_from fd i addresses
attempted_from-fds_from net config fd [] i all = refl
attempted_from-fds_from net config fd (a ∷ rest) i all =
    ap₂ ◌∷◌ (attempted-connects net i (fd i) (all i).1 (all i).0)
      (attempted_from-fds_from net config fd rest (i + 1) all)

pub all_positive-fds_from :
    (net : Network) (config : Option Bytes) (fd : ℕ → ℕ) (addresses : List Address) (i : ℕ)
    → AllConnect net config fd
    → all_positive (fds_from fd i addresses) ≡ true
all_positive-fds_from net config fd [] i all = refl
all_positive-fds_from net config fd (a ∷ rest) i all =
    rw (lt→ltb 0 (fd i) (all i).2, all_positive-fds_from net config fd rest (i + 1) all)

-- Connections that exist and are more than the addresses of a later call are written outside the
-- array of that call.
connect_nsqd-overflow :
    (net : Network) (config : Option Bytes) (timeout : Option ℤ) (addresses : List Address)
    (fds : List ℤ)
    → length addresses < length fds
    → connect_nsqd net config timeout addresses (some fds) ≡ faulted
unfolding connect_nsqd
connect_nsqd-overflow net config timeout addresses fds more =
    rw (lt→ltb (length addresses) (length fds) more)

attempted_from-failed :
    (net : Network) (addresses : List Address) (i j : ℕ)
    → j < length addresses
    → net.connects (i + j) ≡ false
    → all_positive (attempted_from net i addresses) ≡ false
attempted_from-failed net [] i j small fails = absurd (omega arith)
attempted_from-failed net (a ∷ rest) i zero small fails =
    let here : i + 0 ≡ i = omega arith in rw (rw here at fails)
attempted_from-failed net (a ∷ rest) i (suc j) small fails =
    let next : i + suc j ≡ i + 1 + j = omega arith in
    let others = attempted_from-failed net rest (i + 1) j (omega arith) (rw next at fails) in
    elim (Bool-cases (is_positive (attempted net i))) [
      | inl good ↦ rw (good, others)
      | inr bad ↦ rw bad
    ]

get_elem?-attempted_from :
    (net : Network) (addresses : List Address) (i k : ℕ)
    → k < length addresses
    → get_elem? (attempted_from net i addresses) k ≡ some (attempted net (i + k))
get_elem?-attempted_from net [] i k small = absurd (omega arith)
get_elem?-attempted_from net (a ∷ rest) i zero small =
    let here : i ≡ i + 0 = omega arith in ap (λ n. some (attempted net n)) here
get_elem?-attempted_from net (a ∷ rest) i (suc k) small =
    let next : i + 1 + k ≡ i + suc k = omega arith in
    get_elem?-attempted_from net rest (i + 1) k (omega arith)
    ∙ ap (λ n. some (attempted net n)) next

-- Where every host is known and the answers to IDENTIFY come, and of two attempts the `j`th fails to
-- connect and the `k`th works, `connect_nsqd` returns an array in which the descriptor of the `k`th
-- stands, and leaves the property null: no descriptor is stored.
pub connect_nsqd-failed :
    (net : Network) (config : Option Bytes) (timeout : Option ℤ) (addresses : List Address)
    (j k fd : ℕ)
    → All (IsKnown net) addresses
    → ((i : ℕ) → net.connects i ≡ true → Identifies net config i)
    → j < length addresses
    → net.connects j ≡ false
    → k < length addresses
    → net.connects k ≡ true
    → net.socket k ≡ some fd
    → (fds : List ℤ) × (actions : List (List Action)) × (connect_nsqd net config timeout addresses
          none
        ≡ returns (fds, none, actions))
      × (get_elem? fds k ≡ some (pos fd))
unfolding connect_nsqd
connect_nsqd-failed net config timeout addresses j k fd known answers small fails small' works e =
    let order = reversed addresses in
    let from_j : j ≡ 0 + j = omega arith in
    let from_k : 0 + k ≡ k = omega arith in
    let size = length-reversed addresses in
    let (actions, ran) =
      connect_all-attempted net config order 0 (conf_timeout timeout no_timeout)
        (All-reversed (IsKnown net) addresses known) answers in
    let bad : all_positive (attempted_from net 0 order) ≡ false =
      attempted_from-failed net order 0 j (omega (arith, size)) (rw from_j at fails) in
    (
      attempted_from net 0 order,
      actions,
      rw (ran, bad) refl,
      get_elem?-attempted_from net order 0 k (omega (arith, size))
          ∙ ap (λ n. some (attempted net n)) from_k
          ∙ ap some (attempted-connects net k fd works e),
    )
