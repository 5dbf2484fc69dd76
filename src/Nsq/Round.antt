-- ===== src/Nsq/Round.antt =====
-- connectNsqd and closeNsqdConnection, one behind the other.
use php_nsq.Prelude.{
  ℕ, zero, suc, ◌+◌, ◌<◌, ◌≡◌, refl, ap, ◌∙◌, Bool, true, false, Option, none, some, Bytes, List,
  [], ◌∷◌, map, All, length, ◌==◌, le→not_ltb, if◌then◌else◌, arith,
}
use php_nsq.Wire.{ℤ, pos}
use php_nsq.Connection.{
  Address, Network, Action, returns, all_positive, reversed, no_timeout, conf_timeout, connect_nsqd,
}
use php_nsq.Connection.Opened.{
  fds_from, AllConnect, IsKnown, All-reversed, length-fds_from, length-reversed,
  connect_all-attempted, attempted_from-fds_from, all_positive-fds_from,
}
use php_nsq.Nsq.{
  Object, Called, connect_to, connect_method, called_with, close_all, close_fds, close_method,
}
use php_nsq.Nsq.Parse.{IsAddress, HasRoom, text_of, IsExplode, parsed_all-text_of}

-- The first `n` descriptors behind the `i`th.
abbrev pub first_fds : (ℕ → ℕ) → ℕ → List Address → List ℕ
first_fds fd i [] = []
first_fds fd i (a ∷ rest) = fd i ∷ first_fds fd (i + 1) rest

-- `close` works for each of them.
abbrev pub all_close : (close : ℕ → Bool) → List ℕ → Bool
all_close close [] = true
all_close close (n ∷ rest) = if close n then all_close close rest else false

close_all-cons :
    (close : ℕ → Bool) (n : ℕ) (fds : List ℤ)
    → 0 < n
    → close_all close (pos n ∷ fds)
      ≡ (if close n then (close_all close fds).0 else false, n ∷ (close_all close fds).1)
unfolding close_all
close_all-cons close zero fds h = absurd (omega arith)
close_all-cons close (suc n) fds h = refl

close_all-fds_from :
    (close : ℕ → Bool) (fd : ℕ → ℕ)
    → ((i : ℕ) → 0 < fd i)
    → (as' : List Address) (i : ℕ)
    → close_all close (fds_from fd i as')
      ≡ (all_close close (first_fds fd i as'), first_fds fd i as')
unfolding close_all
close_all-fds_from close fd works [] i = refl
close_all-fds_from close fd works (a ∷ rest) i =
    close_all-cons close (fd i) (fds_from fd (i + 1) rest) (works i)
    ∙ ap (λ (s : Bool × List ℕ). (if close (fd i) then s.0 else false, fd i ∷ s.1))
        (close_all-fds_from close fd works rest (i + 1))

-- What is returned for the descriptors `fds`, by the one method and by the other.
abbrev opened : Object → List ℤ → List (List Action) → Called
opened o fds actions = record {
  result = true;
  thrown = none;
  object = record o { connection_fds = some fds };
  actions = actions;
  closed = [];
}

abbrev shut : Object → Bool → List ℕ → Called
shut o result closed = record {
  result = result;
  thrown = none;
  object = record o { connection_fds = none };
  actions = [];
  closed = closed;
}

called_with-opened :
    (o : Object) (n : ℕ) (fds : List ℤ) (actions : List (List Action))
    → length fds ≡ n
    → all_positive fds ≡ true
    → called_with o n (returns (fds, some fds, actions)) ≡ returns (opened o fds actions)
called_with-opened o n fds actions size positive =
    rw (le→not_ltb (length fds) n (omega arith), positive)

close_fds-shut :
    (close : ℕ → Bool) (o : Object) (fds : List ℤ) (result : Bool) (closed : List ℕ)
    → 0 < length fds
    → close_all close fds ≡ (result, closed)
    → close_fds close o (some fds) ≡ some (shut o result closed)
close_fds-shut close o fds result closed some_fds e = rw (e, zero_length)
  where
    zero_length : (length fds == 0) ≡ false
    zero_length = ground arith

connect_nsqd-fds :
    (net : Network) (config : Option Bytes) (fd : ℕ → ℕ) (timeout : Option ℤ)
    (addresses : List Address)
    → All (IsKnown net) addresses
    → AllConnect net config fd
    → (actions : List (List Action)) × (connect_nsqd net config timeout addresses none
        ≡ returns (
          fds_from fd 0 (reversed addresses),
          some (fds_from fd 0 (reversed addresses)),
          actions,
        ))
unfolding connect_nsqd
connect_nsqd-fds net config fd timeout addresses known works =
    let order = reversed addresses in
    let (actions, ran) =
      connect_all-attempted net config order 0 (conf_timeout timeout no_timeout)
        (All-reversed (IsKnown net) addresses known) (λ i e. (works i).3) in
    (
      actions,
      rw
          (
            ran,
            attempted_from-fds_from net config fd order 0 works,
            all_positive-fds_from net config fd order 0 works,
          )
          refl,
    )

pub connect_method-close_method :
    (room : ℕ → ℕ) (explode : Bytes → List Bytes)
    → IsExplode explode
    → (net : Network) (config : Option Bytes) (fd : ℕ → ℕ) → AllConnect net config fd
    → (close : ℕ → Bool) (a : Address) (rest : List Address) → All IsAddress (a ∷ rest)
    → All (HasRoom room) (a ∷ rest)
    → All (IsKnown net) (a ∷ rest)
    → (timeout : Option ℤ)
    → let addresses = a ∷ rest in
      let o : Object = record {
        nsq_config = config;
        connection_fds = none;
        conn_timeout = timeout;
      } in
      let fds = first_fds fd 0 (reversed addresses) in
      (c d : Called) × (connect_method room explode net (map text_of addresses) o ≡ returns c)
      × (c.result ≡ true)
      × (c.object.connection_fds ≡ some (fds_from fd 0 (reversed addresses)))
      × (close_method close c.object ≡ some d)
      × (d.result ≡ all_close close fds)
      × (d.thrown ≡ none)
      × (d.closed ≡ fds)
      × (d.object ≡ o)
unfolding connect_method close_method
connect_method-close_method room explode splits net config fd works close a rest texts enough known
      timeout =
    let addresses = a ∷ rest in
    let o : Object = record {
      nsq_config = config;
      connection_fds = none;
      conn_timeout = timeout;
    } in
    let order = reversed addresses in
    let fds = fds_from fd 0 order in
    let (actions, ran) = connect_nsqd-fds net config fd timeout addresses known works in
    let size : length fds ≡ length addresses =
      length-fds_from fd order 0 ∙ length-reversed addresses in
    (
      opened o fds actions,
      shut o (all_close close (first_fds fd 0 order)) (first_fds fd 0 order),
      ap (connect_to net o) (parsed_all-text_of room explode splits addresses texts enough)
          ∙ ap (called_with o (length addresses)) ran
          ∙ called_with-opened o (length addresses) fds actions size
              (all_positive-fds_from net config fd order 0 works),
      refl,
      refl,
      close_fds-shut close (opened o fds actions).object fds
          (all_close close (first_fds fd 0 order)) (first_fds fd 0 order) (omega (arith, size))
          (close_all-fds_from close fd (λ i. (works i).2) order 0),
      refl,
      refl,
      refl,
      refl,
    )
