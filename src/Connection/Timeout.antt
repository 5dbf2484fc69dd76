-- ===== src/Connection/Timeout.antt =====
-- The timeout for connecting: its units, and how long it lasts.
use php_nsq.Prelude.{
  ℕ, ◌+◌, ◌*◌, ◌<◌, ◌≡◌, refl, some, Option, Bytes, List, [], ◌∷◌, All, Bool-cases, inl, inr, arith,
}
use php_nsq.Wire.{ℤ, pos}
use php_nsq.Session.{Setup, does, waits, faults, send_identify}
use php_nsq.Connection.{
  Timeval, no_timeout, conf_timeout, is_set, Action, set_timeout, connect, set_nonblocking, greet,
  identify, Address, Network, Ended, returns, exits, unfinished, faulted, knows, identified, fd_of,
  connect_one, with_round, connect_all, IfReturns,
}

-- A timeout of `n` milliseconds is as many microseconds, with the part below a second in `tv_usec`.
conf_timeout-microseconds :
    (n : ℕ) (t : Timeval)
    → let t' = conf_timeout (some (pos n)) t in
      (t'.tv_sec * 1000000 + t'.tv_usec ≡ n * 1000) × (t'.tv_usec < 1000000)
unfolding conf_timeout
conf_timeout-microseconds n t = (omega arith, omega arith)

-- No call of `setsockopt` with a timeout.
abbrev pub IsUntimed : Action → Type 0
IsUntimed (set_timeout t) = ⊥
IsUntimed (connect a) = Unit
IsUntimed set_nonblocking = Unit
IsUntimed greet = Unit
IsUntimed (identify sent) = Unit

abbrev Untimed : ℤ × Timeval × List Action → Type 0
Untimed r = All IsUntimed r.2 × (r.1 ≡ no_timeout)

identified-Untimed :
    (fd : ℤ) (a : Address) (sent : Setup)
    → IfReturns Untimed (identified fd no_timeout (connect a ∷ set_nonblocking ∷ greet ∷ []) sent)
identified-Untimed fd a (does sent) = ((tt, (tt, (tt, (tt, tt)))), refl)
identified-Untimed fd a waits = tt
identified-Untimed fd a faults = tt

-- A round without a timeout sets none, and leaves none to the next.
connect_one-IsUntimed :
    (net : Network) (config : Option Bytes) (i : ℕ) (a : Address)
    → IfReturns Untimed (connect_one net config i a no_timeout)
unfolding connect_one is_set
connect_one-IsUntimed net config i a = elim (Bool-cases (knows net a.host)) [
  | inl known ↦ elim (Bool-cases (net.connects i)) [
    | inl works ↦
        rw (known, works)
          (identified-Untimed (fd_of (net.socket i)) a (send_identify config (net.reads i)))
    | inr fails ↦ rw (known, fails) ((tt, tt), refl)
  ]
  | inr unknown ↦ rw unknown tt
]

abbrev AllUntimed : List ℤ × List (List Action) → Type 0
AllUntimed r = All (All IsUntimed) r.1

with_round-AllUntimed :
    (fd : ℤ) (done : List Action) (others : Ended (List ℤ × List (List Action)))
    → All IsUntimed done
    → IfReturns AllUntimed others
    → IfReturns AllUntimed (with_round fd done others)
with_round-AllUntimed fd done (returns r) h h' = (h, h')
with_round-AllUntimed fd done exits h h' = tt
with_round-AllUntimed fd done unfinished h h' = tt
with_round-AllUntimed fd done faulted h h' = tt

-- Behind a connection that has spent the timeout no timeout is set for any other, whatever was
-- configured.
connect_all-AllUntimed :
    (net : Network) (config : Option Bytes) (rest : List Address) (i : ℕ)
    → IfReturns AllUntimed (connect_all net config i rest no_timeout)
unfolding connect_all
connect_all-AllUntimed net config [] i = tt
connect_all-AllUntimed net config (a ∷ rest) i =
    by_first (connect_one net config i a no_timeout) (connect_one-IsUntimed net config i a)
      (connect_all-AllUntimed net config rest (i + 1))
  where
    by_first :
        (first : Ended (ℤ × Timeval × List Action))
        → IfReturns Untimed first
        → IfReturns AllUntimed (connect_all net config (i + 1) rest no_timeout)
        → IfReturns AllUntimed (elim first [
          | returns (fd, t', done) ↦ with_round fd done (connect_all net config (i + 1) rest t')
          | exits ↦ exits
          | unfinished ↦ unfinished
          | faulted ↦ faulted
        ])
    by_first (returns (fd, t', done)) h others =
        rw h.1 (
          with_round-AllUntimed fd done (connect_all net config (i + 1) rest no_timeout) h.0 others)
    by_first exits h others = tt
    by_first unfinished h others = tt
    by_first faulted h others = tt
