-- ===== src/Subscribe/Greeting.antt =====
-- From the configuration that PHP passes to what each worker says to its nsqd.
use php_nsq.Prelude.{
  ℕ, suc, ◌+◌, ◌-◌, ◌^◌, ◌<◌, ◌≡◌, refl, ◌⊎◌, true, false, Option, none, some, Bytes, List, [], ◌∷◌,
  ◌++◌, map, All, length, length-map, ap, ◌∙◌, codes, arith,
}
use php_nsq.Wire.{ℤ, pos, negsuc, htonl_bytes}
use php_nsq.Print.{IsInt, int_of_long}
use php_nsq.Command.{Output}
use php_nsq.Command.Limits.{HasShortNames}
use php_nsq.Command.Line.{send, sub, rdy}
use php_nsq.Publish.{ReadResult, got}
use php_nsq.Publish.Await.{IsSplit}
use php_nsq.Session.{write_bytes, command, identify_frame, does, conn_eventcb}
use php_nsq.Session.Wait.{IsEmpty}
use php_nsq.Session.Event.{conn_eventcb-greets}
use php_nsq.Lookup.{Libevent, lookup, workers}
use php_nsq.Lookup.Url.{TakenFor}
use php_nsq.Worker.{Arg, Producer, Slot, vacant, worker, Master, worker_arg}
use php_nsq.Worker.Start.{forking, workers_from}
use php_nsq.Subscribe.{Passed, config_of, started, subscribe}
use php_nsq.Subscribe.Retry.{AllRetry, subscribe-started}

-- The count of `RDY`: 1 where the key is missing, and else the low 32 bits, as an `int`.
abbrev pub rdy_of : Passed → ℤ
rdy_of passed = elim passed.rdy [ none ↦ pos 1 | some n ↦ int_of_long n ]

int_of_long-any : (n : ℤ) → IsInt (int_of_long n)
unfolding int_of_long
int_of_long-any (pos n) = ground arith
int_of_long-any (negsuc n) = ground arith

rdy_of-IsInt : (passed : Passed) → IsInt (rdy_of passed)
rdy_of-IsInt passed = by_key passed.rdy
  where
    by_key : (r : Option ℤ) → IsInt (elim r [ none ↦ pos 1 | some n ↦ int_of_long n ])
    by_key none = omega arith
    by_key (some n) = int_of_long-any n

module _ (json frame : Bytes) (reads : List ReadResult) (passed : Passed)
    (topic channel : Bytes) where
  -- The worker of the slot sends the version, IDENTIFY, SUB for the topic and channel, and RDY.
  abbrev pub Greets : Slot → Type 0
  Greets vacant = ⊥
  Greets (worker pid arg) =
      (o ready : Output) × (send (sub topic channel) ≡ some o)
      × (send (rdy (rdy_of passed)) ≡ some ready)
      × (conn_eventcb false false true (some json) reads arg.topic arg.channel arg.rdy
          ≡ does (write_bytes (codes "  V2") ∷ write_bytes frame ∷ command o ∷ command ready ∷ []))

-- The answer to IDENTIFY that a worker reads: failed reads, then the size and the pieces of `p`.
abbrev pub answer_of : (rs : List ReadResult) (p : Bytes) (xs : List Bytes) → List ReadResult
answer_of rs p xs = rs ++ (got (htonl_bytes (length p)) ∷ (map got xs ++ []))

workers_from-Greets :
    (json frame : Bytes) (rs : List ReadResult) (p : Bytes) (xs : List Bytes) (passed : Passed)
    (topic channel : Bytes) (pids : ℕ → ℕ) (k : ℕ) (ps : List Producer)
    → identify_frame json ≡ some frame
    → HasShortNames (sub topic channel)
    → All IsEmpty rs
    → length p < 2 ^ 31 - 1
    → IsSplit xs p
    → All
        (Greets json frame (answer_of rs p xs) passed topic channel)
        (workers_from pids k (map (worker_arg (config_of passed topic channel)) ps))
unfolding worker_arg
workers_from-Greets json frame rs p xs passed topic channel pids k [] framed short empty small s =
    tt
workers_from-Greets json frame rs p xs passed topic channel pids k (q ∷ ps) framed short empty small
      s =
    (
      conn_eventcb-greets json topic channel (rdy_of passed) rs xs p [] framed short
          (rdy_of-IsInt passed) empty small s,
      workers_from-Greets json frame rs p xs passed topic channel pids (k + 1) ps framed short empty
          small s,
    )

length-workers_from :
    (pids : ℕ → ℕ) (k : ℕ) (args : List Arg) → length (workers_from pids k args) ≡ length args
length-workers_from pids k [] = refl
length-workers_from pids k (arg ∷ args) = ap suc (length-workers_from pids (k + 1) args)

module _ (decode : Bytes → Option (List Producer)) (pids : ℕ → ℕ) (address : Bytes) where
  -- From the call of the method to the greeting of nsqd: with a topic and a channel whose names fit
  -- their line, `connect_num` missing or 1, forks that work and a configuration that fits its block,
  -- `subscribe` starts a worker for each producer at the first answer that lists some, and each of them,
  -- when its connection is made and the answer to IDENTIFY comes, in pieces or not, sends the version,
  -- IDENTIFY, SUB for this topic and channel, and RDY with the count of the configuration, which is 1 where
  -- it is missing and is cut to an int otherwise.
  pub subscribe-Greets :
      (passed : Passed) (topic channel json frame : Bytes) (retries rest : List Libevent)
      (lib : Libevent) (ps : List Producer) (rs : List ReadResult) (p : Bytes) (xs : List Bytes)
      → passed.topic ≡ some topic
      → passed.channel ≡ some channel
      → (passed.connect_num ≡ none) ⊎ (passed.connect_num ≡ some (pos 1))
      → AllRetry decode pids address topic retries
      → TakenFor decode (lookup lib address topic) (workers ps)
      → identify_frame json ≡ some frame
      → HasShortNames (sub topic channel)
      → All IsEmpty rs
      → length p < 2 ^ 31 - 1
      → IsSplit xs p
      → (m : Master) × (subscribe decode (forking pids) address passed (retries ++ (lib ∷ rest))
          ≡ started [] (length retries) (length ps, m))
        × (length m.arg_arr ≡ length ps)
        × All (Greets json frame (answer_of rs p xs) passed topic channel) m.arg_arr
  subscribe-Greets passed topic channel json frame retries rest lib ps rs p xs e c once h t framed
        short empty small s =
      let (m, run, slots, _) =
        subscribe-started decode pids address passed topic channel retries rest lib ps e c once h
          t in
      (
        m,
        run,
        ap length slots
            ∙ length-workers_from pids 0 (map (worker_arg (config_of passed topic channel)) ps)
            ∙ length-map (worker_arg (config_of passed topic channel)) ps,
        rw slots (
            workers_from-Greets json frame rs p xs passed topic channel pids 0 ps framed short empty
              small s),
      )
