-- ===== src/Worker/Tree.antt =====
-- nsq.c, `start_worker_process` in the child: `subscribe` runs there, and where it returns the child
-- goes on in the loops of its parent, with the workers that are not yet started.
use php_nsq.Prelude.{
  suc, ◌+◌, ◌*◌, ◌^◌, ◌≡◌, refl, ap, ◌∙◌, Bool, true, false, Bytes, List, [], ◌∷◌, ◌++◌, All,
  length, length-append, if◌then◌else◌, if_true, map, length-map, arith,
}
use native.Mathlib.Numerals.{unary_clauses}
use php_nsq.Worker.{Arg, Config, Producer, worker_arg}
use php_nsq.Exception.{connection_failed, libevent_could_not_be_initialized}
use php_nsq.Receive.{Host}
use php_nsq.Receive.Backing.{Malloc}
use php_nsq.Loop.{
  Socket, Event, Settings, Loop, System, has_address, Ending, exits, thrown, faulted, serving,
  cleaned, subscribe,
}

-- `subscribe` has returned 1; in the other cases the process has ended, or is still in the event loop.
abbrev pub goes_on : Ending → Bool
goes_on exits = false
goes_on (thrown code) = true
goes_on faulted = false
goes_on (serving s) = false
goes_on (cleaned s) = true

module _ (ending : Arg → Ending) where
  -- The workers that a process and all processes under it start when `args` are left of the loops, where
  -- every `fork` works: the child of the first and what it starts itself, then those of the parent.
  unfoldable pub spawned : List Arg → List Arg
  spawned [] = []
  spawned (arg ∷ rest) =
      let others = spawned rest in arg ∷ ((if goes_on (ending arg) then others else []) ++ others)

  -- Where no child returns from `subscribe`, each worker is started once, in order.
  spawned-id :
      (args : List Arg) → All (λ arg. goes_on (ending arg) ≡ false) args → spawned args ≡ args
  unfolding spawned
  spawned-id [] h = refl
  spawned-id (arg ∷ rest) h = rw (h.0, spawned-id rest h.1)

  -- Where every child returns, as when no connection can be begun, the processes double with each worker:
  -- n workers of a configuration make 2 ^ n processes, the parent included.
  length-spawned :
      (args : List Arg)
      → All (λ arg. goes_on (ending arg) ≡ true) args
      → length (spawned args) + 1 ≡ 2 ^ length args
  unfolding spawned
  length-spawned [] h = refl
  length-spawned (arg ∷ rest) h =
      let others = spawned rest in
      let more : (if goes_on (ending arg) then others else []) ≡ others =
        if_true (goes_on (ending arg)) others [] h.0 in
      let size : length (spawned (arg ∷ rest))
          ≡ suc (length ((if goes_on (ending arg) then others else []) ++ others)) =
        refl in
      let double : 2 ^ length (arg ∷ rest) ≡ 2 ^ length rest * 2 =
        simp unary_clauses (omega arith) in
      omega (
        arith,
        size,
        double,
        ap length more,
        length-append (if goes_on (ending arg) then others else []) others,
        length-spawned rest h.1,
      )

module _ (S : Socket) (A : Malloc) (host : Host) (settings : Settings) where
  -- libevent gives no event base, or refuses the connection.
  abbrev pub Refuses : System → (name : Bytes) → Type 0
  Refuses sys name =
      (has_address sys name ≡ true) × ((if sys.base_new then sys.connects else false) ≡ false)

  goes_on-subscribe :
      (sys : System) (name : Bytes) (events : List Event) (r : Loop S A host settings)
      → Refuses sys name
      → goes_on (subscribe S A host settings sys name events r) ≡ true
  unfolding subscribe
  goes_on-subscribe sys name events r h =
      ap goes_on (if_true (has_address sys name) _ exits h.0)
      ∙ by_refusal sys.base_new sys.connects _ h.1
    where
      by_refusal :
          (base_new connects : Bool) (ending : Ending)
          → (if base_new then connects else false) ≡ false
          → goes_on (
              if base_new
              then (if connects then ending else thrown connection_failed)
              else thrown libevent_could_not_be_initialized)
            ≡ true
      by_refusal true true ending h' = absurd (cc h')
      by_refusal true false ending h' = refl
      by_refusal false connects ending h' = refl

  module _ (sys : Arg → System) (events : Arg → List Event) (r : Arg → Loop S A host settings) where
    -- How `subscribe` ends in the child that has `arg`.
    abbrev pub in_child : Arg → Ending
    in_child arg = subscribe S A host settings (sys arg) arg.host (events arg) (r arg)

    refused-goes_on :
        (args : List Arg)
        → All (λ arg. Refuses (sys arg) arg.host) args
        → All (λ arg. goes_on (in_child arg) ≡ true) args
    refused-goes_on [] h = tt
    refused-goes_on (arg ∷ rest) h =
        (goes_on-subscribe (sys arg) arg.host (events arg) (r arg) h.0, refused-goes_on rest h.1)

    -- Where the addresses of the producers are known but libevent gives no event base or refuses the
    -- connection to every one of them, each child goes on with the workers that are left: n producers, at
    -- one connection each, make 2 ^ n processes, the parent included, where every fork works.
    pub refused-spawned :
        (config : Config) (producers : List Producer)
        → All (λ arg. Refuses (sys arg) arg.host) (map (worker_arg config) producers)
        → length (spawned in_child (map (worker_arg config) producers)) + 1 ≡ 2 ^ length producers
    refused-spawned config producers h =
        length-spawned in_child (map (worker_arg config) producers)
          (refused-goes_on (map (worker_arg config) producers) h)
        ∙ ap (λ n. 2 ^ n) (length-map (worker_arg config) producers)
