-- ===== src/Worker.antt =====
-- nsq.c, `subscribe` and `start_worker_process`, as the parent process runs them: a worker is forked
-- for each producer, and forked again when it ends. What `fork` gives the parent is a parameter.
pub mod Start
pub mod Reload
pub mod Keep
pub mod Tree
pub mod Stop
mod Tests
use mathlib.Core.Option
use php_nsq.Prelude.{
  ℕ, zero, suc, ◌+◌, ◌*◌, Bool, true, false, Option, none, some, Bytes, List, [], ◌∷◌, ◌++◌, map,
  length, get_elem?, ◌==◌, if◌then◌else◌,
}
use php_nsq.Wire.{ℤ, pos, negsuc}
use php_nsq.Print.{int_of_long}

-- The configuration that PHP passes: a missing key is `none`. `auto_finish` counts as false only
-- when it is the constant false.
pub record Config : Type 0 where
  pub topic : Bytes
  pub channel : Bytes
  pub rdy : Option ℤ
  pub retry_delay_time : Option ℤ
  pub connect_num : Option ℤ
  pub auto_finish_is_false : Bool

pub record Producer : Type 0 where
  pub broadcast_address : Bytes
  pub tcp_port : Bytes

-- `NSQArg`, with the fields of its `NSQMsg` that are set.
pub record Arg : Type 0 where
  pub topic : Bytes
  pub channel : Bytes
  pub rdy : ℤ
  pub delay_time : ℤ
  pub auto_finish : Bool
  pub host : Bytes
  pub port : Bytes

-- The body of the loop over the producers, up to `start_worker_process`.
unfoldable pub worker_arg : Config → Producer → Arg
worker_arg config producer = record {
  topic = config.topic;
  channel = config.channel;
  rdy = elim config.rdy [ none ↦ pos 1 | some n ↦ int_of_long n ];
  delay_time = elim config.retry_delay_time [ none ↦ pos 0 | some n ↦ int_of_long n ];
  auto_finish = if config.auto_finish_is_false then false else true;
  host = producer.broadcast_address;
  port = producer.tcp_port;
}

-- An element of `arg_arr`: a process and its argument, or what `memset` leaves.
pub data Slot : Type 0 where
  vacant : Slot
  worker : (pid : ℕ) → Arg → Slot

abbrev pub pid_of : Slot → ℕ
pid_of vacant = 0
pid_of (worker pid arg) = pid

-- `arg_arr`, `child_fd`, `is_init`, and how often `fork` was called.
pub record Master : Type 0 where
  pub arg_arr : List Slot
  pub child_fd : List ℕ
  pub is_init : Bool
  pub forks : ℕ

-- A write at an index; `none` is a write outside the array.
unfoldable pub set_slot : ℕ → Slot → List Slot → Option (List Slot)
set_slot i s [] = none
set_slot zero s (x ∷ xs) = some (s ∷ xs)
set_slot (suc i) s (x ∷ xs) = Option.map (λ ys. x ∷ ys) (set_slot i s xs)

abbrev pub vacant_slots : ℕ → List Slot
vacant_slots zero = []
vacant_slots (suc n) = vacant ∷ vacant_slots n

abbrev pub ◌>>=◌ : {A B : Type 0} → Option A → (A → Option B) → Option B
◌>>=◌ none f = none
◌>>=◌ (some a) f = f a

-- `for (i = 0; i < connect_num; i++)` has no round for a negative count.
abbrev pub count_of : ℤ → ℕ
count_of (pos n) = n
count_of (negsuc n) = 0

abbrev pub rounds_of : Option ℤ → ℕ
rounds_of none = 1
rounds_of (some n) = count_of n

-- What `wait` gives: a child has ended, or -1 with EINTR or for another reason.
pub data WaitResult : Type 0 where
  ended : (pid : ℕ) → WaitResult
  interrupted : WaitResult
  no_child : WaitResult

module _ (fork : ℕ → Option ℕ) where
  -- `none` from `fork` is a failure, which is passed over; `some pid` is a child's.
  unfoldable pub start_worker_process : Arg → ℕ → Master → Option Master
  start_worker_process arg index m = elim (fork m.forks) [
    | none ↦ some (record m { forks = m.forks + 1 })
    | some pid ↦
        Option.map
          (λ arr. record m {
            arg_arr = arr;
            child_fd = m.child_fd ++ (pid ∷ []);
            is_init = true;
            forks = m.forks + 1;
          })
          (set_slot index (worker pid arg) m.arg_arr)
  ]

  -- `ZEND_HASH_FOREACH_VAL(producers)`, with `j`.
  unfoldable pub start_producers : List Arg → ℕ → Master → Option (ℕ × Master)
  start_producers [] j m = some (j, m)
  start_producers (arg ∷ args) j m = do
    m' ← start_worker_process arg j m
    start_producers args (j + 1) m'

  -- `for (i = 0; i < connect_num; i++)`; `j` is not reset.
  unfoldable pub start_rounds : ℕ → List Arg → ℕ → Master → Option (ℕ × Master)
  start_rounds zero args j m = some (j, m)
  start_rounds (suc n) args j m = do (j', m') ← start_producers args j m; start_rounds n args j' m'

  -- The array has one element for each producer, whatever `connect_num` is.
  unfoldable pub start_workers : Config → List Producer → Option (ℕ × Master)
  start_workers config producers =
      start_rounds (rounds_of config.connect_num) (map (worker_arg config) producers) 0 (record {
        arg_arr = vacant_slots (length producers);
        child_fd = [];
        is_init = false;
        forks = 0;
      })

  -- One round behind `wait`, at index `k`: the worker of the process that has ended starts again.
  unfoldable pub reload_at : ℕ → ℕ → Master → Option Master
  reload_at ret_pid k m = do
    s ← get_elem? m.arg_arr k
    elim s [
      | vacant ↦ some m
      | worker pid arg ↦ if pid == ret_pid then start_worker_process arg k m else some m
    ]

  -- The two loops over `connect_num` and `nsqd_num`, `n` rounds from `k`.
  unfoldable pub reload : ℕ → ℕ → ℕ → Master → Option Master
  reload zero ret_pid k m = some m
  reload (suc n) ret_pid k m = do m' ← reload_at ret_pid k m; reload n ret_pid (k + 1) m'

  -- `while (1)` over what `wait` gives; `n` is how many indices the two loops have.
  unfoldable pub wait_loop : ℕ → List WaitResult → Master → Option Master
  wait_loop n [] m = some m
  wait_loop n (interrupted ∷ ws) m = wait_loop n ws m
  wait_loop n (no_child ∷ ws) m = some m
  wait_loop n (ended pid ∷ ws) m = do m' ← reload n pid 0 m; wait_loop n ws m'

-- SIGTERM: the processes that the master kills.
unfoldable pub terminated : (current_is_master : Bool) → Master → List ℕ
terminated current_is_master m = if current_is_master then m.child_fd else []
