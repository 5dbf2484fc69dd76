-- ===== src/Worker/Keep.antt =====
-- The workers that the master keeps running.
use php_nsq.Prelude.{
  ◌++◌, ℕ, zero, suc, ◌+◌, ◌≤◌, ◌<◌, ◌≡◌, refl, sym, ap, ◌∙◌, ◌⊎◌, Bool-cases, inl, inr, true,
  Option, none, some, List, [], ◌∷◌, map, length, length-map, get_elem?, ◌==◌, arith,
}
use php_nsq.Wire.{pos}
use php_nsq.Worker.{
  Config, Producer, Arg, worker_arg, Slot, vacant, worker, Master, set_slot, start_worker_process,
  start_workers, reload_at, reload, WaitResult, ended, interrupted, no_child, wait_loop,
}
use php_nsq.Worker.Start.{forking, workers_from, start_workers-one}

abbrev pub arg_of : Slot → Option Arg
arg_of vacant = none
arg_of (worker pid arg) = some arg

-- The arguments in the slots.
abbrev pub args_of : List Slot → List (Option Arg)
args_of [] = []
args_of (s ∷ slots) = arg_of s ∷ args_of slots

abbrev arg_at : Option Slot → Option Arg
arg_at none = none
arg_at (some s) = arg_of s

-- A master with the same arguments in its slots.
abbrev pub Keeps : Master → Option Master → Type 0
Keeps m done = (m' : Master) × (done ≡ some m') × (args_of m'.arg_arr ≡ args_of m.arg_arr)

length-args_of : (slots : List Slot) → length (args_of slots) ≡ length slots
length-args_of [] = refl
length-args_of (s ∷ slots) = ap suc (length-args_of slots)

Keeps-length :
    (m m' : Master) → args_of m'.arg_arr ≡ args_of m.arg_arr → length m'.arg_arr ≡ length m.arg_arr
Keeps-length m m' e = sym (length-args_of m'.arg_arr) ∙ ap length e ∙ length-args_of m.arg_arr

slot_at : (slots : List Slot) (k : ℕ) → k < length slots → (s : Slot) × (get_elem? slots k ≡ some s)
slot_at [] k h = absurd (omega arith)
slot_at (s ∷ slots) zero h = (s, refl)
slot_at (s ∷ slots) (suc k) h = slot_at slots k (omega arith)

set_slot-kept :
    (slots : List Slot) (k pid pid' : ℕ) (arg : Arg)
    → get_elem? slots k ≡ some (worker pid arg)
    → (slots' : List Slot) × (set_slot k (worker pid' arg) slots ≡ some slots')
      × (args_of slots' ≡ args_of slots)
unfolding set_slot
set_slot-kept [] k pid pid' arg e = absurd (cc e)
set_slot-kept (s ∷ slots) zero pid pid' arg e =
    (worker pid' arg ∷ slots, refl, ap (λ a. a ∷ args_of slots) (sym (ap arg_at e)))
set_slot-kept (s ∷ slots) (suc k) pid pid' arg e =
    let (slots', done, same) = set_slot-kept slots k pid pid' arg e in
    (s ∷ slots', rw done, ap (λ r. arg_of s ∷ r) same)

module _ (fork : ℕ → Option ℕ) where
  restart-Keeps :
      (k pid : ℕ) (arg : Arg) (m : Master)
      → get_elem? m.arg_arr k ≡ some (worker pid arg)
      → Keeps m (start_worker_process fork arg k m)
  unfolding start_worker_process
  restart-Keeps k pid arg m found = by_fork (fork m.forks) refl
    where
      by_fork : (f : Option ℕ) → fork m.forks ≡ f → Keeps m (start_worker_process fork arg k m)
      by_fork none e = (record m { forks = m.forks + 1 }, rw (start_worker_process, e), refl)
      by_fork (some new) e =
          let (slots, done, same) = set_slot-kept m.arg_arr k pid new arg found in
          (
            record m {
              arg_arr = slots;
              child_fd = m.child_fd ++ (new ∷ []);
              is_init = true;
              forks = m.forks + 1;
            },
            rw (start_worker_process, e, done),
            same,
          )

  reload_at-Keeps :
      (pid k : ℕ) (m : Master) → k < length m.arg_arr → Keeps m (reload_at fork pid k m)
  unfolding reload_at
  reload_at-Keeps pid k m h = by_slot (slot_at m.arg_arr k h)
    where
      by_slot : (s : Slot) × (get_elem? m.arg_arr k ≡ some s) → Keeps m (reload_at fork pid k m)
      by_slot (vacant, found) = (m, rw (reload_at, found), refl)
      by_slot (worker p arg, found) = elim (Bool-cases (p == pid)) [
        | inl it ↦
            let (m', restarted, same) = restart-Keeps k p arg m found in
            (m', rw (reload_at, found, it, restarted), same)
        | inr other ↦ (m, rw (reload_at, found, other), refl)
      ]

  reload-Keeps :
      (n pid k : ℕ) (m : Master) → k + n ≤ length m.arg_arr → Keeps m (reload fork n pid k m)
  unfolding reload
  reload-Keeps zero pid k m h = (m, refl, refl)
  reload-Keeps (suc n) pid k m h =
      let (m', first, same) = reload_at-Keeps pid k m (omega arith) in
      let (m'', rest, same') =
        reload-Keeps n pid (k + 1) m' (omega (arith, Keeps-length m m' same)) in
      (m'', rw (reload, first, rest), same' ∙ same)

  wait_loop-Keeps :
      (ws : List WaitResult) (n : ℕ) (m : Master)
      → n ≤ length m.arg_arr
      → Keeps m (wait_loop fork n ws m)
  unfolding wait_loop
  wait_loop-Keeps [] n m h = (m, refl, refl)
  wait_loop-Keeps (interrupted ∷ ws) n m h = wait_loop-Keeps ws n m h
  wait_loop-Keeps (no_child ∷ ws) n m h = (m, refl, refl)
  wait_loop-Keeps (ended pid ∷ ws) n m h =
      let (m', first, same) = reload-Keeps n pid 0 m (omega arith) in
      let (m'', rest, same') = wait_loop-Keeps ws n m' (omega (arith, Keeps-length m m' same)) in
      (m'', rw (wait_loop, first, rest), same' ∙ same)

args_of-workers_from :
    (pids : ℕ → ℕ) (k : ℕ) (args : List Arg) → args_of (workers_from pids k args) ≡ map some args
args_of-workers_from pids k [] = refl
args_of-workers_from pids k (arg ∷ args) =
    ap (λ r. some arg ∷ r) (args_of-workers_from pids (k + 1) args)

-- With one connection for each producer and forks that work at the start, whatever processes end then
-- and in whatever order, and whether or not they are forked again, the loop behind `wait` has no fault,
-- and the slots go on to have the arguments of the producers, each its own.
pub wait_loop-args :
    (pids : ℕ → ℕ) (fork : ℕ → Option ℕ) (config : Config) (ps : List Producer)
    (ws : List WaitResult)
    → (config.connect_num ≡ none) ⊎ (config.connect_num ≡ some (pos 1))
    → (m m' : Master) × (start_workers (forking pids) config ps ≡ some (length ps, m))
      × (wait_loop fork (length ps) ws m ≡ some m')
      × (args_of m'.arg_arr ≡ map some (map (worker_arg config) ps))
wait_loop-args pids fork config ps ws once =
    let (m, started, slots, _) = start_workers-one pids config ps once in
    let args : args_of m.arg_arr ≡ map some (map (worker_arg config) ps) =
      ap args_of slots ∙ args_of-workers_from pids 0 (map (worker_arg config) ps) in
    let enough : length ps ≤ length m.arg_arr = omega (
      arith,
      length-args_of m.arg_arr,
      ap length args,
      length-map some (map (worker_arg config) ps),
      length-map (worker_arg config) ps,
    ) in
    let (m', done, same) = wait_loop-Keeps fork ws (length ps) m enough in
    (m, m', started, done, same ∙ args)
