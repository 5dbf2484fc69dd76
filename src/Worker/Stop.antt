-- ===== src/Worker/Stop.antt =====
-- SIGTERM at the master reaches every worker that runs.
use php_nsq.Prelude.{
  ℕ, zero, suc, ◌+◌, ◌≡◌, refl, sym, ◌∙◌, ◌⊎◌, Bool, true, false, ◌||◌, Option, none, some, List,
  [], ◌∷◌, ◌++◌, All, map, length, get_elem?, ◌==◌, if◌then◌else◌, arith,
}
use mathlib.Core.Option
use mathlib.Core.Path.{subst}
use php_nsq.Wire.{pos}
use php_nsq.Worker.{
  Config, Producer, Arg, worker_arg, Slot, vacant, worker, Master, ◌>>=◌, set_slot,
  start_worker_process, start_workers, reload_at, reload, WaitResult, ended, interrupted, no_child,
  wait_loop, terminated,
}
use php_nsq.Worker.Start.{forking, workers_from, pids_from, start_workers-one}
use php_nsq.Worker.Keep.{args_of, wait_loop-args}

abbrev pub among : ℕ → List ℕ → Bool
among p [] = false
among p (q ∷ qs) = (p == q) || among p qs

-- The process of a slot is one of `pids`.
abbrev pub Reached : List ℕ → Slot → Type 0
Reached pids vacant = Unit
Reached pids (worker pid arg) = among pid pids ≡ true

among-more : (p : ℕ) (ps qs : List ℕ) → among p ps ≡ true → among p (ps ++ qs) ≡ true
among-more p [] qs h = absurd (cc h)
among-more p (q ∷ ps) qs h = ground (arith, among-more p ps qs)

among-last : (p : ℕ) (ps : List ℕ) → among p (ps ++ (p ∷ [])) ≡ true
among-last p [] = ground arith
among-last p (q ∷ ps) = ground (arith, among-last p ps)

Reached-more :
    (ps qs : List ℕ) (slots : List Slot) → All (Reached ps) slots → All (Reached (ps ++ qs)) slots
Reached-more ps qs [] h = tt
Reached-more ps qs (vacant ∷ slots) h = (tt, Reached-more ps qs slots h.1)
Reached-more ps qs (worker pid arg ∷ slots) h =
    (among-more pid ps qs h.0, Reached-more ps qs slots h.1)

-- A master all of whose workers SIGTERM reaches, if there is one.
abbrev pub Reaches : Option Master → Type 0
Reaches none = Unit
Reaches (some m) = All (Reached m.child_fd) m.arg_arr

abbrev AllReached : List ℕ → Option (List Slot) → Type 0
AllReached ps none = Unit
AllReached ps (some slots) = All (Reached ps) slots

AllReached-cons :
    (ps : List ℕ) (s : Slot) (r : Option (List Slot))
    → Reached ps s
    → AllReached ps r
    → AllReached ps (Option.map (λ ys. s ∷ ys) r)
AllReached-cons ps s none h hs = tt
AllReached-cons ps s (some slots) h hs = (h, hs)

set_slot-AllReached :
    (ps : List ℕ) (slots : List Slot) (k : ℕ) (s : Slot)
    → Reached ps s
    → All (Reached ps) slots
    → AllReached ps (set_slot k s slots)
unfolding set_slot
set_slot-AllReached ps [] k s new h = tt
set_slot-AllReached ps (x ∷ slots) zero s new h = (new, h.1)
set_slot-AllReached ps (x ∷ slots) (suc k) s new h =
    AllReached-cons ps x (set_slot k s slots) h.0 (set_slot-AllReached ps slots k s new h.1)

bind-Reaches :
    (r : Option Master) (f : Master → Option Master)
    → Reaches r
    → ((m : Master) → Reaches (some m) → Reaches (f m))
    → Reaches (◌>>=◌ r f)
bind-Reaches none f h later = tt
bind-Reaches (some m) f h later = later m h

module _ (fork : ℕ → Option ℕ) where
  start_worker_process-Reaches :
      (k : ℕ) (arg : Arg) (m : Master)
      → Reaches (some m)
      → Reaches (start_worker_process fork arg k m)
  unfolding start_worker_process
  start_worker_process-Reaches k arg m h = by_fork (fork m.forks) refl
    where
      stored :
          (pid : ℕ) (r : Option (List Slot))
          → AllReached (m.child_fd ++ (pid ∷ [])) r
          → Reaches (
              Option.map
                (λ arr. record m {
                  arg_arr = arr;
                  child_fd = m.child_fd ++ (pid ∷ []);
                  is_init = true;
                  forks = m.forks + 1;
                })
                r)
      stored pid none hs = tt
      stored pid (some slots) hs = hs

      by_fork : (f : Option ℕ) → fork m.forks ≡ f → Reaches (start_worker_process fork arg k m)
      by_fork none e = rw (start_worker_process, e) h
      by_fork (some pid) e =
          rw (start_worker_process, e)
            (stored pid (set_slot k (worker pid arg) m.arg_arr) (
              set_slot-AllReached (m.child_fd ++ (pid ∷ [])) m.arg_arr k (worker pid arg)
                (among-last pid m.child_fd) (Reached-more m.child_fd (pid ∷ []) m.arg_arr h)))

  if-Reaches :
      (c : Bool) (x y : Option Master) → Reaches x → Reaches y → Reaches (if c then x else y)
  if-Reaches true x y hx hy = hx
  if-Reaches false x y hx hy = hy

  reload_at-Reaches : (pid k : ℕ) (m : Master) → Reaches (some m) → Reaches (reload_at fork pid k m)
  unfolding reload_at
  reload_at-Reaches pid k m h = by_slot (get_elem? m.arg_arr k) refl
    where
      by_slot : (s : Option Slot) → get_elem? m.arg_arr k ≡ s → Reaches (reload_at fork pid k m)
      by_slot none e = rw (reload_at, e) tt
      by_slot (some vacant) e = rw (reload_at, e) h
      by_slot (some (worker p arg)) e =
          rw (reload_at, e) (if-Reaches (p == pid) _ _ (start_worker_process-Reaches k arg m h) h)

  reload-Reaches : (n pid k : ℕ) (m : Master) → Reaches (some m) → Reaches (reload fork n pid k m)
  unfolding reload
  reload-Reaches zero pid k m h = h
  reload-Reaches (suc n) pid k m h =
      bind-Reaches (reload_at fork pid k m) (λ m'. reload fork n pid (k + 1) m')
        (reload_at-Reaches pid k m h) (λ m' h'. reload-Reaches n pid (k + 1) m' h')

  wait_loop-Reaches :
      (ws : List WaitResult) (n : ℕ) (m : Master)
      → Reaches (some m)
      → Reaches (wait_loop fork n ws m)
  unfolding wait_loop
  wait_loop-Reaches [] n m h = h
  wait_loop-Reaches (interrupted ∷ ws) n m h = wait_loop-Reaches ws n m h
  wait_loop-Reaches (no_child ∷ ws) n m h = h
  wait_loop-Reaches (ended pid ∷ ws) n m h =
      bind-Reaches (reload fork n pid 0 m) (λ m'. wait_loop fork n ws m')
        (reload-Reaches n pid 0 m h) (λ m' h'. wait_loop-Reaches ws n m' h')

workers_from-Reached :
    (pids : ℕ → ℕ) (k : ℕ) (args : List Arg)
    → All (Reached (pids_from pids k args)) (workers_from pids k args)
workers_from-Reached pids k [] = tt
workers_from-Reached pids k (arg ∷ args) = (
  ground arith,
  behind (pids_from pids (k + 1) args) (workers_from pids (k + 1) args)
      (workers_from-Reached pids (k + 1) args),
)
  where
    behind :
        (ps : List ℕ) (slots : List Slot)
        → All (Reached ps) slots
        → All (Reached (pids k ∷ ps)) slots
    behind ps [] h = tt
    behind ps (vacant ∷ slots) h = (tt, behind ps slots h.1)
    behind ps (worker pid a ∷ slots) h = (ground (arith, h.0), behind ps slots h.1)

-- With one connection for each producer and forks that work at the start, whatever processes end then
-- and in whatever order, and whether or not they are forked again, the loop behind `wait` has no fault,
-- the slots go on to have the arguments of the producers, each its own, and SIGTERM at the master is
-- sent to the process of every slot.
pub terminated-Reached :
    (pids : ℕ → ℕ) (fork : ℕ → Option ℕ) (config : Config) (ps : List Producer)
    (ws : List WaitResult)
    → (config.connect_num ≡ none) ⊎ (config.connect_num ≡ some (pos 1))
    → (m m' : Master) × (start_workers (forking pids) config ps ≡ some (length ps, m))
      × (wait_loop fork (length ps) ws m ≡ some m')
      × (args_of m'.arg_arr ≡ map some (map (worker_arg config) ps))
      × All (Reached (terminated true m')) m'.arg_arr
unfolding terminated
terminated-Reached pids fork config ps ws once =
    let (m, m', started, done, args) = wait_loop-args pids fork config ps ws once in
    let (m1, started', slots, children) = start_workers-one pids config ps once in
    let same : m1 ≡ m = cc (sym started' ∙ started) in
    let first : Reaches (some m1) =
      rw (slots, children) (workers_from-Reached pids 0 (map (worker_arg config) ps)) in
    let last : Reaches (some m') = subst Reaches done (
      wait_loop-Reaches fork ws (length ps) m
        (subst (λ (x : Master). Reaches (some x)) same first)) in
    (m, m', started, done, args, last)
