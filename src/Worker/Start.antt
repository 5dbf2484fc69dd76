-- ===== src/Worker/Start.antt =====
-- The workers that are started, and where their slots stand.
use php_nsq.Prelude.{
  ℕ, zero, suc, ◌+◌, ◌≤◌, ◌≡◌, refl, sym, ap, ◌∙◌, true, false, Option, none, some, List, [], ◌∷◌,
  ◌++◌, map, append_assoc, append-nil, length, length-append, length-map, inl, inr, ◌⊎◌, arith,
}
use php_nsq.Wire.{pos}
use php_nsq.Worker.{
  Config, Producer, Arg, worker_arg, Slot, vacant, worker, Master, set_slot, vacant_slots,
  start_worker_process, start_producers, start_rounds, start_workers, rounds_of,
}

pub set_slot-append :
    (xs : List Slot) (x : Slot) (ys : List Slot) (s : Slot) (i : ℕ)
    → length xs ≡ i
    → set_slot i s (xs ++ (x ∷ ys)) ≡ some (xs ++ (s ∷ ys))
unfolding set_slot
set_slot-append [] x ys s zero e = refl
set_slot-append [] x ys s (suc i) e = absurd (omega arith)
set_slot-append (y ∷ xs) x ys s zero e = absurd (omega arith)
set_slot-append (y ∷ xs) x ys s (suc i) e = rw (set_slot-append xs x ys s i (omega arith))

set_slot-out : (xs : List Slot) (s : Slot) (i : ℕ) → length xs ≤ i → set_slot i s xs ≡ none
unfolding set_slot
set_slot-out [] s i e = refl
set_slot-out (y ∷ xs) s zero e = absurd (omega arith)
set_slot-out (y ∷ xs) s (suc i) e = rw (set_slot-out xs s i (omega arith))

-- The slots and the pids of workers whose forks are the `k`th and those behind it.
module _ (pids : ℕ → ℕ) where
  abbrev pub workers_from : ℕ → List Arg → List Slot
  workers_from k [] = []
  workers_from k (arg ∷ args) = worker (pids k) arg ∷ workers_from (k + 1) args

  abbrev pub pids_from : ℕ → List Arg → List ℕ
  pids_from k [] = []
  pids_from k (arg ∷ args) = pids k ∷ pids_from (k + 1) args

  abbrev pub forking : ℕ → Option ℕ
  forking k = some (pids k)

  -- What starting a worker for each of `args` makes of a master whose first slots are taken.
  abbrev pub Started : List Slot → List Arg → Master → Master → Type 0
  Started filled args m m' =
      (m'.arg_arr ≡ filled ++ workers_from m.forks args)
      × (m'.child_fd ≡ m.child_fd ++ pids_from m.forks args)
      × (m'.forks ≡ m.forks + length args)

  start_worker-some :
      (filled : List Slot) (arg : Arg) (n : ℕ) (m : Master)
      → m.arg_arr ≡ filled ++ vacant_slots (suc n)
      → start_worker_process forking arg (length filled) m
        ≡ some (record {
          arg_arr = filled ++ (worker (pids m.forks) arg ∷ vacant_slots n);
          child_fd = m.child_fd ++ (pids m.forks ∷ []);
          is_init = true;
          forks = m.forks + 1;
        })
  unfolding start_worker_process
  start_worker-some filled arg n m e = rw (
    e,
    set_slot-append filled vacant (vacant_slots n) (worker (pids m.forks) arg) (length filled) refl,
  )

  -- A round over the producers fills one slot for each, from index `j` on.
  start_producers-some :
      (args : List Arg) (filled : List Slot) (j : ℕ) (m : Master)
      → length filled ≡ j
      → m.arg_arr ≡ filled ++ vacant_slots (length args)
      → (m' : Master) × (start_producers forking args j m ≡ some (j + length args, m'))
        × Started filled args m m'
  unfolding start_producers
  start_producers-some [] filled j m at e =
      let end : j ≡ j + 0 = omega arith in
      (m, ap (λ k. some (k, m)) end, (e, sym (append-nil m.child_fd), omega arith))
  start_producers-some (arg ∷ args) filled j m at e =
      let w = worker (pids m.forks) arg in
      let m1 : Master = record {
        arg_arr = filled ++ (w ∷ vacant_slots (length args));
        child_fd = m.child_fd ++ (pids m.forks ∷ []);
        is_init = true;
        forks = m.forks + 1;
      } in
      let first : start_worker_process forking arg j m ≡ some m1 =
        ap (λ k. start_worker_process forking arg k m) (sym at)
        ∙ start_worker-some filled arg (length args) m e in
      let assoc = append_assoc filled (w ∷ []) in
      let (m', rest, (slots, children, forks)) =
        start_producers-some args (filled ++ (w ∷ [])) (j + 1) m1
          (omega (arith, at, length-append filled (w ∷ [])))
          (sym (assoc (vacant_slots (length args)))) in
      let end : j + 1 + length args ≡ j + suc (length args) = omega arith in
      (
        m',
        rw (first, rest, end),
        (
          slots ∙ assoc (workers_from (m.forks + 1) args),
          children ∙ append_assoc m.child_fd (pids m.forks ∷ []) (pids_from (m.forks + 1) args),
          omega (arith, forks),
        ),
      )

  length-workers_from : (k : ℕ) (args : List Arg) → length (workers_from k args) ≡ length args
  length-workers_from k [] = refl
  length-workers_from k (arg ∷ args) = ap suc (length-workers_from (k + 1) args)

  -- Behind the last slot there is no room for another worker.
  start_producers-none :
      (arg : Arg) (args : List Arg) (j : ℕ) (m : Master)
      → length m.arg_arr ≤ j
      → start_producers forking (arg ∷ args) j m ≡ none
  unfolding start_producers start_worker_process
  start_producers-none arg args j m full =
      rw (set_slot-out m.arg_arr (worker (pids m.forks) arg) j full)

  abbrev initial : List Producer → Master
  initial producers = record {
    arg_arr = vacant_slots (length producers);
    child_fd = [];
    is_init = false;
    forks = 0;
  }

  first_round :
      (config : Config) (producers : List Producer)
      → (m : Master) × (start_producers forking
            (map (worker_arg config) producers)
            0
            (initial producers)
          ≡ some (length producers, m))
        × Started [] (map (worker_arg config) producers) (initial producers) m
  first_round config producers =
      let args = map (worker_arg config) producers in
      let long = length-map (worker_arg config) producers in
      let (m, run, s) =
        start_producers-some args [] 0 (initial producers) refl (ap vacant_slots (sym long)) in
      let end : 0 + length args ≡ length producers = omega (arith, long) in
      (m, run ∙ ap (λ k. some (k, m)) end, s)

  -- With one connection for each producer and forks that work, `subscribe` starts one worker for each
  -- producer, in order, each in its own slot with its own pid, and remembers the pids.
  pub start_workers-one :
      (config : Config) (producers : List Producer)
      → (config.connect_num ≡ none) ⊎ (config.connect_num ≡ some (pos 1))
      → (m : Master) × (start_workers forking config producers ≡ some (length producers, m))
        × (m.arg_arr ≡ workers_from 0 (map (worker_arg config) producers))
        × (m.child_fd ≡ pids_from 0 (map (worker_arg config) producers))
  unfolding start_workers start_rounds
  start_workers-one config producers once =
      let (m, run, (slots, children, forks)) = first_round config producers in
      let round : rounds_of config.connect_num ≡ suc zero = elim once [
        | inl e ↦ ap rounds_of e
        | inr e ↦ ap rounds_of e
      ] in
      (m, rw (round, start_rounds, run), slots, children)

  -- With two connections or more for each producer, at least one producer and forks that work,
  -- `subscribe` writes outside the array of its workers.
  pub start_workers-overflow :
      (config : Config) (p : Producer) (ps : List Producer) (n : ℕ)
      → config.connect_num ≡ some (pos (suc (suc n)))
      → start_workers forking config (p ∷ ps) ≡ none
  unfolding start_workers start_rounds start_producers start_worker_process set_slot worker_arg
  start_workers-overflow config p ps n twice =
      let (m, run, (slots, children, forks)) = first_round config (p ∷ ps) in
      let args = map (worker_arg config) (p ∷ ps) in
      let full : length m.arg_arr ≤ length (p ∷ ps) = omega (
        arith,
        ap length slots,
        length-workers_from 0 args,
        length-map (worker_arg config) (p ∷ ps),
      ) in
      let second =
        start_producers-none (worker_arg config p) (map (worker_arg config) ps) (length (p ∷ ps)) m
          full in
      let rounds : rounds_of config.connect_num ≡ suc (suc n) = ap rounds_of twice in
      rw (rounds, start_rounds, run, second)
