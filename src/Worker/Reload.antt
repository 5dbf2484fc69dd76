-- ===== src/Worker/Reload.antt =====
-- A worker that ends is started again, in its own slot.
use php_nsq.Prelude.{
  ℕ, zero, suc, ◌+◌, ◌≡◌, refl, sym, ap, ap₂, ◌∙◌, ◌≢◌, true, false, Option, some, List, [], ◌∷◌,
  ◌++◌, append_assoc, append-nil, All, length, length-append, get_elem?, ◌==◌, ==_self, arith,
}
use php_nsq.Worker.{
  Arg, Slot, vacant, worker, pid_of, Master, set_slot, start_worker_process, reload_at, reload,
}
use php_nsq.Worker.Start.{set_slot-append}

get_elem?-append :
    (xs : List Slot) (y : Slot) (ys : List Slot) (i : ℕ)
    → length xs ≡ i
    → get_elem? (xs ++ (y ∷ ys)) i ≡ some y
get_elem?-append [] y ys zero e = refl
get_elem?-append [] y ys (suc i) e = absurd (omega arith)
get_elem?-append (x ∷ xs) y ys zero e = absurd (omega arith)
get_elem?-append (x ∷ xs) y ys (suc i) e = get_elem?-append xs y ys i (omega arith)

-- Not a slot of the process `pid`.
abbrev pub IsOther : ℕ → Slot → Type 0
IsOther pid s = pid_of s ≢ pid

module _ (fork : ℕ → Option ℕ) (ret_pid : ℕ) where
  reload_at-other :
      (xs : List Slot) (s : Slot) (ys : List Slot) (k : ℕ) (m : Master)
      → length xs ≡ k
      → m.arg_arr ≡ xs ++ (s ∷ ys)
      → IsOther ret_pid s
      → reload_at fork ret_pid k m ≡ some m
  unfolding reload_at
  reload_at-other xs vacant ys k m at e h =
      let found = ap (λ a. get_elem? a k) e ∙ get_elem?-append xs vacant ys k at in rw found
  reload_at-other xs (worker pid arg) ys k m at e h =
      let found = ap (λ a. get_elem? a k) e ∙ get_elem?-append xs (worker pid arg) ys k at in
      let differ : (pid == ret_pid) ≡ false = ground arith in rw (found, differ)

  -- The slots of other processes are passed over.
  reload-others :
      (zs xs ys : List Slot) (n k : ℕ) (m : Master)
      → length xs ≡ k
      → m.arg_arr ≡ xs ++ (zs ++ ys)
      → All (IsOther ret_pid) zs
      → reload fork (length zs + n) ret_pid k m ≡ reload fork n ret_pid (k + length zs) m
  unfolding reload
  reload-others [] xs ys n k m at e h =
      let start : 0 + n ≡ n = omega arith in
      let end : k ≡ k + 0 = omega arith in ap₂ (λ a b. reload fork a ret_pid b m) start end
  reload-others (z ∷ zs) xs ys n k m at e h =
      let here = reload_at-other xs z (zs ++ ys) k m at e h.0 in
      let there =
        reload-others zs (xs ++ (z ∷ [])) ys n (k + 1) m
          (omega (arith, at, length-append xs (z ∷ [])))
          (e ∙ sym (append_assoc xs (z ∷ []) (zs ++ ys))) h.1 in
      let count : suc (length zs) + n ≡ suc (length zs + n) = omega arith in
      let end : k + 1 + length zs ≡ k + suc (length zs) = omega arith in
      rw (count, reload, here, there, end)

  reload-step :
      (n k : ℕ) (m m' : Master)
      → reload_at fork ret_pid k m ≡ some m'
      → reload fork (suc n) ret_pid k m ≡ reload fork n ret_pid (k + 1) m'
  unfolding reload
  reload-step n k m m' h = rw h

  reload_at-worker :
      (before after : List Slot) (arg : Arg) (pid k : ℕ) (m : Master)
      → length before ≡ k
      → m.arg_arr ≡ before ++ (worker ret_pid arg ∷ after)
      → fork m.forks ≡ some pid
      → reload_at fork ret_pid k m
        ≡ some (record {
          arg_arr = before ++ (worker pid arg ∷ after);
          child_fd = m.child_fd ++ (pid ∷ []);
          is_init = true;
          forks = m.forks + 1;
        })
  unfolding reload_at start_worker_process
  reload_at-worker before after arg pid k m at e works =
      let w = worker ret_pid arg in
      let found = ap (λ a. get_elem? a k) e ∙ get_elem?-append before w after k at in
      let stored =
        ap (set_slot k (worker pid arg)) e ∙ set_slot-append before w after (worker pid arg) k at in
      rw (found, ==_self ret_pid, start_worker_process, works, stored)

  -- When the process of one worker ends and `fork` works, the loops behind `wait` start that worker
  -- again with the argument it had, in the slot it had, and touch no other; they end without a read
  -- or a write outside the array. The pid that has ended stays among those that SIGTERM kills.
  reload-worker :
      (before after : List Slot) (arg : Arg) (pid : ℕ) (m : Master)
      → m.arg_arr ≡ before ++ (worker ret_pid arg ∷ after)
      → All (IsOther ret_pid) before
      → All (IsOther ret_pid) after
      → fork m.forks ≡ some pid
      → reload fork (length m.arg_arr) ret_pid 0 m
        ≡ some (record {
          arg_arr = before ++ (worker pid arg ∷ after);
          child_fd = m.child_fd ++ (pid ∷ []);
          is_init = true;
          forks = m.forks + 1;
        })
  reload-worker before after arg pid m e hb ha works =
      let w = worker pid arg in
      let m1 : Master = record {
        arg_arr = before ++ (w ∷ after);
        child_fd = m.child_fd ++ (pid ∷ []);
        is_init = true;
        forks = m.forks + 1;
      } in
      let k = 0 + length before in
      let count : length m.arg_arr ≡ length before + suc (length after) =
        omega (arith, ap length e, length-append before (worker ret_pid arg ∷ after)) in
      let rest : length after ≡ length after + 0 = omega arith in
      let behind : length (before ++ (w ∷ [])) ≡ k + 1 =
        omega (arith, length-append before (w ∷ [])) in
      let split : m1.arg_arr ≡ (before ++ (w ∷ [])) ++ (after ++ []) =
        rw (append-nil, append_assoc) in
      ap (λ n. reload fork n ret_pid 0 m) count
      ∙ reload-others before [] (worker ret_pid arg ∷ after) (suc (length after)) 0 m refl e hb
      ∙ reload-step (length after) k m m1
          (reload_at-worker before after arg pid k m (omega arith) e works)
      ∙ ap (λ n. reload fork n ret_pid (k + 1) m1) rest
      ∙ reload-others after (before ++ (w ∷ [])) [] 0 (k + 1) m1 behind split ha
      ∙ unfold reload in refl
