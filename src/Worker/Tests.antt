-- ===== src/Worker/Tests.antt =====
-- Workers started, ended and started again for two producers.
use php_nsq.Prelude.{
  ℕ, ◌+◌, ◌≡◌, refl, true, false, none, some, [], ◌∷◌, inl, All, map, length, codes,
}
use php_nsq.Wire.{pos}
use php_nsq.Worker.{
  Config, Producer, worker_arg, Master, start_workers, ended, interrupted, no_child, wait_loop,
  terminated,
}
use php_nsq.Worker.Tree.{spawned, in_child, refused-spawned}
use php_nsq.Receive.Sample.{counting, zeros, reader}
use php_nsq.Loop.{System}
use php_nsq.Loop.Sample.{socket, settings, system, numeric}
use php_nsq.Worker.Keep.{args_of}
use php_nsq.Worker.Stop.{Reached, terminated-Reached}
use php_nsq.Worker.Start.{forking, start_workers-overflow}

abbrev config : Config
config = record {
  topic = codes "orders";
  channel = codes "billing";
  rdy = none;
  retry_delay_time = none;
  connect_num = none;
  auto_finish_is_false = false;
}

abbrev twice : Config
twice = record config { connect_num = some (pos 2) }

abbrev here : Producer
here = record { broadcast_address = codes "127.0.0.1"; tcp_port = codes "4150" }

abbrev there : Producer
there = record { broadcast_address = codes "nsqd2"; tcp_port = codes "4150" }

abbrev pids : ℕ → ℕ
pids k = 100 + k

start_workers-overflow_example : start_workers (forking pids) twice (here ∷ there ∷ []) ≡ none
start_workers-overflow_example = start_workers-overflow pids twice here (there ∷ []) 0 refl

terminated-Reached_example :
    (m m' : Master) × (start_workers (forking pids) config (here ∷ there ∷ []) ≡ some (2, m))
    × (wait_loop (λ k. none) 2 (ended 101 ∷ interrupted ∷ ended 100 ∷ no_child ∷ []) m ≡ some m')
    × (args_of m'.arg_arr ≡ some (worker_arg config here) ∷ some (worker_arg config there) ∷ [])
    × All (Reached (terminated true m')) m'.arg_arr
terminated-Reached_example =
    terminated-Reached pids (λ k. none) config (here ∷ there ∷ [])
      (ended 101 ∷ interrupted ∷ ended 100 ∷ no_child ∷ []) (inl refl)

-- A system in which libevent gives no event base.
abbrev without_base : System
without_base = record system { base_new = false }

refused-spawned_example :
    length (
        spawned
          (in_child socket counting zeros settings
            (λ arg. without_base)
            (λ arg. [])
            (λ arg. reader zeros []))
          (map (worker_arg config) (here ∷ here ∷ here ∷ [])))
      + 1
    ≡ 8
unfolding worker_arg
refused-spawned_example =
    refused-spawned socket counting zeros settings (λ arg. without_base) (λ arg. [])
      (λ arg. reader zeros []) config (here ∷ here ∷ here ∷ [])
      ((numeric, refl), ((numeric, refl), ((numeric, refl), tt)))
