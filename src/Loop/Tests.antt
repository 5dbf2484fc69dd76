-- ===== src/Loop/Tests.antt =====
-- The event loop on a message that comes in two pieces, with the timer in between.
use php_nsq.Prelude.{◌≡◌, refl, true, some, Bytes, List, [], ◌∷◌, ◌++◌, take, codes, arith}
use php_nsq.Wire.{pos}
use php_nsq.Receive.Frame.{heartbeat, payload, delivered, nops}
use php_nsq.Receive.Sample.{counting, zeros, hello, hello-IsFrame, reader}
use php_nsq.Loop.{arrives, Loop, run, cleaned, System, subscribe}
use php_nsq.Loop.Arrival.{between, start_of, begun}
use php_nsq.Loop.Abstract.{Abstract, initial, Run, over, comes}
use php_nsq.Loop.Ticks.{Refines}
use php_nsq.Receive.Backing.{Holding}
use php_nsq.Queue.{Store}
use php_nsq.Queue.Chain.{IsFreed, Entry, IsQueue, messages}
use php_nsq.Queue.Cleanup.{Without}
use php_nsq.Loop.Reconnect.{run-mixed}
use php_nsq.Loop.Arrival.{IsCut, inside}
use php_nsq.Receive.Frame.{Frame, message, IsFrame}
use php_nsq.Loop.{reconnected}
use php_nsq.Loop.Dispatch.{subscribe-cleaned}
use php_nsq.Loop.Progress.{timers, run-handled}
use php_nsq.Loop.Replies.{Told, Interleaves, run-Told}
use php_nsq.Command.{Output}
use php_nsq.Loop.Refinement.{run-Refines}
use php_nsq.Loop.Sample.{
  events, events_feed, socket, settings, begins, zeros_settle, system, numeric,
}

run-Refines_example :
    (r' : Loop socket counting zeros settings) × (b : Abstract) × (run socket counting zeros
        settings events
        (reader zeros [])
      ≡ some r')
    × Run zeros settings initial events b
    × Refines socket counting zeros settings r' b
    × (b.phase ≡ between)
    × (b.arrived ≡ heartbeat ∷ hello ∷ [])
run-Refines_example =
    run-Refines socket counting zeros settings (λ n h. refl) (λ a. (0, omega arith, zeros_settle))
      (omega arith) (omega arith) events_feed (reader zeros []) initial refl begins

-- The kernel's polling fails behind the events.
abbrev failing : System
failing = record system { polling_fails = true }

subscribe-cleaned_example :
    (r' : Loop socket counting zeros settings) × (b : Abstract) × (s : Store) × (left : List Entry)
    × (run socket counting zeros settings events (reader zeros []) ≡ some r')
    × (subscribe socket counting zeros settings failing (codes "127.0.0.1") events (reader zeros [])
        ≡ cleaned s)
    × Run zeros settings initial events b
    × (r'.out ≡ b.out)
    × IsQueue r'.queue.0 left
    × (messages left ≡ b.waiting)
    × IsQueue s []
    × Without left r'.queue.0.heap s.heap
    × IsFreed s.heap
subscribe-cleaned_example =
    subscribe-cleaned socket counting zeros settings (λ n h. refl)
      (λ a. (0, omega arith, zeros_settle)) (omega arith) (omega arith) failing (codes "127.0.0.1")
      numeric refl refl events_feed (reader zeros []) initial refl begins

run-handled_example :
    (r' : Loop socket counting zeros settings) × (b : Abstract) × (run socket counting zeros
        settings
        (events ++ timers 2)
        (reader zeros [])
      ≡ some r')
    × Run zeros settings initial (events ++ timers 2) b
    × Refines socket counting zeros settings r' b
    × (r'.out ≡ b.out)
    × (b.handled ≡ delivered (pos 5000) true (heartbeat ∷ hello ∷ []))
    × IsQueue r'.queue.0 []
    × IsFreed r'.queue.0.heap
run-handled_example =
    run-handled socket counting zeros settings (λ n h. refl) (λ a. (0, omega arith, zeros_settle))
      (omega arith) (omega arith) 2 (reader zeros []) events_feed (omega arith) begins

run-Told_example :
    (r' : Loop socket counting zeros settings) × (os : List Output) × (run socket counting zeros
        settings
        (events ++ timers 2)
        (reader zeros [])
      ≡ some r')
    × Told zeros settings (delivered (pos 5000) true (heartbeat ∷ hello ∷ [])) os
    × Interleaves (nops (heartbeat ∷ hello ∷ [])) os r'.out
run-Told_example =
    run-Told socket counting zeros settings (λ n h. refl) (λ a. (0, omega arith, zeros_settle))
      (omega arith) (omega arith) 2 (reader zeros []) events_feed (omega arith) begins

-- The message without its last two bytes, and what the first two bytes of a response make of it.
abbrev most : Bytes
most = take 33 (payload hello)

abbrev mixed : Frame
mixed = message (codes "\0\0\0\0\0\0\0\t") (0 ∷ 3 ∷ []) (codes "0123456789abcdef") (codes "hel\0\0")

mixed-IsFrame : IsFrame mixed
mixed-IsFrame = record { parts = (refl, refl, refl, omega arith, omega arith); small = omega arith }

hello-IsCut : IsCut hello most (codes "lo")
hello-IsCut = record { frame = hello-IsFrame; split = refl; missing = omega arith }

mixed-IsCut : IsCut mixed most (0 ∷ 0 ∷ [])
mixed-IsCut = record { frame = mixed-IsFrame; split = refl; missing = omega arith }

broken_off :
    (r' : Loop socket counting zeros settings) × (b : Abstract) × (run socket counting zeros
        settings
        (arrives ([] ++ start_of hello most) ∷ [])
        (reader zeros [])
      ≡ some r')
    × Run zeros settings initial (arrives ([] ++ start_of hello most) ∷ []) b
    × Refines socket counting zeros settings r' b
    × (b.phase ≡ inside hello most (codes "lo"))
    × (b.arrived ≡ [])
broken_off =
    run-Refines socket counting zeros settings (λ n h. refl) (λ a. (0, omega arith, zeros_settle))
      (omega arith) (omega arith)
      (comes (begun [] hello most (codes "lo") tt hello-IsCut) tt
        (over (inside hello most (codes "lo"))))
      (reader zeros []) initial refl begins

run-mixed_example :
    (r' : Loop socket counting zeros settings) × (run socket counting zeros settings
        (arrives ((0 ∷ 0 ∷ []) ++ []) ∷ [])
        (reconnected socket counting zeros settings broken_off.0 [])
      ≡ some r')
    × Holding counting r'.queue (broken_off.1.waiting ++ delivered (pos 5000) true (mixed ∷ []))
    × (r'.out ≡ broken_off.1.out ++ [])
    × Refines socket counting zeros settings r' (record broken_off.1 {
      phase = between;
      arrived = broken_off.1.arrived ++ (mixed ∷ []);
      waiting = broken_off.1.waiting ++ delivered (pos 5000) true (mixed ∷ []);
      out = broken_off.1.out ++ [];
    })
run-mixed_example =
    run-mixed socket counting zeros settings (λ n h. refl) (λ a. (0, omega arith, zeros_settle))
      (omega arith) (omega arith) hello mixed most (codes "lo") (0 ∷ 0 ∷ []) [] broken_off.0
      broken_off.1 [] hello-IsCut mixed-IsCut refl tt (omega arith, tt) refl broken_off.5
      broken_off.4
