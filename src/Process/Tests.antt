-- ===== src/Process/Tests.antt =====
-- Ticks of the timer on a queue of two messages.
use php_nsq.Prelude.{◌≡◌, refl, true, none, some, List, [], ◌∷◌, ◌++◌, codes, arith}
use php_nsq.Wire.{pos}
use php_nsq.Command.{Output, queued, direct, sprintf_buf, nsq_ready}
use php_nsq.Command.Line.{send, rdy}
use php_nsq.Print.{c_string, format_int}
use php_nsq.Queue.{Store, write, load, load_block, free, dequeue_message, free_message}
use php_nsq.Queue.Chain.{IsQueue}
use php_nsq.Queue.Cleanup.{Without}
use php_nsq.Queue.Sample.{pending, one, two, heap, store, store-IsQueue}
use php_nsq.Process.{Callback, reply, process_business_message, process_message_queue}
use php_nsq.Process.Answer.{IsRegular, object_of, answer, Sends, process_message_queue-cons}

-- A callback that touches the message and then throws.
abbrev throws : Callback
throws m = record { written = direct (codes "TOUCH\n") ∷ []; success = true; exception = true }

pending-IsRegular : IsRegular pending
pending-IsRegular = record {
  id_length = refl;
  id_text = omega arith;
  delay = omega arith;
  body_length = refl;
}

empty : Store
empty = record { heap = heap; head = 0; tail = 0; count = 0 }

empty-IsQueue : IsQueue empty []
unfolding empty
empty-IsQueue = record { chain = tt; head = refl; tail = refl; count = refl }

process_message_queue-cons_example :
    (s' : Store) × (os : List Output) × (ready : Output) × (process_message_queue throws
        (pos 2)
        store
      ≡ some (s', (direct (codes "TOUCH\n") ∷ []) ++ os ++ (ready ∷ [])))
    × Sends (answer pending (throws (object_of pending))) os
    × (send (rdy (pos 2)) ≡ some ready)
    × IsQueue s' (two ∷ [])
    × Without (one ∷ []) heap s'.heap
process_message_queue-cons_example =
    process_message_queue-cons throws (pos 2) store one (two ∷ []) store-IsQueue pending-IsRegular
      (omega arith)

process_runs :
    process_message_queue throws (pos 2) store
    ≡ some (
      record { heap = write (write heap 2 none) 1 none; head = 3; tail = 3; count = 1 },
      direct (codes "TOUCH\n")
          ∷ queued (codes "REQ 0123456789abcdef 5000\n")
          ∷ queued (codes "RDY 2\n")
          ∷ [],
    )
unfolding process_message_queue process_business_message reply dequeue_message load load_block
    free_message free write nsq_ready sprintf_buf c_string format_int
process_runs = refl
