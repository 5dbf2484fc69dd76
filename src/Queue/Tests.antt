-- ===== src/Queue/Tests.antt =====
-- The theorems about the queue on a heap with two messages in it.
use php_nsq.Prelude.{◌≡◌, refl, none, some, [], ◌∷◌, arith}
use php_nsq.Queue.{
  drop_message, null, write, Store, enqueue_message, dequeue_message, cleanup_message_queue, load,
  free, free_message, cleanup_rounds,
}
use php_nsq.Queue.Chain.{IsQueue, SameOutside}
use php_nsq.Queue.Enqueue.{entry, enqueue_message-IsQueue}
use php_nsq.Queue.Sample.{pending, one, two, heap, store, store-IsQueue}
use php_nsq.Queue.Cleanup.{Without, cleanup_message_queue-Without}

enqueue_message-IsQueue_example :
    (s' : Store) × (enqueue_message 5 6 pending store ≡ some s')
    × IsQueue s' (one ∷ two ∷ entry 5 6 pending ∷ [])
    × SameOutside (one ∷ two ∷ entry 5 6 pending ∷ []) heap s'.heap
unfolding write
enqueue_message-IsQueue_example =
    enqueue_message-IsQueue store (one ∷ two ∷ []) 5 6 pending store-IsQueue (ground arith)
      (ground arith) (ground arith) refl refl

cleanup_message_queue-Without_example :
    (s' : Store) × (cleanup_message_queue store ≡ some s')
    × IsQueue s' []
    × Without (one ∷ two ∷ []) heap s'.heap
cleanup_message_queue-Without_example =
    cleanup_message_queue-Without store (one ∷ two ∷ []) store-IsQueue

-- Cleaning the queue of two runs three rounds and leaves both null pointers.
cleanup_runs :
    cleanup_message_queue store
    ≡ some (record {
      heap = write (write (write (write heap 2 none) 1 none) 4 none) 3 none;
      head = null;
      tail = null;
      count = 0;
    })
unfolding cleanup_message_queue cleanup_rounds drop_message dequeue_message free_message load free
    write
cleanup_runs = refl
