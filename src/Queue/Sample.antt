-- ===== src/Queue/Sample.antt =====
-- A well-formed queue of two messages, for the tests.
use php_nsq.Prelude.{refl, true, some, none, [], ◌∷◌, codes, arith}
use php_nsq.Wire.{pos}
use php_nsq.Queue.{Pending, node, block, Heap, write, Store}
use php_nsq.Queue.Chain.{Entry, node_of, IsQueue}
use php_nsq.Queue.Enqueue.{entry}

abbrev pub pending : Pending
pending = record {
  message_id = codes "0123456789abcdef";
  body = codes "hello";
  body_len = 5;
  timestamp = 7;
  attempts = 1;
  delay_time = pos 5000;
  auto_finish = true;
}

abbrev pub one : Entry
one = entry 1 2 pending

abbrev pub two : Entry
two = entry 3 4 pending

abbrev pub heap : Heap
heap =
    write
      (write
        (write (write (λ _. none) 1 (some (node (node_of one 3)))) 2
          (some (block (codes "hello\0"))))
        3 (some (node (node_of two 0))))
      4 (some (block (codes "hello\0")))

abbrev pub store : Store
store = record { heap = heap; head = 1; tail = 3; count = 2 }

pub store-IsQueue : IsQueue store (one ∷ two ∷ [])
unfolding write
store-IsQueue = record {
  chain = (
    record {
      ptr_ne = ground arith;
      body_ne = ground arith;
      at_ptr = refl;
      at_body = refl;
      apart = ground arith;
      ptr_out = refl;
      body_out = refl;
    },
    (
      record {
        ptr_ne = ground arith;
        body_ne = ground arith;
        at_ptr = refl;
        at_body = refl;
        apart = ground arith;
        ptr_out = refl;
        body_out = refl;
      },
      tt,
    ),
  );
  head = refl;
  tail = refl;
  count = refl;
}
