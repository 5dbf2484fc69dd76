-- ===== src/Queue/Dequeue.antt =====
-- `dequeue_message` takes the oldest message, and the caller's two calls of `free` give back its
-- memory and nothing else.
use php_nsq.Prelude.{◌-◌, ◌≡◌, refl, none, some, List, [], ◌∷◌, ◌++◌, ◌==◌, if◌then◌else◌, arith}
use php_nsq.Queue.{
  Ptr, null, Heap, write, Store, load, load_block, free, dequeue_message, free_message,
}
use php_nsq.Queue.Chain.{Entry, not_null, write_other, node_of, first, Holds, IsQueue, Chain-write}

pub load-Holds :
    (h : Heap) (e : Entry) (next : Ptr) (es : List Entry)
    → Holds h e next es
    → load h e.ptr ≡ some (node_of e next)
unfolding load
load-Holds h e next es x = rw (x.at_ptr, load)

pub load_block-Holds :
    (h : Heap) (e : Entry) (next : Ptr) (es : List Entry)
    → Holds h e next es
    → load_block h e.body ≡ some (e.msg.body ++ (0 ∷ []))
unfolding load_block
load_block-Holds h e next es x = rw (x.at_body, load_block)

module _ (s : Store) where
  -- On an empty queue `dequeue_message` gives the null pointer and changes nothing.
  pub dequeue_message-nil : IsQueue s [] → dequeue_message s ≡ some (null, s)
  unfolding dequeue_message
  dequeue_message-nil q = rw (q.head)

  abbrev pub shifted : List Entry → Store
  shifted es = record s {
    head = first es null;
    tail = if first es null == null then null else s.tail;
    count = s.count - 1;
  }

  shifted-IsQueue : (e : Entry) (es : List Entry) → IsQueue s (e ∷ es) → IsQueue (shifted es) es
  shifted-IsQueue e [] q = record {
    chain = tt;
    head = refl;
    tail = refl;
    count = omega (arith, q.count);
  }
  shifted-IsQueue e (f ∷ es) q = record {
    chain = q.chain.1;
    head = refl;
    tail = rw (not_null f.ptr q.chain.1.0.ptr_ne) q.tail;
    count = omega (arith, q.count);
  }

  -- On a queue that is not empty `dequeue_message` gives the node of the oldest message, which
  -- stays allocated with all its fields, and leaves a well-formed queue of the later messages.
  pub dequeue_message-cons :
      (e : Entry) (es : List Entry)
      → IsQueue s (e ∷ es)
      → (s' : Store) × (dequeue_message s ≡ some (e.ptr, s'))
        × IsQueue s' es
        × Holds s'.heap e (first es null) es
        × (s'.heap ≡ s.heap)
  unfolding dequeue_message
  dequeue_message-cons e es q =
      let x = q.chain.0 in
      (
        shifted es,
        rw (q.head, not_null e.ptr x.ptr_ne, load-Holds s.heap e (first es null) es x),
        shifted-IsQueue e es q,
        x,
        refl,
      )

-- `h` without the two cells of an entry
abbrev pub without : Entry → Heap → Heap
without e h = write (write h e.body none) e.ptr none

pub free_message-Holds :
    (s : Store) (e : Entry) (es : List Entry)
    → Holds s.heap e (first es null) es
    → IsQueue s es
    → (free_message e.ptr s ≡ some (record s { heap = without e s.heap }))
      × IsQueue (record s { heap = without e s.heap }) es
unfolding free_message free
free_message-Holds s e es x q = (
  rw (
    load-Holds s.heap e (first es null) es x,
    not_null e.body x.body_ne,
    x.at_body,
    not_null e.ptr x.ptr_ne,
    write_other s.heap e.body none e.ptr x.apart,
    x.at_ptr,
  ),
  record {
    chain =
        Chain-write _ null es e.ptr none x.ptr_out
          (Chain-write s.heap null es e.body none x.body_out q.chain);
    head = q.head;
    tail = q.tail;
    count = q.count;
  },
)
