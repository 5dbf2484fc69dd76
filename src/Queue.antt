-- ===== src/Queue.antt =====
-- sub.c, the queue of messages that wait for the callback: a linked list of `pending_message_t`
-- with a head, a tail and a count, on an explicit heap. `malloc` is the environment's: a function
-- that allocates takes the pointers that it returns, 0 for a failure. `none` is a fault: an access
-- to memory that is not allocated, or a second `free`.
pub mod Chain
pub mod Enqueue
pub mod Dequeue
pub mod Cleanup
pub mod Walk
pub mod Sample
mod Tests
use mathlib.Core.Option
use php_nsq.Prelude.{
  ℕ, zero, suc, ◌+◌, ◌-◌, Bool, Option, none, some, Bytes, [], ◌∷◌, ◌++◌, take, ◌==◌, if◌then◌else◌,
}
use php_nsq.Wire.{ℤ}

abbrev pub Ptr : Type 0
Ptr = ℕ

abbrev pub null : Ptr
null = 0

-- What a caller passes to `enqueue_message`, and what the callback is given.
pub record Pending : Type 0 where
  pub message_id : Bytes
  pub body : Bytes
  pub body_len : ℕ
  pub timestamp : ℕ
  pub attempts : ℕ
  pub delay_time : ℤ
  pub auto_finish : Bool

-- `pending_message_t`; `timestamp` is the bit pattern of the `int64_t`.
pub record Node : Type 0 where
  pub message_id : Bytes
  pub body : Ptr
  pub body_len : ℕ
  pub timestamp : ℕ
  pub attempts : ℕ
  pub delay_time : ℤ
  pub auto_finish : Bool
  pub next : Ptr

pub data Cell : Type 0 where
  raw : Cell
  node : Node → Cell
  block : Bytes → Cell

abbrev pub Heap : Type 0
Heap = Ptr → Option Cell

unfoldable pub write : Heap → Ptr → Option Cell → Heap
write h p c a = if a == p then c else h a

-- The heap, and the three globals of the queue.
pub record Store : Type 0 where
  pub heap : Heap
  pub head : Ptr
  pub tail : Ptr
  pub count : ℕ

abbrev pub ◌>>=◌ : {A B : Type 0} → Option A → (A → Option B) → Option B
none >>= f = none
some a >>= f = f a

infixl 5 ◌>>=◌
unfoldable pub load : Heap → Ptr → Option Node
load h p = elim (h p) [ some c ↦ elim c [ node n ↦ some n | _ ↦ none ] | none ↦ none ]

unfoldable pub load_block : Heap → Ptr → Option Bytes
load_block h p = elim (h p) [ some c ↦ elim c [ block b ↦ some b | _ ↦ none ] | none ↦ none ]

-- `free(NULL)` does nothing.
unfoldable pub free : Ptr → Heap → Option Heap
free p h = if p == null then some h else elim (h p) [ none ↦ none | some c ↦ some (write h p none) ]

-- The node that `enqueue_message` fills in: the id is cut to 16 bytes and ended by a NUL.
abbrev pub filled : Pending → Ptr → Ptr → Node
filled m body next = record {
  message_id = take 16 m.message_id ++ (0 ∷ []);
  body = body;
  body_len = m.body_len;
  timestamp = m.timestamp;
  attempts = m.attempts;
  delay_time = m.delay_time;
  auto_finish = m.auto_finish;
  next = next;
}

-- The end of `enqueue_message`: the new node goes behind the tail.
unfoldable pub link_tail : Ptr → Store → Option Store
link_tail p s =
    if s.tail == null then some (record s { head = p; tail = p; count = s.count + 1 }) else do
      last ← load s.heap s.tail
      some (record s {
        heap = write s.heap s.tail (some (node (record last { next = p })));
        tail = p;
        count = s.count + 1;
      })

-- `msg` and `body` are what the two calls of `malloc` return.
unfoldable pub enqueue_message : (msg body : Ptr) → Pending → Store → Option Store
enqueue_message msg body m s =
    if msg == null
    then some s
    else if body == null
    then (do h ← free msg (write s.heap msg (some raw)); some (record s { heap = h }))
    else link_tail msg (record s {
      heap =
          write (write s.heap msg (some (node (filled m body null)))) body
            (some (block (take m.body_len m.body ++ (0 ∷ []))));
    })

-- The pointer is `null` for an empty queue. The node stays allocated: the caller frees it.
unfoldable pub dequeue_message : Store → Option (Ptr × Store)
dequeue_message s = if s.head == null then some (null, s) else do
  n ← load s.heap s.head
  some (
    s.head,
    record s { head = n.next; tail = if n.next == null then null else s.tail; count = s.count - 1 },
  )

-- `free(msg->body); free(msg);`
unfoldable pub free_message : Ptr → Store → Option Store
free_message p s = do
  n ← load s.heap p
  h ← free n.body s.heap
  h' ← free p h
  some (record s { heap = h' })

-- The body of the loop of `cleanup_message_queue`.
unfoldable pub drop_message : Store → Option Store
drop_message s = do (p, s') ← dequeue_message s; if p == null then some s' else free_message p s'

-- `while (message_queue_head) { … }`; `none` also stands for a loop that has used up its rounds.
unfoldable pub cleanup_rounds : ℕ → Store → Option Store
cleanup_rounds zero s = none
cleanup_rounds (suc k) s =
    if s.head == null then some s else do s' ← drop_message s; cleanup_rounds k s'

-- One round for each message, and one to see that the queue is empty.
unfoldable pub cleanup_message_queue : Store → Option Store
cleanup_message_queue s = cleanup_rounds (s.count + 1) s
