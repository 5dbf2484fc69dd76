-- ===== src/Queue/Walk.antt =====
-- The messages that a heap and the globals of the queue represent, read off from the pointers.
use php_nsq.Prelude.{
  ℕ, zero, suc, ◌≡◌, refl, ap, Bytes, none, some, List, [], ◌∷◌, ◌++◌, take, length,
}
use php_nsq.Queue.{Ptr, null, Pending, Node, Heap, Store, load, load_block}
use php_nsq.Queue.Chain.{Entry, kept, node_of, first, Chain, IsQueue, messages}
use php_nsq.Queue.Dequeue.{load-Holds, load_block-Holds}

-- A text in memory without the NUL behind it.
abbrev pub front : Bytes → Bytes
front [] = []
front (x ∷ []) = []
front (x ∷ y ∷ bs) = x ∷ front (y ∷ bs)

front-append : (bs : Bytes) → front (bs ++ (0 ∷ [])) ≡ bs
front-append [] = refl
front-append (x ∷ []) = refl
front-append (x ∷ y ∷ bs) = ap (λ zs. x ∷ zs) (front-append (y ∷ bs))

abbrev pub pending : Node → Bytes → Pending
pending n body = record {
  message_id = front n.message_id;
  body = front body;
  body_len = n.body_len;
  timestamp = n.timestamp;
  attempts = n.attempts;
  delay_time = n.delay_time;
  auto_finish = n.auto_finish;
}

-- At most so many nodes from `p` on, as far as the memory holds nodes with bodies.
unfoldable pub walk : ℕ → Heap → Ptr → List Pending
walk zero h p = []
walk (suc k) h p = elim (load h p) [
  | none ↦ []
  | some n ↦ elim (load_block h n.body) [ none ↦ [] | some b ↦ pending n b ∷ walk k h n.next ]
]

unfoldable pub contents : Store → List Pending
contents s = walk s.count s.heap s.head

pending-node_of :
    (e : Entry) (next : Ptr) → pending (node_of e next) (e.msg.body ++ (0 ∷ [])) ≡ e.msg
pending-node_of e next = rw (front-append e.msg.message_id, front-append e.msg.body) refl

walk-Chain :
    (h : Heap) (stop : Ptr) (es : List Entry)
    → Chain h stop es
    → walk (length es) h (first es stop) ≡ messages es
unfolding walk
walk-Chain h stop [] ch = refl
walk-Chain h stop (e ∷ es) (x, ch) = rw (
  load-Holds h e (first es stop) es x,
  load_block-Holds h e (first es stop) es x,
  pending-node_of e (first es stop),
  walk-Chain h stop es ch,
  walk,
)

pub contents-messages : (s : Store) (es : List Entry) → IsQueue s es → contents s ≡ messages es
unfolding contents
contents-messages s es q = rw (q.count, q.head) (walk-Chain s.heap null es q.chain)

-- The queue keeps nothing less of a message that it has kept.
abbrev pub IsKept : Pending → Type 0
IsKept m = kept m ≡ m

take_again : (n : ℕ) (bs : Bytes) → take n (take n bs) ≡ take n bs
take_again zero bs = refl
take_again (suc n) [] = refl
take_again (suc n) (b ∷ bs) = ap (λ zs. b ∷ zs) (take_again n bs)

pub kept-IsKept : (m : Pending) → IsKept (kept m)
kept-IsKept m = rw (take_again 16 m.message_id, take_again m.body_len m.body) refl
