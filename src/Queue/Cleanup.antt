-- ===== src/Queue/Cleanup.antt =====
-- `cleanup_message_queue` ends, and frees every node and every body exactly once.
use php_nsq.Prelude.{
  ℕ, zero, suc, ◌+◌, ◌<◌, ◌≡◌, refl, ap, ◌∙◌, true, false, Bool-cases, inl, inr, ◌++◌, Option, none,
  some, List, [], ◌∷◌, length, ◌==◌, if◌then◌else◌, arith,
}
use php_nsq.Queue.{
  drop_message, Ptr, null, Cell, Heap, write, Store, cleanup_rounds, cleanup_message_queue,
}
use php_nsq.Queue.Chain.{Entry, not_null, has, has-append, Owned, IsQueue}
use php_nsq.Queue.Dequeue.{without, dequeue_message-nil, dequeue_message-cons, free_message-Holds}

-- `g` is `h` less the cells of the entries.
abbrev pub Without : List Entry → Heap → Heap → Type 0
Without es h g = (a : Ptr) → g a ≡ (if has a es then none else h a)

abbrev pub Cleaned : Store → List Entry → Option Store → Type 0
Cleaned s es none = ⊥
Cleaned s es (some s') = IsQueue s' [] × Without es s.heap s'.heap

pub without-Without :
    (e : Entry) (es : List Entry) (h g : Heap) → Without es (without e h) g → Without (e ∷ es) h g
unfolding write
without-Without e es h g gone a = ground (arith, gone a)

pub drop_message-cons :
    (s : Store) (e : Entry) (es : List Entry)
    → IsQueue s (e ∷ es)
    → (s' : Store) × (drop_message s ≡ some s') × IsQueue s' es × (s'.heap ≡ without e s.heap)
unfolding drop_message
drop_message-cons s e es q =
    let (s', taken, q', x, same) = dequeue_message-cons s e es q in
    let (freed, q'') = free_message-Holds s' e es x q' in
    (
      record s' { heap = without e s'.heap },
      rw (taken, not_null e.ptr x.ptr_ne, freed),
      q'',
      ap (without e) same,
    )

pub drop_message-nil : (s : Store) → IsQueue s [] → drop_message s ≡ some s
unfolding drop_message
drop_message-nil s q = rw (dequeue_message-nil s q)

pub without-none : (e : Entry) (h : Heap) (b : Ptr) → h b ≡ none → without e h b ≡ none
unfolding write
without-none e h b unused = ground (arith, unused)

Cleaned-cons :
    (e : Entry) (es : List Entry) (s s' : Store)
    → s'.heap ≡ without e s.heap
    → (r : Option Store) → Cleaned s' es r
    → Cleaned s (e ∷ es) r
Cleaned-cons e es s s' same none c = c
Cleaned-cons e es s s' same (some r) (q, gone) =
    (q, λ a. without-Without e es s.heap r.heap (λ b. gone b ∙ ap (λ h. cells h b) same) a)
  where
    cells : Heap → Ptr → Option Cell
    cells h b = if has b es then none else h b

cleanup_rounds-Cleaned :
    (k : ℕ) (s : Store) (es : List Entry)
    → length es < k
    → IsQueue s es
    → Cleaned s es (cleanup_rounds k s)
unfolding cleanup_rounds
cleanup_rounds-Cleaned zero s es h q = absurd (omega arith)
cleanup_rounds-Cleaned (suc k) s [] h q =
    let empty : (s.head == null) ≡ true = ground (arith, q.head) in rw empty (q, λ a. refl)
cleanup_rounds-Cleaned (suc k) s (e ∷ es) h q =
    let (s', done, q', heap) = drop_message-cons s e es q in
    let more : (s.head == null) ≡ false = ground (arith, q.head, q.chain.0.ptr_ne) in
    rw (more, done)
      (Cleaned-cons e es s s' heap _ (cleanup_rounds-Cleaned k s' es (omega arith) q'))

Cleaned-some :
    (s : Store) (es : List Entry) (r : Option Store)
    → Cleaned s es r
    → (s' : Store) × (r ≡ some s') × IsQueue s' [] × Without es s.heap s'.heap
Cleaned-some s es none c = absurd c
Cleaned-some s es (some s') (q, gone) = (s', refl, q, gone)

-- On a well-formed queue `cleanup_message_queue` ends without a fault, leaves the empty queue, and
-- frees exactly the nodes and bodies of the queue: no leak, no double free, nothing else touched.
pub cleanup_message_queue-Without :
    (s : Store) (es : List Entry)
    → IsQueue s es
    → (s' : Store) × (cleanup_message_queue s ≡ some s') × IsQueue s' [] × Without es s.heap s'.heap
unfolding cleanup_message_queue
cleanup_message_queue-Without s es q =
    Cleaned-some s es _ (cleanup_rounds-Cleaned (s.count + 1) s es (omega (arith, q.count)) q)

-- What is freed is not leaked, and what is left is that of the other entries.
pub Without-Owned :
    (es fs : List Entry) (h g : Heap) → Without es h g → Owned h (es ++ fs) → Owned g fs
Without-Owned es fs h g gone own a out = elim (Bool-cases (has a es)) [
  | inl freed ↦ rw (gone a, freed) refl
  | inr kept_out ↦ rw (gone a, kept_out) (own a (ground (arith, has-append a es fs)))
]
