-- ===== src/Receive/Backing.antt =====
-- The linked list of sub.c as the queue behind `readcb`: its theorems fill the interface, for any
-- allocator that gives memory not in use.
use php_nsq.Prelude.{◌≡◌, sym, ap, ◌∙◌, ◌≢◌, Option, none, some, List, [], ◌∷◌, ◌++◌, arith}
use mathlib.Core.List.{map-append}
use php_nsq.Queue.{Ptr, null, Pending, raw, Heap, write, Store, enqueue_message}
use php_nsq.Queue.Chain.{
  Owned, Owned-append, Entry, kept, Chain, IsQueue, messages, SameOutside, write_self, write_other,
  not_has_of_none, has-append,
}
use php_nsq.Queue.Enqueue.{entry, enqueue_message-IsQueue}
use php_nsq.Receive.{MessageQueue}

-- `malloc`, where it does not fail: the address it gives is not null and not in use. `Fits a h` says
-- that the allocator in the state `a` knows every address that is in use in `h`. Behind calls of
-- `free` it is in the state `reclaim a g`, where `g` is the heap that they leave.
pub record Malloc : Type 1 where
  pub State : Type 0
  pub malloc : State → Ptr × State
  pub Fits : State → Heap → Type 0
  pub malloc-ne_null : (a : State) (h : Heap) → Fits a h → (malloc a).0 ≢ null
  pub malloc-free : (a : State) (h : Heap) → Fits a h → h (malloc a).0 ≡ none
  pub malloc-Fits :
      (a : State) (h g : Heap)
      → Fits a h
      → ((b : Ptr) → b ≢ (malloc a).0 → h b ≡ none → g b ≡ none)
      → Fits (malloc a).1 g
  pub reclaim : State → Heap → State
  pub reclaim-Fits :
      (a : State) (h g : Heap)
      → Fits a h
      → ((b : Ptr) → h b ≡ none → g b ≡ none)
      → Fits (reclaim a g) g

-- An address that is free once the node has its memory, and is not the body's, stays free.
still_free :
    (s : Store) (es : List Entry) (g : Heap) (p b : Ptr) (m : Pending)
    → Chain s.heap null es
    → SameOutside (es ++ (entry p b m ∷ [])) s.heap g
    → (c : Ptr) → c ≢ b
    → write s.heap p (some raw) c ≡ none
    → g c ≡ none
still_free s es g p b m ch same c ne free =
    let not_p : c ≢ p =
      λ e. cc (free, write_self s.heap p (some raw), ap (write s.heap p (some raw)) e) in
    let old : s.heap c ≡ none = sym (write_other s.heap p (some raw) c not_p) ∙ free in
    let out = not_has_of_none s.heap null es c ch old in
    same c (ground (arith, has-append c es (entry p b m ∷ []), out)) ∙ old

module _ (A : Malloc) where
  open A use {State, malloc, Fits}

  -- `malloc` for the node, `malloc` for the body, and `enqueue_message`.
  unfoldable pub enqueue : Pending → Store × State → Option (Store × State)
  enqueue m (s, a) =
      let (p, a') = malloc a in
      let (b, a'') = malloc a' in
      elim (enqueue_message p b m s) [ none ↦ none | some s' ↦ some (s', a'') ]

  unfoldable pub Holding : Store × State → List Pending → Type 0
  Holding (s, a) ms =
      (es : List Entry) × IsQueue s es × (messages es ≡ ms) × Fits a s.heap × Owned s.heap es

  pub enqueue-Holding :
      (m : Pending) (q : Store × State) (ms : List Pending)
      → Holding q ms
      → (q' : Store × State) × (enqueue m q ≡ some q') × Holding q' (ms ++ (kept m ∷ []))
  unfolding enqueue Holding
  enqueue-Holding m (s, a) ms (es, q, same, fits, own) =
      let p = (malloc a).0 in
      let a' = (malloc a).1 in
      let taken = write s.heap p (some raw) in
      let fits' : Fits a' taken =
        A.malloc-Fits a s.heap taken fits (λ c ne free. write_other s.heap p _ c ne ∙ free) in
      let b = (malloc a').0 in
      let b_free = A.malloc-free a' taken fits' in
      let apart : b ≢ p = λ e. cc (b_free, write_self s.heap p (some raw), ap taken e) in
      let (s', done, q', kept_out) =
        enqueue_message-IsQueue s es p b m q (A.malloc-ne_null a s.heap fits)
          (A.malloc-ne_null a' taken fits') (λ e. apart (sym e)) (A.malloc-free a s.heap fits)
          (sym (write_other s.heap p _ b apart) ∙ b_free) in
      let fits'' : Fits (malloc a').1 s'.heap =
        A.malloc-Fits a' taken s'.heap fits' (still_free s es s'.heap p b m q.chain kept_out) in
      (
        (s', (malloc a').1),
        rw (done, enqueue),
        (
          es ++ (entry p b m ∷ []),
          q',
          rw (map-append, same),
          fits'',
          Owned-append es (entry p b m ∷ []) s.heap s'.heap kept_out own,
        ),
      )

  abbrev pub linked_queue : MessageQueue
  linked_queue = record {
    Q = Store × State;
    Holding = Holding;
    enqueue = enqueue;
    enqueue-Holding = enqueue-Holding;
  }

-- A queue that holds messages has a heap, and a count, that show them, and nothing is leaked.
pub Holding-IsQueue :
    (A : Malloc) (s : Store) (a : A.State) (ms : List Pending)
    → Holding A (s, a) ms
    → (es : List Entry) × IsQueue s es × (messages es ≡ ms) × Owned s.heap es
unfolding Holding
Holding-IsQueue A s a ms (es, q, same, fits, own) = (es, q, same, own)
