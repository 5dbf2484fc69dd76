-- ===== src/Receive/View.antt =====
-- sub.c, the queue in memory as its users see it: up to the messages that it holds. The addresses, the
-- heap around them and the state of the allocator are forgotten in a quotient.
pub mod Laws
mod Tests
use php_nsq.Prelude.{
  ◌≡◌, refl, sym, ap, ap₂, ◌∙◌, Option, none, some, List, [], ◌∷◌, ◌++◌, map, append_assoc,
  append-nil, drop, All, All-append, ◌==◌, if◌then◌else◌, arith,
}
use mathlib.Core.HLevel.{Σ_prop_path}
use mathlib.Core.Path.{subst}
use mathlib.Core.Quot
use mathlib.Core.Quot.{Quot, Quot-set}
use php_nsq.Queue.{
  drop_message, Ptr, null, Pending, Heap, write, Store, dequeue_message, free_message,
}
use php_nsq.Queue.Chain.{Owned, Entry, kept, IsQueue, messages, not_null}
use php_nsq.Queue.Dequeue.{without, dequeue_message-nil, dequeue_message-cons, free_message-Holds}
use php_nsq.Queue.Cleanup.{
  Without-Owned, without-Without, drop_message-cons, drop_message-nil, without-none,
}
use php_nsq.Queue.Walk.{contents, contents-messages, IsKept, kept-IsKept}
use php_nsq.Receive.Backing.{Malloc, enqueue, Holding, enqueue-Holding, Holding-IsQueue}

pub messages_set : IsSet (List Pending)
messages_set = hlevel

module _ (A : Malloc) where
  -- A queue in memory that holds messages, with the allocator.
  pub record Memory : Type 0 where
    pub queue : Store × A.State
    pub held : List Pending
    pub holding : Holding A queue held
    pub whole : All IsKept held

  abbrev pub contents_of : Memory → List Pending
  contents_of x = contents x.queue.0

  pub contents_of-held : (x : Memory) → contents_of x ≡ x.held
  contents_of-held x =
      let (es, q, same, own) = Holding-IsQueue A x.queue.0 x.queue.1 x.held x.holding in
      contents-messages x.queue.0 es q ∙ same

  abbrev pub SameMessages : Memory → Memory → Type 0
  SameMessages x y = contents_of x ≡ contents_of y

  abbrev pub View : Type 0
  View = Quot SameMessages

  -- The messages of a view, the oldest first.
  abbrev pub read : View → List Pending
  read = Quot.lift messages_set contents_of (λ x y h. h)

  pub read_injective : (u v : View) → read u ≡ read v → u ≡ v
  read_injective =
      Quot.ind (λ u. hlevel (Quot-set))
        (λ x. Quot.ind (λ v. hlevel (Quot-set)) (λ y h. Quot.sound h))

  abbrev pub pushed : Pending → Memory → Memory
  pushed m x =
      let (q, done, holding) = enqueue-Holding A m x.queue x.held x.holding in
      record {
        queue = q;
        held = x.held ++ (kept m ∷ []);
        holding = holding;
        whole = All-append IsKept x.held (kept m ∷ []) x.whole (kept-IsKept m, tt);
      }

  pub pushed-held :
      (m : Pending) (x : Memory) → contents_of (pushed m x) ≡ contents_of x ++ (kept m ∷ [])
  pushed-held m x =
      contents_of-held (pushed m x) ∙ ap (λ ms. ms ++ (kept m ∷ [])) (sym (contents_of-held x))

  -- `enqueue_message` on a view.
  unfoldable pub push : Pending → View → View
  push m =
      Quot.lift Quot-set (λ x. Quot.mk (pushed m x))
        (λ x y h.
          Quot.sound (pushed-held m x ∙ ap (λ ms. ms ++ (kept m ∷ [])) h ∙ sym (pushed-held m y)))

  -- What the frees leave of a queue, with an allocator that sees it.
  pub dropped :
      (x : Memory)
      → (y : Memory) × (drop_message x.queue.0 ≡ some y.queue.0) × (y.held ≡ drop 1 x.held)
  unfolding Holding
  dropped x = by_entries x.holding.0 x.holding.1 x.holding.2 x.holding.3 x.holding.4
    where
      by_entries :
          (es : List Entry)
          → IsQueue x.queue.0 es
          → messages es ≡ x.held
          → A.Fits x.queue.1 x.queue.0.heap
          → Owned x.queue.0.heap es
          → (y : Memory) × (drop_message x.queue.0 ≡ some y.queue.0) × (y.held ≡ drop 1 x.held)
      by_entries [] q same fits own = (x, drop_message-nil x.queue.0 q, rw (sym same) refl)
      by_entries (e ∷ es) q same fits own =
          let (s, done, q', heap) = drop_message-cons x.queue.0 e es q in
          let whole : All IsKept (messages (e ∷ es)) = subst (All IsKept) (sym same) x.whole in
          (
            record {
              queue = (s, A.reclaim x.queue.1 s.heap);
              held = messages es;
              holding = (
                es,
                q',
                refl,
                A.reclaim-Fits x.queue.1 x.queue.0.heap s.heap fits (λ b unused.
                    ap (λ (h : Heap). h b) heap ∙ without-none e x.queue.0.heap b unused),
                Without-Owned (e ∷ []) es x.queue.0.heap s.heap
                    (without-Without e [] x.queue.0.heap s.heap (λ b. ap (λ (h : Heap). h b) heap))
                    own,
              );
              whole = whole.1;
            },
            done,
            ap (drop 1) same,
          )

  pub dropped-contents : (x : Memory) → contents_of (dropped x).0 ≡ drop 1 (contents_of x)
  dropped-contents x =
      contents_of-held (dropped x).0 ∙ (dropped x).2 ∙ ap (drop 1) (sym (contents_of-held x))

  -- A round of `cleanup_message_queue` on a view.
  unfoldable pub pop : View → View
  pop =
      Quot.lift Quot-set (λ x. Quot.mk (dropped x).0)
        (λ x y h. Quot.sound (dropped-contents x ∙ ap (drop 1) h ∙ sym (dropped-contents y)))
