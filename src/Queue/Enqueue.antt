-- ===== src/Queue/Enqueue.antt =====
-- `enqueue_message` appends to the messages of a well-formed queue, or changes nothing.
use mathlib.Core.Path.{fun_ext}
use php_nsq.Prelude.{
  ◌+◌, ◌≡◌, refl, sym, ap, ◌∙◌, ◌≢◌, ◌⊎◌, inl, inr, true, false, none, some, List, [], ◌∷◌, ◌++◌,
  take, length-append, ◌==◌, Bool-cases, ==_self, arith,
}
use php_nsq.Queue.{
  Ptr, null, Pending, raw, node, block, Heap, write, Store, load, free, filled, link_tail,
  enqueue_message,
}
use php_nsq.Queue.Chain.{
  not_null, Entry, write_other, write_self, ne_of_has, Holds-write, kept, node_of, has, first,
  last_entry, last, Holds, Chain, IsQueue, SameOutside, Chain-write, not_has_of_none, last_ne_null,
  at_last, has-last, has-append,
}

-- Setting the `next` of the last node moves the end of a chain.
relink :
    (h : Heap) (stop m : Ptr) (e : Entry) (es : List Entry)
    → Chain h stop (e ∷ es)
    → Chain (write h (last (e ∷ es)) (some (node (node_of (last_entry e es) m)))) m (e ∷ es)
relink h stop m e [] (x, ch) = (
  record {
    ptr_ne = x.ptr_ne;
    body_ne = x.body_ne;
    at_ptr = write_self h e.ptr _;
    at_body = rw (write_other h e.ptr _ e.body (λ q. x.apart (sym q))) x.at_body;
    apart = x.apart;
    ptr_out = refl;
    body_out = refl;
  },
  tt,
)
relink h stop m e (f ∷ es) (x, ch) = (
  Holds-write h e f.ptr (f ∷ es) (last (f ∷ es)) _
      (ne_of_has e.ptr (last (f ∷ es)) (f ∷ es) x.ptr_out (has-last f es))
      (ne_of_has e.body (last (f ∷ es)) (f ∷ es) x.body_out (has-last f es)) x,
  relink h stop m f es ch,
)

last-snoc : (f : Entry) (es : List Entry) (e : Entry) → e.ptr ≡ last (f ∷ es ++ (e ∷ []))
last-snoc f [] e = refl
last-snoc f (g ∷ es) e = last-snoc g es e

first-snoc : (es : List Entry) (e : Entry) → first (es ++ (e ∷ [])) null ≡ first es e.ptr
first-snoc [] e = refl
first-snoc (f ∷ es) e = refl

has_snoc_false :
    (a : Ptr) (es : List Entry) (e : Entry)
    → has a es ≡ false
    → a ≢ e.ptr
    → a ≢ e.body
    → has a (es ++ (e ∷ [])) ≡ false
has_snoc_false a es e p q r = ground (arith, has-append a es (e ∷ []))

-- A chain that ends at the node of a new entry, with that entry behind it.
snoc :
    (h : Heap) (es : List Entry) (e : Entry)
    → Chain h e.ptr es
    → Holds h e null []
    → has e.ptr es ≡ false
    → has e.body es ≡ false
    → Chain h null (es ++ (e ∷ []))
snoc h [] e ch x p q = (x, tt)
snoc h (f ∷ es) e (y, ch) x p q = (
  record {
    ptr_ne = y.ptr_ne;
    body_ne = y.body_ne;
    at_ptr = rw (first-snoc es e) y.at_ptr;
    at_body = y.at_body;
    apart = y.apart;
    ptr_out = has_snoc_false f.ptr es e y.ptr_out (ground arith) (ground arith);
    body_out = has_snoc_false f.body es e y.body_out (ground arith) (ground arith);
  },
  snoc h es e ch x (ground arith) (ground arith),
)

-- What links the node of `e`, already filled in, behind the tail.
linked : Ptr → Store → List Entry → Store
linked p s [] = record s { head = p; tail = p; count = s.count + 1 }
linked p s (e ∷ es) = record s {
  heap = write s.heap (last (e ∷ es)) (some (node (node_of (last_entry e es) p)));
  tail = p;
  count = s.count + 1;
}

link_tail-linked :
    (s : Store) (es : List Entry) (p : Ptr) → IsQueue s es → link_tail p s ≡ some (linked p s es)
unfolding link_tail linked load
link_tail-linked s [] p q = rw (q.tail)
link_tail-linked s (e ∷ es) p q =
    ground (arith, q.tail, last_ne_null s.heap null e es q.chain, at_last s.heap null e es q.chain)

linked-IsQueue :
    (s : Store) (es : List Entry) (e : Entry)
    → IsQueue s es
    → Holds s.heap e null []
    → has e.ptr es ≡ false
    → has e.body es ≡ false
    → IsQueue (linked e.ptr s es) (es ++ (e ∷ []))
unfolding linked
linked-IsQueue s [] e q x p p' = record {
  chain = (x, tt);
  head = refl;
  tail = refl;
  count = omega (arith, q.count);
}
linked-IsQueue s (f ∷ es) e q x p p' =
    let t = last (f ∷ es) in
    let ne = ne_of_has e.ptr t (f ∷ es) p (has-last f es) in
    let ne' = ne_of_has e.body t (f ∷ es) p' (has-last f es) in
    record {
      chain =
          snoc _ (f ∷ es) e (relink s.heap null e.ptr f es q.chain)
            (Holds-write s.heap e null [] t _ ne ne' x) p p';
      head = q.head;
      tail = last-snoc f es e;
      count = omega (arith, q.count, length-append (f ∷ es) (e ∷ []));
    }

linked-same :
    (s : Store) (es : List Entry) (p a : Ptr) → has a es ≡ false → (linked p s es).heap a ≡ s.heap a
unfolding linked
linked-same s [] p a out = refl
linked-same s (f ∷ es) p a out =
    write_other s.heap (last (f ∷ es)) _ a
      (ne_of_has a (last (f ∷ es)) (f ∷ es) out (has-last f es))

abbrev pub entry : Ptr → Ptr → Pending → Entry
entry p b m = record { ptr = p; body = b; msg = kept m }

-- The store with the two new cells, not linked yet.
abbrev allocated : Ptr → Ptr → Pending → Store → Store
allocated p b m s = record s {
  heap =
      write (write s.heap p (some (node (filled m b null)))) b
        (some (block (take m.body_len m.body ++ (0 ∷ []))));
}

free-write :
    (h : Heap) (p : Ptr) → (p == null) ≡ false → h p ≡ none → free p (write h p (some raw)) ≡ some h
unfolding free write
free-write h p ne unused = rw (ne, ==_self p) (ap some (fun_ext λ a. ground arith))

module _ (s : Store) (es : List Entry) (p b : Ptr) (m : Pending) where
  allocated-IsQueue :
      IsQueue s es → has p es ≡ false → has b es ≡ false → IsQueue (allocated p b m s) es
  allocated-IsQueue q out out' = record {
    chain = Chain-write _ null es b _ out' (Chain-write s.heap null es p _ out q.chain);
    head = q.head;
    tail = q.tail;
    count = q.count;
  }

  allocated-Holds :
      p ≢ null → b ≢ null → p ≢ b → Holds (allocated p b m s).heap (entry p b m) null []
  allocated-Holds np nb apart = record {
    ptr_ne = np;
    body_ne = nb;
    at_ptr = rw (write_other _ b _ p apart) (write_self s.heap p _);
    at_body = write_self _ b _;
    apart = apart;
    ptr_out = refl;
    body_out = refl;
  }

  same : SameOutside (es ++ (entry p b m ∷ [])) s.heap (linked p (allocated p b m s) es).heap
  same a out =
      let apart = has-append a es (entry p b m ∷ []) in
      let old : has a es ≡ false = ground (arith, out, apart) in
      let not_p : a ≢ p = ground (arith, out, apart) in
      let not_b : a ≢ b = ground (arith, out, apart) in
      linked-same (allocated p b m s) es p a old
      ∙ (write_other (write s.heap p _) b _ a not_b ∙ write_other s.heap p _ a not_p)

  -- When both allocations give fresh memory, `enqueue_message` succeeds on a well-formed queue and
  -- leaves a well-formed queue, with what it keeps of the message behind the messages before it. It
  -- writes to no other address than those of the queue.
  pub enqueue_message-IsQueue :
      IsQueue s es
      → p ≢ null
      → b ≢ null
      → p ≢ b
      → s.heap p ≡ none
      → s.heap b ≡ none
      → (s' : Store) × (enqueue_message p b m s ≡ some s')
        × IsQueue s' (es ++ (entry p b m ∷ []))
        × SameOutside (es ++ (entry p b m ∷ [])) s.heap s'.heap
  unfolding enqueue_message
  enqueue_message-IsQueue q np nb apart up ub =
      let out = not_has_of_none s.heap null es p q.chain up in
      let out' = not_has_of_none s.heap null es b q.chain ub in
      let q' = allocated-IsQueue q out out' in
      (
        linked p (allocated p b m s) es,
        rw (not_null p np, not_null b nb) (link_tail-linked (allocated p b m s) es p q'),
        linked-IsQueue (allocated p b m s) es (entry p b m) q' (allocated-Holds np nb apart) out
            out',
        same,
      )

  -- When an allocation fails, `enqueue_message` drops the message: it frees what it had allocated
  -- and leaves the queue and every address of the heap as they were.
  enqueue_message_out_of_memory :
      s.heap p ≡ none → (p ≡ null) ⊎ (b ≡ null) → enqueue_message p b m s ≡ some s
  unfolding enqueue_message
  enqueue_message_out_of_memory up fails = elim (Bool-cases (p == null)) [
    | inl none_at_all ↦ rw none_at_all
    | inr some_node ↦
        let no_body : (b == null) ≡ true = ground arith in
        rw (some_node, no_body, free-write s.heap p some_node up)
  ]
