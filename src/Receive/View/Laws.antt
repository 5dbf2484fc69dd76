-- ===== src/Receive/View/Laws.antt =====
-- What a view of the queue is, and how the operations act on it.
use php_nsq.Prelude.{
  ◌≡◌, refl, sym, ap, ◌∙◌, Bool, true, false, if◌then◌else◌, some, List, [], ◌∷◌, ◌++◌, drop,
}
use mathlib.Core.Quot
use mathlib.Core.Quot.{Quot, Quot-set}
use php_nsq.Queue.{Pending}
use php_nsq.Queue.Chain.{kept}
use php_nsq.Queue.Walk.{contents}
use php_nsq.Receive.Backing.{Malloc, enqueue, enqueue-Holding}
use php_nsq.Receive.View.{
  messages_set, drop_message, Memory, View, read, read_injective, pushed, pushed-held, push,
  dropped, dropped-contents, pop,
}

abbrev is_empty : List Pending → Bool
is_empty [] = true
is_empty (m ∷ ms) = false

drop-append :
    (m : Pending) (ms : List Pending)
    → drop 1 (ms ++ (m ∷ [])) ≡ (if is_empty ms then ms else drop 1 ms ++ (m ∷ []))
drop-append m [] = refl
drop-append m (n ∷ ms) = refl

module _ (A : Malloc) where
  read-push : (m : Pending) (v : View A) → read A (push A m v) ≡ read A v ++ (kept m ∷ [])
  unfolding push
  read-push m = Quot.ind (λ v. hlevel (messages_set)) (λ x. pushed-held A m x)

  read-pop : (v : View A) → read A (pop A v) ≡ drop 1 (read A v)
  unfolding pop
  read-pop = Quot.ind (λ v. hlevel (messages_set)) (λ x. dropped-contents A x)

  read-if :
      (c : Bool) (u v : View A) → read A (if c then u else v) ≡ (if c then read A u else read A v)
  read-if true u v = refl
  read-if false u v = refl

  -- Taking the oldest message commutes with queueing another one, unless there is no other; then the
  -- queue is as it was. These are equations between views, whatever addresses malloc gives.
  pop-push :
      (m : Pending) (v : View A)
      → pop A (push A m v) ≡ (if is_empty (read A v) then v else push A m (pop A v))
  pop-push m v = read_injective A _ _ (
      read-pop (push A m v)
      ∙ ap (drop 1) (read-push m v)
      ∙ drop-append (kept m) (read A v)
      ∙ ap (λ ms. if is_empty (read A v) then read A v else ms) (sym left)
      ∙ sym (read-if (is_empty (read A v)) v (push A m (pop A v))))
    where
      left : read A (push A m (pop A v)) ≡ drop 1 (read A v) ++ (kept m ∷ [])
      left = read-push m (pop A v) ∙ ap (λ ms. ms ++ (kept m ∷ [])) (read-pop v)

  -- The operations on views are those of the code: on any queue in memory `enqueue_message`, with what
  -- malloc gives where it does not fail, and a round of `cleanup_message_queue` run without a fault, and the view of what they
  -- leave is what push and pop make of the view.
  pub operations_View :
      (m : Pending) (x : Memory A)
      → ((y : Memory A) × (enqueue A m x.queue ≡ some y.queue)
          × (push A m (Quot.mk x) ≡ Quot.mk y)
          × (contents y.queue.0 ≡ contents x.queue.0 ++ (kept m ∷ [])))
        × ((y : Memory A) × (drop_message x.queue.0 ≡ some y.queue.0)
            × (pop A (Quot.mk x) ≡ Quot.mk y)
            × (contents y.queue.0 ≡ drop 1 (contents x.queue.0)))
  unfolding push pop
  operations_View m x = (
    (pushed A m x, (enqueue-Holding A m x.queue x.held x.holding).1, refl, pushed-held A m x),
    ((dropped A x).0, (dropped A x).1, refl, dropped-contents A x),
  )
