-- ===== src/Loop/Dispatch.antt =====
-- The event loop as `subscribe` runs it, and the queue freed behind it where the kernel's polling fails.
use php_nsq.Prelude.{
  ℕ, ◌^◌, ◌<◌, ◌≡◌, ap, ◌∙◌, true, some, refl, append-nil, Bytes, List, [], if◌then◌else◌,
}
use php_nsq.Print.{IsInt}
use php_nsq.Queue.{Store}
use php_nsq.Queue.Chain.{Entry, IsFreed, IsQueue, messages}
use php_nsq.Queue.Cleanup.{Without, Without-Owned, cleanup_message_queue-Without}
use php_nsq.Receive.{Host}
use php_nsq.Receive.Frame.{Frame}
use php_nsq.Receive.Drain.{Settles}
use php_nsq.Receive.Backing.{Malloc, linked_queue, Holding-IsQueue}
use php_nsq.Loop.{
  Socket, Event, Settings, Loop, run, System, has_address, serving, cleaned, cleaned_up, dispatched,
  subscribe,
}
use php_nsq.Loop.Arrival.{Phase}
use php_nsq.Loop.Abstract.{Abstract, Run, Feeds}
use php_nsq.Loop.Ticks.{Refines, Resting-Holding, Resting-out}
use php_nsq.Loop.Refinement.{run-Refines}

module _ (S : Socket) (A : Malloc) (host : Host) (settings : Settings)
    (works : (n : ℕ) → n < 2 ^ 31 → host.malloc_works n ≡ true)
    (settles : (a : ℕ) → (j : ℕ) × (j < settings.spare) × Settles S.input (linked_queue A) host a j)
    (delay : IsInt host.delay_time) (ready : IsInt settings.rdy) where
  opened :
      (sys : System) (name : Bytes) (es : List Event) (r : Loop S A host settings)
      → has_address sys name ≡ true
      → sys.base_new ≡ true
      → sys.connects ≡ true
      → subscribe S A host settings sys name es r
        ≡ dispatched S A host settings sys.polling_fails (run S A host settings es r)
  unfolding subscribe
  opened sys name es r addressed based connects = rw (addressed, based, connects)

  -- Where the address, the event base and the connection are had, `subscribe` does what the abstract run
  -- does, behind any order of arrivals and ticks in which no arrival ends inside the size of a frame, and
  -- is then still in the event loop, with the messages of that run in its queue, unless the kernel's
  -- polling fails. In that case it returns with the empty queue: what it frees are exactly the nodes and
  -- bodies of the messages that still wait, which are not answered, and nothing that was allocated for the
  -- queue is left.
  pub subscribe-cleaned :
      {p q : Phase} {es : List Event} {fs : List Frame} (sys : System) (name : Bytes)
      → has_address sys name ≡ true
      → sys.base_new ≡ true
      → sys.connects ≡ true
      → Feeds p es q fs
      → (r : Loop S A host settings) (a : Abstract) → a.phase ≡ p
      → Refines S A host settings r a
      → (r' : Loop S A host settings) × (b : Abstract) × (s : Store) × (left : List Entry) × (run S
            A host settings es r
          ≡ some r')
        × (subscribe S A host settings sys name es r
            ≡ (if sys.polling_fails then cleaned s else serving r'.queue.0))
        × Run host settings a es b
        × (r'.out ≡ b.out)
        × IsQueue r'.queue.0 left
        × (messages left ≡ b.waiting)
        × IsQueue s []
        × Without left r'.queue.0.heap s.heap
        × IsFreed s.heap
  unfolding subscribe
  subscribe-cleaned {es = es} sys name addressed based connects f r a e sim =
      let (r', b, done, steps, sim', _, _) =
        run-Refines S A host settings works settles delay ready f r a e sim in
      let (left, q, same, own) =
        Holding-IsQueue A r'.queue.0 r'.queue.1 b.waiting
          (Resting-Holding S A host settings b.phase r' b.waiting b.out sim'.rest) in
      let (s, freed, empty, gone) = cleanup_message_queue-Without r'.queue.0 left q in
      let ends =
        ap (dispatched S A host settings sys.polling_fails) done
        ∙ ap (λ o. if sys.polling_fails then cleaned_up o else serving r'.queue.0) freed in
      (
        r',
        b,
        s,
        left,
        done,
        opened sys name es r addressed based connects ∙ ends,
        steps,
        Resting-out S A host settings b.phase r' b.waiting b.out sim'.rest,
        q,
        same,
        empty,
        gone,
        λ p. Without-Owned left [] r'.queue.0.heap s.heap gone (rw append-nil own) p refl,
      )
