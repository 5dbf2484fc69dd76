-- ===== src/Loop/Progress.antt =====
-- Every message that arrives is handled, if the timer runs often enough.
use php_nsq.Prelude.{
  ℕ, zero, suc, ◌^◌, ◌≤◌, ◌<◌, ◌≡◌, refl, sym, ap, ◌∙◌, true, Bool, none, some, Option, List, [],
  ◌∷◌, ◌++◌, append-nil, length, length-append, arith,
}
use mathlib.Core.Path.{subst}
use php_nsq.Wire.{ℤ}
use php_nsq.Print.{IsInt}
use php_nsq.Queue.Chain.{Entry, Owned, IsFreed, IsQueue, messages}
use php_nsq.Receive.{Host}
use php_nsq.Receive.Frame.{Frame, response, message, delivered}
use php_nsq.Receive.Drain.{Settles}
use php_nsq.Receive.Backing.{Malloc, linked_queue, Holding-IsQueue}
use php_nsq.Loop.{Socket, Event, timer, Settings, Loop, step, run}
use php_nsq.Loop.Arrival.{Phase, between}
use php_nsq.Loop.Abstract.{
  Abstract, initial, idle, handle, Run, end, next, Run-append, IsFair, Run-IsFair, Feeds, over,
  ticks,
}
use php_nsq.Loop.Ticks.{Refines, Resting-Holding, Resting-out}
use php_nsq.Loop.Refinement.{run-Refines}

abbrev pub timers : ℕ → List Event
timers zero = []
timers (suc n) = timer ∷ timers n

timers-Feeds : (p : Phase) (n : ℕ) → Feeds p (timers n) p []
timers-Feeds p zero = over p
timers-Feeds p (suc n) = ticks (timers-Feeds p n)

length-delivered :
    (delay : ℤ) (auto : Bool) (fs : List Frame) → length (delivered delay auto fs) ≤ length fs
length-delivered delay auto [] = omega arith
length-delivered delay auto (response text ∷ fs) = omega (arith, length-delivered delay auto fs)
length-delivered delay auto (message stamp attempts id body ∷ fs) =
    omega (arith, length-delivered delay auto fs)

module _ (host : Host) (settings : Settings) where
  -- As many ticks as messages wait leave none.
  Run-timers :
      (n : ℕ) {a b : Abstract}
      → Run host settings a (timers n) b
      → length a.waiting ≤ n
      → length b.waiting ≡ 0
  Run-timers zero (end a) h = omega arith
  Run-timers (suc n) (next (idle a e) r) h = Run-timers n r (omega (arith, ap length e))
  Run-timers (suc n) (next (handle a m ms replies ready e s t) r) h =
      Run-timers n r (omega (arith, ap length e))

module _ (S : Socket) (A : Malloc) (host : Host) (settings : Settings) where
  abbrev pub and_run :
      List Event → Option (Loop S A host settings) → Option (Loop S A host settings)
  and_run es none = none
  and_run es (some r) = run S A host settings es r

  run-append :
      (es es' : List Event) (r r' : Loop S A host settings)
      → run S A host settings es r ≡ some r'
      → run S A host settings (es ++ es') r ≡ run S A host settings es' r'
  unfolding run
  run-append [] es' r r' h = ap (and_run es') h
  run-append (e ∷ es) es' r r' h =
      by_step (λ r1. run-append es es' r1 r') (step S A host settings e r) h
    where
      by_step :
          ((r1 : Loop S A host settings)
            → run S A host settings es r1 ≡ some r'
            → run S A host settings (es ++ es') r1 ≡ run S A host settings es' r')
          → (o : Option (Loop S A host settings)) → and_run es o ≡ some r'
          → and_run (es ++ es') o ≡ run S A host settings es' r'
      by_step rest none h = absurd (cc h)
      by_step rest (some r1) h = rest r1 h

nothing {ℓ} : {X : Type ℓ} → (xs : List X) → length xs ≡ 0 → xs ≡ []
nothing [] h = refl
nothing (x ∷ xs) h = absurd (omega arith)

no_entry : (es : List Entry) → messages es ≡ [] → es ≡ []
no_entry [] h = refl
no_entry (e ∷ es) h = absurd (cc h)

module _ (S : Socket) (A : Malloc) (host : Host) (settings : Settings)
    (works : (n : ℕ) → n < 2 ^ 31 → host.malloc_works n ≡ true)
    (settles : (a : ℕ) → (j : ℕ) × (j < settings.spare) × Settles S.input (linked_queue A) host a j)
    (delay : IsInt host.delay_time) (ready : IsInt settings.rdy) where
  open host use {delay_time, auto_finish}

  -- The run of the abstract queue, with its end, and with what it leaves in memory.
  pub run-drained :
      {q : Phase} {es : List Event} {fs : List Frame} (n : ℕ) (r : Loop S A host settings)
      → Feeds between es q fs
      → length fs ≤ n
      → Refines S A host settings r initial
      → (r' : Loop S A host settings) × (a b : Abstract) × (run S A host settings (es ++ timers n) r
          ≡ some r')
        × Run host settings initial es a
        × Run host settings a (timers n) b
        × Refines S A host settings r' b
        × (b.arrived ≡ fs)
        × (b.handled ≡ delivered delay_time auto_finish fs)
        × IsQueue r'.queue.0 []
        × IsFreed r'.queue.0.heap
  run-drained {q} {es} {fs} n r f enough sim =
      let (r1, a, first, steps, sim1, at, all) =
        run-Refines S A host settings works settles delay ready f r initial refl sim in
      let (r2, b, second, steps', sim2, _, all') =
        run-Refines S A host settings works settles delay ready (timers-Feeds q n) r1 a at sim1 in
      let fair : IsFair host settings a = Run-IsFair host settings steps refl in
      let fair' : IsFair host settings b = Run-IsFair host settings steps' fair in
      let waits : length a.waiting ≤ n = omega (
        arith,
        enough,
        length-append a.handled a.waiting,
        ap length fair,
        ap (λ gs. length (delivered delay_time auto_finish gs)) all,
        length-delivered delay_time auto_finish fs,
      ) in
      let none_waits = nothing b.waiting (Run-timers host settings n steps' waits) in
      let handled : b.handled ≡ delivered delay_time auto_finish fs =
        sym (append-nil b.handled)
        ∙ ap (λ ms. b.handled ++ ms) (sym none_waits)
        ∙ fair'
        ∙ ap (delivered delay_time auto_finish) (all' ∙ append-nil a.arrived ∙ all) in
      let (left, queue, same, own) =
        Holding-IsQueue A r2.queue.0 r2.queue.1 b.waiting
          (Resting-Holding S A host settings b.phase r2 b.waiting b.out sim2.rest) in
      (
        r2,
        a,
        b,
        run-append S A host settings es (timers n) r r1 first ∙ second,
        steps,
        steps',
        sim2,
        all' ∙ append-nil a.arrived ∙ all,
        handled,
        subst (IsQueue r2.queue.0) (no_entry left (same ∙ none_waits)) queue,
        λ p. subst (Owned r2.queue.0.heap) (no_entry left (same ∙ none_waits)) own p refl,
      )

  -- Whatever the order in which the bytes of the frames `fs` arrive and the timer ticks, where no arrival
  -- ends inside the size of a frame and as many ticks follow as there are frames, the event loop does what
  -- a run of the abstract queue does, in which the messages handed to the user's function are those of the
  -- frames, each once and in the order of arrival; at its end what is written is what that run writes, the
  -- queue in memory is empty, and all that was allocated for it is freed. The ids are text, allocations of
  -- messages work, the read of uninitialised memory behind the last frame gives 0 within the rounds that
  -- are given, and the delay and the count fit an `int`.
  pub run-handled :
      {q : Phase} {es : List Event} {fs : List Frame} (n : ℕ) (r : Loop S A host settings)
      → Feeds between es q fs
      → length fs ≤ n
      → Refines S A host settings r initial
      → (r' : Loop S A host settings) × (b : Abstract) × (run S A host settings (es ++ timers n) r
          ≡ some r')
        × Run host settings initial (es ++ timers n) b
        × Refines S A host settings r' b
        × (r'.out ≡ b.out)
        × (b.handled ≡ delivered delay_time auto_finish fs)
        × IsQueue r'.queue.0 []
        × IsFreed r'.queue.0.heap
  run-handled n r f enough sim =
      let (r', a, b, done, steps, steps', sim', _, handled, empty, freed) =
        run-drained n r f enough sim in
      (
        r',
        b,
        done,
        Run-append host settings steps steps',
        sim',
        Resting-out S A host settings b.phase r' b.waiting b.out sim'.rest,
        handled,
        empty,
        freed,
      )
