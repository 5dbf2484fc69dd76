-- ===== src/Loop/Refinement.antt =====
-- The event loop over the linked queue does what the abstract one does.
use php_nsq.Prelude.{
  ℕ, ◌+◌, ◌^◌, ◌<◌, ◌≤◌, ◌≡◌, refl, sym, ◌∙◌, true, some, Bytes, List, [], ◌∷◌, ◌++◌, All,
  All-append, append_assoc, append-nil, length, arith,
}
use mathlib.Core.Path.{subst}
use php_nsq.Print.{IsInt}
use php_nsq.Command.{Output}
use php_nsq.Queue.{Pending}
use php_nsq.Process.Answer.{IsRegular, object_of}
use php_nsq.Receive.{Host}
use php_nsq.Receive.Frame.{Frame, delivered, nops}
use php_nsq.Receive.Drain.{Settles}
use php_nsq.Receive.Backing.{Malloc, linked_queue}
use php_nsq.Loop.{Socket, Event, arrives, timer, Settings, Loop, fed, ticked, step, run}
use php_nsq.Loop.Arrival.{Phase, Arrival, length-Arrival, Resting, readcb-Arrival}
use php_nsq.Loop.Ticks.{
  Refines, Arrival-IsFrame, fed-Fed, ticked-Resting, Resting-Holding, delivered-IsRegular, Tick,
  nothing, handled, tick,
}
use php_nsq.Loop.Abstract.{
  Abstract, HasTextId, Step, arrive, idle, handle, Run, end, next, Feeds, over, ticks, comes,
}

module _ (S : Socket) (A : Malloc) (host : Host) (settings : Settings) where
  open host use {delay_time, auto_finish}

  module _ (works : (n : ℕ) → n < 2 ^ 31 → host.malloc_works n ≡ true)
      (settles : (a : ℕ)
        → (j : ℕ) × (j < settings.spare) × Settles S.input (linked_queue A) host a j)
      (delay : IsInt host.delay_time) (ready : IsInt settings.rdy) where
    -- One event that may happen is one step of both.
    abbrev pub Stepped : Event → Loop S A host settings → Abstract → Abstract → Type 0
    Stepped e r a b =
        (r' : Loop S A host settings) × (step S A host settings e r ≡ some r')
        × Step host settings a e b
        × Refines S A host settings r' b

    pub step-arrives :
        (r : Loop S A host settings) (a : Abstract) {q : Phase} {fs : List Frame} {bs : Bytes}
        → Refines S A host settings r a
        → Arrival a.phase q fs bs
        → All HasTextId fs
        → Stepped (arrives bs) r a (record a {
          phase = q;
          arrived = a.arrived ++ fs;
          waiting = a.waiting ++ delivered delay_time auto_finish fs;
          out = a.out ++ nops fs;
        })
    unfolding step
    step-arrives r a {q} {fs} {bs} sim x text =
        let enough : length fs + settings.spare ≤ length bs + settings.spare =
          omega (arith, length-Arrival x) in
        let (r', done, rest) =
          readcb-Arrival S.input (linked_queue A) host works settings.spare settles
            (length bs + settings.spare) (fed S A host settings r bs) a.waiting a.out x enough
            (fed-Fed S A host settings a.phase r bs a.waiting a.out sim.rest) in
        (
          r',
          rw (step, done),
          arrive a x text,
          record {
            rest = rest;
            regular =
                All-append IsRegular a.waiting (delivered delay_time auto_finish fs) sim.regular
                  (delivered-IsRegular S A host settings delay ready fs (Arrival-IsFrame x) text);
          },
        )

    step-timer :
        (r : Loop S A host settings) (a : Abstract)
        → Refines S A host settings r a
        → (b : Abstract) × (b.phase ≡ a.phase) × (b.arrived ≡ a.arrived) × Stepped timer r a b
    unfolding step
    step-timer r a sim = by_tick a.waiting refl (
        tick S A host settings delay ready r a.waiting sim.regular
          (Resting-Holding S A host settings a.phase r a.waiting a.out sim.rest))
      where
        by_tick :
            (ms : List Pending)
            → a.waiting ≡ ms
            → Tick S A host settings delay ready r ms
            → (b : Abstract) × (b.phase ≡ a.phase) × (b.arrived ≡ a.arrived) × Stepped timer r a b
        by_tick [] e (nothing s done h) =
            let at = λ (w : List Pending) (o : List Output).
              Resting S.input (linked_queue A) host (ticked S A host settings r (s, [])) a.phase w
                o in
            let rest =
              ticked-Resting S A host settings a.phase r s [] a.waiting [] a.out sim.rest h in
            (
              a,
              refl,
              refl,
              (
                ticked S A host settings r (s, []),
                rw (step, done),
                idle a e,
                record {
                  rest = subst (λ w. at w a.out) (sym e) (subst (at []) (append-nil a.out) rest);
                  regular = sim.regular;
                },
              ),
            )
        by_tick (m ∷ ms) e (handled _ _ s replies told done sent line h) =
            let os = (settings.callback (object_of m)).written ++ replies ++ (told ∷ []) in
            (
              record a { handled = a.handled ++ (m ∷ []); waiting = ms; out = a.out ++ os },
              refl,
              refl,
              (
                ticked S A host settings r (s, os),
                rw (step, done),
                handle a m ms replies told e sent line,
                record {
                  rest =
                      ticked-Resting S A host settings a.phase r s os a.waiting ms a.out sim.rest h;
                  regular = (subst (All IsRegular) e sim.regular).1;
                },
              ),
            )

    -- For every order of arrivals and ticks in which no arrival ends inside the size of a frame, the event
    -- loop over the linked queue runs through without a fault and without a `readcb` that does not
    -- return, and does what the abstract queue does: it ends at rest in the phase and with the frames
    -- that the arrivals give, and the queue in memory and the lines written are those of the abstract
    -- run.
    pub run-Refines :
        {p q : Phase} {es : List Event} {fs : List Frame}
        → Feeds p es q fs
        → (r : Loop S A host settings) (a : Abstract) → a.phase ≡ p
        → Refines S A host settings r a
        → (r' : Loop S A host settings) × (b : Abstract) × (run S A host settings es r ≡ some r')
          × Run host settings a es b
          × Refines S A host settings r' b
          × (b.phase ≡ q)
          × (b.arrived ≡ a.arrived ++ fs)
    unfolding run
    run-Refines (over p) r a e sim = (r, a, refl, end a, sim, e, sym (append-nil a.arrived))
    run-Refines (ticks f) r a e sim =
        let (b, phase, arrived, (r', done, s, sim')) = step-timer r a sim in
        let (r'', c, ran, steps, sim'', at, all) = run-Refines f r' b (phase ∙ e) sim' in
        (r'', c, rw (run, done, ran), next s steps, sim'', at, rw arrived at all)
    run-Refines (comes {p' = p'} {fs = fs} {gs = gs} {bs = bs} x text f) r a e sim =
        let x' : Arrival a.phase p' fs bs = subst (λ ph. Arrival ph p' fs bs) (sym e) x in
        let (r', done, s, sim') = step-arrives r a sim x' text in
        let (r'', c, ran, steps, sim'', at, all) = run-Refines f r' _ refl sim' in
        (r'', c, rw (run, done, ran), next s steps, sim'', at, all ∙ append_assoc a.arrived fs gs)
