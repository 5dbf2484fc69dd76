-- ===== src/Loop/Reconnect.antt =====
-- A connection that ends inside a frame, and the connection behind it.
use php_nsq.Prelude.{
  ℕ, ◌+◌, ◌^◌, ◌<◌, ◌≡◌, ap, ◌∙◌, true, some, Bytes, List, [], ◌∷◌, ◌++◌, All, length,
  length-append, arith,
}
use mathlib.Core.Path.{subst}
use php_nsq.Print.{IsInt}
use php_nsq.Receive.{Host}
use php_nsq.Receive.Frame.{Frame, IsFrame, payload, encode_all, delivered, nops}
use php_nsq.Receive.Drain.{Settles}
use php_nsq.Receive.Backing.{Malloc, linked_queue, Holding}
use php_nsq.Loop.{Socket, arrives, Settings, Loop, reconnected, run}
use php_nsq.Loop.Arrival.{between, inside, IsCut, completed, Resting}
use php_nsq.Loop.Abstract.{Abstract, HasTextId}
use php_nsq.Loop.Ticks.{Refines, Resting-Holding, Resting-out}
use php_nsq.Loop.Refinement.{step-arrives}

-- The parts of two frames of the same size, with the same first part.
same_size :
    (f g : Frame) (part more more' : Bytes)
    → IsCut f part more
    → IsCut g part more'
    → length more ≡ length more'
    → length (payload f) ≡ length (payload g)
same_size f g part more more' cut cut' e = omega (
  arith,
  ap length cut.split,
  ap length cut'.split,
  length-append part more,
  length-append part more',
)

module _ (S : Socket) (A : Malloc) (host : Host) (settings : Settings) where
  -- Behind a new connection the loop still waits for the rest of the old frame, and for any other frame
  -- of that size that starts like it.
  reconnected-Refines :
      (f g : Frame) (part more more' : Bytes) (r : Loop S A host settings) (a : Abstract)
      (b : S.input.Buf)
      → IsCut f part more
      → IsCut g part more'
      → length more ≡ length more'
      → S.input.contents b ≡ []
      → a.phase ≡ inside f part more
      → Refines S A host settings r a
      → Refines S A host settings
          (reconnected S A host settings r b)
          (record a { phase = inside g part more' })
  reconnected-Refines f g part more more' r a b cut cut' e fresh at sim =
      let w : Resting S.input (linked_queue A) host r (inside f part more) a.waiting a.out =
        subst (λ p. Resting S.input (linked_queue A) host r p a.waiting a.out) at sim.rest in
      let same = same_size f g part more more' cut cut' e in
      record {
        rest = record {
          first = w.first;
          buffer = record {
            l = w.buffer.l;
            size = w.buffer.size ∙ same;
            room = w.buffer.room ∙ ap (λ n. n + 1) same;
            starts = w.buffer.starts;
          };
          input = fresh;
          queue = w.queue;
          out = w.out;
        };
        regular = sim.regular;
      }

  module _ (works : (n : ℕ) → n < 2 ^ 31 → host.malloc_works n ≡ true)
      (settles : (a : ℕ)
        → (j : ℕ) × (j < settings.spare) × Settles S.input (linked_queue A) host a j)
      (delay : IsInt host.delay_time) (ready : IsInt settings.rdy) where
    open host use {delay_time, auto_finish}

    -- When a connection ends inside a frame, the first bytes of the next one are taken for what is
    -- missing of it: a frame that neither connection has carried, the first part from the one and the
    -- rest from the other, is queued like any other, behind the messages that wait and in front of those
    -- of the frames `fs` that follow; what is written is one NOP for each heartbeat. No arrival ends inside
    -- the size of a frame, the ids are text, allocations of messages work, the read of uninitialised memory
    -- behind the last frame gives 0 within the rounds that are given, and the delay and the count fit an
    -- `int`.
    pub run-mixed :
        (f g : Frame) (part more more' : Bytes) (fs : List Frame) (r : Loop S A host settings)
        (a : Abstract) (b : S.input.Buf)
        → IsCut f part more
        → IsCut g part more'
        → length more ≡ length more'
        → All IsFrame fs
        → All HasTextId (g ∷ fs)
        → S.input.contents b ≡ []
        → a.phase ≡ inside f part more
        → Refines S A host settings r a
        → (r' : Loop S A host settings) × (run S A host settings
              (arrives (more' ++ encode_all fs) ∷ [])
              (reconnected S A host settings r b)
            ≡ some r')
          × Holding A r'.queue (a.waiting ++ delivered delay_time auto_finish (g ∷ fs))
          × (r'.out ≡ a.out ++ nops (g ∷ fs))
          × Refines S A host settings r' (record a {
            phase = between;
            arrived = a.arrived ++ (g ∷ fs);
            waiting = a.waiting ++ delivered delay_time auto_finish (g ∷ fs);
            out = a.out ++ nops (g ∷ fs);
          })
    unfolding run
    run-mixed f g part more more' fs r a b cut cut' e v text fresh at sim =
        let waiting = a.waiting ++ delivered delay_time auto_finish (g ∷ fs) in
        let out = a.out ++ nops (g ∷ fs) in
        let (r', done, _, sim') =
          step-arrives S A host settings works settles delay ready
            (reconnected S A host settings r b) (record a { phase = inside g part more' })
            (reconnected-Refines f g part more more' r a b cut cut' e fresh at sim)
            (completed g part more' fs cut' v) text in
        (
          r',
          rw (run, done),
          Resting-Holding S A host settings between r' waiting out sim'.rest,
          Resting-out S A host settings between r' waiting out sim'.rest,
          sim',
        )
