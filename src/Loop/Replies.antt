-- ===== src/Loop/Replies.antt =====
-- What nsqd hears from the event loop: the answers to the messages, and those to the heartbeats.
use php_nsq.Prelude.{
  ℕ, ◌≤◌, ◌<◌, ◌^◌, ◌≡◌, refl, Bool-cases, inl, inr, true, some, List, [], ◌∷◌, ◌++◌, length, ◌==◌,
}
use mathlib.Core.Path.{subst}
use php_nsq.Print.{IsInt}
use php_nsq.Command.{Output}
use php_nsq.Command.Line.{send, rdy}
use php_nsq.Queue.{Pending}
use php_nsq.Process.Answer.{object_of, answer, Sends}
use php_nsq.Receive.{Host}
use php_nsq.Receive.Frame.{Frame, response, message, delivered, nops}
use php_nsq.Receive.Drain.{Settles}
use php_nsq.Receive.Backing.{Malloc, linked_queue}
use php_nsq.Loop.{Socket, Event, Settings, Loop, run}
use php_nsq.Loop.Arrival.{Phase, between}
use php_nsq.Loop.Abstract.{Abstract, initial, Step, arrive, idle, handle, Run, end, next, Feeds}
use php_nsq.Loop.Progress.{timers, run-drained}
use php_nsq.Loop.Ticks.{Refines, Resting-out}

-- `zs` is made of `xs` and `ys`, each in its order.
pub data Interleaves {ℓ} {A : Type ℓ} : List A → List A → List A → Type ℓ where
  none_left : Interleaves [] [] []
  left : {xs ys zs : List A} (x : A) → Interleaves xs ys zs → Interleaves (x ∷ xs) ys (x ∷ zs)
  right : {xs ys zs : List A} (y : A) → Interleaves xs ys zs → Interleaves xs (y ∷ ys) (y ∷ zs)

module _ {ℓ} {A : Type ℓ} where
  all_left : (us : List A) → Interleaves us [] us
  all_left [] = none_left
  all_left (u ∷ us) = left u (all_left us)

  all_right : (us : List A) → Interleaves [] us us
  all_right [] = none_left
  all_right (u ∷ us) = right u (all_right us)

  more_left :
      (us : List A) {xs ys zs : List A}
      → Interleaves xs ys zs
      → Interleaves (xs ++ us) ys (zs ++ us)
  more_left us none_left = all_left us
  more_left us (left x h) = left x (more_left us h)
  more_left us (right y h) = right y (more_left us h)

  more_right :
      (us : List A) {xs ys zs : List A}
      → Interleaves xs ys zs
      → Interleaves xs (ys ++ us) (zs ++ us)
  more_right us none_left = all_right us
  more_right us (left x h) = left x (more_right us h)
  more_right us (right y h) = right y (more_right us h)

nops-append : (fs gs : List Frame) → nops (fs ++ gs) ≡ nops fs ++ nops gs
nops-append [] gs = refl
nops-append (response text ∷ fs) gs = elim (Bool-cases (length text == 11)) [
  | inl beat ↦ rw (beat, nops-append fs gs)
  | inr other ↦ rw (other, nops-append fs gs)
]
nops-append (message stamp attempts id body ∷ fs) gs = nops-append fs gs

module _ (host : Host) (settings : Settings) where
  open settings use {callback}

  -- For each message what the user's function writes, FIN or REQ by its outcome, unless the message is
  -- not to be answered, and RDY.
  pub data Told : List Pending → List Output → Type 0 where
    nobody : Told [] []
    told :
        {ms : List Pending} {os : List Output} (m : Pending) (replies : List Output)
        (ready : Output)
        → Told ms os
        → Sends (answer m (callback (object_of m))) replies
        → send (rdy settings.rdy) ≡ some ready
        → Told
            (ms ++ (m ∷ []))
            (os ++ ((callback (object_of m)).written ++ replies ++ (ready ∷ [])))

  -- The lines written are those about the messages that are handled, and one NOP for each heartbeat.
  abbrev Talks : Abstract → Type 0
  Talks a = (os : List Output) × Told a.handled os × Interleaves (nops a.arrived) os a.out

  Step-Talks : {a b : Abstract} {e : Event} → Step host settings a e b → Talks a → Talks b
  Step-Talks (arrive a {fs = fs} x t) (os, h, mixed) =
      (os, h, rw (nops-append a.arrived fs) (more_left (nops fs) mixed))
  Step-Talks (idle a e) h = h
  Step-Talks (handle a m ms replies ready e s r) (os, h, mixed) =
      (_, told m replies ready h s r, more_right _ mixed)

  Run-Talks : {a b : Abstract} {es : List Event} → Run host settings a es b → Talks a → Talks b
  Run-Talks (end a) h = h
  Run-Talks (next s r) h = Run-Talks r (Step-Talks s h)

module _ (S : Socket) (A : Malloc) (host : Host) (settings : Settings)
    (works : (n : ℕ) → n < 2 ^ 31 → host.malloc_works n ≡ true)
    (settles : (a : ℕ) → (j : ℕ) × (j < settings.spare) × Settles S.input (linked_queue A) host a j)
    (delay : IsInt host.delay_time) (ready : IsInt settings.rdy) where
  open host use {delay_time, auto_finish}

  -- The run to its end, with the messages handled and the lines about them.
  pub run-answered :
      {q : Phase} {es : List Event} {fs : List Frame} (n : ℕ) (r : Loop S A host settings)
      → Feeds between es q fs
      → length fs ≤ n
      → Refines S A host settings r initial
      → (r' : Loop S A host settings) × (b : Abstract) × (os : List Output) × (run S A host settings
            (es ++ timers n)
            r
          ≡ some r')
        × Refines S A host settings r' b
        × (b.handled ≡ delivered delay_time auto_finish fs)
        × Told host settings b.handled os
        × Interleaves (nops fs) os r'.out
  run-answered {fs = fs} n r f enough sim =
      let (r', a, b, done, steps, steps', sim', all, handled, _, _) =
        run-drained S A host settings works settles delay ready n r f enough sim in
      let (os, h, mixed) =
        Run-Talks host settings steps' (Run-Talks host settings steps ([], nobody, none_left)) in
      let out = Resting-out S A host settings b.phase r' b.waiting b.out sim'.rest in
      (
        r',
        b,
        os,
        done,
        sim',
        handled,
        h,
        rw out (subst (λ gs. Interleaves (nops gs) os b.out) all mixed),
      )

  -- Whatever the order in which the bytes of the frames `fs` arrive and the timer ticks, where no arrival
  -- ends inside the size of a frame and as many ticks follow as there are frames, what is written to nsqd
  -- is, for each message once and in the order of arrival, what the user's function writes, FIN or REQ by
  -- its outcome, where messages are to be answered, and RDY, with one NOP for each heartbeat in between,
  -- and nothing else. The conditions: the ids are text, allocations of messages work, the read of
  -- uninitialised memory behind the last frame gives 0 within the rounds that are given, and the delay and
  -- the count fit an `int`.
  pub run-Told :
      {q : Phase} {es : List Event} {fs : List Frame} (n : ℕ) (r : Loop S A host settings)
      → Feeds between es q fs
      → length fs ≤ n
      → Refines S A host settings r initial
      → (r' : Loop S A host settings) × (os : List Output) × (run S A host settings
            (es ++ timers n)
            r
          ≡ some r')
        × Told host settings (delivered delay_time auto_finish fs) os
        × Interleaves (nops fs) os r'.out
  run-Told n r f enough sim =
      let (r', b, os, done, sim', handled, h, mixed) = run-answered n r f enough sim in
      (r', os, done, subst (λ ms. Told host settings ms os) handled h, mixed)
