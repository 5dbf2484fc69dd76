-- ===== src/Delivery/Handled.antt =====
-- A message that is published is handed to the user's function of a worker.
use mathlib.Core.Path.{subst}
use mathlib.Core.List.{Perm}
use php_nsq.Prelude.{
  ℕ, ◌≤◌, ◌<◌, ◌^◌, ◌≡◌, refl, sym, ap, ap₂, ◌∙◌, Bool, true, some, Bytes, List, [], ◌∷◌, ◌++◌, map,
  append-nil, length,
}
use php_nsq.Wire.{ℤ}
use php_nsq.Print.{IsInt}
use php_nsq.Command.Line.{IsPlain}
use php_nsq.Queue.{Pending}
use php_nsq.Process.Answer.{object_of}
use php_nsq.Receive.{Host}
use php_nsq.Receive.Frame.{Frame, response, message, delivered, nops}
use php_nsq.Receive.Drain.{Settles}
use php_nsq.Receive.Backing.{Malloc, linked_queue}
use php_nsq.Publish.{ReadResult}
use php_nsq.Publish.Attempts.{
  Attempt, attempt_all, AllAnswered, all_accepted, attempt_all-AllAnswered,
}
use php_nsq.Loop.{Socket, Event, Settings, Loop, run}
use php_nsq.Loop.Arrival.{Phase, between}
use php_nsq.Loop.Abstract.{Abstract, initial, Feeds}
use php_nsq.Loop.Progress.{timers}
use php_nsq.Loop.Replies.{Told, Interleaves, run-answered}
use php_nsq.Command.{Output}
use php_nsq.Loop.Ticks.{Refines}
use php_nsq.Delivery.Stream.{stream, Published, AllCarry, Published-unique, AllAnswered-Published}

-- The messages in the frames.
abbrev pub bodies : List Frame → List Bytes
bodies [] = []
bodies (response text ∷ fs) = bodies fs
bodies (message stamp attempts id body ∷ fs) = body ∷ bodies fs

-- What the user's function sees as the payload.
abbrev pub payloads : List Pending → List Bytes
payloads = map (λ m. (object_of m).payload)

payloads-delivered :
    (delay_time : ℤ) (auto_finish : Bool) (fs : List Frame)
    → payloads (delivered delay_time auto_finish fs) ≡ bodies fs
payloads-delivered delay_time auto_finish [] = refl
payloads-delivered delay_time auto_finish (response text ∷ fs) =
    payloads-delivered delay_time auto_finish fs
payloads-delivered delay_time auto_finish (message stamp attempts id body ∷ fs) =
    ap (λ ms. body ∷ ms) (payloads-delivered delay_time auto_finish fs)

attempt_all-answered :
    {cs : List Attempt} {rs : List ReadResult} {lines : List Bytes}
    → AllAnswered cs rs lines
    → attempt_all cs rs ≡ (all_accepted cs, lines, [])
unfolding attempt_all
attempt_all-answered {cs} {rs} {lines} h =
    ap₂ attempt_all (sym (append-nil cs)) (sym (append-nil rs))
    ∙ attempt_all-AllAnswered [] [] h
    ∙ ap₂ (λ os ls. (os, ls, [])) (append-nil (all_accepted cs)) (append-nil lines)

module _ (S : Socket) (A : Malloc) (host : Host) (settings : Settings)
    (works : (n : ℕ) → n < 2 ^ 31 → host.malloc_works n ≡ true)
    (settles : (a : ℕ) → (j : ℕ) × (j < settings.spare) × Settles S.input (linked_queue A) host a j)
    (delay : IsInt host.delay_time) (ready : IsInt settings.rdy) where
  -- Calls of `publish` and `deferredPublish` for a plain topic that are answered by OK all succeed, and
  -- if nsqd sends each message that it reads on that connection once to a worker, in whatever order and
  -- with heartbeats in between, and as many ticks follow as there are frames, the user's function of the
  -- worker is handed the messages `ms` of the calls, each once, whatever bytes they hold, and nsqd gets an
  -- answer to each by its outcome, where messages are to be answered, and RDY behind it. The conditions:
  -- the delays are such that `%lld` reads them as they are, the bytes behind the answers' texts happen to
  -- be 0, no arrival ends inside the size of a frame, the ids are text, allocations of messages work, the
  -- read of uninitialised memory behind the last frame gives 0 within the rounds that are given, and the
  -- delay and the count of the worker fit an `int`.
  pub Published-handled :
      {cs : List Attempt} {rs : List ReadResult} {lines ms ms' : List Bytes} {q : Phase}
      {es : List Event} {fs : List Frame} (wide : ℤ → ℤ) (topic : Bytes) (n : ℕ)
      (r : Loop S A host settings)
      → IsPlain topic
      → AllAnswered cs rs lines
      → AllCarry wide topic cs ms
      → Published topic (stream lines) ms'
      → Perm (bodies fs) ms'
      → Feeds between es q fs
      → length fs ≤ n
      → Refines S A host settings r initial
      → (attempt_all cs rs ≡ (all_accepted cs, lines, []))
        × (r' : Loop S A host settings) × (b : Abstract) × (run S A host settings (es ++ timers n) r
            ≡ some r')
        × Refines S A host settings r' b
        × Perm (payloads b.handled) ms
        × (os : List Output) × Told host settings b.handled os
        × Interleaves (nops fs) os r'.out
  Published-handled {ms = ms} {fs = fs} wide topic n r plain calls carry read relayed f enough sim =
      let (r', b, os, done, sim', handled, lines_told, mixed) =
        run-answered S A host settings works settles delay ready n r f enough sim in
      let same = Published-unique read (AllAnswered-Published wide topic plain calls carry) in
      let seen : payloads b.handled ≡ bodies fs =
        ap payloads handled ∙ payloads-delivered host.delay_time host.auto_finish fs in
      (
        attempt_all-answered calls,
        r',
        b,
        done,
        sim',
        subst (λ ps. Perm ps ms) (sym seen) (subst (Perm (bodies fs)) same relayed),
        os,
        lines_told,
        mixed,
      )
