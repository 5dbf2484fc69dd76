-- ===== src/Loop/Ticks.antt =====
-- What arrivals and ticks make of a loop at rest.
use php_nsq.Prelude.{◌≡◌, refl, sym, ap, ◌∙◌, none, some, Bytes, List, [], ◌∷◌, ◌++◌, All, arith}
use mathlib.Core.Path.{subst}
use php_nsq.Print.{IsInt}
use php_nsq.Command.{Output}
use php_nsq.Command.Line.{send, rdy}
use php_nsq.Queue.{Ptr, Heap, Pending, Store}
use php_nsq.Queue.Chain.{Entry, Owned, IsQueue, messages}
use php_nsq.Queue.Cleanup.{Without, Without-Owned}
use php_nsq.Process.{process_message_queue}
use php_nsq.Process.Answer.{
  IsRegular, object_of, answer, Sends, process_message_queue-nil, process_message_queue-cons,
}
use php_nsq.Receive.{Host}
use php_nsq.Receive.Frame.{Frame, response, message, IsFrame, delivered}
use php_nsq.Receive.Backing.{Malloc, linked_queue, Holding}
use php_nsq.Loop.{Socket, Settings, Loop, fed, ticked}
use php_nsq.Loop.Arrival.{
  Phase, between, inside, Arrival, whole, begun, continued, completed, carried, Resting, Fed,
}
use php_nsq.Loop.Abstract.{Abstract, HasTextId}

pub Arrival-IsFrame :
    {p q : Phase} {fs : List Frame} {bs : Bytes} → Arrival p q fs bs → All IsFrame fs
Arrival-IsFrame (whole fs v) = v
Arrival-IsFrame (begun fs f part more v cut) = v
Arrival-IsFrame (continued f part got more cut) = tt
Arrival-IsFrame (completed f part more fs cut v) = (cut.frame, v)
Arrival-IsFrame (carried f part more fs g part' more' cut v cut') = (cut.frame, v)

module _ (S : Socket) (A : Malloc) (host : Host) (settings : Settings) where
  open host use {delay_time, auto_finish}

  -- A loop at rest that holds what the abstract one says.
  pub record Refines (r : Loop S A host settings) (a : Abstract) : Type 0 where
    pub rest : Resting S.input (linked_queue A) host r a.phase a.waiting a.out
    pub regular : All IsRegular a.waiting

  pub fed-Fed :
      (p : Phase) (r : Loop S A host settings) (bs : Bytes) (ms : List Pending) (os : List Output)
      → Resting S.input (linked_queue A) host r p ms os
      → Fed S.input (linked_queue A) host (fed S A host settings r bs) p bs ms os
  fed-Fed between r bs ms os i = record {
    first = i.first;
    l = i.l;
    input = S.arrive_contents bs r.input ∙ ap (λ s. s ++ bs) i.input;
    queue = i.queue;
    out = i.out;
  }
  fed-Fed (inside f part more) r bs ms os w = record {
    first = w.first;
    buffer = record {
      l = w.buffer.l;
      size = w.buffer.size;
      room = w.buffer.room;
      starts = w.buffer.starts;
    };
    input = S.arrive_contents bs r.input ∙ ap (λ s. s ++ bs) w.input;
    queue = w.queue;
    out = w.out;
  }

  -- Another queue and more output, at rest in the same phase.
  pub ticked-Resting :
      (p : Phase) (r : Loop S A host settings) (s : Store) (os' : List Output)
      (ms ns : List Pending) (os : List Output)
      → Resting S.input (linked_queue A) host r p ms os
      → Holding A (s, A.reclaim r.queue.1 s.heap) ns
      → Resting S.input (linked_queue A) host (ticked S A host settings r (s, os')) p ns (os ++ os')
  ticked-Resting between r s os' ms ns os i h = record {
    first = i.first;
    l = i.l;
    input = i.input;
    queue = h;
    out = ap (λ o. o ++ os') i.out;
  }
  ticked-Resting (inside f part more) r s os' ms ns os w h = record {
    first = w.first;
    buffer = record {
      l = w.buffer.l;
      size = w.buffer.size;
      room = w.buffer.room;
      starts = w.buffer.starts;
    };
    input = w.input;
    queue = h;
    out = ap (λ o. o ++ os') w.out;
  }

  pub Resting-Holding :
      (p : Phase) (r : Loop S A host settings) (ms : List Pending) (os : List Output)
      → Resting S.input (linked_queue A) host r p ms os
      → Holding A r.queue ms
  Resting-Holding between r ms os i = i.queue
  Resting-Holding (inside f part more) r ms os w = w.queue

  pub Resting-out :
      (p : Phase) (r : Loop S A host settings) (ms : List Pending) (os : List Output)
      → Resting S.input (linked_queue A) host r p ms os
      → r.out ≡ os
  Resting-out between r ms os i = i.out
  Resting-out (inside f part more) r ms os w = w.out

  module _ (delay : IsInt host.delay_time) (ready : IsInt settings.rdy) where
    pub delivered-IsRegular :
        (fs : List Frame)
        → All IsFrame fs
        → All HasTextId fs
        → All IsRegular (delivered delay_time auto_finish fs)
    delivered-IsRegular [] v t = tt
    delivered-IsRegular (response text ∷ fs) v t = delivered-IsRegular fs v.1 t.1
    delivered-IsRegular (message stamp attempts id body ∷ fs) v t = (
      record { id_length = v.0.parts.2; id_text = t.0; delay = delay; body_length = refl },
      delivered-IsRegular fs v.1 t.1,
    )

    -- What a tick of the timer does to a queue that holds `ms`.
    pub data Tick (r : Loop S A host settings) : List Pending → Type 0 where
      nothing :
          (s : Store)
          → process_message_queue settings.callback settings.rdy r.queue.0 ≡ some (s, [])
          → Holding A (s, A.reclaim r.queue.1 s.heap) []
          → Tick r []
      handled :
          (m : Pending) (ms : List Pending) (s : Store) (replies : List Output) (ready : Output)
          → process_message_queue settings.callback settings.rdy r.queue.0
            ≡ some (s, (settings.callback (object_of m)).written ++ replies ++ (ready ∷ []))
          → Sends (answer m (settings.callback (object_of m))) replies
          → send (rdy settings.rdy) ≡ some ready
          → Holding A (s, A.reclaim r.queue.1 s.heap) ms
          → Tick r (m ∷ ms)

    -- Frees only give addresses back.
    gave_back :
        (e : Entry) (h g : Heap) → Without (e ∷ []) h g → (b : Ptr) → h b ≡ none → g b ≡ none
    gave_back e h g gone b unused = ground (arith, gone b, unused)

    first_answered :
        (r : Loop S A host settings) (e : Entry) (es : List Entry)
        → IsQueue r.queue.0 (e ∷ es)
        → IsRegular e.msg
        → A.Fits r.queue.1 r.queue.0.heap
        → Owned r.queue.0.heap (e ∷ es)
        → Tick r (e.msg ∷ messages es)
    unfolding Holding
    first_answered r e es q ok fits own =
        let (s, replies, answered, done, sent, told, q', gone) =
          process_message_queue-cons settings.callback settings.rdy r.queue.0 e es q ok ready in
        handled e.msg (messages es) s replies answered done sent told (
          es,
          q',
          refl,
          A.reclaim-Fits r.queue.1 r.queue.0.heap s.heap fits
              (gave_back e r.queue.0.heap s.heap gone),
          Without-Owned (e ∷ []) es r.queue.0.heap s.heap gone own,
        )

    pub tick :
        (r : Loop S A host settings) (ms : List Pending)
        → All IsRegular ms
        → Holding A r.queue ms
        → Tick r ms
    unfolding Holding
    tick r [] v ([], q, same, fits, own) =
        nothing r.queue.0 (process_message_queue-nil settings.callback settings.rdy r.queue.0 q)
          ([], q, refl, A.reclaim-Fits r.queue.1 r.queue.0.heap r.queue.0.heap fits (λ b h. h), own)
    tick r [] v (e ∷ es, q, same, fits, own) = absurd (cc same)
    tick r (m ∷ ms) v ([], q, same, fits, own) = absurd (cc same)
    tick r (m ∷ ms) v (e ∷ es, q, same, fits, own) =
        let v' : All IsRegular (messages (e ∷ es)) = subst (All IsRegular) (sym same) v in
        subst (Tick r) same (first_answered r e es q v'.0 fits own)
