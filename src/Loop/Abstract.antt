-- ===== src/Loop/Abstract.antt =====
-- What the event loop promises: a first-in, first-out queue of the messages that have arrived, each
-- handed to the user's function once, in the order of their arrival.
use php_nsq.Prelude.{
  Bytes, ◌≡◌, ◌≢◌, refl, sym, ap, ◌∙◌, List, [], ◌∷◌, ◌++◌, All, append_assoc, some,
}
use php_nsq.Command.{Output}
use php_nsq.Command.Line.{send, rdy}
use php_nsq.Queue.{Pending}
use php_nsq.Process.Answer.{object_of, answer, Sends}
use php_nsq.Receive.{Host}
use php_nsq.Receive.Frame.{Frame, response, message, delivered, nops}
use php_nsq.Loop.{Event, arrives, timer, Settings}
use php_nsq.Loop.Arrival.{Phase, between, Arrival}

-- The frames that are complete, the messages handed to the user's function, those that wait, and
-- what has been written to nsqd.
pub record Abstract : Type 0 where
  pub phase : Phase
  pub arrived : List Frame
  pub handled : List Pending
  pub waiting : List Pending
  pub out : List Output

abbrev pub initial : Abstract
initial = record { phase = between; arrived = []; handled = []; waiting = []; out = [] }

-- The id of a message is text: nsqd sends hexadecimal digits.
abbrev pub HasTextId : Frame → Type 0
HasTextId (response text) = Unit
HasTextId (message stamp attempts id body) = All (λ c. c ≢ 0) id

module _ (host : Host) (settings : Settings) where
  open host use {delay_time, auto_finish}
  open settings use {callback}

  -- `call` is what the user's function does with a message.
  pub data Step : Abstract → Event → Abstract → Type 0 where
    arrive :
        (a : Abstract) {q : Phase} {fs : List Frame} {bs : Bytes}
        → Arrival a.phase q fs bs
        → All HasTextId fs
        → Step a (arrives bs) (record a {
          phase = q;
          arrived = a.arrived ++ fs;
          waiting = a.waiting ++ delivered delay_time auto_finish fs;
          out = a.out ++ nops fs;
        })
    idle : (a : Abstract) → a.waiting ≡ [] → Step a timer a
    handle :
        (a : Abstract) (m : Pending) (ms : List Pending) (replies : List Output) (ready : Output)
        → a.waiting ≡ m ∷ ms
        → Sends (answer m (callback (object_of m))) replies
        → send (rdy settings.rdy) ≡ some ready
        → Step a timer (record a {
          handled = a.handled ++ (m ∷ []);
          waiting = ms;
          out = a.out ++ ((callback (object_of m)).written ++ replies ++ (ready ∷ []));
        })

  pub data Run : Abstract → List Event → Abstract → Type 0 where
    end : (a : Abstract) → Run a [] a
    next :
        {a b c : Abstract} {e : Event} {es : List Event}
        → Step a e b
        → Run b es c
        → Run a (e ∷ es) c

  pub Run-append :
      {a b c : Abstract} {es es' : List Event} → Run a es b → Run b es' c → Run a (es ++ es') c
  Run-append (end a) r' = r'
  Run-append (next s r) r' = next s (Run-append r r')

  delivered-append :
      (fs gs : List Frame)
      → delivered delay_time auto_finish (fs ++ gs)
        ≡ delivered delay_time auto_finish fs ++ delivered delay_time auto_finish gs
  delivered-append [] gs = refl
  delivered-append (response text ∷ fs) gs = delivered-append fs gs
  delivered-append (message stamp attempts id body ∷ fs) gs = rw (delivered-append fs gs)

  -- Where each message that has arrived is.
  abbrev pub IsFair : Abstract → Type 0
  IsFair a = a.handled ++ a.waiting ≡ delivered delay_time auto_finish a.arrived

  Step-IsFair : {a b : Abstract} {e : Event} → Step a e b → IsFair a → IsFair b
  Step-IsFair (arrive a {q} {fs} x t) h =
      sym (append_assoc a.handled a.waiting (delivered delay_time auto_finish fs))
      ∙ ap (λ ms. ms ++ delivered delay_time auto_finish fs) h
      ∙ sym (delivered-append a.arrived fs)
  Step-IsFair (idle a e) h = h
  Step-IsFair (handle a m ms replies ready e s r) h =
      append_assoc a.handled (m ∷ []) ms ∙ ap (λ ms. a.handled ++ ms) (sym e) ∙ h

  -- In every run the messages handled and those that wait are together the messages of the frames
  -- that have arrived, in the order of their arrival: none is lost, repeated or overtaken.
  pub Run-IsFair : {a b : Abstract} {es : List Event} → Run a es b → IsFair a → IsFair b
  Run-IsFair (end a) h = h
  Run-IsFair (next s r) h = Run-IsFair r (Step-IsFair s h)

-- `Feeds p es q fs`: the arrivals among the events lead from the phase `p` to the phase `q` and
-- complete the frames `fs`; the timer may run at any place between them.
pub data Feeds : Phase → List Event → Phase → List Frame → Type 0 where
  over : (p : Phase) → Feeds p [] p []
  ticks :
      {p q : Phase} {es : List Event} {fs : List Frame}
      → Feeds p es q fs
      → Feeds p (timer ∷ es) q fs
  comes :
      {p p' q : Phase} {fs gs : List Frame} {bs : Bytes} {es : List Event}
      → Arrival p p' fs bs
      → All HasTextId fs
      → Feeds p' es q gs
      → Feeds p (arrives bs ∷ es) q (fs ++ gs)
