-- ===== src/Life/Reopened.antt =====
-- What becomes of the messages of a connection behind the next one.
use php_nsq.Prelude.{
  ℕ, ◌^◌, ◌<◌, ◌≡◌, refl, sym, ap, ◌∙◌, true, Bytes, List, [], ◌∷◌, ◌++◌, append_assoc, append-nil,
}
use mathlib.Core.Path.{subst}
use php_nsq.Print.{IsInt}
use php_nsq.Command.{Output}
use php_nsq.Publish.{ReadResult}
use php_nsq.Queue.{Pending}
use php_nsq.Process.Answer.{object_of, answer, Sends}
use php_nsq.Receive.{Host}
use php_nsq.Receive.Frame.{Frame, delivered}
use php_nsq.Receive.Drain.{Settles}
use php_nsq.Receive.Backing.{Malloc, linked_queue}
use php_nsq.Loop.{Socket, Event, timer, Settings, System}
use php_nsq.Loop.Arrival.{between}
use php_nsq.Loop.Abstract.{Abstract, Step, idle, handle, Run, end, next, IsFair, Run-IsFair, Feeds}
use php_nsq.Loop.Ticks.{Refines, Resting-out}
use php_nsq.Loop.Refinement.{run-Refines}
use php_nsq.Life.{Who, Moment, Life, alive, live}
use php_nsq.Life.Greeting.{
  greeting, Greets, IsReached, reopened, reopened-Refines, opening, live-nil, live-opening,
  loop_events, live-loop_events,
}

abbrev first_of : Pending → List Pending → Pending
first_of m [] = m
first_of m (m' ∷ ms) = m'

module _ (host : Host) (settings : Settings) where
  open settings use {callback}

  -- What one tick answers and writes for the message `m`.
  abbrev Answered : Abstract → Abstract → Pending → Type 0
  Answered a b m =
      (replies : List Output) × (told : Output) × Sends (answer m (callback (object_of m))) replies
      × (b.out ≡ a.out ++ ((callback (object_of m)).written ++ replies ++ (told ∷ [])))

  one_step :
      {a b : Abstract} (m : Pending) (ms : List Pending)
      → Step host settings a timer b
      → a.waiting ≡ m ∷ ms
      → Answered a b m
  one_step m ms (idle a e) waits = absurd (cc (e, waits))
  one_step {b = b} m ms (handle a m' ms' replies told e sent line) waits =
      subst (λ x. Answered a b x) (ap (first_of m) (sym e ∙ waits)) (replies, told, sent, refl)

  at_end : {a b : Abstract} → Run host settings a [] b → a ≡ b
  at_end (end a) = refl

  one_tick :
      {a b : Abstract} (m : Pending) (ms : List Pending)
      → Run host settings a (timer ∷ []) b
      → a.waiting ≡ m ∷ ms
      → Answered a b m
  one_tick {a} m ms (next s r) waits =
      subst (λ x. Answered a x m) (at_end r) (one_step m ms s waits)

module _ (S : Socket) (A : Malloc) (host : Host) (settings : Settings) (who : Who) where
  open host use {delay_time, auto_finish}
  open settings use {callback}

  -- A new connection that is greeted, and what then arrives between two frames and the next.
  pub record Visit : Type 0 where
    pub system : System
    pub input : S.input.Buf
    pub reads : List ReadResult
    pub events : List Event
    pub frames : List Frame
    pub reached : IsReached S A host settings who system input
    pub command : Bytes
    pub subscribed : Output
    pub ready : Output
    pub greets : Greets S A host settings who reads command subscribed ready
    pub feeds : Feeds between events between frames

  -- The moments of visits, each begun by the end of the connection before.
  abbrev pub moments_of : List Visit → List (Moment S A host settings who)
  moments_of [] = []
  moments_of (v ∷ vs) =
      opening S A host settings who v.system v.input v.reads
        (loop_events S A host settings who v.system v.input v.events (moments_of vs))

  abbrev pub frames_of : List Visit → List Frame
  frames_of [] = []
  frames_of (v ∷ vs) = v.frames ++ frames_of vs

  -- The runs of the abstract queue on each connection, one behind the other: it begins between two frames
  -- and with the lines of the greeting, with what is handled and what waits as it was. The last lists are
  -- what was written on the connections that have ended.
  pub data Runs : Abstract → List Visit → Abstract → List (List Output) → Type 1 where
    no_visit : (a : Abstract) → Runs a [] a []
    visited :
        {a b c : Abstract} {vs : List Visit} {past : List (List Output)} (v : Visit)
        → Run host settings
            (record a { phase = between; out = greeting v.command v.subscribed v.ready })
            v.events
            b
        → Runs b vs c past
        → Runs a (v ∷ vs) c (a.out ∷ past)

  -- A worker between two frames, whose messages are handled or wait in the order of their arrival.
  pub record IsFairLife (l : Life S A host settings who) (a : Abstract) : Type 0 where
    pub refines : Refines S A host settings l.loop a
    pub phase : a.phase ≡ between
    pub fair : IsFair host settings a

  module _ (works : (n : ℕ) → n < 2 ^ 31 → host.malloc_works n ≡ true)
      (settles : (a : ℕ)
        → (j : ℕ) × (j < settings.spare) × Settles S.input (linked_queue A) host a j)
      (delay : IsInt host.delay_time) (ready : IsInt settings.rdy) where
    visit-run :
        (v : Visit) (rest : List (Moment S A host settings who)) (l : Life S A host settings who)
        (a : Abstract)
        → IsFairLife l a
        → (l' : Life S A host settings who) × (b : Abstract) × (live S A host settings who
              (opening S A host settings who v.system v.input v.reads
                (loop_events S A host settings who v.system v.input v.events rest))
              l
            ≡ live S A host settings who rest l')
          × Run host settings
              (record a { phase = between; out = greeting v.command v.subscribed v.ready })
              v.events
              b
          × IsFairLife l' b
          × (b.arrived ≡ a.arrived ++ v.frames)
          × (l'.past ≡ l.past ++ (l.loop.out ∷ []))
    visit-run v rest l a w =
        let lines = greeting v.command v.subscribed v.ready in
        let l1 = reopened S A host settings who v.input lines l in
        let a1 : Abstract = record a { phase = between; out = lines } in
        let (r, b, ran, steps, sim, at, all) =
          run-Refines S A host settings works settles delay ready v.feeds l1.loop a1 refl (
            reopened-Refines S A host settings who v.input l a lines v.reached.fresh w.phase
              w.refines) in
        (
          record l1 { loop = r },
          b,
          live-opening S A host settings who v.system v.input v.reads v.command v.subscribed v.ready
                _ l v.reached v.greets
              ∙ live-loop_events S A host settings who v.system v.input v.events rest l1 r ran,
          steps,
          record { refines = sim; phase = at; fair = Run-IsFair host settings steps w.fair },
          all,
          refl,
        )

    -- Over any number of connections, each of which closes between two frames and is followed by one that
    -- works and on which nsqd is greeted, under the conditions of the event loop: the worker lives on and
    -- does what runs of the abstract queue do, one for each connection, each begun with the lines of the
    -- greeting and with the messages that have waited; what was written on each connection is what these
    -- runs write; and the messages that they hand to the user's function, followed by those that wait, are
    -- together the messages of all frames that have arrived, in their order: no reconnection loses or
    -- repeats one.
    pub live-IsFairLife :
        (vs : List Visit) (l : Life S A host settings who) (a : Abstract)
        → IsFairLife l a
        → (l' : Life S A host settings who) × (b : Abstract) × (past : List (List Output)) × (live S
              A host settings who
              (moments_of vs)
              l
            ≡ alive l')
          × Runs a vs b past
          × Refines S A host settings l'.loop b
          × (l'.past ≡ l.past ++ past)
          × (l'.loop.out ≡ b.out)
          × (b.handled ++ b.waiting ≡ delivered delay_time auto_finish (a.arrived ++ frames_of vs))
    live-IsFairLife vs l a w =
        let (l', b, past, lived, runs, w', old, all) = visits vs l a w in
        (
          l',
          b,
          past,
          lived,
          runs,
          w'.refines,
          old,
          Resting-out S A host settings b.phase l'.loop b.waiting b.out w'.refines.rest,
          w'.fair ∙ ap (delivered delay_time auto_finish) all,
        )
      where
        visits :
            (vs : List Visit) (l : Life S A host settings who) (a : Abstract)
            → IsFairLife l a
            → (l' : Life S A host settings who) × (b : Abstract) × (past : List (List Output))
              × (live S A host settings who (moments_of vs) l ≡ alive l')
              × Runs a vs b past
              × IsFairLife l' b
              × (l'.past ≡ l.past ++ past)
              × (b.arrived ≡ a.arrived ++ frames_of vs)
        visits [] l a w = (
          l,
          a,
          [],
          live-nil S A host settings who l,
          no_visit a,
          w,
          sym (append-nil l.past),
          sym (append-nil a.arrived),
        )
        visits (v ∷ vs) l a w =
            let (l1, a1, first, steps, w1, all, old) = visit-run v (moments_of vs) l a w in
            let (l2, b, past, second, runs, w2, old', all') = visits vs l1 a1 w1 in
            let out = Resting-out S A host settings a.phase l.loop a.waiting a.out w.refines.rest in
            (
              l2,
              b,
              a.out ∷ past,
              first ∙ second,
              visited v steps runs,
              w2,
              old'
                  ∙ ap (λ os. os ++ past) old
                  ∙ append_assoc l.past (l.loop.out ∷ []) past
                  ∙ ap (λ o. l.past ++ (o ∷ past)) out,
              all'
                  ∙ ap (λ fs. fs ++ frames_of vs) all
                  ∙ append_assoc a.arrived v.frames (frames_of vs),
            )

    -- A message that waits when its connection closes is handed to the user's function behind the
    -- greeting of the next one, and its FIN or REQ is written there, not on the connection that brought
    -- it.
    pub live-stale :
        (v : Visit) (l : Life S A host settings who) (a : Abstract) (m : Pending)
        (ms : List Pending)
        → IsFairLife l a
        → a.waiting ≡ m ∷ ms
        → v.events ≡ timer ∷ []
        → (l' : Life S A host settings who) × (replies : List Output) × (told : Output) × (live S A
              host settings who
              (moments_of (v ∷ []))
              l
            ≡ alive l')
          × (l'.past ≡ l.past ++ (l.loop.out ∷ []))
          × Sends (answer m (callback (object_of m))) replies
          × (l'.loop.out
              ≡ greeting v.command v.subscribed v.ready
                ++ ((callback (object_of m)).written ++ replies ++ (told ∷ [])))
    live-stale v l a m ms w waits ticked =
        let (l', b, lived, steps, w', _, past) = visit-run v [] l a w in
        let a1 : Abstract = record a {
          phase = between;
          out = greeting v.command v.subscribed v.ready;
        } in
        let (replies, told, sent, out) =
          one_tick host settings m ms (subst (λ es. Run host settings a1 es b) ticked steps)
            waits in
        (
          l',
          replies,
          told,
          lived ∙ live-nil S A host settings who l',
          past,
          sent,
          Resting-out S A host settings b.phase l'.loop b.waiting b.out w'.refines.rest ∙ out,
        )
