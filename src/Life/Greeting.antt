-- ===== src/Life/Greeting.antt =====
-- A new connection behind one that was closed, up to the lines that greet nsqd.
use php_nsq.Prelude.{
  ◌≡◌, refl, ap, ◌∙◌, true, false, Option, none, some, Bytes, List, [], ◌∷◌, codes, if_true,
}
use mathlib.Core.Path.{subst}
use php_nsq.Command.{Output, direct}
use php_nsq.Publish.{ReadResult}
use php_nsq.Receive.{Host}
use php_nsq.Receive.Backing.{Malloc, linked_queue}
use php_nsq.Session.{write_bytes, command, free_bufferevent, does, conn_eventcb}
use php_nsq.Loop.{Socket, Event, Settings, Loop, step, run, System, has_address}
use php_nsq.Loop.Arrival.{between, Resting}
use php_nsq.Loop.Abstract.{Abstract}
use php_nsq.Loop.Ticks.{Refines}
use php_nsq.Life.{
  Who, event, made, closed, Moment, Life, alive, entered, perform, called_back, moved, happens,
  live,
}
use php_nsq.Loop.Progress.{and_run}
use php_nsq.Life.Failed.{moment}

-- The four things written, in order.
abbrev pub greeting : (frame : Bytes) (o ready : Output) → List Output
greeting frame o ready = direct (codes "  V2") ∷ direct frame ∷ o ∷ ready ∷ []

module _ (S : Socket) (A : Malloc) (host : Host) (settings : Settings) (who : Who) where
  -- The callback of a connection that is made returns, having greeted nsqd.
  abbrev pub Greets : List ReadResult → (frame : Bytes) (o ready : Output) → Type 0
  Greets reads frame o ready =
      called_back S A host settings who false false true reads
      ≡ does (write_bytes (codes "  V2") ∷ write_bytes frame ∷ command o ∷ command ready ∷ [])

  -- What a call of `subscribe` needs to run its event loop, on a new connection.
  pub record IsReached (sys : System) (b : S.input.Buf) : Type 0 where
    pub addressed : has_address sys who.name ≡ true
    pub based : sys.base_new ≡ true
    pub connects : sys.connects ≡ true
    pub fresh : S.input.contents b ≡ []

  pub live-nil : (l : Life S A host settings who) → live S A host settings who [] l ≡ alive l
  unfolding live
  live-nil l = refl

  live-next :
      (m : Moment S A host settings who) (ms : List (Moment S A host settings who))
      (l l1 : Life S A host settings who)
      → happens S A host settings who m l ≡ alive l1
      → live S A host settings who (m ∷ ms) l ≡ live S A host settings who ms l1
  unfolding live
  live-next m ms l l1 e = rw (live, e)

  happens-closed :
      (sys : System) (b : S.input.Buf) (l : Life S A host settings who)
      → IsReached sys b
      → happens S A host settings who (moment S A host settings who closed sys b) l
        ≡ alive (entered S A host settings who b (free_bufferevent ∷ []) l)
  unfolding happens conn_eventcb perform
  happens-closed sys b l r =
      if_true (has_address sys who.name) _ _ r.addressed
      ∙ if_true sys.base_new _ _ r.based
      ∙ if_true sys.connects _ _ r.connects

  -- The worker on the new connection, with what it has written there.
  abbrev pub reopened :
      S.input.Buf → List Output → Life S A host settings who → Life S A host settings who
  reopened b lines l =
      let l1 = entered S A host settings who b (free_bufferevent ∷ []) l in
      record l1 { loop = record l1.loop { out = lines } }

  happens-made :
      (sys : System) (b b' : S.input.Buf) (l : Life S A host settings who) (reads : List ReadResult)
      (frame : Bytes) (o ready : Output)
      → Greets reads frame o ready
      → happens S A host settings who
          (moment S A host settings who (made reads) sys b)
          (entered S A host settings who b' (free_bufferevent ∷ []) l)
        ≡ alive (reopened b' (greeting frame o ready) l)
  unfolding happens perform
  happens-made sys b b' l reads frame o ready e = rw e

  -- Behind a connection that closed between two frames, and a new one: what waits, waits on, and the
  -- lines are those of the greeting.
  pub reopened-Refines :
      (b : S.input.Buf) (l : Life S A host settings who) (a : Abstract) (lines : List Output)
      → S.input.contents b ≡ []
      → a.phase ≡ between
      → Refines S A host settings l.loop a
      → Refines S A host settings
          (reopened b lines l).loop
          (record a { phase = between; out = lines })
  reopened-Refines b l a lines fresh at sim =
      let i : Resting S.input (linked_queue A) host l.loop between a.waiting a.out =
        subst (λ p. Resting S.input (linked_queue A) host l.loop p a.waiting a.out) at sim.rest in
      record {
        rest = record { first = i.first; l = i.l; input = fresh; queue = i.queue; out = refl };
        regular = sim.regular;
      }

  -- The two moments of it.
  abbrev pub opening :
      System
      → S.input.Buf
      → List ReadResult
      → List (Moment S A host settings who)
      → List (Moment S A host settings who)
  opening sys b reads rest =
      moment S A host settings who closed sys b
      ∷ moment S A host settings who (made reads) sys b
      ∷ rest

  pub live-opening :
      (sys : System) (b : S.input.Buf) (reads : List ReadResult) (frame : Bytes) (o ready : Output)
      (rest : List (Moment S A host settings who)) (l : Life S A host settings who)
      → IsReached sys b
      → Greets reads frame o ready
      → live S A host settings who (opening sys b reads rest) l
        ≡ live S A host settings who rest (reopened b (greeting frame o ready) l)
  live-opening sys b reads frame o ready rest l r e =
      live-next _ _ l _ (happens-closed sys b l r)
      ∙ live-next _ rest _ _ (happens-made sys b b l reads frame o ready e)

  abbrev pub loop_events :
      System
      → S.input.Buf
      → List Event
      → List (Moment S A host settings who)
      → List (Moment S A host settings who)
  loop_events sys b [] rest = rest
  loop_events sys b (e ∷ es) rest =
      moment S A host settings who (event e) sys b ∷ loop_events sys b es rest

  abbrev loop_or : Loop S A host settings → Option (Loop S A host settings) → Loop S A host settings
  loop_or r none = r
  loop_or r (some r1) = r1

  pub live-loop_events :
      (sys : System) (b : S.input.Buf) (es : List Event)
      (rest : List (Moment S A host settings who)) (l : Life S A host settings who)
      (r : Loop S A host settings)
      → run S A host settings es l.loop ≡ some r
      → live S A host settings who (loop_events sys b es rest) l
        ≡ live S A host settings who rest (record l { loop = r })
  unfolding run happens
  live-loop_events sys b [] rest l r h =
      ap (λ o. live S A host settings who rest (record l { loop = loop_or l.loop o })) h
  live-loop_events sys b (e ∷ es) rest l r h =
      by_step (λ r1. live-loop_events sys b es rest (record l { loop = r1 }) r)
        (step S A host settings e l.loop) refl h
    where
      by_step :
          ((r1 : Loop S A host settings)
            → run S A host settings es r1 ≡ some r
            → live S A host settings who (loop_events sys b es rest) (record l { loop = r1 })
              ≡ live S A host settings who rest (record l { loop = r }))
          → (o : Option (Loop S A host settings)) → step S A host settings e l.loop ≡ o
          → and_run S A host settings es o ≡ some r
          → live S A host settings who (loop_events sys b (e ∷ es) rest) l
            ≡ live S A host settings who rest (record l { loop = r })
      by_step later none stepped h = absurd (cc h)
      by_step later (some r1) stepped h =
          live-next (moment S A host settings who (event e) sys b) (loop_events sys b es rest) l
            (record l { loop = r1 }) (ap (moved S A host settings who l) stepped)
          ∙ later r1 h
