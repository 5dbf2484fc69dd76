-- ===== src/Life/Depth.antt =====
-- How deep the calls of `subscribe` are nested.
use php_nsq.Prelude.{
  ℕ, suc, ◌+◌, ◌≡◌, refl, ap, Bool, true, false, Bool-cases, inl, inr, Option, none, some, Bytes,
  List, [], ◌∷◌, length, length-append, if◌then◌else◌, arith,
}
use php_nsq.Wire.{ℤ}
use php_nsq.Publish.{ReadResult}
use php_nsq.Receive.{Host}
use php_nsq.Receive.Backing.{Malloc}
use php_nsq.Session.{
  Action, write_bytes, command, sleep, resubscribe, free_bufferevent, Setup, does, waits, faults,
  conn_eventcb, connected, send_identify, subscribe_lines,
}
use php_nsq.Loop.{Socket, Settings, Loop, step, System, has_address}
use php_nsq.Life.{
  Who, Happening, event, made, closed, broken, other, Moment, Life, Now, alive, stranded, exited,
  stuck, faulted, entered, perform, act, called_back, moved, by_happening, happens, live,
}

-- How many of the actions write nothing.
abbrev pub others : List Action → ℕ
others [] = 0
others (write_bytes b ∷ as') = others as'
others (command o ∷ as') = others as'
others (sleep ∷ as') = suc (others as')
others (resubscribe ∷ as') = suc (others as')
others (free_bufferevent ∷ as') = suc (others as')

connected-others :
    (config : Option Bytes) (reads : List ReadResult) (topic channel : Bytes) (n : ℤ)
    {actions : List Action}
    → conn_eventcb false false true config reads topic channel n ≡ does actions
    → others actions ≡ 0
unfolding conn_eventcb connected send_identify subscribe_lines
connected-others config reads topic channel n h = ground arith

-- How many of them end a connection.
abbrev pub ends : Happening → ℕ
ends (event e) = 0
ends (made reads) = 0
ends closed = 1
ends broken = 1
ends other = 0

module _ (S : Socket) (A : Malloc) (host : Host) (settings : Settings) (who : Who) where
  abbrev pub reconnections : List (Moment S A host settings who) → ℕ
  reconnections [] = 0
  reconnections (m ∷ ms) = ends m.what + reconnections ms

  -- As deep as `l`, and as many connections behind it, and `n` more; where the worker is alive.
  abbrev pub Deeper : ℕ → Life S A host settings who → Now S A host settings who → Type 0
  Deeper n l (alive l') =
      (length l'.pending ≡ length l.pending + n) × (length l'.past ≡ length l.past + n)
  Deeper n l (stranded l') = Unit
  Deeper n l exited = Unit
  Deeper n l stuck = Unit
  Deeper n l faulted = Unit

  if-Deeper :
      (n : ℕ) (l : Life S A host settings who) (c : Bool) (x y : Now S A host settings who)
      → Deeper n l x
      → Deeper n l y
      → Deeper n l (if c then x else y)
  if-Deeper n l true x y hx hy = hx
  if-Deeper n l false x y hx hy = hy

  entered-Deeper :
      (b : S.input.Buf) (rest : List Action) (l l1 : Life S A host settings who)
      → l1.pending ≡ l.pending
      → l1.past ≡ l.past
      → Deeper 1 l (alive (entered S A host settings who b rest l1))
  entered-Deeper b rest l l1 e e' = (
    omega (arith, ap length e),
    omega (arith, length-append l1.past (l1.loop.out ∷ []), ap length e'),
  )

  lines-Deeper :
      (sys : System) (b : S.input.Buf) (as' : List Action) (l : Life S A host settings who)
      → others as' ≡ 0
      → Deeper 0 l (perform S A host settings who sys b as' l)
  unfolding perform
  lines-Deeper sys b [] l h = elim (Bool-cases l.freed) [
    | inl e ↦ rw e tt
    | inr e ↦ rw e (omega arith, omega arith)
  ]
  lines-Deeper sys b (write_bytes x ∷ as') l h = lines-Deeper sys b as' _ h
  lines-Deeper sys b (command o ∷ as') l h = lines-Deeper sys b as' _ h
  lines-Deeper sys b (sleep ∷ as') l h = absurd (omega arith)
  lines-Deeper sys b (resubscribe ∷ as') l h = absurd (omega arith)
  lines-Deeper sys b (free_bufferevent ∷ as') l h = absurd (omega arith)

  made-Deeper :
      (sys : System) (b : S.input.Buf) (reads : List ReadResult) (l : Life S A host settings who)
      → Deeper 0 l (by_happening S A host settings who sys b (made reads) l)
  made-Deeper sys b reads l =
      by_setup (called_back S A host settings who false false true reads) refl
    where
      by_setup :
          (s : Setup)
          → called_back S A host settings who false false true reads ≡ s
          → Deeper 0 l (act S A host settings who sys b s l)
      by_setup (does actions) e =
          lines-Deeper sys b actions l
            (connected-others who.config reads who.topic who.channel settings.rdy e)
      by_setup waits e = tt
      by_setup faults e = tt

  closed-Deeper :
      (sys : System) (b : S.input.Buf) (l : Life S A host settings who)
      → Deeper 1 l (by_happening S A host settings who sys b closed l)
  unfolding conn_eventcb perform
  closed-Deeper sys b l =
      if-Deeper 1 l (has_address sys who.name) _ _
        (if-Deeper 1 l sys.base_new _ _
          (if-Deeper 1 l sys.connects _ _ (entered-Deeper b (free_bufferevent ∷ []) l l refl refl)
            (if-Deeper 1 l l.freed _ _ tt tt))
          (if-Deeper 1 l l.freed _ _ tt tt))
        tt

  broken-Deeper :
      (sys : System) (b : S.input.Buf) (l : Life S A host settings who)
      → Deeper 1 l (by_happening S A host settings who sys b broken l)
  unfolding conn_eventcb perform
  broken-Deeper sys b l = if-Deeper 1 l l.freed _ _ tt (
      if-Deeper 1 l (has_address sys who.name) _ _
        (if-Deeper 1 l sys.base_new _ _
          (if-Deeper 1 l sys.connects _ _
            (entered-Deeper b (free_bufferevent ∷ []) l (record l { freed = true }) refl refl) tt)
          tt)
        tt)

  other-Deeper :
      (sys : System) (b : S.input.Buf) (l : Life S A host settings who)
      → Deeper 0 l (by_happening S A host settings who sys b other l)
  unfolding conn_eventcb perform
  other-Deeper sys b l = if-Deeper 0 l l.freed _ _ tt tt

  moved-Deeper :
      (l : Life S A host settings who) (r : Option (Loop S A host settings))
      → Deeper 0 l (moved S A host settings who l r)
  moved-Deeper l none = tt
  moved-Deeper l (some r) = (omega arith, omega arith)

  happening-Deeper :
      (sys : System) (b : S.input.Buf) (h : Happening) (l : Life S A host settings who)
      → Deeper (ends h) l (by_happening S A host settings who sys b h l)
  happening-Deeper sys b (event e) l = moved-Deeper l (step S A host settings e l.loop)
  happening-Deeper sys b (made reads) l = made-Deeper sys b reads l
  happening-Deeper sys b closed l = closed-Deeper sys b l
  happening-Deeper sys b broken l = broken-Deeper sys b l
  happening-Deeper sys b other l = other-Deeper sys b l

  Deeper-more :
      (n k : ℕ) (l l1 : Life S A host settings who) (now : Now S A host settings who)
      → Deeper n l (alive l1)
      → Deeper k l1 now
      → Deeper (n + k) l now
  Deeper-more n k l l1 (alive l') h h' = (omega (arith, h.0, h'.0), omega (arith, h.1, h'.1))
  Deeper-more n k l l1 (stranded l') h h' = tt
  Deeper-more n k l l1 exited h h' = tt
  Deeper-more n k l l1 stuck h h' = tt
  Deeper-more n k l l1 faulted h h' = tt

  -- Whatever happens, and in whatever order: as long as the worker is alive, each connection that has
  -- ended has left one more call of `subscribe` on the stack and one more connection behind it.
  pub live-Deeper :
      (ms : List (Moment S A host settings who)) (l : Life S A host settings who)
      → Deeper (reconnections ms) l (live S A host settings who ms l)
  unfolding live happens
  live-Deeper [] l = (omega arith, omega arith)
  live-Deeper (m ∷ ms) l =
      by_now (live-Deeper ms) (happens S A host settings who m l)
        (happening-Deeper m.system m.input m.what l)
    where
      by_now :
          ((l1 : Life S A host settings who)
            → Deeper (reconnections ms) l1 (live S A host settings who ms l1))
          → (now : Now S A host settings who) → Deeper (ends m.what) l now
          → Deeper (ends m.what + reconnections ms) l (elim now [
            | alive l' ↦ live S A host settings who ms l'
            | stranded l' ↦ stranded l'
            | exited ↦ exited
            | stuck ↦ stuck
            | faulted ↦ faulted
          ])
      by_now later (alive l1) h =
          Deeper-more (ends m.what) (reconnections ms) l l1 (live S A host settings who ms l1) h
            (later l1)
      by_now later (stranded l1) h = tt
      by_now later exited h = tt
      by_now later stuck h = tt
      by_now later faulted h = tt
