-- ===== src/Loop/Arrival.antt =====
-- What may arrive at once, and what one call of `readcb` makes of it.
use php_nsq.Prelude.{
  ℕ, zero, suc, ◌+◌, ◌-◌, ◌^◌, ◌<◌, ◌≤◌, ◌≡◌, true, refl, sym, ◌∙◌, Bytes, List, [], ◌∷◌, ◌++◌, All,
  append-nil, append_assoc, length, length-append, arith,
}
use php_nsq.Wire.{htonl_bytes}
use php_nsq.Command.{Output}
use php_nsq.Queue.{Pending}
use php_nsq.Receive.{
  Input, MessageQueue, Host, Reader, Turn, fault, returned, round, again, stop, readcb,
}
use php_nsq.Receive.Frame.{
  Frame, payload, encode, encode_all, IsFrame, delivered, nops, length-htonl_bytes,
}
use php_nsq.Receive.Round.{IsIdle, IsWaiting, readcb-again, readcb-stop, readcb-fault}
use php_nsq.Receive.Step.{round-resume, round-more}
use php_nsq.Receive.Drain.{Settles, readcb-Settles}
use php_nsq.Receive.Stream.{
  rounds, rounds-length, take_frames, readcb-partial, readcb-resume, delivered-cons, nops-cons,
}

-- Between two frames, or inside the frame `f`, of whose payload `part` has come and `more` has not.
pub data Phase : Type 0 where
  between : Phase
  inside : (f : Frame) (part more : Bytes) → Phase

-- The first bytes of a frame: its size and a part of its payload, not all of it.
abbrev pub start_of : Frame → Bytes → Bytes
start_of f part = htonl_bytes (length (payload f)) ++ part

-- `IsCut f part more`: a frame in two parts, the second of them not empty.
pub record IsCut (f : Frame) (part more : Bytes) : Type 0 where
  pub frame : IsFrame f
  pub split : payload f ≡ part ++ more
  pub missing : 0 < length more

-- `Arrival p q fs bs`: when `bs` arrives in the phase `p`, the frames `fs` are complete and the phase
-- is `q`. A size of four bytes always arrives in one piece.
pub data Arrival : Phase → Phase → List Frame → Bytes → Type 0 where
  whole : (fs : List Frame) → All IsFrame fs → Arrival between between fs (encode_all fs)
  begun :
      (fs : List Frame) (f : Frame) (part more : Bytes)
      → All IsFrame fs
      → IsCut f part more
      → Arrival between (inside f part more) fs (encode_all fs ++ start_of f part)
  continued :
      (f : Frame) (part got more : Bytes)
      → IsCut f (part ++ got) more
      → Arrival (inside f part (got ++ more)) (inside f (part ++ got) more) [] got
  completed :
      (f : Frame) (part more : Bytes) (fs : List Frame)
      → IsCut f part more
      → All IsFrame fs
      → Arrival (inside f part more) between (f ∷ fs) (more ++ encode_all fs)
  carried :
      (f : Frame) (part more : Bytes) (fs : List Frame) (g : Frame) (part' more' : Bytes)
      → IsCut f part more
      → All IsFrame fs
      → IsCut g part' more'
      → Arrival
          (inside f part more)
          (inside g part' more')
          (f ∷ fs)
          (more ++ (encode_all fs ++ start_of g part'))

length-encode_all : (fs : List Frame) → length fs ≤ length (encode_all fs)
unfolding encode
length-encode_all [] = omega arith
length-encode_all (f ∷ fs) = omega (
  arith,
  length-encode_all fs,
  length-append (htonl_bytes (length (payload f)) ++ payload f) (encode_all fs),
  length-append (htonl_bytes (length (payload f))) (payload f),
  length-htonl_bytes (length (payload f)),
)

-- An arrival completes no more frames than it has bytes.
pub length-Arrival :
    {p q : Phase} {fs : List Frame} {bs : Bytes} → Arrival p q fs bs → length fs ≤ length bs
length-Arrival (whole fs v) = length-encode_all fs
length-Arrival (begun fs f part more v cut) =
    omega (arith, length-encode_all fs, length-append (encode_all fs) (start_of f part))
length-Arrival (continued f part got more cut) = omega arith
length-Arrival (completed f part more fs cut v) =
    omega (arith, length-encode_all fs, length-append more (encode_all fs), cut.missing)
length-Arrival (carried f part more fs g part' more' cut v cut') = omega (
  arith,
  length-encode_all fs,
  length-append more (encode_all fs ++ start_of g part'),
  length-append (encode_all fs) (start_of g part'),
  cut.missing,
)

module _ (I : Input) (M : MessageQueue) (host : Host) where
  open host use {delay_time, auto_finish}

  readcb_by_turn :
      (k n : ℕ) (r r' : Reader I M host)
      → ((r1 : Reader I M host)
          → readcb I M host k r1 ≡ returned r'
          → readcb I M host n r1 ≡ returned r')
      → readcb I M host (suc k) r ≡ returned r'
      → (t : Turn I M host) → round I M host r ≡ t
      → readcb I M host (suc n) r ≡ returned r'
  readcb_by_turn k n r r' later h (again r1) turn =
      readcb-again I M host n r r1 turn ∙ later r1 (sym (readcb-again I M host k r r1 turn) ∙ h)
  readcb_by_turn k n r r' later h (stop r1) turn =
      readcb-stop I M host n r r1 turn ∙ sym (readcb-stop I M host k r r1 turn) ∙ h
  readcb_by_turn k n r r' later h fault turn = absurd (cc (h, readcb-fault I M host k r turn))

  -- More rounds make no difference to a `readcb` that has returned.
  readcb-returned :
      (k n d : ℕ) (r r' : Reader I M host)
      → n ≡ k + d
      → readcb I M host k r ≡ returned r'
      → readcb I M host n r ≡ returned r'
  unfolding readcb
  readcb-returned zero n d r r' e h = absurd (cc h)
  readcb-returned (suc k) zero d r r' e h = absurd (omega arith)
  readcb-returned (suc k) (suc n) d r r' e h =
      readcb_by_turn k n r r' (λ r1. readcb-returned k n d r1 r' (omega arith)) h (round I M host r)
        refl

  readcb-enough :
      (k n : ℕ) (r r' : Reader I M host)
      → k ≤ n
      → readcb I M host k r ≡ returned r'
      → readcb I M host n r ≡ returned r'
  readcb-enough k n r r' le h = readcb-returned k n (n - k) r r' (omega arith) h

  -- A reader at rest, with nothing left to read.
  abbrev pub Resting : Reader I M host → Phase → List Pending → List Output → Type 0
  Resting r between ms os = IsIdle I M host r [] ms os
  Resting r (inside f part more) ms os = IsWaiting I M host r (payload f) part [] ms os

  -- The same, with `bs` to read.
  abbrev pub Fed : Reader I M host → Phase → Bytes → List Pending → List Output → Type 0
  Fed r between bs ms os = IsIdle I M host r bs ms os
  Fed r (inside f part more) bs ms os = IsWaiting I M host r (payload f) part bs ms os

  module _ (works : (n : ℕ) → n < 2 ^ 31 → host.malloc_works n ≡ true) (spare : ℕ)
      (settles : (a : ℕ) → (j : ℕ) × (j < spare) × Settles I M host a j) where
    -- Whole frames, and a `readcb` that ends behind them.
    readcb-frames :
        (fs : List Frame) (r : Reader I M host) {ms : List Pending} {os : List Output}
        → All IsFrame fs
        → IsIdle I M host r (encode_all fs) ms os
        → (r' : Reader I M host) × (readcb I M host (length fs + spare) r ≡ returned r')
          × IsIdle I M host r' [] (ms ++ delivered delay_time auto_finish fs) (os ++ nops fs)
    readcb-frames fs r {ms} {os} v i =
        let (r', same, i') = take_frames I M host works fs [] v r ms os (rw append-nil i) in
        let (j, small, settled) = settles r'.allocs in
        let (r'', done, i'') = readcb-Settles I M host j r' i' settled in
        let count = rounds-length I M host works fs (suc j) in
        (
          r'',
          readcb-enough (rounds I M host works fs (suc j)) (length fs + spare) r r''
              (omega (arith, count)) (same (suc j) ∙ done),
          i'',
        )

    -- One call of `readcb`, given one round for each frame and `spare`, on anything that may arrive:
    -- it returns, has queued the messages of the frames that are complete and answered their
    -- heartbeats, and is at rest in the next phase.
    pub readcb-Arrival :
        {p q : Phase} {fs : List Frame} {bs : Bytes} (k : ℕ) (r : Reader I M host)
        (ms : List Pending) (os : List Output)
        → Arrival p q fs bs
        → length fs + spare ≤ k
        → Fed r p bs ms os
        → (r' : Reader I M host) × (readcb I M host k r ≡ returned r')
          × Resting r' q (ms ++ delivered delay_time auto_finish fs) (os ++ nops fs)
    readcb-Arrival k r ms os (whole fs v) enough i =
        let (r', done, i') = readcb-frames fs r v i in
        (r', readcb-enough (length fs + spare) k r r' enough done, i')
    readcb-Arrival k r ms os (begun fs f part more v cut) enough i =
        let (r', done, w) =
          readcb-partial I M host works fs (payload f) part more r v cut.split cut.frame.small
            cut.missing i in
        (r', readcb-enough (length fs + 1) k r r' (omega (arith, (settles 0).1)) done, w)
    readcb-Arrival k r ms os (continued f part got more cut) enough w =
        let (r', turn, w') =
          round-more I M host works r (payload f) part got more w
            (cut.split ∙ append_assoc part got more) cut.frame.small cut.missing in
        (
          r',
          readcb-enough 1 k r r' (omega (arith, (settles 0).1)) (readcb-stop I M host 0 r r' turn),
          rw (append-nil ms, append-nil os) w',
        )
    readcb-Arrival k r ms os (completed f part more fs cut v) enough w =
        let (r', turn, i) =
          round-resume I M host works f r part more (encode_all fs) cut.frame w cut.split in
        let (r'', done, i') = readcb-frames fs r' v i in
        (
          r'',
          readcb-enough (suc (length fs + spare)) k r r'' (omega arith)
              (readcb-again I M host (length fs + spare) r r' turn ∙ done),
          rw (delivered-cons delay_time auto_finish f fs _, nops-cons f fs _) at i',
        )
    readcb-Arrival k r ms os (carried f part more fs g part' more' cut v cut') enough w =
        let (r', done, w') =
          readcb-resume I M host works f part more fs (payload g) part' more' r (cut.frame, v)
            cut.split cut'.split cut'.frame.small cut'.missing w in
        (r', readcb-enough (length fs + 2) k r r' (omega (arith, (settles 0).1)) done, w')
