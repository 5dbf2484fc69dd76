-- ===== src/Receive/Stream.antt =====
-- One call of `readcb` on all that has arrived: any number of whole frames, and what surrounds them.
use php_nsq.Prelude.{
  ℕ, suc, ◌+◌, ◌-◌, ◌^◌, ◌<◌, ◌≡◌, refl, ◌∙◌, Bool, true, Bytes, List, [], ◌∷◌, ◌++◌, append-nil,
  append_assoc, All, length, ◌==◌, Bool-cases, inl, inr, arith,
}
use php_nsq.Wire.{ℤ, htonl_bytes}
use php_nsq.Command.{Output}
use php_nsq.Queue.{Pending}
use php_nsq.Receive.{Input, MessageQueue, Host, Reader, returned, readcb}
use php_nsq.Receive.Frame.{Frame, response, message, payload, encode_all, IsFrame, delivered, nops}
use php_nsq.Receive.Round.{IsIdle, IsWaiting, readcb-again, readcb-stop}
use php_nsq.Receive.Step.{round-frame, round-start, round-resume}
use php_nsq.Receive.Drain.{Settles, readcb-Settles}

pub delivered-cons :
    (d : ℤ) (a : Bool) (f : Frame) (fs : List Frame) (ms : List Pending)
    → (ms ++ delivered d a (f ∷ [])) ++ delivered d a fs ≡ ms ++ delivered d a (f ∷ fs)
delivered-cons d a (response text) fs ms = rw append-nil
delivered-cons d a (message stamp attempts id body) fs ms = rw append_assoc

pub nops-cons :
    (f : Frame) (fs : List Frame) (os : List Output)
    → (os ++ nops (f ∷ [])) ++ nops fs ≡ os ++ nops (f ∷ fs)
nops-cons (response text) fs os = elim (Bool-cases (length text == 11)) [
  | inl beat ↦ rw (beat, append_assoc)
  | inr other ↦ rw (other, append-nil)
]
nops-cons (message stamp attempts id body) fs os = rw append-nil

module _ (I : Input) (M : MessageQueue) (host : Host)
    (works : (n : ℕ) → n < 2 ^ 31 → host.malloc_works n ≡ true) where
  open host use {delay_time, auto_finish}

  -- One round for each frame, and then `k`.
  pub rounds : List Frame → ℕ → ℕ
  rounds [] k = k
  rounds (f ∷ fs) k = suc (rounds fs k)

  pub rounds-length : (fs : List Frame) (k : ℕ) → rounds fs k ≡ length fs + k
  unfolding rounds
  rounds-length [] k = omega arith
  rounds-length (f ∷ fs) k = omega (arith, rounds-length fs k)

  -- Whole frames, taken one in a round.
  pub take_frames :
      (fs : List Frame) (tail : Bytes)
      → All IsFrame fs
      → (r : Reader I M host) (ms : List Pending) (os : List Output)
      → IsIdle I M host r (encode_all fs ++ tail) ms os
      → (r' : Reader I M host) × ((k : ℕ) → readcb I M host (rounds fs k) r ≡ readcb I M host k r')
        × IsIdle I M host r' tail (ms ++ delivered delay_time auto_finish fs) (os ++ nops fs)
  unfolding rounds
  take_frames [] tail v r ms os i = (r, λ k. refl, rw (append-nil, append-nil) i)
  take_frames (f ∷ fs) tail (v, vs) r ms os i =
      let (r', turn, i') =
        round-frame I M host works f r (encode_all fs ++ tail) v (rw append_assoc at i) in
      let (r'', same, i'') =
        take_frames fs tail vs r' (ms ++ delivered delay_time auto_finish (f ∷ []))
          (os ++ nops (f ∷ [])) i' in
      (
        r'',
        λ k. readcb-again I M host (rounds fs k) r r' turn ∙ same k,
        rw (delivered-cons delay_time auto_finish f fs ms, nops-cons f fs os) at i'',
      )

  -- When whole frames have arrived and nothing else, one call of `readcb` queues every message, in
  -- order and unchanged, answers every heartbeat, and returns between two frames, provided that some
  -- buffer that it goes on to allocate happens to start with type 0.
  readcb-whole :
      (fs : List Frame) (r : Reader I M host) {ms : List Pending} {os : List Output}
      → All IsFrame fs
      → ((a : ℕ) → (j : ℕ) × Settles I M host a j)
      → IsIdle I M host r (encode_all fs) ms os
      → (k : ℕ) × (r' : Reader I M host) × (readcb I M host (length fs + k) r ≡ returned r')
        × IsIdle I M host r' [] (ms ++ delivered delay_time auto_finish fs) (os ++ nops fs)
  readcb-whole fs r {ms} {os} v settles i =
      let (r', same, i') = take_frames fs [] v r ms os (rw append-nil i) in
      let (j, settled) = settles r'.allocs in
      let (r'', done, i'') = readcb-Settles I M host j r' i' settled in
      (suc j, r'', rw (← rounds-length fs (suc j)) (same (suc j) ∙ done), i'')

  -- When whole frames have arrived, and behind them the size and some of the payload `p` of another,
  -- one call of `readcb` queues every message, in order and unchanged, answers every heartbeat, and
  -- returns with what it has of `p` in its buffer.
  pub readcb-partial :
      (fs : List Frame) (p got rest : Bytes) (r : Reader I M host) {ms : List Pending}
      {os : List Output}
      → All IsFrame fs
      → p ≡ got ++ rest
      → length p < 2 ^ 31 - 1
      → 0 < length rest
      → IsIdle I M host r (encode_all fs ++ (htonl_bytes (length p) ++ got)) ms os
      → (r' : Reader I M host) × (readcb I M host (length fs + 1) r ≡ returned r')
        × IsWaiting I M host r' p got [] (ms ++ delivered delay_time auto_finish fs) (os ++ nops fs)
  readcb-partial fs p got rest r {ms} {os} v split small missing i =
      let (r', same, i') = take_frames fs _ v r ms os i in
      let (r'', turn, w) = round-start I M host works r' p got rest i' split small missing in
      (r'', rw (← rounds-length fs 1) (same 1 ∙ readcb-stop I M host 0 r' r'' turn), w)

  -- When the rest of a frame has come, one call of `readcb` takes that frame as if it had been whole,
  -- then the whole frames behind it, and keeps what has come of the next one.
  pub readcb-resume :
      (f : Frame) (part more : Bytes) (fs : List Frame) (p got rest : Bytes) (r : Reader I M host)
      {ms : List Pending} {os : List Output}
      → All IsFrame (f ∷ fs)
      → payload f ≡ part ++ more
      → p ≡ got ++ rest
      → length p < 2 ^ 31 - 1
      → 0 < length rest
      → IsWaiting I M host r
          (payload f)
          part
          (more ++ (encode_all fs ++ (htonl_bytes (length p) ++ got)))
          ms
          os
      → (r' : Reader I M host) × (readcb I M host (length fs + 2) r ≡ returned r')
        × IsWaiting I M host r' p got []
            (ms ++ delivered delay_time auto_finish (f ∷ fs))
            (os ++ nops (f ∷ fs))
  readcb-resume f part more fs p got rest r {ms} {os} (v, vs) split split' small missing w =
      let (r', turn, i) = round-resume I M host works f r part more _ v w split in
      let (r'', done, w') = readcb-partial fs p got rest r' vs split' small missing i in
      let n : length fs + 2 ≡ suc (length fs + 1) = omega arith in
      (
        r'',
        rw n (readcb-again I M host (length fs + 1) r r' turn ∙ done),
        rw (delivered-cons delay_time auto_finish f fs ms, nops-cons f fs os) at w',
      )
