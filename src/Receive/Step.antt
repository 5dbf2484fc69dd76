-- ===== src/Receive/Step.antt =====
-- One round of `readcb` from either of its resting states: between two frames, or inside one.
use php_nsq.Prelude.{
  ℕ, ◌+◌, ◌-◌, ◌^◌, ◌<◌, ◌≡◌, refl, ap, ◌∙◌, true, false, Bytes, List, [], ◌∷◌, ◌++◌, append-nil,
  append_assoc, length, length-append, take-append_exact, drop-append_exact, take_all, drop_all,
  ltb, arith,
}
use php_nsq.Wire.{htonl_bytes}
use php_nsq.Command.{Output}
use php_nsq.Queue.{Pending}
use php_nsq.Receive.{
  Input, MessageQueue, Host, Reader, again, stop, and_then, read_size, read_body, dispatch, round,
}
use php_nsq.Receive.Frame.{Frame, payload, encode, IsFrame, delivered, nops}
use php_nsq.Receive.Round.{
  IsOpen, IsIdle, IsWaiting, opened, filled, read_size-opened, read_body-filled,
}
use php_nsq.Receive.Deliver.{dispatch-frame}

module _ (I : Input) (M : MessageQueue) (host : Host)
    (works : (n : ℕ) → n < 2 ^ 31 → host.malloc_works n ≡ true) where
  open host use {delay_time, auto_finish}

  -- The rest of the payload is there: the frame is dealt with, and what follows it stays.
  finish :
      (f : Frame) (r : Reader I M host) (part rest tail : Bytes) {ms : List Pending}
      {os : List Output}
      → IsFrame f
      → IsOpen I M host r (payload f) part
      → payload f ≡ part ++ rest
      → I.contents r.input ≡ rest ++ tail
      → M.Holding r.queue ms
      → r.out ≡ os
      → (r' : Reader I M host) × (and_then I M host (read_body I M host r) (dispatch I M host)
          ≡ again r')
        × IsIdle I M host r' tail
            (ms ++ delivered delay_time auto_finish (f ∷ []))
            (os ++ nops (f ∷ []))
  finish f r part rest tail v o split c h w =
      let p = payload f in
      let (step, o', c') =
        read_body-filled I M host r p part rest [] tail o (rw append-nil split) v.small
          (rw (append-nil, c) (take-append_exact (length rest) rest tail refl))
          (rw (append-nil, c) (drop-append_exact (length rest) rest tail refl)) in
      let (r', turn, idle) =
        dispatch-frame I M host works f (filled I M host r rest) v (rw (← split) at o') c' h w in
      (r', rw step turn, idle)

  -- Some of the payload is still missing: the round ends with what has come in the buffer.
  pause :
      (r : Reader I M host) (p part got rest : Bytes) {ms : List Pending} {os : List Output}
      → IsOpen I M host r p part
      → p ≡ part ++ (got ++ rest)
      → length p < 2 ^ 31 - 1
      → 0 < length rest
      → I.contents r.input ≡ got
      → M.Holding r.queue ms
      → r.out ≡ os
      → (r' : Reader I M host) × (and_then I M host (read_body I M host r) (dispatch I M host)
          ≡ stop r')
        × IsWaiting I M host r' p (part ++ got) [] ms os
  unfolding dispatch
  pause r p part got rest o split small missing c h w =
      let n = length-append got rest in
      let (step, o', c') =
        read_body-filled I M host r p part got rest [] o split small
          (rw c (take_all (length (got ++ rest)) got (omega (arith, n))))
          (rw c (drop_all (length (got ++ rest)) got (omega (arith, n)))) in
      let early : ltb (r.l + length got) r.size ≡ true =
        ground
          (arith, o.l, o.size, missing, n, ap length split, length-append part (got ++ rest)) in
      (
        record (filled I M host r got) { is_first = false },
        rw (step, early),
        record {
          first = refl;
          buffer = record { l = o'.l; size = o'.size; room = o'.room; starts = o'.starts };
          input = c';
          queue = h;
          out = w;
        },
      )

  opened-IsOpen :
      (r : Reader I M host) (p : Bytes)
      → r.l ≡ 0
      → IsOpen I M host (opened I M host r (length p)) p []
  opened-IsOpen r p e = record {
    l = e;
    size = refl;
    room = refl;
    starts = λ i lt. absurd (omega arith);
  }

  -- Between two frames, with a whole frame waiting: the round takes exactly that frame.
  pub round-frame :
      (f : Frame) (r : Reader I M host) (tail : Bytes) {ms : List Pending} {os : List Output}
      → IsFrame f
      → IsIdle I M host r (encode f ++ tail) ms os
      → (r' : Reader I M host) × (round I M host r ≡ again r')
        × IsIdle I M host r' tail
            (ms ++ delivered delay_time auto_finish (f ∷ []))
            (os ++ nops (f ∷ []))
  unfolding round encode
  round-frame f r tail v i =
      let p = payload f in
      let (sized, c) =
        read_size-opened I M host r (length p) (p ++ tail) i.first (i.input ∙ append_assoc _ p tail)
          v.small in
      let (r', turn, idle) =
        finish f (opened I M host r (length p)) [] p tail v (opened-IsOpen r p i.l) refl c i.queue
          i.out in
      (r', rw sized turn, idle)

  -- Between two frames, with the start of a frame waiting, its size included: the round keeps it.
  pub round-start :
      (r : Reader I M host) (p got rest : Bytes) {ms : List Pending} {os : List Output}
      → IsIdle I M host r (htonl_bytes (length p) ++ got) ms os
      → p ≡ got ++ rest
      → length p < 2 ^ 31 - 1
      → 0 < length rest
      → (r' : Reader I M host) × (round I M host r ≡ stop r') × IsWaiting I M host r' p got [] ms os
  unfolding round
  round-start r p got rest i split small missing =
      let (sized, c) = read_size-opened I M host r (length p) got i.first i.input small in
      let (r', turn, wait) =
        pause (opened I M host r (length p)) p [] got rest (opened-IsOpen r p i.l) split small
          missing c i.queue i.out in
      (r', rw sized turn, wait)

  read_size-waiting : (r : Reader I M host) → r.is_first ≡ false → read_size I M host r ≡ again r
  unfolding read_size
  read_size-waiting r e = rw e

  -- Inside a frame, when the rest of it has come: the round takes the frame, as if it had been whole.
  pub round-resume :
      (f : Frame) (r : Reader I M host) (part rest tail : Bytes) {ms : List Pending}
      {os : List Output}
      → IsFrame f
      → IsWaiting I M host r (payload f) part (rest ++ tail) ms os
      → payload f ≡ part ++ rest
      → (r' : Reader I M host) × (round I M host r ≡ again r')
        × IsIdle I M host r' tail
            (ms ++ delivered delay_time auto_finish (f ∷ []))
            (os ++ nops (f ∷ []))
  unfolding round
  round-resume f r part rest tail v w split =
      let (r', turn, idle) = finish f r part rest tail v w.buffer split w.input w.queue w.out in
      (r', rw (read_size-waiting r w.first) turn, idle)

  -- Inside a frame, when more of it has come, but not all: the round keeps that too.
  pub round-more :
      (r : Reader I M host) (p part got rest : Bytes) {ms : List Pending} {os : List Output}
      → IsWaiting I M host r p part got ms os
      → p ≡ part ++ (got ++ rest)
      → length p < 2 ^ 31 - 1
      → 0 < length rest
      → (r' : Reader I M host) × (round I M host r ≡ stop r')
        × IsWaiting I M host r' p (part ++ got) [] ms os
  unfolding round
  round-more r p part got rest w split small missing =
      let (r', turn, wait) =
        pause r p part got rest w.buffer split small missing w.input w.queue w.out in
      (r', rw (read_size-waiting r w.first) turn, wait)
