-- ===== src/Receive/Deliver.antt =====
-- What `readcb` does with a frame that is whole in the buffer.
use mathlib.Core.Path.{subst}
use php_nsq.Prelude.{
  ℕ, ◌+◌, ◌-◌, ◌%◌, ◌^◌, ◌<◌, ◌≡◌, refl, ap, sym, ◌∙◌, true, false, some, Bytes, List, [], ◌∷◌,
  ◌++◌, append-nil, append_assoc, length, length-append, take_all, codes, ltb, ◌==◌, if◌then◌else◌,
  arith,
}
use php_nsq.Wire.{Mem, read_i32}
use php_nsq.Wire.BigEndian.{mem_of, mem_of-IsByte, read_i16-be_value, ntoh64-be_value}
use php_nsq.Command.{Output, queued}
use php_nsq.Queue.{Pending}
use php_nsq.Queue.Chain.{kept}
use php_nsq.Receive.{
  Input, MessageQueue, Host, Reader, again, shift, bytes_of, pending_of, idle_with, take_response,
  take_message, dispatch,
}
use php_nsq.Receive.Memory.{
  Starts, Starts-shift, bytes_of-Starts, read_i16-Starts, read_i32-Starts, ntoh64-Starts,
}
use php_nsq.Receive.Frame.{Frame, response, message, payload, IsFrame, as_pending, delivered, nops}
use php_nsq.Receive.Round.{IsOpen, IsIdle}

-- The fields of a message frame, from its layout in memory.
module _ (m : Mem) (stamp attempts id body : Bytes)
    (h : Starts m (payload (message stamp attempts id body))) (ls : length stamp ≡ 8)
    (la : length attempts ≡ 2) (li : length id ≡ 16) where
  at_stamp : Starts (shift m 4) (stamp ++ (attempts ++ (id ++ body)))
  at_stamp = Starts-shift m (0 ∷ 0 ∷ 0 ∷ 2 ∷ []) _ 4 refl h

  at_attempts : Starts (shift m 12) (attempts ++ (id ++ body))
  at_attempts =
      Starts-shift m (0 ∷ 0 ∷ 0 ∷ 2 ∷ stamp) (attempts ++ (id ++ body)) 12 (omega (arith, ls)) h

  at_id : Starts (shift m 14) (id ++ body)
  at_id =
      Starts-shift m (0 ∷ 0 ∷ 0 ∷ 2 ∷ (stamp ++ attempts)) (id ++ body) 14
        (omega (arith, ls, la, length-append stamp attempts)) (subst (Starts m) split h)
    where
      split :
          payload (message stamp attempts id body)
          ≡ (0 ∷ 0 ∷ 0 ∷ 2 ∷ (stamp ++ attempts)) ++ (id ++ body)
      split = simp append_assoc

  at_body : Starts (shift m 30) (body ++ [])
  at_body =
      Starts-shift m (0 ∷ 0 ∷ 0 ∷ 2 ∷ (stamp ++ (attempts ++ id))) (body ++ []) 30
        (omega (arith, ls, la, li, length-append stamp (attempts ++ id), length-append attempts id))
        (subst (Starts m) split h)
    where
      split :
          payload (message stamp attempts id body)
          ≡ (0 ∷ 0 ∷ 0 ∷ 2 ∷ (stamp ++ (attempts ++ id))) ++ (body ++ [])
      split = simp (append_assoc, append-nil)

  field_id : bytes_of 16 (shift m 14) ≡ id
  field_id = ap (λ n. bytes_of n (shift m 14)) (sym li) ∙ bytes_of-Starts id body (shift m 14) at_id

  field_body : (n : ℕ) → n ≡ length body → bytes_of n (shift m 30) ≡ body
  field_body n e =
      ap (λ k. bytes_of k (shift m 30)) e ∙ bytes_of-Starts body [] (shift m 30) at_body

module _ (I : Input) (M : MessageQueue) (host : Host) where
  open host use {delay_time, auto_finish}

  abbrev answered : Reader I M host → Bytes → Reader I M host
  answered r text = record r {
    out = if length text == 11 then r.out ++ (queued (codes "NOP\n") ∷ []) else r.out;
    l = 0;
    is_first = true;
    size = 0;
  }

  at_end :
      (r : Reader I M host) (p : Bytes)
      → IsOpen I M host r p p
      → (ltb r.l r.size ≡ false) × ((r.l == r.size) ≡ true)
  at_end r p o = (ground (arith, o.l, o.size), ground (arith, o.l, o.size))

  dispatch-response :
      (r : Reader I M host) (text : Bytes)
      → IsOpen I M host r (payload (response text)) (payload (response text))
      → dispatch I M host r ≡ again (answered r text)
  unfolding dispatch take_response
  dispatch-response r text o =
      let (past, full) = at_end r (payload (response text)) o in
      let kind : read_i32 r.message ≡ 0 =
        read_i32-Starts r.message (0 ∷ 0 ∷ 0 ∷ 0 ∷ []) text refl o.starts ∙ zero_type in
      let some_size : (r.size == 0) ≡ false = ground (arith, o.size) in
      let beat : (r.size == 15) ≡ (length text == 11) = ground (arith, o.size) in
      rw (past, full, kind, some_size, beat)
    where
      zero_type : read_i32 (mem_of (0 ∷ 0 ∷ 0 ∷ 0 ∷ [])) ≡ 0
      zero_type = unfold read_i32 in refl

  body_total :
      (r : Reader I M host) (stamp attempts id body : Bytes)
      → let f = message stamp attempts id body in
        IsFrame f → IsOpen I M host r (payload f) (payload f) → r.size ≡ length body + 30
  body_total r stamp attempts id body f o = omega (
    arith,
    f.parts,
    o.size,
    length-append stamp (attempts ++ (id ++ body)),
    length-append attempts (id ++ body),
    length-append id body,
  )

  body_size :
      (r : Reader I M host) (stamp attempts id body : Bytes)
      → let f = message stamp attempts id body in
        IsFrame f → IsOpen I M host r (payload f) (payload f) → r.size - 30 ≡ length body
  body_size r stamp attempts id body f o = omega (arith, body_total r stamp attempts id body f o)

  -- The message of a message frame, as `readcb` takes it from the buffer.
  pending_of-delivered :
      (r : Reader I M host) (stamp attempts id body : Bytes)
      → let f = message stamp attempts id body in
        IsFrame f
        → IsOpen I M host r (payload f) (payload f)
        → pending_of I M host r ≡ as_pending delay_time auto_finish stamp attempts id body
  pending_of-delivered r stamp attempts id body f o =
      let (ls, la, li, stamp_bytes, attempts_bytes) = f.parts in
      let m = r.message in
      let sizes : r.size - 30 ≡ length body = body_size r stamp attempts id body f o in
      rw (
        field_id m stamp attempts id body o.starts ls la li,
        sizes,
        field_body m stamp attempts id body o.starts ls la li (length body) refl,
        ntoh64-Starts (shift m 4) stamp _ ls (at_stamp m stamp attempts id body o.starts ls la li),
        ntoh64-be_value (mem_of stamp) (mem_of-IsByte stamp stamp_bytes),
        read_i16-Starts (shift m 12) attempts _ la
            (at_attempts m stamp attempts id body o.starts ls la li),
        read_i16-be_value (mem_of attempts) (mem_of-IsByte attempts attempts_bytes),
      )

  dispatch-message :
      (r : Reader I M host) (stamp attempts id body : Bytes) (q : M.Q)
      → let f = message stamp attempts id body in
        IsFrame f
        → IsOpen I M host r (payload f) (payload f)
        → host.malloc_works (length body + 1) ≡ true
        → M.enqueue (pending_of I M host r) r.queue ≡ some q
        → dispatch I M host r ≡ again (idle_with I M host r q)
  unfolding dispatch take_message
  dispatch-message r stamp attempts id body q f o works queued_up =
      let (past, full) = at_end r (payload (message stamp attempts id body)) o in
      let total = body_total r stamp attempts id body f o in
      let asks : (r.size + 2 ^ 64 - 29) % 2 ^ 64 ≡ length body + 1 =
        omega (arith, total, f.small, o.size) in
      let long : ltb r.size 30 ≡ false = ground (arith, total) in
      let kind : read_i32 r.message ≡ 2 =
        read_i32-Starts r.message (0 ∷ 0 ∷ 0 ∷ 2 ∷ []) _ refl o.starts ∙ message_type in
      rw (past, full, kind, asks, works, long, queued_up)
    where
      message_type : read_i32 (mem_of (0 ∷ 0 ∷ 0 ∷ 2 ∷ [])) ≡ 2
      message_type = unfold read_i32 in refl

  -- What the queue keeps of such a message is all of it.
  kept_delivered :
      (stamp attempts id body : Bytes)
      → IsFrame (message stamp attempts id body)
      → kept (as_pending delay_time auto_finish stamp attempts id body)
        ≡ as_pending delay_time auto_finish stamp attempts id body
  kept_delivered stamp attempts id body f =
      rw (take_all 16 id (omega (arith, f.parts)), take_all (length body) body (omega arith))

  -- A whole frame in the buffer: its message is queued or its heartbeat answered, and the reader
  -- waits for the next frame.
  pub dispatch-frame :
      ((n : ℕ) → n < 2 ^ 31 → host.malloc_works n ≡ true)
      → (f : Frame) (r : Reader I M host) {tail : Bytes} {ms : List Pending} {os : List Output}
      → IsFrame f
      → IsOpen I M host r (payload f) (payload f)
      → I.contents r.input ≡ tail
      → M.Holding r.queue ms
      → r.out ≡ os
      → (r' : Reader I M host) × (dispatch I M host r ≡ again r')
        × IsIdle I M host r' tail
            (ms ++ delivered delay_time auto_finish (f ∷ []))
            (os ++ nops (f ∷ []))
  dispatch-frame works (response text) r {os} v o c h w = (
    answered r text,
    dispatch-response r text o,
    record {
      first = refl;
      l = refl;
      input = c;
      queue = rw append-nil h;
      out = ground (arith, w, append-nil os);
    },
  )
  dispatch-frame works (message stamp attempts id body) r {ms} {os} v o c h w =
      let m = as_pending delay_time auto_finish stamp attempts id body in
      let (q, queued_up, holds) = M.enqueue-Holding m r.queue ms h in
      let same = pending_of-delivered r stamp attempts id body v o in
      let total = body_total r stamp attempts id body v o in
      let short = works (length body + 1) (omega (arith, total, v.small, o.size)) in
      (
        idle_with I M host r q,
        dispatch-message r stamp attempts id body q v o short (rw same queued_up),
        record {
          first = refl;
          l = refl;
          input = c;
          queue = rw (kept_delivered stamp attempts id body v) at holds;
          out = w ∙ sym (append-nil os);
        },
      )
