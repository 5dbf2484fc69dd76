-- ===== src/Process/Answer.antt =====
-- What one tick of the timer does to the queue and tells nsqd.
use php_nsq.Prelude.{
  ℕ, ◌≤◌, ◌≡◌, refl, ap, ◌≢◌, Bool, true, false, not, some, Bytes, List, [], ◌∷◌, ◌++◌, take, codes,
  length, length-append, take_all, take-append_exact, if◌then◌else◌, arith, All,
}
use php_nsq.Wire.{ℤ, pos, signed64}
use php_nsq.Print.{c_string, format_int, IsInt}
use php_nsq.Print.Digits.{length-format_int, c_string-id}
use php_nsq.Command.{Output, queued, write_line, nsq_finish, nsq_requeue}
use php_nsq.Command.Limits.{sprintf_buf-fits, nsq_ready-some}
use php_nsq.Command.Line.{Command, send, rdy, fin, req}
use php_nsq.Queue.{Ptr, null, Pending, Store}
use php_nsq.Queue.Chain.{Entry, not_null, node_of, first, IsQueue}
use php_nsq.Queue.Dequeue.{
  dequeue_message-nil, dequeue_message-cons, free_message-Holds, load-Holds, load_block-Holds,
  without,
}
use php_nsq.Queue.Cleanup.{Without, without-Without}
use php_nsq.Process.{
  MessageObject, Call, Callback, snprintf_buf, message_object, reply, process_business_message,
  process_message_queue,
}

-- A 16-byte id without NUL, an `int` delay, and a body of the length recorded.
pub record IsRegular (m : Pending) : Type 0 where
  pub id_length : length m.message_id ≡ 16
  pub id_text : All (λ c. c ≢ 0) m.message_id
  pub delay : IsInt m.delay_time
  pub body_length : length m.body ≡ m.body_len

-- The object that the callback should see for a message.
abbrev pub object_of : Pending → MessageObject
object_of m = record {
  message_id = m.message_id;
  message_id_camel = m.message_id;
  attempts = pos m.attempts;
  timestamp = signed64 m.timestamp;
  payload = m.body;
}

-- The command that answers a message: FIN if the callback returned without an exception, REQ with
-- the configured delay if not, and nothing where the user finishes messages by hand.
abbrev pub answer : Pending → Call → List Command
answer m c =
    if m.auto_finish
    then (if c.success
        then (if c.exception then req m.message_id m.delay_time else fin m.message_id)
        else req m.message_id m.delay_time)
      ∷ []
    else []

-- The lines that the functions of command.c write for some commands, in order.
abbrev pub Sends : List Command → List Output → Type 0
Sends [] os = os ≡ []
Sends (c ∷ cs) [] = ⊥
Sends (c ∷ cs) (o ∷ os) = (send c ≡ some o) × Sends cs os

c_string_to_nul : (s : Bytes) → All (λ c. c ≢ 0) s → c_string (s ++ (0 ∷ [])) ≡ s
unfolding c_string
c_string_to_nul [] h = refl
c_string_to_nul (c ∷ s) h = ground (arith, c_string_to_nul s h.1)

-- A text that fits both buffers goes out whole, from `sprintf` and from `snprintf`.
sent_whole :
    (k : ℕ) (text : Bytes)
    → length text ≤ 127
    → length text ≤ k
    → write_line queued text ≡ some (queued (take k text))
sent_whole k text h h' = rw (take_all k text h', sprintf_buf-fits text h, write_line)

Sends-cases :
    (auto success exception : Bool) (c d : Command) {o p : Output}
    → send c ≡ some o
    → send d ≡ some p
    → Sends (if auto then (if success then (if exception then d else c) else d) ∷ [] else []) (
        if auto
        then (if (if success then (if not exception then true else false) else false)
            then o ∷ []
            else p ∷ [])
        else [])
Sends-cases false s x c d hc hd = refl
Sends-cases true false x c d hc hd = (hd, refl)
Sends-cases true true false c d hc hd = (hc, refl)
Sends-cases true true true c d hc hd = (hd, refl)

module _ (m : Pending) (ok : IsRegular m) where
  fin_text : Bytes
  fin_text = codes "FIN " ++ (m.message_id ++ codes "\n")

  req_text : Bytes
  req_text =
      codes "REQ " ++ (m.message_id ++ (codes " " ++ (format_int m.delay_time ++ codes "\n")))

  length-fin_text : length fin_text ≡ 21
  unfolding fin_text
  length-fin_text = ground (arith, ok.id_length, length-append m.message_id (codes "\n"))

  length-req_text : length req_text ≤ 33
  unfolding req_text
  length-req_text = ground (
    arith,
    ok.id_length,
    length-append m.message_id (codes " " ++ (format_int m.delay_time ++ codes "\n")),
    length-append (format_int m.delay_time) (codes "\n"),
    length-format_int m.delay_time ok.delay,
  )

  send-fin : send (fin m.message_id) ≡ some (queued (snprintf_buf 64 fin_text))
  unfolding send nsq_finish fin_text
  send-fin =
      let fits = length-fin_text in
      rw (c_string-id m.message_id ok.id_text)
        (sent_whole 63 fin_text (omega (arith, fits)) (omega (arith, fits)))

  send-req : send (req m.message_id m.delay_time) ≡ some (queued (snprintf_buf 128 req_text))
  unfolding send nsq_requeue req_text
  send-req =
      let fits = length-req_text in
      rw (c_string-id m.message_id ok.id_text)
        (sent_whole 127 req_text (omega (arith, fits)) (omega (arith, fits)))

  message_object-eq-object_of :
      (e : Entry) (next : ℕ)
      → e.msg ≡ m
      → message_object (node_of e next) (m.body ++ (0 ∷ [])) ≡ object_of m
  message_object-eq-object_of e next same = rw (
    same,
    take-append_exact 16 m.message_id (0 ∷ []) ok.id_length,
    take-append_exact m.body_len m.body (0 ∷ []) ok.body_length,
  )

  -- The answer to a message is the line that command.c would write for it: the 64 and 128 bytes of
  -- the two buffers do not cut it.
  reply-Sends :
      (call : Call) (next b : Ptr)
      → Sends (answer m call) (reply (node_of (record { ptr = next; body = b; msg = m }) next) call)
  unfolding reply fin_text req_text
  reply-Sends call next b =
      rw (c_string_to_nul m.message_id ok.id_text)
        (Sends-cases m.auto_finish call.success call.exception _ _ send-fin send-req)

process_business_message-reply :
    (callback : Callback) (e : Entry) (next : Ptr)
    → IsRegular e.msg
    → process_business_message callback (node_of e next) (e.msg.body ++ (0 ∷ []))
      ≡ (callback (object_of e.msg)).written ++ reply (node_of e next) (callback (object_of e.msg))
unfolding process_business_message
process_business_message-reply callback e next ok =
    rw (message_object-eq-object_of e.msg ok e next refl)

-- One tick on an empty queue reads nothing, calls nothing and writes nothing.
pub process_message_queue-nil :
    (callback : Callback) (n : ℤ) (s : Store)
    → IsQueue s []
    → process_message_queue callback n s ≡ some (s, [])
unfolding process_message_queue
process_message_queue-nil callback n s q = rw (dequeue_message-nil s q)

-- One tick on a queue with an oldest message `e.msg` in it: there is no fault; the callback sees
-- exactly that message; behind its own lines comes the one answer, FIN or REQ by the outcome of the
-- call (none where the user finishes by hand), and then RDY with the configured count; the queue
-- keeps the later messages, and exactly the two cells of the message are freed.
pub process_message_queue-cons :
    (callback : Callback) (n : ℤ) (s : Store) (e : Entry) (es : List Entry)
    → IsQueue s (e ∷ es)
    → IsRegular e.msg
    → IsInt n
    → (s' : Store) × (os : List Output) × (ready : Output) × (process_message_queue callback n s
        ≡ some (s', (callback (object_of e.msg)).written ++ os ++ (ready ∷ [])))
      × Sends (answer e.msg (callback (object_of e.msg))) os
      × (send (rdy n) ≡ some ready)
      × IsQueue s' es
      × Without (e ∷ []) s.heap s'.heap
unfolding process_message_queue
process_message_queue-cons callback n s e es q ok int =
    let (s', taken, q', x, same) = dequeue_message-cons s e es q in
    let (freed, q'') = free_message-Holds s' e es x q' in
    let next : Ptr = first es null in
    let call = callback (object_of e.msg) in
    (
      record s' { heap = without e s'.heap },
      reply (node_of e next) call,
      queued (codes "RDY " ++ (format_int n ++ codes "\n")),
      rw (
        taken,
        not_null e.ptr x.ptr_ne,
        load-Holds s'.heap e next es x,
        load_block-Holds s'.heap e next es x,
        freed,
        nsq_ready-some n int,
        process_business_message-reply callback e next ok,
      ),
      reply-Sends e.msg ok call next e.body,
      unfold send in nsq_ready-some n int,
      q'',
      without-Without e [] s.heap (without e s'.heap) (λ a. ap (λ h. without e h a) same),
    )
