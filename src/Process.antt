-- ===== src/Process.antt =====
-- sub.c, `process_business_message` and `process_message_queue`: the timer's callback takes one
-- message from the queue, hands it to the user's function and answers nsqd. The user's function,
-- which PHP runs, is a parameter: it gets the message object and may write to the connection.
pub mod Answer
mod Tests
use php_nsq.Prelude.{
  ℕ, ◌-◌, Bool, true, false, not, ◌&&◌, Option, none, some, Bytes, List, [], ◌∷◌, ◌++◌, take, codes,
  ◌==◌, if◌then◌else◌,
}
use php_nsq.Wire.{ℤ, pos, signed64}
use php_nsq.Print.{c_string, format_int}
use php_nsq.Command.{Output, queued, nsq_ready}
use php_nsq.Queue.{
  null, Pending, Node, Store, ◌>>=◌, load, load_block, dequeue_message, free_message,
}

-- The properties of the NsqMessage object that the callback receives.
pub record MessageObject : Type 0 where
  pub message_id : Bytes
  pub message_id_camel : Bytes
  pub attempts : ℤ
  pub timestamp : ℤ
  pub payload : Bytes

-- What a call of the user's function leaves: lines written through `$bev`, whether
-- `zend_call_function` returns SUCCESS, and whether an exception is set.
pub record Call : Type 0 where
  pub written : List Output
  pub success : Bool
  pub exception : Bool

abbrev pub Callback : Type 0
Callback = MessageObject → Call

-- `snprintf` into `size` bytes cuts the text; `strlen` then counts what is left.
abbrev pub snprintf_buf : ℕ → Bytes → Bytes
snprintf_buf size text = take (size - 1) text

abbrev pub message_object : Node → Bytes → MessageObject
message_object n body = record {
  message_id = take 16 n.message_id;
  message_id_camel = take 16 n.message_id;
  attempts = pos n.attempts;
  timestamp = signed64 n.timestamp;
  payload = take n.body_len body;
}

-- `callback_success`
abbrev pub callback_success : Call → Bool
callback_success c = if c.success then (if not c.exception then true else false) else false

-- The FIN or REQ behind the call.
unfoldable pub reply : Node → Call → List Output
reply n c =
    if n.auto_finish
    then (if callback_success c
        then queued (snprintf_buf 64 (codes "FIN " ++ (c_string n.message_id ++ codes "\n"))) ∷ []
        else queued (
            snprintf_buf 128 (
              codes "REQ "
              ++ (c_string n.message_id ++ (codes " " ++ (format_int n.delay_time ++ codes "\n")))))
          ∷ [])
    else []

unfoldable pub process_business_message : Callback → Node → Bytes → List Output
process_business_message callback n body =
    let c = callback (message_object n body) in c.written ++ reply n c

-- One tick of the timer: the new store and what is written. `none` is a memory fault.
unfoldable pub process_message_queue : Callback → (rdy : ℤ) → Store → Option (Store × List Output)
process_message_queue callback rdy s = do
  (p, s') ← dequeue_message s
  if p == null then some (s', []) else do
    n ← load s'.heap p
    body ← load_block s'.heap n.body
    s'' ← free_message p s'
    ready ← nsq_ready rdy
    some (s'', process_business_message callback n body ++ (ready ∷ []))
