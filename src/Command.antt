-- ===== src/Command.antt =====
-- command.c, and the methods of NsqMessage in message.c that call it: the lines that a consumer
-- sends to nsqd. Each is printed into a buffer of MAX_BUF_SIZE bytes by `sprintf`, which does not
-- stop at its end: `none` is a write past the buffer.
pub mod Line
pub mod Limits
mod Tests
use php_nsq.Prelude.{ℕ, Option, none, some, Bytes, [], ◌∷◌, ◌++◌, codes, length, ltb, if◌then◌else◌}
use php_nsq.Wire.{ℤ}
use php_nsq.Print.{c_string, format_int, int_of_long}

abbrev pub new_line : Bytes
new_line = codes "\n"

abbrev pub max_buf_size : ℕ
max_buf_size = 128

-- Where a line goes: to the output buffer of the bufferevent, or straight to the socket.
pub data Output : Type 0 where
  queued : Bytes → Output
  direct : Bytes → Output

-- `char b[MAX_BUF_SIZE]; sprintf(b, …)`, the NUL behind the text included.
unfoldable pub sprintf_buf : Bytes → Option Bytes
sprintf_buf text = if ltb (length text) max_buf_size then some text else none

module _ (out : Bytes → Output) where
  abbrev pub write_line : Bytes → Option Output
  write_line text = elim (sprintf_buf text) [ none ↦ none | some b ↦ some (out b) ]

unfoldable pub nsq_subscribe : (topic channel : Bytes) → Option Output
nsq_subscribe topic channel =
    write_line queued
      (codes "SUB " ++ (c_string topic ++ (codes " " ++ (c_string channel ++ new_line))))

unfoldable pub nsq_ready : ℤ → Option Output
nsq_ready count = write_line queued (codes "RDY " ++ (format_int count ++ new_line))

unfoldable pub nsq_finish : Bytes → Option Output
nsq_finish id = write_line queued (codes "FIN " ++ (c_string id ++ new_line))

-- The bufferevent is passed over: `write(bufferevent_getfd(bev), b, n)`.
unfoldable pub nsq_touch : Bytes → Option Output
nsq_touch id = write_line direct (codes "TOUCH " ++ (c_string id ++ new_line))

unfoldable pub nsq_nop : Option Output
nsq_nop = write_line queued (codes "NOP" ++ new_line)

unfoldable pub nsq_requeue : Bytes → ℤ → Option Output
nsq_requeue id timeout_ms =
    write_line queued
      (codes "REQ " ++ (c_string id ++ (codes " " ++ (format_int timeout_ms ++ new_line))))

-- `$msg->touch($bev, $id)`, `$msg->requeue($bev, $id, $ms)`, `$msg->finish($bev, $id)`; the delay
-- is a `zend_long`, the parameter of `nsq_requeue` an `int`.
unfoldable pub message_touch : Bytes → Option Output
message_touch message_id = nsq_touch message_id

unfoldable pub message_requeue : Bytes → ℤ → Option Output
message_requeue message_id time_ms = nsq_requeue message_id (int_of_long time_ms)

unfoldable pub message_finish : Bytes → Option Output
message_finish message_id = nsq_finish message_id
