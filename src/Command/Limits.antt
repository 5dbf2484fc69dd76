-- ===== src/Command/Limits.antt =====
-- Which commands fit the buffer of MAX_BUF_SIZE bytes.
use php_nsq.Prelude.{
  ◌+◌, ◌≤◌, ◌≡◌, ◌≢◌, ◌↔◌, none, some, Bytes, ◌++◌, codes, length, length-append, arith,
}
use php_nsq.Wire.{ℤ}
use php_nsq.Print.{c_string, format_int, IsInt}
use php_nsq.Print.Digits.{length-format_int}
use php_nsq.Command.{
  queued, sprintf_buf, nsq_subscribe, nsq_ready, nsq_finish, nsq_touch, nsq_nop, nsq_requeue,
}
use php_nsq.Command.Line.{IsPlain, c_string-IsPlain, Command, send, sub, rdy, fin, touch, nop, req}

pub sprintf_buf-fits : (text : Bytes) → length text ≤ 127 → sprintf_buf text ≡ some text
unfolding sprintf_buf
sprintf_buf-fits text h = ground arith

-- `nsq_subscribe` writes past its buffer exactly when the two names have 122 bytes or more.
pub nsq_subscribe_overflow :
    (topic channel : Bytes)
    → IsPlain topic
    → IsPlain channel
    → (nsq_subscribe topic channel ≡ none) ↔ (122 ≤ length topic + length channel)
unfolding nsq_subscribe sprintf_buf
nsq_subscribe_overflow topic channel ht hc = ground (
  arith,
  c_string-IsPlain topic ht,
  c_string-IsPlain channel hc,
  length-append topic (codes " " ++ (channel ++ codes "\n")),
  length-append channel (codes "\n"),
)

-- The names and ids of a command are short enough: 121 bytes for two names, 16 for an id.
abbrev pub HasShortNames : Command → Type 0
HasShortNames (sub topic channel) = length (c_string topic) + length (c_string channel) ≤ 121
HasShortNames (rdy count) = IsInt count
HasShortNames (fin id) = length (c_string id) ≤ 16
HasShortNames (touch id) = length (c_string id) ≤ 16
HasShortNames nop = Unit
HasShortNames (req id timeout_ms) = (length (c_string id) ≤ 16) × IsInt timeout_ms

-- Every command with 16-byte ids, `int` arguments and short names is written, whole.
pub send-ne-none : (c : Command) → HasShortNames c → send c ≢ none
unfolding send nsq_subscribe nsq_ready nsq_finish nsq_touch nsq_nop nsq_requeue sprintf_buf
send-ne-none (sub topic channel) h = ground (
  arith,
  length-append (c_string topic) (codes " " ++ (c_string channel ++ codes "\n")),
  length-append (c_string channel) (codes "\n"),
)
send-ne-none (rdy count) h =
    ground (arith, length-append (format_int count) (codes "\n"), length-format_int count)
send-ne-none (fin id) h = ground (arith, length-append (c_string id) (codes "\n"))
send-ne-none (touch id) h = ground (arith, length-append (c_string id) (codes "\n"))
send-ne-none nop h = cc
send-ne-none (req id timeout_ms) h = ground (
  arith,
  length-append (c_string id) (codes " " ++ (format_int timeout_ms ++ codes "\n")),
  length-append (format_int timeout_ms) (codes "\n"),
  length-format_int timeout_ms,
)

-- RDY always fits: an `int` prints in eleven bytes.
pub nsq_ready-some :
    (n : ℤ) → IsInt n → nsq_ready n ≡ some (queued (codes "RDY " ++ (format_int n ++ codes "\n")))
unfolding nsq_ready sprintf_buf
nsq_ready-some n h =
    ground (arith, length-append (format_int n) (codes "\n"), length-format_int n h)
