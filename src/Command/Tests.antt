-- ===== src/Command/Tests.antt =====
-- Evaluations of the commands, and the theorems about them at concrete names.
use php_nsq.Prelude.{
  ◌+◌, ◌≤◌, ◌≡◌, refl, ◌↔◌, ◌++◌, none, some, Bytes, [], ◌∷◌, codes, length, arith,
}
use php_nsq.Wire.{pos, negsuc}
use php_nsq.Print.{c_string, format_int, int_of_long}
use php_nsq.Command.{
  queued, direct, sprintf_buf, nsq_subscribe, nsq_finish, nsq_touch, nsq_requeue, message_touch,
  message_requeue, message_finish,
}
use php_nsq.Command.Line.{send, req, read_words, words, read_words-send}
use php_nsq.Command.Limits.{nsq_subscribe_overflow}

abbrev id : Bytes
id = codes "0123456789abcdef"

-- Sixty-four letters, the longest name that nsqd accepts.
abbrev longest : Bytes
longest = codes "aaaaaaaaaaaaaaaabbbbbbbbbbbbbbbbccccccccccccccccdddddddddddddddd"

format_int_runs :
    (format_int (pos 0) ≡ codes "0")
    × (format_int (negsuc 2147483647) ≡ codes "-2147483648")
    × (int_of_long (pos 4294967295) ≡ negsuc 0)
unfolding format_int int_of_long
format_int_runs = (refl, refl, refl)

message_runs :
    (message_touch id ≡ some (direct (codes "TOUCH 0123456789abcdef\n")))
    × (message_requeue id (negsuc 4) ≡ some (queued (codes "REQ 0123456789abcdef -5\n")))
    × (message_finish (codes "ab" ++ (0 ∷ id)) ≡ some (queued (codes "FIN ab\n")))
unfolding message_touch message_requeue message_finish nsq_touch nsq_requeue nsq_finish sprintf_buf
    c_string format_int int_of_long
message_runs = (refl, refl, refl)

send_req : send (req id (pos 5000)) ≡ some (queued (codes "REQ 0123456789abcdef 5000\n"))
unfolding send nsq_requeue sprintf_buf c_string format_int
send_req = refl

read_words-send_example :
    read_words (codes "REQ 0123456789abcdef 5000\n" ++ codes "NOP\n") []
    ≡ some (words (req id (pos 5000)), codes "NOP\n")
read_words-send_example = read_words-send (req id (pos 5000)) (codes "NOP\n") (omega arith) send_req

nsq_subscribe_overflow_example :
    (nsq_subscribe longest longest ≡ none) ↔ (122 ≤ length longest + length longest)
nsq_subscribe_overflow_example = nsq_subscribe_overflow longest longest (omega arith) (omega arith)

-- Two longest names overflow the buffer.
longest_overflow : nsq_subscribe longest longest ≡ none
longest_overflow = nsq_subscribe_overflow_example.1 (omega arith)
