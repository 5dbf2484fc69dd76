-- ===== src/Publish/Sample.antt =====
-- Commands and answers for the tests of the publisher and of its methods.
use php_nsq.Prelude.{ℕ, ◌≡◌, refl, some, Bytes, List, [], ◌∷◌, ◌++◌, codes, arith}
use php_nsq.Wire.{Mem, pos, htonl_bytes}
use php_nsq.Print.{c_string, format_int, digits}
use php_nsq.Publish.{publish_frame, deferred_frame}
use php_nsq.Publish.Await.{IsSplit, last, more}
use php_nsq.Publish.Answer.{response_payload, Wait, nothing_yet, heartbeat, beat}

abbrev pub topic : Bytes
topic = codes "orders"

abbrev pub hello : Bytes
hello = codes "hello"

abbrev pub frame : Bytes
frame = codes "PUB orders\n" ++ (0 ∷ 0 ∷ 0 ∷ 5 ∷ hello)

abbrev pub deferred : Bytes
deferred = codes "DPUB orders 1500\n" ++ (0 ∷ 0 ∷ 0 ∷ 5 ∷ hello)

pub publish_frame_run : publish_frame topic hello ≡ some frame
unfolding publish_frame c_string htonl_bytes
publish_frame_run = refl

pub deferred_frame_run : deferred_frame (λ n. n) topic hello (pos 1500) ≡ some deferred
unfolding deferred_frame c_string htonl_bytes format_int digits
deferred_frame_run = refl

abbrev pub zeros : ℕ → Mem
zeros k i = 0

abbrev pub ok : Bytes
ok = response_payload (codes "OK")

-- A read with nothing, a heartbeat in two pieces, another whole.
abbrev pub waits : List Wait
waits =
    nothing_yet ∷ heartbeat (htonl_bytes 0 ∷ codes "_heartbeat_" ∷ []) ∷ heartbeat (beat ∷ []) ∷ []

pub beats_split : IsSplit (htonl_bytes 0 ∷ codes "_heartbeat_" ∷ []) beat × IsSplit (beat ∷ []) beat
unfolding htonl_bytes
beats_split = (
  more (htonl_bytes 0) (omega arith) (last (codes "_heartbeat_") (omega arith)),
  last beat (omega arith),
)

pub ok_split : IsSplit (ok ∷ []) ok
unfolding htonl_bytes
ok_split = last ok (omega arith)
