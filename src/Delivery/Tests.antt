-- ===== src/Delivery/Tests.antt =====
-- One message, from the call of `publish`, whose answer comes behind two heartbeats, to the user's function.
use mathlib.Core.List.{Perm}
use mathlib.Core.List.Perm
use php_nsq.Prelude.{◌≡◌, refl, some, Bytes, List, [], ◌∷◌, ◌++◌, codes, arith}
use php_nsq.Wire.{pos}
use php_nsq.Command.Line.{IsPlain}
use php_nsq.Receive.Sample.{counting, reader}
use php_nsq.Receive.Sample as Sample
use php_nsq.Publish.{ReadResult}
use php_nsq.Publish.Answer.{frame_reads, reads}
use php_nsq.Publish.Sample.{
  topic, hello, frame, publish_frame_run, zeros, ok, waits, beats_split, ok_split,
}
use php_nsq.Publish.Attempts.{
  Attempt, publishes, attempt_all, by_publish, AllAnswered, all_done, answered, all_accepted,
}
use php_nsq.Loop.{Loop, run}
use php_nsq.Loop.Abstract.{Abstract}
use php_nsq.Loop.Progress.{timers}
use php_nsq.Loop.Replies.{Told, Interleaves}
use php_nsq.Command.{Output}
use php_nsq.Receive.Frame.{heartbeat, nops}
use php_nsq.Loop.Ticks.{Refines}
use php_nsq.Loop.Sample.{socket, settings, events, events_feed, begins, zeros_settle}
use php_nsq.Delivery.Stream.{no_call, one_call, AllCarry, Published, stream, AllAnswered-Published}
use php_nsq.Delivery.Handled.{payloads, Published-handled}

topic-IsPlain : IsPlain topic
topic-IsPlain = omega arith

abbrev calls : List Attempt
calls = publishes (some frame) (pos 20) zeros ∷ []

abbrev answers : List ReadResult
answers = reads waits ++ (frame_reads ok (ok ∷ []) ++ [])

abbrev lines : List Bytes
lines = (frame ∷ codes "NOP\n" ∷ codes "NOP\n" ∷ []) ++ []

calls_answered : AllAnswered calls answers lines
calls_answered =
    answered zeros frame _ waits (ok ∷ []) (by_publish 19)
      (record { behind_beat = λ k. refl; behind_ok = λ k. refl })
      (tt, (beats_split.0, (beats_split.1, tt))) ok_split all_done

calls_carry : AllCarry (λ n. n) topic calls (hello ∷ [])
calls_carry = one_call (publishes (some frame) (pos 20) zeros) hello publish_frame_run no_call

lines_read : Published topic (stream lines) (hello ∷ [])
lines_read = AllAnswered-Published (λ n. n) topic topic-IsPlain calls_answered calls_carry

Published-handled_example :
    (attempt_all calls answers ≡ (all_accepted calls, lines, []))
    × (r' : Loop socket counting Sample.zeros settings) × (b : Abstract) × (run socket counting
          Sample.zeros settings
          (events ++ timers 2)
          (reader Sample.zeros [])
        ≡ some r')
    × Refines socket counting Sample.zeros settings r' b
    × Perm (payloads b.handled) (hello ∷ [])
    × (os : List Output) × Told Sample.zeros settings b.handled os
    × Interleaves (nops (heartbeat ∷ Sample.hello ∷ [])) os r'.out
Published-handled_example =
    Published-handled socket counting Sample.zeros settings (λ n h. refl)
      (λ a. (0, omega arith, zeros_settle)) (omega arith) (omega arith) (λ n. n) topic 2
      (reader Sample.zeros []) topic-IsPlain calls_answered calls_carry lines_read
      (Perm.refl (hello ∷ [])) events_feed (omega arith) begins
