-- ===== src/Publish/Tests.antt =====
-- Runs of `publish`, and the theorems about it at concrete answers.
use php_nsq.Prelude.{◌+◌, ◌≡◌, refl, ◌↔◌, some, Bytes, List, [], ◌∷◌, ◌++◌, codes, arith}
use php_nsq.Wire.{pos, htonl_bytes}
use php_nsq.Print.{format_int}
use php_nsq.Command.Line.{IsPlain}
use php_nsq.Publish.{ReadResult, got, accepted, refused, crashed, at_size, Client, await}
use php_nsq.Publish.Line.{read_command, read_command-frames}
use php_nsq.Publish.Answer.{frame_reads, reads}
use php_nsq.Publish.Attempts.{
  Attempt, publishes, defers, attempt_all, IsClear, by_publish, by_deferred, AllAnswered, all_done,
  answered, all_accepted, behind, attempt_all-AllAnswered,
}
use php_nsq.Publish.Stale.{late, attempt_all-late}
use php_nsq.Publish.Failure.{await-ok_iff, await-overflow}
use php_nsq.Publish.Sample.{
  topic, hello, frame, deferred, publish_frame_run, deferred_frame_run, zeros, ok, waits,
  beats_split, ok_split,
}

topic-IsPlain : IsPlain topic
topic-IsPlain = omega arith

read_command-frames_example :
    (read_command (frame ++ codes "NOP\n") ≡ some (codes "PUB" ∷ topic ∷ [], hello, codes "NOP\n"))
    × (read_command (deferred ++ codes "NOP\n")
        ≡ some (codes "DPUB" ∷ topic ∷ format_int (pos 1500) ∷ [], hello, codes "NOP\n"))
read_command-frames_example =
    read_command-frames (λ n. n) topic hello (codes "NOP\n") (pos 1500) topic-IsPlain refl
      publish_frame_run deferred_frame_run

zeros-IsClear : IsClear zeros
zeros-IsClear = record { behind_beat = λ k. refl; behind_ok = λ k. refl }

-- A command with heartbeats in front of its answer, and a deferred one that is answered at once.
abbrev both : List Attempt
both = publishes (some frame) (pos 20) zeros ∷ defers (some deferred) zeros ∷ []

abbrev both_reads : List ReadResult
both_reads =
    reads waits ++ (frame_reads ok (ok ∷ []) ++ (reads [] ++ (frame_reads ok (ok ∷ []) ++ [])))

abbrev both_lines : List Bytes
both_lines = (frame ∷ codes "NOP\n" ∷ codes "NOP\n" ∷ []) ++ ((deferred ∷ []) ++ [])

both-AllAnswered : AllAnswered both both_reads both_lines
both-AllAnswered =
    answered zeros frame _ waits (ok ∷ []) (by_publish 19) zeros-IsClear
      (tt, (beats_split.0, (beats_split.1, tt))) ok_split
      (answered zeros deferred _ [] (ok ∷ []) by_deferred zeros-IsClear tt ok_split all_done)

attempt_all-AllAnswered_example :
    attempt_all (both ++ []) (both_reads ++ []) ≡ behind both both_lines (attempt_all [] [])
attempt_all-AllAnswered_example = attempt_all-AllAnswered [] [] both-AllAnswered

attempt_all-late_example :
    attempt_all
      (both ++ (publishes (some frame) (pos 20) zeros ∷ defers (some deferred) zeros ∷ []))
      (both_reads ++ late (codes "OK") [])
    ≡ (all_accepted both ++ (refused ∷ crashed ∷ []), both_lines ++ (frame ∷ deferred ∷ []), [])
attempt_all-late_example =
    attempt_all-late (codes "OK") [] [] both-AllAnswered (by_publish 19) by_deferred (omega arith)
      (omega arith)

abbrev start : Client
start = record { allocs = 0; sent = frame ∷ [] }

await-ok_iff_example :
    ((await zeros at_size start (frame_reads ok (ok ∷ []) ++ [])).0 ≡ accepted) ↔ (zeros 0 6 ≡ 0)
await-ok_iff_example = await-ok_iff zeros (ok ∷ []) start [] ok_split

await-overflow_example :
    await zeros at_size start
      (got (htonl_bytes 6) ∷ got (0 ∷ 0 ∷ 0 ∷ []) ∷ got (0 ∷ 79 ∷ 75 ∷ 0 ∷ 0 ∷ []) ∷ [])
    ≡ (crashed, record start { allocs = start.allocs + 1 }, [])
await-overflow_example =
    await-overflow zeros 6 (0 ∷ 0 ∷ 0 ∷ []) (0 ∷ 79 ∷ 75 ∷ 0 ∷ 0 ∷ []) start [] (omega arith)
      (omega arith) (omega arith) (omega arith) (omega arith)
