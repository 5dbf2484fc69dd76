-- ===== src/Session/Tests.antt =====
-- The start of a connection with a small configuration.
use php_nsq.Prelude.{◌≡◌, refl, true, false, some, List, [], ◌∷◌, ◌++◌, codes, arith}
use php_nsq.Wire.{pos, read_i32, htonl_bytes}
use php_nsq.Print.{c_string, format_int, digits}
use php_nsq.Command.{Output, queued, sprintf_buf, nsq_subscribe, nsq_ready}
use php_nsq.Command.Line.{send, sub, rdy}
use php_nsq.Publish.{ReadResult, failed, got}
use php_nsq.Session.{
  identify_frame, Action, write_bytes, command, at_size, read_identify, read_identify_size,
  read_identify_body, behind, fault, await_identify, does, waits, send_identify, subscribe_lines,
  connected, conn_eventcb,
}
use php_nsq.Session.Identify.{read_command-identify_frame}
use php_nsq.Publish.Line.{read_command}
use php_nsq.Session.Wait.{await_identify-fault}
use php_nsq.Session.Sample.{
  json, frame, identify_frame_run, pieces, whole_answer, answer_split, names_short,
}
use php_nsq.Session.Event.{conn_eventcb-greets, conn_eventcb-waits}

read_command-identify_frame_example :
    read_command (frame ++ codes "NOP\n") ≡ some (codes "IDENTIFY" ∷ [], json, codes "NOP\n")
read_command-identify_frame_example =
    read_command-identify_frame json (codes "NOP\n") identify_frame_run

abbrev greeting : List Action
greeting =
    write_bytes (codes "  V2")
    ∷ write_bytes frame
    ∷ command (queued (codes "SUB orders billing\n"))
    ∷ command (queued (codes "RDY 2\n"))
    ∷ []

-- A read with nothing, then the answer to IDENTIFY in two pieces.
abbrev answer : List ReadResult
answer =
    failed
    ∷ got (htonl_bytes 6)
    ∷ got (0 ∷ 0 ∷ 0 ∷ [])
    ∷ got (0 ∷ codes "OK")
    ∷ got (codes "more")
    ∷ []

conn_eventcb_run :
    conn_eventcb false false true (some json) answer (codes "orders") (codes "billing") (pos 2)
    ≡ does greeting
unfolding conn_eventcb connected send_identify subscribe_lines identify_frame await_identify
    read_identify read_identify_size read_identify_body behind read_i32 htonl_bytes nsq_subscribe
    nsq_ready sprintf_buf c_string format_int digits
conn_eventcb_run = refl

conn_eventcb-greets_example :
    (o ready : Output) × (send (sub (codes "orders") (codes "billing")) ≡ some o)
    × (send (rdy (pos 2)) ≡ some ready)
    × (conn_eventcb false false true (some json) answer (codes "orders") (codes "billing") (pos 2)
        ≡ does (write_bytes (codes "  V2") ∷ write_bytes frame ∷ command o ∷ command ready ∷ []))
conn_eventcb-greets_example =
    conn_eventcb-greets json (codes "orders") (codes "billing") (pos 2) (failed ∷ []) pieces
      whole_answer (got (codes "more") ∷ []) identify_frame_run names_short (omega arith) (tt, tt)
      (omega arith) answer_split

conn_eventcb-waits_example :
    conn_eventcb false false true
      (some json)
      (got [] ∷ failed ∷ got [] ∷ [])
      (codes "orders")
      (codes "billing")
      (pos 1)
    ≡ waits
conn_eventcb-waits_example =
    conn_eventcb-waits json (codes "orders") (codes "billing") (pos 1)
      (got [] ∷ failed ∷ got [] ∷ []) identify_frame_run (refl, (tt, (refl, tt)))

await_identify-fault_example :
    await_identify at_size (got (htonl_bytes 6) ∷ failed ∷ got (0 ∷ []) ∷ []) ≡ fault
await_identify-fault_example = await_identify-fault 6 (0 ∷ []) [] (omega arith) (omega arith)
