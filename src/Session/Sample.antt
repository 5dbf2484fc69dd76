-- ===== src/Session/Sample.antt =====
-- A small configuration, and an answer to IDENTIFY.
use php_nsq.Prelude.{◌≡◌, refl, some, Bytes, List, [], ◌∷◌, ◌++◌, codes, arith}
use php_nsq.Wire.{htonl_bytes, read_i32}
use php_nsq.Print.{c_string}
use php_nsq.Command.Limits.{HasShortNames}
use php_nsq.Command.Line.{sub}
use php_nsq.Publish.Await.{IsSplit, last, more}
use php_nsq.Publish.{ReadResult, got}
use php_nsq.Session.{
  identify_frame, does, write_bytes, send_identify, await_identify, read_identify,
  read_identify_size, read_identify_body, behind,
}

abbrev pub json : Bytes
json = codes "{\"a\":1}"

abbrev pub frame : Bytes
frame = codes "IDENTIFY\n" ++ (0 ∷ 0 ∷ 0 ∷ 7 ∷ json)

pub identify_frame_run : identify_frame json ≡ some frame
unfolding identify_frame htonl_bytes
identify_frame_run = refl

-- The answer in two pieces.
abbrev pub pieces : List Bytes
pieces = (0 ∷ 0 ∷ 0 ∷ []) ∷ (0 ∷ codes "OK") ∷ []

abbrev pub whole_answer : Bytes
whole_answer = 0 ∷ 0 ∷ 0 ∷ 0 ∷ codes "OK"

pub answer_split : IsSplit pieces whole_answer
answer_split = more (0 ∷ 0 ∷ 0 ∷ []) (omega arith) (last (0 ∷ codes "OK") (omega arith))

pub names_short : HasShortNames (sub (codes "orders") (codes "billing"))
unfolding c_string
names_short = omega arith

abbrev pub answer_reads : List ReadResult
answer_reads = got (htonl_bytes 6) ∷ got (0 ∷ 0 ∷ 0 ∷ []) ∷ got (0 ∷ codes "OK") ∷ []

pub send_identify_run : send_identify (some json) answer_reads ≡ does (write_bytes frame ∷ [])
unfolding send_identify identify_frame await_identify read_identify read_identify_size
    read_identify_body behind read_i32 htonl_bytes
send_identify_run = refl
