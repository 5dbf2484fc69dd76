-- ===== src/Session/Event.antt =====
-- The events of a connection.
use php_nsq.Prelude.{
  ap, sym, ◌∙◌, append-nil, refl, ◌≢◌, ◌-◌, ◌++◌, none, [], ◌∷◌, ◌^◌, ◌<◌, map, All, length, codes,
  ℕ, suc, ◌≡◌, Bool, true, false, Option, some, Bytes, List, if◌then◌else◌, arith,
}
use php_nsq.Wire.{ℤ, htonl_bytes}
use php_nsq.Print.{IsInt}
use php_nsq.Command.{Output}
use php_nsq.Command.Limits.{HasShortNames, send-ne-none}
use php_nsq.Command.Line.{send, sub, rdy}
use php_nsq.Publish.{ReadResult, got}
use php_nsq.Publish.Await.{IsSplit}
use php_nsq.Session.{
  Action, write_bytes, command, sleep, resubscribe, free_bufferevent, identify_frame, at_size,
  await_identify, over, waiting, waits, does, send_identify, subscribe_lines, connected,
  conn_eventcb,
}
use php_nsq.Session.Wait.{IsEmpty, await_identify-IsEmpty, await_identify-over}

-- How often the bufferevent is freed.
abbrev pub frees : List Action → ℕ
frees [] = 0
frees (free_bufferevent ∷ as') = suc (frees as')
frees (write_bytes b ∷ as') = frees as'
frees (command o ∷ as') = frees as'
frees (sleep ∷ as') = frees as'
frees (resubscribe ∷ as') = frees as'

-- Whatever the event and the configuration, where `conn_eventcb` returns without a memory fault it
-- frees the bufferevent once when the other side closes, twice on an error, not at all when the
-- connection is made, and once on any other event.
frees-conn_eventcb :
    (eof error is_connected : Bool) (config : Option Bytes) (reads : List ReadResult)
    (topic channel : Bytes) (n : ℤ) {actions : List Action}
    → conn_eventcb eof error is_connected config reads topic channel n ≡ does actions
    → frees actions ≡ (if eof then 1 else if error then 2 else if is_connected then 0 else 1)
unfolding conn_eventcb connected send_identify subscribe_lines
frees-conn_eventcb true error is_connected config reads topic channel n h = ground arith
frees-conn_eventcb false true is_connected config reads topic channel n h = ground arith
frees-conn_eventcb false false true config reads topic channel n h = ground arith
frees-conn_eventcb false false false config reads topic channel n h = ground arith

sent : (o : Option Output) → o ≢ none → (line : Output) × (o ≡ some line)
sent none h = absurd (h refl)
sent (some line) h = (line, refl)

greets :
    (json topic channel : Bytes) (n : ℤ) (reads rest : List ReadResult) {frame : Bytes}
    {o p : Output}
    → identify_frame json ≡ some frame
    → await_identify at_size reads ≡ over rest
    → send (sub topic channel) ≡ some o
    → send (rdy n) ≡ some p
    → connected (some json) reads topic channel n
      ≡ does (write_bytes (codes "  V2") ∷ write_bytes frame ∷ command o ∷ command p ∷ [])
unfolding connected send_identify subscribe_lines send
greets json topic channel n reads rest framed waited subscribed ready =
    rw (connected, send_identify, framed, waited, subscribe_lines, subscribed, ready)

-- When the connection is made, the configuration fits its block, the names and the count fit theirs,
-- and the answer to IDENTIFY comes, in pieces or not, then the worker greets nsqd: the four bytes of
-- the protocol's version, IDENTIFY, SUB and RDY, in this order, and nothing else.
pub conn_eventcb-greets :
    (json topic channel : Bytes) (n : ℤ) (rs : List ReadResult) (xs : List Bytes) (p : Bytes)
    (rest : List ReadResult) {frame : Bytes}
    → identify_frame json ≡ some frame
    → HasShortNames (sub topic channel)
    → IsInt n
    → All IsEmpty rs
    → length p < 2 ^ 31 - 1
    → IsSplit xs p
    → (o ready : Output) × (send (sub topic channel) ≡ some o)
      × (send (rdy n) ≡ some ready)
      × (conn_eventcb false false true
            (some json)
            (rs ++ (got (htonl_bytes (length p)) ∷ (map got xs ++ rest)))
            topic
            channel
            n
          ≡ does (write_bytes (codes "  V2") ∷ write_bytes frame ∷ command o ∷ command ready ∷ []))
unfolding conn_eventcb
conn_eventcb-greets json topic channel n rs xs p rest framed short int h small s =
    let (o, subscribed) =
      sent (send (sub topic channel)) (send-ne-none (sub topic channel) short) in
    let (ready, told) = sent (send (rdy n)) (send-ne-none (rdy n) int) in
    (
      o,
      ready,
      subscribed,
      told,
      greets json topic channel n _ rest framed (await_identify-over rs xs p rest h small s)
          subscribed told,
    )

-- When the connection is made and the configuration fits its block, but every read of the answer to
-- IDENTIFY fails or finds the connection closed, `conn_eventcb` does not return, however many reads
-- there are.
pub conn_eventcb-waits :
    (json topic channel : Bytes) (n : ℤ) (reads : List ReadResult) {frame : Bytes}
    → identify_frame json ≡ some frame
    → All IsEmpty reads
    → conn_eventcb false false true (some json) reads topic channel n ≡ waits
unfolding conn_eventcb await_identify connected send_identify
conn_eventcb-waits json topic channel n reads framed empty =
    rw (connected, send_identify, framed, asks)
  where
    asks : await_identify at_size reads ≡ waiting at_size
    asks =
        ap (await_identify at_size) (sym (append-nil reads)) ∙ await_identify-IsEmpty reads [] empty
