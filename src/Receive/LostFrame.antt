-- ===== src/Receive/LostFrame.antt =====
-- `readcb` on a message frame that is not queued: it has fewer than 30 bytes, so that the fields are not
-- whole, or `malloc` refuses its body.
use php_nsq.Prelude.{
  ℕ, suc, ◌+◌, ◌-◌, ◌%◌, ◌^◌, ◌<◌, ◌≡◌, refl, ◌∙◌, Bool, Bool-cases, inl, inr, true, false, Bytes,
  List, [], ◌∷◌, ◌++◌, length, ltb, if◌then◌else◌, arith,
}
use php_nsq.Wire.{read_i32, htonl_bytes}
use php_nsq.Wire.BigEndian.{mem_of}
use php_nsq.Command.{Output}
use php_nsq.Queue.{Pending}
use php_nsq.Receive.{
  Input, MessageQueue, Host, Reader, again, fault, idle_with, take_message, round, crashed, readcb,
}
use php_nsq.Receive.Round.{IsIdle, readcb-again, readcb-fault}
use php_nsq.Receive.WholeFrame.{loaded, round-whole}

-- The payload of a message frame with `text` behind the type.
abbrev pub typed : Bytes → Bytes
typed text = 0 ∷ 0 ∷ 0 ∷ 2 ∷ text

-- What `msg->size - 30 + 1` is as a `size_t`.
abbrev pub asks_for : Bytes → ℕ
asks_for text = (length (typed text) + 2 ^ 64 - 29) % 2 ^ 64

message_type : read_i32 (mem_of (0 ∷ 0 ∷ 0 ∷ 2 ∷ [])) ≡ 2
unfolding read_i32
message_type = refl

module _ (I : Input) (M : MessageQueue) (host : Host) where
  -- The reader behind a frame that is passed over.
  abbrev pub skipped : Reader I M host → Bytes → Reader I M host
  skipped r text = idle_with I M host (loaded I M host r (typed text)) r.queue

  taken :
      (text : Bytes) (r : Reader I M host)
      → (host.malloc_works (asks_for text) ≡ true → length text < 26)
      → take_message I M host (loaded I M host r (typed text))
        ≡ (if host.malloc_works (asks_for text) then fault else again (skipped r text))
  unfolding take_message
  taken text r lost = elim (Bool-cases (host.malloc_works (asks_for text))) [
    | inl works ↦
        let short = lost works in
        let few : ltb (length (typed text)) 30 ≡ true = ground arith in rw (works, few) refl
    | inr fails ↦ rw (fails) refl
  ]

  by_malloc :
      (k : ℕ) (r r' : Reader I M host) (works : Bool)
      → round I M host r ≡ (if works then fault else again r')
      → readcb I M host (suc k) r ≡ (if works then crashed else readcb I M host k r')
  by_malloc k r r' true e = readcb-fault I M host k r e
  by_malloc k r r' false e = readcb-again I M host k r r' e

  -- A message frame that has fewer than 30 bytes, so that the count of bytes for its body wraps around, or
  -- whose body `malloc` refuses. Where `malloc` gives so many bytes, as it may for a frame of 29 bytes,
  -- whose count is 0, the copy behind it runs out of every bound; otherwise the frame is passed over, and
  -- `readcb` goes on behind it, between two frames and with the queue and the output as they were: the
  -- message is answered with neither FIN nor REQ. That the fields of a short frame are read from behind the
  -- buffer does no harm here.
  pub readcb-lost_message :
      (text : Bytes) (k : ℕ) (r : Reader I M host) (tail : Bytes) {ms : List Pending}
      {os : List Output}
      → (host.malloc_works (asks_for text) ≡ true → length text < 26)
      → length (typed text) < 2 ^ 31 - 1
      → IsIdle I M host r ((htonl_bytes (length (typed text)) ++ typed text) ++ tail) ms os
      → (r' : Reader I M host) × (readcb I M host (suc k) r
          ≡ (if host.malloc_works (asks_for text) then crashed else readcb I M host k r'))
        × IsIdle I M host r' tail ms os
  readcb-lost_message text k r tail lost small i =
      let (turn, c) = round-whole I M host (0 ∷ 0 ∷ 0 ∷ 2 ∷ []) text r tail refl small i in
      let typed_turn = rw message_type at turn in
      (
        skipped r text,
        by_malloc k r (skipped r text) (host.malloc_works (asks_for text))
            (typed_turn ∙ taken text r lost),
        record { first = refl; l = refl; input = c; queue = i.queue; out = i.out },
      )
