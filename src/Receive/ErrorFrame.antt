-- ===== src/Receive/ErrorFrame.antt =====
-- `readcb` on a frame that is neither a response nor a message, such as an error frame (type 1).
use php_nsq.Prelude.{
  ℕ, suc, ◌+◌, ◌-◌, ◌%◌, ◌^◌, ◌<◌, ◌≡◌, ap, ◌∙◌, ◌≢◌, true, false, not, ◌&&◌, Bytes, List, ◌++◌,
  take, length, length-append, length-take, ltb, ◌==◌, arith,
}
use php_nsq.Wire.{read_i32, htonl_bytes}
use php_nsq.Wire.BigEndian.{mem_of}
use php_nsq.Command.{Output}
use php_nsq.Queue.{Pending}
use php_nsq.Receive.{
  Input, MessageQueue, Host, Reader, again, fault, read_body, round, crashed, readcb,
}
use php_nsq.Receive.WholeFrame.{loaded, round-whole}
use php_nsq.Receive.Round.{IsIdle, read_size-opened, readcb-again, readcb-fault}

module _ (I : Input) (M : MessageQueue) (host : Host) where
  -- The variables after such a frame: `is_first` is set, but `l` is still the size of the frame.
  pub record IsStale (r : Reader I M host) (n : ℕ) (rest : Bytes) : Type 0 where
    pub first : r.is_first ≡ true
    pub l : r.l ≡ n
    pub input : I.contents r.input ≡ rest

  -- A whole frame of a type other than 0 and 2 is read off the connection, but neither answered nor
  -- queued, and the count of bytes read is not reset.
  round-other_type :
      (kind text : Bytes) (r : Reader I M host) (tail : Bytes) {ms : List Pending}
      {os : List Output}
      → length kind ≡ 4
      → read_i32 (mem_of kind) ≢ 0
      → read_i32 (mem_of kind) ≢ 2
      → length (kind ++ text) < 2 ^ 31 - 1
      → IsIdle I M host r ((htonl_bytes (length (kind ++ text)) ++ (kind ++ text)) ++ tail) ms os
      → (r' : Reader I M host) × (round I M host r ≡ again r')
        × IsStale r' (length (kind ++ text)) tail
  round-other_type kind text r tail four ne ne' small i =
      let (turn, c) = round-whole I M host kind text r tail four small i in
      let not_response : (read_i32 (mem_of kind) == 0) ≡ false = ground arith in
      let not_message : (read_i32 (mem_of kind) == 2) ≡ false = ground arith in
      (
        loaded I M host r (kind ++ text),
        rw (turn, not_response, not_message),
        record { first = i.first; l = omega (arith, i.l); input = c },
      )

  too_far : (n room e : ℕ) → 0 < n → room < e → (not (n == 0) && ltb room e) ≡ true
  too_far n room e h h' = ground arith

  -- In that state a shorter frame makes `readcb` ask for a count that has wrapped below 0, and write
  -- all that has arrived behind the end of the new buffer.
  round-stale :
      (r : Reader I M host) (n : ℕ) (q rest : Bytes)
      → IsStale r n (htonl_bytes (length q) ++ (q ++ rest))
      → 0 < length q
      → length q < n
      → n < 2 ^ 31
      → round I M host r ≡ fault
  unfolding round read_body
  round-stale r n q rest s some_bytes shorter small =
      let (sized, c) =
        read_size-opened I M host r (length q) (q ++ rest) s.first s.input (omega arith) in
      let asks = (length q + 2 ^ 64 - r.l) % 2 ^ 64 in
      let got : length (I.read asks (I.read 4 r.input).1).0 ≡ length (take asks (q ++ rest)) =
        ap length (I.read_bytes asks (I.read 4 r.input).1) ∙ ap (λ c. length (take asks c)) c in
      let many : 0 < length (I.read asks (I.read 4 r.input).1).0 =
        omega (arith, got, length-take asks (q ++ rest), length-append q rest, s.l) in
      let outside =
        too_far (length (I.read asks (I.read 4 r.input).1).0) (length q + 1)
          (r.l + length (I.read asks (I.read 4 r.input).1).0) many (omega (arith, many, s.l)) in
      rw (sized, outside)

  -- A frame of a type other than 0 and 2, such as an error frame, and behind it a shorter frame of any
  -- kind: `readcb` writes behind the end of the buffer of the second.
  pub readcb-error_overflow :
      (kind text q : Bytes) (k : ℕ) (r : Reader I M host) (rest : Bytes) {ms : List Pending}
      {os : List Output}
      → length kind ≡ 4
      → read_i32 (mem_of kind) ≢ 0
      → read_i32 (mem_of kind) ≢ 2
      → length (kind ++ text) < 2 ^ 31 - 1
      → 0 < length q
      → length q < length (kind ++ text)
      → IsIdle I M host r
          ((htonl_bytes (length (kind ++ text)) ++ (kind ++ text))
            ++ (htonl_bytes (length q) ++ (q ++ rest)))
          ms
          os
      → readcb I M host (suc (suc k)) r ≡ crashed
  readcb-error_overflow kind text q k r rest four ne ne' small some_bytes shorter i =
      let (r', turn, s) = round-other_type kind text r _ four ne ne' small i in
      let e = round-stale r' (length (kind ++ text)) q rest s some_bytes shorter (omega arith) in
      readcb-again I M host (suc k) r r' turn ∙ readcb-fault I M host k r' e
