-- ===== src/Receive/WholeFrame.antt =====
-- One round of `readcb` on a whole frame of any type, up to what it does with it.
use php_nsq.Prelude.{
  ℕ, ◌+◌, ◌-◌, ◌^◌, ◌<◌, ◌≡◌, refl, ◌∙◌, true, false, Bytes, List, [], ◌++◌, append-nil,
  append_assoc, length, take-append_exact, drop-append_exact, ltb, ◌==◌, if◌then◌else◌, arith,
}
use php_nsq.Wire.{read_i32, htonl_bytes}
use php_nsq.Wire.BigEndian.{mem_of}
use php_nsq.Command.{Output}
use php_nsq.Queue.{Pending}
use php_nsq.Receive.{
  Input, MessageQueue, Host, Reader, Turn, again, take_response, take_message, dispatch, round,
}
use php_nsq.Receive.Memory.{read_i32-Starts}
use php_nsq.Receive.Round.{IsIdle, opened, filled, read_size-opened, read_body-filled}

module _ (I : Input) (M : MessageQueue) (host : Host) where
  -- The variables when the payload has been read.
  abbrev pub loaded : Reader I M host → Bytes → Reader I M host
  loaded r p = filled I M host (opened I M host r (length p)) p

  abbrev pub by_type : ℕ → Reader I M host → Turn I M host
  by_type frame_type r =
      if frame_type == 0
      then take_response I M host r
      else if frame_type == 2
      then take_message I M host r
      else again r

  pub round-whole :
      (kind text : Bytes) (r : Reader I M host) (tail : Bytes) {ms : List Pending}
      {os : List Output}
      → length kind ≡ 4
      → length (kind ++ text) < 2 ^ 31 - 1
      → IsIdle I M host r ((htonl_bytes (length (kind ++ text)) ++ (kind ++ text)) ++ tail) ms os
      → (round I M host r ≡ by_type (read_i32 (mem_of kind)) (loaded r (kind ++ text)))
        × (I.contents (loaded r (kind ++ text)).input ≡ tail)
  unfolding round dispatch
  round-whole kind text r tail four small i =
      let p = kind ++ text in
      let (sized, c) =
        read_size-opened I M host r (length p) (p ++ tail) i.first (i.input ∙ append_assoc _ p tail)
          small in
      let (step, o, c') =
        read_body-filled I M host (opened I M host r (length p)) p [] p [] tail
          (record { l = i.l; size = refl; room = refl; starts = λ j lt. absurd (omega arith) })
          (rw append-nil refl) small (rw (append-nil, c) (take-append_exact (length p) p tail refl))
          (rw (append-nil, c) (drop-append_exact (length p) p tail refl)) in
      let past : ltb (r.l + length p) (length p) ≡ false = ground arith in
      let full : (r.l + length p == length p) ≡ true = ground (arith, i.l) in
      let same = read_i32-Starts (loaded r p).message kind text four o.starts in
      (rw (sized, step, past, full, same), c')
