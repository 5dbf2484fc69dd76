-- ===== src/Session/Identify.antt =====
-- The IDENTIFY command read back, and when it overflows.
use php_nsq.Prelude.{
  ◌+◌, ◌^◌, ◌<◌, ◌≤◌, ◌≡◌, refl, ◌↔◌, none, some, Bytes, [], ◌∷◌, ◌++◌, length, length-append,
  codes, arith,
}
use php_nsq.Wire.{htonl_bytes}
use php_nsq.Command.Line.{read_words}
use php_nsq.Publish.Line.{read_command, read_command-words, length-htonl_bytes}
use php_nsq.Session.{identify_frame}

abbrev frame_of : Bytes → Bytes
frame_of json = codes "IDENTIFY\n" ++ (htonl_bytes (length json) ++ json)

length-frame_of : (json : Bytes) → length (frame_of json) ≡ 13 + length json
length-frame_of json =
    omega (arith, length-append (htonl_bytes (length json)) json, length-htonl_bytes (length json))

-- `send_identify` writes past its block exactly when the configuration has 243 bytes or more.
identify_frame_overflow : (json : Bytes) → (identify_frame json ≡ none) ↔ (243 ≤ length json)
unfolding identify_frame
identify_frame_overflow json = ground (arith, length-frame_of json)

identify_frame-some :
    (json : Bytes) {frame : Bytes}
    → identify_frame json ≡ some frame
    → (frame ≡ frame_of json) × (length json < 2 ^ 32)
unfolding identify_frame
identify_frame-some json h = ground (arith, length-frame_of json)

-- A configuration that fits reads back as the word IDENTIFY and the configuration, and nothing of
-- what is sent behind it.
pub read_command-identify_frame :
    (json rest : Bytes) {frame : Bytes}
    → identify_frame json ≡ some frame
    → read_command (frame ++ rest) ≡ some (codes "IDENTIFY" ∷ [], json, rest)
unfolding read_words
read_command-identify_frame json rest e =
    let (same, small) = identify_frame-some json e in
    rw same
      (read_command-words (codes "IDENTIFY\n") json rest (codes "IDENTIFY" ∷ []) small (λ s. refl))
