-- ===== src/Publish/Line.antt =====
-- The commands PUB and DPUB as nsqd reads them: the words of a line, then a counted message.
use mathlib.Core.Option
use php_nsq.Prelude.{
  ℕ, ◌+◌, ◌^◌, ◌≤◌, ◌<◌, ◌≡◌, refl, sym, ap, ◌∙◌, Option, none, some, Bytes, List, [], ◌∷◌, ◌++◌,
  append_assoc, length, length-append, false, take, drop, take-append_exact, drop-append_exact,
  codes, ltb, if◌then◌else◌, le→not_ltb, arith,
}
use php_nsq.Wire.{ℤ, htonl_bytes}
use php_nsq.Wire.BigEndian.{be_value, mem_of}
use php_nsq.Print.{c_string, format_int}
use php_nsq.Command.Line.{
  IsPlain, c_string-IsPlain, format_int-IsPlain, read_words, read_words_last, read_words_more,
}
use php_nsq.Publish.{publish_frame, deferred_frame, in_buf, buf_size}

-- A message behind its length in 4 bytes, and the bytes behind it.
unfoldable pub read_counted : Bytes → Option (Bytes × Bytes)
read_counted s =
    let n = be_value 4 (mem_of s) in
    if ltb (length s) (4 + n) then none else some (take n (drop 4 s), drop n (drop 4 s))

abbrev pub with_message : List Bytes → Option (Bytes × Bytes) → Option (List Bytes × Bytes × Bytes)
with_message words none = none
with_message words (some (msg, behind)) = some (words, msg, behind)

abbrev pub behind_words : Option (List Bytes × Bytes) → Option (List Bytes × Bytes × Bytes)
behind_words none = none
behind_words (some (words, rest)) = with_message words (read_counted rest)

unfoldable pub read_command : Bytes → Option (List Bytes × Bytes × Bytes)
read_command s = behind_words (read_words s [])

in_buf-some : (frame : Bytes) {f : Bytes} → in_buf frame ≡ some f → f ≡ frame
in_buf-some frame h = ground arith

in_buf-bound : (frame : Bytes) {f : Bytes} → in_buf frame ≡ some f → length frame ≤ buf_size
in_buf-bound frame h = ground arith

pub length-htonl_bytes : (n : ℕ) → length (htonl_bytes n) ≡ 4
unfolding htonl_bytes
length-htonl_bytes n = refl

be_value-htonl_bytes :
    (n : ℕ) (rest : Bytes) → n < 2 ^ 32 → be_value 4 (mem_of (htonl_bytes n ++ rest)) ≡ n
unfolding htonl_bytes
be_value-htonl_bytes n rest h = omega arith

drop-htonl_bytes : (n : ℕ) (rest : Bytes) → drop 4 (htonl_bytes n ++ rest) ≡ rest
unfolding htonl_bytes
drop-htonl_bytes n rest = refl

read_counted-htonl_bytes :
    (msg rest : Bytes)
    → length msg < 2 ^ 32
    → read_counted (htonl_bytes (length msg) ++ (msg ++ rest)) ≡ some (msg, rest)
unfolding read_counted
read_counted-htonl_bytes msg rest h =
    let image = htonl_bytes (length msg) ++ (msg ++ rest) in
    let long : ltb (length image) (4 + length msg) ≡ false =
      le→not_ltb (length image) (4 + length msg) (
        omega (
          arith,
          length-append (htonl_bytes (length msg)) (msg ++ rest),
          length-append msg rest,
          length-htonl_bytes (length msg),
        )) in
    rw (
      be_value-htonl_bytes (length msg) (msg ++ rest) h,
      long,
      drop-htonl_bytes (length msg) (msg ++ rest),
      take-append_exact (length msg) msg rest refl,
      drop-append_exact (length msg) msg rest refl,
    )

-- The counted message at the end of a frame that fits the buffer has a length of 32 bits.
length-message :
    (line msg : Bytes)
    → length (line ++ (htonl_bytes (length msg) ++ msg)) ≤ buf_size
    → length msg < 2 ^ 32
length-message line msg h = omega (
  arith,
  length-append line (htonl_bytes (length msg) ++ msg),
  length-append (htonl_bytes (length msg)) msg,
)

-- A line that reads as `words`, then a counted message.
pub read_command-words :
    (line msg rest : Bytes) (words : List Bytes)
    → length msg < 2 ^ 32
    → ((s : Bytes) → read_words (line ++ s) [] ≡ some (words, s))
    → read_command ((line ++ (htonl_bytes (length msg) ++ msg)) ++ rest) ≡ some (words, msg, rest)
unfolding read_command
read_command-words line msg rest words small reads = rw (
  append_assoc,
  append_assoc,
  read_command,
  reads (htonl_bytes (length msg) ++ (msg ++ rest)),
  read_counted-htonl_bytes msg rest small,
)

publish_line : Bytes → Bytes
publish_line topic = codes "PUB " ++ (c_string topic ++ codes "\n")

publish_line-eq :
    (topic x : Bytes)
    → codes "PUB " ++ (c_string topic ++ (codes "\n" ++ x)) ≡ publish_line topic ++ x
unfolding publish_line
publish_line-eq topic x =
    ap (λ y. codes "PUB " ++ y) (sym (append_assoc (c_string topic) (codes "\n") x))

read_words-publish_line :
    (topic s : Bytes)
    → IsPlain topic
    → read_words (publish_line topic ++ s) [] ≡ some (codes "PUB" ∷ topic ∷ [], s)
unfolding publish_line read_words
read_words-publish_line topic s plain = rw (c_string-IsPlain topic plain) (
    ap (Option.map (λ (ws, r). (codes "PUB" ∷ ws, r))) (
      ap (λ y. read_words y []) (append_assoc topic (codes "\n") s)
      ∙ read_words_last topic s [] plain))

deferred_line : Bytes → ℤ → Bytes
deferred_line topic defer_time =
    codes "DPUB " ++ (c_string topic ++ (codes " " ++ (format_int defer_time ++ codes "\n")))

deferred_line-eq :
    (topic x : Bytes) (n : ℤ)
    → codes "DPUB " ++ (c_string topic ++ (codes " " ++ (format_int n ++ (codes "\n" ++ x))))
      ≡ deferred_line topic n ++ x
unfolding deferred_line
deferred_line-eq topic x n =
    ap (λ y. codes "DPUB " ++ y)
      (ap (λ y. c_string topic ++ (codes " " ++ y))
          (sym (append_assoc (format_int n) (codes "\n") x))
        ∙ sym (append_assoc (c_string topic) (codes " " ++ (format_int n ++ codes "\n")) x))

read_words-deferred_line :
    (topic s : Bytes) (n : ℤ)
    → IsPlain topic
    → read_words (deferred_line topic n ++ s) []
      ≡ some (codes "DPUB" ∷ topic ∷ format_int n ∷ [], s)
unfolding deferred_line read_words
read_words-deferred_line topic s n plain =
    let assoc = append_assoc (format_int n) (codes "\n") s in
    let tail = read_words_last (format_int n) s [] (format_int-IsPlain n) in
    rw (c_string-IsPlain topic plain) (
      ap (Option.map (λ (ws, r). (codes "DPUB" ∷ ws, r))) (
        ap (λ y. read_words y []) (append_assoc topic (codes " " ++ (format_int n ++ codes "\n")) s)
        ∙ ap (λ y. read_words (topic ++ (b' ' ∷ y)) []) assoc
        ∙ read_words_more topic (format_int n ++ (b'\n' ∷ s)) [] plain
        ∙ ap (Option.map (λ (ws, r). (topic ∷ ws, r))) tail))

-- A message published to a plain topic reads back as the word PUB, the topic and the message, and
-- nothing of what is sent behind it, provided that the command fits the buffer of `publish`.
pub read_command-publish_frame :
    (topic msg rest : Bytes) {frame : Bytes}
    → IsPlain topic
    → publish_frame topic msg ≡ some frame
    → read_command (frame ++ rest) ≡ some (codes "PUB" ∷ topic ∷ [], msg, rest)
unfolding publish_frame read_command
read_command-publish_frame topic msg rest {frame} plain e =
    let line = publish_line topic in
    let e' : in_buf (line ++ (htonl_bytes (length msg) ++ msg)) ≡ some frame =
      ap in_buf (sym (publish_line-eq topic (htonl_bytes (length msg) ++ msg))) ∙ e in
    rw (in_buf-some _ e') (
      read_command-words line msg rest _ (length-message line msg (in_buf-bound _ e'))
        (λ s. read_words-publish_line topic s plain))

-- The same of DPUB, with the delay as the third word, where `%lld` reads the `int` that it is given
-- as the number that it is.
pub read_command-deferred_frame :
    (wide : ℤ → ℤ) (topic msg rest : Bytes) (defer_time : ℤ) {frame : Bytes}
    → IsPlain topic
    → wide defer_time ≡ defer_time
    → deferred_frame wide topic msg defer_time ≡ some frame
    → read_command (frame ++ rest)
      ≡ some (codes "DPUB" ∷ topic ∷ format_int defer_time ∷ [], msg, rest)
unfolding deferred_frame read_command
read_command-deferred_frame wide topic msg rest defer_time {frame} plain same e =
    let line = deferred_line topic defer_time in
    let e' : in_buf (line ++ (htonl_bytes (length msg) ++ msg)) ≡ some frame =
      ap in_buf (sym (deferred_line-eq topic (htonl_bytes (length msg) ++ msg) defer_time))
      ∙ (rw same at e) in
    rw (in_buf-some _ e') (
      read_command-words line msg rest _ (length-message line msg (in_buf-bound _ e'))
        (λ s. read_words-deferred_line topic s defer_time plain))

-- The commands of `publish` and `deferredPublish` for a plain topic read back, whatever is sent behind
-- them, as the word PUB, the topic and the message, and as the word DPUB, the topic, the delay and the
-- message, provided that they fit the buffers and that `%lld` reads the `int` that it is given as the
-- number that it is.
pub read_command-frames :
    (wide : ℤ → ℤ) (topic msg rest : Bytes) (defer_time : ℤ) {frame deferred : Bytes}
    → IsPlain topic
    → wide defer_time ≡ defer_time
    → publish_frame topic msg ≡ some frame
    → deferred_frame wide topic msg defer_time ≡ some deferred
    → (read_command (frame ++ rest) ≡ some (codes "PUB" ∷ topic ∷ [], msg, rest))
      × (read_command (deferred ++ rest)
          ≡ some (codes "DPUB" ∷ topic ∷ format_int defer_time ∷ [], msg, rest))
read_command-frames wide topic msg rest defer_time plain same e e' = (
  read_command-publish_frame topic msg rest plain e,
  read_command-deferred_frame wide topic msg rest defer_time plain same e',
)
