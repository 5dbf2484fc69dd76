-- ===== src/Command/Line.antt =====
-- The lines as nsqd reads them: words between spaces, up to the end of the line.
use mathlib.Core.Option
use php_nsq.Prelude.{
  ◌+◌, ◌≡◌, refl, ◌≢◌, true, false, Option, none, some, Bytes, List, [], ◌∷◌, ◌++◌, append_assoc,
  append-nil, codes, All, ◌==◌, arith,
}
use php_nsq.Wire.{ℤ, pos, negsuc}
use php_nsq.Print.{c_string, format_int, digits}
use php_nsq.Print.Digits.{IsDigit, digits-IsDigit, c_string-id}
use php_nsq.Command.{
  Output, queued, direct, sprintf_buf, write_line, new_line, nsq_subscribe, nsq_ready, nsq_finish,
  nsq_touch, nsq_nop, nsq_requeue,
}

-- The commands of command.c.
pub data Command : Type 0 where
  sub : (topic channel : Bytes) → Command
  rdy : ℤ → Command
  fin : Bytes → Command
  touch : Bytes → Command
  nop : Command
  req : Bytes → ℤ → Command

unfoldable pub send : Command → Option Output
send (sub topic channel) = nsq_subscribe topic channel
send (rdy count) = nsq_ready count
send (fin id) = nsq_finish id
send (touch id) = nsq_touch id
send nop = nsq_nop
send (req id timeout_ms) = nsq_requeue id timeout_ms

abbrev pub bytes : Output → Bytes
bytes (queued b) = b
bytes (direct b) = b

-- The words of the first line, with the bytes behind it; `none` if no line ends.
unfoldable pub read_words : Bytes → Bytes → Option (List Bytes × Bytes)
read_words [] word = none
read_words (c ∷ s) word = elim (c == b'\n') [
  | true ↦ some (word ∷ [], s)
  | false ↦ elim (c == b' ') [
    | true ↦ Option.map (λ (ws, rest). (word ∷ ws, rest)) (read_words s [])
    | false ↦ read_words s (word ++ (c ∷ []))
  ]
]

abbrev pub words : Command → List Bytes
words (sub topic channel) = codes "SUB" ∷ topic ∷ channel ∷ []
words (rdy count) = codes "RDY" ∷ format_int count ∷ []
words (fin id) = codes "FIN" ∷ id ∷ []
words (touch id) = codes "TOUCH" ∷ id ∷ []
words nop = codes "NOP" ∷ []
words (req id timeout_ms) = codes "REQ" ∷ id ∷ format_int timeout_ms ∷ []

-- No NUL, no space, no end of line.
abbrev pub IsPlain : Bytes → Type 0
IsPlain = All (λ c. (c ≢ 0) × (c ≢ b' ') × (c ≢ b'\n'))

abbrev pub HasPlainNames : Command → Type 0
HasPlainNames (sub topic channel) = IsPlain topic × IsPlain channel
HasPlainNames (rdy count) = Unit
HasPlainNames (fin id) = IsPlain id
HasPlainNames (touch id) = IsPlain id
HasPlainNames nop = Unit
HasPlainNames (req id timeout_ms) = IsPlain id

IsPlain-no_nul : (s : Bytes) → IsPlain s → All (λ c. c ≢ 0) s
IsPlain-no_nul [] h = tt
IsPlain-no_nul (c ∷ s) h = (h.0.0, IsPlain-no_nul s h.1)

pub c_string-IsPlain : (s : Bytes) → IsPlain s → c_string s ≡ s
c_string-IsPlain s h = c_string-id s (IsPlain-no_nul s h)

IsDigit-IsPlain : (s : Bytes) → All IsDigit s → IsPlain s
IsDigit-IsPlain [] h = tt
IsDigit-IsPlain (c ∷ s) h = (omega arith, IsDigit-IsPlain s h.1)

pub format_int-IsPlain : (n : ℤ) → IsPlain (format_int n)
unfolding format_int
format_int-IsPlain (pos n) = IsDigit-IsPlain (digits n) (digits-IsDigit n)
format_int-IsPlain (negsuc n) =
    (omega arith, IsDigit-IsPlain (digits (n + 1)) (digits-IsDigit (n + 1)))

pub read_words_last :
    (w : Bytes) (rest word : Bytes)
    → IsPlain w
    → read_words (w ++ (b'\n' ∷ rest)) word ≡ some ((word ++ w) ∷ [], rest)
unfolding read_words
read_words_last [] rest word h = rw append-nil
read_words_last (c ∷ w) rest word h =
    ground (arith, read_words_last w rest (word ++ (c ∷ [])) h.1, append_assoc word (c ∷ []) w)

pub read_words_more :
    (w : Bytes) (rest word : Bytes)
    → IsPlain w
    → read_words (w ++ (b' ' ∷ rest)) word
      ≡ Option.map (λ (ws, r). ((word ++ w) ∷ ws, r)) (read_words rest [])
unfolding read_words
read_words_more [] rest word h = rw append-nil
read_words_more (c ∷ w) rest word h =
    ground (arith, read_words_more w rest (word ++ (c ∷ [])) h.1, append_assoc word (c ∷ []) w)

-- What a write gives when it does not overflow is the text that was printed.
write_line-bytes :
    (out : Bytes → Output) (text : Bytes) {o : Output}
    → ((b : Bytes) → bytes (out b) ≡ b)
    → write_line out text ≡ some o
    → bytes o ≡ text
unfolding sprintf_buf
write_line-bytes out text same h = ground (arith, same text)

-- The text that a command prints.
line : Command → Bytes
line (sub topic channel) =
    codes "SUB " ++ (c_string topic ++ (codes " " ++ (c_string channel ++ new_line)))
line (rdy count) = codes "RDY " ++ (format_int count ++ new_line)
line (fin id) = codes "FIN " ++ (c_string id ++ new_line)
line (touch id) = codes "TOUCH " ++ (c_string id ++ new_line)
line nop = codes "NOP" ++ new_line
line (req id ms) = codes "REQ " ++ (c_string id ++ (codes " " ++ (format_int ms ++ new_line)))

bytes-send : (c : Command) {o : Output} → send c ≡ some o → bytes o ≡ line c
unfolding send nsq_subscribe nsq_ready nsq_finish nsq_touch nsq_nop nsq_requeue line
bytes-send (sub topic channel) h = write_line-bytes queued _ (λ b. refl) h
bytes-send (rdy count) h = write_line-bytes queued _ (λ b. refl) h
bytes-send (fin id) h = write_line-bytes queued _ (λ b. refl) h
bytes-send (touch id) h = write_line-bytes direct _ (λ b. refl) h
bytes-send nop h = write_line-bytes queued _ (λ b. refl) h
bytes-send (req id ms) h = write_line-bytes queued _ (λ b. refl) h

read_one :
    (w rest : Bytes) → IsPlain w → read_words ((w ++ new_line) ++ rest) [] ≡ some (w ∷ [], rest)
read_one w rest h = rw append_assoc (read_words_last w rest [] h)

read_two :
    (v w rest : Bytes)
    → IsPlain v
    → IsPlain w
    → read_words ((v ++ (codes " " ++ (w ++ new_line))) ++ rest) [] ≡ some (v ∷ w ∷ [], rest)
read_two v w rest hv hw = rw (append_assoc, read_words_more v _ [] hv, read_one w rest hw)

read_words-line :
    (c : Command) (rest : Bytes)
    → HasPlainNames c
    → read_words (line c ++ rest) [] ≡ some (words c, rest)
unfolding line read_words
read_words-line (sub topic channel) rest h =
    rw (
      c_string-IsPlain topic h.0,
      c_string-IsPlain channel h.1,
      read_two topic channel rest h.0 h.1,
    )
read_words-line (rdy count) rest h =
    rw (read_one (format_int count) rest (format_int-IsPlain count))
read_words-line (fin id) rest h = rw (c_string-IsPlain id h, read_one id rest h)
read_words-line (touch id) rest h = rw (c_string-IsPlain id h, read_one id rest h)
read_words-line nop rest h = refl
read_words-line (req id ms) rest h =
    rw (c_string-IsPlain id h, read_two id (format_int ms) rest h (format_int-IsPlain ms))

-- A command whose names hold no NUL, space or end of line, and whose line fits the buffer, reads
-- back word by word: its name, then its arguments, and nothing of what is written behind it.
pub read_words-send :
    (c : Command) {o : Output} (rest : Bytes)
    → HasPlainNames c
    → send c ≡ some o
    → read_words (bytes o ++ rest) [] ≡ some (words c, rest)
read_words-send c rest h e = rw (bytes-send c e) (read_words-line c rest h)
