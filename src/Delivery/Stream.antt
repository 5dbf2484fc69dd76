-- ===== src/Delivery/Stream.antt =====
-- What nsqd reads on a connection of a publisher: the messages for a topic, and answers to heartbeats.
use mathlib.Core.Path.{subst}
use mathlib.Core.Option.{some-injective}
use php_nsq.Prelude.{
  ℕ, ◌≡◌, refl, sym, ap, ap₂, ◌∙◌, none, some, Option, Bytes, List, [], ◌∷◌, ◌++◌, append_assoc,
  codes, arith,
}
use php_nsq.Wire.{ℤ, Mem}
use php_nsq.Print.{format_int}
use php_nsq.Command.Line.{IsPlain, read_words}
use php_nsq.Publish.{ReadResult, publish_frame, deferred_frame}
use php_nsq.Publish.Line.{
  with_message, behind_words, read_command, read_counted, read_command-publish_frame,
  read_command-deferred_frame,
}
use php_nsq.Publish.Answer.{Wait, nothing_yet, heartbeat, nops_for}
use php_nsq.Publish.Attempts.{
  Attempt, publishes, defers, IsSent, by_publish, by_negative, by_deferred, AllAnswered, all_done,
  answered,
}

-- Lines one behind the other.
abbrev pub stream : List Bytes → Bytes
stream [] = []
stream (line ∷ lines) = line ++ stream lines

-- The words that make a message for `topic` of what follows.
pub data IsPublish (topic : Bytes) : List Bytes → Type 0 where
  pub_words : IsPublish topic (codes "PUB" ∷ topic ∷ [])
  dpub_words : (delay : Bytes) → IsPublish topic (codes "DPUB" ∷ topic ∷ delay ∷ [])

-- All that stands in the bytes are commands for `topic`, with these messages, and NOP.
pub data Published (topic : Bytes) : Bytes → List Bytes → Type 0 where
  all_read : Published topic [] []
  nop_read :
      {s s' : Bytes} {ms : List Bytes}
      → read_words s [] ≡ some (codes "NOP" ∷ [], s')
      → Published topic s' ms
      → Published topic s ms
  message_read :
      {s s' m : Bytes} {ws ms : List Bytes}
      → IsPublish topic ws
      → read_command s ≡ some (ws, m, s')
      → Published topic s' ms
      → Published topic s (m ∷ ms)

module _ {ws : List Bytes} {m s' : Bytes} where
  with_message-words :
      (words : List Bytes) (c : Option (Bytes × Bytes))
      → with_message words c ≡ some (ws, m, s')
      → words ≡ ws
  with_message-words words none e = absurd (cc e)
  with_message-words words (some (msg, behind)) e = ap (λ t. t.0) (some-injective _ _ e)

  behind_words-words :
      (w : Option (List Bytes × Bytes))
      → behind_words w ≡ some (ws, m, s')
      → (rest : Bytes) × (w ≡ some (ws, rest))
  behind_words-words none e = absurd (cc e)
  behind_words-words (some (words, rest)) e =
      (rest, ap (λ ws'. some (ws', rest)) (with_message-words words (read_counted rest) e))

  -- The words of a command are those of its first line.
  read_command-read_words :
      (s : Bytes)
      → read_command s ≡ some (ws, m, s')
      → (rest : Bytes) × (read_words s [] ≡ some (ws, rest))
  unfolding read_command
  read_command-read_words s e = behind_words-words (read_words s []) e

first_byte : List Bytes → ℕ
first_byte [] = 0
first_byte ([] ∷ ws) = 0
first_byte ((c ∷ w) ∷ ws) = c

IsPublish-not_nop :
    {topic : Bytes} {ws : List Bytes} → IsPublish topic ws → ws ≡ codes "NOP" ∷ [] → ⊥
unfolding first_byte
IsPublish-not_nop pub_words e = let first : b'P' ≡ b'N' = ap first_byte e in omega (arith, first)
IsPublish-not_nop (dpub_words delay) e =
    let first : b'D' ≡ b'N' = ap first_byte e in omega (arith, first)

not_both :
    {topic : Bytes} (s : Bytes) {s' m s'' : Bytes} {ws : List Bytes}
    → read_words s [] ≡ some (codes "NOP" ∷ [], s')
    → IsPublish topic ws
    → read_command s ≡ some (ws, m, s'')
    → ⊥
not_both s nop p e =
    let (rest, words) = read_command-read_words s e in
    IsPublish-not_nop p (ap (λ t. t.0) (some-injective _ _ (sym words ∙ nop)))

read_words-empty : {ws : List Bytes} {s' : Bytes} → read_words [] [] ≡ some (ws, s') → ⊥
unfolding read_words
read_words-empty e = cc e

read_command-empty : {ws : List Bytes} {m s' : Bytes} → read_command [] ≡ some (ws, m, s') → ⊥
read_command-empty e = read_words-empty (read_command-read_words [] e).1

-- The messages are determined by the bytes.
pub Published-unique :
    {topic s : Bytes} {ms ms' : List Bytes}
    → Published topic s ms
    → Published topic s ms'
    → ms ≡ ms'
Published-unique {topic} {s} p p' = same p p' refl
  where
    same :
        {s s' : Bytes} {ms ms' : List Bytes}
        → Published topic s ms
        → Published topic s' ms'
        → s ≡ s'
        → ms ≡ ms'
    same all_read all_read e = refl
    same all_read (nop_read {s} nop p') e =
        absurd (read_words-empty (ap (λ x. read_words x []) e ∙ nop))
    same all_read (message_read w r p') e = absurd (read_command-empty (ap read_command e ∙ r))
    same (nop_read nop p) all_read e =
        absurd (read_words-empty (ap (λ x. read_words x []) (sym e) ∙ nop))
    same (nop_read nop p) (nop_read nop' p') e =
        same p p'
          (ap (λ t. t.1) (some-injective _ _ (sym nop ∙ ap (λ x. read_words x []) e ∙ nop')))
    same (nop_read {s} nop p) (message_read w r p') e =
        absurd (not_both s nop w (ap read_command e ∙ r))
    same (message_read w r p) all_read e = absurd (read_command-empty (ap read_command (sym e) ∙ r))
    same (message_read {s} w r p) (nop_read nop p') e =
        absurd (not_both s (ap (λ x. read_words x []) e ∙ nop) w r)
    same (message_read w r p) (message_read w' r' p') e =
        let both = some-injective _ _ (sym r ∙ ap read_command e ∙ r') in
        ap₂ (λ m ms. m ∷ ms) (ap (λ t. t.1) both) (same p p' (ap (λ t. t.2) both))

-- A call whose command is `msg` for `topic`; the delay is an `int` that `wide` leaves as it is.
abbrev pub Carries : (wide : ℤ → ℤ) (topic : Bytes) → Attempt → Bytes → Type 0
Carries wide topic (publishes frame sent fresh) msg = publish_frame topic msg ≡ frame
Carries wide topic (defers frame fresh) msg =
    (delay : ℤ) × (wide delay ≡ delay) × (deferred_frame wide topic msg delay ≡ frame)

-- Calls that carry messages, in order.
pub data AllCarry (wide : ℤ → ℤ) (topic : Bytes) : List Attempt → List Bytes → Type 0 where
  no_call : AllCarry wide topic [] []
  one_call :
      {cs : List Attempt} {ms : List Bytes} (c : Attempt) (msg : Bytes)
      → Carries wide topic c msg
      → AllCarry wide topic cs ms
      → AllCarry wide topic (c ∷ cs) (msg ∷ ms)

stream-append : (xs ys : List Bytes) → stream (xs ++ ys) ≡ stream xs ++ stream ys
stream-append [] ys = refl
stream-append (x ∷ xs) ys =
    ap (λ s. x ++ s) (stream-append xs ys) ∙ sym (append_assoc x (stream xs) (stream ys))

read_words-nop : (s : Bytes) → read_words (codes "NOP\n" ++ s) [] ≡ some (codes "NOP" ∷ [], s)
unfolding read_words
read_words-nop s = refl

module _ (wide : ℤ → ℤ) (topic : Bytes) where
  nops-Published :
      (ws : List Wait) {s : Bytes} {ms : List Bytes}
      → Published topic s ms
      → Published topic (stream (nops_for ws) ++ s) ms
  nops-Published [] p = p
  nops-Published (nothing_yet ∷ ws) p = nops-Published ws p
  nops-Published (heartbeat xs ∷ ws) {s} p =
      nop_read
        (ap (λ x. read_words x []) (append_assoc (codes "NOP\n") (stream (nops_for ws)) s)
          ∙ read_words-nop (stream (nops_for ws) ++ s))
        (nops-Published ws p)

  module _ (plain : IsPlain topic) where
    frame-Published :
        {fresh : ℕ → Mem} {frame : Bytes} {a : Attempt} (msg : Bytes) {s : Bytes} {ms : List Bytes}
        → IsSent fresh frame a
        → Carries wide topic a msg
        → Published topic s ms
        → Published topic (frame ++ s) (msg ∷ ms)
    frame-Published msg {s} (by_publish k) e p =
        message_read pub_words (read_command-publish_frame topic msg s plain e) p
    frame-Published msg {s} (by_negative k) e p =
        message_read pub_words (read_command-publish_frame topic msg s plain e) p
    frame-Published msg {s} by_deferred (delay, same, e) p =
        message_read (dpub_words (format_int delay))
          (read_command-deferred_frame wide topic msg s delay plain same e) p

    -- What calls that are answered send reads as their messages, in order.
    pub AllAnswered-Published :
        {cs : List Attempt} {rs : List ReadResult} {lines ms : List Bytes}
        → AllAnswered cs rs lines
        → AllCarry wide topic cs ms
        → Published topic (stream lines) ms
    AllAnswered-Published all_done no_call = all_read
    AllAnswered-Published (answered {lines = lines} fresh frame a ws xs sent clear h split before)
          (one_call {ms = ms} c msg carries rest) =
        let after_nops = nops-Published ws (AllAnswered-Published before rest) in
        subst (λ s. Published topic s (msg ∷ ms))
          (ap (λ s. frame ++ s) (sym (stream-append (nops_for ws) lines)))
          (frame-Published msg sent carries after_nops)
