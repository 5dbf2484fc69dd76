-- ===== src/Publish/Attempts.antt =====
-- Calls of `publish` and `deferredPublish` one behind the other on one socket, as the methods of Nsq
-- make them on a connection: what one call leaves unread, the next one reads.
use php_nsq.Prelude.{
  ℕ, suc, ◌≡◌, refl, ap, ◌∙◌, sym, Bool, true, false, Option, some, Bytes, List, [], ◌∷◌, ◌++◌, map,
  append_assoc, codes, All,
}
use php_nsq.Wire.{Mem, ℤ, pos, negsuc}
use php_nsq.Publish.{
  ReadResult, Outcome, accepted, refused, lost, crashed, waiting, await_answer, publish,
  deferred_publish,
}
use php_nsq.Publish.Await.{IsSplit}
use php_nsq.Publish.Answer.{
  response_payload, frame_reads, Wait, IsWait, reads, nops_for, publish-ok,
}

-- A call, with the command, what `send` gives for it, and what its allocations hold.
pub data Attempt : Type 0 where
  publishes : Option Bytes → (sent : ℤ) → (fresh : ℕ → Mem) → Attempt
  defers : Option Bytes → (fresh : ℕ → Mem) → Attempt

unfoldable pub attempt : Attempt → List ReadResult → Outcome × List Bytes × List ReadResult
attempt (publishes frame sent fresh) rs = publish fresh frame sent rs
attempt (defers frame fresh) rs = deferred_publish fresh frame rs

-- `publish` returns.
abbrev pub returns : Outcome → Bool
returns accepted = true
returns refused = true
returns lost = true
returns crashed = false
returns waiting = false

abbrev pub joined :
    Outcome
    → List Bytes
    → List Outcome × List Bytes × List ReadResult
    → List Outcome × List Bytes × List ReadResult
joined o lines (os, more, left) = (o ∷ os, lines ++ more, left)

-- Calls up to the first that does not return: how they end, what is sent, and what is left unread.
unfoldable pub attempt_all :
    List Attempt → List ReadResult → List Outcome × List Bytes × List ReadResult
attempt_all [] rs = ([], [], rs)
attempt_all (a ∷ cs) rs =
    let (o, lines, rest) = attempt a rs in
    elim (returns o) [ true ↦ joined o lines (attempt_all cs rest) | false ↦ (o ∷ [], lines, rest) ]

-- The bytes behind the texts of the answer, which are not cleared, happen to be 0.
pub record IsClear (fresh : ℕ → Mem) : Type 0 where
  pub behind_beat : (k : ℕ) → fresh k 15 ≡ 0
  pub behind_ok : (k : ℕ) → fresh k 6 ≡ 0

-- The call sends `frame` and then waits for an answer: `send` does not give 0 to `publish`.
pub data IsSent (fresh : ℕ → Mem) (frame : Bytes) : Attempt → Type 0 where
  by_publish : (k : ℕ) → IsSent fresh frame (publishes (some frame) (pos (suc k)) fresh)
  by_negative : (k : ℕ) → IsSent fresh frame (publishes (some frame) (negsuc k) fresh)
  by_deferred : IsSent fresh frame (defers (some frame) fresh)

-- The results of `read` are, for each call, heartbeats and then OK, in pieces or not; the lines are each
-- command, with one NOP for each heartbeat behind it.
pub data AllAnswered : List Attempt → List ReadResult → List Bytes → Type 0 where
  all_done : AllAnswered [] [] []
  answered :
      {cs : List Attempt} {rs : List ReadResult} {lines : List Bytes} (fresh : ℕ → Mem)
      (frame : Bytes) (a : Attempt) (ws : List Wait) (xs : List Bytes)
      → IsSent fresh frame a
      → IsClear fresh
      → All IsWait ws
      → IsSplit xs (response_payload (codes "OK"))
      → AllAnswered cs rs lines
      → AllAnswered
          (a ∷ cs)
          (reads ws ++ (frame_reads (response_payload (codes "OK")) xs ++ rs))
          ((frame ∷ nops_for ws) ++ lines)

abbrev pub all_accepted : List Attempt → List Outcome
all_accepted cs = map (λ a. accepted) cs

-- What calls that are answered put in front of what follows them.
abbrev pub behind :
    List Attempt
    → List Bytes
    → List Outcome × List Bytes × List ReadResult
    → List Outcome × List Bytes × List ReadResult
behind cs lines (os, more, left) = (all_accepted cs ++ os, lines ++ more, left)

pub attempt-IsSent :
    {fresh : ℕ → Mem} {frame : Bytes} {a : Attempt} (rs : List ReadResult)
    → IsSent fresh frame a
    → attempt a rs ≡ await_answer fresh frame rs
unfolding attempt publish deferred_publish
attempt-IsSent rs (by_publish k) = refl
attempt-IsSent rs (by_negative k) = refl
attempt-IsSent rs by_deferred = refl

-- A call that returns is followed by the next one.
pub attempt_all-joined :
    (a : Attempt) (cs : List Attempt) (rs : List ReadResult) {o : Outcome} {lines : List Bytes}
    {rest : List ReadResult}
    → attempt a rs ≡ (o, lines, rest)
    → returns o ≡ true
    → attempt_all (a ∷ cs) rs ≡ joined o lines (attempt_all cs rest)
unfolding attempt_all
attempt_all-joined a cs rs {o} e back =
    rw (attempt_all, ap (λ t. returns t.0) e ∙ back)
      (ap (λ t. joined t.0 t.1 (attempt_all cs t.2)) e)

-- One that does not return is the last.
pub attempt_all-last :
    (a : Attempt) (cs : List Attempt) (rs : List ReadResult) {o : Outcome} {lines : List Bytes}
    {rest : List ReadResult}
    → attempt a rs ≡ (o, lines, rest)
    → returns o ≡ false
    → attempt_all (a ∷ cs) rs ≡ (o ∷ [], lines, rest)
unfolding attempt_all
attempt_all-last a cs rs {o} e stops =
    rw (attempt_all, ap (λ t. returns t.0) e ∙ stops) (ap (λ t. (t.0 ∷ [], t.1, t.2)) e)

-- One call that is answered, in front of calls about which something is known.
answered_first :
    (a : Attempt) (cs bs : List Attempt) (ws : List Wait) (xs : List Bytes) (frame : Bytes)
    (rs rs' : List ReadResult) (lines : List Bytes)
    → attempt a (reads ws ++ (frame_reads (response_payload (codes "OK")) xs ++ (rs ++ rs')))
      ≡ (accepted, frame ∷ nops_for ws, rs ++ rs')
    → attempt_all (cs ++ bs) (rs ++ rs') ≡ behind cs lines (attempt_all bs rs')
    → attempt_all
        (a ∷ (cs ++ bs))
        ((reads ws ++ (frame_reads (response_payload (codes "OK")) xs ++ rs)) ++ rs')
      ≡ behind (a ∷ cs) ((frame ∷ nops_for ws) ++ lines) (attempt_all bs rs')
answered_first a cs bs ws xs frame rs rs' lines once rest =
    let answer = frame_reads (response_payload (codes "OK")) xs in
    let apart =
      append_assoc (reads ws) (answer ++ rs) rs'
      ∙ ap (λ ys. reads ws ++ ys) (append_assoc answer rs rs') in
    let (os, more, left) = attempt_all bs rs' in
    ap (attempt_all (a ∷ (cs ++ bs))) apart
    ∙ attempt_all-joined a (cs ++ bs) _ once refl
    ∙ ap (joined accepted (frame ∷ nops_for ws)) rest
    ∙ ap (λ ys. (accepted ∷ (all_accepted cs ++ os), ys, left))
        (sym (append_assoc (frame ∷ nops_for ws) lines more))

-- When heartbeats and then OK come back for each command, in pieces or not, all calls succeed, each by
-- its own answer, and what they send are the commands in order, each with one NOP for each heartbeat
-- behind it; the calls that follow find what comes behind the last answer. The bytes that end the texts
-- of the answers, which are not cleared, must happen to be 0.
pub attempt_all-AllAnswered :
    {cs : List Attempt} {rs : List ReadResult} {lines : List Bytes} (bs : List Attempt)
    (rs' : List ReadResult)
    → AllAnswered cs rs lines
    → attempt_all (cs ++ bs) (rs ++ rs') ≡ behind cs lines (attempt_all bs rs')
unfolding deferred_publish
attempt_all-AllAnswered bs rs' all_done = refl
attempt_all-AllAnswered bs rs'
      (answered {cs} {rs} {lines} fresh frame a ws xs sent clear h split before) =
    let all_read = reads ws ++ (frame_reads (response_payload (codes "OK")) xs ++ (rs ++ rs')) in
    let once =
      attempt-IsSent all_read sent
      ∙ (publish-ok fresh frame 0 ws xs (rs ++ rs') clear.behind_beat clear.behind_ok h split).1 in
    answered_first a cs bs ws xs frame rs rs' lines once (attempt_all-AllAnswered bs rs' before)
