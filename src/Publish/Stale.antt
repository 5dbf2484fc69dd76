-- ===== src/Publish/Stale.antt =====
-- A payload that comes late: the call gives up, and the next one on the socket reads what is left.
use php_nsq.Prelude.{
  ℕ, ◌+◌, ◌^◌, ◌<◌, ◌≡◌, refl, ap, ◌∙◌, Bytes, List, [], ◌∷◌, ◌++◌, take, length, arith,
}
use php_nsq.Wire.{Mem, htonl_bytes}
use php_nsq.Receive.{cleared}
use php_nsq.Publish.{
  ReadResult, failed, got, refused, crashed, at_size, at_body, Client, done, answer, equals_text,
  read_result, read_answer_body, await,
}
use php_nsq.Publish.Await.{await-step, await-size}
use php_nsq.Publish.Answer.{response_payload, client_with}
use php_nsq.Publish.Failure.{await-early}
use php_nsq.Publish.Attempts.{
  Attempt, attempt, attempt_all, joined, IsSent, AllAnswered, all_accepted, behind, attempt-IsSent,
  attempt_all-AllAnswered, attempt_all-joined, attempt_all-last,
}

-- A response with `text`, whose payload has not come when it is first asked for: its size, nothing, and
-- then, to the next call, its first four bytes as a size, which is 0, and a read of 0 bytes.
abbrev pub late : Bytes → List ReadResult → List ReadResult
late text rs =
    got (htonl_bytes (length (response_payload text)))
    ∷ failed
    ∷ got (take 4 (response_payload text))
    ∷ got []
    ∷ rs

module _ (fresh : ℕ → Mem) where
  read_result-empty :
      (m : Mem) (c : Client) → read_result fresh (at_body 0 0 m) c (got []) ≡ done crashed c
  unfolding read_result read_answer_body answer equals_text
  read_result-empty m c = refl

  -- Of a payload of no bytes the fifth is read.
  await-empty :
      (c : Client) (rs : List ReadResult)
      → await fresh at_size c (got (htonl_bytes 0) ∷ got [] ∷ rs)
        ≡ (crashed, record c { allocs = c.allocs + 1 }, rs)
  await-empty c rs =
      let m = cleared (fresh c.allocs) 0 in
      let c' = record c { allocs = c.allocs + 1 } in
      await-size fresh 0 c (got [] ∷ rs) (omega arith)
      ∙ await-step fresh (at_body 0 0 m) c' (got []) rs (done crashed c') (read_result-empty m c')

first_bytes : (text : Bytes) → take 4 (response_payload text) ≡ htonl_bytes 0
unfolding htonl_bytes
first_bytes text = refl

long : (text : Bytes) → length (response_payload text) ≡ 4 + length text
unfolding htonl_bytes
long text = omega arith

-- After any number of calls that have succeeded, when the size of a response has come and its payload
-- has not, the call returns -1, though its command is sent and the response may be OK; and the next call
-- on the connection takes the first four bytes of that response for a size of 0, and reads behind its
-- block of one byte.
pub attempt_all-late :
    {cs : List Attempt} {rs : List ReadResult} {lines : List Bytes} {fresh fresh' : ℕ → Mem}
    {frame frame' : Bytes} {a b : Attempt} (text : Bytes) (bs : List Attempt)
    (rs' : List ReadResult)
    → AllAnswered cs rs lines
    → IsSent fresh frame a
    → IsSent fresh' frame' b
    → 0 < length text
    → length text < 2 ^ 30
    → attempt_all (cs ++ (a ∷ b ∷ bs)) (rs ++ late text rs')
      ≡ (all_accepted cs ++ (refused ∷ crashed ∷ []), lines ++ (frame ∷ frame' ∷ []), rs')
attempt_all-late {cs} {rs} {lines} {fresh} {fresh'} {frame} {frame'} {a} {b} text bs rs' before sent
      sent' some_text small =
    let left = got (take 4 (response_payload text)) ∷ got [] ∷ rs' in
    let n = length (response_payload text) in
    let gives_up : attempt a (late text rs') ≡ (refused, frame ∷ [], left) =
      attempt-IsSent (late text rs') sent
      ∙ ap (λ t. (t.0, t.1.sent, t.2))
          (await-early fresh n (client_with 0 (frame ∷ [])) left (omega (arith, long text))
            (omega (arith, long text))) in
    let reads_behind : attempt b left ≡ (crashed, frame' ∷ [], rs') =
      attempt-IsSent left sent'
      ∙ rw (first_bytes text)
          (ap (λ t. (t.0, t.1.sent, t.2)) (await-empty fresh' (client_with 0 (frame' ∷ [])) rs')) in
    attempt_all-AllAnswered (a ∷ b ∷ bs) (late text rs') before
    ∙ ap (behind cs lines) (
        attempt_all-joined a (b ∷ bs) (late text rs') gives_up refl
        ∙ ap (joined refused (frame ∷ [])) (attempt_all-last b bs left reads_behind refl))
