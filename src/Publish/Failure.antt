-- ===== src/Publish/Failure.antt =====
-- Answers that are not taken for success: errors, lost connections, and reads that come apart.
use php_nsq.Prelude.{
  ℕ, ◌+◌, ◌-◌, ◌^◌, ◌≤◌, ◌<◌, ◌≡◌, refl, ap, ◌∙◌, ◌↔◌, ◌≢◌, false, Bytes, List, [], ◌∷◌, ◌++◌,
  length, codes, All, ◌==◌, if◌then◌else◌, lt→ltb, arith,
}
use php_nsq.Wire.{Mem, htonl_bytes}
use php_nsq.Wire.BigEndian.{mem_of}
use php_nsq.Receive.{overlay, cleared}
use php_nsq.Publish.{
  ReadResult, failed, got, crashed, accepted, refused, lost, at_size, at_body, Client, done,
  equals_text, answer, read_result, read_answer_size, read_answer_body, await,
}
use php_nsq.Publish.Await.{
  IsPiece, IsSplit, continue, await-step, await-size, await-piece, read_result-over,
}
use php_nsq.Publish.Answer.{
  response_payload, frame_reads, Wait, IsWait, reads, nops_for, after, await-frame, answer-ok,
  await-reads,
}

-- The payload of an error frame, whose type is 1.
abbrev pub error_payload : Bytes → Bytes
error_payload text = htonl_bytes 1 ++ text

eq_false : (a b : ℕ) → a ≢ b → (a == b) ≡ false
eq_false a b h = ground arith

overlay-inside : (m : Mem) (p : Bytes) (i : ℕ) → i < length p → overlay m 0 p i ≡ mem_of p i
unfolding overlay
overlay-inside m p i h = ground arith

cleared-inside : (m : Mem) (n i : ℕ) → i < n → cleared m n i ≡ 0
unfolding cleared
cleared-inside m n i h = ground arith

module _ (fresh : ℕ → Mem) where
  -- A text that starts as neither of the two that are looked for.
  answer-other :
      (size : ℕ) (m : Mem) (c : Client)
      → 4 < size
      → m 4 ≢ b'O'
      → m 4 ≢ b'_'
      → answer size m c ≡ done refused c
  unfolding answer equals_text
  answer-other size m c long not_o not_beat =
      let inside = lt→ltb 4 (size + 1) (omega arith) in
      rw (answer, inside, eq_false (m 4) b'O' not_o, eq_false (m 4) b'_' not_beat, inside)

  accepted-zero :
      (n : ℕ) (c : Client) (rs : List ReadResult)
      → ((continue fresh (if n == 0 then done accepted c else done refused c) rs).0 ≡ accepted)
        ↔ (n ≡ 0)
  accepted-zero n c rs = ground arith

  -- An OK is taken for success exactly when the byte behind it in fresh memory is 0.
  pub await-ok_iff :
      (xs : List Bytes) (c : Client) (rs : List ReadResult)
      → IsSplit xs (response_payload (codes "OK"))
      → ((await fresh at_size c (frame_reads (response_payload (codes "OK")) xs ++ rs)).0
          ≡ accepted)
        ↔ (fresh c.allocs 6 ≡ 0)
  unfolding htonl_bytes
  await-ok_iff xs c rs split =
      let reads_ok =
        await-frame fresh (response_payload (codes "OK")) xs c rs (omega arith) split in
      let tests =
        ap (λ s. continue fresh s rs)
          (answer-ok fresh (fresh c.allocs) (record c { allocs = c.allocs + 1 })) in
      rw (reads_ok ∙ tests)
        (accepted-zero (fresh c.allocs 6) (record c { allocs = c.allocs + 1 }) rs)

  -- When the connection is closed before the answer, whatever heartbeats came before, the wait ends
  -- with the exception of a lost connection, and each heartbeat has been answered.
  await-lost :
      (ws : List Wait) (c : Client) (rs : List ReadResult)
      → ((k : ℕ) → fresh k 15 ≡ 0)
      → All IsWait ws
      → (c' : Client) × (await fresh at_size c (reads ws ++ (got [] ∷ rs)) ≡ (lost, c', rs))
        × (c'.sent ≡ c.sent ++ nops_for ws)
  unfolding await read_result read_answer_size
  await-lost ws c rs clear h = (after ws c, await-reads fresh ws c _ clear h, refl)

  -- An error frame whose text starts with E, as those of nsqd do, makes `publish` return -1.
  await-error :
      (text : Bytes) (xs : List Bytes) (c : Client) (rs : List ReadResult)
      → length text < 2 ^ 30
      → IsSplit xs (error_payload (b'E' ∷ text))
      → await fresh at_size c (frame_reads (error_payload (b'E' ∷ text)) xs ++ rs)
        ≡ (refused, record c { allocs = c.allocs + 1 }, rs)
  unfolding htonl_bytes
  await-error text xs c rs small split =
      let p = error_payload (b'E' ∷ text) in
      let m = cleared (fresh c.allocs) (length p) in
      let at4 : overlay m 0 p 4 ≡ b'E' = overlay-inside m p 4 (omega arith) in
      let other =
        answer-other (length p) (overlay m 0 p) (record c { allocs = c.allocs + 1 }) (omega arith)
          (omega (arith, at4)) (omega (arith, at4)) in
      await-frame fresh p xs c rs (omega arith) split ∙ ap (λ s. continue fresh s rs) other

  read_result-early :
      (n : ℕ) (m : Mem) (c : Client) → read_result fresh (at_body n 0 m) c failed ≡ answer n m c
  unfolding read_result read_answer_body
  read_result-early n m c = ground arith

  -- When the size has come and the next read has nothing yet, `publish` returns -1, though the answer
  -- may be OK.
  pub await-early :
      (n : ℕ) (c : Client) (rs : List ReadResult)
      → 4 < n
      → n < 2 ^ 31 - 1
      → await fresh at_size c (got (htonl_bytes n) ∷ failed ∷ rs)
        ≡ (refused, record c { allocs = c.allocs + 1 }, rs)
  await-early n c rs some_text small =
      let m = cleared (fresh c.allocs) n in
      let c' = record c { allocs = c.allocs + 1 } in
      let at4 : m 4 ≡ 0 = cleared-inside (fresh c.allocs) n 4 some_text in
      await-size fresh n c (failed ∷ rs) small
      ∙ await-step fresh (at_body n 0 m) c' failed rs (done refused c') (
          read_result-early n m c'
          ∙ answer-other n m c' some_text (omega (arith, at4)) (omega (arith, at4)))

  -- When a part `x` of a payload of `n` bytes has come, the next read may bring more than what is
  -- missing of it, since it asks for `n` bytes again: then `publish` writes past the buffer.
  pub await-overflow :
      (n : ℕ) (x y : Bytes) (c : Client) (rs : List ReadResult)
      → n < 2 ^ 31 - 1
      → IsPiece x
      → length x < n
      → length y ≤ n
      → n + 1 < length x + length y
      → await fresh at_size c (got (htonl_bytes n) ∷ got x ∷ got y ∷ rs)
        ≡ (crashed, record c { allocs = c.allocs + 1 }, rs)
  await-overflow n x y c rs small hx part asked more =
      let m = cleared (fresh c.allocs) n in
      let c' = record c { allocs = c.allocs + 1 } in
      await-size fresh n c (got x ∷ got y ∷ rs) small
      ∙ await-piece fresh n 0 m c' x (got y ∷ rs) hx (omega arith)
      ∙ await-step fresh (at_body n (0 + length x) (overlay m 0 x)) c' (got y) rs (done crashed c')
          (read_result-over fresh n (0 + length x) (overlay m 0 x) c' y (omega arith) (omega arith))
