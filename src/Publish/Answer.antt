-- ===== src/Publish/Answer.antt =====
-- What `publish` makes of the answers of nsqd: heartbeats, then OK.
use php_nsq.Prelude.{
  ℕ, suc, ◌+◌, ◌-◌, ◌^◌, ◌<◌, ◌≡◌, refl, sym, ap, ap₂, ◌∙◌, some, Bytes, List, [], ◌∷◌, ◌++◌, map,
  append_assoc, append-nil, length, codes, All, ◌==◌, if◌then◌else◌, arith,
}
use php_nsq.Wire.{pos, Mem, htonl_bytes}
use php_nsq.Receive.{overlay, cleared}
use php_nsq.Publish.{
  ReadResult, failed, got, accepted, refused, at_size, Client, next, done, equals_text, answer,
  read_result, read_answer_size, await, publish, deferred_publish,
}
use php_nsq.Publish.Await.{IsSplit, continue, await-size, await-split, await-body}

-- The payload of a response frame, whose type is 0.
abbrev pub response_payload : Bytes → Bytes
response_payload text = htonl_bytes 0 ++ text

-- What the reads give for a frame whose payload `p` comes in the pieces `xs`.
abbrev pub frame_reads : Bytes → List Bytes → List ReadResult
frame_reads p xs = got (htonl_bytes (length p)) ∷ map got xs

-- What may come before the answer: a read that has nothing yet, or a heartbeat in pieces.
pub data Wait : Type 0 where
  nothing_yet : Wait
  heartbeat : List Bytes → Wait

abbrev pub beat : Bytes
beat = response_payload (codes "_heartbeat_")

abbrev pub IsWait : Wait → Type 0
IsWait nothing_yet = Unit
IsWait (heartbeat xs) = IsSplit xs beat

abbrev pub reads : List Wait → List ReadResult
reads [] = []
reads (nothing_yet ∷ ws) = failed ∷ reads ws
reads (heartbeat xs ∷ ws) = frame_reads beat xs ++ reads ws

-- One NOP for each heartbeat.
abbrev pub nops_for : List Wait → List Bytes
nops_for [] = []
nops_for (nothing_yet ∷ ws) = nops_for ws
nops_for (heartbeat xs ∷ ws) = codes "NOP\n" ∷ nops_for ws

abbrev pub beats : List Wait → ℕ
beats [] = 0
beats (nothing_yet ∷ ws) = beats ws
beats (heartbeat xs ∷ ws) = 1 + beats ws

abbrev pub client_with : ℕ → List Bytes → Client
client_with n s = record { allocs = n; sent = s }

abbrev pub after : List Wait → Client → Client
after ws c = client_with (c.allocs + beats ws) (c.sent ++ nops_for ws)

module _ (fresh : ℕ → Mem) where
  -- A frame in pieces, up to the test of its text.
  pub await-frame :
      (p : Bytes) (xs : List Bytes) (c : Client) (rs : List ReadResult)
      → length p < 2 ^ 31 - 1
      → IsSplit xs p
      → await fresh at_size c (frame_reads p xs ++ rs)
        ≡ continue fresh
            (answer
              (length p)
              (overlay (cleared (fresh c.allocs) (length p)) 0 p)
              (record c { allocs = c.allocs + 1 }))
            rs
  await-frame p xs c rs small split =
      let m = cleared (fresh c.allocs) (length p) in
      let c' = record c { allocs = c.allocs + 1 } in
      await-size fresh (length p) c (map got xs ++ rs) small
      ∙ await-split fresh (length p) 0 m c' rs split (omega arith)
      ∙ await-body fresh m c' p rs

  answer-beat :
      (m : Mem) (c : Client)
      → m 15 ≡ 0
      → answer 15 (overlay (cleared m 15) 0 beat) c
        ≡ next at_size (record c { sent = c.sent ++ (codes "NOP\n" ∷ []) })
  unfolding answer equals_text overlay cleared htonl_bytes
  answer-beat m c h = ground arith

  pub answer-ok :
      (m : Mem) (c : Client)
      → answer 6 (overlay (cleared m 6) 0 (response_payload (codes "OK"))) c
        ≡ (if m 6 == 0 then done accepted c else done refused c)
  unfolding answer equals_text overlay cleared htonl_bytes
  answer-ok m c = ground arith

  -- What may come before the answer changes nothing but the client.
  pub await-reads :
      (ws : List Wait) (c : Client) (rs : List ReadResult)
      → ((k : ℕ) → fresh k 15 ≡ 0)
      → All IsWait ws
      → await fresh at_size c (reads ws ++ rs) ≡ await fresh at_size (after ws c) rs
  unfolding await read_result read_answer_size htonl_bytes
  await-reads [] c rs clear h =
      let same : c.allocs ≡ c.allocs + 0 = omega arith in
      ap₂ (λ n s. await fresh at_size (client_with n s) rs) same (sym (append-nil c.sent))
  await-reads (nothing_yet ∷ ws) c rs clear h = await-reads ws c rs clear h.1
  await-reads (heartbeat xs ∷ ws) c rs clear h =
      let c' = client_with (c.allocs + 1) (c.sent ++ (codes "NOP\n" ∷ [])) in
      let sum : c.allocs + 1 + beats ws ≡ c.allocs + (1 + beats ws) = omega arith in
      let sent = append_assoc c.sent (codes "NOP\n" ∷ []) (nops_for ws) in
      ap (await fresh at_size c) (append_assoc (frame_reads beat xs) (reads ws) rs)
      ∙ await-frame beat xs c (reads ws ++ rs) (omega arith) h.0
      ∙ ap (λ s. continue fresh s (reads ws ++ rs))
          (answer-beat (fresh c.allocs) (record c { allocs = c.allocs + 1 }) (clear c.allocs))
      ∙ await-reads ws c' rs clear h.1
      ∙ ap₂ (λ n s. await fresh at_size (client_with n s) rs) sum sent

  -- Every heartbeat that comes before the answer is answered with one NOP, and OK is then taken for
  -- success, with what comes behind it left unread: reads that have nothing yet between the frames,
  -- and payloads in any number of pieces, make no difference. The byte that ends each text, which is
  -- not cleared, must happen to be 0.
  await-ok :
      (ws : List Wait) (xs : List Bytes) (c : Client) (rs : List ReadResult)
      → ((k : ℕ) → fresh k 15 ≡ 0)
      → ((k : ℕ) → fresh k 6 ≡ 0)
      → All IsWait ws
      → IsSplit xs (response_payload (codes "OK"))
      → (c' : Client) × (await fresh at_size c
            (reads ws ++ (frame_reads (response_payload (codes "OK")) xs ++ rs))
          ≡ (accepted, c', rs))
        × (c'.sent ≡ c.sent ++ nops_for ws)
  unfolding htonl_bytes
  await-ok ws xs c rs clear clear' h split =
      let c' = after ws c in
      (
        record c' { allocs = c'.allocs + 1 },
        await-reads ws c _ clear h
            ∙ await-frame (response_payload (codes "OK")) xs c' rs (omega arith) split
            ∙ ap (λ s. continue fresh s rs)
                (answer-ok (fresh c'.allocs) (record c' { allocs = c'.allocs + 1 }))
            ∙ rw clear',
        refl,
      )

  -- When the command is sent, and heartbeats and then OK come back, in pieces or not, `publish` and
  -- `deferredPublish` succeed, what they send is the command and then one NOP for each heartbeat, and
  -- what comes behind the answer is left unread.
  -- The byte that ends each text, which is not cleared, must happen to be 0.
  pub publish-ok :
      (frame : Bytes) (k : ℕ) (ws : List Wait) (xs : List Bytes) (rs : List ReadResult)
      → ((k : ℕ) → fresh k 15 ≡ 0)
      → ((k : ℕ) → fresh k 6 ≡ 0)
      → All IsWait ws
      → IsSplit xs (response_payload (codes "OK"))
      → (publish fresh
            (some frame)
            (pos (suc k))
            (reads ws ++ (frame_reads (response_payload (codes "OK")) xs ++ rs))
          ≡ (accepted, frame ∷ nops_for ws, rs))
        × (deferred_publish fresh
              (some frame)
              (reads ws ++ (frame_reads (response_payload (codes "OK")) xs ++ rs))
            ≡ (accepted, frame ∷ nops_for ws, rs))
  unfolding publish deferred_publish
  publish-ok frame k ws xs rs clear clear' h split =
      let (c', ends, sent) = await-ok ws xs (client_with 0 (frame ∷ [])) rs clear clear' h split in
      let both : (c'.sent ≡ frame ∷ nops_for ws) = sent in
      let run = ap (λ t. (t.0, t.1.sent, t.2)) ends ∙ ap (λ s. (accepted, s, rs)) both in (run, run)
