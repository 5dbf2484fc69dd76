-- ===== src/Subscribe/Retry.antt =====
-- How often nsqlookupd is asked, and what then becomes of the producers.
use php_nsq.Prelude.{
  ℕ, ◌+◌, ◌≡◌, sym, ap, ◌∙◌, ◌⊎◌, Option, none, some, Bytes, List, [], ◌∷◌, ◌++◌, append-nil, map,
  All, length, arith,
}
use php_nsq.Wire.{pos}
use php_nsq.Lookup.{Libevent, lookup, Found, retry, workers}
use php_nsq.Lookup.Url.{TakenFor}
use php_nsq.Worker.{Producer, Master, worker_arg}
use php_nsq.Worker.Start.{forking, workers_from, pids_from, start_workers-one}
use php_nsq.Subscribe.{
  Passed, config_of, listed, by_found, retrying, started, look_up, by_started, start_listed,
  by_looked, before_lookup, by_topic, subscribe,
}

module _ (decode : Bytes → Option (List Producer)) (pids : ℕ → ℕ) (address : Bytes) where
  -- The answer to each question is a list without a producer.
  abbrev pub AllRetry : Bytes → List Libevent → Type 0
  AllRetry topic libs = All (λ lib. TakenFor decode (lookup lib address topic) retry) libs

  look_up-step :
      (topic : Bytes) (n : ℕ) (lib : Libevent) (libs : List Libevent) (f : Found Producer)
      → TakenFor decode (lookup lib address topic) f
      → look_up decode (forking pids) address topic n (lib ∷ libs)
        ≡ by_found n (look_up decode (forking pids) address topic (n + 1) libs) f
  unfolding look_up
  look_up-step topic n lib libs f (text, e, t) = rw (look_up, e, t)

  look_up-retries :
      (topic : Bytes) (n : ℕ) (retries : List Libevent) (libs : List Libevent)
      → AllRetry topic retries
      → look_up decode (forking pids) address topic n (retries ++ libs)
        ≡ look_up decode (forking pids) address topic (n + length retries) libs
  look_up-retries topic n [] libs h =
      ap (λ k. look_up decode (forking pids) address topic k libs) (omega arith)
  look_up-retries topic n (lib ∷ retries) libs h =
      look_up-step topic n lib (retries ++ libs) retry h.0
      ∙ look_up-retries topic (n + 1) retries libs h.1
      ∙ ap (λ k. look_up decode (forking pids) address topic k libs) (omega arith)

  look_up-listed :
      (topic : Bytes) (retries rest : List Libevent) (lib : Libevent) (ps : List Producer)
      → AllRetry topic retries
      → TakenFor decode (lookup lib address topic) (workers ps)
      → look_up decode (forking pids) address topic 0 (retries ++ (lib ∷ rest))
        ≡ listed (length retries) ps
  look_up-listed topic retries rest lib ps h t =
      look_up-retries topic 0 retries (lib ∷ rest) h
      ∙ ap (λ k. look_up decode (forking pids) address topic k (lib ∷ rest)) (omega arith)
      ∙ look_up-step topic (length retries) lib rest (workers ps) t

  subscribe-listed :
      (passed : Passed) (topic : Bytes) (retries rest : List Libevent) (lib : Libevent)
      (ps : List Producer)
      → passed.topic ≡ some topic
      → AllRetry topic retries
      → TakenFor decode (lookup lib address topic) (workers ps)
      → subscribe decode (forking pids) address passed (retries ++ (lib ∷ rest))
        ≡ start_listed decode (forking pids) passed topic (length retries) ps passed.channel
  unfolding subscribe
  subscribe-listed passed topic retries rest lib ps e h t =
      ap (by_topic decode (forking pids) address passed (retries ++ (lib ∷ rest))) e
      ∙ ap
          (by_looked decode (forking pids) passed topic
            (before_lookup decode (forking pids) passed.channel))
          (look_up-listed topic retries rest lib ps h t)

  -- As long as nsqlookupd lists no producer, the method asks again, without end.
  subscribe-retrying :
      (passed : Passed) (topic : Bytes) (libs : List Libevent)
      → passed.topic ≡ some topic
      → AllRetry topic libs
      → subscribe decode (forking pids) address passed libs ≡ retrying
  unfolding subscribe look_up
  subscribe-retrying passed topic libs e h =
      let asks =
        ap (λ ls. look_up decode (forking pids) address topic 0 ls) (sym (append-nil libs))
        ∙ look_up-retries topic 0 libs [] h in
      ap (by_topic decode (forking pids) address passed libs) e
      ∙ ap
          (by_looked decode (forking pids) passed topic
            (before_lookup decode (forking pids) passed.channel))
          asks

  -- With a topic and a channel, with `connect_num` missing or 1 and forks that work, the
  -- method waits once for each answer without a producer, and at the first that lists producers it
  -- starts one worker for each of them, in order and with the values of the configuration, whatever the
  -- network does later.
  pub subscribe-started :
      (passed : Passed) (topic channel : Bytes) (retries rest : List Libevent) (lib : Libevent)
      (ps : List Producer)
      → passed.topic ≡ some topic
      → passed.channel ≡ some channel
      → (passed.connect_num ≡ none) ⊎ (passed.connect_num ≡ some (pos 1))
      → AllRetry topic retries
      → TakenFor decode (lookup lib address topic) (workers ps)
      → let args = map (worker_arg (config_of passed topic channel)) ps in
        (m : Master) × (subscribe decode (forking pids) address passed (retries ++ (lib ∷ rest))
          ≡ started [] (length retries) (length ps, m))
        × (m.arg_arr ≡ workers_from pids 0 args)
        × (m.child_fd ≡ pids_from pids 0 args)
  unfolding subscribe
  subscribe-started passed topic channel retries rest lib ps e c once h t =
      let (m, run, slots, children) =
        start_workers-one pids (config_of passed topic channel) ps once in
      (
        m,
        subscribe-listed passed topic retries rest lib ps e h t
            ∙ ap (start_listed decode (forking pids) passed topic (length retries) ps) c
            ∙ ap (by_started [] (length retries)) run,
        slots,
        children,
      )
