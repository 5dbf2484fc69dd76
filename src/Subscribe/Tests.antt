-- ===== src/Subscribe/Tests.antt =====
-- A topic that nsqlookupd lists without a producer at first.
use php_nsq.Prelude.{
  ℕ, ◌+◌, ◌≡◌, refl, true, Option, none, some, Bytes, List, [], ◌∷◌, All, length, arith, codes, inl,
  if◌then◌else◌, ◌==◌,
}
use php_nsq.Wire.{pos}
use php_nsq.Print.{c_string}
use php_nsq.Lookup.{
  Libevent, finished, lookup, retry, workers, found, lookup_url, url_in_block, contains,
  starts_with, request, finish_callback,
}
use php_nsq.Lookup.Url.{TakenFor}
use php_nsq.Worker.{Producer, Master}
use php_nsq.Worker.Start.{forking}
use php_nsq.Subscribe.{Passed, absent, started, subscribe}
use php_nsq.Subscribe.Greeting.{Greets, answer_of, subscribe-Greets}
use php_nsq.Publish.{failed}
use php_nsq.Session.Sample.{
  json, frame, identify_frame_run, pieces, whole_answer, answer_split, names_short,
}

abbrev producer : Producer
producer = record { broadcast_address = codes "127.0.0.1"; tcp_port = codes "4150" }

-- A decoder for two texts.
abbrev decode : Bytes → Option (List Producer)
decode text = some (if length text == 1 then [] else producer ∷ [])

abbrev answers : Bytes → Libevent
answers body = record {
  uri_parse =
      λ url. some (record { host = some (codes "127.0.0.1"); port = pos 4161; path = some url });
  base_new = true;
  dns_base_new = true;
  connection_new = λ h p. true;
  answer_to = λ h p url. finished (some body);
}

abbrev address : Bytes
address = codes "127.0.0.1:4161"

abbrev topic : Bytes
topic = codes "orders"

abbrev passed : Passed
passed = record {
  topic = some topic;
  channel = some (codes "billing");
  rdy = some (pos 2);
  retry_delay_time = none;
  connect_num = none;
  auto_finish = absent;
}

abbrev pids : ℕ → ℕ
pids k = 100 + k

none_yet : TakenFor decode (lookup (answers (codes "0")) address topic) retry
unfolding lookup found lookup_url url_in_block contains starts_with request finish_callback c_string
none_yet = (codes "0", refl, refl)

one_listed : TakenFor decode (lookup (answers (codes "11")) address topic) (workers (producer ∷ []))
unfolding lookup found lookup_url url_in_block contains starts_with request finish_callback c_string
one_listed = (codes "11", refl, refl)

subscribe-Greets_example :
    (m : Master) × (subscribe decode
        (forking pids)
        address
        passed
        (answers (codes "0") ∷ answers (codes "11") ∷ [])
      ≡ started [] 1 (1, m))
    × (length m.arg_arr ≡ 1)
    × All
        (Greets json frame
          (answer_of (failed ∷ []) whole_answer pieces)
          passed
          topic
          (codes "billing"))
        m.arg_arr
subscribe-Greets_example =
    subscribe-Greets decode pids address passed topic (codes "billing") json frame
      (answers (codes "0") ∷ []) [] (answers (codes "11")) (producer ∷ []) (failed ∷ [])
      whole_answer pieces refl refl (inl refl) (none_yet, tt) one_listed identify_frame_run
      names_short (tt, tt) (omega arith) answer_split
