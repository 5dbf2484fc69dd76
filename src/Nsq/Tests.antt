-- ===== src/Nsq/Tests.antt =====
-- Objects with two connections, and the theorems about the methods on them.
use php_nsq.Prelude.{
  All, ◌≢◌, ap, ◌++◌, ℕ, ◌+◌, ◌*◌, ◌/◌, ◌≡◌, refl, Bool, true, false, none, some, Bytes, List, [],
  ◌∷◌, map, codes, ◌==◌, if◌then◌else◌, arith,
}
use php_nsq.Wire.{ℤ, pos, check_ipaddr}
use php_nsq.Print.{int_of_long}
use php_nsq.Publish.Answer.{reads, frame_reads, nops_for}
use php_nsq.Publish.Sample.{
  topic, hello, frame, deferred, zeros, ok, waits, beats_split, ok_split, publish_frame_run,
  deferred_frame_run,
}
use php_nsq.Session.Sample.{json, answer_reads, send_identify_run}
use php_nsq.Connection.{Address, Network, returns, is_positive}
use php_nsq.Connection.Opened.{AllConnect, IsKnown}
use php_nsq.Nsq.{
  construct, Object, Called, connect_method, close_method, publish_method, deferred_method,
}
use php_nsq.Nsq.Parse.{IsAddress, HasRoom, text_of, IsExplode}
use php_nsq.Nsq.Reach.{
  Call, constructs, connects, Calls, none_yet, then_one, fresh_object, publish_method-true,
}
use php_nsq.Nsq.Round.{connect_method-close_method}

abbrev one : Address
one = record { host = codes "127.0.0.1"; port = codes "4150" }

abbrev two : Address
two = record { host = codes "nsqd2"; port = codes "4151" }

one-IsAddress : IsAddress one
one-IsAddress = record { host_text = omega arith; port_text = omega arith }

two-IsAddress : IsAddress two
two-IsAddress = record { host_text = omega arith; port_text = omega arith }

-- The text up to the first colon, and the text behind it.
abbrev cut : Bytes → Bytes × Bytes
cut [] = ([], [])
cut (c ∷ s) = if c == b':' then ([], s) else (c ∷ (cut s).0, (cut s).1)

abbrev explode : Bytes → List Bytes
explode s = (cut s).0 ∷ (cut s).1 ∷ []

explode-IsExplode : IsExplode explode
explode-IsExplode host port h = ap (λ (t : Bytes × Bytes). t.0 ∷ t.1 ∷ []) (cut-colon host port h)
  where
    cut-colon :
        (host port : Bytes) → All (λ c. c ≢ b':') host → cut (host ++ (b':' ∷ port)) ≡ (host, port)
    cut-colon [] port h = refl
    cut-colon (c ∷ host) port h =
        let other : (c == b':') ≡ false = ground (arith, h.0) in rw (other, cut-colon host port h.1)

-- An allocator that gives multiples of 8 bytes.
abbrev eights : ℕ → ℕ
eights n = (n + 7) / 8 * 8

abbrev fd : ℕ → ℕ
fd i = 5 + i

abbrev works : Network
works = record {
  pton4 = λ s. true;
  pton6 = λ s. false;
  resolves = λ s. true;
  socket = λ i. some (fd i);
  connects = λ i. true;
  reads = λ i. answer_reads;
}

works-AllConnect : AllConnect works (some json) fd
works-AllConnect i = (refl, refl, omega arith, (_, send_identify_run))

servers-IsKnown : IsKnown works one × IsKnown works two
unfolding check_ipaddr
servers-IsKnown = (refl, refl)

-- The second close fails.
abbrev close : ℕ → Bool
close n = n == 5

abbrev empty : Object
empty = fresh_object none

abbrev servers : List Address
servers = one ∷ two ∷ []

servers_room : All (HasRoom eights) servers
servers_room = ((omega arith, omega arith), ((omega arith, omega arith), tt))

connect_method-close_method_example :
    (c d : Called) × (connect_method eights explode works
        (map text_of servers)
        (record empty { nsq_config = some json })
      ≡ returns c)
    × (c.result ≡ true)
    × (c.object.connection_fds ≡ some (pos 5 ∷ pos 6 ∷ []))
    × (close_method close c.object ≡ some d)
    × (d.result ≡ false)
    × (d.thrown ≡ none)
    × (d.closed ≡ 5 ∷ 6 ∷ [])
    × (d.object ≡ record empty { nsq_config = some json })
connect_method-close_method_example =
    connect_method-close_method eights explode explode-IsExplode works (some json) fd
      works-AllConnect close one (two ∷ []) (one-IsAddress, (two-IsAddress, tt)) servers_room
      (servers-IsKnown.0, (servers-IsKnown.1, tt)) none

abbrev two_connected : Object
two_connected = connect_method-close_method_example.0.object

configures : Call empty (record empty { nsq_config = some json })
unfolding construct
configures = constructs (some json)

two_connected-Calls : Calls empty two_connected
two_connected-Calls =
    then_one (then_one none_yet configures)
      (connects eights explode works (map text_of servers) connect_method-close_method_example.2)

publish_method-true_example :
    (sock : ℤ) × (is_positive sock ≡ true)
    × (publish_method 7 zeros
          (λ s. pos 20)
          (λ s. reads waits ++ (frame_reads ok (ok ∷ []) ++ []))
          topic
          hello
          two_connected
        ≡ some (true, sock, frame ∷ nops_for waits))
    × (deferred_method 7 zeros
          (λ s. reads waits ++ (frame_reads ok (ok ∷ []) ++ []))
          (λ n. n)
          topic
          hello
          (pos 1500)
          two_connected
        ≡ some (true, sock, deferred ∷ nops_for waits))
unfolding int_of_long
publish_method-true_example =
    publish_method-true 7 zeros 19 (λ s. waits) (λ s. ok ∷ []) (λ s. []) topic hello frame deferred
      (λ n. n) (pos 1500) (pos 5) (pos 6 ∷ []) two_connected-Calls
      connect_method-close_method_example.4 (λ k. refl) (λ k. refl)
      (λ s. ((tt, (beats_split.0, (beats_split.1, tt))), ok_split)) publish_frame_run
      deferred_frame_run
