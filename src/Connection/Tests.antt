-- ===== src/Connection/Tests.antt =====
-- Connections to two servers.
use php_nsq.Prelude.{
  ◌+◌, ◌≡◌, refl, true, false, none, some, List, [], ◌∷◌, codes, get_elem?, ◌==◌, arith,
}
use php_nsq.Wire.{ℤ, pos, check_ipaddr}
use php_nsq.Session.Sample.{json, answer_reads, send_identify_run}
use php_nsq.Connection.{Address, Action, Network, returns, connect_nsqd}
use php_nsq.Connection.Opened.{IsKnown, connect_nsqd-failed}

abbrev one : Address
one = record { host = codes "127.0.0.1"; port = codes "4150" }

abbrev two : Address
two = record { host = codes "nsqd2"; port = codes "4150" }

-- The first attempt fails, and the second gets the answer to its IDENTIFY.
abbrev half : Network
half = record {
  pton4 = λ s. true;
  pton6 = λ s. false;
  resolves = λ s. true;
  socket = λ i. some (5 + i);
  connects = λ i. i == 1;
  reads = λ i. answer_reads;
}

one-IsKnown : IsKnown half one
unfolding check_ipaddr
one-IsKnown = refl

two-IsKnown : IsKnown half two
unfolding check_ipaddr
two-IsKnown = refl

connect_nsqd-failed_example :
    (fds : List ℤ) × (actions : List (List Action)) × (connect_nsqd half
        (some json)
        none
        (one ∷ two ∷ [])
        none
      ≡ returns (fds, none, actions))
    × (get_elem? fds 1 ≡ some (pos 6))
connect_nsqd-failed_example =
    connect_nsqd-failed half (some json) none (one ∷ two ∷ []) 0 1 6
      (one-IsKnown, (two-IsKnown, tt)) (λ i h. (_, send_identify_run)) (omega arith) refl
      (omega arith) refl refl
