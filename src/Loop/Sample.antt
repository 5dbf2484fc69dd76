-- ===== src/Loop/Sample.antt =====
-- An event loop on lists of bytes, for the tests.
use php_nsq.Prelude.{◌≡◌, refl, true, false, Bytes, List, [], ◌∷◌, ◌++◌, take, drop, codes, arith}
use php_nsq.Wire.{pos, read_i32}
use php_nsq.Process.{Callback}
use php_nsq.Receive.Sample.{bytes_input, counting, zeros, reader, reader-IsIdle}
use php_nsq.Receive.Frame.{heartbeat, payload, encode_all}
use php_nsq.Receive.Sample.{hello, hello-IsFrame, heartbeat-IsFrame}
use php_nsq.Loop.{Socket, Event, arrives, timer, Settings, System, has_address}
use php_nsq.Loop.Arrival.{between, start_of, begun, completed}
use php_nsq.Loop.Abstract.{initial, Feeds, over, ticks, comes}
use php_nsq.Loop.Ticks.{Refines}
use php_nsq.Wire.{check_ipaddr}

abbrev pub socket : Socket
socket = record { input = bytes_input; arrive = λ bs b. b ++ bs; arrive_contents = λ bs b. refl }

-- A user's function that writes nothing and succeeds.
abbrev pub succeeds : Callback
succeeds m = record { written = []; success = true; exception = false }

abbrev pub settings : Settings
settings = record { callback = succeeds; rdy = pos 1; spare = 1 }

pub begins : Refines socket counting zeros settings (reader zeros []) initial
begins = record { rest = reader-IsIdle zeros []; regular = tt }

pub zeros_settle : read_i32 (zeros.fresh 0) ≡ 0
unfolding read_i32
zeros_settle = refl

abbrev pub system : System
system = record {
  pton4 = λ s. true;
  pton6 = λ s. false;
  resolves = λ s. false;
  base_new = true;
  connects = true;
  polling_fails = false;
}

pub numeric : has_address system (codes "127.0.0.1") ≡ true
unfolding check_ipaddr
numeric = refl

-- A heartbeat and a message that comes in two pieces, with the timer in between.
abbrev pub part : Bytes
part = take 20 (payload hello)

abbrev pub rest : Bytes
rest = drop 20 (payload hello)

abbrev pub events : List Event
events =
    arrives (encode_all (heartbeat ∷ []) ++ start_of hello part)
    ∷ timer
    ∷ arrives (rest ++ [])
    ∷ timer
    ∷ []

pub events_feed : Feeds between events between ((heartbeat ∷ []) ++ ((hello ∷ []) ++ []))
events_feed =
    comes
      (begun (heartbeat ∷ []) hello part rest (heartbeat-IsFrame, tt)
        (record { frame = hello-IsFrame; split = refl; missing = omega arith }))
      (tt, tt)
      (ticks (
        comes
          (completed hello part rest []
            (record { frame = hello-IsFrame; split = refl; missing = omega arith }) tt)
          (omega arith, tt) (ticks (over between))))
