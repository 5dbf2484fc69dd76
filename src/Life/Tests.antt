-- ===== src/Life/Tests.antt =====
-- A worker whose connection closes, and that connects again.
use php_nsq.Prelude.{
  ℕ, ◌≡◌, refl, true, false, none, some, Bytes, List, [], ◌∷◌, ◌++◌, codes, arith,
}
use php_nsq.Wire.{pos, read_i32, htonl_bytes}
use php_nsq.Print.{c_string, format_int, digits}
use php_nsq.Exception.{libevent_could_not_be_initialized}
use php_nsq.Command.{Output, queued, sprintf_buf, nsq_subscribe, nsq_ready}
use php_nsq.Publish.{ReadResult, got}
use php_nsq.Queue.{Pending, Store}
use php_nsq.Process.Answer.{object_of, answer, Sends}
use php_nsq.Receive.Frame.{Frame, encode_all, delivered, as_pending}
use php_nsq.Receive.Backing.{enqueue, Holding, enqueue-Holding}
use php_nsq.Receive.Sample.{counting, zeros, hello, hello-IsFrame, reader, empty-Holding}
use php_nsq.Session.{
  conn_eventcb, connected, send_identify, subscribe_lines, identify_frame, await_identify,
  read_identify, read_identify_size, read_identify_body, behind,
}
use php_nsq.Loop.{Event, arrives, timer, System}
use php_nsq.Loop.Arrival.{between, whole}
use php_nsq.Loop.Abstract.{Abstract, initial, Feeds, over, ticks, comes}
use php_nsq.Loop.Ticks.{Refines}
use php_nsq.Loop.Sample.{socket, settings, succeeds, begins, zeros_settle, system, numeric}
use php_nsq.Life.{Who, closed, broken, Life, alive, stranded, faulted, happens, live}
use php_nsq.Life.Depth.{Deeper, live-Deeper}
use php_nsq.Life.Failed.{moment, happens-failed}
use php_nsq.Life.Greeting.{greeting, Greets, IsReached}
use php_nsq.Life.Reopened.{Visit, moments_of, Runs, IsFairLife, live-IsFairLife, live-stale}

abbrev who : Who
who = record {
  config = some (codes "{\"a\":1}");
  topic = codes "orders";
  channel = codes "billing";
  name = codes "127.0.0.1";
}

abbrev start : Life socket counting zeros settings who
start = record { loop = reader zeros []; past = []; pending = []; freed = false; thrown = [] }

abbrev answers : List ReadResult
answers = got (htonl_bytes 6) ∷ got (0 ∷ 0 ∷ 0 ∷ 0 ∷ codes "OK") ∷ []

abbrev identify : Bytes
identify = codes "IDENTIFY\n" ++ (0 ∷ 0 ∷ 0 ∷ 7 ∷ codes "{\"a\":1}")

greets :
    Greets socket counting zeros settings who answers identify
      (queued (codes "SUB orders billing\n"))
      (queued (codes "RDY 1\n"))
unfolding conn_eventcb connected send_identify subscribe_lines identify_frame await_identify
    read_identify read_identify_size read_identify_body behind read_i32 htonl_bytes nsq_subscribe
    nsq_ready sprintf_buf c_string format_int digits
greets = refl

reached : IsReached socket counting zeros settings who system []
reached = record { addressed = numeric; based = refl; connects = refl; fresh = refl }

abbrev visit :
    (es : List Event) (fs : List Frame)
    → Feeds between es between fs
    → Visit socket counting zeros settings who
visit es fs feeds = record {
  system = system;
  input = [];
  reads = answers;
  events = es;
  frames = fs;
  reached = reached;
  command = identify;
  subscribed = queued (codes "SUB orders billing\n");
  ready = queued (codes "RDY 1\n");
  greets = greets;
  feeds = feeds;
}

brings_hello : Feeds between (arrives (encode_all (hello ∷ [])) ∷ []) between (hello ∷ [])
brings_hello = comes (whole (hello ∷ []) (hello-IsFrame, tt)) (omega arith, tt) (over between)

one_tick : Feeds between (timer ∷ []) between []
one_tick = ticks (over between)

abbrev visits : List (Visit socket counting zeros settings who)
visits =
    visit (arrives (encode_all (hello ∷ [])) ∷ []) (hello ∷ []) brings_hello
    ∷ visit (timer ∷ []) [] one_tick
    ∷ []

begins_fair : IsFairLife socket counting zeros settings who start initial
begins_fair = record { refines = begins; phase = refl; fair = refl }

live-IsFairLife_example :
    (l' : Life socket counting zeros settings who) × (b : Abstract) × (past : List (List Output))
    × (live socket counting zeros settings who
          (moments_of socket counting zeros settings who visits)
          start
        ≡ alive l')
    × Runs socket counting zeros settings who initial visits b past
    × Refines socket counting zeros settings l'.loop b
    × (l'.past ≡ past)
    × (l'.loop.out ≡ b.out)
    × (b.handled ++ b.waiting ≡ delivered (pos 5000) true (hello ∷ []))
live-IsFairLife_example =
    live-IsFairLife socket counting zeros settings who (λ n h. refl)
      (λ a. (0, omega arith, zeros_settle)) (omega arith) (omega arith) visits start initial
      begins_fair

live-Deeper_example : Deeper socket counting zeros settings who 2 start (
    live socket counting zeros settings who
      (moments_of socket counting zeros settings who visits)
      start)
live-Deeper_example =
    live-Deeper socket counting zeros settings who
      (moments_of socket counting zeros settings who visits) start

-- A system that gives no event base.
abbrev exhausted : System
exhausted = record system { base_new = false }

happens-failed_example :
    (happens socket counting zeros settings who
        (moment socket counting zeros settings who closed exhausted [])
        start
      ≡ stranded (record start { freed = true; thrown = libevent_could_not_be_initialized ∷ [] }))
    × (happens socket counting zeros settings who
          (moment socket counting zeros settings who broken exhausted [])
          start
        ≡ faulted)
happens-failed_example =
    happens-failed socket counting zeros settings who exhausted [] start refl numeric refl

abbrev empty_queue : Store × ℕ
empty_queue = (record { heap = λ _. none; head = 0; tail = 0; count = 0 }, 1)

-- A worker whose queue holds a message that has arrived.
abbrev waiting : List Pending
waiting = delivered (pos 5000) true (hello ∷ [])

abbrev message : Pending
message =
    as_pending (pos 5000) true (codes "\0\0\0\0\0\0\0\t") (0 ∷ 3 ∷ []) (codes "0123456789abcdef")
      (codes "hello")

held :
    (q : Store × ℕ) × (enqueue counting message empty_queue ≡ some q) × Holding counting q waiting
held = enqueue-Holding counting message empty_queue [] empty-Holding

abbrev waits : Life socket counting zeros settings who
waits = record start { loop = record (reader zeros []) { queue = held.0 } }

abbrev arrived : Abstract
arrived = record initial { arrived = hello ∷ []; waiting = waiting }

waits_fair : IsFairLife socket counting zeros settings who waits arrived
waits_fair = record {
  refines = record {
    rest = record { first = refl; l = refl; input = refl; queue = held.2; out = refl };
    regular = (
      record { id_length = refl; id_text = omega arith; delay = omega arith; body_length = refl },
      tt,
    );
  };
  phase = refl;
  fair = refl;
}

live-stale_example :
    (l' : Life socket counting zeros settings who) × (replies : List Output) × (told : Output)
    × (live socket counting zeros settings who
          (moments_of socket counting zeros settings who (visit (timer ∷ []) [] one_tick ∷ []))
          waits
        ≡ alive l')
    × (l'.past ≡ [] ∷ [])
    × Sends (answer message (succeeds (object_of message))) replies
    × (l'.loop.out
        ≡ greeting identify (queued (codes "SUB orders billing\n")) (queued (codes "RDY 1\n"))
          ++ (replies ++ (told ∷ [])))
live-stale_example =
    live-stale socket counting zeros settings who (λ n h. refl)
      (λ a. (0, omega arith, zeros_settle)) (omega arith) (omega arith)
      (visit (timer ∷ []) [] one_tick) waits arrived message [] waits_fair refl refl
