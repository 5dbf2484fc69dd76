-- ===== src/Receive/View/Tests.antt =====
-- Views of a queue in memory that holds a message.
use php_nsq.Prelude.{◌≡◌, true, none, some, [], ◌∷◌, ◌++◌, codes, drop}
use mathlib.Core.Quot
use php_nsq.Wire.{pos}
use php_nsq.Queue.{Pending}
use php_nsq.Queue.Chain.{kept}
use php_nsq.Queue.Walk.{contents}
use php_nsq.Receive.Backing.{enqueue}
use php_nsq.Receive.Sample.{counting, empty-Holding}
use php_nsq.Receive.View.{drop_message, Memory, View, pushed, push, pop}
use php_nsq.Receive.View.Laws.{operations_View}

abbrev hello : Pending
hello = record {
  message_id = codes "0123456789abcdef";
  body = codes "hello";
  body_len = 5;
  timestamp = 9;
  attempts = 3;
  delay_time = pos 5000;
  auto_finish = true;
}

abbrev nothing : Memory counting
nothing = record {
  queue = (record { heap = λ _. none; head = 0; tail = 0; count = 0 }, 1);
  held = [];
  holding = empty-Holding;
  whole = tt;
}

abbrev one : Memory counting
one = pushed counting hello nothing

abbrev one_view : View counting
one_view = Quot.mk one

operations_View_example :
    ((y : Memory counting) × (enqueue counting hello one.queue ≡ some y.queue)
      × (push counting hello (Quot.mk one) ≡ Quot.mk y)
      × (contents y.queue.0 ≡ contents one.queue.0 ++ (kept hello ∷ [])))
    × ((y : Memory counting) × (drop_message one.queue.0 ≡ some y.queue.0)
        × (pop counting (Quot.mk one) ≡ Quot.mk y)
        × (contents y.queue.0 ≡ drop 1 (contents one.queue.0)))
operations_View_example = operations_View counting hello one
