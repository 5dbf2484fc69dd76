-- ===== src/Subscribe.antt =====
-- nsq.c, the method subscribe: the configuration is checked, nsqlookupd is asked until it knows a
-- producer, and the workers are started. The decoder of PHP's JSON, libevent and `fork` are parameters.
pub mod Retry
pub mod Greeting
mod Tests
use php_nsq.Prelude.{
  ℕ, zero, suc, ◌+◌, Bool, true, false, Option, none, some, Bytes, List, [], ◌∷◌, ◌++◌, ◌==◌,
  if◌then◌else◌,
}
use php_nsq.Wire.{ℤ}
use php_nsq.Exception.{
  ErrorCode, topic_key_required, channel_key_required, lookupd_server_not_available,
}
use php_nsq.Exception
use php_nsq.Lookup.{
  Libevent, lookup, Found, server_not_available, topic_not_exists, retry, workers, found,
}
use php_nsq.Worker.{Config, Producer, Master, rounds_of, start_workers}

-- The value of a key, as far as `subscribe` tells it apart.
pub data Setting : Type 0 where
  absent : Setting
  is_false : Setting
  is_true : Setting
  is_other : Setting

-- The array that PHP passes; a missing key is `none`.
pub record Passed : Type 0 where
  pub topic : Option Bytes
  pub channel : Option Bytes
  pub rdy : Option ℤ
  pub retry_delay_time : Option ℤ
  pub connect_num : Option ℤ
  pub auto_finish : Setting

-- All but the constant false counts as true.
abbrev pub set_false : Setting → Bool
set_false absent = false
set_false is_false = true
set_false is_true = false
set_false is_other = false

abbrev pub config_of : Passed → (topic channel : Bytes) → Config
config_of passed topic channel = record {
  topic = topic;
  channel = channel;
  rdy = passed.rdy;
  retry_delay_time = passed.retry_delay_time;
  connect_num = passed.connect_num;
  auto_finish_is_false = set_false passed.auto_finish;
}

-- How the rounds of `lookup` end; `asks_on` has used up the states of the network that are given.
pub data Looked : Type 0 where
  faulted : Looked
  refused : ErrorCode → Looked
  asks_on : Looked
  listed : (waits : ℕ) → List Producer → Looked

abbrev pub by_found : (waits : ℕ) → Looked → Found Producer → Looked
by_found n rest server_not_available = refused lookupd_server_not_available
by_found n rest topic_not_exists = refused Exception.topic_not_exists
by_found n rest retry = rest
by_found n rest (workers ps) = listed n ps

-- How the method ends. A first exception does not keep it from throwing another, nor from starting
-- workers: `pending` is what has been thrown then.
pub data Subscribed : Type 0 where
  thrown : List ErrorCode → Subscribed
  crashed : Subscribed
  retrying : Subscribed
  started : (pending : List ErrorCode) (waits : ℕ) → ℕ × Master → Subscribed

abbrev pub by_started : (pending : List ErrorCode) (waits : ℕ) → Option (ℕ × Master) → Subscribed
by_started before n none = crashed
by_started before n (some m) = started before n m

module _ (decode : Bytes → Option (List Producer)) (fork : ℕ → Option ℕ) where
  -- `lookup:` and the `goto` to it; each round meets its own state of the network.
  unfoldable pub look_up : (address topic : Bytes) → (waits : ℕ) → List Libevent → Looked
  look_up address topic n [] = asks_on
  look_up address topic n (lib ∷ libs) =
      let rest = look_up address topic (n + 1) libs in
      elim (lookup lib address topic) [
        | none ↦ faulted
        | some text ↦ by_found n rest (found decode text)
      ]

  abbrev pub start_with :
      Config → (pending : List ErrorCode) (waits : ℕ) → List Producer → Subscribed
  start_with config before n ps = by_started before n (start_workers fork config ps)

  -- A missing channel is read through a null pointer, in the first round over the producers.
  abbrev pub start_listed :
      Passed → (topic : Bytes) → (waits : ℕ) → List Producer → Option Bytes → Subscribed
  start_listed passed topic n ps (some channel) =
      start_with (config_of passed topic channel) [] n ps
  start_listed passed topic n ps none =
      if rounds_of passed.connect_num == 0
      then start_with (config_of passed topic []) (channel_key_required ∷ []) n ps
      else crashed

  abbrev pub by_looked : Passed → (topic : Bytes) → List ErrorCode → Looked → Subscribed
  by_looked passed topic before faulted = crashed
  by_looked passed topic before (refused code) = thrown (before ++ (code ∷ []))
  by_looked passed topic before asks_on = retrying
  by_looked passed topic before (listed n ps) = start_listed passed topic n ps passed.channel

  abbrev pub before_lookup : Option Bytes → List ErrorCode
  before_lookup none = channel_key_required ∷ []
  before_lookup (some channel) = []

  -- A missing topic ends the method; a missing channel does not.
  abbrev pub by_topic : (address : Bytes) → Passed → List Libevent → Option Bytes → Subscribed
  by_topic address passed libs none = thrown (topic_key_required ∷ [])
  by_topic address passed libs (some topic) =
      by_looked passed topic (before_lookup passed.channel) (look_up address topic 0 libs)

  unfoldable pub subscribe : (address : Bytes) → Passed → List Libevent → Subscribed
  subscribe address passed libs = by_topic address passed libs passed.topic
