-- ===== src/Lookup.antt =====
-- nsq_lookupd.c, `lookup` and `request`: asking nsqlookupd for the producers of a topic. What the
-- library of libevent answers is a parameter.
pub mod Url
mod Tests
use php_nsq.Prelude.{
  ℕ, zero, suc, ◌+◌, Bool, true, false, ◌&&◌, Option, none, some, Bytes, List, [], ◌∷◌, ◌++◌,
  length, codes, ltb, ◌==◌, if◌then◌else◌,
}
use php_nsq.Wire.{ℤ, pos, negsuc}
use php_nsq.Print.{c_string}

-- The text starts with `prefix`.
unfoldable pub starts_with : (prefix text : Bytes) → Bool
starts_with [] text = true
starts_with (p ∷ prefix) [] = false
starts_with (p ∷ prefix) (c ∷ text) = (p == c) && starts_with prefix text

-- `strstr(text, part) != NULL`
unfoldable pub contains : (part text : Bytes) → Bool
contains part [] = starts_with part []
contains part (c ∷ text) =
    let rest = contains part text in if starts_with part (c ∷ text) then true else rest

-- `sizeof(host) + sizeof(topic) + 128`: two pointers of 8 bytes.
abbrev pub url_size : ℕ
url_size = 144

unfoldable pub lookup_url : (host topic : Bytes) → Bytes
lookup_url host topic =
    if contains (codes "http://") (c_string host)
    then c_string host ++ (codes "/lookup?topic=" ++ c_string topic)
    else codes "http://" ++ (c_string host ++ (codes "/lookup?topic=" ++ c_string topic))

-- `sprintf` into the block, the NUL included; `none` is a write behind it.
unfoldable pub url_in_block : (host topic : Bytes) → Option Bytes
url_in_block host topic =
    let url = lookup_url host topic in if ltb (length url) url_size then some url else none

-- What `evhttp_uri_parse` finds.
pub record Uri : Type 0 where
  pub host : Option Bytes
  pub port : ℤ
  pub path : Option Bytes

-- How the event loop of `request` ends: `FinshCallback` is called, with the body of the answer or with a
-- null pointer, or `ConnectionCloseCallback` ends it first.
pub data Answer : Type 0 where
  finished : Option Bytes → Answer
  closed_first : Answer

-- `FinshCallback`, and what `request` returns behind it: the body up to its first NUL. `none` reads
-- through the null pointer, or returns a pointer that nobody has set.
unfoldable pub finish_callback : Answer → Option Bytes
finish_callback (finished none) = none
finish_callback (finished (some body)) = some (c_string body)
finish_callback closed_first = none

-- The calls of libevent, in the order in which `request` makes them, and the answer of the server.
pub record Libevent : Type 0 where
  pub uri_parse : Bytes → Option Uri
  pub base_new : Bool
  pub dns_base_new : Bool
  pub connection_new : Bytes → ℕ → Bool
  pub answer_to : (host : Bytes) (port : ℕ) (request_url : Bytes) → Answer

abbrev pub port_of : ℤ → ℕ
port_of (pos n) = n
port_of (negsuc n) = 80

abbrev pub request_url_of : Option Bytes → Bytes → Bytes
request_url_of none url = codes "/"
request_url_of (some []) url = codes "/"
request_url_of (some (c ∷ path)) url = url

unfoldable pub request : Libevent → Bytes → Option Bytes
request lib url = elim (lib.uri_parse url) [
  | none ↦ some (codes "{\"message\":\"parse url failed!\"}")
  | some uri ↦
      if lib.base_new
      then (if lib.dns_base_new
          then elim uri.host [
            | none ↦ some (codes "{\"message\":\"stderr, parse host failed!\"}")
            | some host ↦
                if lib.connection_new host (port_of uri.port)
                then finish_callback
                    (lib.answer_to host (port_of uri.port) (request_url_of uri.path url))
                else some (codes "{\"message\":\"create evhttp connection failed!\"}")
          ]
          else some (codes "{\"message\":\"create dns base failed!\"}"))
      else some (codes "{\"message\":\"create event base failed!\"}")
]

unfoldable pub lookup : Libevent → (host topic : Bytes) → Option Bytes
lookup lib host topic = elim (url_in_block host topic) [ none ↦ none | some url ↦ request lib url ]

-- What `subscribe` does with the answer: `producers` is what the decoded JSON has under that key.
pub data Found (A : Type 0) : Type 0 where
  server_not_available : Found A
  topic_not_exists : Found A
  retry : Found A
  workers : List A → Found A

-- `producers_count < 1` waits ten seconds and asks again.
abbrev pub count_found : {A : Type 0} → Option (List A) → Found A
count_found none = topic_not_exists
count_found (some []) = retry
count_found (some (p ∷ ps)) = workers (p ∷ ps)

unfoldable pub found : {A : Type 0} (producers : Bytes → Option (List A)) → Bytes → Found A
found producers [] = server_not_available
found producers (c ∷ answer) = count_found (producers (c ∷ answer))
