-- ===== src/Lookup/Tests.antt =====
-- An address that fits, one that does not, and a resolver that fails.
use php_nsq.Prelude.{◌+◌, ◌≤◌, ◌≡◌, refl, ◌↔◌, false, none, some, Bytes, length, codes}
use php_nsq.Print.{c_string}
use php_nsq.Lookup.{starts_with, contains, lookup_url, url_in_block}
use php_nsq.Lookup.Url.{url_in_block_overflow}

abbrev host : Bytes
host = codes "127.0.0.1:4161"

url_in_block_run :
    url_in_block host (codes "orders") ≡ some (codes "http://127.0.0.1:4161/lookup?topic=orders")
unfolding url_in_block lookup_url contains starts_with c_string
url_in_block_run = refl

host_plain : contains (codes "http://") (c_string host) ≡ false
unfolding contains starts_with c_string
host_plain = refl

url_in_block_overflow_example :
    (url_in_block host (codes "orders") ≡ none)
    ↔ (123 ≤ length (c_string host) + length (c_string (codes "orders")))
url_in_block_overflow_example = url_in_block_overflow host (codes "orders") host_plain
