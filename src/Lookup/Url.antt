-- ===== src/Lookup/Url.antt =====
-- The length of the address that is asked, and the failures of `request`.
use php_nsq.Prelude.{
  ◌+◌, ◌≤◌, ◌≡◌, refl, ◌↔◌, ◌⊎◌, All, ◌≢◌, false, Option, none, some, Bytes, List, ◌++◌, length,
  length-append, codes, Bool-cases, inl, inr, arith,
}
use php_nsq.Print.{c_string}
use php_nsq.Lookup.{
  contains, lookup_url, url_in_block, Uri, Libevent, request, Found, topic_not_exists, found,
}

url_in_block-none :
    (host topic : Bytes) → (url_in_block host topic ≡ none) ↔ (144 ≤ length (lookup_url host topic))
unfolding url_in_block
url_in_block-none host topic = ground arith

length-lookup_url :
    (host topic : Bytes)
    → contains (codes "http://") (c_string host) ≡ false
    → length (lookup_url host topic) ≡ 21 + length (c_string host) + length (c_string topic)
unfolding lookup_url
length-lookup_url host topic plain =
    rw plain
      (omega (arith, length-append (c_string host) (codes "/lookup?topic=" ++ c_string topic)))

-- For a host without a scheme, `lookup` writes behind its block exactly when host and topic have 123
-- bytes or more.
pub url_in_block_overflow :
    (host topic : Bytes)
    → contains (codes "http://") (c_string host) ≡ false
    → (url_in_block host topic ≡ none) ↔ (123 ≤ length (c_string host) + length (c_string topic))
url_in_block_overflow host topic plain =
    let long = length-lookup_url host topic plain in
    let (there, back) = url_in_block-none host topic in
    (λ e. omega (arith, there e, long), λ h. back (omega (arith, long)))

-- No quote and no backslash.
abbrev pub IsQuotable : Bytes → Type 0
IsQuotable = All (λ c. (c ≢ 34) × (c ≢ 92))

abbrev pub error_text : Bytes → Bytes
error_text m = codes "{\"message\":\"" ++ (m ++ codes "\"}")

-- A decoder that finds no producers in an object with a message only.
abbrev pub IsDecoder : {A : Type 0} → (Bytes → Option (List A)) → Type 0
IsDecoder producers = (m : Bytes) → IsQuotable m → producers (error_text m) ≡ none

-- What `subscribe` makes of an answer that is not lost.
abbrev pub TakenFor : {A : Type 0} → (Bytes → Option (List A)) → Option Bytes → Found A → Type 0
TakenFor producers answer f = (text : Bytes) × (answer ≡ some text) × (found producers text ≡ f)

module _ {A : Type 0} (producers : Bytes → Option (List A)) (decodes : IsDecoder producers) where
  found-error_text : (m : Bytes) → IsQuotable m → found producers (error_text m) ≡ topic_not_exists
  unfolding found
  found-error_text m h = rw (decodes m h)

  taken :
      (answer : Option Bytes) (m : Bytes)
      → IsQuotable m
      → answer ≡ some (error_text m)
      → TakenFor producers answer topic_not_exists
  taken answer m h e = (error_text m, e, found-error_text m h)

  -- When libevent refuses the address, the event base or the resolver, `subscribe` takes the text that
  -- `request` gives for that of a missing topic, not for a server that is not available.
  found-request :
      (lib : Libevent) (url : Bytes)
      → (lib.uri_parse url ≡ none) ⊎ ((lib.base_new ≡ false) ⊎ (lib.dns_base_new ≡ false))
      → TakenFor producers (request lib url) topic_not_exists
  unfolding request
  found-request lib url failure = go (lib.uri_parse url) refl failure
    where
      go :
          (p : Option Uri)
          → lib.uri_parse url ≡ p
          → (p ≡ none) ⊎ ((lib.base_new ≡ false) ⊎ (lib.dns_base_new ≡ false))
          → TakenFor producers (request lib url) topic_not_exists
      go none e h =
          taken (request lib url) (codes "parse url failed!") (omega arith) (rw (request, e))
      go (some uri) e h = elim (Bool-cases lib.base_new) [
        | inl based ↦ elim (Bool-cases lib.dns_base_new) [
          | inl resolves ↦ absurd (ground arith)
          | inr no_resolver ↦
              taken (request lib url) (codes "create dns base failed!") (omega arith)
                (rw (request, e, based, no_resolver))
        ]
        | inr no_base ↦
            taken (request lib url) (codes "create event base failed!") (omega arith)
              (rw (request, e, no_base))
      ]
