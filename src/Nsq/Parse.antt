-- ===== src/Nsq/Parse.antt =====
-- The addresses that connectNsqd is given.
use php_nsq.Prelude.{
  ℕ, ◌+◌, ◌<◌, ◌≡◌, ◌≢◌, refl, none, some, Bytes, List, [], ◌∷◌, ◌++◌, map, All, length, lt→ltb,
  le→not_ltb, arith,
}
use php_nsq.Print.Digits.{c_string-id}
use php_nsq.Connection.{Address}
use php_nsq.Nsq.{copied, parsed, parsed_all}

-- A host without NUL and colon, and a port without NUL.
pub record IsAddress (a : Address) : Type 0 where
  pub host_text : All (λ c. (c ≢ 0) × (c ≢ b':')) a.host
  pub port_text : All (λ c. c ≢ 0) a.port

-- The blocks for host and port happen to be longer than what is asked for, so that the NUL fits.
abbrev pub HasRoom : (room : ℕ → ℕ) → Address → Type 0
HasRoom room a = (length a.host < room (length a.host)) × (length a.port < room (length a.port))

abbrev pub text_of : Address → Bytes
text_of a = a.host ++ (b':' ∷ a.port)

-- PHP's `explode` with a limit of one cut: the text before the first colon, and the text behind it.
abbrev pub IsExplode : (Bytes → List Bytes) → Type 0
IsExplode explode =
    (host port : Bytes)
    → All (λ c. c ≢ b':') host
    → explode (host ++ (b':' ∷ port)) ≡ host ∷ port ∷ []

no_nul : (s : Bytes) → All (λ c. (c ≢ 0) × (c ≢ b':')) s → All (λ c. c ≢ 0) s
no_nul [] h = tt
no_nul (c ∷ s) h = (h.0.0, no_nul s h.1)

no_colon : (s : Bytes) → All (λ c. (c ≢ 0) × (c ≢ b':')) s → All (λ c. c ≢ b':') s
no_colon [] h = tt
no_colon (c ∷ s) h = (h.0.1, no_colon s h.1)

copied-some :
    (room : ℕ → ℕ) (s : Bytes)
    → length s < room (length s)
    → All (λ c. c ≢ 0) s
    → copied room s ≡ some s
unfolding copied
copied-some room s enough text =
    rw (c_string-id s text, le→not_ltb (room (length s)) (length s + 1) (omega arith))

copied-none :
    (room : ℕ → ℕ) (s : Bytes)
    → room (length s) ≡ length s
    → All (λ c. c ≢ 0) s
    → copied room s ≡ none
unfolding copied
copied-none room s exact text =
    rw (c_string-id s text, lt→ltb (room (length s)) (length s + 1) (omega arith))

module _ (room : ℕ → ℕ) (explode : Bytes → List Bytes) (splits : IsExplode explode) where
  -- Where the allocator gives no more bytes for the host than it is asked for, `strcpy` writes its NUL
  -- behind the block.
  parsed_overflow :
      (a : Address)
      → IsAddress a
      → room (length a.host) ≡ length a.host
      → parsed room explode (text_of a) ≡ none
  unfolding parsed
  parsed_overflow a v exact = rw (
    parsed,
    splits a.host a.port (no_colon a.host v.host_text),
    copied-none room a.host exact (no_nul a.host v.host_text),
  )

  parsed-text_of :
      (a : Address) → IsAddress a → HasRoom room a → parsed room explode (text_of a) ≡ some a
  unfolding parsed
  parsed-text_of a v enough = rw (
    parsed,
    splits a.host a.port (no_colon a.host v.host_text),
    copied-some room a.host enough.0 (no_nul a.host v.host_text),
    copied-some room a.port enough.1 v.port_text,
  )

  -- Where the blocks have room for the NUL, the addresses that are printed as host, colon and port are
  -- read back as they are.
  pub parsed_all-text_of :
      (addresses : List Address)
      → All IsAddress addresses
      → All (HasRoom room) addresses
      → parsed_all room explode (map text_of addresses) ≡ some addresses
  unfolding parsed_all
  parsed_all-text_of [] v enough = refl
  parsed_all-text_of (a ∷ rest) v enough =
      rw (parsed_all, parsed-text_of a v.0 enough.0, parsed_all-text_of rest v.1 enough.1)
