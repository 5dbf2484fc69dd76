-- ===== src/Queue/Chain.antt =====
-- The well-formed queue: a chain of nodes from the head to the tail, its nodes and bodies distinct
-- and allocated, and the messages that it holds.
use php_nsq.Prelude.{
  ℕ, ◌≡◌, refl, ap, ◌∙◌, ◌≢◌, Bool, true, false, ◌||◌, Option, none, some, List, [], ◌∷◌, ◌++◌, map,
  take, length, ◌==◌, arith,
}
use php_nsq.Queue.{Ptr, null, Pending, Node, Cell, node, block, Heap, write, Store}

-- A message with the addresses of its node and of its body.
pub record Entry : Type 0 where
  pub ptr : Ptr
  pub body : Ptr
  pub msg : Pending

-- What the queue keeps of a message: 16 bytes of the id, `body_len` bytes of the body.
abbrev pub kept : Pending → Pending
kept m = record m { message_id = take 16 m.message_id; body = take m.body_len m.body }

-- The node of an entry. Its message is one that the queue keeps.
abbrev pub node_of : Entry → Ptr → Node
node_of e next = record {
  message_id = e.msg.message_id ++ (0 ∷ []);
  body = e.body;
  body_len = e.msg.body_len;
  timestamp = e.msg.timestamp;
  attempts = e.msg.attempts;
  delay_time = e.msg.delay_time;
  auto_finish = e.msg.auto_finish;
  next = next;
}

abbrev pub has : Ptr → List Entry → Bool
has a [] = false
has a (e ∷ es) = (a == e.ptr) || ((a == e.body) || has a es)

abbrev pub first : List Entry → Ptr → Ptr
first [] stop = stop
first (e ∷ es) stop = e.ptr

abbrev pub last_entry : Entry → List Entry → Entry
last_entry e [] = e
last_entry e (f ∷ es) = last_entry f es

abbrev pub last : List Entry → Ptr
last [] = null
last (e ∷ es) = (last_entry e es).ptr

-- The two cells of an entry, in front of the entries `es`.
pub record Holds (h : Heap) (e : Entry) (next : Ptr) (es : List Entry) : Type 0 where
  pub ptr_ne : e.ptr ≢ null
  pub body_ne : e.body ≢ null
  pub at_ptr : h e.ptr ≡ some (node (node_of e next))
  pub at_body : h e.body ≡ some (block (e.msg.body ++ (0 ∷ [])))
  pub apart : e.ptr ≢ e.body
  pub ptr_out : has e.ptr es ≡ false
  pub body_out : has e.body es ≡ false

-- From the first entry the `next` pointers lead through the entries to `stop`.
abbrev pub Chain : Heap → Ptr → List Entry → Type 0
Chain h stop [] = Unit
Chain h stop (e ∷ es) = Holds h e (first es stop) es × Chain h stop es

pub record IsQueue (s : Store) (es : List Entry) : Type 0 where
  pub chain : Chain s.heap null es
  pub head : s.head ≡ first es null
  pub tail : s.tail ≡ last es
  pub count : s.count ≡ length es

-- The messages that a queue holds, the oldest first.
abbrev pub messages : List Entry → List Pending
messages = map (λ e. e.msg)

-- `g` differs from `h` at most at the addresses of `es`.
abbrev pub SameOutside : List Entry → Heap → Heap → Type 0
SameOutside es h g = (a : Ptr) → has a es ≡ false → g a ≡ h a

-- No leak: every allocated address is that of a node or a body of `es`.
abbrev pub Owned : Heap → List Entry → Type 0
Owned h es = (a : Ptr) → has a es ≡ false → h a ≡ none

-- Nothing is allocated.
abbrev pub IsFreed : Heap → Type 0
IsFreed h = (a : Ptr) → h a ≡ none

pub not_null : (p : Ptr) → p ≢ null → (p == null) ≡ false
not_null p ne = ground arith

pub write_other : (h : Heap) (p : Ptr) (c : Option Cell) (a : Ptr) → a ≢ p → write h p c a ≡ h a
unfolding write
write_other h p c a ne = ground arith

pub write_self : (h : Heap) (p : Ptr) (c : Option Cell) → write h p c p ≡ c
unfolding write
write_self h p c = ground arith

pub ne_of_has : (a b : Ptr) (es : List Entry) → has a es ≡ false → has b es ≡ true → a ≢ b
ne_of_has a b es p q e = cc (ap (λ (x : ℕ). has x es) e)

pub Holds-write :
    (h : Heap) (e : Entry) (next : Ptr) (es : List Entry) (p : Ptr) (c : Option Cell)
    → e.ptr ≢ p
    → e.body ≢ p
    → Holds h e next es
    → Holds (write h p c) e next es
Holds-write h e next es p c ne ne' x = record {
  ptr_ne = x.ptr_ne;
  body_ne = x.body_ne;
  at_ptr = rw (write_other h p c e.ptr ne) x.at_ptr;
  at_body = rw (write_other h p c e.body ne') x.at_body;
  apart = x.apart;
  ptr_out = x.ptr_out;
  body_out = x.body_out;
}

module _ (h : Heap) (stop : Ptr) where
  -- A write to another address keeps a chain.
  pub Chain-write :
      (es : List Entry) (a : Ptr) (c : Option Cell)
      → has a es ≡ false
      → Chain h stop es
      → Chain (write h a c) stop es
  Chain-write [] a c out ch = tt
  Chain-write (e ∷ es) a c out (x, ch) = (
    Holds-write h e (first es stop) es a c (ground arith) (ground arith) x,
    Chain-write es a c (ground arith) ch,
  )

  pub not_has_of_none :
      (es : List Entry) (a : Ptr) → Chain h stop es → h a ≡ none → has a es ≡ false
  not_has_of_none [] a ch unused = refl
  not_has_of_none (e ∷ es) a (x, ch) unused =
      ground (arith, not_has_of_none es a ch unused, x.at_ptr, x.at_body)

  pub last_ne_null : (e : Entry) (es : List Entry) → Chain h stop (e ∷ es) → last (e ∷ es) ≢ null
  last_ne_null e [] (x, ch) = x.ptr_ne
  last_ne_null e (f ∷ es) (x, ch) = last_ne_null f es ch

  pub at_last :
      (e : Entry) (es : List Entry)
      → Chain h stop (e ∷ es)
      → h (last (e ∷ es)) ≡ some (node (node_of (last_entry e es) stop))
  at_last e [] (x, ch) = x.at_ptr
  at_last e (f ∷ es) (x, ch) = at_last f es ch

pub has-last : (e : Entry) (es : List Entry) → has (last (e ∷ es)) (e ∷ es) ≡ true
has-last e [] = ground arith
has-last e (f ∷ es) = ground (arith, has-last f es)

pub has-append : (a : Ptr) (xs ys : List Entry) → has a (xs ++ ys) ≡ (has a xs || has a ys)
has-append a [] ys = refl
has-append a (x ∷ xs) ys = ground (arith, has-append a xs ys)

-- Where nothing outside `es` and one more entry has changed, nothing is leaked.
pub Owned-append :
    (es fs : List Entry) (h g : Heap) → SameOutside (es ++ fs) h g → Owned h es → Owned g (es ++ fs)
Owned-append es fs h g same own a out = same a out ∙ own a (ground (arith, has-append a es fs, out))
