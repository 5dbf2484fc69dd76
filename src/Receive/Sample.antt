-- ===== src/Receive/Sample.antt =====
-- Samples for the tests: a list of bytes as input, the linked queue with an allocator that counts
-- upwards, buffers that happen to hold zeros, and a message.
use php_nsq.Prelude.{
  ℕ, suc, ◌≤◌, ◌<◌, ◌≡◌, refl, ◌≢◌, true, none, Bytes, [], ◌∷◌, take, drop, codes, arith,
}
use php_nsq.Wire.{pos}
use php_nsq.Wire.BigEndian.{mem_of}
use php_nsq.Queue.{Heap}
use php_nsq.Receive.{Input, MessageQueue, Host, Reader}
use php_nsq.Receive.Frame.{Frame, message, heartbeat, IsFrame}
use php_nsq.Receive.Round.{IsIdle}
use php_nsq.Receive.Backing.{Malloc, linked_queue, Holding}

abbrev pub bytes_input : Input
bytes_input = record {
  Buf = Bytes;
  contents = λ b. b;
  read = λ n b. (take n b, drop n b);
  read_bytes = λ n b. refl;
  read_rest = λ n b. refl;
}

-- Every address from the counter on is free.
abbrev pub Above : ℕ → Heap → Type 0
Above n h = (0 < n) × ((b : ℕ) → n ≤ b → h b ≡ none)

pub Above-free : (n : ℕ) (h : Heap) → Above n h → h n ≡ none
Above-free n h fits = fits.1 n (omega arith)

pub Above-next :
    (n : ℕ) (h g : Heap) → Above n h → ((b : ℕ) → b ≢ n → h b ≡ none → g b ≡ none) → Above (suc n) g
Above-next n h g (p, f) keep = (omega arith, λ b le. keep b (omega arith) (f b (omega arith)))

pub Above-ne : (n : ℕ) (h : Heap) → Above n h → n ≢ 0
Above-ne n h (p, f) = omega arith

abbrev pub counting : Malloc
counting = record {
  State = ℕ;
  malloc = λ n. (n, suc n);
  Fits = Above;
  malloc-ne_null = Above-ne;
  malloc-free = Above-free;
  malloc-Fits = Above-next;
  reclaim = λ n g. n;
  reclaim-Fits = λ n h g fits keep. (fits.0, λ b le. keep b (fits.1 b le));
}

abbrev pub queue : MessageQueue
queue = linked_queue counting

abbrev pub zeros : Host
zeros = record {
  fresh = λ a i. 0;
  malloc_works = λ n. true;
  delay_time = pos 5000;
  auto_finish = true;
}

-- Buffers that happen to start with 0, 0, 0, 9.
abbrev pub nines : Host
nines = record zeros { fresh = λ a. mem_of (0 ∷ 0 ∷ 0 ∷ 9 ∷ []) }

abbrev pub hello : Frame
hello = message (codes "\0\0\0\0\0\0\0\t") (0 ∷ 3 ∷ []) (codes "0123456789abcdef") (codes "hello")

pub hello-IsFrame : IsFrame hello
hello-IsFrame = record { parts = (refl, refl, refl, omega arith, omega arith); small = omega arith }

pub heartbeat-IsFrame : IsFrame heartbeat
heartbeat-IsFrame = record { parts = tt; small = omega arith }

-- A reader between two frames, with an empty queue and these bytes to read.
abbrev pub reader : (host : Host) → Bytes → Reader bytes_input queue host
reader host bytes = record {
  is_first = true;
  l = 0;
  message = λ i. 0;
  room = 0;
  size = 0;
  allocs = 0;
  input = bytes;
  queue = (record { heap = λ _. none; head = 0; tail = 0; count = 0 }, 1);
  out = [];
}

pub empty-Holding :
    Holding counting (record { heap = λ _. none; head = 0; tail = 0; count = 0 }, 1) []
unfolding Holding
empty-Holding = (
  [],
  record { chain = tt; head = refl; tail = refl; count = refl },
  refl,
  (omega arith, λ b h. refl),
  λ b out. refl,
)

pub reader-IsIdle :
    (host : Host) (bytes : Bytes) → IsIdle bytes_input queue host (reader host bytes) bytes [] []
reader-IsIdle host bytes = record {
  first = refl;
  l = refl;
  input = refl;
  queue = empty-Holding;
  out = refl;
}
