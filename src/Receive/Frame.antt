-- ===== src/Receive/Frame.antt =====
-- The frames of the protocol, as nsqd sends them: a size of four bytes, a type of four bytes, data.
use php_nsq.Prelude.{
  ℕ, ◌-◌, ◌<◌, ◌^◌, ◌≡◌, Bytes, List, [], ◌∷◌, ◌++◌, All, IsByte, codes, length, ◌==◌,
  if◌then◌else◌, Bool, arith,
}
use php_nsq.Wire.{ℤ, htonl_bytes}
use php_nsq.Wire.BigEndian.{be_value, mem_of}
use php_nsq.Command.{Output, queued}
use php_nsq.Queue.{Pending}

-- A response, such as `OK` or `_heartbeat_`, or a message: 8 bytes of timestamp, 2 of attempts, 16
-- of id, and the body.
pub data Frame : Type 0 where
  response : Bytes → Frame
  message : (stamp attempts id body : Bytes) → Frame

abbrev pub heartbeat : Frame
heartbeat = response (codes "_heartbeat_")

abbrev pub payload : Frame → Bytes
payload (response text) = (0 ∷ 0 ∷ 0 ∷ 0 ∷ []) ++ text
payload (message stamp attempts id body) =
    (0 ∷ 0 ∷ 0 ∷ 2 ∷ []) ++ (stamp ++ (attempts ++ (id ++ body)))

unfoldable pub encode : Frame → Bytes
encode f = htonl_bytes (length (payload f)) ++ payload f

abbrev pub encode_all : List Frame → Bytes
encode_all [] = []
encode_all (f ∷ fs) = encode f ++ encode_all fs

abbrev Parts : Frame → Type 0
Parts (response text) = Unit
Parts (message stamp attempts id body) =
    (length stamp ≡ 8)
    × (length attempts ≡ 2)
    × (length id ≡ 16)
    × All IsByte stamp
    × All IsByte attempts

-- A frame whose fields have their widths and whose size is a positive `int32_t` short of 2^31 - 1.
pub record IsFrame (f : Frame) : Type 0 where
  pub parts : Parts f
  pub small : length (payload f) < 2 ^ 31 - 1

abbrev pub as_pending :
    (delay_time : ℤ) (auto_finish : Bool) (stamp attempts id body : Bytes) → Pending
as_pending delay_time auto_finish stamp attempts id body = record {
  message_id = id;
  body = body;
  body_len = length body;
  timestamp = be_value 8 (mem_of stamp);
  attempts = be_value 2 (mem_of attempts);
  delay_time = delay_time;
  auto_finish = auto_finish;
}

-- The messages that the queue should hold for some frames.
abbrev pub delivered : (delay_time : ℤ) → (auto_finish : Bool) → List Frame → List Pending
delivered delay_time auto_finish [] = []
delivered delay_time auto_finish (response text ∷ fs) = delivered delay_time auto_finish fs
delivered delay_time auto_finish (message stamp attempts id body ∷ fs) =
    as_pending delay_time auto_finish stamp attempts id body ∷ delivered delay_time auto_finish fs

-- One NOP for each response of the size of a heartbeat.
abbrev pub nops : List Frame → List Output
nops [] = []
nops (response text ∷ fs) = if length text == 11 then queued (codes "NOP\n") ∷ nops fs else nops fs
nops (message stamp attempts id body ∷ fs) = nops fs

pub length-htonl_bytes : (n : ℕ) → length (htonl_bytes n) ≡ 4
unfolding htonl_bytes
length-htonl_bytes n = omega arith
