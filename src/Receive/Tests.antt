-- ===== src/Receive/Tests.antt =====
-- `readcb` on concrete bytes.
use php_nsq.Receive.Round.{IsIdle, IsWaiting}
use php_nsq.Prelude.{ℕ, ◌≡◌, refl, ◌≢◌, Bytes, [], ◌∷◌, ◌++◌, codes, false, arith}
use php_nsq.Wire.{read_i32, htonl_bytes}
use php_nsq.Wire.BigEndian.{mem_of}
use php_nsq.Receive.{Host, Reader, returned, crashed, still_running, readcb}
use php_nsq.Receive.Drain.{readcb_spins}
use php_nsq.Receive.Cut.{zero_bytes, readcb-cut_size}
use php_nsq.Receive.LostFrame.{typed, readcb-lost_message}
use php_nsq.Receive.ErrorFrame.{readcb-error_overflow}
use php_nsq.Receive.Sample.{bytes_input, queue, zeros, nines, reader, reader-IsIdle}

nine_stray : (a : ℕ) → (read_i32 (nines.fresh a) ≢ 0) × (read_i32 (nines.fresh a) ≢ 2)
unfolding read_i32
nine_stray a = (omega arith, omega arith)

readcb_spins_example : readcb bytes_input queue nines 1000 (reader nines []) ≡ still_running
readcb_spins_example =
    readcb_spins bytes_input queue nines nine_stray 1000 (reader nines []) (reader-IsIdle nines [])

-- An error frame as nsqd sends it for a late FIN, and a response behind it.
abbrev late_fin : Bytes
late_fin = codes "E_FIN_FAILED FIN failed"

error_type :
    (read_i32 (mem_of (0 ∷ 0 ∷ 0 ∷ 1 ∷ [])) ≢ 0) × (read_i32 (mem_of (0 ∷ 0 ∷ 0 ∷ 1 ∷ [])) ≢ 2)
unfolding read_i32
error_type = (omega arith, omega arith)

readcb-error_overflow_example :
    readcb bytes_input queue zeros 2 (
      reader zeros (
        (htonl_bytes 27 ++ ((0 ∷ 0 ∷ 0 ∷ 1 ∷ []) ++ late_fin))
        ++ (htonl_bytes 6 ++ ((0 ∷ 0 ∷ 0 ∷ 0 ∷ []) ++ codes "OK"))))
    ≡ crashed
readcb-error_overflow_example =
    readcb-error_overflow bytes_input queue zeros (0 ∷ 0 ∷ 0 ∷ 1 ∷ []) late_fin
      ((0 ∷ 0 ∷ 0 ∷ 0 ∷ []) ++ codes "OK") 0 _ [] refl error_type.0 error_type.1 (omega arith)
      (omega arith) (omega arith) (reader-IsIdle zeros _)

zeros_settle : read_i32 (zeros.fresh 0) ≡ 0
unfolding read_i32
zeros_settle = refl

-- Three bytes of the size 291: they make 256.
readcb-cut_size_example :
    (r' : Reader bytes_input queue zeros) × (readcb bytes_input queue zeros 1
        (reader zeros (0 ∷ 0 ∷ 1 ∷ []))
      ≡ returned r')
    × IsWaiting bytes_input queue zeros r' (zero_bytes 256) [] [] [] []
unfolding read_i32
readcb-cut_size_example =
    readcb-cut_size bytes_input queue zeros (0 ∷ 0 ∷ 1 ∷ []) 0 (reader zeros (0 ∷ 0 ∷ 1 ∷ []))
      (omega arith) (omega arith) (reader-IsIdle zeros (0 ∷ 0 ∷ 1 ∷ [])) zeros_settle

-- An allocator that refuses every block, and a message whose body has one byte.
abbrev frugal : Host
frugal = record zeros { malloc_works = λ n. false }

abbrev one_byte : Bytes
one_byte = codes "\0\0\0\0\0\0\0\t\0\00123456789abcdef!"

readcb-lost_message_example :
    (r' : Reader bytes_input queue frugal) × (readcb bytes_input queue frugal 2
        (reader frugal (htonl_bytes 31 ++ typed one_byte))
      ≡ readcb bytes_input queue frugal 1 r')
    × IsIdle bytes_input queue frugal r' [] [] []
unfolding htonl_bytes
readcb-lost_message_example =
    readcb-lost_message bytes_input queue frugal one_byte 1
      (reader frugal (htonl_bytes 31 ++ typed one_byte)) [] (λ h. ground arith) (omega arith)
      (reader-IsIdle frugal (htonl_bytes 31 ++ typed one_byte))
