-- ===== src/Wire/Tests.antt =====
-- Evaluations of the readers, and the theorems about them at concrete bytes.
use php_nsq.Prelude.{◌≡◌, refl, true, false, Bytes, [], ◌∷◌, none, some, codes, arith}
use php_nsq.Wire.{read_i16, read_i32, read_i64, ntoh64, signed32, negsuc, check_ipaddr}
use php_nsq.Wire.BigEndian.{be_value, mem_of, mem_of-IsByte}
use php_nsq.Wire.BigEndian.{readers-be_value}

abbrev eight : Bytes
eight = 0x81 ∷ 2 ∷ 3 ∷ 4 ∷ 5 ∷ 6 ∷ 7 ∷ 0xff ∷ []

read_i32_negative : signed32 (read_i32 (mem_of (255 ∷ 255 ∷ 255 ∷ 254 ∷ []))) ≡ negsuc 1
unfolding read_i32
read_i32_negative = refl

check_ipaddr_runs :
    (check_ipaddr (λ s. true) (λ s. false) none ≡ false)
    × (check_ipaddr (λ s. true) (λ s. false) (some []) ≡ false)
    × (check_ipaddr (λ s. false) (λ s. true) (some (codes "::1")) ≡ true)
unfolding check_ipaddr
check_ipaddr_runs = (refl, refl, refl)

readers-be_value_example :
    let d = mem_of eight in
    (read_i16 d ≡ be_value 2 d)
    × (read_i32 d ≡ be_value 4 d)
    × (read_i64 d ≡ be_value 8 d)
    × (ntoh64 d ≡ be_value 8 d)
readers-be_value_example = readers-be_value (mem_of eight) (mem_of-IsByte eight (omega arith))
