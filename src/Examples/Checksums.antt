-- ===== src/Examples/Checksums.antt =====
-- raw_socket/utils.c on a short message with a checksum field, and on one with an odd length.
use eltex.Base.{ℕ, ◌≡◌, ◌≢◌, ◌<◌, ◌%◌, ◌/◌, refl, some, List, [], ◌∷◌, ◌++◌, ◌-◌, arith}
use eltex.Checksum.{checksum, checksum_long}
use eltex.Checksum.Sums.{words}
use eltex.Checksum.Reference.{ones_sum, checksum-ones_sum}
use eltex.Checksum.Verify.{message, checksum_stored, checksum_detects}

-- A run of five bytes, and what follows it in memory.
abbrev bytes : List ℕ
bytes = 0x45 ∷ 0 ∷ 0xff ∷ 0xff ∷ 7 ∷ []

abbrev behind : List ℕ
behind = 1 ∷ []

checksum-ones_sum_example :
    (checksum (bytes ++ behind) 5 ≡ some (65535 - ones_sum (words bytes)))
    × (checksum_long (bytes ++ behind) 5 ≡ some (65535 - ones_sum (words bytes)))
checksum-ones_sum_example = checksum-ones_sum bytes behind (omega arith) (omega arith)

-- An echo request: type and code, then the checksum, then the identifier.
abbrev before_sum : List ℕ
before_sum = 8 ∷ 0 ∷ []

abbrev after_sum : List ℕ
after_sum = 0x12 ∷ 0x34 ∷ []

checksum_stored_example :
    (c : ℕ) × (checksum (message before_sum 0 0 after_sum ++ behind) 6 ≡ some c)
    × (c < 65536)
    × (checksum (message before_sum (c % 256) (c / 256) after_sum ++ behind) 6 ≡ some 0)
checksum_stored_example =
    checksum_stored 1 before_sum after_sum behind refl (omega arith) (omega arith) (omega arith)

checksum_detects_example :
    checksum (message before_sum 1 2 after_sum ++ behind) 6
    ≢ checksum (message before_sum 1 3 after_sum ++ behind) 6
checksum_detects_example =
    checksum_detects 1 before_sum after_sum behind refl (omega arith) (omega arith) (omega arith) 1
      2 1 3 (omega arith) (omega arith) (omega arith) (omega arith) (omega arith)
