-- ===== src/Misc/Crc/Tests.antt =====
-- Runs of the checksum of misc/qc_crc32.cc.
use Prim.Native.Nat.{bit_xor}
use quick_comm.Base.{ℕ, ◌<◌, ◌^◌, ◌≡◌, ◌≢◌, All, List, [], ◌∷◌, arith}
use quick_comm.Misc.Crc.{get_crc}
use quick_comm.Misc.Crc.Bitwise.{IsByte, crc_bits, get_crc-eq, get_crc-lt}
use quick_comm.Misc.Crc.Detect.{get_crc_detects}

-- The bytes of "123456789"
abbrev digits : List ℕ
digits = 49 ∷ 50 ∷ 51 ∷ 52 ∷ 53 ∷ 54 ∷ 55 ∷ 56 ∷ 57 ∷ []

digits_are_bytes : All IsByte digits
digits_are_bytes = (
  omega arith,
  (
    omega arith,
    (
      omega arith,
      (omega arith, (omega arith, (omega arith, (omega arith, (omega arith, (omega arith, tt)))))),
    ),
  ),
)

get_crc-eq_example : get_crc digits ≡ bit_xor (crc_bits 0xffff_ffff digits) 0xffff_ffff
get_crc-eq_example = get_crc-eq digits digits_are_bytes

get_crc-lt_example : get_crc digits < 2 ^ 32
get_crc-lt_example = get_crc-lt digits digits_are_bytes

get_crc_detects_example : get_crc (49 ∷ 50 ∷ 51 ∷ []) ≢ get_crc (49 ∷ 58 ∷ 51 ∷ [])
get_crc_detects_example =
    get_crc_detects (49 ∷ []) (51 ∷ []) 50 58 (omega arith, tt) (omega arith, tt) (omega arith)
      (omega arith) (omega arith)
