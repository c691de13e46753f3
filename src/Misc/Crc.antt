-- ===== src/Misc/Crc.antt =====
-- misc/qc_crc32.cc: the lookup table of CCRC32 and the checksum over a byte buffer.
-- An `unsigned int` is a number below 2 ^ 32; a left shift wraps.
pub mod Table
pub mod Bitwise
pub mod Detect
mod Tests
use Prim.Native.Nat.{bit_and, bit_or, bit_xor}
use quick_comm.Base.{
  ℕ, zero, suc, ◌+◌, ◌-◌, ◌*◌, ◌/◌, ◌%◌, ◌^◌, Bool, List, [], ◌∷◌, ◌==◌, if◌then◌else◌, get_or,
}

abbrev pub u32 : ℕ
u32 = 2 ^ 32

-- ulPolynomial
abbrev pub polynomial : ℕ
polynomial = 0x04c1_1db7

-- The rounds of `for (i = 1; i < ch + 1; i++)` that are left, from `i`.
reflect_loop : ℕ → ℕ → ℕ → ℕ → ℕ → ℕ
reflect_loop zero i ch ref value = value
reflect_loop (suc rounds) i ch ref value =
    reflect_loop rounds (i + 1) ch (ref / 2)
      (if bit_and ref 1 == 0 then value else bit_or value (2 ^ (ch - i) % u32))

-- CCRC32::Reflect
unfoldable pub reflect : ℕ → ℕ → ℕ
unfolding reflect_loop
reflect ref ch = reflect_loop ch 1 ch ref 0

-- crc32_table[i] = (crc32_table[i] << 1) ^ (crc32_table[i] & (1 << 31) ? ulPolynomial : 0)
unfoldable pub table_round : ℕ → ℕ
table_round c = bit_xor (c * 2 % u32) (if bit_and c (2 ^ 31) == 0 then 0 else polynomial)

table_rounds : ℕ → ℕ → ℕ
table_rounds zero c = c
table_rounds (suc n) c = table_rounds n (table_round c)

-- The entry that CCRC32::Init_CRC32_Table leaves at index i.
unfoldable pub table_entry : ℕ → ℕ
unfolding reflect table_round table_rounds
table_entry i = reflect (table_rounds 8 (reflect i 8 * 2 ^ 24 % u32)) 32

table_from : ℕ → ℕ → List ℕ
table_from zero i = []
table_from (suc n) i = table_entry i ∷ table_from n (i + 1)

-- CCRC32::Init_CRC32_Table
pub init_crc32_table : List ℕ
unfolding table_from
init_crc32_table = table_from 256 0

-- crc = (crc >> 8) ^ crc32_table[(crc & 0xFF) ^ *buffer++]
unfoldable pub crc_round : List ℕ → ℕ → ℕ → ℕ
crc_round table crc byte = bit_xor (crc / 2 ^ 8) (get_or table (bit_xor (bit_and crc 0xff) byte) 0)

crc_loop : List ℕ → ℕ → List ℕ → ℕ
crc_loop table crc [] = crc
crc_loop table crc (byte ∷ buffer) = crc_loop table (crc_round table crc byte) buffer

-- CCRC32::Get_CRC over the whole buffer, with the instance's table. The result is the bit pattern
-- of the `int` that the code returns.
unfoldable pub get_crc : List ℕ → ℕ
unfolding crc_loop
get_crc buffer = bit_xor (crc_loop init_crc32_table 0xffff_ffff buffer) 0xffff_ffff
