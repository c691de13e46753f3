-- ===== src/Misc/Crc/Table.antt =====
-- The table of Init_CRC32_Table against the bitwise definition of the reflected CRC-32.
use Prim.Native.Nat.{bit_xor}
use quick_comm.Base.{
  ℕ, zero, suc, ◌+◌, ◌*◌, ◌/◌, ◌%◌, ◌<◌, ◌≡◌, refl, ap, ◌∙◌, Bool, true, ◌&&◌, ◌==◌, ==_iff,
  &&_left, &&_right, get_or, arith,
}
use quick_comm.Misc.Crc.{table_entry, table_from, init_crc32_table}

-- One bit of the reflected CRC-32, with the reflected polynomial.
unfoldable pub bit_round : ℕ → ℕ
bit_round c = bit_xor (c / 2) (c % 2 * 0xedb8_8320)

abbrev pub byte_rounds : ℕ → ℕ
byte_rounds c =
    bit_round (bit_round (bit_round (bit_round (bit_round (bit_round (bit_round (bit_round c)))))))

-- The entries of an interval, each compared by evaluation.
agree_from : ℕ → ℕ → Bool
agree_from zero i = true
agree_from (suc rounds) i = (table_entry i == byte_rounds i) && agree_from rounds (i + 1)

agree_at :
    (rounds i k : ℕ)
    → agree_from rounds i ≡ true
    → k < rounds
    → (table_entry (i + k) == byte_rounds (i + k)) ≡ true
unfolding agree_from
agree_at zero i k all l = absurd (omega arith)
agree_at (suc rounds) i zero all l =
    ap (λ n. table_entry n == byte_rounds n) (omega arith)
    ∙ &&_left (table_entry i == byte_rounds i) (agree_from rounds (i + 1)) all
agree_at (suc rounds) i (suc k) all l =
    ap (λ n. table_entry n == byte_rounds n) (omega arith)
    ∙ agree_at rounds (i + 1) k
        (&&_right (table_entry i == byte_rounds i) (agree_from rounds (i + 1)) all) (omega arith)

entries_agree : agree_from 256 0 ≡ true
unfolding agree_from table_entry bit_round
entries_agree = refl

-- Each of the 256 entries that Init_CRC32_Table makes by reflections and shifts is eight rounds of
-- the bitwise checksum on its index.
pub table_entry-eq : (i : ℕ) → i < 256 → table_entry i ≡ byte_rounds i
table_entry-eq i h =
    (==_iff (table_entry i) (byte_rounds i)).0
      (ap (λ n. table_entry n == byte_rounds n) (omega arith) ∙ agree_at 256 0 i entries_agree h)

get_or-table_from :
    (n start i : ℕ) → i < n → get_or (table_from n start) i 0 ≡ table_entry (start + i)
unfolding table_from
get_or-table_from zero start i h = absurd (omega arith)
get_or-table_from (suc n) start zero h = ap table_entry (omega arith)
get_or-table_from (suc n) start (suc i) h =
    get_or-table_from n (start + 1) i (omega arith) ∙ ap table_entry (omega arith)

-- The entry that a lookup below 256 reads.
pub get_or-init_crc32_table : (i : ℕ) → i < 256 → get_or init_crc32_table i 0 ≡ byte_rounds i
unfolding init_crc32_table
get_or-init_crc32_table i h =
    get_or-table_from 256 0 i h ∙ ap table_entry (omega arith) ∙ table_entry-eq i h
