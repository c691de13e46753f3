-- ===== src/Net/Address/Tests.antt =====
-- The text of 192.168.0.7:8080.
use quick_comm.Base.{
  zero, suc, ◌<◌, ℕ, ◌≤◌, ◌≡◌, refl, true, false, some, codes, length, take, get_or, [], ◌∷◌, arith,
}
use quick_comm.Public.Format.{ByteList, vslprintf, snprintf}
use quick_comm.Proc.Main.{no_doubles}
use quick_comm.Net.Address.{SockAddr, sock_ntop}
use quick_comm.Net.Address.Numbers.{numbers, numbers_of, IsAddr}
use quick_comm.Net.Address.Dotted.{sock_ntop-Shows}

-- The byte at a place of 192.168.0.7
abbrev address_byte : ℕ → ℕ
address_byte i = get_or (192 ∷ 168 ∷ 0 ∷ 7 ∷ []) i 0

abbrev client : SockAddr
client = record { family = 2; addr = address_byte; port_high = 31; port_low = 144 }

whole_text : sock_ntop no_doubles client true 100 ≡ some (16, codes "192.168.0.7:8080")
unfolding sock_ntop snprintf vslprintf
whole_text = refl

short_text : sock_ntop no_doubles client false 9 ≡ some (9, codes "192.168.0")
unfolding sock_ntop snprintf vslprintf
short_text = refl

unknown_family : sock_ntop no_doubles (record client { family = 10 }) true 100 ≡ some (0, [])
unfolding sock_ntop
unknown_family = refl

byte_small : (i : ℕ) → address_byte i < 256
byte_small zero = omega arith
byte_small (suc zero) = omega arith
byte_small (suc (suc zero)) = omega arith
byte_small (suc (suc (suc zero))) = omega arith
byte_small (suc (suc (suc (suc i)))) = omega arith

client-IsAddr : IsAddr client
client-IsAddr = record { inet = refl; bytes = byte_small; high = omega arith; low = omega arith }

sock_ntop-Shows_example :
    (t : ByteList) × (length t ≤ 21)
    × (numbers 0 t ≡ numbers_of client true)
    × ((len : ℕ) → sock_ntop no_doubles client true len ≡ some (length (take len t), take len t))
    × ((len : ℕ) → 21 ≤ len → sock_ntop no_doubles client true len ≡ some (length t, t))
sock_ntop-Shows_example = sock_ntop-Shows no_doubles client true client-IsAddr
