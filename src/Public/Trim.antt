-- ===== src/Public/Trim.antt =====
-- public/qc_public.cc: Rtrim and Ltrim. A C string is the list of its characters before the
-- terminating zero; a null pointer, which Rtrim returns from at once, is left out.
pub mod Padded
pub mod Spaces
mod Tests
use quick_comm.Base.{ℕ, zero, suc, not, List, [], ◌∷◌, ◌==◌, if◌then◌else◌, length, get_or, take}

-- ' '
abbrev pub space : ℕ
space = 32

-- while (len > 0 && string[len-1] == ' ') string[--len] = 0;
pub rtrim_loop : ℕ → List ℕ → List ℕ
rtrim_loop zero string = string
rtrim_loop (suc len) string =
    let shorter = rtrim_loop len (take len string) in
    if get_or string len 0 == space then shorter else string

-- Rtrim
unfoldable pub rtrim : List ℕ → List ℕ
unfolding rtrim_loop
rtrim string = rtrim_loop (length string) string

pub skip_spaces : List ℕ → List ℕ
skip_spaces [] = []
skip_spaces (c ∷ string) = if c == space then skip_spaces string else c ∷ string

-- Ltrim: what stands at `string` when the characters behind the spaces are copied to its front.
unfoldable pub ltrim : List ℕ → List ℕ
unfolding skip_spaces
ltrim [] = []
ltrim (c ∷ string) = if not (c == space) then c ∷ string else skip_spaces (c ∷ string)
