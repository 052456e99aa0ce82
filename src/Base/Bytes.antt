-- ===== src/Base/Bytes.antt =====
-- Numbers of two, four and eight bytes, least byte first, at an offset of a list of bytes.
use Prim.Native.Nat.{ℕ, ◌+◌, ◌*◌, ◌^◌}
use mathlib.Core.List.{List}
use unix_like_operating_syst.Base.Lists.{get_or}

abbrev pub u16 : List ℕ → ℕ → ℕ
u16 bytes i = get_or bytes i 0 + get_or bytes (i + 1) 0 * 256

abbrev pub u32 : List ℕ → ℕ → ℕ
u32 bytes i = u16 bytes i + u16 bytes (i + 2) * 65536

abbrev pub u64 : List ℕ → ℕ → ℕ
u64 bytes i = u32 bytes i + u32 bytes (i + 4) * 2 ^ 32
