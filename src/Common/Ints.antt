-- ===== src/Common/Ints.antt =====
-- The moduli of Go's unsigned integer types.
use Prim.Native.Nat.{ℕ, ◌^◌}

abbrev pub u64 : ℕ
u64 = 2 ^ 64

abbrev pub u32 : ℕ
u32 = 2 ^ 32
