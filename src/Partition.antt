-- ===== src/Partition.antt =====
-- pkg/partition: GPT and MBR partition tables. Block addresses are uint64 values; sizes in bytes are
-- natural numbers (Go's negative sizes have no case), far enough below 2^63 not to wrap when they are
-- rounded up to sectors.
pub mod Align
pub mod Gpt
pub mod Mbr
use fsforge.Common.{ℕ, ◌+◌, ◌-◌, ◌*◌, ◌/◌, Bytes}
use fsforge.Device.{Section}

pub data Error : Type 0 where
  no_specs fill_not_last disk_too_small bad_disk_size too_many_primaries device_error : Error

-- Go's (value, error) pair, or a panic.
pub data Result {ℓ} (A : Type ℓ) : Type ℓ where
  ok : A → Result A
  err : Error → Result A
  panic : Result A

infixl 5 ◌>>=◌
abbrev pub ◌>>=◌ {ℓ κ} : {A : Type ℓ} {B : Type κ} → Result A → (A → Result B) → Result B
ok a >>= f = f a
err e >>= f = err e
panic >>= f = panic

abbrev pub sector_size : ℕ
sector_size = 512

abbrev pub align_sectors : ℕ
align_sectors = 2048

-- A created partition; `end_lba` is inclusive.
pub record Partition : Type 0 where
  pub name : Bytes
  pub start_lba : ℕ
  pub end_lba : ℕ
  pub section : Section

-- `(lba + to - 1) / to * to`
unfoldable pub align : ℕ → ℕ → ℕ
align lba to = (lba + to - 1) / to * to
