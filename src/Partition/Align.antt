-- ===== src/Partition/Align.antt =====
-- What `align` rounds to.
use fsforge.Common.{ℕ, ◌%◌, ◌≤◌, ◌≡◌, arith}
use fsforge.Partition.{align, align_sectors}

pub align-ge : (v : ℕ) → v ≤ align v align_sectors
unfolding align
align-ge v = omega arith

pub align-IsAligned : (v : ℕ) → align v align_sectors % align_sectors ≡ 0
unfolding align
align-IsAligned v = omega arith
