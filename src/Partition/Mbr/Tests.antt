-- ===== src/Partition/Mbr/Tests.antt =====
-- Runs of `FormatMBR`.
use fsforge.Common.{ℕ, ◌*◌, ◌/◌, ◌+◌, ◌≤◌, ◌≡◌, refl, [], ◌∷◌, true, false, arith}
use fsforge.Partition.{align, align_sectors}
use fsforge.Partition.Mbr.{MbrSpec, build_mbr, primary, secs_of, remaining}
use fsforge.Partition.Mbr.Layout.{build_mbr_outside, parts_of}

abbrev root : MbrSpec
root = record { type_byte = 131; size = 2048 * 512; bootable = true }

abbrev rest : MbrSpec
rest = record { type_byte = 131; size = 0; bootable = false }

-- A disk of 5000 sectors, of which the first spec takes all but 500 of those behind sector 2048.
abbrev most : MbrSpec
most = record { type_byte = 131; size = 2452 * 512; bootable = true }

build_mbr_outside_example :
    let c : ℕ = align (align_sectors + secs_of most) align_sectors in
    (parts_of (build_mbr (5000 * 512) (most ∷ rest ∷ []))
      ≡ primary most align_sectors (secs_of most)
        ∷ primary rest c (remaining (5000 * 512 / 512) c)
        ∷ [])
    × (5000 * 512 / 512 ≤ (primary rest c (remaining (5000 * 512 / 512) c)).start_lba)
unfolding align
build_mbr_outside_example =
    build_mbr_outside (5000 * 512) most rest (omega arith) refl (omega arith) (omega arith) refl
      (omega arith) (omega arith)
