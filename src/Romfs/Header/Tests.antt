-- ===== src/Romfs/Header/Tests.antt =====
-- The header of a directory named "a".
use fsforge.Common.{
  ℕ, ◌+◌, ◌*◌, ◌%◌, ◌≤◌, ◌≡◌, ◌⊎◌, u32, ◌∷◌, length, take, slice, replicate, Bytes, arith, ◌++◌,
}
use fsforge.Romfs.Header.{word_sum, fix_checksum}
use fsforge.Romfs.Header.Sums.{fix_checksum-ZeroSum}

abbrev dir_header : Bytes
dir_header = replicate 16 7 ++ 97 ∷ replicate 15 0

fix_checksum-ZeroSum_example :
    (word_sum 32 (take 32 (fix_checksum dir_header (4 * 3) 32)) % u32 ≡ 0)
    × (length (fix_checksum dir_header (4 * 3) 32) ≡ length dir_header)
    × ((off w : ℕ)
        → (off + w ≤ 4 * 3) ⊎ (4 * 3 + 4 ≤ off)
        → slice off w (fix_checksum dir_header (4 * 3) 32) ≡ slice off w dir_header)
fix_checksum-ZeroSum_example = fix_checksum-ZeroSum dir_header 3 32 (omega arith) (omega arith)
