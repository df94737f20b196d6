-- ===== src/ExFat/Entries/Tests.antt =====
-- The entry set of a file at concrete inputs.
use fsforge.Common.{ℕ, ◌≡◌, refl, false, [], ◌∷◌, replicate, length-replicate, arith, Bytes}
use fsforge.ExFat.Entries.{Civil, ChildInfo, timestamp, put_file_set}
use fsforge.ExFat.Entries.Summed.{IsSummed, put_file_set-IsSummed}

-- 2024-02-29, 12:34:57.
abbrev leap_day : Civil
leap_day = record { year = 2024; month = 2; day = 29; hour = 12; minute = 34; second = 57 }

-- A file "ab" of 5 bytes in cluster 9.
abbrev small_file : ChildInfo
small_file = record {
  units = 97 ∷ 98 ∷ [];
  is_dir = false;
  mod_time = leap_day;
  data_length = 5;
  first_clus = 9;
}

packed : timestamp leap_day ≡ 0x585d645c
unfolding timestamp
packed = refl

abbrev room : Bytes
room = replicate 128 0

put_file_set-IsSummed_example :
    IsSummed room (put_file_set room small_file).0 (put_file_set room small_file).1
unfolding fsforge.ExFat.Entries.name_entries
put_file_set-IsSummed_example =
    put_file_set-IsSummed room small_file (omega (arith, length-replicate {A = ℕ} 128 0))
