-- ===== src/Fat/Names/Tests.antt =====
-- "README.md", "A" and a directory of twelve names in 8.3 form.
use fsforge.Common.{
  ℕ, false, ◌+◌, ◌*◌, ◌≡◌, refl, Option, none, some, List, [], ◌∷◌, length, replicate, Bytes, arith,
}
use fsforge.Fat.Geometry.{dir_entry_size}
use fsforge.Fat.Names.{
  Runes, FatTime, ChildInfo, to_upper, last_index, contains, valid_short_rune, all_short, pack83,
  fits83, lfn_entries, lfn_loop, lfn_count, entry_bytes, child_entries, count_entries, dir_clusters,
}
use fsforge.Fat.Names.Long.{read_long, read_long-lfn_entries}
use fsforge.Fat.Names.Counted.{uncounted, pairs, child_entries-uncounted}

abbrev read_me : Bytes
read_me = 82 ∷ 69 ∷ 65 ∷ 68 ∷ 77 ∷ 69 ∷ 46 ∷ 109 ∷ 100 ∷ []

abbrev some_time : FatTime
some_time = record { date = 0; time = 0; tenth = 0 }

abbrev child : Bytes → ChildInfo
child name = record {
  name = name;
  short = replicate 11 65;
  first_clus = 5;
  size = 100;
  attr = 0x20;
  mod_time = some_time;
}

abbrev name_a : Bytes
name_a = 65 ∷ []

lower_case : fits83 read_me ≡ none
unfolding fits83 last_index to_upper fsforge.Common.same_bytes
lower_case = refl

upper_case : fits83 name_a ≡ some (65 ∷ replicate 10 32)
unfolding fits83 last_index to_upper contains valid_short_rune all_short pack83
    fsforge.Common.same_bytes fsforge.Common.overwrite
upper_case = refl

read_long-lfn_entries_example : read_long 77 (lfn_entries read_me 77) ≡ some read_me
read_long-lfn_entries_example =
    read_long-lfn_entries read_me 77
      (
        (omega arith, omega arith),
        (
          (omega arith, omega arith),
          (
            (omega arith, omega arith),
            (
              (omega arith, omega arith),
              (
                (omega arith, omega arith),
                (
                  (omega arith, omega arith),
                  (
                    (omega arith, omega arith),
                    ((omega arith, omega arith), ((omega arith, omega arith), tt)),
                  ),
                ),
              ),
            ),
          ),
        ),
      )
      (omega arith) (omega arith)

child_entries-uncounted_example :
    length (child_entries (child name_a)) * dir_entry_size
    ≡ entry_bytes name_a + uncounted name_a * dir_entry_size
child_entries-uncounted_example = child_entries-uncounted (child name_a)

-- The twelve files are counted as one entry each and get one cluster of 16 entries, for the 24 entries
-- that are written behind "." and "..".
abbrev twelve : List ChildInfo
twelve = replicate 12 (child name_a)

one_cluster : dir_clusters 512 false twelve ≡ 1
unfolding dir_clusters count_entries lfn_count fits83 last_index to_upper contains valid_short_rune
    all_short pack83 fsforge.Common.same_bytes fsforge.Common.overwrite
one_cluster = refl

two_each : length (child_entries (child name_a)) ≡ 2
unfolding child_entries lfn_entries lfn_loop fsforge.Fat.Names.utf16_encode
    fsforge.Fat.Names.encode_rune
two_each = refl

-- Seven emoji are counted as one long name entry, and take two.
abbrev emoji : Runes
emoji = replicate 7 0x1f600

short_of_one : uncounted emoji ≡ 1
unfolding uncounted fits83 last_index to_upper contains valid_short_rune all_short pairs
    fsforge.Common.same_bytes
short_of_one = refl
