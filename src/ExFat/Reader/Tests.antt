-- ===== src/ExFat/Reader/Tests.antt =====
-- An entry set, written and read back at concrete inputs.
use fsforge.Common.{
  ℕ, ◌≡◌, refl, false, ◌∷◌, replicate, length-replicate, All-replicate, ◌<◌, Bytes, le_value, ◌+◌,
  arith,
}
use fsforge.ExFat.Entries.{ChildInfo, name_entries, put_file_set}
use fsforge.ExFat.Reader.{parsed, truncated, parse_file_set}
use fsforge.ExFat.Reader.RoundTrip.{Encodable, written, parse_file_set-put_file_set}

-- A file with a name of 17 units, which takes two name entries.
abbrev long_file : ChildInfo
long_file = record {
  units = replicate 17 97;
  is_dir = false;
  mod_time = record { year = 2024; month = 2; day = 29; hour = 12; minute = 34; second = 57 };
  data_length = 5;
  first_clus = 9;
}

abbrev room : Bytes
room = replicate 160 255

-- A set that announces an entry more than the buffer has.
cut_short : parse_file_set (133 ∷ 9 ∷ replicate 62 0) ≡ truncated
unfolding parse_file_set le_value
cut_short = refl

long_file-Encodable : Encodable long_file
long_file-Encodable = record {
  units = All-replicate (λ u. u < 65536) 17 97 (omega arith);
  short = omega (arith, length-replicate {A = ℕ} 17 97);
  month = omega arith;
  day = omega arith;
  hour = omega arith;
  minute = omega arith;
  second = omega arith;
  clus = omega arith;
  size = omega arith;
}

parse_file_set-put_file_set_example :
    parse_file_set (put_file_set room long_file).0
    ≡ parsed (2 + name_entries long_file.units) (written long_file)
unfolding name_entries
parse_file_set-put_file_set_example =
    parse_file_set-put_file_set room long_file long_file-Encodable
      (omega (arith, length-replicate {A = ℕ} 160 255))
