-- ===== src/ExFat/Reader.antt =====
-- pkg/exfat/reader.go: what `parseFileSet` reads of an entry set, up to the conversion of the units to a
-- string by unicode/utf16. The node that is made of it and the directories under it are not modelled.
mod Names
mod RoundTrip
mod Tests
use fsforge.Common.{
  ℕ, zero, suc, ◌+◌, ◌-◌, ◌*◌, ◌/◌, ◌%◌, min, Bool, true, false, not, ◌||◌, ltb, ◌==◌,
  if◌then◌else◌, List, [], ◌∷◌, ◌++◌, length, Bytes, get_le,
}
use fsforge.ExFat.Entries.{dir_entry_size, ent_stream, ent_file_name}

-- The variables of `parseFileSet` that the node is made of; the time as it is packed.
pub record FileSet : Type 0 where
  pub attrs : ℕ
  pub mod_time : ℕ
  pub no_fat_chain : Bool
  pub first_clus : ℕ
  pub data_length : ℕ
  pub units : List ℕ

-- The number of entries consumed comes with each outcome; a truncated set consumes one.
pub data Parsed : Type 0 where
  truncated : Parsed
  skipped : ℕ → Parsed
  parsed : ℕ → FileSet → Parsed

-- `n` units from `off` on.
unfoldable pub take_units : ℕ → ℕ → Bytes → List ℕ
take_units zero off b = []
take_units (suc n) off b = get_le 2 off b ∷ take_units n (off + 2) b

-- `n` name entries from number `k` on, with `want` units to come.
unfoldable pub name_loop : ℕ → ℕ → ℕ → Bytes → List ℕ
name_loop zero k want b = []
name_loop (suc n) k want b =
    let rest = name_loop n (k + 1) (want - 15) b in
    let ne = (2 + k) * dir_entry_size in
    if want == 0
    then []
    else if get_le 1 ne b == ent_file_name
    then take_units (min 15 want) (ne + 2) b ++ rest
    else []

unfoldable pub parse_file_set : Bytes → Parsed
parse_file_set b =
    let secondary = get_le 1 1 b in
    let count = 1 + secondary in
    if ltb (length b) (count * dir_entry_size) || ltb secondary 1
    then truncated
    else if not (get_le 1 32 b == ent_stream)
    then skipped count
    else parsed count (record {
      attrs = get_le 2 4 b;
      mod_time = get_le 4 12 b;
      no_fat_chain = get_le 1 33 b / 2 % 2 == 1;
      first_clus = get_le 4 52 b;
      data_length = get_le 8 56 b;
      units = name_loop (secondary - 1) 0 (get_le 1 35 b) b;
    })
