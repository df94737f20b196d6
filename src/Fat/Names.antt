-- ===== src/Fat/Names.antt =====
-- pkg/fat/dir.go and the entry writers of fat.go: short names, long name entries and directory entries.
-- A name is the list of its runes, `[]rune(name)`. `fits83` reads the name's bytes, which for an ASCII name are the
-- same numbers; any other name it refuses, and so it does here, where no other rune is a short one, and
-- `to_upper` has to be right on ASCII only. What a node's time gives (`fatTime`) comes as an argument of
-- the entry.
mod Entry
pub mod Long
pub mod Counted
mod Tests
use fsforge.Common.{
  ℕ, zero, suc, ◌+◌, ◌-◌, ◌*◌, ◌/◌, ◌%◌, Bool, true, false, not, ◌&&◌, ◌||◌, ltb, leb, ◌==◌,
  if◌then◌else◌, Option, none, some, List, [], ◌∷◌, ◌++◌, map, length, get_or, take, drop,
  replicate, Bytes, overwrite, same_bytes, Field, le, raw, put_fields,
}
use fsforge.Fat.Geometry.{dir_entry_size}

abbrev pub Runes : Type 0
Runes = List ℕ

-- `strings.ToUpper`
unfoldable pub to_upper : Runes → Runes
to_upper [] = []
to_upper (c ∷ s) = (if leb 97 c && leb c 122 then c - 32 else c) ∷ to_upper s

-- `strings.LastIndexByte`
unfoldable pub last_index : ℕ → Runes → Option ℕ
last_index c [] = none
last_index c (x ∷ s) = elim (last_index c s) [
  | some i ↦ some (suc i)
  | none ↦ if x == c then some 0 else none
]

unfoldable pub contains : ℕ → Runes → Bool
contains c [] = false
contains c (x ∷ s) = x == c || contains c s

-- The characters "$%'-_@~`!(){}^#&".
abbrev pub short_marks : Bytes
short_marks = 36 ∷ 37 ∷ 39 ∷ 45 ∷ 95 ∷ 64 ∷ 126 ∷ 96 ∷ 33 ∷ 40 ∷ 41 ∷ 123 ∷ 125 ∷ 94 ∷ 35 ∷ 38 ∷ []

unfoldable pub valid_short_rune : ℕ → Bool
valid_short_rune r =
    if leb 65 r && leb r 90 || leb 48 r && leb r 57 then true else contains r short_marks

unfoldable pub pack83 : Bytes → Bytes → Bytes
pack83 base ext = overwrite 8 (take 3 ext) (overwrite 0 (take 8 base) (replicate 11 32))

unfoldable pub all_short : Runes → Bool
all_short [] = true
all_short (r ∷ s) = (r == 46 || valid_short_rune r) && all_short s

-- The name before and behind its last dot.
abbrev pub split_last : Runes → Option ℕ → Runes × Runes
split_last name none = (name, [])
split_last name (some i) = (take i name, drop (i + 1) name)

unfoldable pub fits83 : Runes → Option Bytes
fits83 name =
    let (base, ext) = split_last name (last_index 46 name) in
    if same_bytes name (46 ∷ []) || same_bytes name (46 ∷ 46 ∷ []) || same_bytes name []
    then none
    else if not (same_bytes (to_upper name) name)
    then none
    else if length base == 0 || ltb 8 (length base) || ltb 3 (length ext) || contains 46 ext
    then none
    else if all_short name
    then some (pack83 base ext)
    else none

-- The sum starts at 0; `short[i]` is read for 11 bytes.
unfoldable pub checksum_from : ℕ → Bytes → ℕ
checksum_from sum [] = sum
checksum_from sum (c ∷ s) = checksum_from ((sum % 2 * 128 + sum / 2 + c) % 256) s

unfoldable pub short_checksum : Bytes → ℕ
short_checksum short = checksum_from 0 (take 11 short)

-- `utf16.Encode`: a pair of surrogates for a rune above 16 bits, and U+FFFD for what is no character.
unfoldable pub encode_rune : ℕ → List ℕ
encode_rune r =
    if ltb r 0xd800 || leb 0xe000 r && ltb r 0x10000
    then r ∷ []
    else if leb 0x10000 r && leb r 0x10ffff
    then (0xd800 + (r - 0x10000) / 0x400) ∷ (0xdc00 + (r - 0x10000) % 0x400) ∷ []
    else 0xfffd ∷ []

unfoldable pub utf16_encode : Runes → List ℕ
utf16_encode [] = []
utf16_encode (r ∷ name) = encode_rune r ++ utf16_encode name

-- One long name entry: its number, the checksum and 13 units, as `putUTF16` spreads them.
unfoldable pub lfn_fields : ℕ → ℕ → List ℕ → List Field
lfn_fields ord checksum chunk =
    le 0 1 ord
    ∷ le 11 1 0xf
    ∷ le 13 1 checksum
    ∷ le 1 2 (get_or chunk 0 0)
    ∷ le 3 2 (get_or chunk 1 0)
    ∷ le 5 2 (get_or chunk 2 0)
    ∷ le 7 2 (get_or chunk 3 0)
    ∷ le 9 2 (get_or chunk 4 0)
    ∷ le 14 2 (get_or chunk 5 0)
    ∷ le 16 2 (get_or chunk 6 0)
    ∷ le 18 2 (get_or chunk 7 0)
    ∷ le 20 2 (get_or chunk 8 0)
    ∷ le 22 2 (get_or chunk 9 0)
    ∷ le 24 2 (get_or chunk 10 0)
    ∷ le 28 2 (get_or chunk 11 0)
    ∷ le 30 2 (get_or chunk 12 0)
    ∷ []

unfoldable pub lfn_entry : ℕ → ℕ → List ℕ → Bytes
lfn_entry ord checksum chunk =
    put_fields (lfn_fields ord checksum chunk) (replicate dir_entry_size 0)

-- `byte(seq)`, and `| 0x40` for the last logical piece.
unfoldable pub lfn_ord : ℕ → ℕ → ℕ
lfn_ord count seq =
    let ord = seq % 256 in
    if seq == count then (if ord / 64 % 2 == 0 then ord + 64 else ord) else ord

-- The units, a 0 and then 0xFFFF up to a multiple of 13.
unfoldable pub padded : List ℕ → List ℕ
padded units = units ++ 0 ∷ replicate ((length units / 13 + 1) * 13 - length units - 1) 0xffff

-- The loop from `seq` down to 1.
unfoldable pub lfn_loop : ℕ → ℕ → ℕ → List ℕ → List Bytes
lfn_loop count checksum zero units = []
lfn_loop count checksum (suc seq) units =
    lfn_entry (lfn_ord count (suc seq)) checksum (take 13 (drop (seq * 13) units))
    ∷ lfn_loop count checksum seq units

unfoldable pub lfn_entries : List ℕ → ℕ → List Bytes
lfn_entries units checksum =
    let count = length units / 13 + 1 in lfn_loop count checksum count (padded units)

unfoldable pub lfn_count : Runes → ℕ
lfn_count name = elim (fits83 name) [ some s ↦ 0 | none ↦ (length name + 12) / 13 ]

unfoldable pub entry_bytes : Runes → ℕ
entry_bytes name = (lfn_count name + 1) * dir_entry_size

-- What `fatTime` gives of a node's time.
pub record FatTime : Type 0 where
  pub date : ℕ
  pub time : ℕ
  pub tenth : ℕ

pub record ChildInfo : Type 0 where
  pub name : Runes
  pub short : Bytes
  pub first_clus : ℕ
  pub size : ℕ
  pub attr : ℕ
  pub mod_time : FatTime

unfoldable pub short_entry : ChildInfo → Bytes
short_entry ci =
    let t = ci.mod_time in
    put_fields
      (raw 0 11 ci.short
        ∷ le 11 1 ci.attr
        ∷ le 13 1 t.tenth
        ∷ le 14 2 t.time
        ∷ le 16 2 t.date
        ∷ le 18 2 t.date
        ∷ le 22 2 t.time
        ∷ le 24 2 t.date
        ∷ le 20 2 (ci.first_clus / 65536)
        ∷ le 26 2 (ci.first_clus % 65536)
        ∷ le 28 4 ci.size
        ∷ [])
      (replicate dir_entry_size 0)

-- The entries that `putChildEntries` writes for a child, one after another.
unfoldable pub child_entries : ChildInfo → List Bytes
child_entries ci =
    lfn_entries (utf16_encode ci.name) (short_checksum ci.short) ++ short_entry ci ∷ []

-- `buildInfos` counts the entries of children, and `layoutDir` adds those for the volume label or for "."
-- and "..", and rounds up to clusters.
unfoldable pub count_entries : List ChildInfo → ℕ
count_entries [] = 0
count_entries (ci ∷ infos) = lfn_count ci.name + 1 + count_entries infos

unfoldable pub dir_clusters : ℕ → Bool → List ChildInfo → ℕ
dir_clusters cs root infos =
    let per_clus = cs / dir_entry_size in
    let n = (count_entries infos + (if root then 1 else 2) + per_clus - 1) / per_clus in
    if n == 0 then 1 else n
