-- ===== src/Cpio/Header.antt =====
-- pkg/cpio/header.go and the sizes of pkg/cpio/const.go: the 110 bytes of a newc header. `FormatUint` and
-- `ParseUint` of strconv are written out for base 16. A time is its 64-bit pattern.
pub mod Hex
pub mod RoundTrip
use fsforge.Common.{
  ℕ, zero, suc, ◌+◌, ◌-◌, ◌*◌, ◌/◌, ◌%◌, Bool, true, false, not, ◌&&◌, ltb, leb, ◌==◌,
  if◌then◌else◌, Option, none, some, List, [], ◌∷◌, ◌++◌, length, get_or, Bytes, slice, overwrite,
  replicate, u32, same_bytes,
}

pub record Hdr : Type 0 where
  pub ino : ℕ
  pub mode : ℕ
  pub uid : ℕ
  pub gid : ℕ
  pub nlink : ℕ
  pub mtime : ℕ
  pub filesize : ℕ
  pub devmajor : ℕ
  pub devminor : ℕ
  pub rdevmajor : ℕ
  pub rdevminor : ℕ
  pub namesize : ℕ

pub data Error : Type 0 where
  short_header bad_field : Error

-- The fields and whether the magic was known.
pub data Result : Type 0 where
  parsed : Hdr → Result
  unknown : Result
  err : Error → Result

abbrev pub header_size : ℕ
header_size = 110

-- "070701" and "070702"
abbrev pub magic_newc : Bytes
magic_newc = 48 ∷ 55 ∷ 48 ∷ 55 ∷ 48 ∷ 49 ∷ []

abbrev pub magic_crc : Bytes
magic_crc = 48 ∷ 55 ∷ 48 ∷ 55 ∷ 48 ∷ 50 ∷ []

-- `digits[v]`, lower case.
unfoldable pub hex_digit : ℕ → ℕ
hex_digit d = if ltb d 10 then 48 + d else 87 + d

-- `strconv.FormatUint(v, 16)`; the fuel is the number of digits there may be.
unfoldable pub format_uint : ℕ → ℕ → Bytes
format_uint zero v = []
format_uint (suc fuel) v =
    let high = format_uint fuel (v / 16) in
    if ltb v 16 then hex_digit v ∷ [] else high ++ hex_digit (v % 16) ∷ []

-- A uint32 has at most 8 digits.
unfoldable pub append_hex8 : Bytes → ℕ → Bytes
append_hex8 b v = let s = format_uint 8 v in b ++ overwrite (8 - length s) s (replicate 8 48)

unfoldable pub append_all : Bytes → List ℕ → Bytes
append_all b [] = b
append_all b (v ∷ vs) = append_all (append_hex8 b v) vs

abbrev pub values : Hdr → List ℕ
values h =
    h.ino
    ∷ h.mode
    ∷ h.uid
    ∷ h.gid
    ∷ h.nlink
    ∷ h.mtime % u32
    ∷ h.filesize
    ∷ h.devmajor
    ∷ h.devminor
    ∷ h.rdevmajor
    ∷ h.rdevminor
    ∷ h.namesize
    ∷ 0
    ∷ []

unfoldable pub marshal : Hdr → Bytes
marshal h = append_all ([] ++ magic_newc) (values h)

unfoldable pub digit_value : ℕ → Option ℕ
digit_value c =
    if leb 48 c && leb c 57
    then some (c - 48)
    else if leb 97 c && leb c 102
    then some (c - 87)
    else if leb 65 c && leb c 70
    then some (c - 55)
    else none

-- `strconv.ParseUint(s, 16, 32)` of a text of 8 characters, which cannot be out of range.
unfoldable pub parse_uint : ℕ → Bytes → Option ℕ
parse_uint acc [] = some acc
parse_uint acc (c ∷ cs) = elim (digit_value c) [
  | none ↦ none
  | some d ↦ parse_uint (acc * 16 + d) cs
]

-- The `n` fields from an offset on.
unfoldable pub parse_fields : ℕ → ℕ → Bytes → Option (List ℕ)
parse_fields zero off b = some []
parse_fields (suc n) off b =
    let rest = parse_fields n (off + 8) b in
    elim (parse_uint 0 (slice off 8 b)) [
      | none ↦ none
      | some v ↦ elim rest [ none ↦ none | some vs ↦ some (v ∷ vs) ]
    ]

abbrev pub hdr_of : List ℕ → Hdr
hdr_of f = record {
  ino = get_or f 0 0;
  mode = get_or f 1 0;
  uid = get_or f 2 0;
  gid = get_or f 3 0;
  nlink = get_or f 4 0;
  mtime = get_or f 5 0;
  filesize = get_or f 6 0;
  devmajor = get_or f 7 0;
  devminor = get_or f 8 0;
  rdevmajor = get_or f 9 0;
  rdevminor = get_or f 10 0;
  namesize = get_or f 11 0;
}

unfoldable pub parse_header : Bytes → Result
parse_header b =
    if ltb (length b) header_size
    then err short_header
    else if not (same_bytes (slice 0 6 b) magic_newc) && not (same_bytes (slice 0 6 b) magic_crc)
    then unknown
    else elim (parse_fields 13 6 b) [ none ↦ err bad_field | some f ↦ parsed (hdr_of f) ]

-- `((namesize + 1) &^ 3) + 2`
unfoldable pub n_align : ℕ → ℕ
n_align namesize = (namesize + 1) / 4 * 4 + 2

-- `(v + 3) &^ 3`
unfoldable pub align4 : ℕ → ℕ
align4 v = (v + 3) / 4 * 4
