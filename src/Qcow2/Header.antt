-- ===== src/Qcow2/Header.antt =====
-- pkg/qcow2/header.go: the header in the first cluster.
pub mod RoundTrip
use fsforge.Common.{
  ℕ, zero, suc, ◌+◌, ◌-◌, ◌*◌, ◌/◌, ◌%◌, ◌^◌, ◌≤◌, ◌<◌, ◌≡◌, ◌⊎◌, refl, ap, ◌∙◌, Bool, true, false,
  not, ◌&&◌, ◌||◌, ltb, leb, ◌==◌, if◌then◌else◌, Option, none, some, List, [], ◌∷◌, length,
  get_elem?, Bytes, slice, replicate, length-replicate, u64, u32, arith, Field, le, be, raw,
  put_fields, get_le, get_be, safe, get_le-put_fields, get_be-put_fields, slice-put_fields_raw,
  length-put_fields, field_off, field_width, avoids,
}

abbrev pub magic : ℕ
magic = 1363560955

abbrev pub version3 : ℕ
version3 = 3

abbrev pub cluster_size : ℕ
cluster_size = 65536

abbrev pub header_len : ℕ
header_len = 112

pub record Header : Type 0 where
  pub version : ℕ
  pub cluster_bits : ℕ
  pub size : ℕ
  pub l1_size : ℕ
  pub l1_table_offset : ℕ
  pub ref_table_offset : ℕ
  pub ref_table_clusters : ℕ
  pub refcount_order : ℕ

pub data Error : Type 0 where
  short_header bad_magic unsupported_version implausible_cluster_bits : Error

pub data Result : Type 0 where
  ok : Header → Result
  err : Error → Result

-- The fields in the order in which they are written.
unfoldable pub fields : Header → List Field
fields s =
    be 0 4 magic
    ∷ be 4 4 s.version
    ∷ be 20 4 s.cluster_bits
    ∷ be 24 8 s.size
    ∷ be 36 4 s.l1_size
    ∷ be 40 8 s.l1_table_offset
    ∷ be 48 8 s.ref_table_offset
    ∷ be 56 4 s.ref_table_clusters
    ∷ be 96 4 s.refcount_order
    ∷ be 100 4 header_len
    ∷ []

unfoldable pub marshal : Header → Bytes
marshal s = put_fields (fields s) (replicate cluster_size 0)

-- The fields of a header that passed the checks; version 2 has 16-bit refcounts.
unfoldable pub parse_fields : Bytes → Header
parse_fields b = record {
  version = get_be 4 4 b;
  cluster_bits = get_be 4 20 b;
  size = get_be 8 24 b;
  l1_size = get_be 4 36 b;
  l1_table_offset = get_be 8 40 b;
  ref_table_offset = get_be 8 48 b;
  ref_table_clusters = get_be 4 56 b;
  refcount_order = if get_be 4 4 b == version3 then get_be 4 96 b else 4;
}

unfoldable pub parse_header : Bytes → Result
parse_header b =
    if ltb (length b) header_len
    then err short_header
    else if not (get_be 4 0 b == magic)
    then err bad_magic
    else if not (get_be 4 4 b == 2) && not (get_be 4 4 b == version3)
    then err unsupported_version
    else if ltb (get_be 4 20 b) 9 || ltb 21 (get_be 4 20 b)
    then err implausible_cluster_bits
    else ok (parse_fields b)
