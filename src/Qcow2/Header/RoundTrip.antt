-- ===== src/Qcow2/Header/RoundTrip.antt =====
-- Parsing what `marshal` of the header wrote, and what the parser accepts.
use fsforge.Common.{
  ℕ, ◌^◌, ◌≤◌, ◌<◌, ◌≡◌, refl, ap, ◌∙◌, true, false, not, ◌&&◌, ◌||◌, ltb, ◌==◌, some, length,
  get_elem?, replicate, length-replicate, arith, be, get_be, safe, get_be-put_fields,
  length-put_fields, field_off, field_width, avoids,
}
use fsforge.Qcow2.Header.{
  Header, ok, magic, version3, cluster_size, header_len, fields, marshal, parse_fields,
  parse_header,
}

-- Each field fits the width that the type gives it.
pub record IsFit (s : Header) : Type 0 where
  pub version_fits : s.version < 256 ^ 4
  pub cluster_bits_fits : s.cluster_bits < 256 ^ 4
  pub size_fits : s.size < 256 ^ 8
  pub l1_size_fits : s.l1_size < 256 ^ 4
  pub l1_table_offset_fits : s.l1_table_offset < 256 ^ 8
  pub ref_table_offset_fits : s.ref_table_offset < 256 ^ 8
  pub ref_table_clusters_fits : s.ref_table_clusters < 256 ^ 4
  pub refcount_order_fits : s.refcount_order < 256 ^ 4

-- What the parser accepts of the version and of the cluster size.
abbrev pub IsPlausible : Header → Type 0
IsPlausible s = (9 ≤ s.cluster_bits) × (s.cluster_bits ≤ 21)

read_num :
    (s : Header) (i off w v : ℕ)
    → get_elem? (fields s) i ≡ some (be off w v)
    → safe cluster_size (fields s) i (some (be off w v)) ≡ true
    → v < 256 ^ w
    → get_be w off (marshal s) ≡ v
unfolding marshal
read_num s i off w v at_i clear small =
    get_be-put_fields cluster_size i off w v (fields s) (replicate cluster_size 0)
      (omega (arith, length-replicate {A = ℕ} cluster_size 0)) at_i clear small

length-marshal : (s : Header) → length (marshal s) ≡ cluster_size
unfolding marshal
length-marshal s =
    length-put_fields (fields s) (replicate cluster_size 0)
    ∙ length-replicate {A = ℕ} cluster_size 0

-- A version 3 header whose fields fit their widths, with cluster bits from 9 to 21, is parsed back as it
-- was from the cluster it was written to.
pub parse_header-marshal_qcow2 :
    (s : Header) → IsFit s → s.version ≡ version3 → IsPlausible s → parse_header (marshal s) ≡ ok s
unfolding parse_header parse_fields fields safe field_off field_width avoids
parse_header-marshal_qcow2 s h three plausible =
    let m : get_be 4 0 (marshal s) ≡ magic = read_num s 0 0 4 magic refl refl (omega arith) in
    let v : get_be 4 4 (marshal s) ≡ version3 =
      read_num s 1 4 4 s.version refl refl h.version_fits ∙ three in
    let c : get_be 4 20 (marshal s) ≡ s.cluster_bits =
      read_num s 2 20 4 s.cluster_bits refl refl h.cluster_bits_fits in
    let long : ltb (length (marshal s)) header_len ≡ false = ground (arith, length-marshal s) in
    let a : not (get_be 4 0 (marshal s) == magic) ≡ false = ground (arith, m) in
    let is_three : get_be 4 4 (marshal s) == version3 ≡ true = ground (arith, v) in
    let bits : ltb (get_be 4 20 (marshal s)) 9 || ltb 21 (get_be 4 20 (marshal s)) ≡ false =
      ground (arith, c, plausible) in
    let e : not (get_be 4 4 (marshal s) == 2) && not (get_be 4 4 (marshal s) == version3) ≡ false =
      ground (arith, v) in
    let same : parse_fields (marshal s) ≡ s = rw is_three (λ j. record {
      version = read_num s 1 4 4 s.version refl refl h.version_fits j;
      cluster_bits = read_num s 2 20 4 s.cluster_bits refl refl h.cluster_bits_fits j;
      size = read_num s 3 24 8 s.size refl refl h.size_fits j;
      l1_size = read_num s 4 36 4 s.l1_size refl refl h.l1_size_fits j;
      l1_table_offset = read_num s 5 40 8 s.l1_table_offset refl refl h.l1_table_offset_fits j;
      ref_table_offset = read_num s 6 48 8 s.ref_table_offset refl refl h.ref_table_offset_fits j;
      ref_table_clusters =
          read_num s 7 56 4 s.ref_table_clusters refl refl h.ref_table_clusters_fits j;
      refcount_order = read_num s 8 96 4 s.refcount_order refl refl h.refcount_order_fits j;
    }) in
    rw (long, a, e, bits) (ap ok same)
