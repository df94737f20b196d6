-- ===== src/Cramfs/Inode/RoundTrip.antt =====
-- Parsing what `marshal` of a cramfs inode wrote.
use fsforge.Common.{
  ℕ, ◌+◌, ◌*◌, ◌/◌, ◌%◌, ◌^◌, ◌<◌, ◌≡◌, refl, true, some, get_elem?, replicate, length-replicate,
  arith, le, get_le, safe, get_le-put_fields, field_off, field_width, avoids,
}
use fsforge.Cramfs.Inode.{Cinode, inode_size, fields, marshal, parse_inode}

read_num :
    (s : Cinode) (i off w v : ℕ)
    → get_elem? (fields s) i ≡ some (le off w v)
    → safe inode_size (fields s) i (some (le off w v)) ≡ true
    → v < 256 ^ w
    → get_le w off (marshal s) ≡ v
unfolding marshal
read_num s i off w v at_i clear small =
    get_le-put_fields inode_size i off w v (fields s) (replicate inode_size 0)
      (omega (arith, length-replicate {A = ℕ} inode_size 0)) at_i clear small

-- What is left of an inode in the widths of its fields: 16 bits of mode and owner, 24 of size, 8 of
-- group, 6 of name length and 26 of offset.
abbrev pub truncated : Cinode → Cinode
truncated s = record {
  mode = s.mode % 65536;
  uid = s.uid % 65536;
  size = s.size % 16777216;
  gid = s.gid % 256;
  namelen = s.namelen % 64;
  offset = s.offset % 67108864;
}

-- An inode is parsed back from its 12 bytes with each field cut to its width: 16 bits of mode and owner,
-- 24 of size, 8 of group, 6 of name length and 26 of offset. So one whose fields fit comes back as it was.
pub parse_inode-marshal : (s : Cinode) → parse_inode (marshal s) ≡ truncated s
unfolding parse_inode fields safe field_off field_width avoids
parse_inode-marshal s =
    let w0 : get_le 4 0 (marshal s) ≡ s.mode % 65536 + s.uid % 65536 * 65536 =
      read_num s 0 0 4 _ refl refl (omega arith) in
    let w1 : get_le 4 4 (marshal s) ≡ s.size % 16777216 + s.gid % 256 * 16777216 =
      read_num s 1 4 4 _ refl refl (omega arith) in
    let w2 : get_le 4 8 (marshal s) ≡ s.namelen % 64 + s.offset % 67108864 * 64 =
      read_num s 2 8 4 _ refl refl (omega arith) in
    let a : get_le 4 0 (marshal s) % 65536 ≡ s.mode % 65536 = rw w0 (omega arith) in
    let b : get_le 4 0 (marshal s) / 65536 ≡ s.uid % 65536 = rw w0 (omega arith) in
    let c : get_le 4 4 (marshal s) % 16777216 ≡ s.size % 16777216 = rw w1 (omega arith) in
    let d : get_le 4 4 (marshal s) / 16777216 ≡ s.gid % 256 = rw w1 (omega arith) in
    let e : get_le 4 8 (marshal s) % 64 ≡ s.namelen % 64 = rw w2 (omega arith) in
    let f : get_le 4 8 (marshal s) / 64 ≡ s.offset % 67108864 = rw w2 (omega arith) in
    λ j. record { mode = a j; uid = b j; size = c j; gid = d j; namelen = e j; offset = f j }
