-- ===== src/Ext/Geometry.antt =====
-- pkg/ext/geometry.go: the block groups of an ext2/3/4 filesystem.
-- Sizes are natural numbers; `ceilDiv` and the difference that a small device makes wrap are written
-- with their wrap. The other sums and products stay far below 2^64 for devices below 2^63 bytes.
-- Where Go divides by zero and panics the model returns `panic`.
mod Sound
pub mod Requested
pub mod Compute
pub mod Superblocks
mod Tests
use fsforge.Common.{
  u64, ℕ, zero, suc, ◌+◌, ◌-◌, ◌*◌, ◌/◌, ◌%◌, Bool, true, false, ◌||◌, not, ltb, leb, ◌==◌,
  if◌then◌else◌,
}

pub data Error : Type 0 where
  bad_block_size bad_device_size too_small : Error

pub data Result {ℓ} (A : Type ℓ) : Type ℓ where
  ok : A → Result A
  err : Error → Result A
  panic : Result A
  stuck : Result A

abbrev pub first_ino : ℕ
first_ino = 11

abbrev pub good_old_inode_size : ℕ
good_old_inode_size = 128

abbrev pub desc_size : ℕ
desc_size = 32

abbrev pub default_block_size : ℕ
default_block_size = 1024

abbrev pub bytes_per_inode : ℕ
bytes_per_inode = 16384

abbrev pub runt_min_data_blocks : ℕ
runt_min_data_blocks = 8

pub record Geometry : Type 0 where
  pub block_size : ℕ
  pub total_blocks : ℕ
  pub first_data_block : ℕ
  pub blocks_per_group : ℕ
  pub inodes_per_group : ℕ
  pub inode_size : ℕ
  pub inodes_per_block : ℕ
  pub inodes_count : ℕ
  pub num_groups : ℕ
  pub gdt_blocks : ℕ
  pub inode_table_blocks : ℕ

-- `(a + b - 1) / b`
unfoldable pub ceil_div : ℕ → ℕ → ℕ
ceil_div a b = (a + b + u64 - 1) % u64 / b

unfoldable pub round_up : ℕ → ℕ → ℕ
round_up a mult = ceil_div a mult * mult

-- `for n%base == 0 { n /= base }`, then `n == 1`.
unfoldable pub power_loop : ℕ → ℕ → ℕ → Bool
power_loop zero n base = false
power_loop (suc fuel) n base =
    let rest = power_loop fuel (n / base) base in if n % base == 0 then rest else n == 1

unfoldable pub is_power_of : ℕ → ℕ → Bool
unfolding power_loop
is_power_of n base = if n == 0 then false else power_loop n n base

unfoldable pub has_superblock : ℕ → Bool
has_superblock gr =
    if gr == 0 then true else is_power_of gr 3 || is_power_of gr 5 || is_power_of gr 7

unfoldable pub group_start : Geometry → ℕ → ℕ
group_start g gr = g.first_data_block + gr * g.blocks_per_group

unfoldable pub overhead : Geometry → ℕ → ℕ
overhead g gr =
    if has_superblock gr
    then 2 + g.inode_table_blocks + (1 + g.gdt_blocks)
    else 2 + g.inode_table_blocks

unfoldable pub blocks_in_group : Geometry → ℕ → ℕ
unfolding group_start
blocks_in_group g gr =
    let start = group_start g gr in
    let end = start + g.blocks_per_group in
    (if ltb g.total_blocks end then g.total_blocks else end) - start

-- The first block bitmap, inode bitmap, inode table and data block of a group.
unfoldable pub group_layout : Geometry → ℕ → ℕ × ℕ × ℕ × ℕ
group_layout g gr =
    let start = group_start g gr in
    let b = if has_superblock gr then start + (1 + g.gdt_blocks) else start in
    (b, b + 1, b + 1 + 1, b + 1 + 1 + g.inode_table_blocks)

unfoldable pub inodes_in_group : Geometry → ℕ → ℕ
inodes_in_group g gr = g.inodes_per_group

-- `math/bits.OnesCount32`.
unfoldable pub ones_count : ℕ → ℕ → ℕ
ones_count zero w = 0
ones_count (suc k) w = w % 2 + ones_count k (w / 2)

-- Inodes per group for `ic` inodes over the groups.
unfoldable pub spread_inodes : ℕ → ℕ → ℕ → ℕ
unfolding ceil_div round_up
spread_inodes ic num_groups max =
    let ipg = ceil_div ic num_groups in
    let at_least = if ltb ipg 16 then 16 else ipg in
    let rounded = round_up at_least 8 in if ltb max rounded then max else rounded

-- The assignments of one round of the loop.
unfoldable pub derive : ℕ → Geometry → Geometry
derive dev_size g =
    let ipg = spread_inodes (dev_size / bytes_per_inode) g.num_groups g.blocks_per_group in
    record g {
      gdt_blocks = ceil_div (g.num_groups * desc_size) g.block_size;
      inodes_per_group = ipg;
      inodes_count = ipg * g.num_groups;
      inode_table_blocks = ceil_div (ipg * g.inode_size) g.block_size;
    }

-- The loop that drops runt groups. A count of 0 groups makes the division in `spread_inodes` panic.
unfoldable pub settle : ℕ → ℕ → Geometry → Result Geometry
settle zero dev_size g = stuck
settle (suc fuel) dev_size g =
    let g' = derive dev_size g in
    let n = g.num_groups - 1 in
    let rest =
      settle fuel dev_size (record g' {
        num_groups = n;
        total_blocks = g.first_data_block + n * g.blocks_per_group;
      }) in
    if g.num_groups == 0
    then panic
    else if leb g.num_groups 1 || leb (overhead g' n + runt_min_data_blocks) (blocks_in_group g' n)
    then ok g'
    else rest

-- The sanity checks behind the loop.
unfoldable pub sane : Result Geometry → Result Geometry
sane (ok g) =
    if ltb g.inodes_per_group first_ino
    then err too_small
    else if ltb g.total_blocks (overhead g 0 + 8)
    then err too_small
    else ok g
sane (err e) = err e
sane panic = panic
sane stuck = stuck

-- The geometry with which the loop begins.
unfoldable pub initial : ℕ → ℕ → ℕ → Geometry
initial dev_size bs inode_size =
    let total = dev_size / bs in
    let first = if bs == 1024 then 1 else 0 in
    record {
      block_size = bs;
      total_blocks = total;
      first_data_block = first;
      blocks_per_group = bs * 8;
      inodes_per_group = 0;
      inode_size = inode_size;
      inodes_per_block = bs / inode_size;
      inodes_count = 0;
      num_groups = ceil_div ((total + u64 - first) % u64) (bs * 8);
      gdt_blocks = 0;
      inode_table_blocks = 0;
    }

abbrev pub or_default : ℕ → ℕ → ℕ
or_default x d = if x == 0 then d else x

abbrev pub is_bad_block_size : ℕ → Bool
is_bad_block_size bs = ltb bs 1024 || ltb 65536 bs || not (ones_count 32 bs == 1)

unfoldable pub compute_geometry : ℕ → ℕ → ℕ → Result Geometry
compute_geometry dev_size block_size inode_size =
    let bs = or_default block_size default_block_size in
    let g = initial dev_size bs (or_default inode_size good_old_inode_size) in
    if is_bad_block_size bs
    then err bad_block_size
    else if dev_size == 0
    then err bad_device_size
    else sane (settle (g.num_groups + 1) dev_size g)
