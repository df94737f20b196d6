-- ===== src/Ext/Geometry/Compute.antt =====
-- `computeGeometry` as a whole: its results, its errors and its panic.
use fsforge.Common.{
  ℕ, suc, ◌+◌, ◌-◌, ◌*◌, ◌/◌, ◌^◌, ◌≤◌, ◌<◌, ◌≡◌, ◌≢◌, ◌⊎◌, inl, inr, refl, true, false, ltb, ◌==◌,
  if◌then◌else◌, arith, Bool-cases,
}
use fsforge.Ext.Geometry.{
  Geometry, panic, or_default, is_bad_block_size, initial, settle, sane, compute_geometry,
  ones_count, group_start, blocks_in_group, overhead, group_layout,
}
use fsforge.Ext.Geometry.Sound.{
  IsCovered, initial-IsCovered, settle-SettledPost, no_groups, first_block, pred_mul,
}
use fsforge.Ext.Geometry.Requested.{ComputePost, sane-ComputePost, initial-MostPost}
use native.Mathlib.Decide.{dec_lt}
use native.Mathlib.Nat.{mul-le-mul_right}

bad_cases :
    (bs : ℕ) → is_bad_block_size bs ≡ true → (bs < 1024) ⊎ (65536 < bs) ⊎ (ones_count 32 bs ≢ 1)
bad_cases bs h = ground arith

good_bounds : (bs : ℕ) → is_bad_block_size bs ≡ false → (1024 ≤ bs) × (bs ≤ 65536)
good_bounds bs h = ground arith

settle_panic :
    (fuel dev_size : ℕ) (g : Geometry) → g.num_groups ≡ 0 → settle (suc fuel) dev_size g ≡ panic
unfolding settle
settle_panic fuel dev_size g e = let z : (g.num_groups == 0) ≡ true = ground arith in rw z

panics_for :
    (dev_size bs inode_size : ℕ)
    → (1024 ≤ bs) × (bs ≤ 65536)
    → dev_size / bs ≤ first_block bs
    → sane (
        settle
          ((initial dev_size bs inode_size).num_groups + 1)
          dev_size
          (initial dev_size bs inode_size))
      ≡ panic
panics_for dev_size bs inode_size (lo, hi) few =
    let z : (initial dev_size bs inode_size).num_groups ≡ 0 =
      no_groups dev_size bs inode_size lo hi few in
    let one : (initial dev_size bs inode_size).num_groups + 1 ≡ suc 0 = omega arith in
    rw one (rw (settle_panic 0 dev_size (initial dev_size bs inode_size) z) (unfold sane in refl))

inode_size_of :
    (dev_size bs inode_size : ℕ) → (initial dev_size bs inode_size).inode_size ≡ inode_size
unfolding initial
inode_size_of dev_size bs inode_size = refl

body :
    (dev_size bs inode_size : ℕ)
    → dev_size < 2 ^ 63
    → inode_size < 2 ^ 32
    → 0 < dev_size
    → (1024 ≤ bs) × (bs ≤ 65536)
    → ComputePost dev_size bs inode_size (
        sane (
          settle
            ((initial dev_size bs inode_size).num_groups + 1)
            dev_size
            (initial dev_size bs inode_size)))
body dev_size bs inode_size small word pos (lo, hi) =
    elim (dec_lt (first_block bs) (dev_size / bs)) [
      | no few ↦ rw (panics_for dev_size bs inode_size (lo, hi) (omega arith)) (pos, omega arith)
      | yes more ↦
          sane-ComputePost dev_size bs inode_size small _
            (settle-SettledPost dev_size small _ (initial dev_size bs inode_size)
              (initial-IsCovered dev_size bs inode_size lo hi small more)
              (omega (arith, inode_size_of dev_size bs inode_size)) (omega arith))
            (initial-MostPost dev_size bs inode_size _)
    ]

pub compute_geometry-ComputePost :
    (dev_size block_size inode_size : ℕ)
    → dev_size < 2 ^ 63
    → inode_size < 2 ^ 32
    → ComputePost dev_size
        (or_default block_size 1024)
        (or_default inode_size 128)
        (compute_geometry dev_size block_size inode_size)
unfolding compute_geometry
compute_geometry-ComputePost dev_size block_size inode_size small word =
    elim (Bool-cases (is_bad_block_size (or_default block_size 1024))) [
      | inl bad ↦ rw bad (bad_cases _ bad)
      | inr good ↦ elim (Bool-cases (dev_size == 0)) [
        | inl z ↦ rw (good, z) (ground arith)
        | inr nz ↦
            rw (good, nz)
              (body dev_size (or_default block_size 1024) (or_default inode_size 128) small
                (ground arith) (ground arith) (good_bounds _ good))
      ]
    ]

-- A device that holds no block behind the boot block (fewer than two blocks of 1 KiB, or less than
-- one larger block) makes `computeGeometry` divide by a group count of 0 and panic, where it means to
-- report that the device is too small.
pub compute_geometry_panics :
    (dev_size block_size inode_size : ℕ)
    → 0 < dev_size
    → is_bad_block_size (or_default block_size 1024) ≡ false
    → dev_size / or_default block_size 1024 ≤ first_block (or_default block_size 1024)
    → compute_geometry dev_size block_size inode_size ≡ panic
unfolding compute_geometry
compute_geometry_panics dev_size block_size inode_size pos good few =
    let nz : (dev_size == 0) ≡ false = ground arith in
    rw (good, nz) (panics_for dev_size _ _ (good_bounds _ good) few)

start_le : (g : Geometry) (a b : ℕ) → a ≤ b → a * g.blocks_per_group ≤ b * g.blocks_per_group
start_le g a b h = mul-le-mul_right g.blocks_per_group h

-- The groups of a geometry that covers its blocks follow one another, none of them empty: each ends
-- where the next one begins, and the last one ends at the total.
pub groups_adjacent :
    (dev_size : ℕ) (g : Geometry) (gr : ℕ)
    → IsCovered dev_size g
    → gr < g.num_groups
    → (0 < blocks_in_group g gr)
      × ((gr + 1 < g.num_groups)
            × (group_start g gr + blocks_in_group g gr ≡ group_start g (gr + 1))
          ⊎ (gr + 1 ≡ g.num_groups) × (group_start g gr + blocks_in_group g gr ≡ g.total_blocks))
unfolding group_start blocks_in_group
groups_adjacent dev_size g gr h lt =
    let k : ℕ = g.blocks_per_group in
    let pos : 0 < k = omega (arith, h.group_size, h.block_bounds) in
    let below : gr * k ≤ (g.num_groups - 1) * k = start_le g gr (g.num_groups - 1) (omega arith) in
    elim (dec_lt (gr + 1) g.num_groups) [
      | yes inner ↦
          let next : (gr + 1) * k ≤ (g.num_groups - 1) * k =
            start_le g (gr + 1) (g.num_groups - 1) (omega arith) in
          let e : ltb g.total_blocks (g.first_data_block + gr * k + k) ≡ false =
            ground (arith, h.last_begins) in
          rw e (omega arith, inl (inner, omega arith))
      | no last ↦
          let e : gr ≡ g.num_groups - 1 = omega arith in
          let whole : (g.num_groups - 1) * k + k ≡ g.num_groups * k =
            pred_mul g.num_groups k h.some_group in
          let top : (if ltb g.total_blocks (g.first_data_block + gr * k + k)
                then g.total_blocks
                else g.first_data_block + gr * k + k)
              ≡ g.total_blocks =
            rw e (ground (arith, h.all_covered)) in
          rw top (
            rw e (omega (arith, h.last_begins)),
            inr (omega arith, rw e (omega (arith, h.last_begins))),
          )
    ]

-- The metadata of a group and its first data block: bitmaps, inode table and data stand in this order
-- behind the superblock and descriptor copies, and the data begins after the overhead.
pub group_layout_order :
    (g : Geometry) (gr : ℕ)
    → (group_start g gr ≤ (group_layout g gr).0)
      × ((group_layout g gr).1 ≡ (group_layout g gr).0 + 1)
      × ((group_layout g gr).2 ≡ (group_layout g gr).1 + 1)
      × ((group_layout g gr).3 ≡ (group_layout g gr).2 + g.inode_table_blocks)
      × ((group_layout g gr).3 ≡ group_start g gr + overhead g gr)
unfolding group_layout overhead
group_layout_order g gr = ground arith
