-- ===== src/Ext/Geometry/Sound.antt =====
-- What `computeGeometry` of the ext engine promises, and where it panics.
use fsforge.Common.{
  u64, ℕ, zero, suc, ◌+◌, ◌-◌, ◌*◌, ◌/◌, ◌%◌, ◌^◌, ◌≤◌, ◌<◌, ◌≡◌, ◌⊎◌, inl, inr, refl, false, leb,
  ◌==◌, if◌then◌else◌, arith, Bool-cases, leb→le, leb-false,
}
use fsforge.Ext.Geometry.{
  Geometry, Result, ok, ceil_div, spread_inodes, derive, blocks_in_group, overhead, settle, initial,
}
use native.Mathlib.Nat.{
  div-mul-le_self, lt-div-mul-add, div-le_self, le_trans, mul-le-mul_left, mul-le-mul_right,
  le_of_lt, div-eq_of_lt,
}
use native.Mathlib.Decide.{dec_lt}

-- The groups cover the blocks from the first data block on.
pub record IsCovered (dev_size : ℕ) (g : Geometry) : Type 0 where
  pub inside : g.total_blocks * g.block_size ≤ dev_size
  pub some_group : 0 < g.num_groups
  pub last_begins : g.first_data_block + (g.num_groups - 1) * g.blocks_per_group < g.total_blocks
  pub all_covered : g.total_blocks ≤ g.first_data_block + g.num_groups * g.blocks_per_group
  pub group_size : g.blocks_per_group ≡ g.block_size * 8
  pub block_bounds : (1024 ≤ g.block_size) × (g.block_size ≤ 65536)
  pub first_le : g.first_data_block ≤ 1

pub ceil_div_exact :
    (a b : ℕ) → 0 < b → a + b < u64 → (a ≤ ceil_div a b * b) × (ceil_div a b * b < a + b)
unfolding ceil_div
ceil_div_exact a b pos small =
    let e : (a + b + u64 - 1) % u64 ≡ a + b - 1 = omega arith in
    rw e (
      omega (arith, lt-div-mul-add {a = a + b - 1} {b = b} pos),
      omega (arith, div-mul-le_self (a + b - 1) b),
    )

spread_inodes_bounds :
    (ic n max : ℕ)
    → 8192 ≤ max
    → ic < 2 ^ 50
    → 0 < n
    → n < 2 ^ 62
    → (16 ≤ spread_inodes ic n max) × (spread_inodes ic n max ≤ max)
unfolding spread_inodes
spread_inodes_bounds ic n max big small pos hn =
    let e : (ic + n + u64 - 1) % u64 ≡ ic + n - 1 = omega arith in
    let le : ceil_div ic n ≤ ic + n - 1 = rw e (div-le_self (ic + n - 1) n) in ground (arith, le)

-- A geometry that the loop may stop at.
pub record IsSettled (dev_size : ℕ) (g : Geometry) : Type 0 where
  pub covered : IsCovered dev_size g
  pub inode_bounds : (16 ≤ g.inodes_per_group) × (g.inodes_per_group ≤ g.blocks_per_group)
  pub inode_total : g.inodes_count ≡ g.inodes_per_group * g.num_groups
  pub table_holds : g.inodes_per_group * g.inode_size ≤ g.inode_table_blocks * g.block_size
  pub table_tight :
      g.inode_table_blocks * g.block_size < g.inodes_per_group * g.inode_size + g.block_size
  pub gdt_holds : g.num_groups * 32 ≤ g.gdt_blocks * g.block_size
  pub last_room :
      (g.num_groups ≡ 1)
      ⊎ (overhead g (g.num_groups - 1) + 8 ≤ blocks_in_group g (g.num_groups - 1))

mul_bound : (a b c d : ℕ) → a ≤ c → b ≤ d → a * b ≤ c * d
mul_bound a b c d h k = le_trans (mul-le-mul_right b h) (mul-le-mul_left c k)

pub pred_mul : (n k : ℕ) → 0 < n → (n - 1) * k + k ≡ n * k
pred_mul zero k pos = absurd (omega arith)
pred_mul (suc n) k pos = let e : suc n - 1 ≡ n = omega arith in rw e (omega arith)

pred_mul-lt : (n k : ℕ) → 0 < n → 0 < k → (n - 1) * k < n * k
pred_mul-lt n k pos h = omega (arith, pred_mul n k pos)

groups_le : (n k : ℕ) → 1 ≤ k → n * 1 ≤ n * k
groups_le n k h = mul-le-mul_left n h

module _ (dev_size : ℕ) (small : dev_size < 2 ^ 63) where
  blocks_bound : (g : Geometry) → IsCovered dev_size g → g.total_blocks < 2 ^ 53
  blocks_bound g h =
      omega (arith, h.inside, mul-le-mul_left g.total_blocks h.block_bounds.0, h.block_bounds)

  groups_bound : (g : Geometry) → IsCovered dev_size g → g.num_groups < 2 ^ 53
  groups_bound g h = omega (
    arith,
    blocks_bound g h,
    h.last_begins,
    h.group_size,
    h.block_bounds,
    groups_le (g.num_groups - 1) g.blocks_per_group (omega (arith, h.group_size, h.block_bounds)),
  )

  derived :
      (g : Geometry)
      → IsCovered dev_size g
      → g.inode_size < 2 ^ 32
      → (g.num_groups ≡ 1)
        ⊎ (overhead (derive dev_size g) (g.num_groups - 1) + 8
            ≤ blocks_in_group (derive dev_size g) (g.num_groups - 1))
      → IsSettled dev_size (derive dev_size g)
  unfolding derive
  derived g h word room =
      let ipg : ℕ = spread_inodes (dev_size / 16384) g.num_groups g.blocks_per_group in
      let bounds : (16 ≤ ipg) × (ipg ≤ g.blocks_per_group) =
        spread_inodes_bounds (dev_size / 16384) g.num_groups g.blocks_per_group
          (omega (arith, h.group_size, h.block_bounds)) (omega arith) h.some_group
          (omega (arith, groups_bound g h)) in
      let table_small : ipg * g.inode_size ≤ 524288 * 2 ^ 32 =
        mul_bound ipg g.inode_size 524288 (2 ^ 32)
          (omega (arith, bounds, h.group_size, h.block_bounds)) (omega arith) in
      let table =
        ceil_div_exact (ipg * g.inode_size) g.block_size (omega (arith, h.block_bounds))
          (omega (arith, h.block_bounds)) in
      record {
        covered = record {
          inside = h.inside;
          some_group = h.some_group;
          last_begins = h.last_begins;
          all_covered = h.all_covered;
          group_size = h.group_size;
          block_bounds = h.block_bounds;
          first_le = h.first_le;
        };
        inode_bounds = bounds;
        inode_total = refl;
        table_holds = table.0;
        table_tight = table.1;
        gdt_holds =
            (ceil_div_exact (g.num_groups * 32) g.block_size (omega (arith, h.block_bounds))
              (omega (arith, groups_bound g h, h.block_bounds))).0;
        last_room = room;
      }

  -- The geometry without its last group.
  abbrev drop_last : Geometry → Geometry
  drop_last g = record (derive dev_size g) {
    num_groups = g.num_groups - 1;
    total_blocks = g.first_data_block + (g.num_groups - 1) * g.blocks_per_group;
  }

  drop_last-IsCovered :
      (g : Geometry) → IsCovered dev_size g → 1 < g.num_groups → IsCovered dev_size (drop_last g)
  unfolding derive
  drop_last-IsCovered g h more = record {
    inside = le_trans (mul-le-mul_right g.block_size (le_of_lt h.last_begins)) h.inside;
    some_group = omega arith;
    last_begins =
        let lt : (g.num_groups - 1 - 1) * g.blocks_per_group
            < (g.num_groups - 1) * g.blocks_per_group =
          pred_mul-lt (g.num_groups - 1) g.blocks_per_group (omega arith) (omega arith) in
        omega arith;
    all_covered = omega arith;
    group_size = h.group_size;
    block_bounds = h.block_bounds;
    first_le = h.first_le;
  }

  abbrev pub SettledPost : Result Geometry → Type 0
  SettledPost (ok g) = IsSettled dev_size g
  SettledPost _ = ⊥

  pub settle-SettledPost :
      (fuel : ℕ) (g : Geometry)
      → IsCovered dev_size g
      → g.inode_size < 2 ^ 32
      → g.num_groups ≤ fuel
      → SettledPost (settle fuel dev_size g)
  unfolding settle
  settle-SettledPost zero g h word enough = absurd (omega (arith, h.some_group))
  settle-SettledPost (suc fuel) g h word enough =
      let nz : (g.num_groups == 0) ≡ false = ground (arith, h.some_group) in
      elim (Bool-cases (leb g.num_groups 1)) [
        | inl one ↦
            rw (nz, one) (derived g h word (inl (omega (arith, leb→le _ _ one, h.some_group))))
        | inr more ↦
            elim (Bool-cases (
              leb (overhead (derive dev_size g) (g.num_groups - 1) + 8)
                (blocks_in_group (derive dev_size g) (g.num_groups - 1)))) [
                  | inl room ↦ rw (nz, more, room) (derived g h word (inr (leb→le _ _ room)))
                  | inr runt ↦
                      rw (nz, more, runt)
                        (settle-SettledPost fuel (drop_last g)
                          (drop_last-IsCovered g h (leb-false _ _ more)) (unfold derive in word)
                          (omega arith))
                ]
      ]

abbrev pub first_block : ℕ → ℕ
first_block bs = if bs == 1024 then 1 else 0

module _ (dev_size bs inode_size : ℕ) (lo : 1024 ≤ bs) (hi : bs ≤ 65536) where
  pub initial-IsCovered :
      dev_size < 2 ^ 63
      → first_block bs < dev_size / bs
      → IsCovered dev_size (initial dev_size bs inode_size)
  unfolding initial
  initial-IsCovered small more =
      let total : ℕ = dev_size / bs in
      let first : ℕ = first_block bs in
      let le : first ≤ 1 = ground arith in
      let total_le : total ≤ dev_size = div-le_self dev_size bs in
      let e : (total + u64 - first) % u64 ≡ total - first = omega arith in
      rw e (
        let (up, down) = ceil_div_exact (total - first) (bs * 8) (omega arith) (omega arith) in
        let n : ℕ = ceil_div (total - first) (bs * 8) in
        let pos : 0 < n = positive n (bs * 8) (omega arith) in
        record {
          inside = div-mul-le_self dev_size bs;
          some_group = pos;
          last_begins = omega (arith, pred_mul n (bs * 8) pos);
          all_covered = omega arith;
          group_size = refl;
          block_bounds = (lo, hi);
          first_le = le;
        })
    where
      positive : (n k : ℕ) → 0 < n * k → 0 < n
      positive zero k h = grind arith
      positive (suc n) k h = omega arith

  -- With no block beyond the boot block the group count comes out as 0.
  pub no_groups : dev_size / bs ≤ first_block bs → (initial dev_size bs inode_size).num_groups ≡ 0
  unfolding initial ceil_div
  no_groups few = elim (Bool-cases (bs == 1024)) [
    | inl e ↦
        let k : bs ≡ 1024 = ground arith in
        rw k (elim (dec_lt (dev_size / 1024) 1) [
          | yes z ↦ let d : dev_size / 1024 ≡ 0 = omega arith in rw d
          | no nz ↦ let d : dev_size / 1024 ≡ 1 = omega (arith, rw (k) at few) in rw d
        ])
    | inr e ↦
        let d : dev_size / bs ≡ 0 = omega (arith, rw e at few) in
        rw (d, e) (div-eq_of_lt (omega arith))
  ]
