-- ===== src/Ext/Geometry/Requested.antt =====
-- The geometry that `computeGeometry` of the ext engine returns, against the request: the number of groups
-- determines it, and it has the most groups of which the last is no runt.
use fsforge.Common.{
  ℕ, zero, suc, ◌+◌, ◌-◌, ◌*◌, ◌/◌, ◌^◌, ◌≤◌, ◌<◌, ◌≡◌, ◌≢◌, ◌⊎◌, inl, inr, refl, sym, ap, ◌∙◌,
  true, false, ltb, leb, ◌==◌, if◌then◌else◌, arith, Bool-cases, leb-false, ltb-false, ltb→lt,
}
use fsforge.Ext.Geometry.{
  Geometry, Result, ok, err, panic, stuck, bad_block_size, bad_device_size, too_small, ceil_div,
  spread_inodes, derive, blocks_in_group, overhead, settle, sane, initial, ones_count,
}
use fsforge.Ext.Geometry.Sound.{IsSettled, SettledPost, first_block}
use native.Mathlib.Decide.{dec_lt}

module _ (dev_size bs inode_size : ℕ) where
  -- The groups that the device's blocks make, the last one short or not.
  abbrev pub all_groups : ℕ
  all_groups = (initial dev_size bs inode_size).num_groups

  -- The blocks of the device, or of so many whole groups.
  unfoldable pub blocks_for : ℕ → ℕ
  blocks_for k = if k == all_groups then dev_size / bs else first_block bs + k * (bs * 8)

  -- What of a geometry does not depend on the inodes.
  pub record IsStart (g : Geometry) : Type 0 where
    pub block_size : g.block_size ≡ bs
    pub total_blocks : g.total_blocks ≡ blocks_for g.num_groups
    pub first_data_block : g.first_data_block ≡ first_block bs
    pub blocks_per_group : g.blocks_per_group ≡ bs * 8
    pub same_inode_size : g.inode_size ≡ inode_size
    pub inodes_per_block : g.inodes_per_block ≡ bs / inode_size

  -- The request's geometry with the number of groups that it has.
  pub record IsRequested (g : Geometry) : Type 0 where
    pub start : IsStart g
    pub inodes : g.inodes_per_group ≡ spread_inodes (dev_size / 16384) g.num_groups (bs * 8)
    pub inodes_count : g.inodes_count ≡ g.inodes_per_group * g.num_groups
    pub table : g.inode_table_blocks ≡ ceil_div (g.inodes_per_group * inode_size) bs
    pub gdt : g.gdt_blocks ≡ ceil_div (g.num_groups * 32) bs

  -- With `k` groups the last one does not hold its overhead and 8 blocks.
  abbrev pub IsRunt : ℕ → Type 0
  IsRunt k =
      (g : Geometry) × IsRequested g
      × (g.num_groups ≡ k)
      × (blocks_in_group g (k - 1) < overhead g (k - 1) + 8)

  abbrev pub IsMost : Geometry → Type 0
  IsMost g =
      IsRequested g
      × (g.num_groups ≤ all_groups)
      × ((k : ℕ) → g.num_groups < k → k ≤ all_groups → IsRunt k)

  derive-IsRequested : (g : Geometry) → IsStart g → IsRequested (derive dev_size g)
  unfolding derive
  derive-IsRequested g s = record {
    start = record {
      block_size = s.block_size;
      total_blocks = s.total_blocks;
      first_data_block = s.first_data_block;
      blocks_per_group = s.blocks_per_group;
      same_inode_size = s.same_inode_size;
      inodes_per_block = s.inodes_per_block;
    };
    inodes = ap (spread_inodes (dev_size / 16384) g.num_groups) s.blocks_per_group;
    inodes_count = refl;
    table =
        ap
          (λ (b : ℕ).
            ceil_div
              (spread_inodes (dev_size / 16384) g.num_groups g.blocks_per_group * g.inode_size) b)
          s.block_size
        ∙ ap
            (λ (i : ℕ).
              ceil_div (spread_inodes (dev_size / 16384) g.num_groups g.blocks_per_group * i) bs)
            s.same_inode_size;
    gdt = ap (ceil_div (g.num_groups * 32)) s.block_size;
  }

  -- The geometry that the loop goes on with.
  abbrev fewer : Geometry → Geometry
  fewer g = record (derive dev_size g) {
    num_groups = g.num_groups - 1;
    total_blocks = g.first_data_block + (g.num_groups - 1) * g.blocks_per_group;
  }

  fewer-IsStart :
      (g : Geometry) → IsStart g → 1 < g.num_groups → g.num_groups ≤ all_groups → IsStart (fewer g)
  unfolding derive blocks_for
  fewer-IsStart g s more le =
      let e : (g.num_groups - 1 == all_groups) ≡ false = ground arith in
      let a = s.first_data_block in
      let b = s.blocks_per_group in
      record {
        block_size = s.block_size;
        total_blocks = rw e (
            ap (λ (f : ℕ). f + (g.num_groups - 1) * g.blocks_per_group) a
            ∙ ap (λ (k : ℕ). first_block bs + (g.num_groups - 1) * k) b);
        first_data_block = a;
        blocks_per_group = b;
        same_inode_size = s.same_inode_size;
        inodes_per_block = s.inodes_per_block;
      }

  abbrev pub MostPost : Result Geometry → Type 0
  MostPost (ok g) = IsMost g
  MostPost _ = Unit

  -- A loop whose groups above those of `g` are runts.
  pub settle-MostPost :
      (fuel : ℕ) (g : Geometry)
      → IsStart g
      → g.num_groups ≤ all_groups
      → ((k : ℕ) → g.num_groups < k → k ≤ all_groups → IsRunt k)
      → MostPost (settle fuel dev_size g)
  unfolding settle
  settle-MostPost zero g s le above = tt
  settle-MostPost (suc fuel) g s le above = elim (Bool-cases (g.num_groups == 0)) [
    | inl z ↦ rw z tt
    | inr nz ↦ elim (Bool-cases (leb g.num_groups 1)) [
      | inl one ↦ rw (nz, one) (derive-IsRequested g s, unfold derive in le, unfold derive in above)
      | inr more ↦
          elim (Bool-cases (
            leb (overhead (derive dev_size g) (g.num_groups - 1) + 8)
              (blocks_in_group (derive dev_size g) (g.num_groups - 1)))) [
                | inl room ↦
                    rw (nz, more, room)
                      (derive-IsRequested g s, unfold derive in le, unfold derive in above)
                | inr runt ↦
                    let many : 1 < g.num_groups = leb-false _ _ more in
                    rw (nz, more, runt)
                      (settle-MostPost fuel (fewer g) (fewer-IsStart g s many le) (omega arith)
                        (λ k lo hi. elim (dec_lt g.num_groups k) [
                          | yes lt ↦ above k lt hi
                          | no same ↦
                              let e : g.num_groups ≡ k = omega arith in
                              (
                                derive dev_size g,
                                derive-IsRequested g s,
                                unfold derive in e,
                                rw (sym e) (leb-false _ _ runt),
                              )
                        ]))
              ]
    ]
  ]

  pub initial-IsStart : IsStart (initial dev_size bs inode_size)
  unfolding initial blocks_for
  initial-IsStart =
      let n : ℕ = all_groups in
      let e : (n == n) ≡ true = ground arith in
      record {
        block_size = refl;
        total_blocks = rw e refl;
        first_data_block = refl;
        blocks_per_group = refl;
        same_inode_size = refl;
        inodes_per_block = refl;
      }

  pub initial-MostPost :
      (fuel : ℕ) → MostPost (settle fuel dev_size (initial dev_size bs inode_size))
  initial-MostPost fuel =
      settle-MostPost fuel (initial dev_size bs inode_size) initial-IsStart (omega arith)
        (λ k lo hi. absurd (omega arith))

abbrev pub ComputePost : ℕ → ℕ → ℕ → Result Geometry → Type 0
ComputePost dev_size bs inode_size (ok g) =
    IsSettled dev_size g × IsMost dev_size bs inode_size g × (overhead g 0 + 8 ≤ g.total_blocks)
ComputePost dev_size bs inode_size (err bad_block_size) =
    (bs < 1024) ⊎ (65536 < bs) ⊎ (ones_count 32 bs ≢ 1)
ComputePost dev_size bs inode_size (err bad_device_size) = dev_size ≡ 0
ComputePost dev_size bs inode_size (err too_small) =
    (g : Geometry) × IsSettled dev_size g
    × IsMost dev_size bs inode_size g
    × (g.total_blocks < overhead g 0 + 8)
ComputePost dev_size bs inode_size panic = (0 < dev_size) × (dev_size / bs ≤ first_block bs)
ComputePost dev_size bs inode_size stuck = ⊥

pub sane-ComputePost :
    (dev_size bs inode_size : ℕ) (small : dev_size < 2 ^ 63) (r : Result Geometry)
    → SettledPost dev_size small r
    → MostPost dev_size bs inode_size r
    → ComputePost dev_size bs inode_size (sane r)
unfolding sane
sane-ComputePost dev_size bs inode_size small (ok g) h m =
    let enough : ltb g.inodes_per_group 11 ≡ false = ground (arith, h.inode_bounds) in
    elim (Bool-cases (ltb g.total_blocks (overhead g 0 + 8))) [
      | inl e ↦ rw (enough, e) (g, h, m, ltb→lt _ _ e)
      | inr e ↦ rw (enough, e) (h, m, ltb-false _ _ e)
    ]
sane-ComputePost dev_size bs inode_size small (err e) h m = absurd h
sane-ComputePost dev_size bs inode_size small panic h m = absurd h
sane-ComputePost dev_size bs inode_size small stuck h m = absurd h
