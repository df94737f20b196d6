-- ===== src/Fat/Sound.antt =====
-- What `computeGeometry` promises.
use fsforge.Common.{
  ℕ, ◌+◌, ◌-◌, ◌*◌, ◌/◌, ◌%◌, ◌^◌, ◌≤◌, ◌<◌, ◌≡◌, ◌⊎◌, inl, inr, refl, true, false, not, ◌||◌, ltb,
  ◌==◌, Option, none, some, arith, Bool-cases, ltb-false, ltb→lt,
}
use fsforge.Fat.Geometry.{
  Geometry, Result, ok, err, bad_size, too_small, stuck, reserved_for, root_entries_for,
  root_dir_for, need_secs, validate, finish, layout_for, choose_type, compute_geometry,
  cluster_sector, root_region_sector,
}
use fsforge.Fat.Solve.{IsType, choose_type-IsType, Solved, SolvedBy, solve_fat-SolvedBy}
use native.Mathlib.Nat.{div-mul-le_self, lt-div-mul-add}

-- The cluster count from which a driver derives the FAT type.
abbrev pub ClustersFit : ℕ → ℕ → Type 0
ClustersFit bits clusters =
    (bits ≡ 12) × (1 ≤ clusters) × (clusters ≤ 4084)
    ⊎ (bits ≡ 16) × (4085 ≤ clusters) × (clusters ≤ 65524)
    ⊎ (bits ≡ 32) × (65525 ≤ clusters)

-- A usable layout of `total` sectors.
pub record IsLayout (total : ℕ) (g : Geometry) : Type 0 where
  pub all_sectors : g.total_sectors ≡ total
  pub type_fits : ClustersFit g.fat_bits g.clusters
  pub fat_holds : (g.clusters + 2) * g.fat_bits ≤ g.fat_size_sectors * 512 * 8
  pub root_after_fats : root_region_sector g ≡ g.reserved_secs + 2 * g.fat_size_sectors
  pub data_after_root : g.data_start_sec ≡ root_region_sector g + g.root_dir_sectors
  pub root_holds : g.root_ent_count * 32 ≤ g.root_dir_sectors * 512
  pub data_fits : g.data_start_sec + g.clusters * g.sec_per_clus ≤ total
  pub no_cluster_left : total < g.data_start_sec + (g.clusters + 1) * g.sec_per_clus
  pub cluster_pos : 0 < g.sec_per_clus

-- The volume has no room for the fixed regions, or it has more or fewer clusters than its type may. `Solved`
-- determines the FAT's size and the cluster count: one sector where that is enough, else what the clusters
-- beside a FAT of one sector need.
abbrev pub TooSmall : ℕ → ℕ → ℕ → Type 0
TooSmall total bits spc =
    (total < reserved_for bits + root_dir_for bits + 2 + 8)
    ⊎ (f : ℕ) × (c : ℕ) × Solved total (reserved_for bits + root_dir_for bits) bits spc f c
      × ¬ ClustersFit bits c

abbrev pub LayoutPost : ℕ → ℕ → ℕ → Result Geometry → Type 0
LayoutPost total bits spc (ok g) =
    IsLayout total g
    × (g.fat_bits ≡ bits)
    × (g.sec_per_clus ≡ spc)
    × Solved total (reserved_for bits + root_dir_for bits) bits spc g.fat_size_sectors g.clusters
LayoutPost total bits spc (err too_small) = TooSmall total bits spc
LayoutPost total bits spc (err _) = ⊥

holds :
    (bits c f : ℕ)
    → (bits ≡ 12) ⊎ (bits ≡ 16) ⊎ (bits ≡ 32)
    → need_secs bits c ≤ f
    → (c + 2) * bits ≤ f * 512 * 8
holds bits c f (inl e) h = omega arith
holds bits c f (inr (inl e)) h = omega arith
holds bits c f (inr (inr e)) h = omega arith

validate-ClustersFit :
    (bits c : ℕ)
    → (bits ≡ 12) ⊎ (bits ≡ 16) ⊎ (bits ≡ 32)
    → validate bits c ≡ true
    → ClustersFit bits c
unfolding validate
validate-ClustersFit bits c (inl e) h = ground arith
validate-ClustersFit bits c (inr (inl e)) h = ground arith
validate-ClustersFit bits c (inr (inr e)) h = ground arith

not_valid :
    (bits c : ℕ)
    → (bits ≡ 12) ⊎ (bits ≡ 16) ⊎ (bits ≡ 32)
    → validate bits c ≡ false
    → ¬ ClustersFit bits c
unfolding validate
not_valid bits c (inl e) h = ground arith
not_valid bits c (inr (inl e)) h = ground arith
not_valid bits c (inr (inr e)) h = ground arith

module _ (total r d f c spc : ℕ) (c_eq : c ≡ (total - (r + d) - 2 * f) / spc) where
  within : r + d + 2 * f ≤ total → r + 2 * f + d + c * spc ≤ total
  within fits = rw c_eq (omega (arith, div-mul-le_self (total - (r + d) - 2 * f) spc))

  none_left : 0 < spc → total < r + 2 * f + d + (c + 1) * spc
  none_left pos =
      rw c_eq (omega (arith, lt-div-mul-add {a = total - (r + d) - 2 * f} {b = spc} pos))

root_room :
    (bits : ℕ)
    → (bits ≡ 12) ⊎ (bits ≡ 16) ⊎ (bits ≡ 32)
    → root_entries_for bits * 32 ≤ root_dir_for bits * 512
root_room bits (inl e) = rw e (omega arith)
root_room bits (inr (inl e)) = rw e (omega arith)
root_room bits (inr (inr e)) = rw e (omega arith)

finish-LayoutPost :
    (total bits spc : ℕ) (s : Option (ℕ × ℕ))
    → IsType bits spc
    → SolvedBy total (reserved_for bits + root_dir_for bits) bits spc s
    → LayoutPost total bits spc (finish total bits spc s)
unfolding root_region_sector
finish-LayoutPost total bits spc none t h = h
finish-LayoutPost total bits spc (some (f, c)) t h = elim (Bool-cases (validate bits c)) [
  | inr e ↦ rw e (inr (f, c, h, not_valid bits c t.bits_cases e))
  | inl e ↦ rw e (
    record {
      all_sectors = refl;
      type_fits = validate-ClustersFit bits c t.bits_cases e;
      fat_holds = holds bits c f t.bits_cases h.enough;
      root_after_fats = refl;
      data_after_root = refl;
      root_holds = root_room bits t.bits_cases;
      data_fits = within total (reserved_for bits) (root_dir_for bits) f c spc h.clusters_eq h.fits;
      no_cluster_left =
          none_left total (reserved_for bits) (root_dir_for bits) f c spc h.clusters_eq t.spc_pos;
      cluster_pos = t.spc_pos;
    },
    refl,
    refl,
    h,
  )
]

layout_for-LayoutPost :
    (total bits spc : ℕ)
    → IsType bits spc
    → total < 2 ^ 55
    → LayoutPost total bits spc (layout_for total bits spc)
unfolding layout_for
layout_for-LayoutPost total bits spc t small =
    elim (Bool-cases (ltb total (reserved_for bits + root_dir_for bits + 2 + 8))) [
      | inl e ↦ rw e (inl (ltb→lt _ _ e))
      | inr e ↦ rw e (
          finish-LayoutPost total bits spc _ t
            (solve_fat-SolvedBy total _ bits spc t small (omega (arith, ltb-false _ _ e))))
    ]

abbrev pub GeometryPost : ℕ → ℕ → Result Geometry → Type 0
GeometryPost dev_size force (err bad_size) = (dev_size ≡ 0) ⊎ (0 < dev_size % 512)
GeometryPost dev_size force r =
    (0 < dev_size)
    × (dev_size % 512 ≡ 0)
    × LayoutPost (dev_size / 512) (choose_type force (dev_size / 512)).0
        (choose_type force (dev_size / 512)).1 r

post :
    (dev_size force : ℕ) (r : Result Geometry)
    → 0 < dev_size
    → dev_size % 512 ≡ 0
    → LayoutPost
        (dev_size / 512)
        (choose_type force (dev_size / 512)).0
        (choose_type force (dev_size / 512)).1
        r
    → GeometryPost dev_size force r
post dev_size force (ok g) pos whole h = (pos, whole, h)
post dev_size force (err bad_size) pos whole h = absurd h
post dev_size force (err too_small) pos whole h = (pos, whole, h)
post dev_size force (err stuck) pos whole h = (pos, whole, h)

pub compute_geometry-GeometryPost :
    (dev_size force : ℕ)
    → dev_size < 2 ^ 63
    → GeometryPost dev_size force (compute_geometry dev_size force)
unfolding compute_geometry
compute_geometry-GeometryPost dev_size force small =
    elim (Bool-cases (dev_size == 0 || not (dev_size % 512 == 0))) [
      | inl e ↦ rw e (ground arith)
      | inr e ↦ rw e (
          post dev_size force _ (ground arith) (ground arith) (
            layout_for-LayoutPost (dev_size / 512) _ _ (choose_type-IsType force (dev_size / 512))
              (omega arith)))
    ]

times_le : (a b spc : ℕ) → a + 1 ≤ b → a * spc + spc ≤ b * spc
times_le a b spc h = grind arith

-- In a layout the sectors of two clusters, numbered from 2, lie in the data region and in the order
-- of the numbers, with no sector in common.
pub cluster_sector_order :
    (total : ℕ) (g : Geometry) (c c' : ℕ)
    → IsLayout total g
    → 2 ≤ c
    → c < c'
    → c' < g.clusters + 2
    → c' < 2 ^ 32
    → (g.data_start_sec ≤ cluster_sector g c)
      × (cluster_sector g c + g.sec_per_clus ≤ cluster_sector g c')
      × (cluster_sector g c' + g.sec_per_clus ≤ total)
unfolding cluster_sector
cluster_sector_order total g c c' h lo lt hi word =
    let e : (c + 2 ^ 32 - 2) % 2 ^ 32 ≡ c - 2 = omega arith in
    let e' : (c' + 2 ^ 32 - 2) % 2 ^ 32 ≡ c' - 2 = omega arith in
    rw (e, e')
      (
        omega arith,
        omega (arith, times_le (c - 2) (c' - 2) g.sec_per_clus (omega arith)),
        omega (arith, h.data_fits, times_le (c' - 2) g.clusters g.sec_per_clus (omega arith)),
      )
