-- ===== src/ExFat/Geometry/Sound.antt =====
-- What `computeGeometry` of the exFAT engine promises.
use fsforge.Common.{
  u32, ℕ, suc, ◌+◌, ◌-◌, ◌*◌, ◌/◌, ◌%◌, ◌^◌, ◌≤◌, ◌<◌, ◌≡◌, ◌⊎◌, inl, inr, refl, ap, ◌||◌, not,
  false, ltb, leb, ◌==◌, arith, Bool-cases, ltb-false, leb→le, leb-false, le→leb,
}
use native.Mathlib.Nat.{lt-div-mul-add, div-mul-le_self, mul-mod_left}
use fsforge.ExFat.Geometry.{
  align, Geometry, Result, ok, err, bad_size, too_small, stuck, heap_for, count_for, secs_for,
  solve_length, finish, shift_for, compute_geometry, cluster_sector,
}

abbrev IsShift : ℕ → Type 0
IsShift shift = (shift ≡ 3) ⊎ (shift ≡ 6) ⊎ (shift ≡ 8)

-- A usable layout of `total` sectors.
pub record IsLayout (total : ℕ) (g : Geometry) : Type 0 where
  pub all_sectors : g.total_sectors ≡ total
  pub cluster_size : g.sec_per_clus ≡ 2 ^ g.spc_shift
  pub cluster_pos : 0 < g.sec_per_clus
  pub some_cluster : 0 < g.cluster_count
  pub fat_holds : (g.cluster_count + 2) * 4 ≤ g.fat_length * 512
  pub fat_behind_boot : g.fat_offset ≡ 24
  pub heap_behind_fat : g.fat_offset + g.fat_length ≤ g.cluster_heap_start
  pub heap_aligned : g.cluster_heap_start % g.sec_per_clus ≡ 0
  pub heap_fits : g.cluster_heap_start + g.cluster_count * g.sec_per_clus ≤ total
  pub no_cluster_left : total < g.cluster_heap_start + (g.cluster_count + 1) * g.sec_per_clus

-- With the FAT length of the first or the second round no cluster fits behind the FAT.
abbrev pub TooSmall : ℕ → ℕ → Type 0
TooSmall total spc =
    (f : ℕ) × ((f ≡ 1) ⊎ (f ≡ secs_for (count_for total spc 1))) × (total < heap_for spc f + spc)

abbrev SolvePost : ℕ → ℕ → Result ℕ → Type 0
SolvePost total spc (ok f) =
    (secs_for (count_for total spc f) ≤ f)
    × (heap_for spc f < total)
    × ((f ≡ 1) ⊎ (f ≡ secs_for (count_for total spc 1)))
SolvePost total spc (err too_small) = TooSmall total spc
SolvePost total spc (err _) = ⊥

smaller_count :
    (total spc f : ℕ)
    → (spc ≡ 8) ⊎ (spc ≡ 64) ⊎ (spc ≡ 256)
    → 1 ≤ f
    → count_for total spc f ≤ count_for total spc 1
smaller_count total spc f (inl e) h = rw e (omega arith)
smaller_count total spc f (inr (inl e)) h = rw e (omega arith)
smaller_count total spc f (inr (inr e)) h = rw e (omega arith)

secs_mono : (c c' : ℕ) → c ≤ c' → secs_for c ≤ secs_for c'
secs_mono c c' h = omega arith

secs_pos : (c : ℕ) → 1 ≤ secs_for c
secs_pos c = omega arith

-- One round at a FAT length that is large enough.
round_ok :
    (fuel total spc f : ℕ)
    → 0 < spc
    → secs_for (count_for total spc f) ≤ f
    → (f ≡ 1) ⊎ (f ≡ secs_for (count_for total spc 1))
    → SolvePost total spc (solve_length (suc fuel) total spc f)
unfolding solve_length
round_ok fuel total spc f pos enough which = elim (Bool-cases (leb total (heap_for spc f))) [
  | inl full ↦ rw full (f, which, omega (arith, leb→le _ _ full))
  | inr room ↦ rw (room, le→leb _ _ enough) (enough, leb-false _ _ room, which)
]

round_again :
    (fuel total spc f : ℕ)
    → 0 < spc
    → leb (secs_for (count_for total spc f)) f ≡ false
    → (f ≡ 1) ⊎ (f ≡ secs_for (count_for total spc 1))
    → SolvePost total spc (solve_length fuel total spc (secs_for (count_for total spc f)))
    → SolvePost total spc (solve_length (suc fuel) total spc f)
unfolding solve_length
round_again fuel total spc f pos e which h = elim (Bool-cases (leb total (heap_for spc f))) [
  | inl full ↦ rw full (f, which, omega (arith, leb→le _ _ full))
  | inr room ↦ rw (room, e) h
]

solve_length-SolvePost :
    (total spc : ℕ)
    → (spc ≡ 8) ⊎ (spc ≡ 64) ⊎ (spc ≡ 256)
    → 0 < spc
    → SolvePost total spc (solve_length 2 total spc 1)
solve_length-SolvePost total spc sizes pos =
    elim (Bool-cases (leb (secs_for (count_for total spc 1)) 1)) [
      | inl e ↦ round_ok 1 total spc 1 pos (leb→le _ _ e) (inl refl)
      | inr e ↦ round_again 1 total spc 1 pos e (inl refl) (
          round_ok 0 total spc (secs_for (count_for total spc 1)) pos
            (secs_mono _ _ (smaller_count total spc _ sizes (secs_pos _))) (inr refl))
    ]

abbrev pub LayoutPost : ℕ → ℕ → Result Geometry → Type 0
LayoutPost total spc (ok g) = IsLayout total g × (g.sec_per_clus ≡ spc)
LayoutPost total spc (err too_small) = TooSmall total spc
LayoutPost total spc (err _) = ⊥

spc_pos : (shift : ℕ) → IsShift shift → 0 < 2 ^ shift
spc_pos shift (inl e) = rw e (omega arith)
spc_pos shift (inr (inl e)) = rw e (omega arith)
spc_pos shift (inr (inr e)) = rw e (omega arith)

spc_sizes : (shift : ℕ) → IsShift shift → (2 ^ shift ≡ 8) ⊎ (2 ^ shift ≡ 64) ⊎ (2 ^ shift ≡ 256)
spc_sizes shift (inl e) = inl (rw e)
spc_sizes shift (inr (inl e)) = inr (inl (rw e))
spc_sizes shift (inr (inr e)) = inr (inr (rw e))

align-ge : (v to : ℕ) → 0 < to → v ≤ align v to
align-ge v to pos = omega (arith, lt-div-mul-add {a = v + to - 1} {b = to} pos)

finish-LayoutPost :
    (total shift : ℕ) (r : Result ℕ)
    → IsShift shift
    → SolvePost total (2 ^ shift) r
    → LayoutPost total (2 ^ shift) (finish total shift r)
finish-LayoutPost total shift (err bad_size) s h = absurd h
finish-LayoutPost total shift (err stuck) s h = absurd h
finish-LayoutPost total shift (err too_small) s h = h
finish-LayoutPost total shift (ok f) s (enough, below, which) =
    let spc : ℕ = 2 ^ shift in
    let pos : 0 < 2 ^ shift = spc_pos shift s in
    let over = lt-div-mul-add {a = total - heap_for (2 ^ shift) f} {b = 2 ^ shift} pos in
    elim (Bool-cases (ltb (count_for total (2 ^ shift) f) 1)) [
      | inl none ↦
          let z : count_for total (2 ^ shift) f ≡ 0 = ground arith in
          rw none (f, which, omega (arith, over, ap (λ (c : ℕ). c * 2 ^ shift) z))
      | inr some ↦ rw some (
        record {
          all_sectors = refl;
          cluster_size = refl;
          cluster_pos = pos;
          some_cluster = omega (arith, ltb-false _ _ some);
          fat_holds = omega arith;
          fat_behind_boot = refl;
          heap_behind_fat = align-ge (24 + f) (2 ^ shift) pos;
          heap_aligned = mul-mod_left ((24 + f + 2 ^ shift - 1) / 2 ^ shift) (2 ^ shift);
          heap_fits = omega (arith, div-mul-le_self (total - heap_for (2 ^ shift) f) (2 ^ shift));
          no_cluster_left = omega (arith, over);
        },
        refl,
      )
    ]

shift_for-IsShift : (total : ℕ) → IsShift (shift_for total)
unfolding shift_for
shift_for-IsShift total = ground arith

abbrev pub VolumePost : ℕ → Result Geometry → Type 0
VolumePost dev_size (err bad_size) = (dev_size ≡ 0) ⊎ (0 < dev_size % 512)
VolumePost dev_size r =
    (0 < dev_size)
    × (dev_size % 512 ≡ 0)
    × LayoutPost (dev_size / 512) (2 ^ shift_for (dev_size / 512)) r

post :
    (dev_size : ℕ) (r : Result Geometry)
    → 0 < dev_size
    → dev_size % 512 ≡ 0
    → LayoutPost (dev_size / 512) (2 ^ shift_for (dev_size / 512)) r
    → VolumePost dev_size r
post dev_size (ok g) pos whole h = (pos, whole, h)
post dev_size (err bad_size) pos whole h = absurd h
post dev_size (err too_small) pos whole h = (pos, whole, h)
post dev_size (err stuck) pos whole h = (pos, whole, h)

-- `computeGeometry` of the exFAT engine refuses the sizes that are 0 or no multiple of 512, and those
-- only, as bad; otherwise it returns a layout in which the FAT stands behind the boot regions and has
-- an entry for each cluster and the two reserved ones, the cluster heap begins behind the FAT at a
-- cluster boundary, its clusters, one at least, lie inside the device, and no further one would. It says
-- too small only where no cluster fits behind the FAT. Its loop ends: two rounds are enough.
pub compute_geometry-VolumePost : (dev_size : ℕ) → VolumePost dev_size (compute_geometry dev_size)
unfolding compute_geometry
compute_geometry-VolumePost dev_size =
    elim (Bool-cases (dev_size == 0 || not (dev_size % 512 == 0))) [
      | inl e ↦ rw e (ground arith)
      | inr e ↦
          let total : ℕ = dev_size / 512 in
          let s : IsShift (shift_for (dev_size / 512)) = shift_for-IsShift (dev_size / 512) in
          rw e (
            post dev_size _ (ground arith) (ground arith) (
              finish-LayoutPost (dev_size / 512) (shift_for (dev_size / 512)) _ s
                (solve_length-SolvePost (dev_size / 512) _ (spc_sizes _ s) (spc_pos _ s))))
    ]

times_le : (a b spc : ℕ) → a + 1 ≤ b → a * spc + spc ≤ b * spc
times_le a b spc h = grind arith

-- In such a layout the sectors of two clusters, numbered from 2, lie in the cluster heap and in the
-- order of the numbers, with no sector in common.
pub heap_order :
    (total : ℕ) (g : Geometry) (c c' : ℕ)
    → IsLayout total g
    → 2 ≤ c
    → c < c'
    → c' < g.cluster_count + 2
    → c' < u32
    → (g.cluster_heap_start ≤ cluster_sector g c)
      × (cluster_sector g c + g.sec_per_clus ≤ cluster_sector g c')
      × (cluster_sector g c' + g.sec_per_clus ≤ total)
unfolding cluster_sector
heap_order total g c c' h lo lt hi word =
    let e : (c + u32 - 2) % u32 ≡ c - 2 = omega arith in
    let e' : (c' + u32 - 2) % u32 ≡ c' - 2 = omega arith in
    rw (e, e')
      (
        omega arith,
        omega (arith, times_le (c - 2) (c' - 2) g.sec_per_clus (omega arith)),
        omega (arith, h.heap_fits, times_le (c' - 2) g.cluster_count g.sec_per_clus (omega arith)),
      )
