-- ===== src/Fat/Solve.antt =====
-- The loop that sizes the FAT: it ends in its second round, and the FAT it finds is large enough.
use fsforge.Common.{
  u64, ℕ, zero, suc, ◌+◌, ◌-◌, ◌*◌, ◌/◌, ◌%◌, ◌^◌, ◌≤◌, ◌<◌, ◌≡◌, ◌⊎◌, inl, inr, refl, ap, false,
  leb, Option, none, some, arith, Bool-cases, leb→le, le→leb, leb-false,
}
use native.Mathlib.Nat.{le-div_iff_mul-le, div-mul-le_self, div-le_self, le_trans}
use fsforge.Fat.Geometry.{num_fats, clusters_for, need_secs, solve_fat, choose_type}

-- The FAT types and cluster sizes that the code uses.
pub record IsType (bits spc : ℕ) : Type 0 where
  pub bits_cases : (bits ≡ 12) ⊎ (bits ≡ 16) ⊎ (bits ≡ 32)
  pub spc_pos : 0 < spc
  pub spc_le : spc ≤ 32

pub choose_type-IsType :
    (force total : ℕ) → IsType (choose_type force total).0 (choose_type force total).1
unfolding choose_type
choose_type-IsType force total = ground arith

pub div-le : (a b c : ℕ) → a ≤ b → a / c ≤ b / c
div-le a b zero le = omega arith
div-le a b (suc c) le =
    (le-div_iff_mul-le (omega arith)).1 (le_trans (div-mul-le_self a (suc c)) le)

need_secs_mono : (bits c c' : ℕ) → c ≤ c' → need_secs bits c ≤ need_secs bits c'
need_secs_mono bits c c' le = div-le _ _ 512 (omega (arith, grown))
  where
    grown : ((c + 2) * bits + 7) / 8 ≤ ((c' + 2) * bits + 7) / 8
    grown = div-le _ _ 8 (grind arith)

-- A FAT for as many clusters as there are sectors leaves room for two.
need_secs-room : (bits spc c n : ℕ) → IsType bits spc → c ≤ n → 8 ≤ n → 2 * need_secs bits c ≤ n + 2
need_secs-room bits spc c n t le big = elim t.bits_cases [
  | inl e ↦ rw e (omega arith)
  | inr (inl e) ↦ rw e (omega arith)
  | inr (inr e) ↦ rw e (omega arith)
]

-- What the loop finds.
pub record Solved (total fixed bits spc fat_size clusters : ℕ) : Type 0 where
  pub fits : fixed + 2 * fat_size ≤ total
  pub clusters_eq : clusters ≡ (total - fixed - 2 * fat_size) / spc
  pub enough : need_secs bits clusters ≤ fat_size
  pub least :
      (fat_size ≡ 1) ⊎ (1 < fat_size) × (fat_size ≡ need_secs bits ((total - fixed - 2 * 1) / spc))

abbrev pub SolvedBy : ℕ → ℕ → ℕ → ℕ → Option (ℕ × ℕ) → Type 0
SolvedBy total fixed bits spc none = ⊥
SolvedBy total fixed bits spc (some (f, c)) = Solved total fixed bits spc f c

module _ (total fixed bits spc : ℕ) (t : IsType bits spc) (small : total < 2 ^ 55) where
  clusters_exact :
      (f : ℕ)
      → fixed + 2 * f ≤ total
      → clusters_for total fixed spc f ≡ (total - fixed - 2 * f) / spc
  clusters_exact f fits =
      let e : (total + u64 - fixed - num_fats * f) % u64 ≡ total - fixed - 2 * f = omega arith in
      rw e

  stop :
      (fuel f : ℕ)
      → fixed + 2 * f ≤ total
      → need_secs bits (clusters_for total fixed spc f) ≤ f
      → (f ≡ 1) ⊎ (1 < f) × (f ≡ need_secs bits ((total - fixed - 2 * 1) / spc))
      → SolvedBy total fixed bits spc (solve_fat (suc fuel) total fixed bits spc f)
  unfolding solve_fat
  stop fuel f fits enough least =
      rw (le→leb _ _ enough) (record {
        fits = fits;
        clusters_eq = clusters_exact f fits;
        enough = enough;
        least = least;
      })

  fewer :
      (f : ℕ)
      → 1 ≤ f
      → fixed + 2 * f ≤ total
      → clusters_for total fixed spc f ≤ clusters_for total fixed spc 1
  fewer f pos fits =
      rw (clusters_exact f fits, clusters_exact 1 (omega arith)) (div-le _ _ spc (omega arith))

  again :
      (fuel f : ℕ)
      → leb (need_secs bits (clusters_for total fixed spc f)) f ≡ false
      → SolvedBy total fixed bits spc
          (solve_fat fuel total fixed bits spc (need_secs bits (clusters_for total fixed spc f)))
      → SolvedBy total fixed bits spc (solve_fat (suc fuel) total fixed bits spc f)
  unfolding solve_fat
  again fuel f e h = rw e h

  -- The second round asks for no more than the first: a larger FAT leaves fewer clusters.
  pub solve_fat-SolvedBy :
      fixed + 10 ≤ total → SolvedBy total fixed bits spc (solve_fat 2 total fixed bits spc 1)
  solve_fat-SolvedBy room =
      let c : ℕ = clusters_for total fixed spc 1 in
      let n : ℕ = need_secs bits c in
      let le_c : c ≤ total - fixed - 2 =
        rw (clusters_exact 1 (omega arith)) (div-le_self (total - fixed - 2 * 1) spc) in
      let half : 2 * n ≤ total - fixed - 2 + 2 =
        need_secs-room bits spc c (total - fixed - 2) t le_c (omega arith) in
      elim (Bool-cases (leb n 1)) [
        | inl e ↦ stop 1 1 (omega arith) (leb→le _ _ e) (inl refl)
        | inr e ↦
            let fits : fixed + 2 * n ≤ total = omega arith in
            let big : 1 < n = leb-false _ _ e in
            again 1 1 e (
              stop 0 n fits (need_secs_mono bits _ c (fewer n (omega arith) fits))
                (inr (big, ap (need_secs bits) (clusters_exact 1 (omega arith)))))
      ]
