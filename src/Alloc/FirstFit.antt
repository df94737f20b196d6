-- ===== src/Alloc/FirstFit.antt =====
-- The operations of the allocator: `Alloc`, `AllocUpTo`, `Free`, `Reserve` and `NewBitmap`.
use fsforge.Common.{
  ℕ, zero, suc, ◌+◌, ◌-◌, ◌≤◌, ◌<◌, ◌≡◌, inl, inr, refl, true, false, arith, leb, ltb, ◌==◌,
  Bool-cases, ltb→lt,
}
use fsforge.Alloc.{
  Bitmap, Result, ok, err, zero_len, no_space, out_of_range, stuck, first_free, first_used,
  alloc_loop, alloc,
}
use fsforge.Alloc.View.{is_used, IsValid, FreeRun}
use fsforge.Alloc.Scan.{LowestFrom}
use fsforge.Alloc.Find.{first_free_lem, first_used_lem, Took, take_run-Took}
use native.Mathlib.Decide.{dec_lt}

-- Block `s` is where first fit puts a run of `n`: the run is free, and no lower one is.
pub record FirstFit (b : Bitmap) (n s : ℕ) : Type 0 where
  pub within : s + n ≤ b.total
  pub is_free : FreeRun b s n
  pub lowest : (s' : ℕ) → s' < s → ¬ FreeRun b s' n

-- No run of `n` free blocks lies inside the managed range.
abbrev pub NoRun : Bitmap → ℕ → Type 0
NoRun b n = (s : ℕ) → s + n ≤ b.total → ¬ FreeRun b s n

-- What a call of `Alloc` promises on each of its outcomes.
abbrev pub AllocPost : ℕ → Bitmap → Result ℕ × Bitmap → Type 0
AllocPost n b (ok s, b') = FirstFit b n s × Took s n b b'
AllocPost n b (err zero_len, b') = (n ≡ 0) × (b' ≡ b)
AllocPost n b (err no_space, b') = (0 < n) × NoRun b n × (b' ≡ b)
AllocPost n b (err out_of_range, b') = ⊥
AllocPost n b (err stuck, b') = ⊥

module _ (n : ℕ) (b : Bitmap) (valid : IsValid b) (pos : 0 < n) where
  -- Past a free run `[i, end)` that is too short, the next candidate is the next free block.
  skip_short :
      (i end i' : ℕ)
      → LowestFrom true b i end
      → LowestFrom false b end i'
      → end - i < n
      → (s : ℕ) → i ≤ s
      → s < i'
      → s + n ≤ b.total
      → ¬ FreeRun b s n
  skip_short i end i' used next short s lo hi fits run = elim (dec_lt s end) [
    | yes inside ↦ cc (run end (omega arith) (omega arith), used.here (omega arith))
    | no beyond ↦ cc (run s (omega arith) (omega arith), next.skipped s (omega arith) hi)
  ]

  alloc_loop_lem :
      (fuel i : ℕ)
      → i ≤ b.total
      → (i < b.total → is_used b i ≡ false)
      → ((s : ℕ) → s < i → s + n ≤ b.total → ¬ FreeRun b s n)
      → b.total < fuel + i
      → AllocPost n b (alloc_loop fuel n i b)
  unfolding alloc_loop
  alloc_loop_lem zero i le at below enough = absurd (omega arith)
  alloc_loop_lem (suc fuel) i le at below enough = elim (Bool-cases (ltb i b.total)) [
    | inr e ↦ rw e (pos, (λ s fits. below s (ground arith) fits), refl)
    | inl e ↦
        let lt : i < b.total = ltb→lt i b.total e in
        let used = first_used_lem b i valid le in
        let next = first_free_lem b (first_used b i) valid used.upper in
        let more : i < first_used b i = elim (dec_lt i (first_used b i)) [
          | yes more ↦ more
          | no same ↦
              let eq : first_used b i ≡ i = omega (arith, used.lower) in
              cc (at lt, rw eq at (used.here (omega arith)))
        ] in
        elim (Bool-cases (leb n (first_used b i - i))) [
          | inl long ↦
              let room : n ≤ first_used b i - i = ground arith in
              let fits : i + n ≤ b.total = omega (arith, used.upper) in
              rw (e, long)
                (
                  record {
                    within = fits;
                    is_free = λ j lo hi. used.skipped j lo (omega arith);
                    lowest = λ s lt run. below s lt (omega arith) run;
                  },
                  take_run-Took i n b valid fits,
                )
          | inr short ↦
              rw (e, short)
                (alloc_loop_lem fuel (first_free b (first_used b i)) next.upper next.here
                  (λ s lt fits. elim (dec_lt s i) [
                    | yes low ↦ below s low fits
                    | no high ↦
                        skip_short i (first_used b i) _ used next (ground arith) s (omega arith) lt
                          fits
                  ])
                  (omega (arith, next.lower)))
        ]
  ]

-- `Alloc` on a valid bitmap reserves the lowest free run of `n` blocks and nothing else, and keeps
-- the bitmap valid. It fails exactly on a length of 0 and where no run of `n` free blocks exists,
-- and then leaves the bitmap as it was. The model's loop never runs out of fuel.
pub alloc-AllocPost : (n : ℕ) (b : Bitmap) → IsValid b → AllocPost n b (alloc n b)
unfolding alloc
alloc-AllocPost n b valid = elim (Bool-cases (n == 0)) [
  | inl e ↦ rw e (ground arith, refl)
  | inr e ↦
      let found = first_free_lem b b.hint valid valid.hint_le in
      let pos : 0 < n = ground arith in
      rw e (
        alloc_loop_lem n b valid pos (b.total + 1) (first_free b b.hint) found.upper found.here
          (λ s lt fits run. elim (dec_lt s b.hint) [
            | yes low ↦ cc (run s (omega arith) (omega arith), valid.below_hint s low)
            | no high ↦ cc (run s (omega arith) (omega arith), found.skipped s (omega arith) lt)
          ])
          (omega arith))
]
