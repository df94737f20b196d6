-- ===== src/Alloc/Operations.antt =====
-- `AllocUpTo`, `Free`, `Reserve` and `NewBitmap`.
use fsforge.Common.{
  ◌⊎◌, u64, ℕ, ◌+◌, ◌-◌, ◌*◌, ◌/◌, ◌%◌, ◌≤◌, ◌<◌, ◌≡◌, inl, inr, refl, ◌∙◌, true, false, length,
  min, arith, leb, ltb, ◌==◌, Bool-cases, ltb→lt, replicate, [], All-replicate, length-replicate,
  get_or-replicate,
}
use fsforge.Alloc.{
  Bitmap, Result, ok, err, zero_len, no_space, out_of_range, stuck, first_free, take_run,
  alloc_up_to, free, reserve, each_block, unmark, new_bitmap,
}
use fsforge.Alloc.View.{is_used, IsWide, IsValid, FreeRun, Becomes}
use fsforge.Alloc.Blocks.{Written, mark-Written, unmark-Written}
use fsforge.Alloc.Scan.{LowestFrom}
use fsforge.Alloc.Find.{first_free_lem, first_used_lem, Took, take_run-Took}
use native.Mathlib.Decide.{dec_lt}

-- The lowest free run, or its first `n` blocks.
pub record LowestRun (b : Bitmap) (n s got : ℕ) : Type 0 where
  pub some_block : 0 < got
  pub at_most : got ≤ n
  pub within : s + got ≤ b.total
  pub is_free : FreeRun b s got
  pub lowest : (j : ℕ) → j < s → is_used b j ≡ true
  pub maximal : (got ≡ n) ⊎ (s + got ≡ b.total) ⊎ (is_used b (s + got) ≡ true)

abbrev pub AllocUpToPost : ℕ → Bitmap → Result (ℕ × ℕ) × Bitmap → Type 0
AllocUpToPost n b (ok (s, got), b') = LowestRun b n s got × Took s got b b'
AllocUpToPost n b (err zero_len, b') = (n ≡ 0) × (b' ≡ b)
AllocUpToPost n b (err no_space, b') =
    (0 < n) × ((j : ℕ) → j < b.total → is_used b j ≡ true) × (b' ≡ b)
AllocUpToPost n b (err out_of_range, b') = ⊥
AllocUpToPost n b (err stuck, b') = ⊥

module _ (n : ℕ) (b : Bitmap) (valid : IsValid b) (s end : ℕ) where
  below_first : LowestFrom false b b.hint s → (j : ℕ) → j < s → is_used b j ≡ true
  below_first found j lt = elim (dec_lt j b.hint) [
    | yes low ↦ valid.below_hint j low
    | no high ↦ found.skipped j (omega arith) lt
  ]

  free_end-gt : LowestFrom false b b.hint s → LowestFrom true b s end → s < b.total → s < end
  free_end-gt found used lt = elim (dec_lt s end) [
    | yes more ↦ more
    | no same ↦
        let eq : end ≡ s = omega (arith, used.lower) in
        cc (found.here lt, rw eq at (used.here (omega arith)))
  ]

  lowest_run :
      LowestFrom false b b.hint s
      → LowestFrom true b s end
      → s < b.total
      → 0 < n
      → LowestRun b n s (min (end - s) n)
  lowest_run found used lt pos = record {
    some_block = omega (arith, free_end-gt found used lt);
    at_most = omega arith;
    within = omega (arith, used.upper, used.lower);
    is_free = λ j lo hi. used.skipped j lo (omega arith);
    lowest = below_first found;
    maximal = elim (dec_lt (end - s) n) [
      | no enough ↦ inl (omega arith)
      | yes short ↦ elim (dec_lt end b.total) [
        | no last ↦ inr (inl (omega (arith, used.upper, used.lower)))
        | yes room ↦
            let e : s + min (end - s) n ≡ end = omega (arith, used.lower) in
            inr (inr (rw e (used.here room)))
      ]
    ];
  }

-- `AllocUpTo` on a valid bitmap reserves up to `n` blocks from the lowest free block on, `n` of them
-- or as many as that free run has, and nothing else. It fails exactly on a length of 0 and where no
-- block is free, and then leaves the bitmap as it was.
pub alloc_up_to-AllocUpToPost :
    (n : ℕ) (b : Bitmap) → IsValid b → AllocUpToPost n b (alloc_up_to n b)
unfolding alloc_up_to
alloc_up_to-AllocUpToPost n b valid =
    let found = first_free_lem b b.hint valid valid.hint_le in
    elim (Bool-cases (n == 0)) [
      | inl e ↦ rw e (ground arith, refl)
      | inr e ↦ elim (Bool-cases (leb b.total (first_free b b.hint))) [
        | inl full ↦
            let le : b.total ≤ first_free b b.hint = ground arith in
            rw (e, full)
              (ground arith, (λ j lt. below_first n b valid _ 0 found j (omega arith)), refl)
        | inr room ↦
            let lt : first_free b b.hint < b.total = ground arith in
            let used = first_used_lem b (first_free b b.hint) valid found.upper in
            let run = lowest_run n b valid _ _ found used lt (ground arith) in
            rw (e, room) (run, take_run-Took _ _ b valid run.within)
      ]
    ]

-- `[start, start + n)` becomes free, and nothing else changes.
pub record Freed (start n : ℕ) (b b' : Bitmap) : Type 0 where
  pub valid : IsValid b'
  pub becomes : Becomes false start n b b'
  pub same_total : b'.total ≡ b.total

cleared-Freed :
    (start n h : ℕ) (b b' : Bitmap)
    → IsValid b
    → start + n ≤ b.total
    → Written false start n b b'
    → h ≤ start
    → h ≤ b.hint
    → Freed start n b (record b' { hint = h })
cleared-Freed start n h b b' valid fits w hs hh = record {
  valid = record {
    words = omega (arith, valid.words, w.same_length, w.same_total);
    wide = w.wide;
    fits = omega (arith, valid.fits, w.same_total);
    hint_le = omega (arith, w.same_total);
    padding = λ j lo hi.
        w.behind j (omega (arith, w.same_total))
        ∙ valid.padding j (omega (arith, w.same_total)) (omega (arith, w.same_length));
    below_hint = λ j lt. w.before j (omega arith) ∙ valid.below_hint j (omega arith);
  };
  becomes = (w.inside, w.before, w.behind);
  same_total = w.same_total;
}

abbrev pub FreePost : ℕ → ℕ → Bitmap → Result (Unit {0}) × Bitmap → Type 0
FreePost start n b (ok u, b') = (start + n ≤ b.total) × Freed start n b b'
FreePost start n b (err out_of_range, b') = (b.total < start + n) × (b' ≡ b)
FreePost start n b (err _, b') = ⊥

no_wrap : (start n : ℕ) → start + n < u64 → (start + n) % u64 ≡ start + n
no_wrap start n h = omega arith

run_length : (start n : ℕ) → start + n - start ≡ n
run_length start n = omega arith

-- `Free` on a valid bitmap releases the blocks of the run and no other, and keeps the bitmap valid,
-- its hint included. It fails, changing nothing, exactly where the run extends past the managed
-- range. The end of the run is taken to fit a uint64.
pub free-FreePost :
    (start n : ℕ) (b : Bitmap) → IsValid b → start + n < u64 → FreePost start n b (free start n b)
unfolding free
free-FreePost start n b valid small =
    rw (no_wrap start n small, run_length start n)
      (elim (Bool-cases (ltb b.total (start + n))) [
        | inl e ↦ rw e (ltb→lt _ _ e, refl)
        | inr e ↦
            let fits : start + n ≤ b.total = ground arith in
            let w = unmark-Written n start b valid.wide (omega (arith, valid.words)) in
            elim (Bool-cases (ltb start (each_block unmark start n b).hint)) [
              | inl low ↦
                  rw (e, low)
                    (
                      fits,
                      cleared-Freed start n start b _ valid fits w (omega arith)
                          (omega (arith, ltb→lt _ _ low, w.same_hint)),
                    )
              | inr high ↦
                  let le : (each_block unmark start n b).hint ≤ start = ground arith in
                  rw (e, high)
                    (fits, cleared-Freed start n _ b _ valid fits w le (omega (arith, w.same_hint)))
            ]
      ])

abbrev pub ReservePost : ℕ → ℕ → Bitmap → Result (Unit {0}) × Bitmap → Type 0
ReservePost start n b (ok u, b') = (start + n ≤ b.total) × Took start n b b'
ReservePost start n b (err out_of_range, b') = (b.total < start + n) × (b' ≡ b)
ReservePost start n b (err _, b') = ⊥

-- `Reserve` on a valid bitmap marks the blocks of the run as used and no other, whether they were
-- free or not, and keeps the bitmap valid. It fails, changing nothing, exactly where the run
-- extends past the managed range. The end of the run is taken to fit a uint64.
pub reserve-ReservePost :
    (start n : ℕ) (b : Bitmap)
    → IsValid b
    → start + n < u64
    → ReservePost start n b (reserve start n b)
unfolding reserve
reserve-ReservePost start n b valid small =
    rw (no_wrap start n small) (elim (Bool-cases (ltb b.total (start + n))) [
      | inl e ↦ rw e (ltb→lt _ _ e, refl)
      | inr e ↦
          let fits : start + n ≤ b.total = ground arith in
          rw e (fits, take_run-Took start n b valid fits)
    ])

-- Where the end of the run does not fit a uint64 and wraps to a block of the managed range or its
-- end, `Free` and `Reserve` report success, and no block changes.
pub wrapped_run :
    (start n : ℕ) (b : Bitmap)
    → start < u64
    → n < u64
    → u64 ≤ start + n
    → start + n ≤ u64 + b.total
    → ((free start n b).0 ≡ ok tt)
      × ((reserve start n b).0 ≡ ok tt)
      × ((free start n b).1.bits ≡ b.bits)
      × ((reserve start n b).1.bits ≡ b.bits)
unfolding free reserve take_run
wrapped_run start n b hs hn big near =
    let e : (start + n) % u64 - start ≡ 0 = omega arith in
    let t : ltb b.total ((start + n) % u64) ≡ false = ground arith in
    rw (e, t)
      (unfold each_block in
        elim (Bool-cases (ltb start b.hint)) [
          | inl low ↦ rw low (refl, refl, refl, refl)
          | inr high ↦ rw high (refl, refl, refl, refl)
        ])

abbrev blank : ℕ → Bitmap
blank total = record {
  bits = replicate ((total + 63) / 64) (replicate 64 false);
  total = total;
  hint = 0;
}

blank-IsWide : (total : ℕ) → IsWide (blank total).bits
blank-IsWide total =
    All-replicate (λ w. length w ≡ 64) ((total + 63) / 64) (replicate 64 false) refl

blank_free : (total j : ℕ) → j < total → is_used (blank total) j ≡ false
blank_free total j lt =
    rw (get_or-replicate ((total + 63) / 64) (j / 64) (replicate 64 false) [] (omega arith))
      (get_or-replicate 64 (j % 64) false false (omega arith))

-- `NewBitmap` gives a valid bitmap in which every managed block is free.
pub new_bitmap-IsValid :
    (total : ℕ)
    → total + 63 < u64
    → IsValid (new_bitmap total)
      × ((new_bitmap total).total ≡ total)
      × FreeRun (new_bitmap total) 0 total
unfolding new_bitmap
new_bitmap-IsValid total small =
    let size : length (blank total).bits ≡ (total + 63) / 64 =
      length-replicate ((total + 63) / 64) (replicate 64 false) in
    let w =
      mark-Written ((total + 63) / 64 * 64 - total) total (blank total) (blank-IsWide total)
        (omega (arith, size)) in
    let whole : (total + 63) % u64 ≡ total + 63 = omega arith in
    rw whole (
      record {
        words = omega (arith, w.same_length, size, w.same_total);
        wide = w.wide;
        fits = omega (arith, w.same_total);
        hint_le = omega (arith, w.same_hint);
        padding = λ j lo hi.
            w.inside j (omega (arith, w.same_total)) (omega (arith, w.same_length, size));
        below_hint = λ j lt. absurd (omega (arith, w.same_hint));
      },
      w.same_total,
      λ j lo lt. w.before j (omega arith) ∙ blank_free total j (omega arith),
    )
