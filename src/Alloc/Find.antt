-- ===== src/Alloc/Find.antt =====
-- `firstFree` and `firstUsed` against their comments, and `take`.
use fsforge.Common.{
  u64, ℕ, ◌+◌, ◌-◌, ◌/◌, ◌%◌, ◌≤◌, ◌<◌, ◌≡◌, inl, inr, ◌∙◌, Bool, true, false, min, arith, leb,
  Bool-cases,
}
use fsforge.Alloc.{Bitmap, first_free, first_used, take_run, each_block, mark}
use fsforge.Alloc.View.{is_used, IsValid, Becomes}
use fsforge.Alloc.Blocks.{Written, mark-Written}
use fsforge.Alloc.Scan.{
  LowestFrom, Scanned, masked, masked-scan, scanned-lower, scanned-skipped, scanned-here,
  scanned-in_range,
}
use native.Mathlib.Decide.{dec_lt}

at_end :
    (v : Bool) (b : Bitmap) (from : ℕ)
    → from ≤ b.total
    → b.total ≤ from
    → LowestFrom v b from b.total
at_end v b from le ge = record {
  lower = le;
  upper = omega arith;
  skipped = λ j lo hi. absurd (omega arith);
  here = λ lt. absurd (omega arith);
}

-- What the loop of `first_free` returns is in range: the padding bits are set.
free_scan :
    (b : Bitmap) (from r : ℕ)
    → IsValid b
    → from < b.total
    → Scanned false (from / 64) (masked false b.bits from) b.total r
    → LowestFrom false b from r
free_scan b from r valid lt s =
    let up : r ≤ b.total = elim (scanned-in_range false b from valid lt r s) [
      | inl e ↦ omega arith
      | inr (hi, at) ↦ elim (dec_lt b.total r) [
        | yes beyond ↦ cc (valid.padding r (omega arith) hi, at)
        | no ok ↦ omega arith
      ]
    ] in
    record {
      lower = scanned-lower false b from valid lt r s;
      upper = up;
      skipped = λ j lo hi. scanned-skipped false b from valid lt r s j lo hi (omega arith);
      here = scanned-here false b from valid lt r s;
    }

used_scan :
    (b : Bitmap) (from r : ℕ)
    → IsValid b
    → from < b.total
    → Scanned true (from / 64) (masked true b.bits from) b.total r
    → LowestFrom true b from (min r b.total)
used_scan b from r valid lt s =
    let lo : from ≤ r = scanned-lower true b from valid lt r s in
    record {
      lower = omega arith;
      upper = omega arith;
      skipped =
          λ j lo hi. scanned-skipped true b from valid lt r s j lo (omega arith) (omega arith);
      here = λ below.
          let e : min r b.total ≡ r = omega arith in
          rw e (scanned-here true b from valid lt r s (omega arith));
    }

pub first_free_lem :
    (b : Bitmap) (from : ℕ)
    → IsValid b
    → from ≤ b.total
    → LowestFrom false b from (first_free b from)
unfolding first_free
first_free_lem b from valid le = elim (Bool-cases (leb b.total from)) [
  | inl e ↦ rw e (at_end false b from le (ground arith))
  | inr e ↦
      let lt : from < b.total = ground arith in
      rw e (
        free_scan b from _ valid lt
          (masked-scan false b.bits from (omega (arith, valid.words)) valid.wide b.total))
]

pub first_used_lem :
    (b : Bitmap) (from : ℕ)
    → IsValid b
    → from ≤ b.total
    → LowestFrom true b from (first_used b from)
unfolding first_used
first_used_lem b from valid le = elim (Bool-cases (leb b.total from)) [
  | inl e ↦ rw e (at_end true b from le (ground arith))
  | inr e ↦
      let lt : from < b.total = ground arith in
      rw e (
        used_scan b from _ valid lt
          (masked-scan true b.bits from (omega (arith, valid.words)) valid.wide b.total))
]

-- A valid bitmap after a loop of marks is valid, before the hint is refreshed too.
marked-IsValid : (start n : ℕ) (b b' : Bitmap) → IsValid b → Written true start n b b' → IsValid b'
marked-IsValid start n b b' valid w =
    let keeps : (j : ℕ) → is_used b j ≡ true → is_used b' j ≡ true = λ j u. elim (dec_lt j start) [
      | yes lt ↦ w.before j lt ∙ u
      | no ge ↦ elim (dec_lt j (start + n)) [
        | yes lt ↦ w.inside j (omega arith) lt
        | no beyond ↦ w.behind j (omega arith) ∙ u
      ]
    ] in
    record {
      words = omega (arith, valid.words, w.same_length, w.same_total);
      wide = w.wide;
      fits = omega (arith, valid.fits, w.same_total);
      hint_le = omega (arith, valid.hint_le, w.same_total, w.same_hint);
      padding = λ j lo hi.
          keeps j (valid.padding j (omega (arith, w.same_total)) (omega (arith, w.same_length)));
      below_hint = λ j lt. keeps j (valid.below_hint j (omega (arith, w.same_hint)));
    }

-- The refreshed hint: below the old one all is used, and from there the scan skipped used blocks.
rehint-IsValid : (b : Bitmap) → IsValid b → IsValid (record b { hint = first_free b b.hint })
rehint-IsValid b valid =
    let found = first_free_lem b b.hint valid valid.hint_le in
    record {
      words = valid.words;
      wide = valid.wide;
      fits = valid.fits;
      hint_le = found.upper;
      padding = valid.padding;
      below_hint = λ j lt. elim (dec_lt j b.hint) [
        | yes old ↦ valid.below_hint j old
        | no new ↦ found.skipped j (omega arith) lt
      ];
    }

-- `take` marks exactly the run, and keeps the bitmap valid.
pub record Took (start n : ℕ) (b b' : Bitmap) : Type 0 where
  pub valid : IsValid b'
  pub becomes : Becomes true start n b b'
  pub same_total : b'.total ≡ b.total

no_wrap : (start n : ℕ) → start + n < u64 → (start + n) % u64 - start ≡ n
no_wrap start n h = omega arith

pub take_run-Took :
    (start n : ℕ) (b : Bitmap)
    → IsValid b
    → start + n ≤ b.total
    → Took start n b (take_run start n b)
unfolding take_run
take_run-Took start n b valid fits =
    let w : Written true start n b (each_block mark start n b) =
      mark-Written n start b valid.wide (omega (arith, valid.words)) in
    rw (no_wrap start n (omega (arith, valid.fits))) (record {
      valid = rehint-IsValid _ (marked-IsValid start n b _ valid w);
      becomes = (w.inside, w.before, w.behind);
      same_total = w.same_total;
    })
