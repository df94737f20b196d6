-- ===== src/AllocRuns/AtMost.antt =====
-- `allocAtMost` gets at least one block wherever one is free.
use fsforge.Common.{
  ℕ, zero, suc, ◌+◌, ◌/◌, ◌≤◌, ◌<◌, ◌≡◌, refl, Option, none, some, arith, ◌==◌, Bool-cases, inl,
  inr,
}
use fsforge.Alloc.{Result, ok, err, zero_len, no_space, out_of_range, stuck}
use fsforge.AllocRuns.{Allocator, or_else, halve_loop, without_run, alloc_at_most}
use fsforge.AllocRuns.Laws.{View, AllUsed, IsFree, ReserveLaw, UpToLaw, MayUpTo, IsLawful}

module _ {S : Type 0} (v : View S) (a : Allocator S) (law : IsLawful v a) where
  -- No run of one free block: every block is in use.
  all_used : (s : S) → ((start : ℕ) → start + 1 ≤ v.total s → ¬ IsFree v s start 1) → AllUsed v s
  all_used s none_free j lt = elim (Bool-cases (v.used s j)) [
    | inl e ↦ e
    | inr e ↦
        absurd (none_free j (omega arith) (λ k lo hi. let eq : k ≡ j = omega arith in rw eq e))
  ]

  widen :
      (n want : ℕ) (s : S) (r : Result (ℕ × ℕ) × S)
      → 0 < want
      → want ≤ n
      → UpToLaw v want s r
      → UpToLaw v n s r
  widen n want s (ok (start, got), s') pos le (t, some_block, at_most) =
      (t, some_block, omega arith)
  widen n want s (err zero_len, s') pos le h = absurd (omega arith)
  widen n want s (err no_space, s') pos le h = h
  widen n want s (err out_of_range, s') pos le h = h
  widen n want s (err stuck, s') pos le h = h

  or_else_lem :
      (want : ℕ) (s : S) (rest : S → Result (ℕ × ℕ) × S) (r : Result ℕ × S)
      → 0 < want
      → (((start : ℕ) → start + want ≤ v.total s → ¬ IsFree v s start want)
          → UpToLaw v want s (rest s))
      → ReserveLaw v want s r
      → UpToLaw v want s (or_else rest want r)
  unfolding or_else
  or_else_lem want s rest (ok start, s') pos more t = (t, pos, omega arith)
  or_else_lem want s rest (err zero_len, s') pos more h = absurd (omega arith)
  or_else_lem want s rest (err no_space, s') pos more (e, none_free) = rw e (more none_free)
  or_else_lem want s rest (err out_of_range, s') pos more h = h
  or_else_lem want s rest (err stuck, s') pos more h = h

  halve_loop_lem :
      (fuel want : ℕ) (s : S)
      → v.Valid s
      → 0 < want
      → want ≤ fuel
      → ((start : ℕ) → start + want ≤ v.total s → ¬ IsFree v s start want)
      → UpToLaw v want s (halve_loop a fuel want s)
  unfolding halve_loop
  halve_loop_lem zero want s valid pos enough no_run = absurd (omega arith)
  halve_loop_lem (suc fuel) want s valid pos enough no_run = elim (Bool-cases (want / 2 == 0)) [
    | inl e ↦ let one : want ≡ 1 = ground arith in rw e (refl, all_used s (rw one at no_run))
    | inr e ↦
        let half : 0 < want / 2 = ground arith in
        rw e (
          widen want (want / 2) s _ half (omega arith) (
            or_else_lem (want / 2) s (halve_loop a fuel (want / 2)) _ half
              (λ none_free. halve_loop_lem fuel (want / 2) s valid half (omega arith) none_free)
              (law.reserve_law (want / 2) s valid)))
  ]

  without_run_lem :
      (f : Option (ℕ → S → Result (ℕ × ℕ) × S)) (want : ℕ) (s : S)
      → MayUpTo v f
      → v.Valid s
      → 0 < want
      → ((start : ℕ) → start + want ≤ v.total s → ¬ IsFree v s start want)
      → UpToLaw v want s (without_run a f want s)
  unfolding without_run
  without_run_lem (some f) want s h valid pos none_free = h want s valid
  without_run_lem none want s h valid pos none_free =
      halve_loop_lem want want s valid pos (omega arith) none_free

  -- Over any lawful allocator, with or without `AllocUpTo`, `allocAtMost` takes a free run of 1 to
  -- `want` blocks and nothing else; it fails only with no space, changing nothing, and only where
  -- every block is in use. The halving loop never runs out of the model's fuel.
  pub alloc_at_most-UpToLaw :
      (want : ℕ) (s : S) → v.Valid s → 0 < want → UpToLaw v want s (alloc_at_most a want s)
  unfolding alloc_at_most
  alloc_at_most-UpToLaw want s valid pos =
      or_else_lem want s (without_run a a.up_to want) _ pos
        (without_run_lem a.up_to want s law.up_to_law valid pos) (law.reserve_law want s valid)
