-- ===== src/AllocRuns.antt =====
-- pkg/alloc/alloc.go: the allocator interface, and `AllocRuns` over any allocator.
mod Laws
pub mod AtMost
mod Held
pub mod Total
pub mod OverBitmap
mod Tests
use fsforge.Common.{
  u64, ℕ, zero, suc, ◌+◌, ◌-◌, ◌/◌, ◌%◌, Bool, true, false, ◌&&◌, ◌||◌, Option, none, some, List,
  [], ◌∷◌, ◌++◌, ltb, leb, ◌==◌, if◌then◌else◌,
}
use fsforge.Alloc.{Result, Error, ok, err, zero_len, no_space, out_of_range, stuck}

-- `Allocator`, over the state `S` that its methods change. `up_to` is the optional capability
-- `RunAllocator`, which the code finds by a type assertion.
pub record Allocator (S : Type 0) : Type 0 where
  pub reserve_run : ℕ → S → Result ℕ × S
  pub release : ℕ → ℕ → S → Result (Unit {0}) × S
  pub up_to : Option (ℕ → S → Result (ℕ × ℕ) × S)

pub record Run : Type 0 where
  pub start : ℕ
  pub len : ℕ

-- A request of `want` blocks that succeeded, or failed for want of space: then `rest` goes on.
unfoldable pub or_else :
    {S : Type 0} → (S → Result (ℕ × ℕ) × S) → ℕ → Result ℕ × S → Result (ℕ × ℕ) × S
or_else rest want (ok start, s) = (ok (start, want), s)
or_else rest want (err no_space, s) = rest s
or_else rest want (err e, s) = (err e, s)

-- The two branches behind `allocAtMost` in the loop: go on with the run, or give all runs back.
unfoldable pub after_run :
    {S : Type 0}
    → (ℕ → ℕ → S → Result (List Run) × S)
    → (S → S)
    → Result (ℕ × ℕ) × S
    → Result (List Run) × S
after_run more undo (ok (start, got), s) = more start got s
after_run more undo (err e, s) = (err e, undo s)

module _ {S : Type 0} (a : Allocator S) where
  -- `for want /= 2; want > 0; want /= 2 { ... }`; the argument is `want` before the halving.
  unfoldable pub halve_loop : ℕ → ℕ → S → Result (ℕ × ℕ) × S
  unfolding or_else
  halve_loop zero want s = (err stuck, s)
  halve_loop (suc fuel) want s =
      let rest = or_else (halve_loop fuel (want / 2)) (want / 2) (a.reserve_run (want / 2) s) in
      if want / 2 == 0 then (err no_space, s) else rest

  unfoldable pub without_run : Option (ℕ → S → Result (ℕ × ℕ) × S) → ℕ → S → Result (ℕ × ℕ) × S
  unfolding halve_loop
  without_run (some f) want s = f want s
  without_run none want s = halve_loop want want s

  unfoldable pub alloc_at_most : ℕ → S → Result (ℕ × ℕ) × S
  unfolding or_else without_run
  alloc_at_most want s = or_else (without_run a.up_to want) want (a.reserve_run want s)

  -- `for _, r := range runs { _ = a.Free(r.Start, r.Len) }`
  unfoldable pub free_runs : List Run → S → S
  free_runs [] s = s
  free_runs (r ∷ rs) s = free_runs rs (a.release r.start r.len s).1

  abbrev pub wanted : ℕ → ℕ → ℕ
  wanted max_run left = if ltb 0 max_run && ltb max_run left then max_run else left

  -- The loop of `AllocRuns`: `left` blocks are still wanted, and `runs` are taken.
  unfoldable pub runs_loop : ℕ → ℕ → ℕ → List Run → S → Result (List Run) × S
  unfolding after_run alloc_at_most free_runs
  runs_loop zero max_run left runs s = if left == 0 then (ok runs, s) else (err stuck, s)
  runs_loop (suc fuel) max_run left runs s =
      let rest =
        after_run
          (λ start got.
            runs_loop fuel max_run ((left + u64 - got) % u64)
              (runs ++ (record { start = start; len = got } ∷ [])))
          (free_runs runs) (alloc_at_most (wanted max_run left) s) in
      if left == 0 then (ok runs, s) else rest

  unfoldable pub alloc_runs : ℕ → ℕ → S → Result (List Run) × S
  unfolding runs_loop
  alloc_runs n max_run s = if n == 0 then (ok [], s) else runs_loop n max_run n [] s
