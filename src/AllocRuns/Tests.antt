-- ===== src/AllocRuns/Tests.antt =====
-- Runs of `AllocRuns` over the bitmap allocator, and its theorems at concrete inputs.
use fsforge.Common.{ℕ, ◌≡◌, refl, [], ◌∷◌, arith}
use fsforge.Alloc.{
  Bitmap, ok, err, no_space, new_bitmap, first_used, take_run, alloc, alloc_up_to, free,
}
use fsforge.Alloc.View.{IsValid}
use fsforge.Alloc.Operations.{new_bitmap-IsValid}
use fsforge.AllocRuns.{Run, alloc_at_most, alloc_runs}
use fsforge.AllocRuns.Laws.{UpToLaw}
use fsforge.AllocRuns.AtMost.{alloc_at_most-UpToLaw}
use fsforge.AllocRuns.Total.{AllocRunsPost, alloc_runs-AllocRunsPost}
use fsforge.AllocRuns.OverBitmap.{
  bitmap_allocator, plain_bitmap_allocator, bitmap_view, bitmap_allocator-IsLawful,
}

abbrev fresh : Bitmap
fresh = new_bitmap 10

-- Blocks 3 and 6 are in use.
abbrev gaps : Bitmap
gaps = take_run 6 1 (take_run 3 1 fresh)

abbrev run : ℕ → ℕ → Run
run s l = record { start = s; len = l }

with_gaps :
    ((alloc_runs bitmap_allocator 7 0 gaps).0 ≡ ok (run 0 3 ∷ run 4 2 ∷ run 7 2 ∷ []))
    × ((alloc_runs plain_bitmap_allocator 7 0 gaps).0 ≡ ok (run 0 3 ∷ run 4 2 ∷ run 7 2 ∷ []))
    × ((alloc_runs bitmap_allocator 4 2 gaps).0 ≡ ok (run 0 2 ∷ run 4 2 ∷ []))
    × ((alloc_runs bitmap_allocator 9 0 gaps).0 ≡ err no_space)
unfolding new_bitmap first_used take_run alloc alloc_up_to free alloc_runs
with_gaps = (refl, refl, refl, refl)

fresh-IsValid : IsValid fresh
fresh-IsValid = (new_bitmap-IsValid 10 (omega arith)).0

alloc_at_most-UpToLaw_example :
    UpToLaw bitmap_view 4 fresh (alloc_at_most plain_bitmap_allocator 4 fresh)
alloc_at_most-UpToLaw_example =
    alloc_at_most-UpToLaw bitmap_view plain_bitmap_allocator bitmap_allocator-IsLawful.1 4 fresh
      fresh-IsValid (omega arith)

alloc_runs-AllocRunsPost_example :
    AllocRunsPost bitmap_view 7 2 fresh (alloc_runs bitmap_allocator 7 2 fresh)
alloc_runs-AllocRunsPost_example =
    alloc_runs-AllocRunsPost bitmap_view bitmap_allocator bitmap_allocator-IsLawful.0 7 2
      (omega arith) fresh fresh-IsValid
