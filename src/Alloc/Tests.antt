-- ===== src/Alloc/Tests.antt =====
-- Runs of the bitmap allocator, and its theorems at concrete inputs.
use fsforge.Common.{u64, ◌-◌, ◌≡◌, refl, arith}
use fsforge.Alloc.{
  Bitmap, ok, err, zero_len, no_space, out_of_range, new_bitmap, first_used, take_run, alloc,
  alloc_up_to, free, reserve, unmark,
}
use fsforge.Alloc.View.{IsValid}
use fsforge.Alloc.Find.{Took, take_run-Took}
use fsforge.Alloc.FirstFit.{AllocPost, alloc-AllocPost}
use fsforge.Alloc.Operations.{
  AllocUpToPost, alloc_up_to-AllocUpToPost, FreePost, free-FreePost, wrapped_run,
  new_bitmap-IsValid,
}

abbrev fresh : Bitmap
fresh = new_bitmap 70

-- Blocks 0 to 4 are in use.
abbrev disk : Bitmap
disk = take_run 0 5 fresh

fresh-IsValid : IsValid fresh
fresh-IsValid = (new_bitmap-IsValid 70 (omega arith)).0

disk-Took : Took 0 5 fresh disk
disk-Took =
    take_run-Took 0 5 fresh fresh-IsValid (omega (arith, (new_bitmap-IsValid 70 (omega arith)).1))

alloc_runs_first :
    ((alloc 3 disk).0 ≡ ok 5)
    × ((alloc 66 disk).0 ≡ err no_space)
    × ((alloc 0 disk).0 ≡ err zero_len)
    × ((alloc_up_to 66 disk).0 ≡ ok (5, 65))
    × ((free 68 3 disk).0 ≡ err out_of_range)
    × ((reserve 69 1 disk).0 ≡ ok tt)
    × (((free 2 2 disk).1).hint ≡ 2)
    × ((alloc 2 (free 2 2 disk).1).0 ≡ ok 2)
unfolding new_bitmap first_used take_run alloc alloc_up_to free reserve unmark
alloc_runs_first = (refl, refl, refl, refl, refl, refl, refl, refl)

alloc-AllocPost_example : AllocPost 3 disk (alloc 3 disk)
alloc-AllocPost_example = alloc-AllocPost 3 disk disk-Took.valid

alloc_up_to-AllocUpToPost_example : AllocUpToPost 66 disk (alloc_up_to 66 disk)
alloc_up_to-AllocUpToPost_example = alloc_up_to-AllocUpToPost 66 disk disk-Took.valid

free-FreePost_example : FreePost 2 2 disk (free 2 2 disk)
free-FreePost_example = free-FreePost 2 2 disk disk-Took.valid (omega arith)

wrapped_run_example :
    ((free 100 (u64 - 90) disk).0 ≡ ok tt)
    × ((reserve 100 (u64 - 90) disk).0 ≡ ok tt)
    × ((free 100 (u64 - 90) disk).1.bits ≡ disk.bits)
    × ((reserve 100 (u64 - 90) disk).1.bits ≡ disk.bits)
wrapped_run_example =
    wrapped_run 100 (u64 - 90) disk (omega arith) (omega arith) (omega arith)
      (omega (arith, disk-Took.same_total, (new_bitmap-IsValid 70 (omega arith)).1))
