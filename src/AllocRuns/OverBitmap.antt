-- ===== src/AllocRuns/OverBitmap.antt =====
-- The bitmap allocator keeps the contract that `AllocRuns` relies on.
use fsforge.Common.{ℕ, ◌+◌, ◌≤◌, ◌<◌, ◌≡◌, false, some, none, arith}
use fsforge.Alloc.{
  Bitmap, Result, ok, err, zero_len, no_space, out_of_range, stuck, alloc, alloc_up_to, free,
}
use fsforge.Alloc.View.{is_used, IsValid}
use fsforge.Alloc.Find.{Took}
use fsforge.Alloc.FirstFit.{AllocPost, alloc-AllocPost}
use fsforge.Alloc.Operations.{AllocUpToPost, alloc_up_to-AllocUpToPost, FreePost, free-FreePost}
use fsforge.AllocRuns.{Allocator}
use fsforge.AllocRuns.Laws.{View, Takes, ReserveLaw, UpToLaw, Releases, IsLawful}

-- `*Bitmap` as an `Allocator`; it has `AllocUpTo`, so it is a `RunAllocator` too.
abbrev pub bitmap_allocator : Allocator Bitmap
bitmap_allocator = record { reserve_run = alloc; release = free; up_to = some alloc_up_to }

-- The same without the optional capability.
abbrev pub plain_bitmap_allocator : Allocator Bitmap
plain_bitmap_allocator = record { reserve_run = alloc; release = free; up_to = none }

abbrev pub bitmap_view : View Bitmap
bitmap_view = record { Valid = IsValid; used = is_used; total = λ b. b.total }

takes :
    (start n : ℕ) (b b' : Bitmap)
    → start + n ≤ b.total
    → ((j : ℕ) → start ≤ j → j < start + n → is_used b j ≡ false)
    → Took start n b b'
    → Takes bitmap_view start n b b'
takes start n b b' within is_free t = record {
  valid = t.valid;
  total = t.same_total;
  within = within;
  is_free = is_free;
  sets = t.becomes;
}

reserve_law :
    (n : ℕ) (b : Bitmap) (r : Result ℕ × Bitmap) → AllocPost n b r → ReserveLaw bitmap_view n b r
reserve_law n b (ok s, b') (fit, t) = takes s n b b' fit.within fit.is_free t
reserve_law n b (err zero_len, b') h = h
reserve_law n b (err no_space, b') (pos, none_free, same) = (same, none_free)
reserve_law n b (err out_of_range, b') h = h
reserve_law n b (err stuck, b') h = h

up_to_law :
    (n : ℕ) (b : Bitmap) (r : Result (ℕ × ℕ) × Bitmap)
    → AllocUpToPost n b r
    → UpToLaw bitmap_view n b r
up_to_law n b (ok (s, got), b') (run, t) =
    (takes s got b b' run.within run.is_free t, run.some_block, run.at_most)
up_to_law n b (err zero_len, b') h = h
up_to_law n b (err no_space, b') (pos, full, same) = (same, full)
up_to_law n b (err out_of_range, b') h = h
up_to_law n b (err stuck, b') h = h

release_law :
    (start n : ℕ) (b : Bitmap) (r : Result (Unit {0}) × Bitmap)
    → start + n ≤ b.total
    → FreePost start n b r
    → Releases bitmap_view start n b r.1
release_law start n b (ok u, b') fits (within, f) = record {
  valid = f.valid;
  total = f.same_total;
  sets = f.becomes;
}
release_law start n b (err out_of_range, b') fits (beyond, same) = absurd (omega arith)
release_law start n b (err zero_len, b') fits h = absurd h
release_law start n b (err no_space, b') fits h = absurd h
release_law start n b (err stuck, b') fits h = absurd h

-- The bitmap allocator is lawful, with and without its `AllocUpTo`: `Alloc`, `AllocUpTo` and `Free`
-- meet the contract on which `AllocRuns` rests.
pub bitmap_allocator-IsLawful :
    IsLawful bitmap_view bitmap_allocator × IsLawful bitmap_view plain_bitmap_allocator
bitmap_allocator-IsLawful = (
  record {
    small = λ b valid. omega (arith, valid.fits);
    reserve_law = λ n b valid. reserve_law n b _ (alloc-AllocPost n b valid);
    up_to_law = λ n b valid. up_to_law n b _ (alloc_up_to-AllocUpToPost n b valid);
    release_law = λ start n b valid fits.
        release_law start n b _ fits (free-FreePost start n b valid (omega (arith, valid.fits)));
  },
  record {
    small = λ b valid. omega (arith, valid.fits);
    reserve_law = λ n b valid. reserve_law n b _ (alloc-AllocPost n b valid);
    up_to_law = tt;
    release_law = λ start n b valid fits.
        release_law start n b _ fits (free-FreePost start n b valid (omega (arith, valid.fits)));
  },
)
