-- ===== src/Common/Parts.antt =====
-- Slices of slices, and what is read back from a part of what was written.
use fsforge.Common.Lists.{length, take, drop}
use fsforge.Common.Slices.{Bytes, overwrite, slice, slice-overwrite_self}
use Prim.Native.Nat.{ℕ, zero, suc, ◌+◌, ◌≤◌}
use mathlib.Core.Path.{◌≡◌, refl, sym, ap, ◌∙◌}
use mathlib.Core.List.{[], ◌∷◌}
use native.Mathlib.Omega.{arith}

pub drop_add : (m n : ℕ) (b : Bytes) → drop (m + n) b ≡ drop n (drop m b)
drop_add zero n b = let e : 0 + n ≡ n = omega arith in rw e refl
drop_add (suc m) zero [] = let e : suc m + 0 ≡ suc m = omega arith in rw e refl
drop_add (suc m) (suc n) [] = let e : suc m + suc n ≡ suc (m + suc n) = omega arith in rw e refl
drop_add (suc m) n (y ∷ b) = let e : suc m + n ≡ suc (m + n) = omega arith in rw e (drop_add m n b)

pub slice-inner : (n k w : ℕ) (b : Bytes) → k + w ≤ n → slice k w (take n b) ≡ slice k w b
slice-inner zero zero zero b h = refl
slice-inner zero zero (suc w) b h = absurd (omega arith)
slice-inner zero (suc k) w b h = absurd (omega arith)
slice-inner (suc n) k w [] h = refl
slice-inner (suc n) zero zero (x ∷ b) h = refl
slice-inner (suc n) zero (suc w) (x ∷ b) h = ap (◌∷◌ x) (slice-inner n zero w b (omega arith))
slice-inner (suc n) (suc k) w (x ∷ b) h = slice-inner n k w b (omega arith)

pub slice-overwrite_part :
    (o k w : ℕ) (p b : Bytes)
    → k + w ≤ length p
    → o + length p ≤ length b
    → slice (o + k) w (overwrite o p b) ≡ slice k w p
slice-overwrite_part o k w p b inside room =
    ap (take w) (drop_add o k (overwrite o p b))
    ∙ sym (slice-inner (length p) k w (drop o (overwrite o p b)) inside)
    ∙ ap (slice k w) (slice-overwrite_self o p b room)
