-- ===== src/Common/Slices.antt =====
-- Byte slices as lists of numbers: Go's `copy` into a slice, reading a part of one, and the fixed-width
-- integers of encoding/binary in both byte orders.
use Prim.Native.Nat.{ℕ, zero, suc, ◌+◌, ◌-◌, ◌*◌, ◌/◌, ◌%◌, ◌^◌, ◌≤◌, ◌<◌}
use mathlib.Core.Path.{◌≡◌, refl, ap, ◌∙◌, subst}
use mathlib.Core.Logic.{◌⊎◌, inl, inr}
use mathlib.Core.List.{List, [], ◌∷◌, ◌++◌}
use native.Mathlib.Omega.{arith}
use native.Mathlib.Nat.{pow-zero, pow-suc, div-lt_iff_lt-mul}
use fsforge.Common.Tests.{◌==◌, Bool-cases}
use mathlib.Core.Bool.{Bool, true, false, ◌&&◌}
use fsforge.Common.Lists.{length, length-append, take, drop, get_or}

abbrev pub Bytes : Type 0
Bytes = List ℕ

-- `copy(b[off:], p)`: what does not fit is dropped.
unfoldable pub overwrite : ℕ → Bytes → Bytes → Bytes
overwrite off p [] = []
overwrite (suc off) p (y ∷ b) = y ∷ overwrite off p b
overwrite zero [] (y ∷ b) = y ∷ b
overwrite zero (x ∷ p) (y ∷ b) = x ∷ overwrite zero p b

-- `b[off:off+n]`
abbrev pub slice : ℕ → ℕ → Bytes → Bytes
slice off n b = take n (drop off b)

pub length-overwrite : (off : ℕ) (p b : Bytes) → length (overwrite off p b) ≡ length b
unfolding overwrite
length-overwrite off p [] = refl
length-overwrite (suc off) p (y ∷ b) = omega (arith, length-overwrite off p b)
length-overwrite zero [] (y ∷ b) = refl
length-overwrite zero (x ∷ p) (y ∷ b) = omega (arith, length-overwrite zero p b)

pub get_or-overwrite_inside :
    (off : ℕ) (p b : Bytes) (i : ℕ)
    → off ≤ i
    → i < off + length p
    → i < length b
    → get_or (overwrite off p b) i 0 ≡ get_or p (i - off) 0
unfolding overwrite
get_or-overwrite_inside off p [] i lo hi fits = elim fits [ ]
get_or-overwrite_inside (suc off) p (y ∷ b) zero lo hi fits = elim lo [ ]
get_or-overwrite_inside (suc off) p (y ∷ b) (suc i) lo hi fits =
    let e : suc i - suc off ≡ i - off = omega arith in
    rw e (get_or-overwrite_inside off p b i (omega arith) (omega arith) (omega arith))
get_or-overwrite_inside zero [] (y ∷ b) i lo hi fits = absurd (omega arith)
get_or-overwrite_inside zero (x ∷ p) (y ∷ b) zero lo hi fits = refl
get_or-overwrite_inside zero (x ∷ p) (y ∷ b) (suc i) lo hi fits =
    let e : suc i - zero ≡ suc (i - zero) = omega arith in
    rw e (get_or-overwrite_inside zero p b i (omega arith) (omega arith) (omega arith))

pub get_or-overwrite_outside :
    (off : ℕ) (p b : Bytes) (i : ℕ)
    → (i < off) ⊎ (off + length p ≤ i)
    → get_or (overwrite off p b) i 0 ≡ get_or b i 0
unfolding overwrite
get_or-overwrite_outside off p [] i h = refl
get_or-overwrite_outside (suc off) p (y ∷ b) zero h = refl
get_or-overwrite_outside (suc off) p (y ∷ b) (suc i) h =
    get_or-overwrite_outside off p b i (omega arith)
get_or-overwrite_outside zero [] (y ∷ b) i h = refl
get_or-overwrite_outside zero (x ∷ p) (y ∷ b) zero h = absurd (omega arith)
get_or-overwrite_outside zero (x ∷ p) (y ∷ b) (suc i) h =
    get_or-overwrite_outside zero p b i (omega arith)

pub take-overwrite_self :
    (p b : Bytes) → length p ≤ length b → take (length p) (overwrite zero p b) ≡ p
unfolding overwrite
take-overwrite_self [] b h = refl
take-overwrite_self (x ∷ p) [] h = elim h [ ]
take-overwrite_self (x ∷ p) (y ∷ b) h = ap (◌∷◌ x) (take-overwrite_self p b (omega arith))

pub slice-overwrite_self :
    (off : ℕ) (p b : Bytes)
    → off + length p ≤ length b
    → slice off (length p) (overwrite off p b) ≡ p
unfolding overwrite
slice-overwrite_self zero p b h = take-overwrite_self p b (omega arith)
slice-overwrite_self (suc off) p [] h = absurd (omega arith)
slice-overwrite_self (suc off) p (y ∷ b) h = slice-overwrite_self off p b (omega arith)

-- What lies before the bytes written.
pub take-overwrite_before :
    (n off : ℕ) (p b : Bytes) → n ≤ off → take n (overwrite off p b) ≡ take n b
unfolding overwrite
take-overwrite_before zero off p b h = refl
take-overwrite_before (suc n) off p [] h = refl
take-overwrite_before (suc n) zero p (y ∷ b) h = elim h [ ]
take-overwrite_before (suc n) (suc off) p (y ∷ b) h =
    ap (◌∷◌ y) (take-overwrite_before n off p b (omega arith))

-- What lies behind them.
pub drop-overwrite_behind :
    (k off : ℕ) (p b : Bytes) → off + length p ≤ k → drop k (overwrite off p b) ≡ drop k b
unfolding overwrite
drop-overwrite_behind k off p [] h = refl
drop-overwrite_behind zero (suc off) p (y ∷ b) h = absurd (omega arith)
drop-overwrite_behind (suc k) (suc off) p (y ∷ b) h = drop-overwrite_behind k off p b (omega arith)
drop-overwrite_behind k zero [] (y ∷ b) h = refl
drop-overwrite_behind zero zero (x ∷ p) (y ∷ b) h = absurd (omega arith)
drop-overwrite_behind (suc k) zero (x ∷ p) (y ∷ b) h =
    drop-overwrite_behind k zero p b (omega arith)

pub drop-overwrite_before :
    (k off : ℕ) (p b : Bytes) → drop k (overwrite (k + off) p b) ≡ overwrite off p (drop k b)
unfolding overwrite
drop-overwrite_before zero off p b = let e : 0 + off ≡ off = omega arith in rw e
drop-overwrite_before (suc k) off p [] = refl
drop-overwrite_before (suc k) off p (y ∷ b) =
    let e : suc k + off ≡ suc (k + off) = omega arith in rw e (drop-overwrite_before k off p b)

pub slice-overwrite_apart :
    (o n off : ℕ) (p b : Bytes)
    → (o + n ≤ off) ⊎ (off + length p ≤ o)
    → slice o n (overwrite off p b) ≡ slice o n b
slice-overwrite_apart o n off p b (inl h) =
    let e : off ≡ o + (off - o) = omega arith in
    rw e (rw drop-overwrite_before (take-overwrite_before n (off - o) p (drop o b) (omega arith)))
slice-overwrite_apart o n off p b (inr h) = ap (take n) (drop-overwrite_behind o off p b h)

-- The window `[o, o + n)` of a slice that is written inside the window.
pub take-overwrite_inside :
    (n off : ℕ) (p b : Bytes)
    → off + length p ≤ n
    → take n (overwrite off p b) ≡ overwrite off p (take n b)
unfolding overwrite
take-overwrite_inside zero off p b h = refl
take-overwrite_inside (suc n) off p [] h = refl
take-overwrite_inside (suc n) (suc off) p (y ∷ b) h =
    ap (◌∷◌ y) (take-overwrite_inside n off p b (omega arith))
take-overwrite_inside (suc n) zero [] (y ∷ b) h = refl
take-overwrite_inside (suc n) zero (x ∷ p) (y ∷ b) h =
    ap (◌∷◌ x) (take-overwrite_inside n zero p b (omega arith))

pub slice-overwrite_window :
    (o n off : ℕ) (p b : Bytes)
    → off + length p ≤ n
    → slice o n (overwrite (o + off) p b) ≡ overwrite off p (slice o n b)
slice-overwrite_window o n off p b h =
    rw drop-overwrite_before (take-overwrite_inside n off p (drop o b) h)

-- `n` bytes of `v`, the lowest first: `binary.LittleEndian.PutUint16`, `PutUint32`, `PutUint64`.
unfoldable pub le_bytes : ℕ → ℕ → Bytes
le_bytes zero v = []
le_bytes (suc n) v = (v % 256) ∷ le_bytes n (v / 256)

unfoldable pub le_value : Bytes → ℕ
le_value [] = 0
le_value (x ∷ xs) = x + 256 * le_value xs

-- The highest byte first: `binary.BigEndian`.
unfoldable pub be_bytes : ℕ → ℕ → Bytes
be_bytes zero v = []
be_bytes (suc n) v = be_bytes n (v / 256) ++ (v % 256) ∷ []

unfoldable pub be_from : ℕ → Bytes → ℕ
be_from acc [] = acc
be_from acc (x ∷ xs) = be_from (acc * 256 + x) xs

abbrev pub be_value : Bytes → ℕ
be_value b = be_from 0 b

pub length-le_bytes : (n v : ℕ) → length (le_bytes n v) ≡ n
unfolding le_bytes
length-le_bytes zero v = refl
length-le_bytes (suc n) v = ap suc (length-le_bytes n (v / 256))

pub length-be_bytes : (n v : ℕ) → length (be_bytes n v) ≡ n
unfolding be_bytes
length-be_bytes zero v = refl
length-be_bytes (suc n) v =
    omega
      (arith, length-append (be_bytes n (v / 256)) ((v % 256) ∷ []), length-be_bytes n (v / 256))

div_bound : (n v : ℕ) → v < 256 ^ suc n → v / 256 < 256 ^ n
div_bound n v h = (div-lt_iff_lt-mul (omega arith)).1 (rw pow-suc at h)

pub le_value-le_bytes : (n v : ℕ) → v < 256 ^ n → le_value (le_bytes n v) ≡ v
unfolding le_bytes le_value
le_value-le_bytes zero v h = let k : v < 1 = rw pow-zero at h in omega arith
le_value-le_bytes (suc n) v h = omega (arith, le_value-le_bytes n (v / 256) (div_bound n v h))

be_from-append :
    (acc : ℕ) (xs : Bytes) (x : ℕ) → be_from acc (xs ++ x ∷ []) ≡ be_from acc xs * 256 + x
unfolding be_from
be_from-append acc [] x = refl
be_from-append acc (y ∷ xs) x = be_from-append (acc * 256 + y) xs x

pub be_value-be_bytes : (n v : ℕ) → v < 256 ^ n → be_value (be_bytes n v) ≡ v
unfolding be_bytes
be_value-be_bytes zero v h = let k : v < 1 = rw pow-zero at h in unfold be_from in omega arith
be_value-be_bytes (suc n) v h = omega (
  arith,
  be_from-append 0 (be_bytes n (v / 256)) (v % 256),
  be_value-be_bytes n (v / 256) (div_bound n v h),
)

-- A value put into a slice is read back at its place, and nowhere else.
pub le_read_back :
    (n off v : ℕ) (b : Bytes)
    → v < 256 ^ n
    → off + n ≤ length b
    → le_value (slice off n (overwrite off (le_bytes n v) b)) ≡ v
le_read_back n off v b small fits =
    ap le_value (
      subst (λ k. slice off k (overwrite off (le_bytes n v) b) ≡ le_bytes n v) (length-le_bytes n v)
        (slice-overwrite_self off (le_bytes n v) b (omega (arith, length-le_bytes n v))))
    ∙ le_value-le_bytes n v small

pub be_read_back :
    (n off v : ℕ) (b : Bytes)
    → v < 256 ^ n
    → off + n ≤ length b
    → be_value (slice off n (overwrite off (be_bytes n v) b)) ≡ v
be_read_back n off v b small fits =
    ap be_value (
      subst (λ k. slice off k (overwrite off (be_bytes n v) b) ≡ be_bytes n v) (length-be_bytes n v)
        (slice-overwrite_self off (be_bytes n v) b (omega (arith, length-be_bytes n v))))
    ∙ be_value-be_bytes n v small

-- `==` on strings.
unfoldable pub same_bytes : Bytes → Bytes → Bool
same_bytes [] [] = true
same_bytes (x ∷ xs) (y ∷ ys) = x == y && same_bytes xs ys
same_bytes _ _ = false

pub same_bytes_refl : (x : Bytes) → same_bytes x x ≡ true
unfolding same_bytes
same_bytes_refl [] = refl
same_bytes_refl (c ∷ x) = let e : c == c ≡ true = ground arith in rw e (same_bytes_refl x)

pub same_bytes_eq : (x y : Bytes) → same_bytes x y ≡ true → x ≡ y
unfolding same_bytes
same_bytes_eq [] [] h = refl
same_bytes_eq [] (d ∷ y) h = absurd (ground arith)
same_bytes_eq (c ∷ x) [] h = absurd (ground arith)
same_bytes_eq (c ∷ x) (d ∷ y) h = elim (Bool-cases (c == d)) [
  | inl e ↦
      let q : c ≡ d = ground arith in
      let t : same_bytes x y ≡ true = rw e at h in
      ap (λ (k : ℕ). k ∷ x) q ∙ ap (◌∷◌ d) (same_bytes_eq x y t)
  | inr e ↦ absurd (ground arith)
]
