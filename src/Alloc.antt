-- ===== src/Alloc.antt =====
-- pkg/alloc/bitmap.go: the first-fit block allocator over a bitmap.
-- A 64-bit word is the list of its 64 bits, lowest first; `bits` is the list of the words. Block
-- numbers are uint64 values: the sums that Go may wrap are written with `% u64`.
pub mod View
mod Words
mod Blocks
mod Scan
pub mod Find
pub mod FirstFit
pub mod Operations
mod Tests
use fsforge.Common.{
  u64, ℕ, zero, suc, ◌+◌, ◌-◌, ◌*◌, ◌/◌, ◌%◌, ◌^◌, min, Bool, true, false, not, ◌||◌, List, [], ◌∷◌,
  ltb, leb, ◌==◌, if◌then◌else◌, get_or, set, drop, replicate,
}

abbrev pub Word : Type 0
Word = List Bool

pub data Error : Type 0 where
  zero_len no_space out_of_range stuck : Error

-- Go's (value, error) pair. `err stuck` is no Go value: a loop ran out of the model's fuel.
pub data Result {ℓ} (A : Type ℓ) : Type ℓ where
  ok : A → Result A
  err : Error → Result A

pub record Bitmap : Type 0 where
  pub bits : List Word
  pub total : ℕ
  pub hint : ℕ

-- `w | 1 << k` and `w &^ (1 << k)`.
abbrev set_bit : Word → ℕ → Bool → Word
set_bit w k v = set w k v

unfoldable pub mark : ℕ → Bitmap → Bitmap
mark i b = record b {
  bits = set b.bits (i / 64) (set_bit (get_or b.bits (i / 64) []) (i % 64) true);
}

unfoldable pub unmark : ℕ → Bitmap → Bitmap
unmark i b = record b {
  bits = set b.bits (i / 64) (set_bit (get_or b.bits (i / 64) []) (i % 64) false);
}

-- `for j := from; n > 0; j++ { f(j) }`: n rounds from `from` on.
unfoldable pub each_block : (ℕ → Bitmap → Bitmap) → ℕ → ℕ → Bitmap → Bitmap
each_block f from zero b = b
each_block f from (suc n) b = each_block f (from + 1) n (f from b)

unfoldable pub new_bitmap : ℕ → Bitmap
unfolding each_block mark
new_bitmap total =
    let words = (total + 63) % u64 / 64 in
    let b : Bitmap = record {
      bits = replicate words (replicate 64 false);
      total = total;
      hint = 0;
    } in
    each_block mark total (words * 64 - total) b

-- `w | (1<<k - 1)` and `w &^ (1<<k - 1)`: the lowest k bits all set, or all cleared.
unfoldable pub fill_low : Bool → ℕ → Word → Word
fill_low v zero w = w
fill_low v (suc k) [] = []
fill_low v (suc k) (x ∷ w) = v ∷ fill_low v k w

-- The position of the lowest bit that is `v`, or the width if there is none:
-- `bits.TrailingZeros64(w)` for `true`, `bits.TrailingZeros64(^w)` for `false`.
unfoldable pub trailing : Bool → Word → ℕ
trailing v [] = 0
trailing true (true ∷ w) = 0
trailing true (false ∷ w) = suc (trailing true w)
trailing false (false ∷ w) = 0
trailing false (true ∷ w) = suc (trailing false w)

-- `w != 0` for `true`, `w != ^uint64(0)` for `false`: some bit is `v`.
unfoldable pub has_bit : Bool → Word → Bool
has_bit v [] = false
has_bit true (x ∷ w) = x || has_bit true w
has_bit false (x ∷ w) = not x || has_bit false w

-- The loop of `firstFree` and `firstUsed`: `w` is the word in hand, `i` its index, and the list
-- holds the words behind it. The answer is `none` where the loop runs past the last word.
unfoldable pub scan : Bool → Word → ℕ → List Word → ℕ → ℕ
unfolding has_bit trailing
scan v w i [] total = if has_bit v w then i * 64 + trailing v w else total
scan v w i (w' ∷ ws) total =
    let rest = scan v w' (i + 1) ws total in if has_bit v w then i * 64 + trailing v w else rest

unfoldable pub first_free : Bitmap → ℕ → ℕ
unfolding scan fill_low
first_free b from =
    if leb b.total from
    then b.total
    else scan false (fill_low true (from % 64) (get_or b.bits (from / 64) [])) (from / 64)
        (drop (from / 64 + 1) b.bits) b.total

-- The source takes the minimum with `total` where a bit is found; where none is, it returns `total`.
unfoldable pub first_used : Bitmap → ℕ → ℕ
unfolding scan fill_low
first_used b from =
    if leb b.total from
    then b.total
    else min
        (scan true (fill_low false (from % 64) (get_or b.bits (from / 64) [])) (from / 64)
          (drop (from / 64 + 1) b.bits) b.total)
        b.total

unfoldable pub take_run : ℕ → ℕ → Bitmap → Bitmap
unfolding each_block mark first_free
take_run start n b =
    let b' = each_block mark start ((start + n) % u64 - start) b in
    record b' { hint = first_free b' b'.hint }

-- The loop of `Alloc` over the free runs; each round starts at a later one.
unfoldable pub alloc_loop : ℕ → ℕ → ℕ → Bitmap → Result ℕ × Bitmap
alloc_loop zero n i b = (err stuck, b)
alloc_loop (suc fuel) n i b =
    let end = first_used b i in
    let rest = alloc_loop fuel n (first_free b end) b in
    if ltb i b.total
    then if leb n (end - i) then (ok i, take_run i n b) else rest
    else (err no_space, b)

unfoldable pub alloc : ℕ → Bitmap → Result ℕ × Bitmap
unfolding alloc_loop
alloc n b = if n == 0 then (err zero_len, b) else alloc_loop (b.total + 1) n (first_free b b.hint) b

unfoldable pub alloc_up_to : ℕ → Bitmap → Result (ℕ × ℕ) × Bitmap
alloc_up_to n b =
    let start = first_free b b.hint in
    let got = min (first_used b start - start) n in
    if n == 0
    then (err zero_len, b)
    else if leb b.total start
    then (err no_space, b)
    else (ok (start, got), take_run start got b)

unfoldable pub free : ℕ → ℕ → Bitmap → Result (Unit {0}) × Bitmap
free start n b =
    let b' = each_block unmark start ((start + n) % u64 - start) b in
    if ltb b.total ((start + n) % u64)
    then (err out_of_range, b)
    else (ok tt, if ltb start b'.hint then record b' { hint = start } else b')

unfoldable pub reserve : ℕ → ℕ → Bitmap → Result (Unit {0}) × Bitmap
reserve start n b =
    if ltb b.total ((start + n) % u64) then (err out_of_range, b) else (ok tt, take_run start n b)
