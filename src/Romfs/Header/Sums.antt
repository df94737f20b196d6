-- ===== src/Romfs/Header/Sums.antt =====
-- The checksum makes the words of a header or of an image sum to zero.
use fsforge.Common.{
  drop_add, u32, ℕ, zero, suc, ◌+◌, ◌-◌, ◌*◌, ◌%◌, ◌^◌, ◌≤◌, ◌<◌, ◌≡◌, ap, ◌∙◌, inl, inr, ◌⊎◌,
  false, ltb, length, take, drop, Bytes, overwrite, be_bytes, be_value, arith, length-overwrite,
  length-be_bytes, length-drop, length-take, be_read_back, slice, slice-overwrite_apart,
  drop-overwrite_behind, drop-overwrite_before, take-overwrite_before, take-overwrite_inside,
}
use fsforge.Romfs.Header.{word_sum, checksum, fix_checksum}

swapped : (x r s v : ℕ) → s ≡ v → s + r + x ≡ x + r + v
swapped x r s v e = omega arith

carried : (w r2 x r v : ℕ) → r2 + x ≡ r + v → w + r2 + x ≡ w + r + v
carried w r2 x r v e = omega arith

-- Putting word `k`: the sum changes by what the word changes.
word_sum-put :
    (fuel k v : ℕ) (b : Bytes)
    → v < 256 ^ 4
    → k < fuel
    → 4 * k + 4 ≤ length b
    → word_sum fuel (overwrite (4 * k) (be_bytes 4 v) b) + be_value (slice (4 * k) 4 b)
      ≡ word_sum fuel b + v
unfolding word_sum
word_sum-put zero k v b small more room = absurd (omega arith)
word_sum-put (suc fuel) zero v b small more room =
    let p = be_bytes 4 v in
    let lp = length-be_bytes 4 v in
    let len = length-overwrite 0 p b in
    let e : ltb (length b) 4 ≡ false = ground arith in
    let e2 : ltb (length (overwrite 0 p b)) 4 ≡ false = ground arith in
    let behind = drop-overwrite_behind 4 0 p b (omega arith) in
    rw (e, e2, behind)
      (swapped (be_value (take 4 b)) (word_sum fuel (drop 4 b))
        (be_value (take 4 (overwrite 0 p b))) v (be_read_back 4 0 v b small room))
word_sum-put (suc fuel) (suc k) v b small more room =
    let p = be_bytes 4 v in
    let len = length-overwrite (4 * suc k) p b in
    let e : ltb (length b) 4 ≡ false = ground arith in
    let e2 : ltb (length (overwrite (4 * suc k) p b)) 4 ≡ false = ground arith in
    let off : 4 * suc k ≡ 4 + 4 * k = omega arith in
    let front = take-overwrite_before 4 (4 * suc k) p b (omega arith) in
    let tail : drop 4 (overwrite (4 * suc k) p b) ≡ overwrite (4 * k) p (drop 4 b) =
      rw off (drop-overwrite_before 4 (4 * k) p b) in
    let at_k : slice (4 * suc k) 4 b ≡ slice (4 * k) 4 (drop 4 b) =
      rw off (ap (take 4) (drop_add 4 (4 * k) b)) in
    let d = length-drop 4 b in
    rw (e, e2, front, tail, at_k)
      (carried (be_value (take 4 b)) (word_sum fuel (overwrite (4 * k) p (drop 4 b)))
        (be_value (slice (4 * k) 4 (drop 4 b))) (word_sum fuel (drop 4 b)) v
        (word_sum-put fuel k v (drop 4 b) small (omega arith) (omega arith)))

closed_sum : (w s x c : ℕ) → s + x ≡ w + c → x ≡ 0 → c ≡ (u32 - w % u32) % u32 → s % u32 ≡ 0
closed_sum w s x c e z d = omega arith

checksum_small : (b : Bytes) → checksum b < 256 ^ 4
unfolding checksum
checksum_small b = omega arith

by_length :
    (off o w : ℕ) (p : Bytes)
    → length p ≡ 4
    → (o + w ≤ off) ⊎ (off + 4 ≤ o)
    → (o + w ≤ off) ⊎ (off + length p ≤ o)
by_length off o w p l (inl h) = inl h
by_length off o w p l (inr h) = inr (omega arith)

-- FixChecksum, with its field on a word of the first `n` bytes: afterwards the big-endian words of the
-- first `n` bytes sum to zero in 32 bits, and only the four bytes of the field have changed.
pub fix_checksum-ZeroSum :
    (b : Bytes) (k n : ℕ)
    → 4 * k + 4 ≤ n
    → n ≤ length b
    → (word_sum n (take n (fix_checksum b (4 * k) n)) % u32 ≡ 0)
      × (length (fix_checksum b (4 * k) n) ≡ length b)
      × ((off w : ℕ)
          → (off + w ≤ 4 * k) ⊎ (4 * k + 4 ≤ off)
          → slice off w (fix_checksum b (4 * k) n) ≡ slice off w b)
unfolding fix_checksum checksum
fix_checksum-ZeroSum b k n fits short =
    let off = 4 * k in
    let zeros = be_bytes 4 0 in
    let zeroed = overwrite off zeros b in
    let front = take n zeroed in
    let c = checksum front in
    let word = be_bytes 4 c in
    let lz = length-be_bytes 4 0 in
    let lw = length-be_bytes 4 c in
    let len = length-overwrite off zeros b in
    let lf : length front ≡ n = length-take n zeroed ∙ omega arith in
    let inside : take n (overwrite off word zeroed) ≡ overwrite off word front =
      take-overwrite_inside n off word zeroed (omega arith) in
    let put = word_sum-put n k c front (checksum_small front) (omega arith) (omega arith) in
    let was : front ≡ overwrite off zeros (take n b) =
      take-overwrite_inside n off zeros b (omega arith) in
    let lt : length (take n b) ≡ n = length-take n b ∙ omega arith in
    let zero_there : be_value (slice off 4 front) ≡ 0 =
      rw was (be_read_back 4 off 0 (take n b) (omega arith) (omega arith)) in
    let sum : c ≡ (u32 - word_sum n front % u32) % u32 =
      ap (λ m. (u32 - word_sum m front % u32) % u32) lf in
    (
      ap (λ d. word_sum n d % u32) inside
          ∙ closed_sum (word_sum n front) (word_sum n (overwrite off word front))
              (be_value (slice off 4 front)) c put zero_there sum,
      length-overwrite off word zeroed ∙ len,
      λ o w apart.
          slice-overwrite_apart o w off word zeroed (by_length off o w word lw apart)
          ∙ slice-overwrite_apart o w off zeros b (by_length off o w zeros lz apart),
    )
