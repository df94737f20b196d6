-- ===== src/ExFat/Boot/Valid.antt =====
-- The boot region of pkg/exfat/boot.go carries the sum of its sectors.
use fsforge.Common.{
  u32, ℕ, zero, suc, ◌+◌, ◌*◌, ◌^◌, ◌<◌, ◌≤◌, ◌≡◌, refl, sym, ap, ◌∙◌, inr, true, length, take,
  length-replicate, slice-overwrite_part, length-append, Bytes, overwrite, slice, le_bytes,
  length-le_bytes, le_value, le_value-le_bytes, get_le, length-put_fields, length-overwrite,
  take-overwrite_before, take-overwrite_inside, slice-overwrite_apart, arith,
}
use fsforge.ExFat.Geometry.{Geometry}
use fsforge.ExFat.Sums.{boot_skip, boot_checksum, sum_from-overwrite, sum_from_fits}
use fsforge.ExFat.Boot.{boot_sectors, boot_region, sum_words}

-- A region of 12 sectors in which each of the 128 words of the last one is the sum of those before.
pub record IsValid (b : Bytes) : Type 0 where
  pub sized : length b ≡ 6144
  pub summed : (k : ℕ) → k < 128 → get_le 4 (5632 + 4 * k) b ≡ boot_checksum (take 5632 b)

length-sum_words : (n sum : ℕ) → length (sum_words n sum) ≡ 4 * n
unfolding sum_words
length-sum_words zero sum = refl
length-sum_words (suc n) sum =
    length-append (le_bytes 4 sum) (sum_words n sum)
    ∙ omega (arith, length-le_bytes 4 sum, length-sum_words n sum)

sum_words-word : (n sum k : ℕ) → k < n → slice (4 * k) 4 (sum_words n sum) ≡ le_bytes 4 sum
unfolding sum_words le_bytes
sum_words-word zero sum k h = elim h [ ]
sum_words-word (suc n) sum zero h = refl
sum_words-word (suc n) sum (suc k) h =
    let e : 4 * suc k ≡ suc (suc (suc (suc (4 * k)))) = omega arith in
    rw e (sum_words-word n sum k (omega arith))

length-boot_sectors :
    (g : Geometry) (root_first serial used : ℕ)
    → length (boot_sectors g root_first serial used) ≡ 6144
unfolding boot_sectors
length-boot_sectors g root_first serial used =
    length-put_fields _ _ ∙ length-put_fields _ _ ∙ length-replicate {A = ℕ} 6144 0

pub boot_region-IsValid :
    (g : Geometry) (root_first serial used : ℕ) → IsValid (boot_region g root_first serial used)
unfolding boot_region boot_checksum
boot_region-IsValid g root_first serial used =
    let b = boot_sectors g root_first serial used in
    let sum = boot_checksum (take 5632 b) in
    let p = sum_words 128 sum in
    let len = length-boot_sectors g root_first serial used in
    let wide = length-sum_words 128 sum in
    let small : sum < 256 ^ 4 = sum_from_fits boot_skip 0 0 (take 5632 b) (omega arith) in
    record {
      sized = length-overwrite 5632 p b ∙ len;
      summed = λ k h.
          ap le_value (
            slice-overwrite_part 5632 (4 * k) 4 p b (omega arith) (omega arith)
            ∙ sum_words-word 128 sum k h)
          ∙ le_value-le_bytes 4 sum small
          ∙ ap boot_checksum (sym (take-overwrite_before 5632 5632 p b (omega arith)));
    }

-- A write among the first sectors that is passed over by the sum.
unsummed :
    (off : ℕ) (p b : Bytes)
    → off + length p ≤ 5632
    → ((k : ℕ) → off ≤ k → k < off + length p → boot_skip k ≡ true)
    → IsValid b
    → IsValid (overwrite off p b)
unfolding boot_checksum
unsummed off p b low skipped v = record {
  sized = length-overwrite off p b ∙ v.sized;
  summed = λ k h.
      ap le_value (slice-overwrite_apart (5632 + 4 * k) 4 off p b (inr (omega arith)))
      ∙ v.summed k h
      ∙ sym (
          ap boot_checksum (take-overwrite_inside 5632 off p b low)
          ∙ sum_from-overwrite boot_skip u32 0 0 off p (take 5632 b)
              (λ k lo hi. let e : 0 + k ≡ k = omega arith in rw e (skipped k lo hi)));
}

pub boot_region-StaysValid :
    (g : Geometry) (root_first serial used flags percent : ℕ)
    → IsValid (
        overwrite 112
          (le_bytes 1 percent)
          (overwrite 106 (le_bytes 2 flags) (boot_region g root_first serial used)))
unfolding le_bytes
boot_region-StaysValid g root_first serial used flags percent =
    unsummed 112 _ _ (omega arith) (λ k lo hi. ground arith)
      (unsummed 106 _ _ (omega arith) (λ k lo hi. ground arith)
        (boot_region-IsValid g root_first serial used))
