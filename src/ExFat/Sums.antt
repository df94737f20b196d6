-- ===== src/ExFat/Sums.antt =====
-- The sums of pkg/exfat (boot.go, dir.go, upcase.go), which rotate the sum right and add a byte, and the
-- folding of names.
use fsforge.Common.{
  u32, ℕ, zero, suc, ◌+◌, ◌-◌, ◌*◌, ◌/◌, ◌%◌, ◌<◌, ◌≤◌, ◌≡◌, refl, sym, ap, ◌∙◌, Bool, true, false,
  ◌&&◌, ◌||◌, leb, ◌==◌, if◌then◌else◌, List, [], ◌∷◌, length, Bytes, overwrite, arith,
}

abbrev pub u16 : ℕ
u16 = 65536

-- `sum = (sum >> 1) | (sum << (w - 1)); sum += b`, on values below `m`, which is `2 ^ w`.
unfoldable pub rotate_add : ℕ → ℕ → ℕ → ℕ
rotate_add m sum b = (sum / 2 + sum % 2 * (m / 2) + b) % m

-- Whether the byte is passed over.
unfoldable pub sum_step : Bool → ℕ → ℕ → ℕ → ℕ
sum_step true m sum b = sum
sum_step false m sum b = rotate_add m sum b

-- A loop over the bytes from index `i` on, which passes over some of the indices.
unfoldable pub sum_from : (ℕ → Bool) → ℕ → ℕ → ℕ → Bytes → ℕ
sum_from skip m i sum [] = sum
sum_from skip m i sum (b ∷ bs) = sum_from skip m (suc i) (sum_step (skip i) m sum b) bs

abbrev pub boot_skip : ℕ → Bool
boot_skip i = i == 106 || i == 107 || i == 112

abbrev pub set_skip : ℕ → Bool
set_skip i = i == 2 || i == 3

unfoldable pub boot_checksum : Bytes → ℕ
boot_checksum b = sum_from boot_skip u32 0 0 b

unfoldable pub set_checksum : Bytes → ℕ
set_checksum entries = sum_from set_skip u16 0 0 entries

unfoldable pub upcase_rune : ℕ → ℕ
upcase_rune r = if leb 97 r && leb r 122 then r - 32 else r

-- The sum of the units' bytes, from `h` on.
unfoldable pub hash_from : ℕ → List ℕ → ℕ
hash_from h [] = h
hash_from h (u ∷ units) =
    let up = upcase_rune u in
    hash_from (rotate_add u16 (rotate_add u16 h (up % 256)) (up / 256 % 256)) units

unfoldable pub name_hash : List ℕ → ℕ
name_hash units = hash_from 0 units

passed : (c : Bool) (m sum b : ℕ) → c ≡ true → sum_step c m sum b ≡ sum
unfolding sum_step
passed true m sum b h = refl
passed false m sum b h = absurd (ground arith)

-- Bytes at indices that are passed over do not count.
pub sum_from-overwrite :
    (skip : ℕ → Bool) (m i sum off : ℕ) (p b : Bytes)
    → ((k : ℕ) → off ≤ k → k < off + length p → skip (i + k) ≡ true)
    → sum_from skip m i sum (overwrite off p b) ≡ sum_from skip m i sum b
unfolding overwrite sum_from
sum_from-overwrite skip m i sum off p [] h = refl
sum_from-overwrite skip m i sum (suc off) p (y ∷ b) h =
    sum_from-overwrite skip m (suc i) _ off p b (λ k lo hi.
      let e : suc i + k ≡ i + suc k = omega arith in rw e (h (suc k) (omega arith) (omega arith)))
sum_from-overwrite skip m i sum zero [] (y ∷ b) h = refl
sum_from-overwrite skip m i sum zero (x ∷ p) (y ∷ b) h =
    let e : i ≡ i + 0 = omega arith in
    let t : skip i ≡ true = rw e (h 0 (omega arith) (omega arith)) in
    ap (λ (s : ℕ). sum_from skip m (suc i) s (overwrite zero p b)) (passed (skip i) m sum x t)
    ∙ sum_from-overwrite skip m (suc i) sum zero p b (λ k lo hi.
      let e2 : suc i + k ≡ i + suc k = omega arith in rw e2 (h (suc k) (omega arith) (omega arith)))
    ∙ sym (ap (λ (s : ℕ). sum_from skip m (suc i) s b) (passed (skip i) m sum y t))

sum_step_fits : (c : Bool) (sum b : ℕ) → sum < u32 → sum_step c u32 sum b < u32
unfolding sum_step rotate_add
sum_step_fits true sum b h = h
sum_step_fits false sum b h = omega arith

-- A sum of 32 bits stays one.
pub sum_from_fits :
    (skip : ℕ → Bool) (i sum : ℕ) (b : Bytes) → sum < u32 → sum_from skip u32 i sum b < u32
unfolding sum_from
sum_from_fits skip i sum [] h = h
sum_from_fits skip i sum (b ∷ bs) h =
    sum_from_fits skip (suc i) _ bs (sum_step_fits (skip i) sum b h)

sum_step_fits16 : (c : Bool) (sum b : ℕ) → sum < u16 → sum_step c u16 sum b < u16
unfolding sum_step rotate_add
sum_step_fits16 true sum b h = h
sum_step_fits16 false sum b h = omega arith

pub sum_from_fits16 :
    (skip : ℕ → Bool) (i sum : ℕ) (b : Bytes) → sum < u16 → sum_from skip u16 i sum b < u16
unfolding sum_from
sum_from_fits16 skip i sum [] h = h
sum_from_fits16 skip i sum (b ∷ bs) h =
    sum_from_fits16 skip (suc i) _ bs (sum_step_fits16 (skip i) sum b h)
