-- ===== src/Cpio/Header/Hex.antt =====
-- The 8 hexadecimal characters of a value, and the number that is parsed from them.
use fsforge.Common.{
  some_value, ℕ, zero, suc, ◌+◌, ◌-◌, ◌*◌, ◌/◌, ◌%◌, ◌^◌, ◌≤◌, ◌<◌, ◌≡◌, refl, sym, ap, ◌∙◌, true,
  ltb, none, some, [], ◌∷◌, ◌++◌, length, Bytes, overwrite, replicate, length-append,
  length-replicate, length-overwrite, u32, arith, Bool-cases, Option-cases, inl, inr, ltb→lt,
}
use native.Mathlib.Nat.{pow-suc}
use fsforge.Cpio.Header.{hex_digit, format_uint, append_hex8, digit_value, parse_uint}

digit_value-hex_digit : (d : ℕ) → d < 16 → digit_value (hex_digit d) ≡ some d
unfolding digit_value hex_digit
digit_value-hex_digit d h = ground arith

-- One step, once the digit is known.
parse_uint_step :
    (acc c d : ℕ) (s : Bytes)
    → digit_value c ≡ some d
    → parse_uint acc (c ∷ s) ≡ parse_uint (acc * 16 + d) s
unfolding parse_uint
parse_uint_step acc c d s e = rw (parse_uint, e)

parse_uint_stop : (acc c : ℕ) (s : Bytes) → digit_value c ≡ none → parse_uint acc (c ∷ s) ≡ none
unfolding parse_uint
parse_uint_stop acc c s e = rw (parse_uint, e)

empty_text : (acc : ℕ) → some acc ≡ parse_uint acc []
unfolding parse_uint
empty_text acc = refl

no_value : {B : Type 0} (n : ℕ) → none ≡ some n → B
no_value n h = absurd (ground arith)

parse_uint-append :
    (acc n : ℕ) (s t : Bytes) → parse_uint acc s ≡ some n → parse_uint acc (s ++ t) ≡ parse_uint n t
parse_uint-append acc n [] t h =
    ap (λ (k : ℕ). parse_uint k t) (some_value acc n (empty_text acc ∙ h))
parse_uint-append acc n (c ∷ s) t h = elim (Option-cases (digit_value c)) [
  | inl e ↦ no_value n (sym (parse_uint_stop acc c s e) ∙ h)
  | inr (d, e) ↦
      parse_uint_step acc c d (s ++ t) e
      ∙ parse_uint-append (acc * 16 + d) n s t (sym (parse_uint_step acc c d s e) ∙ h)
]

one_digit : (acc d : ℕ) → d < 16 → parse_uint acc (hex_digit d ∷ []) ≡ some (acc * 16 + d)
one_digit acc d h =
    parse_uint_step acc (hex_digit d) d [] (digit_value-hex_digit d h)
    ∙ sym (empty_text (acc * 16 + d))

parse_uint-format_uint :
    (fuel v : ℕ) → v < 16 ^ suc fuel → parse_uint 0 (format_uint (suc fuel) v) ≡ some v
unfolding format_uint
parse_uint-format_uint zero v h =
    let k : v < 16 = omega arith in
    let e : ltb v 16 ≡ true = ground arith in
    let z : 0 * 16 + v ≡ v = omega arith in rw e (one_digit 0 v k ∙ ap some z)
parse_uint-format_uint (suc fuel) v h = elim (Bool-cases (ltb v 16)) [
  | inl e ↦ let z : 0 * 16 + v ≡ v = omega arith in rw e (one_digit 0 v (ltb→lt _ _ e) ∙ ap some z)
  | inr e ↦
      let p : 16 ^ suc (suc fuel) ≡ 16 ^ suc fuel * 16 = pow-suc 16 (suc fuel) in
      let up : v < 16 ^ suc fuel * 16 = rw p at h in
      let low : v / 16 < 16 ^ suc fuel = omega arith in
      let whole : v / 16 * 16 + v % 16 ≡ v = omega arith in
      rw e (
        parse_uint-append 0 (v / 16) (format_uint (suc fuel) (v / 16)) (hex_digit (v % 16) ∷ [])
          (parse_uint-format_uint fuel (v / 16) low)
        ∙ one_digit (v / 16) (v % 16) (omega arith)
        ∙ ap some whole)
]

-- Leading zeros do not count.
parse_uint-zeros : (n : ℕ) (s : Bytes) → parse_uint 0 (replicate n 48 ++ s) ≡ parse_uint 0 s
unfolding hex_digit
parse_uint-zeros zero s = refl
parse_uint-zeros (suc n) s =
    parse_uint_step 0 48 0 (replicate n 48 ++ s) (digit_value-hex_digit 0 (omega arith))
    ∙ parse_uint-zeros n s

length-format_uint : (fuel v : ℕ) → length (format_uint fuel v) ≤ fuel
unfolding format_uint
length-format_uint zero v = omega arith
length-format_uint (suc fuel) v = elim (Bool-cases (ltb v 16)) [
  | inl e ↦ rw e (omega arith)
  | inr e ↦ rw e (
      omega (
        arith,
        length-append (format_uint fuel (v / 16)) (hex_digit (v % 16) ∷ []),
        length-format_uint fuel (v / 16),
      ))
]

overwrite-tail : (s b : Bytes) → length s ≡ length b → overwrite 0 s b ≡ s
unfolding overwrite
overwrite-tail [] [] h = refl
overwrite-tail [] (y ∷ b) h = absurd (omega arith)
overwrite-tail (x ∷ s) [] h = absurd (omega arith)
overwrite-tail (x ∷ s) (y ∷ b) h = ap (◌∷◌ x) (overwrite-tail s b (omega arith))

overwrite_zeros :
    (k : ℕ) (s : Bytes) → overwrite k s (replicate (k + length s) 48) ≡ replicate k 48 ++ s
unfolding overwrite
overwrite_zeros zero s =
    overwrite-tail s (replicate (zero + length s) 48)
      (omega (arith, length-replicate {A = ℕ} (zero + length s) 48))
overwrite_zeros (suc k) s =
    let e : suc k + length s ≡ suc (k + length s) = omega arith in
    rw e (ap (◌∷◌ 48) (overwrite_zeros k s))

-- The 8 characters of a value.
abbrev pub hex8 : ℕ → Bytes
hex8 v = append_hex8 [] v

hex8_shape : (v : ℕ) → hex8 v ≡ replicate (8 - length (format_uint 8 v)) 48 ++ format_uint 8 v
unfolding append_hex8
hex8_shape v =
    let n : ℕ = length (format_uint 8 v) in
    let e : 8 ≡ 8 - length (format_uint 8 v) + length (format_uint 8 v) =
      omega (arith, length-format_uint 8 v) in
    ap (λ (m : ℕ). overwrite (8 - n) (format_uint 8 v) (replicate m 48)) e
    ∙ overwrite_zeros (8 - n) (format_uint 8 v)

pub length-hex8 : (v : ℕ) → length (hex8 v) ≡ 8
unfolding append_hex8
length-hex8 v = length-overwrite _ _ (replicate 8 48)

pub parse_uint-hex8 : (v : ℕ) → v < u32 → parse_uint 0 (hex8 v) ≡ some v
parse_uint-hex8 v h =
    ap (parse_uint 0) (hex8_shape v)
    ∙ parse_uint-zeros (8 - length (format_uint 8 v)) (format_uint 8 v)
    ∙ parse_uint-format_uint 7 v h
