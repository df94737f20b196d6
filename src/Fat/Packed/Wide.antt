-- ===== src/Fat/Packed/Wide.antt =====
-- Entries of 16 and of 32 bits.
use native.Mathlib.Nat.{mul-le-mul_right}
use fsforge.Common.{
  ℕ, suc, ◌+◌, ◌-◌, ◌*◌, ◌%◌, ◌^◌, ◌≤◌, ◌<◌, ◌≡◌, ◌≢◌, refl, ap, ◌∙◌, inl, inr, ◌⊎◌, true, false,
  ltb, ◌==◌, if◌then◌else◌, List, [], ◌∷◌, length, get_or, Bytes, overwrite, le_bytes, le_value,
  get_le, arith, Bool-cases, length-overwrite, le_read_back, slice-overwrite_apart, length-le_bytes,
}
use fsforge.Fat.Packed.{pack_all}

-- Fields of the same width that are not the same one lie apart.
apart : (w i j : ℕ) → j ≢ i → (j * w + w ≤ i * w) ⊎ (i * w + w ≤ j * w)
apart w i j ne = elim (Bool-cases (ltb j i)) [
  | inl e ↦
      let l : j + 1 ≤ i = ground arith in
      let m = mul-le-mul_right w l in
      let d : (j + 1) * w ≡ j * w + w = omega arith in inl (omega arith)
  | inr e ↦
      let l : i + 1 ≤ j = ground arith in
      let m = mul-le-mul_right w l in
      let d : (i + 1) * w ≡ i * w + w = omega arith in inr (omega arith)
]

pub entry-pack_all :
    (w m i : ℕ) (vs : List ℕ) (raw : Bytes) (j : ℕ)
    → ((v : ℕ) → v % m < 256 ^ w)
    → (i + length vs) * w ≤ length raw
    → j < i + length vs
    → get_le w (j * w) (pack_all w m i vs raw)
      ≡ (if ltb j i then get_le w (j * w) raw else get_or vs (j - i) 0 % m)
unfolding pack_all
entry-pack_all w m i [] raw j small room l = let e : ltb j i ≡ true = ground arith in rw e refl
entry-pack_all w m i (v ∷ vs) raw j small room l =
    let raw2 = overwrite (i * w) (le_bytes w (v % m)) raw in
    let len = length-overwrite (i * w) (le_bytes w (v % m)) raw in
    let b = length-le_bytes w (v % m) in
    let d : (i + suc (length vs)) * w ≡ i * w + w + length vs * w = omega arith in
    let d2 : (i + 1 + length vs) * w ≡ i * w + w + length vs * w = omega arith in
    let fits : ltb (length raw) (i * w + w) ≡ false = ground arith in
    let r = entry-pack_all w m (i + 1) vs raw2 j small (omega arith) (omega arith) in
    elim (Bool-cases (ltb j i)) [
      | inl e ↦
          let e2 : ltb j (i + 1) ≡ true = ground arith in
          let ne : j ≢ i = λ k. ground arith in
          let a = apart w i j ne in
          let a2 : (j * w + w ≤ i * w) ⊎ (i * w + length (le_bytes w (v % m)) ≤ j * w) =
            ground arith in
          let r2 : get_le w (j * w) (pack_all w m (i + 1) vs raw2) ≡ get_le w (j * w) raw2 =
            rw e2 at r in
          rw (fits, e)
            (r2 ∙ ap le_value (slice-overwrite_apart (j * w) w (i * w) (le_bytes w (v % m)) raw a2))
      | inr e ↦ elim (Bool-cases (j == i)) [
        | inl f ↦
            let k : j ≡ i = ground arith in
            let e2 : ltb j (i + 1) ≡ true = ground arith in
            let z : j - i ≡ 0 = omega arith in
            let r2 : get_le w (j * w) (pack_all w m (i + 1) vs raw2) ≡ get_le w (j * w) raw2 =
              rw e2 at r in
            rw (fits, e, z)
              (r2
                ∙ ap (λ q. get_le w (q * w) raw2) k
                ∙ le_read_back w (i * w) (v % m) raw (small v) (omega arith))
        | inr f ↦
            let e2 : ltb j (i + 1) ≡ false = ground arith in
            let z : j - i ≡ suc (j - (i + 1)) = ground arith in
            let r2 : get_le w (j * w) (pack_all w m (i + 1) vs raw2)
                ≡ get_or vs (j - (i + 1)) 0 % m =
              rw e2 at r in
            rw (fits, e, z) r2
      ]
    ]
