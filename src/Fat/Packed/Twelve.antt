-- ===== src/Fat/Packed/Twelve.antt =====
-- Entries of 12 bits: what one of them is, and that packing changes this one and no other.
use fsforge.Common.{
  ℕ, zero, suc, ◌+◌, ◌-◌, ◌*◌, ◌/◌, ◌%◌, ◌≤◌, ◌<◌, ◌≡◌, ◌≢◌, refl, ap, ◌∙◌, inl, inr, ◌⊎◌, true,
  false, ltb, leb, ◌==◌, if◌then◌else◌, List, [], ◌∷◌, length, get_or, set, Bytes, All, arith,
  Bool-cases, length-set, get_or-set_self, get_or-set_ne, All-set,
}
use fsforge.Fat.Packed.{pack_fat12, pack_all12}

-- The entry that a reader of the volume finds: 12 bits of the two bytes at 3 / 2 of its number.
unfoldable pub entry12 : Bytes → ℕ → ℕ
entry12 raw i =
    let word = get_or raw (i * 3 / 2) 0 + 256 * get_or raw (i * 3 / 2 + 1) 0 in
    if i % 2 == 0 then word % 4096 else word / 16

set_two :
    (raw : Bytes) (o x a b : ℕ)
    → o + 1 < length raw
    → get_or (set (set raw o a) (o + 1) b) x 0
      ≡ (if x == o + 1 then b else if x == o then a else get_or raw x 0)
set_two raw o x a b l =
    let len = length-set raw o a in
    elim (Bool-cases (x == o + 1)) [
      | inl e ↦
          let k : x ≡ o + 1 = ground arith in
          rw (e, k) (get_or-set_self (set raw o a) (o + 1) b 0 (omega arith))
      | inr e ↦
          let n : o + 1 ≢ x = λ k. ground arith in
          elim (Bool-cases (x == o)) [
            | inl f ↦
                let k : x ≡ o = ground arith in
                rw (e, f)
                  (get_or-set_ne (set raw o a) (o + 1) x b 0 n
                    ∙ ap (λ y. get_or (set raw o a) y 0) k
                    ∙ get_or-set_self raw o a 0 (omega arith))
            | inr f ↦
                let n2 : o ≢ x = λ k. ground arith in
                rw (e, f)
                  (get_or-set_ne (set raw o a) (o + 1) x b 0 n ∙ get_or-set_ne raw o x a 0 n2)
          ]
    ]

-- What the two bytes of entry `j` give after the two bytes of entry `i` were changed to `a` and `b`.
abbrev seen : ℕ → ℕ → ℕ → ℕ → ℕ → ℕ → ℕ
seen i j p q a b =
    let o = i * 3 / 2 in
    let u = j * 3 / 2 in
    let lo = if u == o + 1 then b else if u == o then a else p in
    let hi = if u + 1 == o + 1 then b else if u + 1 == o then a else q in
    if j % 2 == 0 then (lo + 256 * hi) % 4096 else (lo + 256 * hi) / 16

entry12-set_two :
    (raw : Bytes) (i j a b : ℕ)
    → i * 3 / 2 + 1 < length raw
    → entry12 (set (set raw (i * 3 / 2) a) (i * 3 / 2 + 1) b) j
      ≡ seen i j (get_or raw (j * 3 / 2) 0) (get_or raw (j * 3 / 2 + 1) 0) a b
unfolding entry12
entry12-set_two raw i j a b l =
    rw (set_two raw (i * 3 / 2) (j * 3 / 2) a b l, set_two raw (i * 3 / 2) (j * 3 / 2 + 1) a b l)
      refl

-- The arithmetic of an even and of an odd entry. `x` and `y` are the bytes that are changed, `p` and `q`
-- the bytes that are read, which are the same ones where the entries share bytes.
seen_even_self :
    (i p q x y v : ℕ)
    → i % 2 ≡ 0
    → v < 4096
    → seen i i p q (v % 256) (y / 16 * 16 + v / 256 % 16) ≡ v
seen_even_self i p q x y v e h = ground arith

seen_odd_self :
    (i p q x y v : ℕ)
    → i % 2 ≡ 1
    → v < 4096
    → x < 256
    → seen i i p q (x % 16 + v % 16 * 16) (v / 16 % 256) ≡ v
seen_odd_self i p q x y v e h k = ground arith

abbrev word12 : ℕ → ℕ → ℕ → ℕ
word12 j p q = if j % 2 == 0 then (p + 256 * q) % 4096 else (p + 256 * q) / 16

entry12-word :
    (raw : Bytes) (j : ℕ)
    → word12 j (get_or raw (j * 3 / 2) 0) (get_or raw (j * 3 / 2 + 1) 0) ≡ entry12 raw j
unfolding entry12
entry12-word raw j = refl

seen_even_other :
    (i j p q y v : ℕ)
    → i % 2 ≡ 0
    → j ≢ i
    → y < 256
    → (j * 3 / 2 ≡ i * 3 / 2 + 1 → p ≡ y)
    → seen i j p q (v % 256) (y / 16 * 16 + v / 256 % 16) ≡ word12 j p q
seen_even_other i j p q y v e ne b same = elim (Bool-cases (j == i + 1)) [
  | inl t ↦ let k : j ≡ i + 1 = ground arith in let s : p ≡ y = same (omega arith) in ground arith
  | inr t ↦ ground arith
]

seen_odd_other :
    (i j p q x v : ℕ)
    → i % 2 ≡ 1
    → j ≢ i
    → x < 256
    → p < 256
    → (j * 3 / 2 + 1 ≡ i * 3 / 2 → q ≡ x)
    → seen i j p q (x % 16 + v % 16 * 16) (v / 16 % 256) ≡ word12 j p q
seen_odd_other i j p q x v e ne b c same = elim (Bool-cases (i == j + 1)) [
  | inl t ↦ let k : i ≡ j + 1 = ground arith in let s : q ≡ x = same (omega arith) in ground arith
  | inr t ↦ ground arith
]

abbrev pub AreBytes : Bytes → Type 0
AreBytes raw = All (λ b. b < 256) raw

byte_small : (raw : Bytes) (x : ℕ) → AreBytes raw → get_or raw x 0 < 256
byte_small [] x h = omega arith
byte_small (b ∷ raw) zero h = h.0
byte_small (b ∷ raw) (suc x) h = byte_small raw x h.1

parity : (i : ℕ) → (i % 2 ≡ 0) ⊎ (i % 2 ≡ 1)
parity i = ground arith

pub length-pack_fat12 : (raw : Bytes) (i v : ℕ) → length (pack_fat12 raw i v) ≡ length raw
unfolding pack_fat12
length-pack_fat12 raw i v =
    let off = i * 3 / 2 in
    elim (Bool-cases (leb (length raw) (off + 1))) [
      | inl e ↦ rw e refl
      | inr e ↦ elim (Bool-cases (i % 2 == 0)) [
        | inl f ↦
            rw (e, f)
              (length-set (set raw off (v % 256)) (off + 1)
                  (get_or raw (off + 1) 0 / 16 * 16 + v / 256 % 16)
                ∙ length-set raw off (v % 256))
        | inr f ↦
            rw (e, f)
              (length-set (set raw off (get_or raw off 0 % 16 + v % 16 * 16)) (off + 1)
                  (v / 16 % 256)
                ∙ length-set raw off (get_or raw off 0 % 16 + v % 16 * 16))
      ]
    ]

pub pack_fat12-AreBytes : (raw : Bytes) (i v : ℕ) → AreBytes raw → AreBytes (pack_fat12 raw i v)
unfolding pack_fat12
pack_fat12-AreBytes raw i v h =
    let off = i * 3 / 2 in
    let x = byte_small raw off h in
    let y = byte_small raw (off + 1) h in
    elim (Bool-cases (leb (length raw) (off + 1))) [
      | inl e ↦ rw e h
      | inr e ↦ elim (Bool-cases (i % 2 == 0)) [
        | inl f ↦
            rw (e, f)
              (All-set (λ b. b < 256) (set raw off (v % 256)) (off + 1)
                (get_or raw (off + 1) 0 / 16 * 16 + v / 256 % 16)
                (All-set (λ b. b < 256) raw off (v % 256) h (omega arith)) (omega arith))
        | inr f ↦
            rw (e, f)
              (All-set (λ b. b < 256) (set raw off (get_or raw off 0 % 16 + v % 16 * 16)) (off + 1)
                (v / 16 % 256)
                (All-set (λ b. b < 256) raw off (get_or raw off 0 % 16 + v % 16 * 16) h
                  (omega arith))
                (omega arith))
      ]
    ]

-- Packing an entry that has room stores it.
entry12-pack_self :
    (raw : Bytes) (i v : ℕ)
    → AreBytes raw
    → i * 3 / 2 + 1 < length raw
    → v < 4096
    → entry12 (pack_fat12 raw i v) i ≡ v
unfolding pack_fat12
entry12-pack_self raw i v h l small =
    let off = i * 3 / 2 in
    let x = get_or raw off 0 in
    let y = get_or raw (off + 1) 0 in
    let e : leb (length raw) (off + 1) ≡ false = ground arith in
    elim (parity i) [
      | inl f ↦
          let g : i % 2 == 0 ≡ true = ground arith in
          rw (e, g)
            (entry12-set_two raw i i (v % 256) (y / 16 * 16 + v / 256 % 16) l
              ∙ seen_even_self i x y x y v f small)
      | inr f ↦
          let g : i % 2 == 0 ≡ false = ground arith in
          rw (e, g)
            (entry12-set_two raw i i (x % 16 + v % 16 * 16) (v / 16 % 256) l
              ∙ seen_odd_self i x y x y v f small (byte_small raw off h))
    ]

-- Packing an entry keeps every other one, also those that share a byte with it.
entry12-pack_other :
    (raw : Bytes) (i j v : ℕ)
    → AreBytes raw
    → j ≢ i
    → entry12 (pack_fat12 raw i v) j ≡ entry12 raw j
unfolding pack_fat12
entry12-pack_other raw i j v h ne =
    let off = i * 3 / 2 in
    let x = get_or raw off 0 in
    let y = get_or raw (off + 1) 0 in
    let p = get_or raw (j * 3 / 2) 0 in
    let q = get_or raw (j * 3 / 2 + 1) 0 in
    elim (Bool-cases (leb (length raw) (off + 1))) [
      | inl e ↦ rw e refl
      | inr e ↦
          let l : off + 1 < length raw = ground arith in
          elim (parity i) [
            | inl f ↦
                let g : i % 2 == 0 ≡ true = ground arith in
                rw (e, g)
                  (entry12-set_two raw i j (v % 256) (y / 16 * 16 + v / 256 % 16) l
                    ∙ seen_even_other i j p q y v f ne (byte_small raw (off + 1) h)
                        (ap (λ k. get_or raw k 0))
                    ∙ entry12-word raw j)
            | inr f ↦
                let g : i % 2 == 0 ≡ false = ground arith in
                rw (e, g)
                  (entry12-set_two raw i j (x % 16 + v % 16 * 16) (v / 16 % 256) l
                    ∙ seen_odd_other i j p q x v f ne (byte_small raw off h)
                        (byte_small raw (j * 3 / 2) h) (ap (λ k. get_or raw k 0))
                    ∙ entry12-word raw j)
          ]
    ]

-- The loop: every entry from `i` on is stored, and the ones before are kept.
pub entry12-pack_all12 :
    (i : ℕ) (vs : List ℕ) (raw : Bytes) (j : ℕ)
    → AreBytes raw
    → 3 * (i + length vs) ≤ 2 * length raw
    → j < i + length vs
    → entry12 (pack_all12 i vs raw) j
      ≡ (if ltb j i then entry12 raw j else get_or vs (j - i) 0 % 4096)
unfolding pack_all12
entry12-pack_all12 i [] raw j h room l = let e : ltb j i ≡ true = ground arith in rw e refl
entry12-pack_all12 i (v ∷ vs) raw j h room l =
    let raw2 = pack_fat12 raw i (v % 4096) in
    let len = length-pack_fat12 raw i (v % 4096) in
    let r =
      entry12-pack_all12 (i + 1) vs raw2 j (pack_fat12-AreBytes raw i (v % 4096) h) (omega arith)
        (omega arith) in
    elim (Bool-cases (ltb j i)) [
      | inl e ↦
          let e2 : ltb j (i + 1) ≡ true = ground arith in
          let ne : j ≢ i = λ k. ground arith in
          let r2 : entry12 (pack_all12 (i + 1) vs raw2) j ≡ entry12 raw2 j = rw e2 at r in
          rw e (r2 ∙ entry12-pack_other raw i j (v % 4096) h ne)
      | inr e ↦ elim (Bool-cases (j == i)) [
        | inl f ↦
            let k : j ≡ i = ground arith in
            let e2 : ltb j (i + 1) ≡ true = ground arith in
            let z : j - i ≡ 0 = omega arith in
            let r2 : entry12 (pack_all12 (i + 1) vs raw2) j ≡ entry12 raw2 j = rw e2 at r in
            let s = entry12-pack_self raw i (v % 4096) h (omega arith) (omega arith) in
            rw (e, z) (r2 ∙ ap (entry12 raw2) k ∙ s)
        | inr f ↦
            let e2 : ltb j (i + 1) ≡ false = ground arith in
            let z : j - i ≡ suc (j - (i + 1)) = ground arith in
            let r2 : entry12 (pack_all12 (i + 1) vs raw2) j ≡ get_or vs (j - (i + 1)) 0 % 4096 =
              rw e2 at r in
            rw (e, z) r2
      ]
    ]
