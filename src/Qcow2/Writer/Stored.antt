-- ===== src/Qcow2/Writer/Stored.antt =====
-- Bytes stored at an offset of a byte function: at the place of a virtual byte, and piece by piece.
use fsforge.Common.{
  ℕ, zero, suc, ◌+◌, ◌-◌, ◌*◌, ◌/◌, ◌%◌, ◌≤◌, ◌<◌, ◌≡◌, ◌≢◌, ◌⊎◌, inl, inr, refl, sym, ap, ◌∙◌,
  true, false, ◌&&◌, ltb, leb, if◌then◌else◌, [], ◌∷◌, length, take, drop, get_or, Bytes, arith,
  Bool-cases, length-take, length-drop, get_or-drop, leb→le, ltb→lt, leb-false, ltb-false,
}
use fsforge.Qcow2.Header.{cluster_size}
use fsforge.Qcow2.Writer.{all_zero}

-- `p` stored at `at`, over what was there.
abbrev pub stored : Bytes → ℕ → (ℕ → ℕ) → ℕ → ℕ
stored p at old x = if leb at x && ltb x (at + length p) then get_or p (x - at) 0 else old x

pub stored_inside :
    (p : Bytes) (at : ℕ) (old : ℕ → ℕ) (x : ℕ)
    → at ≤ x
    → x < at + length p
    → stored p at old x ≡ get_or p (x - at) 0
stored_inside p at old x lo hi =
    let e : leb at x && ltb x (at + length p) ≡ true = ground arith in rw e

pub stored_outside :
    (p : Bytes) (at : ℕ) (old : ℕ → ℕ) (x : ℕ)
    → (x < at) ⊎ (at + length p ≤ x)
    → stored p at old x ≡ old x
stored_outside p at old x out =
    let e : leb at x && ltb x (at + length p) ≡ false = ground arith in rw e

pub where_is : (at n x : ℕ) → ((at ≤ x) × (x < at + n)) ⊎ ((x < at) ⊎ (at + n ≤ x))
where_is at n x = elim (Bool-cases (leb at x)) [
  | inl lo ↦ elim (Bool-cases (ltb x (at + n))) [
    | inl hi ↦ inl (leb→le _ _ lo, ltb→lt _ _ hi)
    | inr hi ↦ inr (inr (ltb-false _ _ hi))
  ]
  | inr lo ↦ inr (inl (leb-false _ _ lo))
]

-- Storing into the host cluster of `v` is storing at the place of `v`.
pub same_place :
    (p : Bytes) (old old' : ℕ → ℕ) (off host v : ℕ)
    → v / cluster_size ≡ off / cluster_size
    → old (host * cluster_size + v % cluster_size) ≡ old' v
    → stored p
        (host * cluster_size + off % cluster_size)
        old
        (host * cluster_size + v % cluster_size)
      ≡ stored p off old' v
same_place p old old' off host v same e = elim (where_is off (length p) v) [
  | inl (lo, hi) ↦
      let d : host * cluster_size + v % cluster_size - (host * cluster_size + off % cluster_size)
          ≡ v - off =
        omega arith in
      stored_inside p (host * cluster_size + off % cluster_size) old
        (host * cluster_size + v % cluster_size) (omega arith) (omega arith)
      ∙ ap (λ (k : ℕ). get_or p k 0) d
      ∙ sym (stored_inside p off old' v lo hi)
  | inr out ↦
      stored_outside p (host * cluster_size + off % cluster_size) old
        (host * cluster_size + v % cluster_size) (omega arith)
      ∙ e
      ∙ sym (stored_outside p off old' v out)
]

-- A chunk of one cluster leaves the others alone.
pub other_cluster :
    (off n v : ℕ)
    → v / cluster_size ≢ off / cluster_size
    → off % cluster_size + n ≤ cluster_size
    → (v < off) ⊎ (off + n ≤ v)
other_cluster off n v other fits = elim (where_is off n v) [
  | inl (lo, hi) ↦ let e : v / cluster_size ≡ off / cluster_size = omega arith in absurd (other e)
  | inr out ↦ out
]

pub get_or-all_zero : (b : Bytes) (k : ℕ) → all_zero b ≡ true → get_or b k 0 ≡ 0
unfolding all_zero
get_or-all_zero [] k z = refl
get_or-all_zero (x ∷ b) zero z = ground arith
get_or-all_zero (x ∷ b) (suc k) z = get_or-all_zero b k (ground arith)

pub get_or-take : (n : ℕ) (p : Bytes) (k : ℕ) → k < n → get_or (take n p) k 0 ≡ get_or p k 0
get_or-take zero p k lt = absurd (omega arith)
get_or-take (suc n) [] k lt = refl
get_or-take (suc n) (x ∷ p) zero lt = refl
get_or-take (suc n) (x ∷ p) (suc k) lt = get_or-take n p k (omega arith)

pub nowhere : (off v : ℕ) → (v < off) ⊎ (off + 0 ≤ v)
nowhere off v = elim (where_is off 0 v) [ inl (lo, hi) ↦ absurd (omega arith) | inr out ↦ out ]

pub beyond :
    (n : ℕ) (p : Bytes) (off v : ℕ)
    → (v < off) ⊎ (off + n ≤ v)
    → n ≤ length p
    → (v < off) ⊎ (off + length (take n p) ≤ v)
beyond n p off v (inl a) le = inl a
beyond n p off v (inr a) le = inr (omega (arith, length-take n p))

pub outside :
    (n : ℕ) (p : Bytes) (off v : ℕ)
    → (v < off + n) ⊎ (off + n + length (drop n p) ≤ v)
    → (v < off) ⊎ (off + n ≤ v)
    → n ≤ length p
    → (v < off) ⊎ (off + length p ≤ v)
outside n p off v out (inl a) le = inl a
outside n p off v (inl a) (inr b) le = absurd (omega arith)
outside n p off v (inr a) (inr b) le = inr (omega (arith, length-drop n p))

-- The first bytes stored, and then the others.
pub stored_split :
    (n : ℕ) (p : Bytes) (off : ℕ) (old middle : ℕ → ℕ) (v : ℕ)
    → n ≤ length p
    → middle v ≡ stored (take n p) off old v
    → stored (drop n p) (off + n) middle v ≡ stored p off old v
stored_split n p off old middle v le e = elim (where_is (off + n) (length (drop n p)) v) [
  | inl (lo, hi) ↦
      let d : n + (v - (off + n)) ≡ v - off = omega arith in
      stored_inside (drop n p) (off + n) middle v lo hi
      ∙ get_or-drop n p (v - (off + n)) 0
      ∙ ap (λ (k : ℕ). get_or p k 0) d
      ∙ sym (stored_inside p off old v (omega arith) (omega (arith, length-drop n p)))
  | inr out ↦ stored_outside (drop n p) (off + n) middle v out ∙ e ∙ elim (where_is off n v) [
    | inl (lo, hi) ↦
        stored_inside (take n p) off old v lo (omega (arith, length-take n p))
        ∙ get_or-take n p (v - off) (omega arith)
        ∙ sym (stored_inside p off old v lo (omega arith))
    | inr away ↦
        stored_outside (take n p) off old v (beyond n p off v away le)
        ∙ sym (stored_outside p off old v (outside n p off v out away le))
  ]
]
