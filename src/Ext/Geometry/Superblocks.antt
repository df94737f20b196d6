-- ===== src/Ext/Geometry/Superblocks.antt =====
-- `hasSuperblock` is the sparse_super rule.
use fsforge.Common.{
  ℕ, zero, suc, ◌*◌, ◌/◌, ◌%◌, ◌^◌, ◌≤◌, ◌<◌, ◌≡◌, ◌↔◌, ◌⊎◌, inl, inr, sym, ◌∙◌, true, false, ◌==◌,
  arith, Bool-cases,
}
use fsforge.Ext.Geometry.{power_loop, is_power_of, has_superblock}
use native.Mathlib.Nat.{div-add-mod, pow-suc, pow-zero, mul-div_left, mul-mod_left, mod-eq_of_lt}

-- `n` is a power of `base`.
abbrev pub IsPower : ℕ → ℕ → Type 0
IsPower base n = (k : ℕ) × (n ≡ base ^ k)

power_loop_sound : (fuel n base : ℕ) → 1 < base → power_loop fuel n base ≡ true → IsPower base n
unfolding power_loop
power_loop_sound zero n base big h = cc
power_loop_sound (suc fuel) n base big h = elim (Bool-cases (n % base == 0)) [
  | inl e ↦
      let (k, p) = power_loop_sound fuel (n / base) base big (rw e at h) in
      let whole : n % base ≡ 0 = ground arith in
      (suc k, rw (pow-suc, ← p) (omega (arith, div-add-mod n base)))
  | inr e ↦ let one : (n == 1) ≡ true = rw e at h in (0, rw pow-zero (ground arith))
]

pow_pos : (base k : ℕ) → 0 < base → 0 < base ^ k
pow_pos base zero h = rw pow-zero (omega arith)
pow_pos base (suc k) h = let p : 0 < base ^ k = pow_pos base k h in rw pow-suc (grind arith)

power_loop_step :
    (fuel n base : ℕ)
    → n % base ≡ 0
    → power_loop fuel (n / base) base ≡ true
    → power_loop (suc fuel) n base ≡ true
unfolding power_loop
power_loop_step fuel n base e h = ground arith

power_loop_one : (fuel base : ℕ) → 1 < base → power_loop (suc fuel) 1 base ≡ true
unfolding power_loop
power_loop_one fuel base big =
    let e : 1 % base ≡ 1 = omega (arith, mod-eq_of_lt big) in ground arith

power_loop_complete :
    (k fuel base : ℕ) → 1 < base → base ^ k ≤ fuel → power_loop fuel (base ^ k) base ≡ true
power_loop_complete k zero base big enough = absurd (omega (arith, pow_pos base k (omega arith)))
power_loop_complete zero (suc fuel) base big enough = rw pow-zero (power_loop_one fuel base big)
power_loop_complete (suc k) (suc fuel) base big enough =
    let p : 0 < base ^ k = pow_pos base k (omega arith) in
    let up : base ^ suc k ≡ base ^ k * base = pow-suc base k in
    let whole : base ^ k * base % base ≡ 0 = mul-mod_left (base ^ k) base in
    let down : base ^ k * base / base ≡ base ^ k = mul-div_left (base ^ k) (omega arith) in
    let less : base ^ k < base ^ k * base = grind arith in
    rw up (
      power_loop_step fuel (base ^ k * base) base whole
        (rw down (power_loop_complete k fuel base big (omega arith))))

is_power_of_pos : (n base : ℕ) → 0 < n → is_power_of n base ≡ power_loop n n base
unfolding is_power_of
is_power_of_pos n base pos = let e : (n == 0) ≡ false = ground arith in rw e

is_power_of_iff : (n base : ℕ) → 1 < base → (is_power_of n base ≡ true) ↔ IsPower base n
is_power_of_iff zero base big = (
  unfold is_power_of in λ h. cc,
  λ p. absurd (omega (arith, p.1, pow_pos base p.0 (omega arith))),
)
is_power_of_iff (suc m) base big = (
  λ h.
      power_loop_sound (suc m) (suc m) base big
        (sym (is_power_of_pos (suc m) base (omega arith)) ∙ h),
  λ p. rw (p.1) (
      is_power_of_pos (base ^ p.0) base (pow_pos base p.0 (omega arith))
      ∙ power_loop_complete p.0 (base ^ p.0) base big (omega arith)),
)

-- A group carries a superblock and descriptor table exactly if it is group 0 or its number is a power
-- of 3, 5 or 7 (1 is one). The dividing loop always has enough fuel.
pub has_superblock-IsPower :
    (gr : ℕ) → (has_superblock gr ≡ true) ↔ ((gr ≡ 0) ⊎ IsPower 3 gr ⊎ IsPower 5 gr ⊎ IsPower 7 gr)
unfolding has_superblock
has_superblock-IsPower gr =
    let three = is_power_of_iff gr 3 (omega arith) in
    let five = is_power_of_iff gr 5 (omega arith) in
    let seven = is_power_of_iff gr 7 (omega arith) in
    (
      (λ h. elim (Bool-cases (gr == 0)) [
        | inl e ↦ inl (ground arith)
        | inr e ↦ elim (Bool-cases (is_power_of gr 3)) [
          | inl a ↦ inr (inl (three.0 a))
          | inr a ↦ elim (Bool-cases (is_power_of gr 5)) [
            | inl b ↦ inr (inr (inl (five.0 b)))
            | inr b ↦ inr (inr (inr (seven.0 (rw (e, a, b) at h))))
          ]
        ]
      ]),
      elim [
        | inl e ↦ rw e
        | inr (inl p) ↦ ground (arith, three.1 p)
        | inr (inr (inl p)) ↦ ground (arith, five.1 p)
        | inr (inr (inr p)) ↦ ground (arith, seven.1 p)
      ],
    )
