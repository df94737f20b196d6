-- ===== src/Alloc/Blocks.antt =====
-- Marking and unmarking runs of blocks: `mark`, `unmark` and the loops over them.
use fsforge.Common.{
  ℕ, zero, suc, ◌+◌, ◌*◌, ◌/◌, ◌%◌, ◌≤◌, ◌<◌, ◌≡◌, ◌≢◌, refl, ap, ◌∙◌, Bool, true, false, List, [],
  length, get_or, set, arith, get_or-set_self, get_or-set_ne, length-set, All-set, All-get_or,
}
use fsforge.Alloc.{Bitmap, Word, mark, unmark, each_block}
use fsforge.Alloc.View.{bit_at, is_used, IsWide}
use native.Mathlib.Decide.{ℕ_discrete}

abbrev put_bit : List Word → ℕ → Bool → List Word
put_bit ws i v = set ws (i / 64) (set (get_or ws (i / 64) []) (i % 64) v)

-- `mark` and `unmark` in one.
abbrev put_block : Bool → ℕ → Bitmap → Bitmap
put_block v i b = record b { bits = put_bit b.bits i v }

wide_word : (ws : List Word) (k : ℕ) → IsWide ws → k < length ws → length (get_or ws k []) ≡ 64
wide_word ws k h lt = All-get_or (λ w. length w ≡ 64) ws k [] h lt

put_bit-IsWide :
    (ws : List Word) (i : ℕ) (v : Bool) → IsWide ws → i / 64 < length ws → IsWide (put_bit ws i v)
put_bit-IsWide ws i v h lt =
    All-set (λ w. length w ≡ 64) ws (i / 64) _ h
      (length-set (get_or ws (i / 64) []) (i % 64) v ∙ wide_word ws (i / 64) h lt)

bit_at-put_bit_self :
    (ws : List Word) (i : ℕ) (v : Bool)
    → IsWide ws
    → i / 64 < length ws
    → bit_at (put_bit ws i v) i ≡ v
bit_at-put_bit_self ws i v h lt =
    rw (get_or-set_self ws (i / 64) (set (get_or ws (i / 64) []) (i % 64) v) [] lt) (
      get_or-set_self (get_or ws (i / 64) []) (i % 64) v false
        (omega (arith, wide_word ws (i / 64) h lt)))

bit_at-put_bit_ne :
    (ws : List Word) (i j : ℕ) (v : Bool)
    → i / 64 < length ws
    → i ≢ j
    → bit_at (put_bit ws i v) j ≡ bit_at ws j
bit_at-put_bit_ne ws i j v lt ne = elim (ℕ_discrete (i / 64) (j / 64)) [
  | yes e ↦ rw (← e) (
      rw (get_or-set_self ws (i / 64) (set (get_or ws (i / 64) []) (i % 64) v) [] lt)
        (get_or-set_ne (get_or ws (i / 64) []) (i % 64) (j % 64) v false (omega arith)))
  | no n ↦ ap (λ w. get_or w (j % 64) false) (get_or-set_ne ws (i / 64) (j / 64) _ [] n)
]

-- What a loop of marks leaves: the run has the value `v`, and all else is as before.
pub record Written (v : Bool) (start n : ℕ) (b b' : Bitmap) : Type 0 where
  pub inside : (j : ℕ) → start ≤ j → j < start + n → is_used b' j ≡ v
  pub before : (j : ℕ) → j < start → is_used b' j ≡ is_used b j
  pub behind : (j : ℕ) → start + n ≤ j → is_used b' j ≡ is_used b j
  pub wide : IsWide b'.bits
  pub same_length : length b'.bits ≡ length b.bits
  pub same_total : b'.total ≡ b.total
  pub same_hint : b'.hint ≡ b.hint

each_block-Written :
    (v : Bool) (n start : ℕ) (b : Bitmap)
    → IsWide b.bits
    → start + n ≤ length b.bits * 64
    → Written v start n b (each_block (put_block v) start n b)
unfolding each_block
each_block-Written v zero start b h fits = record {
  inside = λ j lo hi. absurd (omega arith);
  before = λ j lt. refl;
  behind = λ j le. refl;
  wide = h;
  same_length = refl;
  same_total = refl;
  same_hint = refl;
}
each_block-Written v (suc n) start b h fits =
    let here : start / 64 < length b.bits = omega arith in
    let b' : Bitmap = put_block v start b in
    let len : length b'.bits ≡ length b.bits = length-set b.bits (start / 64) _ in
    let w : Written v (start + 1) n b' (each_block (put_block v) (start + 1) n b') =
      each_block-Written v n (start + 1) b' (put_bit-IsWide b.bits start v h here)
        (omega (arith, len)) in
    record {
      inside = λ j lo hi. elim (ℕ_discrete start j) [
        | yes e ↦
            rw (← e) (w.before start (omega arith) ∙ bit_at-put_bit_self b.bits start v h here)
        | no ne ↦ w.inside j (omega arith) (omega arith)
      ];
      before =
          λ j lt. w.before j (omega arith) ∙ bit_at-put_bit_ne b.bits start j v here (omega arith);
      behind =
          λ j le. w.behind j (omega arith) ∙ bit_at-put_bit_ne b.bits start j v here (omega arith);
      wide = w.wide;
      same_length = w.same_length ∙ len;
      same_total = w.same_total;
      same_hint = w.same_hint;
    }

pub mark-Written :
    (n start : ℕ) (b : Bitmap)
    → IsWide b.bits
    → start + n ≤ length b.bits * 64
    → Written true start n b (each_block mark start n b)
unfolding mark
mark-Written n start b h fits = each_block-Written true n start b h fits

pub unmark-Written :
    (n start : ℕ) (b : Bitmap)
    → IsWide b.bits
    → start + n ≤ length b.bits * 64
    → Written false start n b (each_block unmark start n b)
unfolding unmark
unmark-Written n start b h fits = each_block-Written false n start b h fits
