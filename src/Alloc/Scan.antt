-- ===== src/Alloc/Scan.antt =====
-- `firstFree` and `firstUsed` find the lowest such block at or after `from`.
use fsforge.Common.{
  ℕ, suc, ◌+◌, ◌-◌, ◌*◌, ◌/◌, ◌%◌, ◌≤◌, ◌<◌, ◌≡◌, ◌≢◌, ◌⊎◌, inl, inr, refl, sym, ap, ◌∙◌, Bool,
  true, false, not, List, [], ◌∷◌, length, get_or, drop, arith, get_or-drop, length-drop, All-drop,
  All-get_or, Bool-cases,
}
use fsforge.Alloc.{Bitmap, Word, fill_low, trailing, has_bit, scan}
use fsforge.Alloc.View.{bit_at, is_used, IsWide, IsValid}
use fsforge.Alloc.Words.{
  length-fill_low, get_or-fill_low_lt, get_or-fill_low_ge, trailing_lem, below_trailing, no_bit,
}
use native.Mathlib.Decide.{dec_lt, ℕ_discrete}

-- Bit `j` of a list of words whose first one holds the blocks from `i * 64` on.
abbrev pub bit_from : ℕ → List Word → ℕ → Bool
bit_from i ws j = get_or (get_or ws (j / 64 - i) []) (j % 64) false

-- What the loop returns: the lowest block with bit `v`, or `total` if no word has such a bit.
pub record Scanned (v : Bool) (i : ℕ) (ws : List Word) (total r : ℕ) : Type 0 where
  pub skipped : (j : ℕ) → i * 64 ≤ j → j < (i + length ws) * 64 → j < r → bit_from i ws j ≡ not v
  pub stops :
      (r ≡ total) × ((j : ℕ) → i * 64 ≤ j → j < (i + length ws) * 64 → bit_from i ws j ≡ not v)
      ⊎ (i * 64 ≤ r) × (r < (i + length ws) * 64) × (bit_from i ws r ≡ v)

-- A hit in the word in hand.
scan_hit :
    (v : Bool) (w : Word) (ws : List Word) (i total : ℕ)
    → length w ≡ 64
    → has_bit v w ≡ true
    → Scanned v i (w ∷ ws) total (i * 64 + trailing v w)
scan_hit v w ws i total l h =
    let (lt, at) = trailing_lem v w h in
    record {
      skipped = λ j lo hi below.
          let e : j / 64 - i ≡ 0 = omega arith in rw e (below_trailing v w (j % 64) (omega arith));
      stops =
          let e : (i * 64 + trailing v w) / 64 - i ≡ 0 = omega arith in
          let m : (i * 64 + trailing v w) % 64 ≡ trailing v w = omega arith in
          inr (omega arith, omega arith, rw (e, m) at);
    }

miss_word :
    (v : Bool) (w : Word) (ws : List Word) (i j : ℕ)
    → length w ≡ 64
    → has_bit v w ≡ false
    → i * 64 ≤ j
    → j < (i + 1) * 64
    → bit_from i (w ∷ ws) j ≡ not v
miss_word v w ws i j l h lo hi =
    let e : j / 64 - i ≡ 0 = omega arith in rw e (no_bit v w (j % 64) h (omega arith))

later_word :
    (w : Word) (ws : List Word) (i j : ℕ)
    → (i + 1) * 64 ≤ j
    → bit_from i (w ∷ ws) j ≡ bit_from (i + 1) ws j
later_word w ws i j lo = let e : j / 64 - i ≡ suc (j / 64 - (i + 1)) = omega arith in rw e

module _ (v : Bool) (w : Word) (ws : List Word) (i total r : ℕ) (l : length w ≡ 64) where
  scan_miss : has_bit v w ≡ false → Scanned v (i + 1) ws total r → Scanned v i (w ∷ ws) total r
  scan_miss h s = record {
    skipped = λ j lo hi below. elim (dec_lt j ((i + 1) * 64)) [
      | yes near ↦ miss_word v w ws i j l h lo near
      | no far ↦ later_word w ws i j (omega arith) ∙ s.skipped j (omega arith) (omega arith) below
    ];
    stops = elim s.stops [
      | inl (e, none_left) ↦ inl (
        e,
        λ j lo hi. elim (dec_lt j ((i + 1) * 64)) [
          | yes near ↦ miss_word v w ws i j l h lo near
          | no far ↦ later_word w ws i j (omega arith) ∙ none_left j (omega arith) (omega arith)
        ],
      )
      | inr (lo, hi, at) ↦ inr (omega arith, omega arith, later_word w ws i r (omega arith) ∙ at)
    ];
  }

scan-Scanned :
    (v : Bool) (w : Word) (i : ℕ) (ws : List Word) (total : ℕ)
    → length w ≡ 64
    → IsWide ws
    → Scanned v i (w ∷ ws) total (scan v w i ws total)
unfolding scan
scan-Scanned v w i [] total l h = elim (Bool-cases (has_bit v w)) [
  | inl e ↦ rw e (scan_hit v w [] i total l e)
  | inr e ↦ rw e (record {
    skipped = λ j lo hi below. miss_word v w [] i j l e lo (omega arith);
    stops = inl (refl, λ j lo hi. miss_word v w [] i j l e lo (omega arith));
  })
]
scan-Scanned v w i (w' ∷ ws) total l h = elim (Bool-cases (has_bit v w)) [
  | inl e ↦ rw e (scan_hit v w (w' ∷ ws) i total l e)
  | inr e ↦
      rw e (scan_miss v w (w' ∷ ws) i total _ l e (scan-Scanned v w' (i + 1) ws total h.0 h.1))
]

-- The words that the two functions scan: the word of `from` with its low bits masked, and the rest.
abbrev pub masked : Bool → List Word → ℕ → List Word
masked v ws from = fill_low (not v) (from % 64) (get_or ws (from / 64) []) ∷ drop (from / 64 + 1) ws

module _ (v : Bool) (ws : List Word) (from : ℕ) (here : from / 64 < length ws) where
  masked_ge : (j : ℕ) → from ≤ j → bit_from (from / 64) (masked v ws from) j ≡ bit_at ws j
  masked_ge j le = elim (ℕ_discrete (from / 64) (j / 64)) [
    | yes e ↦
        let z : j / 64 - from / 64 ≡ 0 = omega arith in
        rw z (
          get_or-fill_low_ge (not v) (from % 64) (get_or ws (from / 64) []) (j % 64) (omega arith)
          ∙ rw e)
    | no ne ↦
        let s : j / 64 - from / 64 ≡ suc (j / 64 - from / 64 - 1) = omega arith in
        let back : from / 64 + 1 + (j / 64 - from / 64 - 1) ≡ j / 64 = omega arith in
        rw s (
          ap (λ (w : Word). get_or w (j % 64) false)
            (get_or-drop (from / 64 + 1) ws (j / 64 - from / 64 - 1) [] ∙ rw back))
  ]

  module _ (h : IsWide ws) where
    masked_lt :
        (j : ℕ) → from / 64 * 64 ≤ j → j < from → bit_from (from / 64) (masked v ws from) j ≡ not v
    masked_lt j lo hi =
        let z : j / 64 - from / 64 ≡ 0 = omega arith in
        rw z (
          get_or-fill_low_lt (not v) (from % 64) (get_or ws (from / 64) []) (j % 64) (omega arith)
            (omega (arith, All-get_or (λ w. length w ≡ 64) ws (from / 64) [] h here)))

    pub masked-scan :
        (total : ℕ)
        → Scanned v (from / 64) (masked v ws from) total (
            scan v
              (fill_low (not v) (from % 64) (get_or ws (from / 64) []))
              (from / 64)
              (drop (from / 64 + 1) ws)
              total)
    masked-scan total =
        scan-Scanned v _ (from / 64) (drop (from / 64 + 1) ws) total
          (length-fill_low (not v) (from % 64) _
            ∙ All-get_or (λ w. length w ≡ 64) ws (from / 64) [] h here)
          (All-drop (λ w. length w ≡ 64) (from / 64 + 1) ws h)

    masked-length : from / 64 + length (masked v ws from) ≡ length ws
    masked-length = omega (arith, length-drop (from / 64 + 1) ws)

-- `r` is the lowest block at or after `from` with the value `v`, or the total if there is none.
pub record LowestFrom (v : Bool) (b : Bitmap) (from r : ℕ) : Type 0 where
  pub lower : from ≤ r
  pub upper : r ≤ b.total
  pub skipped : (j : ℕ) → from ≤ j → j < r → is_used b j ≡ not v
  pub here : r < b.total → is_used b r ≡ v

not-ne : (v : Bool) → v ≢ not v
not-ne true = λ e. cc
not-ne false = λ e. cc

-- Two words on what the scan found, at or after `from` and below the total.
module _ (v : Bool) (b : Bitmap) (from : ℕ) (valid : IsValid b) (lt : from < b.total) (r : ℕ)
    (s : Scanned v (from / 64) (masked v b.bits from) b.total r) where
  in_words : from / 64 < length b.bits
  in_words = omega (arith, valid.words)

  pub scanned-lower : from ≤ r
  scanned-lower = elim s.stops [
    | inl (e, none_left) ↦ omega arith
    | inr (lo, hi, at) ↦ elim (dec_lt r from) [
      | yes low ↦ absurd (not-ne v (sym at ∙ masked_lt v b.bits from in_words valid.wide r lo low))
      | no ok ↦ omega arith
    ]
  ]

  pub scanned-skipped : (j : ℕ) → from ≤ j → j < r → j < b.total → is_used b j ≡ not v
  scanned-skipped j lo hi below =
      sym (masked_ge v b.bits from in_words j lo)
      ∙ s.skipped j (omega arith)
          (omega (arith, valid.words, masked-length v b.bits from in_words valid.wide)) hi

  pub scanned-here : r < b.total → is_used b r ≡ v
  scanned-here below = elim s.stops [
    | inl (e, none_left) ↦ absurd (omega arith)
    | inr (lo, hi, at) ↦ sym (masked_ge v b.bits from in_words r scanned-lower) ∙ at
  ]

  pub scanned-in_range : (r ≡ b.total) ⊎ (r < length b.bits * 64) × (is_used b r ≡ v)
  scanned-in_range = elim s.stops [
    | inl (e, none_left) ↦ inl e
    | inr (lo, hi, at) ↦ inr (
      omega (arith, masked-length v b.bits from in_words valid.wide),
      sym (masked_ge v b.bits from in_words r scanned-lower) ∙ at,
    )
  ]
