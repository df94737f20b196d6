-- ===== src/Ext/Extents/Runs.antt =====
-- The runs hold the blocks of a file, in order.
use fsforge.Common.{
  append_assoc, ℕ, zero, suc, ◌+◌, ◌-◌, ◌≤◌, ◌<◌, ◌≡◌, inl, inr, refl, sym, ap, ◌∙◌, min, ◌==◌,
  List, [], ◌∷◌, ◌++◌, length, drop, arith, Bool-cases, u32, ◌%◌,
}
use fsforge.Ext.Extents.{
  ExtentLeaf, extent_max_len, consecutive, split_run, runs_loop, contiguous_runs, upto,
}

-- The blocks of leaves.
unfoldable pub expand : List ExtentLeaf → List ℕ
expand [] = []
expand (e ∷ es) = upto e.start e.len ++ expand es

expand-append : (xs ys : List ExtentLeaf) → expand (xs ++ ys) ≡ expand xs ++ expand ys
unfolding expand
expand-append [] ys = refl
expand-append (x ∷ xs) ys =
    ap (◌++◌ (upto x.start x.len)) (expand-append xs ys)
    ∙ sym (append_assoc (upto x.start x.len) (expand xs) (expand ys))

upto_split : (start n m : ℕ) → upto start (n + m) ≡ upto start n ++ upto (start + n) m
unfolding upto
upto_split start zero m =
    let e : zero + m ≡ m = omega arith in let f : start + zero ≡ start = omega arith in rw (e, f)
upto_split start (suc n) m =
    let e : suc n + m ≡ suc (n + m) = omega arith in
    let f : start + suc n ≡ start + 1 + n = omega arith in
    rw (e, f) (ap (◌∷◌ start) (upto_split (start + 1) n m))

expand-split_run :
    (fuel run_len logical phys : ℕ)
    → run_len ≤ fuel
    → expand (split_run fuel run_len logical phys) ≡ upto phys run_len
unfolding split_run expand upto
expand-split_run zero run_len logical phys h = let e : run_len ≡ 0 = omega arith in rw e
expand-split_run (suc fuel) run_len logical phys h = elim (Bool-cases (run_len == 0)) [
  | inl z ↦ let e : run_len ≡ 0 = ground arith in rw e
  | inr nz ↦
      let c : ℕ = min run_len extent_max_len in
      let pos : 0 < run_len = ground arith in
      let e : run_len ≡ min run_len extent_max_len + (run_len - min run_len extent_max_len) =
        omega arith in
      rw nz (
        ap (◌++◌ (upto phys c))
          (expand-split_run fuel (run_len - c) ((logical + c) % u32) (phys + c) (omega arith))
        ∙ sym (upto_split phys c (run_len - c))
        ∙ ap (upto phys) (sym e))
]

consecutive_split :
    (x : ℕ) (xs : List ℕ) → upto x (suc (consecutive x xs)) ++ drop (consecutive x xs) xs ≡ x ∷ xs
unfolding consecutive upto
consecutive_split x [] = refl
consecutive_split x (y ∷ ys) = elim (Bool-cases (y == x + 1)) [
  | inl e ↦ let n : x + 1 ≡ y = ground arith in rw (e, n) (ap (◌∷◌ x) (consecutive_split y ys))
  | inr e ↦ rw e
]

drop-shorter : (n : ℕ) (xs : List ℕ) → length (drop n xs) ≤ length xs
drop-shorter zero xs = omega arith
drop-shorter (suc n) [] = omega arith
drop-shorter (suc n) (x ∷ xs) = omega (arith, drop-shorter n xs)

expand-runs_loop :
    (fuel logical : ℕ) (blocks : List ℕ)
    → length blocks ≤ fuel
    → expand (runs_loop fuel logical blocks) ≡ blocks
unfolding runs_loop expand
expand-runs_loop zero logical [] h = refl
expand-runs_loop zero logical (x ∷ xs) h = absurd (omega arith)
expand-runs_loop (suc fuel) logical [] h = refl
expand-runs_loop (suc fuel) logical (x ∷ xs) h =
    let k : ℕ = consecutive x xs in
    let n : ℕ = suc (consecutive x xs) in
    let rest : List ExtentLeaf = runs_loop fuel ((logical + n) % u32) (drop k xs) in
    expand-append (split_run n n logical x) rest
    ∙ ap (λ (r : List ℕ). r ++ expand rest) (expand-split_run n n logical x (omega arith))
    ∙ ap (◌++◌ (upto x n))
        (expand-runs_loop fuel ((logical + n) % u32) (drop k xs) (omega (arith, drop-shorter k xs)))
    ∙ consecutive_split x xs

-- Leaves of 1 to 32768 blocks that cover the logical blocks from `l` on, with no gap.
pub data AreLeaves : ℕ → List ExtentLeaf → Type 0 where
  done : {l : ℕ} → AreLeaves l []
  next :
      {l : ℕ} {e : ExtentLeaf} {es : List ExtentLeaf}
      → e.logical ≡ l
      → 0 < e.len
      → e.len ≤ extent_max_len
      → AreLeaves ((l + e.len) % u32) es
      → AreLeaves l (e ∷ es)

split_run-AreLeaves :
    (fuel n l phys : ℕ) (ys : List ExtentLeaf)
    → n ≤ fuel
    → l < u32
    → AreLeaves ((l + n) % u32) ys
    → AreLeaves l (split_run fuel n l phys ++ ys)
unfolding split_run
split_run-AreLeaves zero n l phys ys h small tail =
    let e : (l + n) % u32 ≡ l = omega arith in rw e at tail
split_run-AreLeaves (suc fuel) n l phys ys h small tail = elim (Bool-cases (n == 0)) [
  | inl z ↦
      let m : n ≡ 0 = ground arith in
      let e : (l + n) % u32 ≡ l = omega arith in let t : AreLeaves l ys = rw e at tail in rw z t
  | inr nz ↦
      let pos : 0 < n = ground arith in
      let c : ℕ = min n extent_max_len in
      let e : (l + n) % u32
          ≡ ((l + min n extent_max_len) % u32 + (n - min n extent_max_len)) % u32 =
        omega arith in
      let t : AreLeaves (((l + min n extent_max_len) % u32 + (n - min n extent_max_len)) % u32) ys =
        rw e at tail in
      rw nz (
        next refl (omega arith) (omega arith) (
          split_run-AreLeaves fuel (n - c) ((l + c) % u32) (phys + c) ys (omega arith) (omega arith)
            t))
]

runs_loop-AreLeaves :
    (fuel l : ℕ) (blocks : List ℕ) → l < u32 → AreLeaves l (runs_loop fuel l blocks)
unfolding runs_loop
runs_loop-AreLeaves zero l blocks small = done
runs_loop-AreLeaves (suc fuel) l [] small = done
runs_loop-AreLeaves (suc fuel) l (x ∷ xs) small =
    let n : ℕ = suc (consecutive x xs) in
    split_run-AreLeaves n n l x _ (omega arith) small
      (runs_loop-AreLeaves fuel ((l + n) % u32) (drop (consecutive x xs) xs) (omega arith))

-- The runs of a file's blocks, expanded, are those blocks in their order; they cover the logical
-- blocks from 0 on without a gap, and none is empty or longer than an extent may be.
pub contiguous_runs-AreLeaves :
    (blocks : List ℕ)
    → (expand (contiguous_runs blocks) ≡ blocks) × AreLeaves 0 (contiguous_runs blocks)
unfolding contiguous_runs
contiguous_runs-AreLeaves blocks = (
  expand-runs_loop (length blocks) 0 blocks (omega arith),
  runs_loop-AreLeaves (length blocks) 0 blocks (omega arith),
)
