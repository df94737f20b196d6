-- ===== src/AllocRuns/Held.antt =====
-- The runs that `AllocRuns` holds at some point of its loop, against the state it began with.
use fsforge.Common.{
  ℕ, ◌+◌, ◌≤◌, ◌<◌, ◌≡◌, ◌⊎◌, inl, inr, refl, sym, ◌∙◌, Bool, true, false, ◌&&◌, ◌||◌, List, [],
  ◌∷◌, ◌++◌, leb, ltb, if◌then◌else◌, All, arith, Bool-cases,
}
use fsforge.AllocRuns.{Allocator, Run, free_runs}
use fsforge.AllocRuns.Laws.{View, Takes, Releases, IsLawful}
use mathlib.Core.Path.{subst}
use native.Mathlib.Decide.{dec_lt}

abbrev pub in_run : Run → ℕ → Bool
in_run r j = leb r.start j && ltb j (r.start + r.len)

abbrev pub in_runs : List Run → ℕ → Bool
in_runs [] j = false
in_runs (r ∷ rs) j = in_run r j || in_runs rs j

abbrev pub total_len : List Run → ℕ
total_len [] = 0
total_len (r ∷ rs) = r.len + total_len rs

-- Two runs have no block in common.
abbrev pub Apart : Run → Run → Type 0
Apart r q = (r.start + r.len ≤ q.start) ⊎ (q.start + q.len ≤ r.start)

abbrev pub Disjoint : List Run → Type 0
Disjoint [] = Unit
Disjoint (r ∷ rs) = All (Apart r) rs × Disjoint rs

-- A run that `AllocRuns` may return for a disk of `total` blocks and the cap `max_run`.
abbrev pub Fits : ℕ → ℕ → Run → Type 0
Fits total max_run r = (0 < r.len) × (r.start + r.len ≤ total) × ((max_run ≡ 0) ⊎ (r.len ≤ max_run))

pub in_run_iff_of : (r : Run) (j : ℕ) → in_run r j ≡ true → (r.start ≤ j) × (j < r.start + r.len)
in_run_iff_of r j h = ground arith

pub in_runs-append :
    (xs : List Run) (r : Run) (j : ℕ) → in_runs (xs ++ r ∷ []) j ≡ (in_runs xs j || in_run r j)
in_runs-append [] r j = ground arith
in_runs-append (x ∷ xs) r j = ground (arith, in_runs-append xs r j)

pub total_len-append : (xs : List Run) (r : Run) → total_len (xs ++ r ∷ []) ≡ total_len xs + r.len
total_len-append [] r = omega arith
total_len-append (x ∷ xs) r = omega (arith, total_len-append xs r)

pub All-append {ℓ κ} :
    {A : Type ℓ} (P : A → Type κ) (xs : List A) (a : A) → All P xs → P a → All P (xs ++ a ∷ [])
All-append P [] a h p = (p, tt)
All-append P (x ∷ xs) a h p = (h.0, All-append P xs a h.1 p)

Disjoint-append :
    (xs : List Run) (r : Run) → Disjoint xs → All (λ q. Apart q r) xs → Disjoint (xs ++ r ∷ [])
Disjoint-append [] r d h = (tt, tt)
Disjoint-append (x ∷ xs) r d h = (All-append (Apart x) xs r d.0 h.0, Disjoint-append xs r d.1 h.1)

-- A run of free blocks is apart from runs whose blocks are in use.
Apart-of_free :
    (f : ℕ → Bool) (r : Run) (xs : List Run)
    → 0 < r.len
    → ((j : ℕ) → r.start ≤ j → j < r.start + r.len → f j ≡ false)
    → All (λ (q : Run). 0 < q.len) xs
    → ((j : ℕ) → in_runs xs j ≡ true → f j ≡ true)
    → All (λ q. Apart q r) xs
Apart-of_free f r [] pos is_free long used = tt
Apart-of_free f r (x ∷ xs) pos is_free long used = (
  elim (dec_lt r.start (x.start + x.len)) [
    | no far ↦ inl (omega arith)
    | yes near ↦ elim (dec_lt x.start (r.start + r.len)) [
      | no far ↦ inr (omega arith)
      | yes close ↦ elim (dec_lt x.start r.start) [
        | yes lt ↦ cc (used r.start (ground arith), is_free r.start (omega arith) (omega arith))
        | no ge ↦ cc (used x.start (ground arith), is_free x.start (omega arith) (omega arith))
      ]
    ]
  ],
  Apart-of_free f r xs pos is_free long.1 (λ j h. used j (ground arith)),
)

-- A block of the run is free, another as `x` says.
abbrev if_free : Run → ℕ → Bool → Bool
if_free r j x = if in_run r j then false else x

module _ {S : Type 0} (v : View S) where
  -- From `s₀`, where all of `runs` was free, to `s`, where just these blocks are taken as well.
  pub record Held (max_run : ℕ) (runs : List Run) (s₀ s : S) : Type 0 where
    pub valid : v.Valid s
    pub total : v.total s ≡ v.total s₀
    pub fit : All (Fits (v.total s₀) max_run) runs
    pub disjoint : Disjoint runs
    pub split : (j : ℕ) → v.used s j ≡ (in_runs runs j || v.used s₀ j)
    pub fresh : (j : ℕ) → in_runs runs j ≡ true → v.used s₀ j ≡ false

  pub Held-nil : (max_run : ℕ) (s : S) → v.Valid s → Held max_run [] s s
  Held-nil max_run s valid = record {
    valid = valid;
    total = refl;
    fit = tt;
    disjoint = tt;
    split = λ j. refl;
    fresh = λ j h. cc;
  }

  -- After a run is taken, by the block.
  taken_used :
      (r : Run) (s s' : S) (j : ℕ)
      → Takes v r.start r.len s s'
      → v.used s' j ≡ (in_run r j || v.used s j)
  taken_used r s s' j t = elim (Bool-cases (in_run r j)) [
    | inl e ↦ let (lo, hi) = in_run_iff_of r j e in rw e (t.sets.0 j lo hi)
    | inr e ↦ elim (dec_lt j r.start) [
      | yes lt ↦ rw e (t.sets.1 j lt)
      | no ge ↦ rw e (t.sets.2 j (ground arith))
    ]
  ]

  pub Held-append :
      (max_run : ℕ) (runs : List Run) (r : Run) (s₀ s s' : S)
      → Held max_run runs s₀ s
      → Takes v r.start r.len s s'
      → 0 < r.len
      → (max_run ≡ 0) ⊎ (r.len ≤ max_run)
      → Held max_run (runs ++ r ∷ []) s₀ s'
  Held-append max_run runs r s₀ s s' h t pos cap = record {
    valid = t.valid;
    total = t.total ∙ h.total;
    fit = All-append _ runs r h.fit (pos, omega (arith, t.within, h.total), cap);
    disjoint = Disjoint-append runs r h.disjoint (
        Apart-of_free (v.used s) r runs pos t.is_free (long runs h.fit)
          (λ j e. ground (arith, h.split j)));
    split = λ j. ground (arith, taken_used r s s' j t, h.split j, in_runs-append runs r j);
    fresh = λ j e. elim (Bool-cases (in_runs runs j)) [
      | inl old ↦ h.fresh j old
      | inr new ↦
          let here : in_run r j ≡ true = ground (arith, in_runs-append runs r j) in
          let (lo, hi) = in_run_iff_of r j here in ground (arith, t.is_free j lo hi, h.split j)
    ];
  }
    where
      long : (xs : List Run) → All (Fits (v.total s₀) max_run) xs → All (λ (q : Run). 0 < q.len) xs
      long = elim [ [] ↦ λ _. tt | x ∷ (xs → ih) ↦ λ f. (f.0.0, ih f.1) ]

  released_used :
      (r : Run) (s s' : S) (j : ℕ)
      → Releases v r.start r.len s s'
      → v.used s' j ≡ if_free r j (v.used s j)
  released_used r s s' j t = elim (Bool-cases (in_run r j)) [
    | inl e ↦ let (lo, hi) = in_run_iff_of r j e in rw e (t.sets.0 j lo hi)
    | inr e ↦ elim (dec_lt j r.start) [
      | yes lt ↦ rw e (t.sets.1 j lt)
      | no ge ↦ rw e (t.sets.2 j (ground arith))
    ]
  ]

  -- After the runs are given back.
  pub record Undone (runs : List Run) (s s' : S) : Type 0 where
    pub valid : v.Valid s'
    pub total : v.total s' ≡ v.total s
    pub used : (j : ℕ) → v.used s' j ≡ (if in_runs runs j then false else v.used s j)

  pub free_runs-Undone :
      (a : Allocator S) (law : IsLawful v a) (max_run : ℕ) (runs : List Run) (s : S)
      → v.Valid s
      → All (Fits (v.total s) max_run) runs
      → Undone runs s (free_runs a runs s)
  unfolding free_runs
  free_runs-Undone a law max_run [] s valid fit = record {
    valid = valid;
    total = refl;
    used = λ j. refl;
  }
  free_runs-Undone a law max_run (r ∷ rs) s valid fit =
      let one = law.release_law r.start r.len s valid fit.0.1 in
      let rest =
        free_runs-Undone a law max_run rs _ one.valid
          (subst (λ k. All (Fits k max_run) rs) (sym one.total) fit.1) in
      record {
        valid = rest.valid;
        total = rest.total ∙ one.total;
        used = λ j. ground (arith, rest.used j, released_used r s _ j one);
      }
