-- ===== src/AllocRuns/Total.antt =====
-- `AllocRuns` over any lawful allocator.
use fsforge.Common.{
  u64, ℕ, zero, suc, ◌+◌, ◌-◌, ◌%◌, ◌≤◌, ◌<◌, ◌≡◌, ◌⊎◌, inl, inr, ◌∙◌, true, false, List, [], ◌∷◌,
  ◌++◌, ◌==◌, All, arith, Bool-cases,
}
use fsforge.Alloc.{Result, ok, err, zero_len, no_space, out_of_range, stuck}
use fsforge.AllocRuns.{Allocator, Run, wanted, after_run, free_runs, runs_loop, alloc_runs}
use fsforge.AllocRuns.Laws.{View, AllUsed, Takes, UpToLaw, IsLawful}
use fsforge.AllocRuns.AtMost.{alloc_at_most-UpToLaw}
use fsforge.AllocRuns.Held.{
  in_runs, total_len, total_len-append, Disjoint, Fits, Held, Held-nil, Held-append,
  free_runs-Undone,
}

module _ {S : Type 0} (v : View S) where
  -- The call changed nothing, and the free blocks all lie in runs that have fewer than `n` blocks.
  pub record Refused (n max_run : ℕ) (s s' : S) : Type 0 where
    pub valid : v.Valid s'
    pub same_total : v.total s' ≡ v.total s
    pub same_used : (j : ℕ) → v.used s' j ≡ v.used s j
    pub runs : List Run
    pub fit : All (Fits (v.total s) max_run) runs
    pub disjoint : Disjoint runs
    pub too_few : total_len runs < n
    pub all_free : (j : ℕ) → j < v.total s → v.used s j ≡ false → in_runs runs j ≡ true

  abbrev pub AllocRunsPost : ℕ → ℕ → S → Result (List Run) × S → Type 0
  AllocRunsPost n max_run s (ok runs, s') = Held v max_run runs s s' × (total_len runs ≡ n)
  AllocRunsPost n max_run s (err no_space, s') = Refused n max_run s s'
  AllocRunsPost n max_run s (err _, s') = ⊥

  module _ (a : Allocator S) (law : IsLawful v a) (n max_run : ℕ) (small : n < u64) (s₀ : S) where
    refuse :
        (runs : List Run) (s : S)
        → Held v max_run runs s₀ s
        → total_len runs < n
        → AllUsed v s
        → Refused n max_run s₀ (free_runs a runs s)
    refuse runs s h few full =
        let u = free_runs-Undone v a law max_run runs s h.valid (rw (← h.total) at h.fit) in
        record {
          valid = u.valid;
          same_total = u.total ∙ h.total;
          same_used = λ j. elim (Bool-cases (in_runs runs j)) [
            | inl e ↦ ground (arith, u.used j, h.fresh j e)
            | inr e ↦ ground (arith, u.used j, h.split j)
          ];
          runs = runs;
          fit = h.fit;
          disjoint = h.disjoint;
          too_few = few;
          all_free = λ j lt e. ground (arith, h.split j, full j (omega (arith, h.total)));
        }

    after_run_lem :
        (runs : List Run) (s : S) (left : ℕ) (more : ℕ → ℕ → S → Result (List Run) × S)
        (r : Result (ℕ × ℕ) × S)
        → Held v max_run runs s₀ s
        → total_len runs + left ≡ n
        → 0 < left
        → ((start got : ℕ) (s' : S)
            → Takes v start got s s'
            → 0 < got
            → got ≤ wanted a max_run left
            → AllocRunsPost n max_run s₀ (more start got s'))
        → UpToLaw v (wanted a max_run left) s r
        → AllocRunsPost n max_run s₀ (after_run more (free_runs a runs) r)
    unfolding after_run
    after_run_lem runs s left more (ok (start, got), s') h e pos next (t, some_block, at_most) =
        next start got s' t some_block at_most
    after_run_lem runs s left more (err zero_len, s') h e pos next (z, same) = absurd (ground arith)
    after_run_lem runs s left more (err no_space, s') h e pos next (same, full) =
        rw same (refuse runs s h (omega arith) full)
    after_run_lem runs s left more (err out_of_range, s') h e pos next f = absurd f
    after_run_lem runs s left more (err stuck, s') h e pos next f = absurd f

    wanted_bounds :
        (left : ℕ)
        → 0 < left
        → (0 < wanted a max_run left)
          × (wanted a max_run left ≤ left)
          × ((max_run ≡ 0) ⊎ (wanted a max_run left ≤ max_run))
    wanted_bounds left pos = ground arith

    cap_of : (got w : ℕ) → got ≤ w → (max_run ≡ 0) ⊎ (w ≤ max_run) → (max_run ≡ 0) ⊎ (got ≤ max_run)
    cap_of got w le (inl z) = inl z
    cap_of got w le (inr c) = inr (omega arith)

    runs_loop_lem :
        (fuel left : ℕ) (runs : List Run) (s : S)
        → Held v max_run runs s₀ s
        → total_len runs + left ≡ n
        → left ≤ fuel
        → AllocRunsPost n max_run s₀ (runs_loop a fuel max_run left runs s)
    unfolding runs_loop
    runs_loop_lem zero left runs s h e enough =
        let z : left ≡ 0 = omega arith in rw z (h, omega arith)
    runs_loop_lem (suc fuel) left runs s h e enough = elim (Bool-cases (left == 0)) [
      | inl z ↦ rw z (h, ground arith)
      | inr nz ↦
          let pos : 0 < left = ground arith in
          let (w_pos, w_le, w_cap) = wanted_bounds left pos in
          rw nz (
            after_run_lem runs s left _ _ h e pos
              (λ start got s' t some_block at_most.
                let smaller : (left + u64 - got) % u64 ≡ left - got = omega arith in
                rw smaller (
                  runs_loop_lem fuel (left - got) (runs ++ record { start = start; len = got } ∷ [])
                    s'
                    (Held-append v max_run runs (record { start = start; len = got }) s₀ s s' h t
                      some_block (cap_of got _ at_most w_cap))
                    (omega (arith, total_len-append runs (record { start = start; len = got })))
                    (omega arith)))
              (alloc_at_most-UpToLaw v a law (wanted a max_run left) s h.valid w_pos))
    ]

    -- `AllocRuns` over any lawful allocator returns disjoint runs of free blocks, none empty and none
    -- longer than the cap, of `n` blocks together, and takes these blocks and no other. It fails only
    -- for want of space: then every block is in use or not as before the call, and the free blocks
    -- fit in runs of fewer than `n` blocks together. Neither of its loops runs out of fuel.
    pub alloc_runs-AllocRunsPost :
        v.Valid s₀ → AllocRunsPost n max_run s₀ (alloc_runs a n max_run s₀)
    unfolding alloc_runs
    alloc_runs-AllocRunsPost valid = elim (Bool-cases (n == 0)) [
      | inl z ↦ rw z (Held-nil v max_run s₀ valid, ground arith)
      | inr nz ↦
          rw nz (runs_loop_lem n n [] s₀ (Held-nil v max_run s₀ valid) (omega arith) (omega arith))
    ]
