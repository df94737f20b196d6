-- ===== src/Fat/Table/Chains.antt =====
-- Chains in the table: what taking one does to the table, and that following it finds it again.
use fsforge.Common.{
  u32, u64, ℕ, zero, suc, ◌+◌, ◌-◌, ◌%◌, ◌^◌, ◌≤◌, ◌<◌, ◌≡◌, ◌≢◌, refl, sym, ap, ◌∙◌, inl, inr, ◌⊎◌,
  true, false, ltb, leb, ◌==◌, if◌then◌else◌, List, [], ◌∷◌, length, get_or, set, arith, Bool-cases,
  ltb→lt, ltb-false, length-set, get_or-set_self, get_or-set_ne, length-replicate,
}
use fsforge.Fat.Geometry.{Geometry, eoc}
use fsforge.Fat.Table.{
  Layouter, Result, ok, err, out_of_clusters, read_failed, start, link_chain, alloc_chain,
}

-- A table with an entry for each cluster, of which the ones below the next free one are in use.
pub record IsTable (l : Layouter) : Type 0 where
  pub sized : length l.fat ≡ l.geo.clusters + 2
  pub used : l.next_free ≡ l.used_clusters + 2
  pub room : l.used_clusters ≤ l.geo.clusters
  pub small : l.geo.clusters + 2 < u32

-- The clusters from `c` on, as a reader of the volume follows them: to the first entry that ends a chain.
unfoldable pub follow : ℕ → ℕ → List ℕ → ℕ → List ℕ
follow zero last fat c = []
follow (suc fuel) last fat c =
    let next = get_or fat c 0 in
    let rest = follow fuel last fat next in c ∷ (if leb last next then [] else rest)

-- `n` numbers from `c` on.
unfoldable pub count_up : ℕ → ℕ → List ℕ
count_up zero c = []
count_up (suc n) c = c ∷ count_up n (c + 1)

two_more : (n : ℕ) → suc (suc n) ≡ n + 2
two_more n = omega arith

pub start-IsTable : (g : Geometry) → g.clusters + 2 < u32 → IsTable (start g)
unfolding start
start-IsTable g h = record {
  sized = ap (λ k. suc (suc k)) (length-replicate g.clusters 0) ∙ two_more g.clusters;
  used = refl;
  room = omega arith;
  small = h;
}

length-link_chain : (last c n : ℕ) (fat : List ℕ) → length (link_chain last c n fat) ≡ length fat
unfolding link_chain
length-link_chain last c zero fat = refl
length-link_chain last c (suc zero) fat = length-set fat c last
length-link_chain last c (suc (suc n)) fat =
    length-link_chain last ((c + 1) % u32) (suc n) (set fat c ((c + 1) % u32))
    ∙ length-set fat c ((c + 1) % u32)

step_small : (c : ℕ) → c + 1 < u32 → (c + 1) % u32 ≡ c + 1
step_small c h = omega arith

-- Linking a chain leaves the entries outside it.
link_chain_outside :
    (last c n j : ℕ) (fat : List ℕ)
    → c + n < u32
    → (j < c) ⊎ (c + n ≤ j)
    → get_or (link_chain last c n fat) j 0 ≡ get_or fat j 0
unfolding link_chain
link_chain_outside last c zero j fat h o = refl
link_chain_outside last c (suc zero) j fat h o =
    let ne : c ≢ j = λ e. ground arith in get_or-set_ne fat c j last 0 ne
link_chain_outside last c (suc (suc n)) j fat h o =
    let e = step_small c (omega arith) in
    let ne : c ≢ j = λ e. ground arith in
    let o2 : (j < c + 1) ⊎ (c + 1 + suc n ≤ j) = ground arith in
    rw e (
      link_chain_outside last (c + 1) (suc n) j (set fat c (c + 1)) (omega arith) o2
      ∙ get_or-set_ne fat c j (c + 1) 0 ne)

-- In the chain, each cluster is followed by the next one, and the last one ends it.
pub link_chain_inside :
    (last c n i : ℕ) (fat : List ℕ)
    → c + n < u32
    → c + n ≤ length fat
    → c ≤ i
    → i < c + n
    → get_or (link_chain last c n fat) i 0 ≡ (if i + 1 == c + n then last else i + 1)
unfolding link_chain
link_chain_inside last c zero i fat h s a b = absurd (omega arith)
link_chain_inside last c (suc zero) i fat h s a b =
    let k : c ≡ i = omega arith in
    let e : i + 1 == c + 1 ≡ true = ground arith in
    rw e
      (ap (λ j. get_or (set fat c last) j 0) (sym k) ∙ get_or-set_self fat c last 0 (omega arith))
link_chain_inside last c (suc (suc n)) i fat h s a b =
    let w = step_small c (omega arith) in
    let fat2 = set fat c (c + 1) in
    let len = length-set fat c (c + 1) in
    elim (Bool-cases (i == c)) [
      | inl t ↦
          let k : c ≡ i = ground arith in
          let e : i + 1 == c + suc (suc n) ≡ false = ground arith in
          rw (w, e, sym k)
            (link_chain_outside last (c + 1) (suc n) c fat2 (omega arith) (inl (omega arith))
              ∙ get_or-set_self fat c (c + 1) 0 (omega arith))
      | inr t ↦
          let k : c + 1 ≤ i = ground arith in
          let e : c + 1 + suc n ≡ c + suc (suc n) = omega arith in
          rw w (
            link_chain_inside last (c + 1) (suc n) i fat2 (omega arith) (omega arith) k
              (omega arith)
            ∙ ap (λ m. if i + 1 == m then last else i + 1) e)
    ]

-- The entries of a chain of `n` clusters from `c`.
abbrev pub Linked : ℕ → ℕ → ℕ → List ℕ → Type 0
Linked last c n fat =
    (i : ℕ) → c ≤ i → i < c + n → get_or fat i 0 ≡ (if i + 1 == c + n then last else i + 1)

-- Following a table whose entries from `c` to `c + n` are linked so gives these clusters.
follow-count_up :
    (last n fuel c : ℕ) (fat : List ℕ)
    → n < fuel
    → c + suc n ≤ last
    → Linked last c (suc n) fat
    → follow fuel last fat c ≡ count_up (suc n) c
unfolding follow count_up
follow-count_up last n zero c fat f s h = absurd (omega arith)
follow-count_up last zero (suc fuel) c fat f s h =
    let g = h c (omega arith) (omega arith) in
    let e : c + 1 == c + 1 ≡ true = ground arith in
    let k : leb last last ≡ true = ground arith in
    let g2 : get_or fat c 0 ≡ last = rw e at g in rw (g2, k) refl
follow-count_up last (suc n) (suc fuel) c fat f s h =
    let g = h c (omega arith) (omega arith) in
    let e : c + 1 == c + suc (suc n) ≡ false = ground arith in
    let g2 : get_or fat c 0 ≡ c + 1 = rw e at g in
    let k : leb last (c + 1) ≡ false = ground arith in
    let q : c + 1 + suc n ≡ c + suc (suc n) = omega arith in
    let r =
      follow-count_up last n fuel (c + 1) fat (omega arith) (omega arith)
        λ i a b. rw q (h i (omega arith) (omega arith)) in
    rw (g2, k) (ap (λ cs. c ∷ cs) r)

-- What AllocChain of `n` clusters leaves: the chain that a reader follows from the answer is the `n` next
-- free clusters, and every cluster that was in use keeps its entry.
pub record IsTaken (n : ℕ) (l m : Layouter) : Type 0 where
  pub table : IsTable m
  pub same_geo : m.geo ≡ l.geo
  pub more_used : m.used_clusters ≡ l.used_clusters + n
  pub chain :
      (fuel : ℕ) → n ≤ fuel → follow fuel (eoc l.geo) m.fat l.next_free ≡ count_up n l.next_free
  pub linked : Linked (eoc l.geo) l.next_free n m.fat
  pub kept : (c : ℕ) → c < l.next_free → get_or m.fat c 0 ≡ get_or l.fat c 0

-- The result on each branch.
abbrev pub ChainPost : ℕ → Layouter → Result ℕ × Layouter → Type 0
ChainPost n l (ok first, m) =
    ((n ≡ 0) × (first ≡ 0) × (m ≡ l)) ⊎ ((0 < n) × (first ≡ l.next_free) × IsTaken n l m)
ChainPost n l (err read_failed, m) = ⊥
ChainPost n l (err out_of_clusters, m) = (l.geo.clusters < l.used_clusters + n) × (m ≡ l)

taken :
    (n : ℕ) (l : Layouter)
    → IsTable l
    → 0 < n
    → l.used_clusters + n ≤ l.geo.clusters
    → l.geo.clusters + 2 ≤ eoc l.geo
    → IsTaken n l (record l {
      fat = link_chain (eoc l.geo) l.next_free n l.fat;
      next_free = (l.next_free + n) % u32;
      used_clusters = (l.used_clusters + n) % u64;
    })
taken zero l t pos fits marks = absurd (omega arith)
taken (suc n) l t pos fits marks =
    let u = t.used in
    let s = t.small in
    let z = t.sized in
    let next : (l.next_free + suc n) % u32 ≡ l.next_free + suc n = omega arith in
    let used : (l.used_clusters + suc n) % u64 ≡ l.used_clusters + suc n = omega arith in
    record {
      table = record {
        sized = length-link_chain (eoc l.geo) l.next_free (suc n) l.fat ∙ z;
        used = omega arith;
        room = omega arith;
        small = s;
      };
      same_geo = refl;
      more_used = used;
      chain = λ fuel f.
          follow-count_up (eoc l.geo) n fuel l.next_free
            (link_chain (eoc l.geo) l.next_free (suc n) l.fat) (omega arith) (omega arith)
            (λ i a b.
              link_chain_inside (eoc l.geo) l.next_free (suc n) i l.fat (omega arith) (omega arith)
                a b);
      linked = λ i a b.
          link_chain_inside (eoc l.geo) l.next_free (suc n) i l.fat (omega arith) (omega arith) a b;
      kept =
          λ c b. link_chain_outside (eoc l.geo) l.next_free (suc n) c l.fat (omega arith) (inl b);
    }

-- AllocChain on a table in order, of fewer than 2^63 clusters, where no cluster number is the mark that
-- ends a chain: it refuses exactly what the free clusters do not hold, and changes nothing; for no cluster
-- it answers 0; else the chain from its answer is the next free clusters in order, the table stays in
-- order, and the entries of clusters in use stay, so that every chain taken before is still followed.
pub alloc_chain-ChainPost :
    (n : ℕ) (l : Layouter)
    → IsTable l
    → n < 2 ^ 63
    → l.geo.clusters + 2 ≤ eoc l.geo
    → ChainPost n l (alloc_chain n l)
unfolding alloc_chain
alloc_chain-ChainPost n l t small marks =
    let u = t.used in
    let s = t.small in
    let r = t.room in
    let asked : (l.next_free + u64 - 2 + n) % u64 ≡ l.used_clusters + n = omega arith in
    elim (Bool-cases (n == 0)) [
      | inl e ↦ let k : n ≡ 0 = ground arith in rw e (inl (k, refl, refl))
      | inr e ↦
          let pos : 0 < n = ground arith in
          elim (Bool-cases (ltb l.geo.clusters (l.used_clusters + n))) [
            | inl f ↦ rw (e, asked, f) (ltb→lt l.geo.clusters (l.used_clusters + n) f, refl)
            | inr f ↦
                rw (e, asked, f)
                  (inr (
                    pos,
                    refl,
                    taken n l t pos (ltb-false l.geo.clusters (l.used_clusters + n) f) marks,
                  ))
          ]
    ]
