-- ===== src/Fat/Table/Content.antt =====
-- The contents of a file on the volume: every cluster of its chain gets its part of them.
use native.Mathlib.Nat.{div-eq_of_lt, div-le_self, lt-div-mul-add}
use fsforge.Common.{
  u32, ℕ, zero, suc, ◌+◌, ◌-◌, ◌*◌, ◌/◌, ◌%◌, ◌^◌, ◌≤◌, ◌<◌, ◌≡◌, refl, sym, ap, ◌∙◌, inl, inr, ◌⊎◌,
  Bool, true, false, leb, ◌==◌, Option, List, [], ◌∷◌, ◌++◌, length, get_or, take, drop, replicate,
  append-nil, arith, Bytes, length-replicate, length-append, length-drop, take-append-drop,
}
use fsforge.Fat.Geometry.{Geometry, eoc, cluster_size_bytes}
use fsforge.Fat.Table.{
  Layouter, Result, ok, err, out_of_clusters, read_failed, FileContent, bytes_of, read_fails,
  alloc_chain, cluster_writes, write_clusters, layout_file, filed,
}
use fsforge.Fat.Table.Chains.{Linked, IsTable, count_up, ChainPost, IsTaken, alloc_chain-ChainPost}

-- The parts of a list of writes, put together.
unfoldable pub joined : List (ℕ × Bytes) → Bytes
joined [] = []
joined (w ∷ ws) = w.1 ++ joined ws

-- The clusters that a list of writes goes to.
unfoldable pub written_to : List (ℕ × Bytes) → List ℕ
written_to [] = []
written_to (w ∷ ws) = w.0 ∷ written_to ws

take_all : (n : ℕ) (b : Bytes) → length b ≤ n → take n b ≡ b
take_all zero [] h = refl
take_all zero (x ∷ b) h = absurd (omega arith)
take_all (suc n) [] h = refl
take_all (suc n) (x ∷ b) h = ap (λ c. x ∷ c) (take_all n b (omega arith))

some_bytes : (n cs k : ℕ) → 0 < cs → k ≡ (n + 1) * cs → 0 < k
some_bytes n cs k pos e = let m : (n + 1) * cs ≡ n * cs + cs = omega arith in omega arith

less_bytes : (n cs k : ℕ) → k ≡ (suc n + 1) * cs → k - cs ≡ (n + 1) * cs
less_bytes n cs k e = let m : (suc n + 1) * cs ≡ (n + 1) * cs + cs = omega arith in omega arith

cluster_writes_all :
    (n fuel cs last c : ℕ) (fat : List ℕ) (b : Bytes)
    → 0 < cs
    → length b ≡ (n + 1) * cs
    → length b ≤ fuel
    → c + suc n ≤ last
    → Linked last c (suc n) fat
    → (written_to (cluster_writes fuel cs last fat c b) ≡ count_up (suc n) c)
      × (joined (cluster_writes fuel cs last fat c b) ≡ b)
unfolding cluster_writes written_to joined count_up
cluster_writes_all n zero cs last c fat b pos len f s h =
    let p = some_bytes n cs (length b) pos len in absurd (omega arith)
cluster_writes_all n (suc fuel) cs last c fat [] pos len f s h =
    let p = some_bytes n cs 0 pos len in absurd (omega arith)
cluster_writes_all zero (suc fuel) cs last c fat (x ∷ b) pos len f s h =
    let e : c + 1 == c + 1 ≡ true = ground arith in
    let k : leb last last ≡ true = ground arith in
    let g = h c (omega arith) (omega arith) in
    let g2 : get_or fat c 0 ≡ last = rw e at g in
    rw (g2, k) (refl, append-nil (take cs (x ∷ b)) ∙ take_all cs (x ∷ b) (omega arith))
cluster_writes_all (suc n) (suc fuel) cs last c fat (x ∷ b) pos len f s h =
    let g = h c (omega arith) (omega arith) in
    let e : c + 1 == c + suc (suc n) ≡ false = ground arith in
    let g2 : get_or fat c 0 ≡ c + 1 = rw e at g in
    let k : leb last (c + 1) ≡ false = ground arith in
    let z : c + 1 == 0 ≡ false = ground arith in
    let q : c + 1 + suc n ≡ c + suc (suc n) = omega arith in
    let left = drop cs (x ∷ b) in
    let len2 : length left ≡ (n + 1) * cs =
      length-drop cs (x ∷ b) ∙ less_bytes n cs (length (x ∷ b)) len in
    let d = length-drop cs (x ∷ b) in
    let r =
      cluster_writes_all n fuel cs last (c + 1) fat left pos len2 (omega arith) (omega arith)
        λ i a b. rw q (h i (omega arith) (omega arith)) in
    rw (g2, k, z)
      (ap (λ cs. c ∷ cs) r.0, ap (λ ys. take cs (x ∷ b) ++ ys) r.1 ∙ take-append-drop cs (x ∷ b))

enough : (size cs : ℕ) → 0 < cs → size ≤ (size + cs - 1) / cs * cs
enough size cs pos = let h = lt-div-mul-add {a = size + cs - 1} {b = cs} pos in omega arith

no_cluster : (cs : ℕ) → 0 < cs → (0 + cs - 1) / cs ≡ 0
no_cluster cs pos = div-eq_of_lt (omega arith)

abbrev pub clusters_for : Layouter → ℕ → ℕ
clusters_for l size = let cs = cluster_size_bytes l.geo in (size + cs - 1) / cs

-- The result of LayoutFile for the contents `b`: the chain is as AllocChain of as many clusters leaves it.
abbrev pub FilePost :
    Bytes → Bool → Layouter → Result (ℕ × ℕ) × Layouter × List (ℕ × Bytes) → Type 0
FilePost b fails l (err out_of_clusters, m, ws) =
    (l.geo.clusters < l.used_clusters + clusters_for l (length b)) × (m ≡ l) × (ws ≡ [])
FilePost b fails l (err read_failed, m, ws) =
    (0 < length b) × (fails ≡ true) × IsTaken (clusters_for l (length b)) l m × (ws ≡ [])
FilePost b fails l (ok (first, size), m, ws) =
    (size ≡ length b % u32)
    × ((length b ≡ 0) ⊎ (fails ≡ false))
    × ChainPost (clusters_for l (length b)) l (ok first, m)
    × (written_to ws ≡ count_up (clusters_for l (length b)) first)
    × (joined ws
        ≡ b ++ replicate (clusters_for l (length b) * cluster_size_bytes l.geo - length b) 0)

-- The writes of a chain that was taken for a file that is not empty.
one_more : (n : ℕ) → suc n ≡ n + 1
one_more n = omega arith

taken_writes :
    (b : Bytes) (n : ℕ) (l m : Layouter)
    → 0 < cluster_size_bytes l.geo
    → n * cluster_size_bytes l.geo ≡ length b + (n * cluster_size_bytes l.geo - length b)
    → 0 < n
    → l.next_free + n ≤ eoc l.geo
    → IsTaken n l m
    → let whole = b ++ replicate (n * cluster_size_bytes l.geo - length b) 0 in
      (written_to (write_clusters m l.next_free whole) ≡ count_up n l.next_free)
      × (joined (write_clusters m l.next_free whole) ≡ whole)
      × (length whole ≡ n * cluster_size_bytes l.geo)
unfolding write_clusters
taken_writes b zero l m pos full some_n marks t = absurd (omega arith)
taken_writes b (suc n) l m pos full some_n marks t =
    let cs = cluster_size_bytes l.geo in
    let pad = suc n * cs - length b in
    let whole = b ++ replicate pad 0 in
    let len : length whole ≡ (n + 1) * cs =
      length-append b (replicate pad 0)
      ∙ ap (λ k. length b + k) (length-replicate pad 0)
      ∙ sym full
      ∙ ap (λ k. k * cs) (one_more n) in
    let r =
      cluster_writes_all n (length whole) cs (eoc l.geo) l.next_free m.fat whole pos len
        (omega arith) marks t.linked in
    rw t.same_geo (r.0, r.1, len ∙ ap (λ k. k * cs) (sym (one_more n)))

positive : (n : ℕ) → (n ≡ 0 → 0 < n) → 0 < n
positive zero h = h refl
positive (suc n) h = omega arith

-- The clusters of a file that is not empty.
some_cluster : (size cs : ℕ) → 0 < cs → 0 < size → 0 < (size + cs - 1) / cs
some_cluster size cs pos h =
    let e = enough size cs pos in
    let m : (size + cs - 1) / cs ≡ 0 → 0 < (size + cs - 1) / cs = λ z.
      (let e2 : size ≤ 0 * cs = rw z at e in
        let e3 : 0 * cs ≡ 0 = omega arith in absurd (omega arith)) in
    positive ((size + cs - 1) / cs) m

none_of : (cs : ℕ) → 0 * cs - 0 ≡ 0
none_of cs = omega arith

filed-FilePost :
    (b : Bytes) (fails : Bool) (l : Layouter) (r : Result ℕ × Layouter)
    → IsTable l
    → 0 < cluster_size_bytes l.geo
    → l.geo.clusters + 2 ≤ eoc l.geo
    → ChainPost (clusters_for l (length b)) l r
    → FilePost b fails l (filed b fails (clusters_for l (length b)) (cluster_size_bytes l.geo) r)
unfolding written_to count_up joined
filed-FilePost b fails l (err out_of_clusters, m) t pos marks h = (h.0, h.1, refl)
filed-FilePost b fails l (err read_failed, m) t pos marks h = absurd h
filed-FilePost [] fails l (ok first, m) t pos marks (inl (z, a, e)) =
    let zeros : 0 ≡ clusters_for l 0 * cluster_size_bytes l.geo - 0 =
      sym (ap (λ k. k * cluster_size_bytes l.geo - 0) z ∙ none_of (cluster_size_bytes l.geo)) in
    (
      refl,
      inl refl,
      inl (z, a, e),
      ap (λ k. count_up k first) (sym z),
      ap (λ k. replicate k 0) zeros,
    )
filed-FilePost [] fails l (ok first, m) t pos marks (inr h) =
    let n = no_cluster (cluster_size_bytes l.geo) pos in let c = h.0 in absurd (omega arith)
filed-FilePost (x ∷ b) fails l (ok first, m) t pos marks (inl (z, a, e)) =
    let n = some_cluster (length (x ∷ b)) (cluster_size_bytes l.geo) pos (omega arith) in
    absurd (omega arith)
filed-FilePost (x ∷ b) true l (ok first, m) t pos marks (inr (some_n, at_first, k)) =
    let z : length (x ∷ b) == 0 ≡ false = ground arith in rw z (omega arith, refl, k, refl)
filed-FilePost (x ∷ b) false l (ok first, m) t pos marks (inr (some_n, at_first, k)) =
    let bytes = x ∷ b in
    let cs = cluster_size_bytes l.geo in
    let n = clusters_for l (length bytes) in
    let pad = n * cs - length bytes in
    let whole = bytes ++ replicate pad 0 in
    let fits = enough (length bytes) cs pos in
    let u = t.used in
    let u2 = k.table.used in
    let room = k.table.room in
    let used = k.more_used in
    let same : m.geo.clusters ≡ l.geo.clusters = ap (λ (g : Geometry). g.clusters) k.same_geo in
    let w = taken_writes bytes n l m pos (omega arith) some_n (omega arith) k in
    let go : write_clusters m first whole ≡ write_clusters m l.next_free whole =
      ap (λ f. write_clusters m f whole) at_first in
    let z : length bytes == 0 ≡ false = ground arith in
    rw z (
      refl,
      inr refl,
      inr (some_n, at_first, k),
      ap written_to go ∙ w.0 ∙ ap (count_up n) (sym at_first),
      ap joined go ∙ w.1,
    )

-- LayoutFile on a table in order, where no cluster number is the mark that ends a chain, for contents of fewer
-- than 2^63 bytes with one cluster more, and clusters that are not empty. It refuses a file where the free clusters do not hold it, and then takes and writes
-- nothing. Else it takes as many clusters as the contents need, the next free ones: following the table
-- from the first of them, which it answers, gives these in order. It writes to exactly these, in this order,
-- the contents and zeros to the end of the last cluster; for empty contents it takes and writes nothing
-- and answers cluster 0. Where reading the contents fails, the clusters are taken, nothing is written and the error
-- is returned.
pub layout_file-FilePost :
    (c : Option FileContent) (l : Layouter)
    → IsTable l
    → 0 < cluster_size_bytes l.geo
    → l.geo.clusters + 2 ≤ eoc l.geo
    → length (bytes_of c) + cluster_size_bytes l.geo < 2 ^ 63
    → FilePost (bytes_of c) (read_fails c) l (layout_file c l)
unfolding layout_file
layout_file-FilePost c l t pos marks small =
    let b = bytes_of c in
    let cs = cluster_size_bytes l.geo in
    filed-FilePost b (read_fails c) l (alloc_chain (clusters_for l (length b)) l) t pos marks (
      alloc_chain-ChainPost (clusters_for l (length b)) l t
        (let d = div-le_self (length b + cs - 1) cs in omega arith) marks)
