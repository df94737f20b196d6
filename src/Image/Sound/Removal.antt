-- ===== src/Image/Sound/Removal.antt =====
-- Removing an entry keeps a tree sound.
use fsforge.Common.{
  ℕ, ◌+◌, ◌<◌, ◌≡◌, ap, ◌∙◌, inl, inr, Bool, true, false, ◌==◌, some, length, Bytes, arith,
  Bool-cases, Option-cases,
}
use fsforge.Image.{
  Entry, Store, node_at, is_dir, find, lower, cut_entry, remove, is_empty, is_empty,
}
use fsforge.Image.Counts.{one_if, refs}
use fsforge.Image.Sound.{own_links, IsOff, IsSound, nothing}
use fsforge.Image.Sound.Changes.{lower-IsOff, cut_entry-IsOff}
use fsforge.Image.Sound.Frame.{lower-children, is_dir-lower, length-lower, find-All, refs-found}
use fsforge.Image.Sound.Attach.{IsDirIn, gain_file, gain_dir}

more_links : (n debt r x o : ℕ) → n + debt ≡ r + x + o + 0 → debt < r + o → 0 < n
more_links n debt r x o e h = omega arith

at_most_one : (b : Bool) → 0 + one_if b < 2
at_most_one true = omega arith
at_most_one false = omega arith

dir_links : (s : Store) (q : ℕ) → is_dir s q ≡ true → 0 < own_links s q
dir_links s q h = rw h (omega arith)

-- A node with more links than its count may be short by has a count to lower.
links_left :
    (root : ℕ) (s : Store) (q : ℕ) (debt : ℕ → ℕ)
    → IsOff root s debt nothing
    → q < length s
    → debt q < refs q s + own_links s q
    → 0 < (node_at s q).nlink
links_left root s q debt i lt h =
    more_links (node_at s q).nlink (debt q) (refs q s) (one_if (q == root)) (own_links s q)
      (i.counted q lt) h

zero_more : (n : ℕ) → 0 + n ≡ n
zero_more n = omega arith

swap_ends : (m n : ℕ) → 0 + m + n ≡ n + m
swap_ends m n = omega arith

removed_file :
    (root : ℕ) (s : Store) (d : ℕ) (name : Bytes) (e : Entry)
    → IsSound root s
    → IsDirIn s d
    → find name (node_at s d).children ≡ some e
    → is_dir s e.node ≡ false
    → IsSound root (cut_entry d name (lower e.node s))
removed_file root s d name e i h found file =
    let p = e.node in
    let inside : p < length s =
      find-All (λ e. e.node < length s) name (node_at s d).children e (i.below d h.0) found in
    let len = length-lower s p in
    let lt = h.0 in
    let same = is_dir-lower s p inside in
    cut_entry-IsOff root (lower p s) d name e (λ q. nothing q + one_if (q == p)) nothing nothing
      (omega arith) (ap (λ g. g d) same ∙ h.1)
      (ap (find name) (lower-children s p d inside) ∙ found)
      (λ q. zero_more (one_if (q == p)) ∙ gain_file (lower p s) d p q (ap (λ g. g p) same ∙ file))
      (lower-IsOff root s p nothing nothing inside
        (links_left root s p nothing i inside
          (let r = refs-found s d name e lt found in omega arith))
        i)

removed_dir :
    (root : ℕ) (s : Store) (d : ℕ) (name : Bytes) (e : Entry)
    → IsSound root s
    → IsDirIn s d
    → find name (node_at s d).children ≡ some e
    → is_dir s e.node ≡ true
    → IsSound root (cut_entry d name (lower e.node (lower d s)))
removed_dir root s d name e i h found dir =
    let p = e.node in
    let inside : p < length s =
      find-All (λ e. e.node < length s) name (node_at s d).children e (i.below d h.0) found in
    let lt = h.0 in
    let s1 = lower d s in
    let len1 = length-lower s d in
    let len = length-lower s1 p in
    let inside1 : p < length s1 = omega arith in
    let same1 = is_dir-lower s d lt in
    let same : is_dir (lower p s1) ≡ is_dir s = is_dir-lower s1 p inside1 ∙ same1 in
    let found1 : find name (node_at s1 d).children ≡ some e =
      ap (find name) (lower-children s d d lt) ∙ found in
    let i1 : IsOff root s1 (λ q. nothing q + one_if (q == d)) nothing =
      lower-IsOff root s d nothing nothing lt
        (links_left root s d nothing i lt (let r = dir_links s d h.1 in omega arith)) i in
    let r = refs-found s1 d name e (omega arith) found1 in
    let o = dir_links s1 p (ap (λ g. g p) same1 ∙ dir) in
    let m = at_most_one (p == d) in
    let pos : 0 < (node_at s1 p).nlink =
      links_left root s1 p (λ q. nothing q + one_if (q == d)) i1 inside1 (omega arith) in
    cut_entry-IsOff root (lower p s1) d name e (λ q. nothing q + one_if (q == d) + one_if (q == p))
      nothing nothing (omega arith) (ap (λ g. g d) same ∙ h.1)
      (ap (find name) (lower-children s1 p d inside1) ∙ found1)
      (λ q.
        swap_ends (one_if (q == d)) (one_if (q == p))
        ∙ gain_dir (lower p s1) d p q (ap (λ g. g p) same ∙ dir))
      (lower-IsOff root s1 p (λ q. nothing q + one_if (q == d)) nothing inside1 pos i1)

pub remove-IsSound :
    (root : ℕ) (s : Store) (d : ℕ) (name : Bytes)
    → IsSound root s
    → IsDirIn s d
    → IsSound root (remove s d name).1
unfolding remove
remove-IsSound root s d name i h = elim (Option-cases (find name (node_at s d).children)) [
  | inl k ↦ rw (remove, k) i
  | inr (e, k) ↦ elim (Bool-cases (is_dir s e.node)) [
    | inr t ↦ rw (remove, k, t) (removed_file root s d name e i h k t)
    | inl t ↦ elim (Bool-cases (is_empty (node_at s e.node).children)) [
      | inr u ↦ rw (remove, k, t, u) i
      | inl u ↦ rw (remove, k, t, u) (removed_dir root s d name e i h k t)
    ]
  ]
]
