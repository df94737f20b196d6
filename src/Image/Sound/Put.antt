-- ===== src/Image/Sound/Put.antt =====
-- A sound tree after one of its nodes was put back changed.
use mathlib.Core.Path.{fun_ext, subst}
use fsforge.Common.{
  ℕ, ◌+◌, ◌<◌, ◌≡◌, refl, sym, ap, ◌∙◌, inl, inr, Bool, ◌==◌, if◌then◌else◌, List, length, All,
  arith, Bool-cases, length-set, set,
}
use fsforge.Image.{Node, Entry, Store, node_at, is_dir}
use fsforge.Image.Counts.{one_if, count, refs, sub_dirs, refs-set, node_at-set}
use fsforge.Image.Sound.{GoodNames, own_links, expected, IsOff}

-- Putting back a node with the mode it had keeps what is a directory.
pub is_dir-set :
    (s : Store) (d : ℕ) (v : Node)
    → d < length s
    → v.meta.mode.dir ≡ is_dir s d
    → is_dir (set s d v) ≡ is_dir s
is_dir-set s d v lt same = fun_ext λ q.
    let h : node_at (set s d v) q ≡ (if q == d then v else node_at s q) = node_at-set s d q v lt in
    elim (Bool-cases (q == d)) [
      | inl e ↦
          let k : q ≡ d = ground arith in
          ap (λ (n : Node). n.meta.mode.dir) (rw e at h) ∙ same ∙ ap (is_dir s) (sym k)
      | inr e ↦ ap (λ (n : Node). n.meta.mode.dir) (rw e at h)
    ]

-- What holds of the new node and of each old one holds of each node after the change.
pub set_each :
    (P : Node → Type 0) (s : Store) (d q : ℕ) (v : Node)
    → d < length s
    → P v
    → P (node_at s q)
    → P (node_at (set s d v) q)
set_each P s d q v lt new old =
    let h : node_at (set s d v) q ≡ (if q == d then v else node_at s q) = node_at-set s d q v lt in
    elim (Bool-cases (q == d)) [
      | inl e ↦ subst P (sym (rw e at h)) new
      | inr e ↦ subst P (sym (rw e at h)) old
    ]

-- The links that a node of its own kind and entries has by itself.
abbrev own : (ℕ → Bool) → Bool → List Entry → ℕ
own isd b es = if b then 1 + sub_dirs isd es else 0

own_links-set :
    (s : Store) (d q : ℕ) (v n : Node)
    → is_dir (set s d v) ≡ is_dir s
    → node_at (set s d v) q ≡ n
    → own_links (set s d v) q ≡ own (is_dir s) (is_dir s q) n.children
own_links-set s d q v n m h = λ i. own (m i) (m i q) (h i).children

-- The ".." entries that a list of entries gives to node `q`, if it is the list of node `d`.
abbrev pub dots : Store → ℕ → ℕ → List Entry → ℕ
dots s d q es = if q == d then (if is_dir s d then sub_dirs (is_dir s) es else 0) else 0

own_links-dots :
    (s : Store) (d : ℕ) (v : Node) (q : ℕ)
    → d < length s
    → v.meta.mode.dir ≡ is_dir s d
    → own_links (set s d v) q + dots s d q (node_at s d).children
      ≡ own_links s q + dots s d q v.children
own_links-dots s d v q lt same =
    let h : node_at (set s d v) q ≡ (if q == d then v else node_at s q) = node_at-set s d q v lt in
    let m = is_dir-set s d v lt same in
    elim (Bool-cases (q == d)) [
      | inl e ↦
          let k : q ≡ d = ground arith in
          let o = own_links-set s d q v v m (rw e at h) in
          rw (e, o, k)
            (elim (Bool-cases (is_dir s d)) [ inl t ↦ rw t (omega arith) | inr t ↦ rw t refl ])
      | inr e ↦ let o = own_links-set s d q v (node_at s q) m (rw e at h) in rw (e, o) refl
    ]

add_up :
    (r2 r1 x o2 o1 c1 c2 d1 d2 : ℕ)
    → r2 + c1 ≡ r1 + c2
    → o2 + d1 ≡ o1 + d2
    → r2 + x + o2 + (c1 + d1) ≡ r1 + x + o1 + (c2 + d2)
add_up r2 r1 x o2 o1 c1 c2 d1 d2 e f = omega arith

expected-set :
    (root : ℕ) (s : Store) (d : ℕ) (v : Node) (q : ℕ)
    → d < length s
    → v.meta.mode.dir ≡ is_dir s d
    → expected root (set s d v) q
        + (count q (node_at s d).children + dots s d q (node_at s d).children)
      ≡ expected root s q + (count q v.children + dots s d q v.children)
expected-set root s d v q lt same =
    let r = refs-set q d s v lt in
    let o = own_links-dots s d v q lt same in
    add_up (refs q (set s d v)) (refs q s) (one_if (q == root)) (own_links (set s d v) q)
      (own_links s q) (count q (node_at s d).children) (count q v.children)
      (dots s d q (node_at s d).children) (dots s d q v.children) r o

-- The link count of node `q` after node `d` was put back.
abbrev pub new_count : Store → ℕ → Node → ℕ → ℕ
new_count s d v q = if q == d then v.nlink else (node_at s q).nlink

nlink-set :
    (s : Store) (d : ℕ) (v : Node) (q : ℕ)
    → d < length s
    → (node_at (set s d v) q).nlink ≡ new_count s d v q
nlink-set s d v q lt =
    let h : node_at (set s d v) q ≡ (if q == d then v else node_at s q) = node_at-set s d q v lt in
    elim (Bool-cases (q == d)) [
      | inl e ↦ rw e (ap (λ n. n.nlink) (rw e at h))
      | inr e ↦ rw e (ap (λ n. n.nlink) (rw e at h))
    ]

balance :
    (n2 d2 o2 x2 n1 d1 o1 x1 c1 c2 : ℕ)
    → n1 + d1 ≡ x1 + o1
    → x2 + c1 ≡ x1 + c2
    → n2 + d2 + o1 + c1 ≡ n1 + d1 + o2 + c2
    → n2 + d2 ≡ x2 + o2
balance n2 d2 o2 x2 n1 d1 o1 x1 c1 c2 a b c = omega arith

-- A sound tree after a node was put back: its entries must be good, and what its count and its entries
-- change must be what the debts change.
pub put :
    (root : ℕ) (s : Store) (d : ℕ) (v : Node) (debt over debt' over' : ℕ → ℕ)
    → d < length s
    → v.meta.mode.dir ≡ is_dir s d
    → IsOff root s debt over
    → All (λ e. e.node < length s) v.children
    → GoodNames v.children
    → ((q : ℕ)
        → new_count s d v q
            + debt' q
            + over q
            + (count q (node_at s d).children + dots s d q (node_at s d).children)
          ≡ (node_at s q).nlink + debt q + over' q + (count q v.children + dots s d q v.children))
    → IsOff root (set s d v) debt' over'
put root s d v debt over debt' over' lt same i inside good right =
    let n = length-set s d v in
    record {
      root_in = rw n i.root_in;
      root_dir = rw (is_dir-set s d v lt same) i.root_dir;
      below = λ q l. rw n (
          set_each (λ m. All (λ e. e.node < length s) m.children) s d q v lt inside
            (i.below q (rw n at l)));
      names = λ q l. set_each (λ m. GoodNames m.children) s d q v lt good (i.names q (rw n at l));
      counted = λ q l. rw (nlink-set s d v q lt) (
          balance (new_count s d v q) (debt' q) (over' q) (expected root (set s d v) q)
            (node_at s q).nlink (debt q) (over q) (expected root s q)
            (count q (node_at s d).children + dots s d q (node_at s d).children)
            (count q v.children + dots s d q v.children) (i.counted q (rw n at l))
            (expected-set root s d v q lt same) (right q));
    }
