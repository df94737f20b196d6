-- ===== src/Image/Sound/Frame.antt =====
-- What the changes of a store leave as it was.
use mathlib.Core.Path.{subst}
use fsforge.Common.{
  ℕ, zero, suc, ◌+◌, ◌-◌, ◌≤◌, ◌<◌, ◌≡◌, refl, sym, ap, ◌∙◌, inl, inr, true, ◌==◌, if◌then◌else◌,
  some, List, [], ◌∷◌, ◌++◌, length, All, Bytes, same_bytes, arith, Bool-cases, length-set, set,
  some_value,
}
use fsforge.Image.{Node, Entry, Store, node_at, is_dir, find, cut, raise, lower, add, cut_entry}
use fsforge.Image.Counts.{count, refs, count-cut, node_at-set}
use fsforge.Image.Sound.Put.{is_dir-set}

children-set :
    (s : Store) (d : ℕ) (v : Node) (q : ℕ)
    → d < length s
    → v.children ≡ (node_at s d).children
    → (node_at (set s d v) q).children ≡ (node_at s q).children
children-set s d v q lt same =
    let h : node_at (set s d v) q ≡ (if q == d then v else node_at s q) = node_at-set s d q v lt in
    elim (Bool-cases (q == d)) [
      | inl e ↦
          let k : q ≡ d = ground arith in
          ap (λ (n : Node). n.children) (rw e at h)
          ∙ same
          ∙ ap (λ j. (node_at s j).children) (sym k)
      | inr e ↦ ap (λ (n : Node). n.children) (rw e at h)
    ]

pub raise-children :
    (s : Store) (d q : ℕ) → d < length s → (node_at (raise d s) q).children ≡ (node_at s q).children
unfolding raise
raise-children s d q lt =
    children-set s d (let n = node_at s d in record n { nlink = n.nlink + 1 }) q lt refl

pub lower-children :
    (s : Store) (d q : ℕ) → d < length s → (node_at (lower d s) q).children ≡ (node_at s q).children
unfolding lower
lower-children s d q lt =
    children-set s d (let n = node_at s d in record n { nlink = n.nlink - 1 }) q lt refl

pub is_dir-raise : (s : Store) (d : ℕ) → d < length s → is_dir (raise d s) ≡ is_dir s
unfolding raise
is_dir-raise s d lt =
    is_dir-set s d (let n = node_at s d in record n { nlink = n.nlink + 1 }) lt refl

pub is_dir-lower : (s : Store) (d : ℕ) → d < length s → is_dir (lower d s) ≡ is_dir s
unfolding lower
is_dir-lower s d lt =
    is_dir-set s d (let n = node_at s d in record n { nlink = n.nlink - 1 }) lt refl

pub is_dir-cut :
    (s : Store) (d : ℕ) (name : Bytes) → d < length s → is_dir (cut_entry d name s) ≡ is_dir s
is_dir-cut s d name lt =
    is_dir-set s d (let n = node_at s d in record n { children = cut name n.children }) lt refl

pub is_dir-add :
    (s : Store) (d p : ℕ) (name : Bytes) → d < length s → is_dir (add d name p s) ≡ is_dir s
unfolding add
is_dir-add s d p name lt =
    is_dir-set s d
      (let n = node_at s d in
        record n { children = n.children ++ record { name = name; node = p } ∷ [] })
      lt refl

pub length-raise : (s : Store) (d : ℕ) → length (raise d s) ≡ length s
unfolding raise
length-raise s d = length-set s d (let n = node_at s d in record n { nlink = n.nlink + 1 })

pub length-lower : (s : Store) (d : ℕ) → length (lower d s) ≡ length s
unfolding lower
length-lower s d = length-set s d (let n = node_at s d in record n { nlink = n.nlink - 1 })

pub length-add : (s : Store) (d p : ℕ) (name : Bytes) → length (add d name p s) ≡ length s
unfolding add
length-add s d p name = length-set s d (
    let n = node_at s d in
    record n { children = n.children ++ record { name = name; node = p } ∷ [] })

pub length-cut_entry : (s : Store) (d : ℕ) (name : Bytes) → length (cut_entry d name s) ≡ length s
length-cut_entry s d name =
    length-set s d (let n = node_at s d in record n { children = cut name n.children })

-- What the entries of a directory have, the one that a name finds has.
pub find-All :
    (P : Entry → Type 0) (name : Bytes) (es : List Entry) (e : Entry)
    → All P es
    → find name es ≡ some e
    → P e
unfolding find
find-All P name [] e h f = absurd (ground arith)
find-All P name (x ∷ es) e h f = elim (Bool-cases (same_bytes x.name name)) [
  | inl t ↦ let k : x ≡ e = some_value x e (rw t at f) in subst P k h.0
  | inr t ↦ find-All P name es e h.1 (rw t at f)
]

count-refs : (p d : ℕ) (s : Store) → d < length s → count p (node_at s d).children ≤ refs p s
unfolding refs
count-refs p d [] lt = absurd (omega arith)
count-refs p zero (n ∷ s) lt = omega arith
count-refs p (suc d) (n ∷ s) lt = let r = count-refs p d s (omega arith) in omega arith

-- An entry is a reference.
pub refs-found :
    (s : Store) (d : ℕ) (name : Bytes) (e : Entry)
    → d < length s
    → find name (node_at s d).children ≡ some e
    → 0 < refs e.node s
refs-found s d name e lt f =
    let c = count-cut e.node name (node_at s d).children e f in
    let r = count-refs e.node d s lt in
    let k : e.node == e.node ≡ true = ground arith in
    let c2 : count e.node (cut name (node_at s d).children) + 1
        ≡ count e.node (node_at s d).children =
      rw k at c in
    omega arith
