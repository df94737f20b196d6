-- ===== src/Image/Counts.antt =====
-- References to nodes, counted, under each change of the store.
use fsforge.Common.{
  ℕ, zero, suc, ◌+◌, ◌<◌, ◌≡◌, ◌≢◌, refl, sym, ap, ◌∙◌, inl, inr, Bool, ◌==◌, if◌then◌else◌, some,
  List, [], ◌∷◌, ◌++◌, length, set, Bytes, same_bytes, arith, Bool-cases, get_or-set_self,
  get_or-set_ne, length-append, some_value,
}
use fsforge.Image.{Node, Entry, Store, node_at, no_node, find, cut, place}

abbrev pub one_if : Bool → ℕ
one_if b = if b then 1 else 0

-- The entries that name node `p`.
unfoldable pub count : ℕ → List Entry → ℕ
count p [] = 0
count p (e ∷ es) = one_if (p == e.node) + count p es

-- The entries of the whole store that name node `p`.
unfoldable pub refs : ℕ → Store → ℕ
refs p [] = 0
refs p (n ∷ s) = count p n.children + refs p s

-- The entries that name a directory.
unfoldable pub sub_dirs : (ℕ → Bool) → List Entry → ℕ
sub_dirs isd [] = 0
sub_dirs isd (e ∷ es) = one_if (isd e.node) + sub_dirs isd es

pub count-append : (p : ℕ) (es fs : List Entry) → count p (es ++ fs) ≡ count p es + count p fs
unfolding count
count-append p [] fs = omega arith
count-append p (e ∷ es) fs = omega (arith, count-append p es fs)

pub sub_dirs-append :
    (isd : ℕ → Bool) (es fs : List Entry)
    → sub_dirs isd (es ++ fs) ≡ sub_dirs isd es + sub_dirs isd fs
unfolding sub_dirs
sub_dirs-append isd [] fs = omega arith
sub_dirs-append isd (e ∷ es) fs = omega (arith, sub_dirs-append isd es fs)

-- The entry that a name finds is the one that is cut.
pub count-cut :
    (p : ℕ) (name : Bytes) (es : List Entry) (e : Entry)
    → find name es ≡ some e
    → count p (cut name es) + one_if (p == e.node) ≡ count p es
unfolding count find cut
count-cut p name [] e h = absurd (ground arith)
count-cut p name (x ∷ es) e h = elim (Bool-cases (same_bytes x.name name)) [
  | inl t ↦ let q : x ≡ e = some_value x e (rw t at h) in rw (t, sym q) (omega arith)
  | inr t ↦ rw t (omega (arith, count-cut p name es e (rw t at h)))
]

pub sub_dirs-cut :
    (isd : ℕ → Bool) (name : Bytes) (es : List Entry) (e : Entry)
    → find name es ≡ some e
    → sub_dirs isd (cut name es) + one_if (isd e.node) ≡ sub_dirs isd es
unfolding sub_dirs find cut
sub_dirs-cut isd name [] e h = absurd (ground arith)
sub_dirs-cut isd name (x ∷ es) e h = elim (Bool-cases (same_bytes x.name name)) [
  | inl t ↦ let q : x ≡ e = some_value x e (rw t at h) in rw (t, sym q) (omega arith)
  | inr t ↦ rw t (omega (arith, sub_dirs-cut isd name es e (rw t at h)))
]

pub refs-set :
    (p d : ℕ) (s : Store) (v : Node)
    → d < length s
    → refs p (set s d v) + count p (node_at s d).children ≡ refs p s + count p v.children
unfolding refs
refs-set p d [] v h = absurd (omega arith)
refs-set p zero (n ∷ s) v h = omega arith
refs-set p (suc d) (n ∷ s) v h = omega (arith, refs-set p d s v (omega arith))

pub refs-append :
    (p : ℕ) (s : Store) (n : Node) → refs p (s ++ n ∷ []) ≡ refs p s + count p n.children
unfolding refs
refs-append p [] n = omega arith
refs-append p (m ∷ s) n = omega (arith, refs-append p s n)

-- Reading a store after one node was put into it.
pub node_at-set :
    (s : Store) (d q : ℕ) (v : Node)
    → d < length s
    → node_at (set s d v) q ≡ (if q == d then v else node_at s q)
node_at-set s d q v h = elim (Bool-cases (q == d)) [
  | inl e ↦
      let k : d ≡ q = ground arith in
      rw e (ap (node_at (set s d v)) (sym k) ∙ get_or-set_self s d v no_node h)
  | inr e ↦ let k : d ≢ q = λ k. ground arith in rw e (get_or-set_ne s d q v no_node k)
]

pub node_at-place_old :
    (s : Store) (n : Node) (q : ℕ) → q < length s → node_at (place n s) q ≡ node_at s q
node_at-place_old [] n q h = absurd (omega arith)
node_at-place_old (m ∷ s) n zero h = refl
node_at-place_old (m ∷ s) n (suc q) h = node_at-place_old s n q (omega arith)

pub node_at-place_new : (s : Store) (n : Node) → node_at (place n s) (length s) ≡ n
node_at-place_new [] n = refl
node_at-place_new (m ∷ s) n = node_at-place_new s n

pub length-place : (s : Store) (n : Node) → length (place n s) ≡ length s + 1
length-place s n = length-append s (n ∷ [])
