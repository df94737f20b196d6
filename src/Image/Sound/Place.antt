-- ===== src/Image/Sound/Place.antt =====
-- A sound tree after a node was placed beside it.
use mathlib.Core.Path.{subst}
use fsforge.Common.{
  ℕ, suc, ◌+◌, ◌<◌, ◌≡◌, refl, sym, ap, ◌∙◌, inl, inr, Bool, false, ◌==◌, if◌then◌else◌, List, [],
  ◌∷◌, length, All, arith, Bool-cases, ltb, ltb→lt, ltb-false,
}
use fsforge.Image.{Node, Entry, Store, node_at, is_dir, place}
use fsforge.Image.Counts.{
  one_if, count, refs, sub_dirs, refs-append, node_at-place_old, node_at-place_new, length-place,
}
use fsforge.Image.Sound.{own_links, GoodNames, expected, IsOff, IsSound, nothing}

pub All-weaken :
    (P Q : Entry → Type 0) (es : List Entry) → ((e : Entry) → P e → Q e) → All P es → All Q es
All-weaken P Q [] f h = tt
All-weaken P Q (e ∷ es) f h = (f e h.0, All-weaken P Q es f h.1)

sub_dirs-same :
    (f g : ℕ → Bool) (es : List Entry)
    → All (λ e. f e.node ≡ g e.node) es
    → sub_dirs f es ≡ sub_dirs g es
unfolding sub_dirs
sub_dirs-same f g [] h = refl
sub_dirs-same f g (e ∷ es) h = rw h.0 (ap (λ k. one_if (g e.node) + k) (sub_dirs-same f g es h.1))

count-beyond : (m : ℕ) (es : List Entry) → All (λ e. e.node < m) es → count m es ≡ 0
unfolding count
count-beyond m [] h = refl
count-beyond m (e ∷ es) h =
    let ne : m == e.node ≡ false = let l = h.0 in ground arith in
    let r = count-beyond m es h.1 in rw ne (omega arith)

refs-beyond :
    (m : ℕ) (s : Store)
    → ((q : ℕ) → q < length s → All (λ e. e.node < m) (node_at s q).children)
    → refs m s ≡ 0
unfolding refs
refs-beyond m [] h = refl
refs-beyond m (n ∷ s) h =
    let c = count-beyond m n.children (h 0 (omega arith)) in
    let r = refs-beyond m s (λ q l. h (suc q) (omega arith)) in omega arith

-- What holds of the old nodes and of the new one holds of each node of the store.
pub place_each :
    (P : ℕ → Node → Type 0) (s : Store) (n : Node)
    → ((q : ℕ) → q < length s → P q (node_at s q))
    → P (length s) n
    → (q : ℕ) → q < length (place n s)
    → P q (node_at (place n s) q)
place_each P s n old new q l = elim (Bool-cases (ltb q (length s))) [
  | inl e ↦
      let k : q < length s = ltb→lt q (length s) e in
      subst (P q) (sym (node_at-place_old s n q k)) (old q k)
  | inr e ↦
      let m = length-place s n in
      let o = ltb-false q (length s) e in
      let k : length s ≡ q = omega arith in
      subst (λ j. P j (node_at (place n s) j)) k
        (subst (P (length s)) (sym (node_at-place_new s n)) new)
]

pub is_dir-place : (s : Store) (n : Node) (q : ℕ) → q < length s → is_dir (place n s) q ≡ is_dir s q
is_dir-place s n q l = ap (λ (n : Node). n.meta.mode.dir) (node_at-place_old s n q l)

sums_old :
    (n2 r2 o2 o d n1 r1 o1 : ℕ)
    → n1 + 0 ≡ r1 + d + o1 + 0
    → n2 ≡ n1
    → r2 ≡ r1
    → o2 ≡ o1
    → o ≡ 0
    → n2 + 0 ≡ r2 + d + o2 + o
sums_old n2 r2 o2 o d n1 r1 o1 a b c e f = omega arith

own_links-place :
    (s : Store) (n : Node) (q : ℕ)
    → q < length s
    → All (λ e. e.node < length s) (node_at s q).children
    → own_links (place n s) q ≡ own_links s q
own_links-place s n q l inside =
    let h = node_at-place_old s n q l in
    let es = (node_at s q).children in
    let same = sub_dirs-same (is_dir (place n s)) (is_dir s) es (
      All-weaken (λ e. e.node < length s) (λ e. is_dir (place n s) e.node ≡ is_dir s e.node) es
        (λ e. is_dir-place s n e.node) inside) in
    ap (λ (m : Node). if m.meta.mode.dir then 1 + sub_dirs (is_dir (place n s)) m.children else 0) h
    ∙ ap (λ k. if is_dir s q then 1 + k else 0) same

count_none : (q : ℕ) (n : Node) → n.children ≡ [] → count q n.children ≡ 0
unfolding count
count_none q n empty = ap (count q) empty

counted_old :
    (root : ℕ) (s : Store) (n : Node) (over : ℕ → ℕ) (q : ℕ)
    → n.children ≡ []
    → over q ≡ 0
    → IsSound root s
    → q < length s
    → (node_at s q).nlink + 0 ≡ expected root (place n s) q + over q
counted_old root s n over q empty rest i l =
    let r = refs-append q s n in
    let c = count_none q n empty in
    sums_old (node_at s q).nlink (refs q (place n s)) (own_links (place n s) q) (over q)
      (one_if (q == root)) (node_at s q).nlink (refs q s) (own_links s q) (i.counted q l) refl
      (omega arith) (own_links-place s n q l (i.below q l)) rest

sums_new :
    (n r own over x y : ℕ) → n ≡ over + y → r ≡ 0 → own ≡ y → x ≡ 0 → n + 0 ≡ r + x + own + over
sums_new n r own over x y a b c d = omega arith

own_links-new :
    (s : Store) (n : Node)
    → n.children ≡ []
    → own_links (place n s) (length s) ≡ (if n.meta.mode.dir then 1 else 0)
unfolding sub_dirs
own_links-new s n empty =
    let f = is_dir (place n s) in
    ap (λ (m : Node). if m.meta.mode.dir then 1 + sub_dirs f m.children else 0)
      (node_at-place_new s n)
    ∙ ap (λ es. if n.meta.mode.dir then 1 + sub_dirs f es else 0) empty

counted_new :
    (root : ℕ) (s : Store) (n : Node) (over : ℕ → ℕ)
    → n.children ≡ []
    → n.nlink ≡ over (length s) + (if n.meta.mode.dir then 1 else 0)
    → IsSound root s
    → n.nlink + 0 ≡ expected root (place n s) (length s) + over (length s)
counted_new root s n over empty right i =
    let r = refs-append (length s) s n in
    let c = count_none (length s) n empty in
    let b = refs-beyond (length s) s i.below in
    let o = own_links-new s n empty in
    let ne : length s == root ≡ false = let l = i.root_in in ground arith in
    sums_new n.nlink (refs (length s) (place n s)) (own_links (place n s) (length s))
      (over (length s)) (one_if (length s == root)) (if n.meta.mode.dir then 1 else 0) right
      (omega arith) o (rw ne refl)

pub place-IsOff :
    (root : ℕ) (s : Store) (n : Node) (over : ℕ → ℕ)
    → n.children ≡ []
    → n.nlink ≡ over (length s) + (if n.meta.mode.dir then 1 else 0)
    → ((q : ℕ) → q < length s → over q ≡ 0)
    → IsSound root s
    → IsOff root (place n s) nothing over
place-IsOff root s n over empty right old i =
    let len = length-place s n in
    let r = i.root_in in
    record {
      root_in = omega arith;
      root_dir = is_dir-place s n root r ∙ i.root_dir;
      below =
          place_each (λ q m. All (λ e. e.node < length (place n s)) m.children) s n
            (λ q l.
              All-weaken (λ e. e.node < length s) (λ e. e.node < length (place n s))
                (node_at s q).children (λ e h. omega arith) (i.below q l))
            (subst (All (λ e. e.node < length (place n s))) (sym empty) tt);
      names = place_each (λ q m. GoodNames m.children) s n i.names (subst GoodNames (sym empty) tt);
      counted =
          place_each (λ q m. m.nlink + 0 ≡ expected root (place n s) q + over q) s n
            (λ q l. counted_old root s n over q empty (old q l) i l)
            (counted_new root s n over empty right i);
    }
