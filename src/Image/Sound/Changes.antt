-- ===== src/Image/Sound/Changes.antt =====
-- The changes that operations are made of: counts raised and lowered, entries added and cut.
use mathlib.Core.Path.{subst}
use fsforge.Common.{
  ℕ, ◌+◌, ◌-◌, ◌<◌, ◌≡◌, refl, sym, ap, ◌∙◌, inl, inr, Bool, true, false, ◌==◌, if◌then◌else◌, none,
  some, List, [], ◌∷◌, ◌++◌, length, Bytes, arith, Bool-cases,
}
use fsforge.Image.{
  Node, Entry, Store, node_at, is_dir, valid_name, find, cut, raise, lower, add, cut_entry,
}
use fsforge.Image.Counts.{
  one_if, count, sub_dirs, count-append, sub_dirs-append, count-cut, sub_dirs-cut,
}
use fsforge.Image.Sound.Names.{append-All, cut-All, append-GoodNames, cut-GoodNames}
use fsforge.Image.Sound.{IsOff, gain}
use fsforge.Image.Sound.Put.{dots, new_count, put}

if_same : {A : Type 0} → (b : Bool) (x : A) → (if b then x else x) ≡ x
if_same true x = refl
if_same false x = refl

new_count_as :
    (s : Store) (d : ℕ) (v : Node) (q : ℕ) (f : ℕ → ℕ)
    → v.nlink ≡ f (node_at s d).nlink
    → new_count s d v q ≡ (if q == d then f (node_at s q).nlink else (node_at s q).nlink)
new_count_as s d v q f h = elim (Bool-cases (q == d)) [
  | inl e ↦ let k : q ≡ d = ground arith in rw e (h ∙ ap (λ j. f (node_at s j).nlink) (sym k))
  | inr e ↦ rw e refl
]

raised :
    (b : Bool) (n debt over c : ℕ)
    → (if b then n + 1 else n) + debt + over + c ≡ n + debt + (over + one_if b) + c
raised true n debt over c = omega arith
raised false n debt over c = omega arith

pub raise-IsOff :
    (root : ℕ) (s : Store) (d : ℕ) (debt over : ℕ → ℕ)
    → d < length s
    → IsOff root s debt over
    → IsOff root (raise d s) debt (λ q. over q + one_if (q == d))
unfolding raise
raise-IsOff root s d debt over lt i =
    let v : Node = let n = node_at s d in record n { nlink = n.nlink + 1 } in
    put root s d v debt over debt (λ q. over q + one_if (q == d)) lt refl i (i.below d lt)
      (i.names d lt)
      λ q. rw (new_count_as s d v q (λ n. n + 1) refl) (
        raised (q == d) (node_at s q).nlink (debt q) (over q)
          (count q (node_at s d).children + dots s d q (node_at s d).children))

lowered :
    (b : Bool) (n debt over c : ℕ)
    → (b ≡ true → 0 < n)
    → (if b then n - 1 else n) + (debt + one_if b) + over + c ≡ n + debt + over + c
lowered true n debt over c h = omega (arith, h refl)
lowered false n debt over c h = omega arith

pub lower-IsOff :
    (root : ℕ) (s : Store) (d : ℕ) (debt over : ℕ → ℕ)
    → d < length s
    → 0 < (node_at s d).nlink
    → IsOff root s debt over
    → IsOff root (lower d s) (λ q. debt q + one_if (q == d)) over
unfolding lower
lower-IsOff root s d debt over lt pos i =
    let v : Node = let n = node_at s d in record n { nlink = n.nlink - 1 } in
    put root s d v debt over (λ q. debt q + one_if (q == d)) over lt refl i (i.below d lt)
      (i.names d lt)
      λ q. rw (new_count_as s d v q (λ n. n - 1) refl) (
        lowered (q == d) (node_at s q).nlink (debt q) (over q)
          (count q (node_at s d).children + dots s d q (node_at s d).children)
          λ e. let k : d ≡ q = ground arith in subst (λ j. 0 < (node_at s j).nlink) k pos)

same_count :
    (s : Store) (d : ℕ) (v : Node) (q : ℕ)
    → v.nlink ≡ (node_at s d).nlink
    → new_count s d v q ≡ (node_at s q).nlink
same_count s d v q h = new_count_as s d v q (λ n. n) h ∙ if_same (q == d) (node_at s q).nlink

cut_off :
    (n debt debt' over c c2 g : ℕ)
    → debt ≡ debt' + g
    → c ≡ c2 + g
    → n + debt' + over + c ≡ n + debt + over + c2
cut_off n debt debt' over c c2 g e f = omega arith

added :
    (n debt over over' c c2 g : ℕ)
    → over ≡ over' + g
    → c2 ≡ c + g
    → n + debt + over + c ≡ n + debt + over' + c2
added n debt over over' c c2 g e f = omega arith

gains :
    (b : Bool) (c2 c x s2 s y : ℕ)
    → c2 ≡ c + x
    → s2 ≡ s + y
    → c2 + (if b then s2 else 0) ≡ c + (if b then s else 0) + (x + (if b then y else 0))
gains true c2 c x s2 s y e f = omega arith
gains false c2 c x s2 s y e f = omega arith

count-append_one :
    (q : ℕ) (es : List Entry) (e : Entry)
    → count q (es ++ e ∷ []) ≡ count q es + one_if (q == e.node)
unfolding count
count-append_one q es e = omega (arith, count-append q es (e ∷ []))

sub_dirs-append_one :
    (f : ℕ → Bool) (es : List Entry) (e : Entry)
    → sub_dirs f (es ++ e ∷ []) ≡ sub_dirs f es + one_if (f e.node)
unfolding sub_dirs
sub_dirs-append_one f es e = omega (arith, sub_dirs-append f es (e ∷ []))

gain-append :
    (s : Store) (d q : ℕ) (e : Entry) (es : List Entry)
    → is_dir s d ≡ true
    → count q (es ++ e ∷ []) + dots s d q (es ++ e ∷ [])
      ≡ count q es + dots s d q es + gain s d e.node q
gain-append s d q e es isd = rw isd (
    gains (q == d) (count q (es ++ e ∷ [])) (count q es) (one_if (q == e.node))
      (sub_dirs (is_dir s) (es ++ e ∷ [])) (sub_dirs (is_dir s) es) (one_if (is_dir s e.node))
      (count-append_one q es e) (sub_dirs-append_one (is_dir s) es e))

pub add-IsOff :
    (root : ℕ) (s : Store) (d : ℕ) (name : Bytes) (p : ℕ) (debt over over' : ℕ → ℕ)
    → d < length s
    → p < length s
    → is_dir s d ≡ true
    → valid_name name ≡ true
    → find name (node_at s d).children ≡ none
    → ((q : ℕ) → over q ≡ over' q + gain s d p q)
    → IsOff root s debt over
    → IsOff root (add d name p s) debt over'
unfolding add
add-IsOff root s d name p debt over over' lt inside isd valid fresh fits i =
    let e : Entry = record { name = name; node = p } in
    let es = (node_at s d).children in
    let v : Node = let n = node_at s d in record n { children = n.children ++ e ∷ [] } in
    put root s d v debt over debt over' lt refl i
      (append-All (λ e. e.node < length s) es e (i.below d lt) inside)
      (append-GoodNames es e (i.names d lt) valid fresh)
      λ q. rw (same_count s d v q refl) (
        added (node_at s q).nlink (debt q) (over q) (over' q) (count q es + dots s d q es)
          (count q v.children + dots s d q v.children) (gain s d p q) (fits q)
          (gain-append s d q e es isd))

gain-cut :
    (s : Store) (d q : ℕ) (name : Bytes) (e : Entry) (es : List Entry)
    → is_dir s d ≡ true
    → find name es ≡ some e
    → count q es + dots s d q es
      ≡ count q (cut name es) + dots s d q (cut name es) + gain s d e.node q
gain-cut s d q name e es isd found = rw isd (
    gains (q == d) (count q es) (count q (cut name es)) (one_if (q == e.node))
      (sub_dirs (is_dir s) es) (sub_dirs (is_dir s) (cut name es)) (one_if (is_dir s e.node))
      (sym (count-cut q name es e found)) (sym (sub_dirs-cut (is_dir s) name es e found)))

pub cut_entry-IsOff :
    (root : ℕ) (s : Store) (d : ℕ) (name : Bytes) (e : Entry) (debt over debt' : ℕ → ℕ)
    → d < length s
    → is_dir s d ≡ true
    → find name (node_at s d).children ≡ some e
    → ((q : ℕ) → debt q ≡ debt' q + gain s d e.node q)
    → IsOff root s debt over
    → IsOff root (cut_entry d name s) debt' over
cut_entry-IsOff root s d name e debt over debt' lt isd found fits i =
    let es = (node_at s d).children in
    let v : Node = let n = node_at s d in record n { children = cut name n.children } in
    put root s d v debt over debt' over lt refl i
      (cut-All (λ e. e.node < length s) name es (i.below d lt))
      (cut-GoodNames name es (i.names d lt))
      λ q. rw (same_count s d v q refl) (
        cut_off (node_at s q).nlink (debt q) (debt' q) (over q) (count q es + dots s d q es)
          (count q v.children + dots s d q v.children) (gain s d e.node q) (fits q)
          (gain-cut s d q name e es isd found))
