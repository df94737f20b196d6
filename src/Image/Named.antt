-- ===== src/Image/Named.antt =====
-- Trees whose entries have valid names and nodes of the tree, as readers of images build them.
use mathlib.Core.Path.{subst}
use fsforge.Common.{
  ℕ, ◌≤◌, ◌<◌, ◌≡◌, sym, true, [], ◌++◌, ◌∷◌, length, set, All, Bytes, arith, length-set,
}
use fsforge.Image.{Entry, Node, Store, node_at, valid_name, place, add, add_child}
use fsforge.Image.Counts.{length-place}
use fsforge.Image.Sound.Put.{set_each}
use fsforge.Image.Sound.Place.{place_each, All-weaken}
use fsforge.Image.Sound.Names.{append-All}

-- An entry of a tree of `m` nodes.
abbrev pub IsNamed : ℕ → Entry → Type 0
IsNamed m e = (valid_name e.name ≡ true) × (e.node < m)

-- A tree of at least `m` nodes whose entries have valid names and nodes of the tree.
pub record AreNamed (m : ℕ) (s : Store) : Type 0 where
  pub at_least : m ≤ length s
  pub named : (q : ℕ) → q < length s → All (IsNamed (length s)) (node_at s q).children

-- A node that is put back with good entries.
pub put-AreNamed :
    (m : ℕ) (s : Store) (d : ℕ) (v : Node)
    → AreNamed m s
    → d < length s
    → All (IsNamed (length s)) v.children
    → AreNamed m (set s d v)
put-AreNamed m s d v h l good =
    let n = length-set s d v in
    record {
      at_least = rw n h.at_least;
      named = λ q k. rw n (
          set_each (λ w. All (IsNamed (length s)) w.children) s d q v l good
            (h.named q (rw n at k)));
    }

pub place-AreNamed :
    (m : ℕ) (s : Store) (n : Node) → AreNamed m s → n.children ≡ [] → AreNamed m (place n s)
place-AreNamed m s n h empty =
    let len = length-place s n in
    let k = h.at_least in
    record {
      at_least = omega arith;
      named =
          place_each (λ q w. All (IsNamed (length (place n s))) w.children) s n
            (λ q l.
              All-weaken (IsNamed (length s)) (IsNamed (length (place n s))) (node_at s q).children
                (λ e g. (g.0, let g1 = g.1 in omega arith)) (h.named q l))
            (subst (All (IsNamed (length (place n s)))) (sym empty) tt);
    }

pub lessen : (m k : ℕ) (s : Store) → m ≤ k → AreNamed k s → AreNamed m s
lessen m k s l h = let a = h.at_least in record { at_least = omega arith; named = h.named }

-- AddChild of a node of the tree under a valid name.
pub add_child-AreNamed :
    (m : ℕ) (s : Store) (d p : ℕ) (name : Bytes)
    → AreNamed m s
    → d < length s
    → p < length s
    → valid_name name ≡ true
    → AreNamed m (add_child s d name p).1
unfolding add_child add
add_child-AreNamed m s d p name h l lp valid =
    let e : Entry = record { name = name; node = p } in
    let v : Node = (let n = node_at s d in record n { children = n.children ++ e ∷ [] }) in
    rw valid (
      put-AreNamed m s d v h l
        (append-All (IsNamed (length s)) (node_at s d).children e (h.named d l) (valid, lp)))
