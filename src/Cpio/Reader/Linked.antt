-- ===== src/Cpio/Reader/Linked.antt =====
-- Linking an entry of an archive into the tree keeps the names good and the places inside the tree.
use fsforge.Common.{
  ℕ, ◌<◌, ◌≡◌, refl, inl, inr, Bool, true, false, ◌&&◌, List, [], ◌∷◌, ◌++◌, length, Bytes, All,
  same_bytes, arith, Bool-cases, Option-cases, length-set,
}
use fsforge.Image.{Entry, Node, Store, node_at, is_dir, find, valid_name, place, add, add_child}
use fsforge.Image.Counts.{length-place}
use fsforge.Image.Named.{IsNamed, AreNamed, put-AreNamed, place-AreNamed, lessen}
use fsforge.Image.Sound.Names.{append-All}
use fsforge.Image.Sound.Frame.{find-All}
use fsforge.Cpio.Reader.{
  Result, ok, fail, dir_node, child_dir, descend, replace, link_leaf, link, link_path, all_valid,
  last_apart,
}

-- A directory's place in a tree.
abbrev pub InTree : ℕ → ℕ × Store → Type 0
InTree m (d, s) = (d < length s) × AreNamed m s

child_dir-InTree :
    (m : ℕ) (s : Store) (dir : ℕ) (c : Bytes)
    → AreNamed m s
    → dir < length s
    → valid_name c ≡ true
    → InTree m (child_dir s dir c)
unfolding child_dir
child_dir-InTree m s dir c h l valid = elim (Option-cases (find c (node_at s dir).children)) [
  | inr (e, k) ↦
      let g = find-All (IsNamed (length s)) c (node_at s dir).children e (h.named dir l) k in
      rw (child_dir, k) (g.1, h)
  | inl k ↦
      let p = length s in
      let s2 = place dir_node s in
      let e : Entry = record { name = c; node = p } in
      let v : Node = (let n = node_at s2 dir in record n { children = n.children ++ e ∷ [] }) in
      let len = length-place s dir_node in
      let len2 = length-set s2 dir v in
      let h2 = place-AreNamed m s dir_node h refl in
      rw (child_dir, k)
        (
          omega arith,
          put-AreNamed m s2 dir v h2 (omega arith) (
              append-All (IsNamed (length s2)) (node_at s2 dir).children e
                (h2.named dir (omega arith)) (valid, omega arith)),
        )
]

both_true : (a b : Bool) → a && b ≡ true → (a ≡ true) × (b ≡ true)
both_true true true h = (refl, refl)
both_true true false h = absurd (ground arith)
both_true false b h = absurd (ground arith)

descend-InTree :
    (m : ℕ) (s : Store) (dir : ℕ) (cs : List Bytes)
    → AreNamed m s
    → dir < length s
    → all_valid cs ≡ true
    → InTree m (descend s dir cs)
unfolding descend all_valid
descend-InTree m s dir [] h l valid = (l, h)
descend-InTree m s dir (c ∷ cs) h l valid =
    let v = both_true (valid_name c) (all_valid cs) valid in
    let i = child_dir-InTree m s dir c h l v.0 in
    descend-InTree m (child_dir s dir c).1 (child_dir s dir c).0 cs i.1 i.0 v.1

abbrev pub IfRead : {A : Type 0} → (A → Type 0) → Result A → Type 0
IfRead P (ok a) = P a
IfRead P (fail e) = Unit {0}

replace-All :
    (m : ℕ) (name : Bytes) (p : ℕ) (es : List Entry)
    → p < m
    → All (IsNamed m) es
    → All (IsNamed m) (replace name p es)
unfolding replace
replace-All m name p [] l h = tt
replace-All m name p (e ∷ es) l h = elim (Bool-cases (same_bytes e.name name)) [
  | inl t ↦ rw t ((h.0.0, l), h.1)
  | inr t ↦ rw t (h.0, replace-All m name p es l h.1)
]

link_leaf-AreNamed :
    (m : ℕ) (s : Store) (dir : ℕ) (leaf : Bytes) (p : ℕ)
    → AreNamed m s
    → dir < length s
    → p < length s
    → IfRead (AreNamed m) (link_leaf s dir leaf p)
unfolding link_leaf add_child add
link_leaf-AreNamed m s dir leaf p h l lp =
    elim (Option-cases (find leaf (node_at s dir).children)) [
      | inr (e, k) ↦
          let g = find-All (IsNamed (length s)) leaf (node_at s dir).children e (h.named dir l) k in
          elim (Bool-cases (is_dir s p && is_dir s e.node)) [
            | inl t ↦
                let v : Node =
                  (let n = node_at s e.node in
                    record n { meta = (node_at s p).meta; nlink = (node_at s p).nlink }) in
                rw (link_leaf, k, t) (put-AreNamed m s e.node v h g.1 (h.named e.node g.1))
            | inr t ↦
                let v : Node =
                  (let n = node_at s dir in record n { children = replace leaf p n.children }) in
                rw (link_leaf, k, t)
                  (put-AreNamed m s dir v h l
                    (replace-All (length s) leaf p (node_at s dir).children lp (h.named dir l)))
          ]
      | inl k ↦ elim (Bool-cases (valid_name leaf)) [
        | inl t ↦
            let e : Entry = record { name = leaf; node = p } in
            let v : Node =
              (let n = node_at s dir in record n { children = n.children ++ e ∷ [] }) in
            rw (link_leaf, k, t)
              (put-AreNamed m s dir v h l (
                append-All (IsNamed (length s)) (node_at s dir).children e (h.named dir l) (t, lp)))
        | inr t ↦ rw (link_leaf, k, t) tt
      ]
    ]

if_read :
    {A : Type 0}
    → (P Q : A → Type 0) (r : Result A) → ((a : A) → P a → Q a)
    → IfRead P r
    → IfRead Q r
if_read P Q (ok a) f h = f a h
if_read P Q (fail e) f h = tt

link-AreNamed :
    (m : ℕ) (s : Store) (comps : List Bytes) (leaf : Bytes) (p : ℕ)
    → AreNamed m s
    → 0 < length s
    → p < length s
    → IfRead (AreNamed m) (link s comps leaf p)
unfolding link
link-AreNamed m s comps leaf p h root lp = elim (Bool-cases (all_valid comps && valid_name leaf)) [
  | inr t ↦ rw (link, t) tt
  | inl t ↦
      let v = both_true (all_valid comps) (valid_name leaf) t in
      let whole : AreNamed (length s) s = record { at_least = omega arith; named = h.named } in
      let i = descend-InTree (length s) s 0 comps whole root v.0 in
      let more = i.1.at_least in
      let less = h.at_least in
      rw (link, t)
        (if_read (AreNamed (length s)) (AreNamed m)
          (link_leaf (descend s 0 comps).1 (descend s 0 comps).0 leaf p)
          (λ u. lessen m (length s) u less)
          (link_leaf-AreNamed (length s) (descend s 0 comps).1 (descend s 0 comps).0 leaf p i.1 i.0
            (omega arith)))
]

pub link_path-AreNamed :
    (m : ℕ) (s : Store) (comps : List Bytes) (p : ℕ)
    → AreNamed m s
    → 0 < length s
    → p < length s
    → IfRead (AreNamed m) (link_path s comps p)
link_path-AreNamed m s [] p h root lp = h
link_path-AreNamed m s (c ∷ cs) p h root lp =
    link-AreNamed m s (last_apart c cs).0 (last_apart c cs).1 p h root lp
