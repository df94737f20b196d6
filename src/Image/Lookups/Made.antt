-- ===== src/Image/Lookups/Made.antt =====
-- What a directory lists after an entry was made or removed.
use mathlib.Core.Path.{subst}
use fsforge.Common.{
  ℕ, ◌<◌, ◌≡◌, refl, sym, ap, ◌∙◌, inl, inr, true, false, ◌==◌, if◌then◌else◌, Option, none, some,
  List, [], ◌∷◌, ◌++◌, length, Bytes, same_bytes, arith, Bool-cases, Option-cases, same_bytes_eq,
  get_or-set_self, set,
}
use fsforge.Image.{
  Meta, Node, Entry, Store, Result, ok, err, not_exist, node_at, is_dir, valid_name, find, lower,
  add, place, cut, cut_entry, create, remove, lookup, is_empty, new_child, attach, resolve_meta,
  new_node, no_node, not_empty,
}
use fsforge.Image.Counts.{node_at-set, node_at-place_old, node_at-place_new, length-place}
use fsforge.Image.Sound.{IsSound, GoodNames}
use fsforge.Image.Sound.Names.{find-append_self, find-cut_self}
use fsforge.Image.Sound.Frame.{find-All, lower-children, length-lower}
use fsforge.Image.Sound.Attach.{IsDirIn}
use fsforge.Modes.{with_type, plain}

find-append_other :
    (other : Bytes) (es : List Entry) (e : Entry)
    → same_bytes e.name other ≡ false
    → find other (es ++ e ∷ []) ≡ find other es
unfolding find
find-append_other other [] e h = rw h refl
find-append_other other (x ∷ es) e h = elim (Bool-cases (same_bytes x.name other)) [
  | inl t ↦ rw t refl
  | inr t ↦ rw t (find-append_other other es e h)
]

find-cut_other :
    (name other : Bytes) (es : List Entry)
    → same_bytes name other ≡ false
    → find other (cut name es) ≡ find other es
unfolding find cut
find-cut_other name other [] h = refl
find-cut_other name other (x ∷ es) h = elim (Bool-cases (same_bytes x.name name)) [
  | inl t ↦
      let k : same_bytes x.name other ≡ false =
        subst (λ n. same_bytes n other ≡ false) (sym (same_bytes_eq x.name name t)) h in
      rw (t, k) refl
  | inr t ↦ elim (Bool-cases (same_bytes x.name other)) [
    | inl u ↦ rw (t, u) refl
    | inr u ↦ rw (t, u) (find-cut_other name other es h)
  ]
]

lookup_same :
    (s t : Store) (d : ℕ) (other : Bytes)
    → find other (node_at t d).children ≡ find other (node_at s d).children
    → lookup t d other ≡ lookup s d other
unfolding lookup
lookup_same s t d other h =
    ap (λ o. elim o as (λ x. Result Entry) [ none ↦ err not_exist | some e ↦ ok e ]) h

children-add :
    (s : Store) (d p : ℕ) (name : Bytes)
    → d < length s
    → (node_at (add d name p s) d).children
      ≡ (node_at s d).children ++ record { name = name; node = p } ∷ []
unfolding add
children-add s d p name l =
    let v : Node =
      (let n = node_at s d in
        record n { children = n.children ++ record { name = name; node = p } ∷ [] }) in
    ap (λ (n : Node). n.children) (get_or-set_self s d v no_node l)

children-cut :
    (s : Store) (d : ℕ) (name : Bytes)
    → d < length s
    → (node_at (cut_entry d name s) d).children ≡ cut name (node_at s d).children
children-cut s d name l =
    let v : Node = (let n = node_at s d in record n { children = cut name n.children }) in
    ap (λ (n : Node). n.children) (get_or-set_self s d v no_node l)

lookup_as :
    (s : Store) (d : ℕ) (name : Bytes) (o : Option Entry)
    → find name (node_at s d).children ≡ o
    → lookup s d name ≡ elim o as (λ x. Result Entry) [ none ↦ err not_exist | some e ↦ ok e ]
unfolding lookup
lookup_as s d name o h =
    ap (λ o. elim o as (λ x. Result Entry) [ none ↦ err not_exist | some e ↦ ok e ]) h

content-add :
    (s : Store) (d p q : ℕ) (name : Bytes)
    → d < length s
    → (node_at (add d name p s) q).content ≡ (node_at s q).content
unfolding add
content-add s d p q name l =
    let v : Node =
      (let n = node_at s d in
        record n { children = n.children ++ record { name = name; node = p } ∷ [] }) in
    let h : node_at (set s d v) q ≡ (if q == d then v else node_at s q) = node_at-set s d q v l in
    elim (Bool-cases (q == d)) [
      | inl e ↦
          let k : d ≡ q = ground arith in
          ap (λ (n : Node). n.content) (rw e at h) ∙ ap (λ j. (node_at s j).content) k
      | inr e ↦ ap (λ (n : Node). n.content) (rw e at h)
    ]

-- What holds of the answer and the store that Create of a free name leaves.
abbrev pub IsCreated : Store → ℕ → Bytes → Option Bytes → Result ℕ × Store → Type 0
IsCreated s d name c (r, t) =
    (r ≡ ok (length s))
    × ((node_at t (length s)).content ≡ c)
    × (lookup t d name ≡ ok (record { name = name; node = length s }))
    × ((other : Bytes) → same_bytes name other ≡ false → lookup t d other ≡ lookup s d other)

attach-IsCreated :
    (s : Store) (d : ℕ) (name : Bytes) (n : Node)
    → d < length s
    → find name (node_at s d).children ≡ none
    → IsCreated s d name n.content (attach s d name (ok n))
attach-IsCreated s d name n l free =
    let p = length s in
    let s2 = place n s in
    let e : Entry = record { name = name; node = p } in
    let es = (node_at s d).children in
    let len = length-place s n in
    let kids : (node_at (add d name p s2) d).children ≡ es ++ e ∷ [] =
      children-add s2 d p name (omega arith)
      ∙ ap (λ (m : Node). m.children ++ e ∷ []) (node_at-place_old s n d l) in
    (
      refl,
      content-add s2 d p p name (omega arith)
          ∙ ap (λ (m : Node). m.content) (node_at-place_new s n),
      lookup_as (add d name p s2) d name (some e)
          (ap (find name) kids ∙ find-append_self es e free),
      λ other ne.
          lookup_same s (add d name p s2) d other
            (ap (find other) kids ∙ find-append_other other es e ne),
    )

-- Create, with a valid name that its directory does not have, gives a handle of a node that holds the
-- contents; then the name finds that node, and each other name finds what it found.
pub create-lookup :
    (now : ℕ) (s : Store) (d : ℕ) (name : Bytes) (c : Option Bytes) (meta : Meta)
    → d < length s
    → valid_name name ≡ true
    → find name (node_at s d).children ≡ none
    → IsCreated s d name c (create now s d name c meta)
unfolding create new_child
create-lookup now s d name c meta l valid free =
    let m = resolve_meta now meta in
    let n : Node = record (new_node (record m { mode = with_type m.mode plain }) 1) {
      content = c;
    } in
    let is : create now s d name c meta ≡ attach s d name (ok n) = rw (create, valid, free) refl in
    subst (IsCreated s d name c) (sym is) (attach-IsCreated s d name n l free)

-- What holds of the store that Remove leaves where it removed the entry.
abbrev pub IsRemoved : Store → ℕ → Bytes → Store → Type 0
IsRemoved s d name t =
    (lookup t d name ≡ err not_exist)
    × ((other : Bytes) → same_bytes name other ≡ false → lookup t d other ≡ lookup s d other)

cut-IsRemoved :
    (s t : Store) (d : ℕ) (name : Bytes)
    → d < length t
    → (node_at t d).children ≡ (node_at s d).children
    → GoodNames (node_at s d).children
    → IsRemoved s d name (cut_entry d name t)
cut-IsRemoved s t d name l same good =
    let es = (node_at s d).children in
    let kids : (node_at (cut_entry d name t) d).children ≡ cut name es =
      children-cut t d name l ∙ ap (cut name) same in
    (
      lookup_as (cut_entry d name t) d name none (ap (find name) kids ∙ find-cut_self name es good),
      λ other ne.
          lookup_same s (cut_entry d name t) d other
            (ap (find other) kids ∙ find-cut_other name other es ne),
    )

-- Remove in a sound tree, where it answers without an error: then the name finds nothing, and each other
-- name finds what it found.
pub remove-lookup :
    (root : ℕ) (s : Store) (d : ℕ) (name : Bytes)
    → IsSound root s
    → IsDirIn s d
    → (remove s d name).0 ≡ ok tt
    → IsRemoved s d name (remove s d name).1
unfolding remove
remove-lookup root s d name i h done =
    let l = h.0 in
    let good = i.names d l in
    elim (Option-cases (find name (node_at s d).children)) [
      | inl k ↦ let c : err not_exist ≡ ok tt = rw (remove, k) at done in absurd (ground arith)
      | inr (e, k) ↦
          let p = e.node in
          let lp =
            find-All (λ e. e.node < length s) name (node_at s d).children e (i.below d l) k in
          let s1 = lower d s in
          let len1 = length-lower s d in
          let len = length-lower s p in
          let len2 = length-lower s1 p in
          elim (Bool-cases (is_dir s p)) [
            | inr t ↦
                rw (remove, k, t)
                  (cut-IsRemoved s (lower p s) d name (omega arith) (lower-children s p d lp) good)
            | inl t ↦ elim (Bool-cases (is_empty (node_at s p).children)) [
              | inr u ↦
                  let c : err not_empty ≡ ok tt = rw (remove, k, t, u) at done in
                  absurd (ground arith)
              | inl u ↦
                  rw (remove, k, t, u)
                    (cut-IsRemoved s (lower p s1) d name (omega arith)
                      (lower-children s1 p d (omega arith) ∙ lower-children s d d l) good)
            ]
          ]
    ]
