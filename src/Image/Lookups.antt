-- ===== src/Image/Lookups.antt =====
-- Which names the directories of an image list.
pub mod Made
mod Tests
use mathlib.Core.Path.{subst}
use fsforge.Common.{
  ℕ, zero, suc, ◌+◌, ◌≤◌, ◌<◌, ◌≡◌, ◌≢◌, refl, sym, ap, ◌∙◌, inl, inr, Bool, true, false, not, ◌&&◌,
  ◌||◌, ◌==◌, if◌then◌else◌, Option, none, some, List, [], ◌∷◌, ◌++◌, length, All, Bytes,
  same_bytes, arith, Bool-cases, Option-cases, All-get_or, some_value, same_bytes_refl,
  same_bytes_eq, get_or-set_self, set,
}
use fsforge.Image.{
  Meta, Node, Entry, Store, Result, ok, err, not_exist, node_at, is_dir, valid_name, find, raise,
  lower, add, place, cut, cut_entry, contains, create, remove, lookup, is_empty, new_child, attach,
  on_node, resolve_meta, new_node, no_node, not_empty,
}
use fsforge.Image.Counts.{node_at-set, node_at-place_old, node_at-place_new, length-place}
use fsforge.Image.Sound.{IsSound, IsOff, GoodNames}
use fsforge.Image.Sound.Names.{find-append_self, find-cut_self}
use fsforge.Image.Sound.Frame.{find-All, lower-children, length-lower}
use fsforge.Image.Sound.Attach.{IsDirIn, IsFresh}
use fsforge.Image.Sessions.{Session, Reach, start, dir_handle}
use fsforge.Image.Sessions.Reached.{Reach-IsGood, dir_handle-IsDirIn, found-inside}
use fsforge.Modes.{with_type, plain}

-- A name that is one component of a path, and not "." or "..".
abbrev pub IsPlain : Bytes → Type 0
IsPlain name = (name ≢ []) × (name ≢ 46 ∷ []) × (name ≢ 46 ∷ 46 ∷ []) × All (λ c. c ≢ 47) name

contains-All : (c : ℕ) (name : Bytes) → contains c name ≡ false → All (λ x. x ≢ c) name
unfolding contains
contains-All c [] h = tt
contains-All c (x ∷ name) h = elim (Bool-cases (x == c)) [
  | inl e ↦ let k : true ≡ false = rw e at h in absurd (ground arith)
  | inr e ↦ (λ q. ground arith, contains-All c name (rw e at h))
]

other_than : (a b : Bytes) → same_bytes a b ≡ false → a ≢ b
other_than a b h q = let k : true ≡ false = rw (q, same_bytes_refl b) at h in ground arith

no_one :
    (a b c d : Bool)
    → not (a || b || c || d) ≡ true
    → (a ≡ false) × (b ≡ false) × (c ≡ false) × (d ≡ false)
no_one false false false false h = (refl, refl, refl, refl)
no_one true b c d h = absurd (ground arith)
no_one false true c d h = absurd (ground arith)
no_one false false true d h = absurd (ground arith)
no_one false false false true h = absurd (ground arith)

pub valid_name-IsPlain : (name : Bytes) → valid_name name ≡ true → IsPlain name
unfolding valid_name
valid_name-IsPlain name h =
    let p =
      no_one (same_bytes name []) (same_bytes name (46 ∷ [])) (same_bytes name (46 ∷ 46 ∷ []))
        (contains 47 name) h in
    (
      other_than name [] p.0,
      other_than name (46 ∷ []) p.1,
      other_than name (46 ∷ 46 ∷ []) p.2,
      contains-All 47 name p.3,
    )

names-found :
    (name : Bytes) (es : List Entry) (e : Entry)
    → GoodNames es
    → find name es ≡ some e
    → (valid_name e.name ≡ true) × (e.name ≡ name)
unfolding find
names-found name [] e g f = absurd (ground arith)
names-found name (x ∷ es) e g f = elim (Bool-cases (same_bytes x.name name)) [
  | inl t ↦
      let k : x ≡ e = some_value x e (rw t at f) in
      subst (λ (y : Entry). (valid_name y.name ≡ true) × (y.name ≡ name)) k
        (g.0, same_bytes_eq x.name name t)
  | inr t ↦ names-found name es e g.2 (rw t at f)
]

or_else : {A : Type 0} → A → Result A → A
or_else d (ok a) = a
or_else d (err e) = d

ok_value : {A : Type 0} → (a b : A) → ok a ≡ ok b → a ≡ b
unfolding or_else
ok_value a b h = ap (or_else a) h

lookup-find :
    (s : Store) (d : ℕ) (name : Bytes) (e : Entry)
    → lookup s d name ≡ ok e
    → find name (node_at s d).children ≡ some e
unfolding lookup
lookup-find s d name e h = elim (Option-cases (find name (node_at s d).children)) [
  | inl k ↦ let c : err not_exist ≡ ok e = rw (lookup, k) at h in absurd (ground arith)
  | inr (x, k) ↦ let c : ok x ≡ ok e = rw (lookup, k) at h in k ∙ ap some (ok_value x e c)
]

-- Whatever was done to a new image through the handles that the calls gave out, making no device, pipe
-- or socket whose mode also has the directory bit, each name that a directory of it finds is one
-- component of a path and not "." or ".."; it is the name that was asked for, and its node stands in the
-- store.
pub lookup-IsPlain :
    (now : ℕ) (meta : Meta) (w : Session) (i : ℕ) (name : Bytes) (e : Entry)
    → Reach (start now meta) w
    → i < length w.dirs
    → lookup w.tree (dir_handle w i) name ≡ ok e
    → IsPlain e.name × (e.name ≡ name) × (e.node < length w.tree)
lookup-IsPlain now meta w i name e r l h =
    let g = Reach-IsGood now meta w r in
    let d = dir_handle w i in
    let k = dir_handle-IsDirIn w i g l in
    let f = lookup-find w.tree d name e h in
    let n = names-found name (node_at w.tree d).children e (g.sound.names d k.0) f in
    (valid_name-IsPlain e.name n.0, n.1, found-inside w.tree d name g.sound k.0 e f)
