-- ===== src/Image/Sound/Attach.antt =====
-- New nodes and their entries: what newChild makes, and a sound tree after it was attached.
use fsforge.Common.{
  ℕ, ◌+◌, ◌<◌, ◌≡◌, refl, ap, ◌∙◌, inl, inr, Bool, true, false, ◌==◌, if◌then◌else◌, Option, none,
  some, [], length, Bytes, arith, Bool-cases,
}
use fsforge.Image.{
  Meta, Node, Entry, Store, node_at, is_dir, valid_name, find, raise, place, Result, ok, err,
  new_child, attach, attach_dir, on_node, resolve_meta, new_node, exist,
}
use fsforge.Modes.{FileMode, with_type}
use fsforge.Image.Counts.{one_if, node_at-place_old, node_at-place_new, length-place}
use fsforge.Image.Sound.{IsSound, nothing, gain}
use fsforge.Image.Sound.Changes.{raise-IsOff, add-IsOff}
use fsforge.Image.Sound.Place.{place-IsOff, is_dir-place}
use fsforge.Image.Sound.Frame.{raise-children, is_dir-raise, length-raise}

-- A handle of a directory.
abbrev pub IsDirIn : Store → ℕ → Type 0
IsDirIn s d = (d < length s) × (is_dir s d ≡ true)

-- A node to be added to directory `d` under `name`.
pub record IsFresh (s : Store) (d : ℕ) (name : Bytes) (dir : Bool) (n : Node) : Type 0 where
  pub valid : valid_name name ≡ true
  pub free : find name (node_at s d).children ≡ none
  pub empty : n.children ≡ []
  pub kind : n.meta.mode.dir ≡ dir
  pub one_link : n.nlink ≡ 1

abbrev pub IfOk : {A : Type 0} → (A → Type 0) → Result A → Type 0
IfOk P (ok a) = P a
IfOk P (err e) = Unit {0}

-- The node placed last has the kind it was placed with.
pub is_dir-place_new :
    (s : Store) (n : Node) (b : Bool) → n.meta.mode.dir ≡ b → is_dir (place n s) (length s) ≡ b
is_dir-place_new s n b h = ap (λ (m : Node). m.meta.mode.dir) (node_at-place_new s n) ∙ h

find-place :
    (s : Store) (n : Node) (d : ℕ) (name : Bytes)
    → d < length s
    → find name (node_at (place n s) d).children ≡ find name (node_at s d).children
find-place s n d name lt = ap (λ (m : Node). find name m.children) (node_at-place_old s n d lt)

zero_first : (n : ℕ) → n ≡ 0 + n
zero_first n = omega arith

both : (n : ℕ) (b : Bool) → n ≡ 0 + (n + (if b then 0 else 0))
both n true = omega arith
both n false = omega arith

-- An entry for a node that is no directory is one link more.
pub gain_file :
    (s : Store) (d p q : ℕ) → is_dir s p ≡ false → one_if (q == p) ≡ nothing q + gain s d p q
gain_file s d p q h = rw h (both (one_if (q == p)) (q == d))

pub gain_dir :
    (s : Store) (d p q : ℕ)
    → is_dir s p ≡ true
    → one_if (q == p) + one_if (q == d) ≡ nothing q + gain s d p q
gain_dir s d p q h = rw h (zero_first (one_if (q == p) + one_if (q == d)))

one_if_self : (q : ℕ) → one_if (q == q) ≡ 1
one_if_self q = let h : q == q ≡ true = ground arith in rw h refl

one_if_ne : (q p : ℕ) → q < p → one_if (q == p) ≡ 0
one_if_ne q p lt = let h : q == p ≡ false = ground arith in rw h refl

pub attach-IsSound :
    (root : ℕ) (s : Store) (d : ℕ) (name : Bytes) (r : Result Node)
    → IsSound root s
    → IsDirIn s d
    → IfOk (IsFresh s d name false) r
    → IsSound root (attach s d name r).1
attach-IsSound root s d name (err e) i h f = i
attach-IsSound root s d name (ok n) i h f =
    let p = length s in
    let over : ℕ → ℕ = λ q. one_if (q == p) in
    let len = length-place s n in
    let lt = h.0 in
    let count : n.nlink ≡ over p + (if n.meta.mode.dir then 1 else 0) =
      f.one_link ∙ rw (one_if_self p, f.kind) refl in
    add-IsOff root (place n s) d name p nothing over nothing (omega arith) (omega arith)
      (is_dir-place s n d lt ∙ h.1) f.valid (find-place s n d name lt ∙ f.free)
      (λ q. gain_file (place n s) d p q (is_dir-place_new s n false f.kind))
      (place-IsOff root s n over f.empty count (λ q l. one_if_ne q p l) i)

pub attach_dir-IsSound :
    (root : ℕ) (s : Store) (d : ℕ) (name : Bytes) (r : Result Node)
    → IsSound root s
    → IsDirIn s d
    → IfOk (IsFresh s d name true) r
    → IsSound root (attach_dir s d name r).1
attach_dir-IsSound root s d name (err e) i h f = i
attach_dir-IsSound root s d name (ok n) i h f =
    let p = length s in
    let over : ℕ → ℕ = λ q. one_if (q == p) in
    let m : Node = record n { nlink = 2 } in
    let s2 = place m s in
    let len = length-place s m in
    let len2 = length-raise s2 d in
    let lt = h.0 in
    let lt2 : d < length s2 = omega arith in
    let count : 2 ≡ over p + (if n.meta.mode.dir then 1 else 0) = rw (one_if_self p, f.kind) refl in
    let same = is_dir-raise s2 d lt2 in
    add-IsOff root (raise d s2) d name p nothing (λ q. over q + one_if (q == d)) nothing
      (omega arith) (omega arith) (ap (λ g. g d) same ∙ is_dir-place s m d lt ∙ h.1) f.valid
      (ap (find name) (raise-children s2 d d lt2) ∙ find-place s m d name lt ∙ f.free)
      (λ q. gain_dir (raise d s2) d p q (ap (λ g. g p) same ∙ is_dir-place_new s m true f.kind))
      (raise-IsOff root s2 d nothing over lt2
        (place-IsOff root s m over f.empty count (λ q l. one_if_ne q p l) i))

child_or_error :
    (now : ℕ) (s : Store) (d : ℕ) (name : Bytes) (meta : Meta) (bits : FileMode)
    → valid_name name ≡ true
    → (o : Option Entry) → find name (node_at s d).children ≡ o
    → IfOk (IsFresh s d name bits.dir) (elim o as (λ o. Result Node) [
      | some e ↦ err exist
      | none ↦
          let meta = resolve_meta now meta in
          ok (new_node (record meta { mode = with_type meta.mode bits }) 1)
    ])
child_or_error now s d name meta bits v (some e) f = tt
child_or_error now s d name meta bits v none f = record {
  valid = v;
  free = f;
  empty = refl;
  kind = refl;
  one_link = refl;
}

-- A child that newChild makes is fresh, and has the kind of its type bits.
pub new_child-IsFresh :
    (now : ℕ) (s : Store) (d : ℕ) (name : Bytes) (meta : Meta) (bits : FileMode)
    → IfOk (IsFresh s d name bits.dir) (new_child now s d name meta bits)
unfolding new_child
new_child-IsFresh now s d name meta bits = elim (Bool-cases (valid_name name)) [
  | inr e ↦ rw e tt
  | inl e ↦ rw e (child_or_error now s d name meta bits e (find name (node_at s d).children) refl)
]

-- A change of what a node holds keeps it fresh.
pub on_node-IsFresh :
    (s : Store) (d : ℕ) (name : Bytes) (dir : Bool) (f : Node → Node) (r : Result Node)
    → ((n : Node) → ((f n).children ≡ n.children) × ((f n).meta ≡ n.meta) × ((f n).nlink ≡ n.nlink))
    → IfOk (IsFresh s d name dir) r
    → IfOk (IsFresh s d name dir) (on_node f r)
on_node-IsFresh s d name dir f (err e) keeps h = tt
on_node-IsFresh s d name dir f (ok n) keeps h =
    let k = keeps n in
    record {
      valid = h.valid;
      free = h.free;
      empty = k.0 ∙ h.empty;
      kind = ap (λ (m : Meta). m.mode.dir) k.1 ∙ h.kind;
      one_link = k.2 ∙ h.one_link;
    }
