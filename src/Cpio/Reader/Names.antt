-- ===== src/Cpio/Reader/Names.antt =====
-- The names of a tree that is read from an archive, whatever the archive says.
use mathlib.Core.Path.{subst}
use fsforge.Common.{
  ℕ, zero, suc, ◌+◌, ◌*◌, ◌≤◌, ◌<◌, ◌≡◌, refl, inl, inr, Bool, true, false, ◌&&◌, ◌||◌, ltb, leb,
  ◌==◌, if◌then◌else◌, Option, none, some, List, [], ◌∷◌, length, set, Bytes, All, same_bytes,
  arith, Bool-cases, Option-cases, length-set, some_value,
}
use Prim.Native.Nat.{bit_or}
use fsforge.Device.{Device}
use fsforge.Image.{Node, Store, node_at, place}
use fsforge.Image.Counts.{length-place}
use fsforge.Image.Sound.Place.{All-weaken}
use fsforge.Image.Named.{IsNamed, AreNamed, put-AreNamed, place-AreNamed, lessen}
use fsforge.Image.Lookups.{IsPlain, valid_name-IsPlain}
use fsforge.Cpio.Header
use fsforge.Cpio.Header.{Hdr, header_size, parse_header, parsed, unknown, err, n_align, align4}
use fsforge.Cpio.Mode.{mode_from_unix}
use fsforge.Cpio.Reader.{
  Result, ok, fail, Reading, dir_node, link_path, read_failed, bad_header, bad_magic, with_tree,
  link_new, node_of, add_link, add_new, add_entry, map_get, buffer, is_regular, then_read,
  read_entry, read_from, read_archive, split_path, trim_nul, trailer_name,
}
use fsforge.Cpio.Reader.Linked.{IfRead, link_path-AreNamed}

-- A reading whose tree has good names, and whose links are to nodes of it.
pub record IsSafe (r : Reading) : Type 0 where
  pub has_root : 0 < length r.tree
  pub tree_names : AreNamed 0 r.tree
  pub mapped : All (λ (e : ℕ × ℕ). e.1 < length r.tree) r.ino_map

map-weaken :
    (m k : ℕ) (es : List (ℕ × ℕ))
    → m ≤ k
    → All (λ (e : ℕ × ℕ). e.1 < m) es
    → All (λ (e : ℕ × ℕ). e.1 < k) es
map-weaken m k [] l h = tt
map-weaken m k (e ∷ es) l h = (let g = h.0 in omega arith, map-weaken m k es l h.1)

map_get-inside :
    (m k p : ℕ) (es : List (ℕ × ℕ))
    → All (λ (e : ℕ × ℕ). e.1 < m) es
    → map_get k es ≡ some p
    → p < m
unfolding map_get
map_get-inside m k p [] h f = absurd (ground arith)
map_get-inside m k p (e ∷ es) h f = elim (Bool-cases (e.0 == k)) [
  | inl t ↦ let q : e.1 ≡ p = some_value e.1 p (rw t at f) in subst (λ j. j < m) q h.0
  | inr t ↦ map_get-inside m k p es h.1 (rw t at f)
]

with_tree-IsSafe :
    (m : ℕ) (r : Reading) (q : Result Store)
    → 0 < m
    → All (λ (e : ℕ × ℕ). e.1 < m) r.ino_map
    → IfRead (AreNamed m) q
    → IfRead IsSafe (with_tree r q)
with_tree-IsSafe m r (fail e) root h i = tt
with_tree-IsSafe m r (ok s) root h i =
    let a = i.at_least in
    record {
      has_root = omega arith;
      tree_names = lessen 0 m s (omega arith) i;
      mapped = map-weaken m (length s) r.ino_map a h;
    }

link_new-IsSafe :
    (r : Reading) (comps : List Bytes) (n : Node)
    → 0 < length r.tree
    → AreNamed 0 r.tree
    → All (λ (e : ℕ × ℕ). e.1 < length r.tree + 1) r.ino_map
    → n.children ≡ []
    → IfRead IsSafe (link_new r comps n)
link_new-IsSafe r comps n root h maps empty =
    let s = r.tree in
    let len = length-place s n in
    let whole : AreNamed (length s + 1) (place n s) = record {
      at_least = omega arith;
      named = (place-AreNamed 0 s n h empty).named;
    } in
    with_tree-IsSafe (length s + 1) r (link_path (place n s) comps (length s)) (omega arith) maps (
      link_path-AreNamed (length s + 1) (place n s) comps (length s) whole (omega arith)
        (omega arith))

either-IsSafe :
    (b : Bool) (u v : Result Reading)
    → IfRead IsSafe u
    → IfRead IsSafe v
    → IfRead IsSafe (if b then u else v)
either-IsSafe true u v h k = h
either-IsSafe false u v h k = k

symlink-IsSafe :
    (o : Option Bytes) (r : Reading) (comps : List Bytes) (n : Node)
    → ((n : Node) → n.children ≡ [] → IfRead IsSafe (link_new r comps n))
    → n.children ≡ []
    → IfRead IsSafe (elim o as (λ o. Result Reading) [
      | none ↦ fail read_failed
      | some target ↦ link_new r comps (record n { link = target })
    ])
symlink-IsSafe none r comps n made e = tt
symlink-IsSafe (some target) r comps n made e = made (record n { link = target }) e

then_read-IsSafe :
    (go : Reading → ℕ → Result Reading) (pos : ℕ) (q : Result Reading)
    → ((r : Reading) (pos : ℕ) → IsSafe r → IfRead IsSafe (go r pos))
    → IfRead IsSafe q
    → IfRead IsSafe (then_read go pos q)
then_read-IsSafe go pos (ok r) each g = each r pos g
then_read-IsSafe go pos (fail e) each g = tt

only_root : (P : ℕ → Type 0) → P 0 → (q : ℕ) → q < 1 → P q
only_root P p zero l = p
only_root P p (suc q) l = absurd (omega arith)

first-IsSafe : IsSafe (record { tree = dir_node ∷ []; ino_map = [] })
first-IsSafe = record {
  has_root = omega arith;
  tree_names = record {
    at_least = omega arith;
    named = only_root (λ q. All (IsNamed 1) (node_at (dir_node ∷ []) q).children) tt;
  };
  mapped = tt;
}

module _ {D : Type 0} (d : Device D) (x : D) where
  add_link-IsSafe :
      (r : Reading) (h : Hdr) (comps : List Bytes) (body p : ℕ)
      → IsSafe r
      → p < length r.tree
      → IfRead IsSafe (add_link d x r h comps body p)
  add_link-IsSafe r h comps body p g l =
      let s = r.tree in
      let whole : AreNamed (length s) s = record {
        at_least = omega arith;
        named = g.tree_names.named;
      } in
      let v : Node = (let n = node_at s p in record n { content = buffer d x h.filesize body }) in
      let len = length-set s p v in
      let root = g.has_root in
      elim (Bool-cases (ltb 0 h.filesize)) [
        | inl t ↦ rw t (
            with_tree-IsSafe (length s) r (link_path (set s p v) comps p) root g.mapped (
              link_path-AreNamed (length s) (set s p v) comps p
                (put-AreNamed (length s) s p v whole l (g.tree_names.named p l)) (omega arith)
                (omega arith)))
        | inr t ↦ rw t (
            with_tree-IsSafe (length s) r (link_path s comps p) root g.mapped
              (link_path-AreNamed (length s) s comps p whole root l))
      ]

  add_new-IsSafe :
      (r : Reading) (h : Hdr) (comps : List Bytes) (body : ℕ)
      → IsSafe r
      → IfRead IsSafe (add_new d x r h comps body)
  add_new-IsSafe r h comps body g =
      let maps = map-weaken (length r.tree) (length r.tree + 1) r.ino_map (omega arith) g.mapped in
      let m = mode_from_unix h.mode in
      let n = node_of d x h in
      let s = r.tree in
      let links : Bool = is_regular m && leb 2 h.nlink in
      let marked : Reading = record r { ino_map = (h.ino, length s) ∷ r.ino_map } in
      let file : Node = record n {
        content = if ltb 0 h.filesize then buffer d x h.filesize body else some [];
      } in
      let plain_file =
        elim (Bool-cases links)
          as (λ o. IfRead IsSafe (link_new (if links then marked else r) comps file)) [
            | inl t ↦
                rw t (
                  link_new-IsSafe marked comps file g.has_root g.tree_names (omega arith, maps)
                    refl)
            | inr t ↦ rw t (link_new-IsSafe r comps file g.has_root g.tree_names maps refl)
          ] in
      let made = λ (n : Node) (e : n.children ≡ []).
        link_new-IsSafe r comps n g.has_root g.tree_names maps e in
      either-IsSafe m.dir _ _ (made n refl) (
        either-IsSafe m.symlink _ _
          (symlink-IsSafe (buffer d x h.filesize body) r comps n made refl)
          (either-IsSafe (m.device || m.char_device) _ _
            (made (record n { rdev = bit_or (h.rdevmajor * 256) h.rdevminor }) refl) plain_file))

  add_entry-IsSafe :
      (r : Reading) (h : Hdr) (name : Bytes) (body : ℕ)
      → IsSafe r
      → IfRead IsSafe (add_entry d x r h name body)
  unfolding add_entry
  add_entry-IsSafe r h name body g =
      let comps = split_path name in
      let m = mode_from_unix h.mode in
      either-IsSafe (length comps == 0) _ _ g (
        either-IsSafe (is_regular m && leb 2 h.nlink) _ _
          (elim (Option-cases (map_get h.ino r.ino_map)) [
            | inl k ↦ rw k (add_new-IsSafe r h comps body g)
            | inr (p, k) ↦ rw k (
                add_link-IsSafe r h comps body p g
                  (map_get-inside (length r.tree) h.ino p r.ino_map g.mapped k))
          ])
          (add_new-IsSafe r h comps body g))

  entry_with :
      (go : Reading → ℕ → Result Reading) (r : Reading) (pos : ℕ) (h : Hdr) (o : Option Bytes)
      → ((r : Reading) (pos : ℕ) → IsSafe r → IfRead IsSafe (go r pos))
      → IsSafe r
      → IfRead IsSafe (elim o as (λ o. Result Reading) [
        | none ↦ fail read_failed
        | some b ↦
            let name = trim_nul b in
            let body = pos + header_size + n_align h.namesize in
            if same_bytes name trailer_name
            then ok r
            else then_read go (align4 (body + h.filesize)) (add_entry d x r h name body)
      ])
  entry_with go r pos h none each g = tt
  entry_with go r pos h (some b) each g =
      let body = pos + header_size + n_align h.namesize in
      either-IsSafe (same_bytes (trim_nul b) trailer_name) _ _ g (
        then_read-IsSafe go (align4 (body + h.filesize)) (add_entry d x r h (trim_nul b) body) each
          (add_entry-IsSafe r h (trim_nul b) body g))

  round_with :
      (go : Reading → ℕ → Result Reading) (r : Reading) (pos : ℕ) (q : Header.Result)
      → ((r : Reading) (pos : ℕ) → IsSafe r → IfRead IsSafe (go r pos))
      → IsSafe r
      → IfRead IsSafe (elim q as (λ q. Result Reading) [
        | err e ↦ fail bad_header
        | unknown ↦ fail bad_magic
        | parsed h ↦ read_entry d x go r pos h
      ])
  round_with go r pos (err e) each g = tt
  round_with go r pos unknown each g = tt
  round_with go r pos (parsed h) each g =
      entry_with go r pos h (buffer d x h.namesize (pos + header_size)) each g

  head_with :
      (go : Reading → ℕ → Result Reading) (r : Reading) (pos : ℕ) (o : Option Bytes)
      → ((r : Reading) (pos : ℕ) → IsSafe r → IfRead IsSafe (go r pos))
      → IsSafe r
      → IfRead IsSafe (elim o as (λ o. Result Reading) [
        | none ↦ fail read_failed
        | some head ↦ elim (parse_header head) as (λ q. Result Reading) [
          | err e ↦ fail bad_header
          | unknown ↦ fail bad_magic
          | parsed h ↦ read_entry d x go r pos h
        ]
      ])
  head_with go r pos none each g = tt
  head_with go r pos (some head) each g = round_with go r pos (parse_header head) each g

  read_from-IsSafe :
      (fuel : ℕ) (r : Reading) (pos : ℕ) → IsSafe r → IfRead IsSafe (read_from d x fuel r pos)
  unfolding read_from
  read_from-IsSafe zero r pos g = tt
  read_from-IsSafe (suc fuel) r pos g =
      head_with (read_from d x fuel) r pos (buffer d x header_size pos) (read_from-IsSafe fuel) g

  -- Whatever bytes an archive has and whatever the device does: in a tree that Open builds from it, every
  -- entry of every node has a name that is one component of a path and neither "." nor "..", and names a
  -- node of the tree; so do the directories made for a path's components.
  pub read_archive-IsPlain :
      (r : Reading)
      → read_archive d x ≡ ok r
      → (q : ℕ) → q < length r.tree
      → All (λ e. IsPlain e.name × (e.node < length r.tree)) (node_at r.tree q).children
  unfolding read_archive
  read_archive-IsPlain r done q l =
      let first : Reading = record { tree = dir_node ∷ []; ino_map = [] } in
      let g = read_from-IsSafe (d.size x + 1) first 0 first-IsSafe in
      let g2 : IfRead IsSafe (ok r) = subst (IfRead IsSafe) done g in
      All-weaken (IsNamed (length r.tree)) (λ e. IsPlain e.name × (e.node < length r.tree))
        (node_at r.tree q).children (λ e h. (valid_name-IsPlain e.name h.0, h.1))
        (g2.tree_names.named q l)
