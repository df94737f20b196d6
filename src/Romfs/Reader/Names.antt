-- ===== src/Romfs/Reader/Names.antt =====
-- The names of a tree that is read from a romfs image, whatever the image says.
use mathlib.Core.Path.{subst}
use Prim.Native.Nat.{bit_or}
use fsforge.Common.{
  u32, ℕ, zero, suc, ◌+◌, ◌*◌, ◌/◌, ◌%◌, ◌<◌, ◌≡◌, refl, inl, inr, Bool, true, false, not, ◌&&◌,
  ◌||◌, ltb, ◌==◌, if◌then◌else◌, Option, none, some, List, [], ◌∷◌, length, Bytes, All, arith,
  Bool-cases, get_be,
}
use fsforge.Device.{Device}
use fsforge.Image.{Node, Store, node_at, place, valid_name, add_child, new_node}
use fsforge.Image.Counts.{length-place}
use fsforge.Image.Named.{IsNamed, AreNamed, place-AreNamed, lessen, add_child-AreNamed}
use fsforge.Image.Sound.Place.{All-weaken}
use fsforge.Image.Lookups.{IsPlain, valid_name-IsPlain}
use fsforge.Romfs.Header.{
  header_size, magic_w0, magic_w1, type_dir, type_symlink, type_char, type_block, type_fifo,
  type_socket, masked, align_up, padded_name,
}
use fsforge.Romfs.Reader.{
  Result, ok, fail, read_failed, bad_magic, Rhdr, Walk, attach, build, add_node, list_entry,
  is_dots, mem, buffer, header, name_at, resolve, read_dir, root_node, read_image, meta_of,
}

abbrev pub IfRead : {A : Type 0} → (A → Type 0) → Result A → Type 0
IfRead P (ok a) = P a
IfRead P (fail e) = Unit {0}

-- A walk that keeps names good, and every node of the store.
abbrev pub Keeps : Walk → Type 0
Keeps walk =
    (s : Store) (dir off : ℕ) (seen : List ℕ)
    → AreNamed (length s) s
    → dir < length s
    → IfRead (AreNamed (length s)) (walk s dir off seen)

either_kept :
    {A : Type 0} (P : A → Type 0) (b : Bool) (u v : Result A)
    → IfRead P u
    → IfRead P v
    → IfRead P (if b then u else v)
either_kept P true u v h k = h
either_kept P false u v h k = k

if_read :
    {A : Type 0} (P Q : A → Type 0) (r : Result A) → ((a : A) → P a → Q a) → IfRead P r → IfRead Q r
if_read P Q (ok a) f h = f a h
if_read P Q (fail e) f h = tt

-- A store with one node more.
placed :
    (s : Store) (n : Node)
    → AreNamed (length s) s
    → n.children ≡ []
    → AreNamed (length s + 1) (place n s)
placed s n h empty =
    let len = length-place s n in
    record { at_least = omega arith; named = (place-AreNamed (length s) s n h empty).named }

symlink_kept :
    (o : Option Bytes) (s : Store) (n : Node)
    → AreNamed (length s) s
    → n.children ≡ []
    → IfRead (AreNamed (length s + 1)) (elim o as (λ o. Result Store) [
      | none ↦ fail read_failed
      | some target ↦ ok (place (record n { link = target }) s)
    ])
symlink_kept none s n h e = tt
symlink_kept (some target) s n h e = placed s (record n { link = target }) h e

only_root : (P : ℕ → Type 0) → P 0 → (q : ℕ) → q < 1 → P q
only_root P p zero l = p
only_root P p (suc q) l = absurd (omega arith)

module _ {D : Type 0} (d : Device D) (x : D) where
  build-AreNamed :
      (walk : Walk) (s : Store) (h : Rhdr) (name : Bytes)
      → Keeps walk
      → AreNamed (length s) s
      → IfRead (AreNamed (length s + 1)) (build d x walk s h name)
  build-AreNamed walk s h name keeps g =
      let P = AreNamed (length s + 1) in
      let n = new_node (meta_of h.dtype h.exec) 1 in
      let dn : Node = record n { nlink = 2 } in
      let off = (h.off + header_size + padded_name name) % u32 in
      let s2 = place dn s in
      let len = length-place s dn in
      let g2 = placed s dn g refl in
      let whole : AreNamed (length s2) s2 = record { at_least = omega arith; named = g2.named } in
      either_kept P (h.dtype == type_dir) _ _
        (if_read (AreNamed (length s2)) P (walk s2 (length s) (masked h.spec) [])
          (λ t. lessen (length s + 1) (length s2) t (omega arith))
          (keeps s2 (length s) (masked h.spec) [] whole (omega arith)))
        (either_kept P (h.dtype == type_symlink) _ _
          (symlink_kept (buffer d x h.size off) s n g refl)
          (either_kept P (h.dtype == type_char || h.dtype == type_block) _ _
            (placed s (record n { rdev = bit_or (h.spec / 65536 * 256) (h.spec % 65536) }) g refl)
            (either_kept P (h.dtype == type_fifo || h.dtype == type_socket) _ _ (placed s n g refl)
              (placed s
                (record n { content = if ltb 0 h.size then buffer d x h.size off else some [] }) g
                refl))))

  attach-AreNamed :
      (walk : Walk) (s : Store) (dir next : ℕ) (seen : List ℕ) (name : Bytes) (r : Result Store)
      → Keeps walk
      → dir < length s
      → IfRead (AreNamed (length s + 1)) r
      → IfRead (AreNamed (length s)) (attach walk dir next seen name (length s) r)
  attach-AreNamed walk s dir next seen name (fail e) keeps l g = tt
  attach-AreNamed walk s dir next seen name (ok t) keeps l g = elim (Bool-cases (valid_name name)) [
    | inr k ↦ rw k tt
    | inl k ↦
        let a = g.at_least in
        let u = (add_child t dir name (length s)).1 in
        let h =
          add_child-AreNamed (length s + 1) t dir (length s) name g (omega arith) (omega arith) k in
        let b = h.at_least in
        let whole : AreNamed (length u) u = record { at_least = omega arith; named = h.named } in
        rw k (
          if_read (AreNamed (length u)) (AreNamed (length s)) (walk u dir next seen)
            (λ v. lessen (length s) (length u) v (omega arith))
            (keeps u dir next seen whole (omega arith)))
  ]

  entry-AreNamed :
      (walk : Walk) (resolved : Rhdr → Result Rhdr) (s : Store) (dir : ℕ) (seen : List ℕ) (h : Rhdr)
      (name : Bytes)
      → Keeps walk
      → AreNamed (length s) s
      → dir < length s
      → IfRead (AreNamed (length s)) (list_entry d x walk resolved s dir seen h name)
  entry-AreNamed walk resolved s dir seen h name keeps g l =
      either_kept (AreNamed (length s)) (is_dots name) _ _ (keeps s dir (masked h.next) seen g l)
        (target_kept (resolved h))
    where
      target_kept :
          (r : Result Rhdr)
          → IfRead (AreNamed (length s)) (add_node d x walk s dir (masked h.next) seen name r)
      target_kept (fail e) = tt
      target_kept (ok t) =
          attach-AreNamed walk s dir (masked h.next) seen name (build d x walk s t name) keeps l
            (build-AreNamed walk s t name keeps g)

  name_kept :
      (walk : Walk) (resolved : Rhdr → Result Rhdr) (s : Store) (dir : ℕ) (seen : List ℕ) (h : Rhdr)
      (o : Option Bytes)
      → Keeps walk
      → AreNamed (length s) s
      → dir < length s
      → IfRead (AreNamed (length s)) (elim o as (λ o. Result Store) [
        | none ↦ fail read_failed
        | some name ↦ list_entry d x walk resolved s dir seen h name
      ])
  name_kept walk resolved s dir seen h none keeps g l = tt
  name_kept walk resolved s dir seen h (some name) keeps g l =
      entry-AreNamed walk resolved s dir seen h name keeps g l

  header_kept :
      (walk : Walk) (resolved : Rhdr → Result Rhdr) (s : Store) (dir off : ℕ) (seen : List ℕ)
      (o : Option Rhdr)
      → Keeps walk
      → AreNamed (length s) s
      → dir < length s
      → IfRead (AreNamed (length s)) (elim o as (λ o. Result Store) [
        | none ↦ fail read_failed
        | some h ↦ elim (name_at d x ((off + header_size) % u32)) as (λ o. Result Store) [
          | none ↦ fail read_failed
          | some name ↦ list_entry d x walk resolved s dir seen h name
        ]
      ])
  header_kept walk resolved s dir off seen none keeps g l = tt
  header_kept walk resolved s dir off seen (some h) keeps g l =
      name_kept walk resolved s dir seen h (name_at d x ((off + header_size) % u32)) keeps g l

  read_dir-Keeps : (fuel : ℕ) → Keeps (read_dir d x fuel)
  unfolding read_dir
  read_dir-Keeps zero s dir off seen g l = tt
  read_dir-Keeps (suc fuel) s dir off seen g l =
      either_kept (AreNamed (length s)) (off == 0 || mem off seen) _ _ g (
        header_kept (read_dir d x fuel) (resolve d x fuel) s dir off (off ∷ seen) (header d x off)
          (read_dir-Keeps fuel) g l)

  root_kept :
      (fuel : ℕ) (o : Option Rhdr)
      → IfRead (AreNamed 1) (elim o as (λ o. Result Store) [
        | none ↦ fail read_failed
        | some root ↦ read_dir d x fuel (root_node d x ∷ []) 0 (masked root.spec) []
      ])
  root_kept fuel none = tt
  root_kept fuel (some root) =
      read_dir-Keeps fuel (root_node d x ∷ []) 0 (masked root.spec) []
        (record {
          at_least = omega arith;
          named = only_root (λ q. All (IsNamed 1) (node_at (root_node d x ∷ []) q).children) tt;
        })
        (omega arith)

  volume_kept :
      (fuel : ℕ) (o : Option Bytes)
      → IfRead (AreNamed 1) (elim o as (λ o. Result Store) [
        | none ↦ fail read_failed
        | some vol ↦
            elim (header d x (align_up ((header_size + length vol + 1) % u32)))
              as (λ o. Result Store) [
                | none ↦ fail read_failed
                | some root ↦ read_dir d x fuel (root_node d x ∷ []) 0 (masked root.spec) []
              ]
      ])
  volume_kept fuel none = tt
  volume_kept fuel (some vol) =
      root_kept fuel (header d x (align_up ((header_size + length vol + 1) % u32)))

  image_kept :
      (fuel : ℕ) (o : Option Bytes)
      → IfRead (AreNamed 1) (elim o as (λ o. Result Store) [
        | none ↦ fail read_failed
        | some head ↦
            if not (get_be 4 0 head == magic_w0 && get_be 4 4 head == magic_w1)
            then fail bad_magic
            else elim (name_at d x header_size) as (λ o. Result Store) [
              | none ↦ fail read_failed
              | some vol ↦
                  elim (header d x (align_up ((header_size + length vol + 1) % u32)))
                    as (λ o. Result Store) [
                      | none ↦ fail read_failed
                      | some root ↦ read_dir d x fuel (root_node d x ∷ []) 0 (masked root.spec) []
                    ]
            ]
      ])
  image_kept fuel none = tt
  image_kept fuel (some head) =
      either_kept (AreNamed 1) (not (get_be 4 0 head == magic_w0 && get_be 4 4 head == magic_w1)) _
        _ tt (volume_kept fuel (name_at d x header_size))

  -- Whatever bytes an image has and whatever the device does: in a tree that Open reads from it, every
  -- entry of every node has a name that is one component of a path and neither "." nor "..", and names a
  -- node of the tree.
  pub read_image-IsPlain :
      (fuel : ℕ) (s : Store)
      → read_image d x fuel ≡ ok s
      → (q : ℕ) → q < length s
      → All (λ e. IsPlain e.name × (e.node < length s)) (node_at s q).children
  unfolding read_image
  read_image-IsPlain fuel s done q l =
      let g : IfRead (AreNamed 1) (ok s) =
        subst (IfRead (AreNamed 1)) done (image_kept fuel (buffer d x header_size 0)) in
      All-weaken (IsNamed (length s)) (λ e. IsPlain e.name × (e.node < length s))
        (node_at s q).children (λ e h. (valid_name-IsPlain e.name h.0, h.1)) (g.named q l)
