-- ===== src/Cpio/Reader.antt =====
-- pkg/cpio/reader.go: building a tree from an archive. The tree is a store of nodes, its root first; a node
-- is placed in the store when it is made, and named by an entry when it is linked.
-- A file's contents are read when they are asked for; here they are what the device has at that place, and
-- none where its read fails. Offsets are natural numbers: archives end long before 2^63.
pub mod Linked
pub mod Names
pub mod Ends
mod Tests
use Prim.Native.Nat.{bit_or}
use fsforge.Common.{
  ℕ, zero, suc, ◌+◌, ◌-◌, ◌*◌, ◌/◌, ◌%◌, Bool, true, false, not, ◌&&◌, ◌||◌, ltb, leb, ◌==◌,
  if◌then◌else◌, Option, none, some, List, [], ◌∷◌, ◌++◌, length, set, take, replicate, Bytes,
  same_bytes,
}
use fsforge.Device.{filled, Device, ReadResult, read, read_panic, at, eof}
use fsforge.Modes.{FileMode, plain}
use fsforge.Image.{
  Meta, Entry, Node, Store, new_node, node_at, is_dir, find, valid_name, place, add_child, bad_name,
}
use fsforge.Cpio.Header.{Hdr, header_size, parse_header, parsed, unknown, err, n_align, align4}
use fsforge.Cpio.Mode.{mode_from_unix}

-- "TRAILER!!!"
abbrev pub trailer_name : Bytes
trailer_name = 84 ∷ 82 ∷ 65 ∷ 73 ∷ 76 ∷ 69 ∷ 82 ∷ 33 ∷ 33 ∷ 33 ∷ []

-- `stuck` is no Go error: the loop over the archive ran out of fuel.
pub data Error : Type 0 where
  read_failed bad_header bad_magic invalid_name stuck : Error

pub data Result (A : Type 0) : Type 0 where
  ok : A → Result A
  fail : Error → Result A

unfoldable pub trim_nul : Bytes → Bytes
trim_nul [] = []
trim_nul (c ∷ b) = let rest = trim_nul b in if c == 0 then [] else c ∷ rest

-- `strings.Split(p, "/")`: the first part, and the parts behind each "/".
unfoldable pub split_slash : Bytes → Bytes × List Bytes
split_slash [] = ([], [])
split_slash (c ∷ p) =
    let (part, parts) = split_slash p in if c == 47 then ([], part ∷ parts) else (c ∷ part, parts)

unfoldable pub kept_parts : List Bytes → List Bytes
kept_parts [] = []
kept_parts (c ∷ cs) =
    let rest = kept_parts cs in if same_bytes c [] || same_bytes c (46 ∷ []) then rest else c ∷ rest

unfoldable pub split_path : Bytes → List Bytes
split_path p = let (part, parts) = split_slash p in kept_parts (part ∷ parts)

unfoldable pub all_valid : List Bytes → Bool
all_valid [] = true
all_valid (c ∷ cs) = valid_name c && all_valid cs

-- The node of a reader's placeholder directory, of mode 0o755, as of the root.
abbrev pub dir_node : Node
dir_node =
    new_node
      (record {
        mode = record plain { perm = 493; dir = true };
        uid = 0;
        gid = 0;
        mod_time = none;
        xattrs = [];
      })
      2

-- The entry is added without a check here.
unfoldable pub child_dir : Store → ℕ → Bytes → ℕ × Store
child_dir s dir c = elim (find c (node_at s dir).children) [
  | some e ↦ (e.node, s)
  | none ↦
      let p = length s in
      let s2 = place dir_node s in
      (
        p,
        set s2 dir (
            let n = node_at s2 dir in
            record n { children = n.children ++ record { name = c; node = p } ∷ [] }),
      )
]

unfoldable pub descend : Store → ℕ → List Bytes → ℕ × Store
descend s dir [] = (dir, s)
descend s dir (c ∷ cs) = let (d, s2) = child_dir s dir c in descend s2 d cs

-- The first entry of the name gets another node.
unfoldable pub replace : Bytes → ℕ → List Entry → List Entry
replace name p [] = []
replace name p (e ∷ es) =
    let rest = replace name p es in
    if same_bytes e.name name then record { name = e.name; node = p } ∷ es else e ∷ rest

-- The end of `link`, in the directory that holds the leaf.
unfoldable pub link_leaf : Store → ℕ → Bytes → ℕ → Result Store
link_leaf s dir leaf p = elim (find leaf (node_at s dir).children) [
  | some e ↦
      if is_dir s p && is_dir s e.node
      then ok (
          set s e.node (
            let n = node_at s e.node in
            record n { meta = (node_at s p).meta; nlink = (node_at s p).nlink }))
      else ok
          (set s dir (let n = node_at s dir in record n { children = replace leaf p n.children }))
  | none ↦ if valid_name leaf then ok (add_child s dir leaf p).1 else fail invalid_name
]

-- `link`, for the components before the last one, and the last one.
unfoldable pub link : Store → List Bytes → Bytes → ℕ → Result Store
link s comps leaf p =
    if not (all_valid comps && valid_name leaf)
    then fail invalid_name
    else let (dir, s2) = descend s 0 comps in link_leaf s2 dir leaf p

-- The components before the last one, and the last one.
unfoldable pub last_apart : Bytes → List Bytes → List Bytes × Bytes
last_apart c [] = ([], c)
last_apart c (d ∷ cs) = let (before, leaf) = last_apart d cs in (c ∷ before, leaf)

abbrev pub link_path : Store → List Bytes → ℕ → Result Store
link_path s [] p = ok s
link_path s (c ∷ cs) p = let (before, leaf) = last_apart c cs in link s before leaf p

-- What is read so far: the tree, and the nodes that regular files of several links have.
pub record Reading : Type 0 where
  pub tree : Store
  pub ino_map : List (ℕ × ℕ)

unfoldable pub map_get : ℕ → List (ℕ × ℕ) → Option ℕ
map_get k [] = none
map_get k (e ∷ es) = let rest = map_get k es in if e.0 == k then some e.1 else rest

abbrev pub is_regular : FileMode → Bool
is_regular m = not (m.dir || m.symlink || m.device || m.char_device || m.named_pipe || m.socket)

abbrev pub with_tree : Reading → Result Store → Result Reading
with_tree r (ok s) = ok (record r { tree = s })
with_tree r (fail e) = fail e

-- A new node is placed and linked.
abbrev pub link_new : Reading → List Bytes → Node → Result Reading
link_new r comps n = let p = length r.tree in with_tree r (link_path (place n r.tree) comps p)

-- The next round, unless there was an error.
abbrev pub then_read : (Reading → ℕ → Result Reading) → ℕ → Result Reading → Result Reading
then_read go pos (ok r) = go r pos
then_read go pos (fail e) = fail e

module _ {D : Type 0} (d : Device D) (x : D) where
  unfoldable pub buffer : ℕ → ℕ → Option Bytes
  buffer n off = filled n (d.read_at x n (at off))

  abbrev pub node_of : Hdr → Node
  node_of h =
      new_node
        (record {
          mode = mode_from_unix h.mode;
          uid = h.uid;
          gid = h.gid;
          mod_time = some h.mtime;
          xattrs = [];
        })
        h.nlink

  -- A hard link to the node that an earlier entry gave: the contents come with one of the links.
  abbrev pub add_link : Reading → Hdr → List Bytes → ℕ → ℕ → Result Reading
  add_link r h comps body p =
      let s =
        (if ltb 0 h.filesize
          then set r.tree p
              (let n = node_at r.tree p in record n { content = buffer h.filesize body })
          else r.tree) in
      with_tree r (link_path s comps p)

  abbrev pub add_new : Reading → Hdr → List Bytes → ℕ → Result Reading
  add_new r h comps body =
      let n = node_of h in
      let m = mode_from_unix h.mode in
      if m.dir
      then link_new r comps n
      else if m.symlink
      then elim (buffer h.filesize body) [
        | none ↦ fail read_failed
        | some target ↦ link_new r comps (record n { link = target })
      ]
      else if m.device || m.char_device
      then link_new r comps (record n { rdev = bit_or (h.rdevmajor * 256) h.rdevminor })
      else link_new
          (if is_regular m && leb 2 h.nlink
            then record r { ino_map = (h.ino, length r.tree) ∷ r.ino_map }
            else r)
          comps
          (record n { content = if ltb 0 h.filesize then buffer h.filesize body else some [] })

  unfoldable pub add_entry : Reading → Hdr → Bytes → ℕ → Result Reading
  add_entry r h name body =
      let comps = split_path name in
      let m = mode_from_unix h.mode in
      if length comps == 0
      then ok r
      else if is_regular m && leb 2 h.nlink
      then elim (map_get h.ino r.ino_map) [
        | some p ↦ add_link r h comps body p
        | none ↦ add_new r h comps body
      ]
      else add_new r h comps body

  -- The part of a round behind its header.
  abbrev pub read_entry : (Reading → ℕ → Result Reading) → Reading → ℕ → Hdr → Result Reading
  read_entry go r pos h = elim (buffer h.namesize (pos + header_size)) [
    | none ↦ fail read_failed
    | some b ↦
        let name = trim_nul b in
        let body = pos + header_size + n_align h.namesize in
        if same_bytes name trailer_name
        then ok r
        else then_read go (align4 (body + h.filesize)) (add_entry r h name body)
  ]

  abbrev pub read_round : (Reading → ℕ → Result Reading) → Reading → ℕ → Result Reading
  read_round go r pos = elim (buffer header_size pos) [
    | none ↦ fail read_failed
    | some head ↦ elim (parse_header head) [
      | err e ↦ fail bad_header
      | unknown ↦ fail bad_magic
      | parsed h ↦ read_entry go r pos h
    ]
  ]

  unfoldable pub read_from : ℕ → Reading → ℕ → Result Reading
  read_from zero r pos = fail stuck
  read_from (suc fuel) r pos = read_round (read_from fuel) r pos

  -- Each round moves on by a header at least, and no header begins behind the device's end.
  unfoldable pub read_archive : Result Reading
  read_archive = read_from (d.size x + 1) (record { tree = dir_node ∷ []; ino_map = [] }) 0
