-- ===== src/Image.antt =====
-- pkg/image: the editable tree (mem.go) and the names it accepts (name.go). Nodes stand in a store and are
-- named by their place in it, so that two entries can share one. A time is a number, `none` for Go's zero
-- time; contents are the bytes that a source gives. A link count is a natural number: lowering 0 leaves
-- 0, where Go's int goes to -1; on trees that the operations make, no count is 0 when it is lowered.
pub mod Counts
pub mod Sound
pub mod Named
pub mod Sessions
pub mod Lookups
use fsforge.Common.{
  ℕ, zero, suc, ◌+◌, ◌-◌, Bool, true, false, not, ◌&&◌, ◌||◌, ◌==◌, if◌then◌else◌, Option, none,
  some, List, [], ◌∷◌, ◌++◌, length, get_or, set, Bytes, same_bytes,
}
use fsforge.Modes.{FileMode, with_type, plain}

pub record Meta : Type 0 where
  pub mode : FileMode
  pub uid : ℕ
  pub gid : ℕ
  pub mod_time : Option ℕ
  pub xattrs : List (Bytes × Bytes)

pub record Entry : Type 0 where
  pub name : Bytes
  pub node : ℕ

pub record Node : Type 0 where
  pub meta : Meta
  pub content : Option Bytes
  pub link : Bytes
  pub rdev : ℕ
  pub nlink : ℕ
  pub children : List Entry
  pub ino : ℕ

abbrev pub Store : Type 0
Store = List Node

pub data Error : Type 0 where
  bad_name exist not_exist not_dir not_empty bad_link : Error

pub data Result (A : Type 0) : Type 0 where
  ok : A → Result A
  err : Error → Result A

abbrev pub new_node : Meta → ℕ → Node
new_node meta nlink = record {
  meta = meta;
  content = none;
  link = [];
  rdev = 0;
  nlink = nlink;
  children = [];
  ino = 0;
}

-- What is read outside the store; no handle points there.
abbrev pub no_node : Node
no_node = new_node (record { mode = plain; uid = 0; gid = 0; mod_time = none; xattrs = [] }) 0

abbrev pub node_at : Store → ℕ → Node
node_at s p = get_or s p no_node

abbrev pub is_dir : Store → ℕ → Bool
is_dir s p = (node_at s p).meta.mode.dir

unfoldable pub contains : ℕ → Bytes → Bool
contains c [] = false
contains c (x ∷ name) = x == c || contains c name

-- Not empty, neither "." nor "..", and no "/" in it.
unfoldable pub valid_name : Bytes → Bool
valid_name name = not (
    same_bytes name []
    || same_bytes name (46 ∷ [])
    || same_bytes name (46 ∷ 46 ∷ [])
    || contains 47 name)

-- The first entry of a name.
unfoldable pub find : Bytes → List Entry → Option Entry
find name [] = none
find name (e ∷ es) = let rest = find name es in if same_bytes e.name name then some e else rest

unfoldable pub resolve_meta : ℕ → Meta → Meta
resolve_meta now meta = record meta {
  mod_time = elim meta.mod_time [ none ↦ some now | some t ↦ some t ];
}

-- `&Node{...}` at a new place.
abbrev pub place : Node → Store → Store
place n s = s ++ n ∷ []

-- `d.n.Nlink++` and `d.n.Nlink--`
unfoldable pub raise : ℕ → Store → Store
raise d s = set s d (let n = node_at s d in record n { nlink = n.nlink + 1 })

unfoldable pub lower : ℕ → Store → Store
lower d s = set s d (let n = node_at s d in record n { nlink = n.nlink - 1 })

-- `d.add(name, n)`
unfoldable pub add : ℕ → Bytes → ℕ → Store → Store
add d name p s = set s d (
    let n = node_at s d in
    record n { children = n.children ++ record { name = name; node = p } ∷ [] })

-- The root of a new image, which stands first in the store.
unfoldable pub new_mem : ℕ → Meta → Store
new_mem now root_meta =
    let meta = resolve_meta now root_meta in
    new_node (record meta { mode = with_type meta.mode (record plain { dir = true }) }) 2 ∷ []

unfoldable pub new_child : ℕ → Store → ℕ → Bytes → Meta → FileMode → Result Node
new_child now s d name meta bits =
    if not (valid_name name) then err bad_name else elim (find name (node_at s d).children) [
      | some e ↦ err exist
      | none ↦
          let meta = resolve_meta now meta in
          ok (new_node (record meta { mode = with_type meta.mode bits }) 1)
    ]

-- The new node gets its place and its entry.
abbrev pub attach : Store → ℕ → Bytes → Result Node → Result ℕ × Store
attach s d name (err e) = (err e, s)
attach s d name (ok n) = (ok (length s), add d name (length s) (place n s))

abbrev pub attach_dir : Store → ℕ → Bytes → Result Node → Result ℕ × Store
attach_dir s d name (err e) = (err e, s)
attach_dir s d name (ok n) =
    (ok (length s), add d name (length s) (raise d (place (record n { nlink = 2 }) s)))

abbrev pub on_node : (Node → Node) → Result Node → Result Node
on_node f (err e) = err e
on_node f (ok n) = ok (f n)

unfoldable pub mkdir : ℕ → Store → ℕ → Bytes → Meta → Result ℕ × Store
mkdir now s d name meta =
    attach_dir s d name (new_child now s d name meta (record plain { dir = true }))

unfoldable pub create : ℕ → Store → ℕ → Bytes → Option Bytes → Meta → Result ℕ × Store
create now s d name c meta =
    attach s d name (on_node (λ n. record n { content = c }) (new_child now s d name meta plain))

unfoldable pub symlink : ℕ → Store → ℕ → Bytes → Bytes → Meta → Result ℕ × Store
symlink now s d name target meta = attach s d name (
    on_node (λ n. record n { link = target })
      (new_child now s d name meta (record plain { symlink = true })))

-- Without a device, pipe or socket bit the node is a block device.
unfoldable pub mknod : ℕ → Store → ℕ → Bytes → ℕ → Meta → Result ℕ × Store
mknod now s d name rdev meta =
    let m = meta.mode in
    let bits =
      if m.device || m.char_device || m.named_pipe || m.socket
      then m
      else record plain { device = true } in
    attach s d name (on_node (λ n. record n { rdev = rdev }) (new_child now s d name meta bits))

-- The target is a handle of `Create`, or `none` for a value of another type.
unfoldable pub link : Store → ℕ → Bytes → Option ℕ → Result (Unit {0}) × Store
link s d name target = if not (valid_name name) then (err bad_name, s) else elim target [
  | none ↦ (err bad_link, s)
  | some p ↦ elim (find name (node_at s d).children) [
    | some e ↦ (err exist, s)
    | none ↦ (ok tt, add d name p (raise p s))
  ]
]

unfoldable pub lookup : Store → ℕ → Bytes → Result Entry
lookup s d name = elim (find name (node_at s d).children) [ none ↦ err not_exist | some e ↦ ok e ]

-- `append(children[:i], children[i+1:]...)` at the first entry of the name.
unfoldable pub cut : Bytes → List Entry → List Entry
cut name [] = []
cut name (e ∷ es) = let rest = cut name es in if same_bytes e.name name then es else e ∷ rest

abbrev pub cut_entry : ℕ → Bytes → Store → Store
cut_entry d name s = set s d (let n = node_at s d in record n { children = cut name n.children })

abbrev pub is_empty : List Entry → Bool
is_empty [] = true
is_empty (e ∷ es) = false

unfoldable pub remove : Store → ℕ → Bytes → Result (Unit {0}) × Store
remove s d name = elim (find name (node_at s d).children) [
  | none ↦ (err not_exist, s)
  | some e ↦
      if is_dir s e.node
      then if not (is_empty (node_at s e.node).children)
        then (err not_empty, s)
        else (ok tt, cut_entry d name (lower e.node (lower d s)))
      else (ok tt, cut_entry d name (lower e.node s))
]

unfoldable pub sub_dir : Store → ℕ → Bytes → Result ℕ
sub_dir s d name = elim (find name (node_at s d).children) [
  | none ↦ err not_exist
  | some e ↦ if not (is_dir s e.node) then err not_dir else ok e.node
]

-- `AddChild`, which readers of images use: it checks the name, and not whether it is taken.
unfoldable pub add_child : Store → ℕ → Bytes → ℕ → Result (Unit {0}) × Store
add_child s d name p = if not (valid_name name) then (err bad_name, s) else (ok tt, add d name p s)
