-- ===== src/Romfs/Reader.antt =====
-- pkg/romfs/reader.go: reading an image into a tree. Nodes stand in a store as they are made; a directory's
-- list of headers is followed from offset to offset, offsets being uint32 values.
-- A file's contents are read when they are asked for; here they are what the device has at that place.
-- The recursion runs on fuel, and no amount is enough on every image (Reader.Loops).
pub mod Names
pub mod Loops
mod Tests
use Prim.Native.Nat.{bit_or}
use fsforge.Common.{
  u32, ℕ, zero, suc, ◌+◌, ◌*◌, ◌/◌, ◌%◌, Bool, true, false, not, ◌&&◌, ◌||◌, ltb, ◌==◌,
  if◌then◌else◌, Option, none, some, List, [], ◌∷◌, length, Bytes, same_bytes, get_be,
}
use fsforge.Device.{Device, filled, at}
use fsforge.Modes.{plain}
use fsforge.Image.{Node, Store, Meta, new_node, place, valid_name, add_child}
use fsforge.Romfs.Header.{
  header_size, magic_w0, magic_w1, type_hardlink, type_dir, type_symlink, type_char, type_block,
  type_fifo, type_socket, masked, align_up, padded_name, mode_of,
}

-- `stuck` is no Go error: the recursion ran out of fuel.
pub data Error : Type 0 where
  read_failed bad_magic invalid_name stuck : Error

pub data Result (A : Type 0) : Type 0 where
  ok : A → Result A
  fail : Error → Result A

pub record Rhdr : Type 0 where
  pub next : ℕ
  pub spec : ℕ
  pub size : ℕ
  pub off : ℕ
  pub dtype : ℕ
  pub exec : Bool

-- Up to the first 0, if there is one.
unfoldable pub until_nul : Bytes → Bytes
until_nul [] = []
until_nul (c ∷ b) = let rest = until_nul b in if c == 0 then [] else c ∷ rest

-- "", "." and "..", which are passed over.
unfoldable pub is_dots : Bytes → Bool
is_dots name = same_bytes name (46 ∷ []) || same_bytes name (46 ∷ 46 ∷ []) || same_bytes name []

unfoldable pub mem : ℕ → List ℕ → Bool
mem x [] = false
mem x (y ∷ ys) = x == y || mem x ys

abbrev pub meta_of : ℕ → Bool → Meta
meta_of typ exec = record {
  mode = mode_of typ exec;
  uid = 0;
  gid = 0;
  mod_time = none;
  xattrs = [];
}

-- A directory's list: the store, the directory, the offset, the offsets seen.
abbrev pub Walk : Type 0
Walk = Store → ℕ → ℕ → List ℕ → Result Store

-- The child is added, and the list goes on at `next`.
abbrev pub attach : Walk → ℕ → ℕ → List ℕ → Bytes → ℕ → Result Store → Result Store
attach walk dir next seen name p (fail e) = fail e
attach walk dir next seen name p (ok s) =
    if valid_name name then walk (add_child s dir name p).1 dir next seen else fail invalid_name

module _ {D : Type 0} (d : Device D) (x : D) where
  unfoldable pub buffer : ℕ → ℕ → Option Bytes
  buffer n off = filled n (d.read_at x n (at off))

  unfoldable pub header : ℕ → Option Rhdr
  header off = elim (buffer header_size off) [
    | none ↦ none
    | some b ↦
        let next = get_be 4 0 b in
        some (record {
          next = next;
          spec = get_be 4 4 b;
          size = get_be 4 8 b;
          off = off;
          dtype = next % 8;
          exec = next / 8 % 2 == 1;
        })
  ]

  unfoldable pub name_at : ℕ → Option Bytes
  name_at off = elim (buffer 256 off) [ none ↦ none | some b ↦ some (until_nul b) ]

  -- `node` on a hard link is `node` on its target, under the same name.
  unfoldable pub resolve : ℕ → Rhdr → Result Rhdr
  resolve zero h = fail stuck
  resolve (suc fuel) h =
      if h.dtype == type_hardlink
      then elim (header (masked h.spec)) [ none ↦ fail read_failed | some t ↦ resolve fuel t ]
      else ok h

  -- The rest of `node`, for a header that is no hard link: the store with the node and what is in it.
  abbrev pub build : Walk → Store → Rhdr → Bytes → Result Store
  build walk s h name =
      let n = new_node (meta_of h.dtype h.exec) 1 in
      let data_off = (h.off + header_size + padded_name name) % u32 in
      if h.dtype == type_dir
      then walk (place (record n { nlink = 2 }) s) (length s) (masked h.spec) []
      else if h.dtype == type_symlink
      then elim (buffer h.size data_off) [
        | none ↦ fail read_failed
        | some target ↦ ok (place (record n { link = target }) s)
      ]
      else if h.dtype == type_char || h.dtype == type_block
      then ok (place (record n { rdev = bit_or (h.spec / 65536 * 256) (h.spec % 65536) }) s)
      else if h.dtype == type_fifo || h.dtype == type_socket
      then ok (place n s)
      else ok (
          place (record n { content = if ltb 0 h.size then buffer h.size data_off else some [] }) s)

  abbrev pub add_node : Walk → Store → ℕ → ℕ → List ℕ → Bytes → Result Rhdr → Result Store
  add_node walk s dir next seen name (fail e) = fail e
  add_node walk s dir next seen name (ok t) =
      attach walk dir next seen name (length s) (build walk s t name)

  -- The body of the loop, for a header and its name.
  abbrev pub list_entry :
      Walk → (Rhdr → Result Rhdr) → Store → ℕ → List ℕ → Rhdr → Bytes → Result Store
  list_entry walk resolved s dir seen h name =
      if is_dots name
      then walk s dir (masked h.next) seen
      else add_node walk s dir (masked h.next) seen name (resolved h)

  unfoldable pub read_dir : ℕ → Walk
  read_dir zero s dir off seen = fail stuck
  read_dir (suc fuel) s dir off seen =
      if off == 0 || mem off seen then ok s else elim (header off) [
        | none ↦ fail read_failed
        | some h ↦ elim (name_at ((off + header_size) % u32)) [
          | none ↦ fail read_failed
          | some name ↦ list_entry (read_dir fuel) (resolve fuel) s dir (off ∷ seen) h name
        ]
      ]

  abbrev pub root_node : Node
  root_node =
      new_node
        (record {
          mode = record plain { perm = 493; dir = true };
          uid = 0;
          gid = 0;
          mod_time = none;
          xattrs = [];
        })
        2

  -- `Open`
  unfoldable pub read_image : ℕ → Result Store
  read_image fuel = elim (buffer header_size 0) [
    | none ↦ fail read_failed
    | some head ↦
        if not (get_be 4 0 head == magic_w0 && get_be 4 4 head == magic_w1)
        then fail bad_magic
        else elim (name_at header_size) [
          | none ↦ fail read_failed
          | some vol ↦ elim (header (align_up ((header_size + length vol + 1) % u32))) [
            | none ↦ fail read_failed
            | some root ↦ read_dir fuel (root_node ∷ []) 0 (masked root.spec) []
          ]
        ]
  ]
