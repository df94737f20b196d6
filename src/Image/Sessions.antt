-- ===== src/Image/Sessions.antt =====
-- The editing of an image as steps: whoever edits has the handles that the operations gave out, of
-- directories (Root, Mkdir, SubDir) and of files (Create), and calls any operation with them in any order.
-- A handle is kept after its directory or file was removed, as in the code.
pub mod Grows
pub mod Handles
pub mod Reached
use fsforge.Common.{
  ℕ, ◌<◌, ◌≡◌, Bool, false, Option, none, some, List, [], ◌∷◌, length, get_or, Bytes,
}
use fsforge.Image.{
  Meta, Store, Result, ok, err, new_mem, mkdir, create, symlink, mknod, link, remove, sub_dir,
}

pub record Session : Type 0 where
  pub tree : Store
  pub dirs : List ℕ
  pub files : List ℕ

-- What an operation returns: a handle more, if it made one.
abbrev pub handle : Result ℕ → List ℕ → List ℕ
handle (ok p) ps = p ∷ ps
handle (err e) ps = ps

abbrev pub with_dir : Session → Result ℕ × Store → Session
with_dir w (r, t) = record w { tree = t; dirs = handle r w.dirs }

abbrev pub with_file : Session → Result ℕ × Store → Session
with_file w (r, t) = record w { tree = t; files = handle r w.files }

-- A new image and the handle of its root.
abbrev pub start : ℕ → Meta → Session
start now meta = record { tree = new_mem now meta; dirs = 0 ∷ []; files = [] }

abbrev pub dir_handle : Session → ℕ → ℕ
dir_handle w i = get_or w.dirs i 0

abbrev pub file_handle : Session → ℕ → ℕ
file_handle w i = get_or w.files i 0

-- One call through directory handle `i`. A device, pipe or socket is made without the directory bit.
pub data Step : Session → Session → Type 0 where
  mkdir_step :
      (w : Session) (i now : ℕ) (name : Bytes) (meta : Meta)
      → i < length w.dirs
      → Step w (with_dir w (mkdir now w.tree (dir_handle w i) name meta))
  create_step :
      (w : Session) (i now : ℕ) (name : Bytes) (c : Option Bytes) (meta : Meta)
      → i < length w.dirs
      → Step w (with_file w (create now w.tree (dir_handle w i) name c meta))
  symlink_step :
      (w : Session) (i now : ℕ) (name target : Bytes) (meta : Meta)
      → i < length w.dirs
      → Step w (record w { tree = (symlink now w.tree (dir_handle w i) name target meta).1 })
  mknod_step :
      (w : Session) (i now : ℕ) (name : Bytes) (rdev : ℕ) (meta : Meta)
      → i < length w.dirs
      → meta.mode.dir ≡ false
      → Step w (record w { tree = (mknod now w.tree (dir_handle w i) name rdev meta).1 })
  link_step :
      (w : Session) (i j : ℕ) (name : Bytes)
      → i < length w.dirs
      → j < length w.files
      → Step w (record w { tree = (link w.tree (dir_handle w i) name (some (file_handle w j))).1 })
  link_other :
      (w : Session) (i : ℕ) (name : Bytes)
      → i < length w.dirs
      → Step w (record w { tree = (link w.tree (dir_handle w i) name none).1 })
  remove_step :
      (w : Session) (i : ℕ) (name : Bytes)
      → i < length w.dirs
      → Step w (record w { tree = (remove w.tree (dir_handle w i) name).1 })
  sub_dir_step :
      (w : Session) (i : ℕ) (name : Bytes)
      → i < length w.dirs
      → Step w (record w { dirs = handle (sub_dir w.tree (dir_handle w i) name) w.dirs })

pub data Reach (v : Session) : Session → Type 0 where
  here : Reach v v
  next : {w u : Session} → Reach v w → Step w u → Reach v u
