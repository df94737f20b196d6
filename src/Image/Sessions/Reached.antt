-- ===== src/Image/Sessions/Reached.antt =====
-- Every tree that is reached from a new image is sound.
use mathlib.Core.Path.{subst}
use fsforge.Common.{
  ℕ, ◌<◌, ◌≡◌, inl, inr, true, none, some, length, Bytes, arith, Bool-cases, Option-cases,
  All-get_or, some_value,
}
use fsforge.Modes.{FileMode, plain}
use fsforge.Image.{
  Meta, Entry, Store, node_at, is_dir, find, new_child, attach, attach_dir, mkdir, create, symlink,
  mknod, link, remove, sub_dir,
}
use fsforge.Image.Sound.{IsSound}
use fsforge.Image.Sound.Frame.{find-All}
use fsforge.Image.Sound.Attach.{IsDirIn, IfOk, new_child-IsFresh}
use fsforge.Image.Sound.Operations.{
  IsFileIn, mkdir-IsSound, create-IsSound, symlink-IsSound, mknod-IsSound, link-IsSound,
}
use fsforge.Image.Sound.Removal.{remove-IsSound}
use fsforge.Image.Sessions.Grows.{attach-Grows, attach_dir-Grows, link-Grows, remove-Grows}
use fsforge.Image.Sessions.{
  Session, Step, Reach, start, dir_handle, file_handle, mkdir_step, create_step, symlink_step,
  mknod_step, link_step, link_other, remove_step, sub_dir_step, here, next,
}
use fsforge.Image.Sound.Operations.{create_node, symlink_node, mknod_node, create_node-IsFresh}
use fsforge.Image.Sessions.Handles.{
  IsGood, start-IsGood, plain_step, dir_step, file_step, attach-handle, attach_dir-handle,
  handle-All,
}

pub dir_handle-IsDirIn :
    (w : Session) (i : ℕ) → IsGood w → i < length w.dirs → IsDirIn w.tree (dir_handle w i)
dir_handle-IsDirIn w i g l = All-get_or (IsDirIn w.tree) w.dirs i 0 g.all_dirs l

file_handle-IsFileIn :
    (w : Session) (j : ℕ) → IsGood w → j < length w.files → IsFileIn w.tree (file_handle w j)
file_handle-IsFileIn w j g l = All-get_or (IsFileIn w.tree) w.files j 0 g.all_files l

-- What a name finds in a directory of a sound tree stands in the store.
pub found-inside :
    (s : Store) (d : ℕ) (name : Bytes)
    → IsSound 0 s
    → d < length s
    → (e : Entry) → find name (node_at s d).children ≡ some e
    → e.node < length s
found-inside s d name i l e f =
    find-All (λ e. e.node < length s) name (node_at s d).children e (i.below d l) f

sub_dir-handle :
    (s : Store) (d : ℕ) (name : Bytes)
    → IsSound 0 s
    → d < length s
    → IfOk (IsDirIn s) (sub_dir s d name)
unfolding sub_dir
sub_dir-handle s d name i l = elim (Option-cases (find name (node_at s d).children)) [
  | inl k ↦ rw (sub_dir, k) tt
  | inr (e, k) ↦ elim (Bool-cases (is_dir s e.node)) [
    | inr t ↦ rw (sub_dir, k, t) tt
    | inl t ↦ rw (sub_dir, k, t) (found-inside s d name i l e k, t)
  ]
]

Step-IsGood : {w v : Session} → Step w v → IsGood w → IsGood v
unfolding mkdir create symlink mknod
Step-IsGood (mkdir_step w i now name meta l) g =
    let d = dir_handle w i in
    let h = dir_handle-IsDirIn w i g l in
    let bits : FileMode = record plain { dir = true } in
    let r = new_child now w.tree d name meta bits in
    let f = new_child-IsFresh now w.tree d name meta bits in
    dir_step w (attach_dir w.tree d name r) g (attach_dir-Grows w.tree d name r h.0)
      (mkdir-IsSound 0 now w.tree d name meta g.sound h) (attach_dir-handle w.tree d name r h.0 f)
Step-IsGood (create_step w i now name c meta l) g =
    let d = dir_handle w i in
    let h = dir_handle-IsDirIn w i g l in
    let r = create_node now w.tree d name c meta in
    file_step w (attach w.tree d name r) g (attach-Grows w.tree d name r h.0)
      (create-IsSound 0 now w.tree d name c meta g.sound h)
      (attach-handle w.tree d name r h.0 (create_node-IsFresh now w.tree d name c meta))
Step-IsGood (symlink_step w i now name target meta l) g =
    let d = dir_handle w i in
    let h = dir_handle-IsDirIn w i g l in
    let r = symlink_node now w.tree d name target meta in
    plain_step w (attach w.tree d name r).1 g (attach-Grows w.tree d name r h.0)
      (symlink-IsSound 0 now w.tree d name target meta g.sound h)
Step-IsGood (mknod_step w i now name rdev meta l file) g =
    let d = dir_handle w i in
    let h = dir_handle-IsDirIn w i g l in
    let r = mknod_node now w.tree d name rdev meta in
    plain_step w (attach w.tree d name r).1 g (attach-Grows w.tree d name r h.0)
      (mknod-IsSound 0 now w.tree d name rdev meta file g.sound h)
Step-IsGood (link_step w i j name l m) g =
    let d = dir_handle w i in
    let p = file_handle w j in
    let h = dir_handle-IsDirIn w i g l in
    let f = file_handle-IsFileIn w j g m in
    plain_step w (link w.tree d name (some p)).1 g
      (link-Grows w.tree d name (some p) h.0
        λ q e. subst (λ q. q < length w.tree) (some_value p q e) f.0)
      (link-IsSound 0 w.tree d name (some p) g.sound h
        λ q e. subst (IsFileIn w.tree) (some_value p q e) f)
Step-IsGood (link_other w i name l) g =
    let d = dir_handle w i in
    let h = dir_handle-IsDirIn w i g l in
    plain_step w (link w.tree d name none).1 g
      (link-Grows w.tree d name none h.0 λ q e. absurd (ground arith))
      (link-IsSound 0 w.tree d name none g.sound h λ q e. absurd (ground arith))
Step-IsGood (remove_step w i name l) g =
    let d = dir_handle w i in
    let h = dir_handle-IsDirIn w i g l in
    plain_step w (remove w.tree d name).1 g
      (remove-Grows w.tree d name h.0 (found-inside w.tree d name g.sound h.0))
      (remove-IsSound 0 w.tree d name g.sound h)
Step-IsGood (sub_dir_step w i name l) g =
    let d = dir_handle w i in
    let h = dir_handle-IsDirIn w i g l in
    record {
      sound = g.sound;
      all_dirs =
          handle-All (IsDirIn w.tree) (sub_dir w.tree d name) w.dirs
            (sub_dir-handle w.tree d name g.sound h.0) g.all_dirs;
      all_files = g.all_files;
    }

-- Start from a new image and call, in any order, any operations through the handles that they give out,
-- making no device, pipe or socket whose mode also has the directory bit: then every tree on the way is
-- sound. Each entry names a node of the tree; the names in a directory are valid and distinct; and each
-- link count is the number of links, entries, "." and ".." counted, also for what was removed.
pub Reach-IsGood : (now : ℕ) (meta : Meta) (w : Session) → Reach (start now meta) w → IsGood w
Reach-IsGood now meta w here = start-IsGood now meta
Reach-IsGood now meta w (next {w = v} r step) = Step-IsGood step (Reach-IsGood now meta v r)
