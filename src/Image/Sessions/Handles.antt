-- ===== src/Image/Sessions/Handles.antt =====
-- A session whose tree is sound and whose handles are good stays so at a step.
use fsforge.Common.{
  ℕ, zero, suc, ◌+◌, ◌<◌, ◌≡◌, refl, ap, ◌∙◌, true, false, List, [], ◌∷◌, length, All, Bytes, arith,
}
use fsforge.Image.{
  Meta, Node, Store, Result, ok, err, node_at, raise, place, attach, attach_dir, new_mem,
}
use fsforge.Image.Counts.{refs, sub_dirs, count}
use fsforge.Image.Sound.{IsSound, nothing, GoodNames, expected}
use fsforge.Image.Sound.Attach.{IsDirIn, IsFresh, IfOk, is_dir-place_new}
use fsforge.Image.Sound.Operations.{IsFileIn}
use fsforge.Image.Counts.{length-place}
use fsforge.Image.Sound.Frame.{is_dir-add, is_dir-raise, length-add, length-raise}
use fsforge.Image.Sessions.Grows.{Grows}
use fsforge.Image.Sessions.{Session, start, with_dir, with_file, handle}

-- A sound tree, and handles that are of directories and of files of it.
pub record IsGood (w : Session) : Type 0 where
  pub sound : IsSound 0 w.tree
  pub all_dirs : All (IsDirIn w.tree) w.dirs
  pub all_files : All (IsFileIn w.tree) w.files

only_zero : (P : ℕ → Type 0) → P 0 → (q : ℕ) → q < 1 → P q
only_zero P p zero l = p
only_zero P p (suc q) l = absurd (omega arith)

start-IsSound : (now : ℕ) (meta : Meta) → IsSound 0 (new_mem now meta)
unfolding new_mem refs sub_dirs count
start-IsSound now meta = record {
  root_in = omega arith;
  root_dir = refl;
  below = only_zero (λ q. All (λ e. e.node < 1) (node_at (new_mem now meta) q).children) tt;
  names = only_zero (λ q. GoodNames (node_at (new_mem now meta) q).children) tt;
  counted =
      only_zero
        (λ q.
          (node_at (new_mem now meta) q).nlink + nothing q
          ≡ expected 0 (new_mem now meta) q + nothing q)
        refl;
}

pub start-IsGood : (now : ℕ) (meta : Meta) → IsGood (start now meta)
unfolding new_mem
start-IsGood now meta = record {
  sound = start-IsSound now meta;
  all_dirs = ((omega arith, refl), tt);
  all_files = tt;
}

dirs-kept : (s t : Store) (ps : List ℕ) → Grows s t → All (IsDirIn s) ps → All (IsDirIn t) ps
dirs-kept s t [] g h = tt
dirs-kept s t (p ∷ ps) g h =
    let l = h.0.0 in
    let m = g.longer in ((omega arith, g.same_kind p l ∙ h.0.1), dirs-kept s t ps g h.1)

files-kept : (s t : Store) (ps : List ℕ) → Grows s t → All (IsFileIn s) ps → All (IsFileIn t) ps
files-kept s t [] g h = tt
files-kept s t (p ∷ ps) g h =
    let l = h.0.0 in
    let m = g.longer in ((omega arith, g.same_kind p l ∙ h.0.1), files-kept s t ps g h.1)

-- A step that gives out no handle.
pub plain_step :
    (w : Session) (t : Store)
    → IsGood w
    → Grows w.tree t
    → IsSound 0 t
    → IsGood (record w { tree = t })
plain_step w t g grows sound = record {
  sound = sound;
  all_dirs = dirs-kept w.tree t w.dirs grows g.all_dirs;
  all_files = files-kept w.tree t w.files grows g.all_files;
}

pub attach-handle :
    (s : Store) (d : ℕ) (name : Bytes) (r : Result Node)
    → d < length s
    → IfOk (IsFresh s d name false) r
    → IfOk (IsFileIn (attach s d name r).1) (attach s d name r).0
attach-handle s d name (err e) l f = tt
attach-handle s d name (ok n) l f =
    let len = length-place s n in
    let len2 = length-add (place n s) d (length s) name in
    let same = is_dir-add (place n s) d (length s) name (omega arith) in
    (omega arith, ap (λ g. g (length s)) same ∙ is_dir-place_new s n false f.kind)

pub attach_dir-handle :
    (s : Store) (d : ℕ) (name : Bytes) (r : Result Node)
    → d < length s
    → IfOk (IsFresh s d name true) r
    → IfOk (IsDirIn (attach_dir s d name r).1) (attach_dir s d name r).0
attach_dir-handle s d name (err e) l f = tt
attach_dir-handle s d name (ok n) l f =
    let p = length s in
    let m : Node = record n { nlink = 2 } in
    let s2 = place m s in
    let len = length-place s m in
    let len2 = length-raise s2 d in
    let len3 = length-add (raise d s2) d p name in
    let same = is_dir-add (raise d s2) d p name (omega arith) in
    let same2 = is_dir-raise s2 d (omega arith) in
    (omega arith, ap (λ g. g p) (same ∙ same2) ∙ is_dir-place_new s m true f.kind)

pub handle-All :
    (P : ℕ → Type 0) (r : Result ℕ) (ps : List ℕ) → IfOk P r → All P ps → All P (handle r ps)
handle-All P (ok p) ps h a = (h, a)
handle-All P (err e) ps h a = a

pub dir_step :
    (w : Session) (r : Result ℕ × Store)
    → IsGood w
    → Grows w.tree r.1
    → IsSound 0 r.1
    → IfOk (IsDirIn r.1) r.0
    → IsGood (with_dir w r)
dir_step w (r, t) g grows sound h = record {
  sound = sound;
  all_dirs = handle-All (IsDirIn t) r w.dirs h (dirs-kept w.tree t w.dirs grows g.all_dirs);
  all_files = files-kept w.tree t w.files grows g.all_files;
}

pub file_step :
    (w : Session) (r : Result ℕ × Store)
    → IsGood w
    → Grows w.tree r.1
    → IsSound 0 r.1
    → IfOk (IsFileIn r.1) r.0
    → IsGood (with_file w r)
file_step w (r, t) g grows sound h = record {
  sound = sound;
  all_dirs = dirs-kept w.tree t w.dirs grows g.all_dirs;
  all_files = handle-All (IsFileIn t) r w.files h (files-kept w.tree t w.files grows g.all_files);
}
