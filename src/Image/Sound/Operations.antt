-- ===== src/Image/Sound/Operations.antt =====
-- Each operation of an editable tree keeps it sound.
use mathlib.Core.Path.{subst}
use fsforge.Common.{
  ℕ, ◌+◌, ◌<◌, ◌≡◌, refl, ap, ◌∙◌, inl, inr, Bool, true, false, ◌||◌, ◌==◌, if◌then◌else◌, Option,
  none, some, length, Bytes, arith, Bool-cases, Option-cases,
}
use fsforge.Image.{
  Meta, Node, Store, node_at, is_dir, valid_name, find, raise, add, Result, new_child, on_node,
  mkdir, create, symlink, mknod, link,
}
use fsforge.Modes.{FileMode, plain}
use fsforge.Image.Counts.{one_if}
use fsforge.Image.Sound.{IsSound, nothing}
use fsforge.Image.Sound.Changes.{raise-IsOff, add-IsOff}
use fsforge.Image.Sound.Frame.{raise-children, is_dir-raise, length-raise}
use fsforge.Image.Sound.Attach.{
  IsDirIn, IsFresh, IfOk, gain_file, attach-IsSound, attach_dir-IsSound, new_child-IsFresh,
  on_node-IsFresh,
}

-- A handle of something that is no directory, which is what Create returns.
abbrev pub IsFileIn : Store → ℕ → Type 0
IsFileIn s p = (p < length s) × (is_dir s p ≡ false)

pub mkdir-IsSound :
    (root now : ℕ) (s : Store) (d : ℕ) (name : Bytes) (meta : Meta)
    → IsSound root s
    → IsDirIn s d
    → IsSound root (mkdir now s d name meta).1
unfolding mkdir
mkdir-IsSound root now s d name meta i h =
    let bits : FileMode = record plain { dir = true } in
    attach_dir-IsSound root s d name (new_child now s d name meta bits) i h
      (new_child-IsFresh now s d name meta bits)

-- A new child that is no directory, whatever it is given to hold.
pub made-IsFresh :
    (now : ℕ) (s : Store) (d : ℕ) (name : Bytes) (meta : Meta) (bits : FileMode) (f : Node → Node)
    → bits.dir ≡ false
    → ((n : Node) → ((f n).children ≡ n.children) × ((f n).meta ≡ n.meta) × ((f n).nlink ≡ n.nlink))
    → IfOk (IsFresh s d name false) (on_node f (new_child now s d name meta bits))
made-IsFresh now s d name meta bits f file keeps =
    let r = new_child now s d name meta bits in
    on_node-IsFresh s d name false f r keeps
      (subst (λ k. IfOk (IsFresh s d name k) r) file (new_child-IsFresh now s d name meta bits))

abbrev pub create_node : ℕ → Store → ℕ → Bytes → Option Bytes → Meta → Result Node
create_node now s d name c meta =
    on_node (λ n. record n { content = c }) (new_child now s d name meta plain)

abbrev pub symlink_node : ℕ → Store → ℕ → Bytes → Bytes → Meta → Result Node
symlink_node now s d name target meta =
    on_node (λ n. record n { link = target })
      (new_child now s d name meta (record plain { symlink = true }))

pub create_node-IsFresh :
    (now : ℕ) (s : Store) (d : ℕ) (name : Bytes) (c : Option Bytes) (meta : Meta)
    → IfOk (IsFresh s d name false) (create_node now s d name c meta)
create_node-IsFresh now s d name c meta =
    made-IsFresh now s d name meta plain (λ n. record n { content = c }) refl
      λ n. (refl, refl, refl)

pub symlink_node-IsFresh :
    (now : ℕ) (s : Store) (d : ℕ) (name target : Bytes) (meta : Meta)
    → IfOk (IsFresh s d name false) (symlink_node now s d name target meta)
symlink_node-IsFresh now s d name target meta =
    made-IsFresh now s d name meta (record plain { symlink = true })
      (λ n. record n { link = target }) refl λ n. (refl, refl, refl)

-- The type bits that Mknod gives its node.
abbrev pub special_bits : FileMode → FileMode
special_bits m =
    if m.device || m.char_device || m.named_pipe || m.socket
    then m
    else record plain { device = true }

abbrev pub mknod_node : ℕ → Store → ℕ → Bytes → ℕ → Meta → Result Node
mknod_node now s d name rdev meta =
    on_node (λ n. record n { rdev = rdev }) (new_child now s d name meta (special_bits meta.mode))

chosen_dir :
    (b : Bool) (m n : FileMode) → m.dir ≡ false → n.dir ≡ false → (if b then m else n).dir ≡ false
chosen_dir true m n h k = h
chosen_dir false m n h k = k

pub mknod_node-IsFresh :
    (now : ℕ) (s : Store) (d : ℕ) (name : Bytes) (rdev : ℕ) (meta : Meta)
    → meta.mode.dir ≡ false
    → IfOk (IsFresh s d name false) (mknod_node now s d name rdev meta)
mknod_node-IsFresh now s d name rdev meta file =
    let m = meta.mode in
    made-IsFresh now s d name meta (special_bits m) (λ n. record n { rdev = rdev })
      (chosen_dir (m.device || m.char_device || m.named_pipe || m.socket) m
        (record plain { device = true }) file refl)
      λ n. (refl, refl, refl)

pub create-IsSound :
    (root now : ℕ) (s : Store) (d : ℕ) (name : Bytes) (c : Option Bytes) (meta : Meta)
    → IsSound root s
    → IsDirIn s d
    → IsSound root (create now s d name c meta).1
unfolding create
create-IsSound root now s d name c meta i h =
    attach-IsSound root s d name (create_node now s d name c meta) i h
      (create_node-IsFresh now s d name c meta)

pub symlink-IsSound :
    (root now : ℕ) (s : Store) (d : ℕ) (name target : Bytes) (meta : Meta)
    → IsSound root s
    → IsDirIn s d
    → IsSound root (symlink now s d name target meta).1
unfolding symlink
symlink-IsSound root now s d name target meta i h =
    attach-IsSound root s d name (symlink_node now s d name target meta) i h
      (symlink_node-IsFresh now s d name target meta)

pub mknod-IsSound :
    (root now : ℕ) (s : Store) (d : ℕ) (name : Bytes) (rdev : ℕ) (meta : Meta)
    → meta.mode.dir ≡ false
    → IsSound root s
    → IsDirIn s d
    → IsSound root (mknod now s d name rdev meta).1
unfolding mknod
mknod-IsSound root now s d name rdev meta file i h =
    attach-IsSound root s d name (mknod_node now s d name rdev meta) i h
      (mknod_node-IsFresh now s d name rdev meta file)

zero_more : (n : ℕ) → 0 + n ≡ n
zero_more n = omega arith

linked :
    (root : ℕ) (s : Store) (d : ℕ) (name : Bytes) (p : ℕ)
    → valid_name name ≡ true
    → find name (node_at s d).children ≡ none
    → IsSound root s
    → IsDirIn s d
    → IsFileIn s p
    → IsSound root (add d name p (raise p s))
linked root s d name p valid free i h f =
    let len = length-raise s p in
    let lt = h.0 in
    let ltp = f.0 in
    let same = is_dir-raise s p ltp in
    add-IsOff root (raise p s) d name p nothing (λ q. nothing q + one_if (q == p)) nothing
      (omega arith) (omega arith) (ap (λ g. g d) same ∙ h.1) valid
      (ap (find name) (raise-children s p d ltp) ∙ free)
      (λ q. zero_more (one_if (q == p)) ∙ gain_file (raise p s) d p q (ap (λ g. g p) same ∙ f.1))
      (raise-IsOff root s p nothing nothing ltp i)

pub link-IsSound :
    (root : ℕ) (s : Store) (d : ℕ) (name : Bytes) (target : Option ℕ)
    → IsSound root s
    → IsDirIn s d
    → ((p : ℕ) → target ≡ some p → IsFileIn s p)
    → IsSound root (link s d name target).1
unfolding link
link-IsSound root s d name target i h f = elim (Bool-cases (valid_name name)) [
  | inr e ↦ rw e i
  | inl e ↦ elim (Option-cases target) [
    | inl n ↦ rw (e, n) i
    | inr (p, j) ↦ elim (Option-cases (find name (node_at s d).children)) [
      | inr (x, k) ↦ rw (e, j, k) i
      | inl k ↦ rw (e, j, k) (linked root s d name p e k i h (f p j))
    ]
  ]
]
