-- ===== src/Image/Lookups/Tests.antt =====
-- A directory with a file in it, made, linked to and removed; no operation leaves a count wrong.
use fsforge.Common.{
  ℕ, ◌<◌, ◌≡◌, refl, Bool, true, false, Option, none, some, List, [], ◌∷◌, length, Bytes, arith,
}
use fsforge.Modes.{plain}
use fsforge.Image.{
  Meta, err, bad_name, exist, not_empty, node_at, find, valid_name, new_mem, mkdir, create, lookup,
  remove, contains, resolve_meta, new_child, raise, lower, add, cut,
}
use fsforge.Image.Sessions.{
  Session, Reach, start, with_dir, with_file, mkdir_step, create_step, here, next,
}
use fsforge.Image.Sessions.Handles.{IsGood}
use fsforge.Image.Sessions.Reached.{Reach-IsGood}
use fsforge.Image.Lookups.{IsPlain, lookup-IsPlain}
use fsforge.Image.Lookups.Made.{IsCreated, create-lookup, IsRemoved, remove-lookup}

abbrev some_meta : Meta
some_meta = record { mode = plain; uid = 0; gid = 0; mod_time = none; xattrs = [] }

abbrev name_a : Bytes
name_a = 97 ∷ []

abbrev name_b : Bytes
name_b = 98 ∷ []

abbrev hello : Option Bytes
hello = some (104 ∷ 105 ∷ [])

-- "a" is a directory, "b" a file in it and in the root.
abbrev first_session : Session
first_session = start 7 some_meta

abbrev with_a : Session
with_a = with_dir first_session (mkdir 7 first_session.tree 0 name_a some_meta)

abbrev with_b : Session
with_b = with_file with_a (create 7 with_a.tree 1 name_b hello some_meta)

-- The second call goes through the handle that the first one gave.
reached_b : Reach first_session with_b
unfolding mkdir create new_mem new_child valid_name contains find add raise resolve_meta
    fsforge.Common.same_bytes
reached_b =
    next (next here (mkdir_step first_session 0 7 name_a some_meta (omega arith)))
      (create_step with_a 0 7 name_b hello some_meta (omega arith))

Reach-IsGood_example : IsGood with_b
Reach-IsGood_example = Reach-IsGood 7 some_meta with_b reached_b

lookup-IsPlain_example : IsPlain name_b × (name_b ≡ name_b) × (2 < length with_b.tree)
unfolding mkdir create new_mem new_child valid_name contains find add raise resolve_meta
    fsforge.Common.same_bytes lookup
lookup-IsPlain_example =
    lookup-IsPlain 7 some_meta with_b 0 name_b (record { name = name_b; node = 2 }) reached_b
      (omega arith) refl

create-lookup_example :
    IsCreated with_a.tree 1 name_b hello (create 7 with_a.tree 1 name_b hello some_meta)
unfolding mkdir create new_mem new_child valid_name contains find add raise resolve_meta
    fsforge.Common.same_bytes
create-lookup_example = create-lookup 7 with_a.tree 1 name_b hello some_meta (omega arith) refl refl

remove-lookup_example : IsRemoved with_b.tree 1 name_b (remove with_b.tree 1 name_b).1
unfolding mkdir create new_mem new_child valid_name contains find add raise resolve_meta
    fsforge.Common.same_bytes remove cut lower
remove-lookup_example =
    remove-lookup 0 with_b.tree 1 name_b (Reach-IsGood 7 some_meta with_b reached_b).sound
      (omega arith, refl) refl

-- A directory that is not empty stays, and a name that is taken is refused.
full_dir : (remove with_b.tree 0 name_a).0 ≡ err not_empty
unfolding mkdir create new_mem new_child valid_name contains find add raise resolve_meta
    fsforge.Common.same_bytes remove cut lower
full_dir = refl

taken_name : (create 7 with_b.tree 1 name_b hello some_meta).0 ≡ err exist
unfolding mkdir create new_mem new_child valid_name contains find add raise resolve_meta
    fsforge.Common.same_bytes
taken_name = refl

bad_parent : (mkdir 7 with_b.tree 1 (46 ∷ 46 ∷ []) some_meta).0 ≡ err bad_name
unfolding mkdir create new_mem new_child valid_name contains find add raise resolve_meta
    fsforge.Common.same_bytes
bad_parent = refl

-- The root and "a" in it: two links and one more for the ".." in "a".
root_links : (node_at with_b.tree 0).nlink ≡ 3
unfolding mkdir create new_mem new_child valid_name contains find add raise resolve_meta
    fsforge.Common.same_bytes
root_links = refl
