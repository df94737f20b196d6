-- ===== src/Image/Sound.antt =====
-- Sound trees, and what one change of the store does to the counts.
pub mod Names
pub mod Put
pub mod Changes
pub mod Place
pub mod Frame
pub mod Attach
pub mod Operations
pub mod Removal
use fsforge.Common.{
  ℕ, ◌+◌, ◌<◌, ◌≡◌, Bool, true, ◌==◌, if◌then◌else◌, none, List, [], ◌∷◌, length, All,
}
use fsforge.Image.{Entry, Store, node_at, is_dir, valid_name, find}
use fsforge.Image.Counts.{one_if, refs, sub_dirs}

-- Entries with valid names, no name twice.
abbrev pub GoodNames : List Entry → Type 0
GoodNames [] = Unit {0}
GoodNames (e ∷ es) = (valid_name e.name ≡ true) × (find e.name es ≡ none) × GoodNames es

-- The link count that a node should have: the entries that name it (the root has one of its own), and
-- for a directory its "." and the ".." of each directory in it.
abbrev pub own_links : Store → ℕ → ℕ
own_links s q = if is_dir s q then 1 + sub_dirs (is_dir s) (node_at s q).children else 0

abbrev pub expected : ℕ → Store → ℕ → ℕ
expected root s q = refs q s + one_if (q == root) + own_links s q

-- A sound tree, in the middle of an operation: link counts may be short by `debt` and long by `over`.
pub record IsOff (root : ℕ) (s : Store) (debt over : ℕ → ℕ) : Type 0 where
  pub root_in : root < length s
  pub root_dir : is_dir s root ≡ true
  pub below : (q : ℕ) → q < length s → All (λ e. e.node < length s) (node_at s q).children
  pub names : (q : ℕ) → q < length s → GoodNames (node_at s q).children
  pub counted : (q : ℕ) → q < length s → (node_at s q).nlink + debt q ≡ expected root s q + over q

abbrev pub nothing : ℕ → ℕ
nothing q = 0

-- Every entry names a node of the store; the names of a directory are valid and distinct; each link count
-- is the number of links there are.
abbrev pub IsSound : ℕ → Store → Type 0
IsSound root s = IsOff root s nothing nothing

-- What an entry for `p` in directory `d` adds to the links of `q`.
abbrev pub gain : Store → ℕ → ℕ → ℕ → ℕ
gain s d p q = one_if (q == p) + (if q == d then one_if (is_dir s p) else 0)
