-- ===== src/Ext/Extents.antt =====
-- pkg/ext/extents.go: runs of blocks as extents, the extent nodes, and the walk that reads them back.
-- Block numbers are far below 2^64, so `data[j-1]+1` does not wrap; the logical block keeps 32 bits.
-- Allocating and writing a node is `emit`, reading a block is `fetch`: the disk layouter's. The walk runs
-- on fuel, which says how deep it may recurse.
pub mod Runs
pub mod Nodes
use fsforge.Common.{
  ℕ, zero, suc, ◌+◌, ◌-◌, ◌*◌, ◌/◌, ◌%◌, ◌^◌, min, Bool, true, false, not, ltb, leb, ◌==◌,
  if◌then◌else◌, Option, none, some, List, [], ◌∷◌, ◌++◌, length, take, drop, Bytes, slice,
  replicate, u32, Field, le, put_fields, get_le,
}

abbrev pub extent_header_size : ℕ
extent_header_size = 12

abbrev pub extent_entry_size : ℕ
extent_entry_size = 12

abbrev pub inline_extents : ℕ
inline_extents = 4

abbrev pub max_extent_depth : ℕ
max_extent_depth = 5

abbrev pub extent_magic : ℕ
extent_magic = 62218

abbrev pub extent_max_len : ℕ
extent_max_len = 32768

-- 15 block pointers of four bytes.
abbrev pub i_block_size : ℕ
i_block_size = 60

pub data Error : Type 0 where
  extent_depth bad_extent disk_error : Error

-- `stuck` where the fuel ran out.
pub data Result {ℓ} (A : Type ℓ) : Type ℓ where
  ok : A → Result A
  err : Error → Result A
  stuck : Result A

infixl 5 ◌>>=◌
abbrev pub ◌>>=◌ {ℓ κ} : {A : Type ℓ} {B : Type κ} → Result A → (A → Result B) → Result B
ok a >>= f = f a
err e >>= f = err e
stuck >>= f = stuck

pub record ExtentLeaf : Type 0 where
  pub logical : ℕ
  pub len : ℕ
  pub start : ℕ

pub record ExtentIndex : Type 0 where
  pub logical : ℕ
  pub child : ℕ

-- How many further blocks follow `prev` one by one.
unfoldable pub consecutive : ℕ → List ℕ → ℕ
consecutive prev [] = 0
consecutive prev (x ∷ xs) = let more = consecutive x xs in if x == prev + 1 then suc more else 0

-- A run of `run_len` blocks in leaves of at most `extent_max_len`.
unfoldable pub split_run : ℕ → ℕ → ℕ → ℕ → List ExtentLeaf
split_run zero run_len logical phys = []
split_run (suc fuel) run_len logical phys =
    let clen = min run_len extent_max_len in
    let rest = split_run fuel (run_len - clen) ((logical + clen) % u32) (phys + clen) in
    if run_len == 0 then [] else record { logical = logical; len = clen; start = phys } ∷ rest

unfoldable pub runs_loop : ℕ → ℕ → List ℕ → List ExtentLeaf
runs_loop zero logical blocks = []
runs_loop (suc fuel) logical [] = []
runs_loop (suc fuel) logical (x ∷ xs) =
    let run_len = suc (consecutive x xs) in
    split_run run_len run_len logical x
    ++ runs_loop fuel ((logical + run_len) % u32) (drop (consecutive x xs) xs)

-- Each round takes a block, so as much fuel as there are blocks is enough.
unfoldable pub contiguous_runs : List ℕ → List ExtentLeaf
contiguous_runs blocks = runs_loop (length blocks) 0 blocks

unfoldable pub entries_per_node : ℕ → ℕ
entries_per_node block_size = (block_size - extent_header_size) / extent_entry_size

unfoldable pub header_fields : ℕ → ℕ → ℕ → List Field
header_fields entries max depth =
    le 0 2 extent_magic
    ∷ le 2 2 (entries % 65536)
    ∷ le 4 2 (max % 65536)
    ∷ le 6 2 depth
    ∷ le 8 4 0
    ∷ []

unfoldable pub leaf_fields : ℕ → ExtentLeaf → List Field
leaf_fields off e =
    le off 4 e.logical
    ∷ le (off + 4) 2 e.len
    ∷ le (off + 6) 2 (e.start / u32 % 65536)
    ∷ le (off + 8) 4 (e.start % u32)
    ∷ []

unfoldable pub index_fields : ℕ → ExtentIndex → List Field
index_fields off e =
    le off 4 e.logical
    ∷ le (off + 4) 4 (e.child % u32)
    ∷ le (off + 8) 2 (e.child / u32 % 65536)
    ∷ le (off + 10) 2 0
    ∷ []

-- The entries one after the other, from an offset on.
unfoldable pub put_leaves : ℕ → List ExtentLeaf → Bytes → Bytes
put_leaves off [] b = b
put_leaves off (e ∷ es) b =
    put_leaves (off + extent_entry_size) es (put_fields (leaf_fields off e) b)

unfoldable pub put_indexes : ℕ → List ExtentIndex → Bytes → Bytes
put_indexes off [] b = b
put_indexes off (e ∷ es) b =
    put_indexes (off + extent_entry_size) es (put_fields (index_fields off e) b)

-- A node of `size` bytes.
unfoldable pub leaf_node : ℕ → ℕ → List ExtentLeaf → Bytes
leaf_node size max es =
    put_leaves extent_header_size es
      (put_fields (header_fields (length es) max 0) (replicate size 0))

unfoldable pub index_node : ℕ → ℕ → ℕ → List ExtentIndex → Bytes
index_node size max depth es =
    put_indexes extent_header_size es
      (put_fields (header_fields (length es) max depth) (replicate size 0))

unfoldable pub upto : ℕ → ℕ → List ℕ
upto start zero = []
upto start (suc n) = start ∷ upto (start + 1) n

-- The blocks of the leaf entry at an offset; a longer length marks an uninitialised extent.
unfoldable pub parse_leaf : Bytes → ℕ → List ℕ
parse_leaf node o =
    let len = get_le 2 (o + 4) node in
    let len = if ltb extent_max_len len then len - extent_max_len else len in
    upto (get_le 2 (o + 6) node * u32 + get_le 4 (o + 8) node) len

unfoldable pub parse_leaves : Bytes → ℕ → ℕ → List ℕ
parse_leaves node o zero = []
parse_leaves node o (suc n) =
    let rest = parse_leaves node (o + extent_entry_size) n in
    if ltb (length node) (o + extent_entry_size) then [] else parse_leaf node o ++ rest

unfoldable pub child_of : Bytes → ℕ → ℕ
child_of node o = get_le 2 (o + 8) node * u32 + get_le 4 (o + 4) node

module _ (fetch : ℕ → Result Bytes) where
  -- The entries of an index node, `walk` being the call for a child.
  unfoldable pub parse_children : (Bytes → Result (List ℕ)) → Bytes → ℕ → ℕ → Result (List ℕ)
  parse_children walk node o zero = ok []
  parse_children walk node o (suc n) =
      let rest = parse_children walk node (o + extent_entry_size) n in
      if ltb (length node) (o + extent_entry_size)
      then ok []
      else fetch (child_of node o) >>= λ buf. walk buf >>= λ sub. rest >>= λ more. ok (sub ++ more)

  unfoldable pub parse_extents : ℕ → Bytes → Result (List ℕ)
  parse_extents zero node = stuck
  parse_extents (suc fuel) node =
      let walk = parse_extents fuel in
      if not (get_le 2 0 node == extent_magic)
      then err bad_extent
      else if ltb max_extent_depth (get_le 2 6 node)
      then err extent_depth
      else if get_le 2 6 node == 0
      then ok (parse_leaves node extent_header_size (get_le 2 2 node))
      else parse_children walk node extent_header_size (get_le 2 2 node)

-- The layouter's part: its state, and `emit`, which allocates a block, writes the node and gives its number.
module _ {S : Type 0} (emit : S → Bytes → Result (S × ℕ)) (block_size : ℕ) where
  unfoldable pub emit_leaf_nodes : ℕ → ℕ → S → List ExtentLeaf → Result (S × List ExtentIndex)
  emit_leaf_nodes fuel per_node st [] = ok (st, [])
  emit_leaf_nodes zero per_node st (e ∷ es) = stuck
  emit_leaf_nodes (suc fuel) per_node st (e ∷ es) =
      let rest = emit_leaf_nodes fuel per_node in
      emit st (leaf_node block_size per_node (take per_node (e ∷ es))) >>= λ p.
      rest p.0 (drop per_node (e ∷ es)) >>= λ q.
      ok (q.0, record { logical = e.logical; child = p.1 } ∷ q.1)

  unfoldable pub emit_index_nodes : ℕ → ℕ → ℕ → S → List ExtentIndex → Result (S × List ExtentIndex)
  emit_index_nodes fuel per_node depth st [] = ok (st, [])
  emit_index_nodes zero per_node depth st (e ∷ es) = stuck
  emit_index_nodes (suc fuel) per_node depth st (e ∷ es) =
      let rest = emit_index_nodes fuel per_node depth in
      emit st (index_node block_size per_node depth (take per_node (e ∷ es))) >>= λ p.
      rest p.0 (drop per_node (e ∷ es)) >>= λ q.
      ok (q.0, record { logical = e.logical; child = p.1 } ∷ q.1)

  -- Levels from `depth` on; `left` counts the depths that are allowed.
  unfoldable pub build_levels : ℕ → ℕ → S → List ExtentIndex → Result (S × Bytes)
  build_levels zero depth st idx = err extent_depth
  build_levels (suc left) depth st idx =
      let next = build_levels left (suc depth) in
      if leb (length idx) inline_extents
      then ok (st, index_node i_block_size inline_extents depth idx)
      else emit_index_nodes (length idx) (entries_per_node block_size) depth st idx >>= λ p.
          next p.0 p.1

  unfoldable pub build_extent_tree : S → List ℕ → Result (S × Bytes)
  build_extent_tree st blocks =
      let leaves = contiguous_runs blocks in
      if leb (length leaves) inline_extents
      then ok (st, leaf_node i_block_size inline_extents leaves)
      else emit_leaf_nodes (length leaves) (entries_per_node block_size) st leaves >>= λ p.
          build_levels max_extent_depth 1 p.0 p.1
