-- ===== src/Ext/Extents/Nodes.antt =====
-- What the walk reads from the nodes that are written.
mod Tests
use fsforge.Common.{
  ℕ, zero, suc, ◌+◌, ◌-◌, ◌*◌, ◌/◌, ◌%◌, ◌^◌, ◌≤◌, ◌<◌, ◌≡◌, refl, sym, ap, ◌∙◌, not, true, false,
  ◌&&◌, ◌||◌, ltb, leb, ◌==◌, if◌then◌else◌, none, some, List, [], ◌∷◌, ◌++◌, length, Bytes, slice,
  replicate, length-replicate, u32, arith, Field, le, put_fields, get_le, safe, get_le-put_fields,
  slice-put_fields, length-put_fields, field_off, field_width, avoids, le_value, get_elem?,
  Bool-cases,
}
use fsforge.Ext.Extents.{
  ExtentLeaf, Result, ok, err, stuck, ◌>>=◌, extent_max_len, extent_header_size, extent_entry_size,
  inline_extents, i_block_size, extent_magic, header_fields, leaf_fields, put_leaves, leaf_node,
  upto, parse_leaf, parse_leaves, parse_children, child_of, parse_extents, contiguous_runs,
  build_extent_tree,
}
use mathlib.Core.Path.{subst}
use fsforge.Common.{All, le→leb}
use fsforge.Ext.Extents.Runs.{expand, AreLeaves, done, next, contiguous_runs-AreLeaves}

-- Leaves that their entries can hold: block numbers of 48 bits.
pub data AllFit : List ExtentLeaf → Type 0 where
  none_left : AllFit []
  one_fits :
      {e : ExtentLeaf} {es : List ExtentLeaf}
      → e.len ≤ extent_max_len
      → e.start < 2 ^ 48
      → AllFit es
      → AllFit (e ∷ es)

length-put_leaves :
    (off : ℕ) (es : List ExtentLeaf) (b : Bytes) → length (put_leaves off es b) ≡ length b
unfolding put_leaves
length-put_leaves off [] b = refl
length-put_leaves off (e ∷ es) b =
    length-put_leaves (off + extent_entry_size) es _ ∙ length-put_fields (leaf_fields off e) b

-- What lies before the entries stays.
slice-put_leaves :
    (o w off : ℕ) (es : List ExtentLeaf) (b : Bytes)
    → o + w ≤ off
    → slice o w (put_leaves off es b) ≡ slice o w b
unfolding put_leaves leaf_fields avoids field_off field_width
slice-put_leaves o w off [] b h = refl
slice-put_leaves o w off (e ∷ es) b h =
    slice-put_leaves o w (off + extent_entry_size) es _ (omega arith)
    ∙ slice-put_fields o w (leaf_fields off e) b (ground arith)

-- A field of the first entry.
first_entry :
    (i o w v off : ℕ) (e : ExtentLeaf) (es : List ExtentLeaf) (b : Bytes)
    → o + w ≤ off + extent_entry_size
    → off + extent_entry_size ≤ length b
    → get_elem? (leaf_fields off e) i ≡ some (le o w v)
    → safe (off + extent_entry_size) (leaf_fields off e) i (some (le o w v)) ≡ true
    → v < 256 ^ w
    → get_le w o (put_leaves off (e ∷ es) b) ≡ v
unfolding put_leaves
first_entry i o w v off e es b inside room at_i clear small =
    ap le_value (slice-put_leaves o w (off + extent_entry_size) es _ inside)
    ∙ get_le-put_fields (off + extent_entry_size) i o w v (leaf_fields off e) b room at_i clear
        small

parse_leaf-put_leaves :
    (off : ℕ) (e : ExtentLeaf) (es : List ExtentLeaf) (b : Bytes)
    → off + extent_entry_size ≤ length b
    → e.len ≤ extent_max_len
    → e.start < 2 ^ 48
    → parse_leaf (put_leaves off (e ∷ es) b) off ≡ upto e.start e.len
unfolding parse_leaf leaf_fields safe field_off field_width avoids
parse_leaf-put_leaves off e es b room short low =
    let l : get_le 2 (off + 4) (put_leaves off (e ∷ es) b) ≡ e.len =
      first_entry 1 (off + 4) 2 e.len off e es b (omega arith) room refl (ground arith)
        (omega arith) in
    let h : get_le 2 (off + 6) (put_leaves off (e ∷ es) b) ≡ e.start / u32 % 65536 =
      first_entry 2 (off + 6) 2 _ off e es b (omega arith) room refl (ground arith) (omega arith) in
    let s : get_le 4 (off + 8) (put_leaves off (e ∷ es) b) ≡ e.start % u32 =
      first_entry 3 (off + 8) 4 _ off e es b (omega arith) room refl (ground arith) (omega arith) in
    let n : ltb extent_max_len e.len ≡ false = ground arith in
    let whole : e.start / u32 % 65536 * u32 + e.start % u32 ≡ e.start = omega arith in
    rw (l, h, s, n) (ap (λ (v : ℕ). upto v e.len) whole)

parse_leaves-put_leaves :
    (off : ℕ) (es : List ExtentLeaf) (b : Bytes)
    → AllFit es
    → off + extent_entry_size * length es ≤ length b
    → parse_leaves (put_leaves off es b) off (length es) ≡ expand es
unfolding parse_leaves expand put_leaves
parse_leaves-put_leaves off [] b f room = refl
parse_leaves-put_leaves off (e ∷ es) b (one_fits short low f) room =
    let n : ltb (length (put_leaves off (e ∷ es) b)) (off + extent_entry_size) ≡ false =
      ground (arith, length-put_leaves off (e ∷ es) b) in
    rw n (
      ap
        (λ (r : List ℕ).
          r ++ parse_leaves (put_leaves off (e ∷ es) b) (off + extent_entry_size) (length es))
        (parse_leaf-put_leaves off e es b (omega arith) short low)
      ∙ ap (◌++◌ (upto e.start e.len)) (
          parse_leaves-put_leaves (off + extent_entry_size) es (put_fields (leaf_fields off e) b) f
            (omega (arith, length-put_fields (leaf_fields off e) b))))

-- A field of the header of a leaf node.
header_field :
    (i o w v size max : ℕ) (es : List ExtentLeaf)
    → o + w ≤ extent_header_size
    → extent_header_size ≤ size
    → get_elem? (header_fields (length es) max 0) i ≡ some (le o w v)
    → safe extent_header_size (header_fields (length es) max 0) i (some (le o w v)) ≡ true
    → v < 256 ^ w
    → get_le w o (leaf_node size max es) ≡ v
unfolding leaf_node
header_field i o w v size max es inside room at_i clear small =
    ap le_value (slice-put_leaves o w extent_header_size es _ inside)
    ∙ get_le-put_fields extent_header_size i o w v (header_fields (length es) max 0)
        (replicate size 0) (omega (arith, length-replicate {A = ℕ} size 0)) at_i clear small

node_leaves :
    (size max : ℕ) (es : List ExtentLeaf)
    → AllFit es
    → extent_header_size + extent_entry_size * length es ≤ size
    → parse_leaves (leaf_node size max es) extent_header_size (length es) ≡ expand es
unfolding leaf_node
node_leaves size max es f room =
    parse_leaves-put_leaves extent_header_size es
      (put_fields (header_fields (length es) max 0) (replicate size 0)) f
      (omega (
        arith,
        length-put_fields (header_fields (length es) max 0) (replicate size 0),
        length-replicate {A = ℕ} size 0,
      ))

All-first :
    (n start : ℕ) (ys : List ℕ)
    → 0 < n
    → All (λ b. b < 2 ^ 48) (upto start n ++ ys)
    → start < 2 ^ 48
unfolding upto
All-first zero start ys pos low = absurd (omega arith)
All-first (suc n) start ys pos low = low.0

All-right : (xs ys : List ℕ) → All (λ b. b < 2 ^ 48) (xs ++ ys) → All (λ b. b < 2 ^ 48) ys
All-right [] ys low = low
All-right (x ∷ xs) ys low = All-right xs ys low.1

-- The blocks that leaves begin with are among those they hold.
AreLeaves-AllFit :
    (l : ℕ) (es : List ExtentLeaf) → AreLeaves l es → All (λ b. b < 2 ^ 48) (expand es) → AllFit es
unfolding expand
AreLeaves-AllFit l [] done low = none_left
AreLeaves-AllFit l (e ∷ es) (next eq pos short rest) low =
    one_fits short (All-first e.len e.start (expand es) pos low) (
      AreLeaves-AllFit ((l + e.len) % u32) es rest (All-right (upto e.start e.len) (expand es) low))

first_child :
    (fetch : ℕ → Result Bytes) (walk : Bytes → Result (List ℕ)) (node : Bytes) (n : ℕ)
    → 0 < n
    → extent_header_size + extent_entry_size ≤ length node
    → fetch (child_of node extent_header_size) ≡ ok node
    → walk node ≡ stuck
    → parse_children fetch walk node extent_header_size n ≡ stuck
unfolding parse_children
first_child fetch walk node zero pos room self stop = absurd (omega arith)
first_child fetch walk node (suc n) pos room self stop =
    let t : ltb (length node) (extent_header_size + extent_entry_size) ≡ false = ground arith in
    rw (t, self, stop)

-- A leaf node, inline or in a block of its own, that has the room for its entries is read back as the
-- blocks of its leaves, whatever the block reader does.
pub parse_extents-leaf_node :
    (fetch : ℕ → Result Bytes) (fuel size max : ℕ) (es : List ExtentLeaf)
    → AllFit es
    → length es < 65536
    → extent_header_size + extent_entry_size * length es ≤ size
    → parse_extents fetch (suc fuel) (leaf_node size max es) ≡ ok (expand es)
unfolding parse_extents header_fields safe field_off field_width avoids
parse_extents-leaf_node fetch fuel size max es f few room =
    let m : get_le 2 0 (leaf_node size max es) ≡ extent_magic =
      header_field 0 0 2 extent_magic size max es (omega arith) (omega arith) refl refl
        (omega arith) in
    let n : get_le 2 2 (leaf_node size max es) ≡ length es % 65536 =
      header_field 1 2 2 _ size max es (omega arith) (omega arith) refl refl (omega arith) in
    let d : get_le 2 6 (leaf_node size max es) ≡ 0 =
      header_field 3 6 2 0 size max es (omega arith) (omega arith) refl refl (omega arith) in
    let k : length es % 65536 ≡ length es = omega arith in
    let read : parse_leaves (leaf_node size max es) extent_header_size (length es) ≡ expand es =
      node_leaves size max es f room in
    rw (m, d, n, k) (ap ok read)

-- The tree of a file whose blocks make at most four runs is its root alone, and reading the root gives
-- the blocks of the file back; block numbers have 48 bits.
pub parse_extents-build_extent_tree :
    {S : Type 0} (emit : S → Bytes → Result (S × ℕ)) (fetch : ℕ → Result Bytes)
    (block_size fuel : ℕ) (st : S) (blocks : List ℕ)
    → length (contiguous_runs blocks) ≤ inline_extents
    → All (λ b. b < 2 ^ 48) blocks
    → (root : Bytes) × (build_extent_tree emit block_size st blocks ≡ ok (st, root))
      × (parse_extents fetch (suc fuel) root ≡ ok blocks)
unfolding build_extent_tree
parse_extents-build_extent_tree emit fetch block_size fuel st blocks few low =
    let runs = contiguous_runs blocks in
    let c = contiguous_runs-AreLeaves blocks in
    let test : leb (length (contiguous_runs blocks)) inline_extents ≡ true = le→leb _ _ few in
    let low' : All (λ b. b < 2 ^ 48) (expand (contiguous_runs blocks)) =
      subst (λ bs. All (λ b. b < 2 ^ 48) bs) (sym c.0) low in
    (
      leaf_node i_block_size inline_extents runs,
      rw test,
      parse_extents-leaf_node fetch fuel i_block_size inline_extents runs
            (AreLeaves-AllFit 0 runs c.1 low') (omega arith) (omega arith)
          ∙ ap ok c.0,
    )

-- An index node that names itself as a child, at a depth from 1 to 5, keeps the walk going for ever:
-- no fuel is enough.
pub parse_extents_loops :
    (fetch : ℕ → Result Bytes) (fuel : ℕ) (node : Bytes)
    → get_le 2 0 node ≡ extent_magic
    → 0 < get_le 2 6 node
    → get_le 2 6 node ≤ 5
    → 0 < get_le 2 2 node
    → extent_header_size + extent_entry_size ≤ length node
    → fetch (child_of node extent_header_size) ≡ ok node
    → parse_extents fetch fuel node ≡ stuck
unfolding parse_extents
parse_extents_loops fetch zero node m deep shallow some_entry room self = refl
parse_extents_loops fetch (suc fuel) node m deep shallow some_entry room self =
    let a : not (get_le 2 0 node == extent_magic) ≡ false = ground (arith, m) in
    let b : ltb 5 (get_le 2 6 node) ≡ false = ground arith in
    let c : get_le 2 6 node == 0 ≡ false = ground arith in
    rw (a, b, c)
      (first_child fetch (parse_extents fetch fuel) node (get_le 2 2 node) some_entry room self
        (parse_extents_loops fetch fuel node m deep shallow some_entry room self))
