-- ===== src/Ext/Extents/Nodes/Tests.antt =====
-- Runs and extents at concrete inputs.
use fsforge.Common.{le_value}
use fsforge.Common.{ℕ, ◌≡◌, refl, List, [], ◌∷◌, Bytes, arith}
use fsforge.Ext.Extents.{
  ExtentLeaf, Result, ok, err, stuck, disk_error, consecutive, split_run, runs_loop,
  contiguous_runs, build_extent_tree, parse_extents,
}
use fsforge.Ext.Extents.Nodes.{parse_extents-build_extent_tree, parse_extents_loops}
use fsforge.Ext.Extents.Runs.{expand, contiguous_runs-AreLeaves, AreLeaves}

abbrev scattered : List ℕ
scattered = 10 ∷ 11 ∷ 12 ∷ 40 ∷ 20 ∷ 21 ∷ []

abbrev scattered_runs : List ExtentLeaf
scattered_runs =
    record { logical = 0; len = 3; start = 10 }
    ∷ record { logical = 3; len = 1; start = 40 }
    ∷ record { logical = 4; len = 2; start = 20 }
    ∷ []

runs : contiguous_runs scattered ≡ scattered_runs
unfolding contiguous_runs runs_loop split_run consecutive
runs = refl

contiguous_runs-AreLeaves_example :
    (expand (contiguous_runs scattered) ≡ scattered) × AreLeaves 0 (contiguous_runs scattered)
contiguous_runs-AreLeaves_example = contiguous_runs-AreLeaves scattered

-- No node but the root.
abbrev no_block : ℕ → Result Bytes
no_block n = err disk_error

abbrev no_emit : ℕ → Bytes → Result (ℕ × ℕ)
no_emit st b = err disk_error

parse_extents-build_extent_tree_example :
    (root : Bytes) × (build_extent_tree no_emit 1024 0 scattered ≡ ok (0, root))
    × (parse_extents no_block 1 root ≡ ok scattered)
unfolding contiguous_runs runs_loop split_run consecutive
parse_extents-build_extent_tree_example =
    parse_extents-build_extent_tree no_emit no_block 1024 0 0 scattered (omega arith)
      (omega arith, (omega arith, (omega arith, (omega arith, (omega arith, (omega arith, tt))))))

-- An index node at depth 1 with one entry, for block 7, in which it stands.
abbrev own_child : Bytes
own_child =
    10 ∷ 243 ∷ 1 ∷ 0 ∷ 4 ∷ 0 ∷ 1 ∷ 0 ∷ 0 ∷ 0 ∷ 0 ∷ 0 ∷ 0 ∷ 0 ∷ 0 ∷ 0 ∷ 7 ∷ 0 ∷ 0 ∷ 0 ∷ 0 ∷ 0 ∷ 0 ∷ 0
    ∷ []

abbrev only_seven : ℕ → Result Bytes
only_seven n = ok own_child

parse_extents_loops_example : parse_extents only_seven 1000 own_child ≡ stuck
unfolding le_value
parse_extents_loops_example =
    parse_extents_loops only_seven 1000 own_child refl (omega arith) (omega arith) (omega arith)
      (omega arith) refl
