-- ===== src/Alloc/View.antt =====
-- What a bitmap means: which blocks are in use; and what keeps a bitmap sound.
use fsforge.Common.{
  u64, ℕ, ◌+◌, ◌*◌, ◌/◌, ◌%◌, ◌≤◌, ◌<◌, ◌≡◌, Bool, true, false, List, [], length, get_or, All,
}
use fsforge.Alloc.{Bitmap, Word}

-- Bit `j % 64` of word `j / 64`.
abbrev pub bit_at : List Word → ℕ → Bool
bit_at ws j = get_or (get_or ws (j / 64) []) (j % 64) false

abbrev pub is_used : Bitmap → ℕ → Bool
is_used b j = bit_at b.bits j

-- The blocks that the words have a bit for: the managed ones and the padding of the last word.
abbrev pub capacity : Bitmap → ℕ
capacity b = length b.bits * 64

abbrev pub IsWide : List Word → Type 0
IsWide ws = All (λ w. length w ≡ 64) ws

pub record IsValid (b : Bitmap) : Type 0 where
  pub words : length b.bits ≡ (b.total + 63) / 64
  pub wide : IsWide b.bits
  pub fits : b.total + 63 < u64
  pub hint_le : b.hint ≤ b.total
  pub padding : (j : ℕ) → b.total ≤ j → j < length b.bits * 64 → is_used b j ≡ true
  pub below_hint : (j : ℕ) → j < b.hint → is_used b j ≡ true

-- The blocks of `[start, start + n)` are free.
abbrev pub FreeRun : Bitmap → ℕ → ℕ → Type 0
FreeRun b start n = (j : ℕ) → start ≤ j → j < start + n → is_used b j ≡ false

-- From `b` to `b'` the blocks of `[start, start + n)` become `v`, and no other block changes.
abbrev pub Becomes : Bool → ℕ → ℕ → Bitmap → Bitmap → Type 0
Becomes v start n b b' =
    ((j : ℕ) → start ≤ j → j < start + n → is_used b' j ≡ v)
    × ((j : ℕ) → j < start → is_used b' j ≡ is_used b j)
    × ((j : ℕ) → start + n ≤ j → is_used b' j ≡ is_used b j)
