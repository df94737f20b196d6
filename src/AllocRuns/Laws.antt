-- ===== src/AllocRuns/Laws.antt =====
-- The contract of an allocator, which `AllocRuns` relies on, in terms of the blocks in use.
use fsforge.Common.{u64, ℕ, ◌+◌, ◌≤◌, ◌<◌, ◌≡◌, Bool, true, false, Option, none, some}
use fsforge.Alloc.{Result, ok, err, zero_len, no_space}
use fsforge.AllocRuns.{Allocator}

-- What can be seen of an allocator's state.
pub record View (S : Type 0) : Type 1 where
  pub Valid : S → Type 0
  pub used : S → ℕ → Bool
  pub total : S → ℕ

module _ {S : Type 0} (v : View S) where
  abbrev pub IsFree : S → ℕ → ℕ → Type 0
  IsFree s start n = (j : ℕ) → start ≤ j → j < start + n → v.used s j ≡ false

  -- The run takes the value `x`, and all else stays.
  abbrev pub Sets : Bool → ℕ → ℕ → S → S → Type 0
  Sets x start n s s' =
      ((j : ℕ) → start ≤ j → j < start + n → v.used s' j ≡ x)
      × ((j : ℕ) → j < start → v.used s' j ≡ v.used s j)
      × ((j : ℕ) → start + n ≤ j → v.used s' j ≡ v.used s j)

  pub record Takes (start n : ℕ) (s s' : S) : Type 0 where
    pub valid : v.Valid s'
    pub total : v.total s' ≡ v.total s
    pub within : start + n ≤ v.total s
    pub is_free : IsFree s start n
    pub sets : Sets true start n s s'

  abbrev pub AllUsed : S → Type 0
  AllUsed s = (j : ℕ) → j < v.total s → v.used s j ≡ true

  abbrev pub ReserveLaw : ℕ → S → Result ℕ × S → Type 0
  ReserveLaw n s (ok start, s') = Takes start n s s'
  ReserveLaw n s (err zero_len, s') = (n ≡ 0) × (s' ≡ s)
  ReserveLaw n s (err no_space, s') =
      (s' ≡ s) × ((start : ℕ) → start + n ≤ v.total s → ¬ IsFree s start n)
  ReserveLaw n s (err _, s') = ⊥

  -- At most `n` blocks, and at least one; no space only where every block is in use.
  abbrev pub UpToLaw : ℕ → S → Result (ℕ × ℕ) × S → Type 0
  UpToLaw n s (ok (start, got), s') = Takes start got s s' × (0 < got) × (got ≤ n)
  UpToLaw n s (err zero_len, s') = (n ≡ 0) × (s' ≡ s)
  UpToLaw n s (err no_space, s') = (s' ≡ s) × AllUsed s
  UpToLaw n s (err _, s') = ⊥

  abbrev pub MayUpTo : Option (ℕ → S → Result (ℕ × ℕ) × S) → Type 0
  MayUpTo none = Unit
  MayUpTo (some f) = (n : ℕ) (s : S) → v.Valid s → UpToLaw n s (f n s)

  pub record Releases (start n : ℕ) (s s' : S) : Type 0 where
    pub valid : v.Valid s'
    pub total : v.total s' ≡ v.total s
    pub sets : Sets false start n s s'

  pub record IsLawful (a : Allocator S) : Type 0 where
    pub small : (s : S) → v.Valid s → v.total s < u64
    pub reserve_law : (n : ℕ) (s : S) → v.Valid s → ReserveLaw n s (a.reserve_run n s)
    pub up_to_law : MayUpTo a.up_to
    pub release_law :
        (start n : ℕ) (s : S)
        → v.Valid s
        → start + n ≤ v.total s
        → Releases start n s (a.release start n s).1
