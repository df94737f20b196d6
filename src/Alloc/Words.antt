-- ===== src/Alloc/Words.antt =====
-- The bits of one word: the masks and the scans for its lowest set or clear bit.
use fsforge.Common.{
  ℕ, zero, suc, ◌≤◌, ◌<◌, ◌≡◌, refl, Bool, true, false, not, [], ◌∷◌, length, get_or, arith,
}
use fsforge.Alloc.{Word, fill_low, trailing, has_bit}

pub length-fill_low : (v : Bool) (k : ℕ) (w : Word) → length (fill_low v k w) ≡ length w
unfolding fill_low
length-fill_low v zero w = refl
length-fill_low v (suc k) [] = refl
length-fill_low v (suc k) (x ∷ w) = omega (arith, length-fill_low v k w)

pub get_or-fill_low_lt :
    (v : Bool) (k : ℕ) (w : Word) (j : ℕ)
    → j < k
    → j < length w
    → get_or (fill_low v k w) j false ≡ v
unfolding fill_low
get_or-fill_low_lt v zero w j h l = elim h [ ]
get_or-fill_low_lt v (suc k) [] j h l = elim l [ ]
get_or-fill_low_lt v (suc k) (x ∷ w) zero h l = refl
get_or-fill_low_lt v (suc k) (x ∷ w) (suc j) h l =
    get_or-fill_low_lt v k w j (omega arith) (omega arith)

pub get_or-fill_low_ge :
    (v : Bool) (k : ℕ) (w : Word) (j : ℕ)
    → k ≤ j
    → get_or (fill_low v k w) j false ≡ get_or w j false
unfolding fill_low
get_or-fill_low_ge v zero w j h = refl
get_or-fill_low_ge v (suc k) [] j h = refl
get_or-fill_low_ge v (suc k) (x ∷ w) zero h = elim h [ ]
get_or-fill_low_ge v (suc k) (x ∷ w) (suc j) h = get_or-fill_low_ge v k w j (omega arith)

-- A word with a bit `v` has its lowest one at `trailing`.
pub trailing_lem :
    (v : Bool) (w : Word)
    → has_bit v w ≡ true
    → (trailing v w < length w) × (get_or w (trailing v w) false ≡ v)
unfolding has_bit trailing
trailing_lem true [] h = ground arith
trailing_lem true (true ∷ w) h = (omega arith, refl)
trailing_lem true (false ∷ w) h = let (a, b) = trailing_lem true w h in (omega arith, b)
trailing_lem false [] h = ground arith
trailing_lem false (false ∷ w) h = (omega arith, refl)
trailing_lem false (true ∷ w) h = let (a, b) = trailing_lem false w h in (omega arith, b)

-- Below it every bit is the other value.
pub below_trailing : (v : Bool) (w : Word) (j : ℕ) → j < trailing v w → get_or w j false ≡ not v
unfolding trailing
below_trailing true [] j h = elim h [ ]
below_trailing true (true ∷ w) j h = elim h [ ]
below_trailing true (false ∷ w) zero h = refl
below_trailing true (false ∷ w) (suc j) h = below_trailing true w j (omega arith)
below_trailing false [] j h = elim h [ ]
below_trailing false (false ∷ w) j h = elim h [ ]
below_trailing false (true ∷ w) zero h = refl
below_trailing false (true ∷ w) (suc j) h = below_trailing false w j (omega arith)

pub no_bit :
    (v : Bool) (w : Word) (j : ℕ) → has_bit v w ≡ false → j < length w → get_or w j false ≡ not v
unfolding has_bit
no_bit v [] j h l = elim l [ ]
no_bit true (true ∷ w) j h l = ground arith
no_bit true (false ∷ w) zero h l = refl
no_bit true (false ∷ w) (suc j) h l = no_bit true w j h (omega arith)
no_bit false (false ∷ w) j h l = ground arith
no_bit false (true ∷ w) zero h l = refl
no_bit false (true ∷ w) (suc j) h l = no_bit false w j h (omega arith)
