-- ===== src/Common/Fields.antt =====
-- Records of fixed-width fields in a byte slice, as the code's `PutUint16`, `PutUint32`, `PutUint64` and
-- `copy` write them at fixed offsets.
use fsforge.Common.Tests.{leb, leb→le}
use fsforge.Common.Lists.{length, get_elem?, take, drop, length-take}
use fsforge.Common.Slices.{
  Bytes, overwrite, slice, le_bytes, be_bytes, le_value, be_value, length-le_bytes, length-be_bytes,
  length-overwrite, slice-overwrite_self, slice-overwrite_apart, le_read_back, be_read_back,
}
use Prim.Native.Nat.{ℕ, zero, suc, ◌+◌, ◌^◌, ◌≤◌, ◌<◌}
use mathlib.Core.Path.{◌≡◌, refl, ap, ◌∙◌, subst}
use mathlib.Core.Logic.{◌⊎◌, inl, inr}
use mathlib.Core.Bool.{Bool, true, false, ◌&&◌, ◌||◌}
use mathlib.Core.Option.{Option, none, some}
use mathlib.Core.List.{List, [], ◌∷◌}
use native.Mathlib.Omega.{arith}

-- An offset, a width, and what is written there.
pub data Field : Type 0 where
  le be : ℕ → ℕ → ℕ → Field
  raw : ℕ → ℕ → Bytes → Field

unfoldable pub field_off : Field → ℕ
field_off (le off w v) = off
field_off (be off w v) = off
field_off (raw off w p) = off

unfoldable pub field_width : Field → ℕ
field_width (le off w v) = w
field_width (be off w v) = w
field_width (raw off w p) = w

unfoldable pub field_bytes : Field → Bytes
field_bytes (le off w v) = le_bytes w v
field_bytes (be off w v) = be_bytes w v
field_bytes (raw off w p) = take w p

unfoldable pub put_field : Field → Bytes → Bytes
put_field f b = overwrite (field_off f) (field_bytes f) b

-- The fields are written in the order of the list.
unfoldable pub put_fields : List Field → Bytes → Bytes
put_fields [] b = b
put_fields (f ∷ fs) b = put_fields fs (put_field f b)

abbrev pub get_le : ℕ → ℕ → Bytes → ℕ
get_le w off b = le_value (slice off w b)

abbrev pub get_be : ℕ → ℕ → Bytes → ℕ
get_be w off b = be_value (slice off w b)

-- No field of the list touches `[off, off + w)`.
unfoldable pub avoids : ℕ → ℕ → List Field → Bool
avoids off w [] = true
avoids off w (f ∷ fs) =
    (leb (off + w) (field_off f) || leb (field_off f + field_width f) off) && avoids off w fs

pub length-field_bytes : (f : Field) → length (field_bytes f) ≤ field_width f
unfolding field_bytes field_width
length-field_bytes (le off w v) = omega (arith, length-le_bytes w v)
length-field_bytes (be off w v) = omega (arith, length-be_bytes w v)
length-field_bytes (raw off w p) = omega (arith, length-take w p)

pub length-put_fields : (fs : List Field) (b : Bytes) → length (put_fields fs b) ≡ length b
unfolding put_fields put_field
length-put_fields [] b = refl
length-put_fields (f ∷ fs) b = length-put_fields fs _ ∙ length-overwrite _ _ b

split_test : (x y : Bool) → x && y ≡ true → (x ≡ true) × (y ≡ true)
split_test true true h = (refl, refl)
split_test true false h = absurd (ground arith)
split_test false y h = absurd (ground arith)

either_side :
    (off w o k : ℕ) → leb (off + w) o || leb (o + k) off ≡ true → (off + w ≤ o) ⊎ (o + k ≤ off)
either_side off w o k h = ground arith

-- Bytes that no field touches stay.
pub slice-put_fields :
    (off w : ℕ) (fs : List Field) (b : Bytes)
    → avoids off w fs ≡ true
    → slice off w (put_fields fs b) ≡ slice off w b
unfolding avoids put_fields put_field
slice-put_fields off w [] b h = refl
slice-put_fields off w (f ∷ fs) b h =
    let t = split_test _ _ h in
    slice-put_fields off w fs _ t.1
    ∙ slice-overwrite_apart off w (field_off f) (field_bytes f) b
        (elim (either_side off w (field_off f) (field_width f) t.0) [
          | inl a ↦ inl a
          | inr a ↦ inr (omega (arith, length-field_bytes f))
        ])

-- A field that is inside the slice, with no later field over it.
unfoldable pub safe : ℕ → List Field → ℕ → Option Field → Bool
safe size fs i none = false
safe size fs i (some f) =
    leb (field_off f + field_width f) size && avoids (field_off f) (field_width f) (drop (suc i) fs)

put_split :
    (i : ℕ) (fs : List Field) (b : Bytes) (f : Field)
    → get_elem? fs i ≡ some f
    → (c : Bytes) × (put_fields fs b ≡ put_fields (drop (suc i) fs) (put_field f c))
      × (length c ≡ length b)
unfolding put_fields put_field
put_split i [] b f h = absurd (ground arith)
put_split zero (g ∷ fs) b f h = (
  b,
  ap (λ (o : Option Field). put_fields fs (put_field (elim o [ none ↦ g | some x ↦ x ]) b)) h,
  refl,
)
put_split (suc i) (g ∷ fs) b f h =
    let r = put_split i fs (put_field g b) f h in (r.0, r.1, r.2 ∙ length-overwrite _ _ b)

-- A number that fits its field is read back.
pub get_le-put_fields :
    (size i off w v : ℕ) (fs : List Field) (b : Bytes)
    → size ≤ length b
    → get_elem? fs i ≡ some (le off w v)
    → safe size fs i (some (le off w v)) ≡ true
    → v < 256 ^ w
    → get_le w off (put_fields fs b) ≡ v
unfolding safe put_field field_off field_width field_bytes
get_le-put_fields size i off w v fs b room at_i ok small =
    let t = split_test (leb (off + w) size) (avoids off w (drop (suc i) fs)) ok in
    let s = put_split i fs b (le off w v) at_i in
    ap (λ (c : Bytes). get_le w off c) s.1
    ∙ ap le_value (slice-put_fields off w (drop (suc i) fs) _ t.1)
    ∙ le_read_back w off v s.0 small (omega (arith, leb→le _ _ t.0, s.2))

pub get_be-put_fields :
    (size i off w v : ℕ) (fs : List Field) (b : Bytes)
    → size ≤ length b
    → get_elem? fs i ≡ some (be off w v)
    → safe size fs i (some (be off w v)) ≡ true
    → v < 256 ^ w
    → get_be w off (put_fields fs b) ≡ v
unfolding safe put_field field_off field_width field_bytes
get_be-put_fields size i off w v fs b room at_i ok small =
    let t = split_test (leb (off + w) size) (avoids off w (drop (suc i) fs)) ok in
    let s = put_split i fs b (be off w v) at_i in
    ap (λ (c : Bytes). get_be w off c) s.1
    ∙ ap be_value (slice-put_fields off w (drop (suc i) fs) _ t.1)
    ∙ be_read_back w off v s.0 small (omega (arith, leb→le _ _ t.0, s.2))

take-all {ℓ} : {A : Type ℓ} (xs : List A) → take (length xs) xs ≡ xs
take-all [] = refl
take-all (x ∷ xs) = ap (◌∷◌ x) (take-all xs)

pub slice-put_fields_raw :
    (size i off w : ℕ) (p : Bytes) (fs : List Field) (b : Bytes)
    → size ≤ length b
    → get_elem? fs i ≡ some (raw off w p)
    → safe size fs i (some (raw off w p)) ≡ true
    → length p ≡ w
    → slice off w (put_fields fs b) ≡ p
unfolding safe put_field field_off field_width field_bytes
slice-put_fields_raw size i off w p fs b room at_i ok whole =
    let t = split_test (leb (off + w) size) (avoids off w (drop (suc i) fs)) ok in
    let s = put_split i fs b (raw off w p) at_i in
    let e : take w p ≡ p = subst (λ k. take k p ≡ p) whole (take-all p) in
    let fits : off + length p ≤ length s.0 = omega (arith, whole, leb→le _ _ t.0, s.2) in
    ap (λ (c : Bytes). slice off w c) s.1
    ∙ slice-put_fields off w (drop (suc i) fs) (put_field (raw off w p) s.0) t.1
    ∙ ap (λ (q : Bytes). slice off w (overwrite off q s.0)) e
    ∙ subst (λ k. slice off k (overwrite off p s.0) ≡ p) whole (slice-overwrite_self off p s.0 fits)
