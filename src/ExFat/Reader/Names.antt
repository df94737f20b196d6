-- ===== src/ExFat/Reader/Names.antt =====
-- The units of a name are read back from the entries that were made of them.
use fsforge.Common.{
  ℕ, zero, suc, ◌+◌, ◌-◌, ◌*◌, ◌^◌, min, ◌≤◌, ◌<◌, ◌≡◌, refl, sym, ap, ◌∙◌, inl, inr, true, ◌||◌,
  leb, ◌==◌, Bool-cases, List, [], ◌∷◌, ◌++◌, length, take, drop, length-take, length-drop,
  take-append-drop, drop_add, All-drop, All, Bytes, overwrite, slice, le_bytes, le_value, Field,
  field_off, field_width, field_bytes, put_field, put_fields, length-put_fields, length-overwrite,
  slice-put_fields, avoids, get_le, le_read_back, arith,
}
use fsforge.ExFat.Entries.{unit_fields, name_fields}
use fsforge.ExFat.Entries.Summed.{both_hold, joined}
use fsforge.ExFat.Reader.{take_units, name_loop}

abbrev pub Units : List ℕ → Type 0
Units us = All (λ u. u < 65536) us

ahead : (o w f k : ℕ) → o + w ≤ f → leb (o + w) f || leb (f + k) o ≡ true
ahead o w f k h = ground arith

avoids-unit_fields :
    (o w off : ℕ) (us : List ℕ) → o + w ≤ off → avoids o w (unit_fields off us) ≡ true
unfolding avoids unit_fields field_off field_width
avoids-unit_fields o w off [] h = refl
avoids-unit_fields o w off (u ∷ us) h =
    joined _ _ (ahead o w off 2 h) (avoids-unit_fields o w (off + 2) us (omega arith))

avoids-append :
    (o w : ℕ) (xs ys : List Field)
    → avoids o w xs ≡ true
    → avoids o w ys ≡ true
    → avoids o w (xs ++ ys) ≡ true
unfolding avoids
avoids-append o w [] ys h k = k
avoids-append o w (x ∷ xs) ys h k =
    let t = both_hold _ _ h in joined _ _ t.0 (avoids-append o w xs ys t.1 k)

pub avoids-name_fields :
    (o w n k : ℕ) (units : List ℕ)
    → o + w ≤ (2 + k) * 32
    → avoids o w (name_fields n k units) ≡ true
unfolding avoids name_fields field_off field_width
avoids-name_fields o w zero k units h = refl
avoids-name_fields o w (suc n) k units h = joined _ _ (ahead o w ((2 + k) * 32) 1 h) (
    avoids-append o w (unit_fields ((2 + k) * 32 + 2) (take 15 (drop (k * 15) units)))
      (name_fields n (k + 1) units) (avoids-unit_fields o w _ _ (omega arith))
      (avoids-name_fields o w n (k + 1) units (omega arith)))

put_fields-append :
    (xs ys : List Field) (b : Bytes) → put_fields (xs ++ ys) b ≡ put_fields ys (put_fields xs b)
unfolding put_fields
put_fields-append [] ys b = refl
put_fields-append (x ∷ xs) ys b = put_fields-append xs ys (put_field x b)

-- The units of a chunk, in a buffer that shows what was written there.
take_units-unit_fields :
    (us : List ℕ) (off : ℕ) (c b : Bytes)
    → Units us
    → off + 2 * length us ≤ length c
    → ((o w : ℕ)
        → off ≤ o
        → o + w ≤ off + 2 * length us
        → slice o w b ≡ slice o w (put_fields (unit_fields off us) c))
    → take_units (length us) off b ≡ us
unfolding take_units unit_fields put_fields put_field field_off field_bytes
take_units-unit_fields [] off c b small room h = refl
take_units-unit_fields (u ∷ us) off c b small room h =
    let c2 = overwrite off (le_bytes 2 u) c in
    let len = length-overwrite off (le_bytes 2 u) c in
    let bound : u < 256 ^ 2 = small.0 in
    let head : get_le 2 off b ≡ u =
      ap le_value (
        h off 2 (omega arith) (omega arith)
        ∙ slice-put_fields off 2 (unit_fields (off + 2) us) c2
            (avoids-unit_fields off 2 (off + 2) us (omega arith)))
      ∙ le_read_back 2 off u c bound (omega arith) in
    let tail =
      take_units-unit_fields us (off + 2) c2 b small.1 (omega arith)
        (λ o w lo hi. h o w (omega arith) (omega arith)) in
    ap (λ (x : ℕ). x ∷ take_units (length us) (off + 2) b) head ∙ ap (◌∷◌ u) tail

drop-short : (n : ℕ) (us : List ℕ) → length us ≤ n → drop n us ≡ []
drop-short zero [] h = refl
drop-short (suc n) [] h = refl
drop-short zero (u ∷ us) h = absurd (omega arith)
drop-short (suc n) (u ∷ us) h = drop-short n us (omega arith)

Units-take : (n : ℕ) (us : List ℕ) → Units us → Units (take n us)
Units-take zero us h = tt
Units-take (suc n) [] h = tt
Units-take (suc n) (u ∷ us) h = (h.0, Units-take n us h.1)

chunk_append :
    (k : ℕ) (us : List ℕ) → take 15 (drop (k * 15) us) ++ drop ((k + 1) * 15) us ≡ drop (k * 15) us
chunk_append k us =
    let e : (k + 1) * 15 ≡ k * 15 + 15 = omega arith in
    rw (e, drop_add (k * 15) 15 us) (take-append-drop 15 (drop (k * 15) us))

-- What the reader finds at entry `k`: the entry's type, the chunk, and the later entries behind it.
abbrev pub Shown : ℕ → ℕ → List ℕ → Bytes → Bytes → Type 0
Shown n k us c b =
    (o w : ℕ) → (2 + k) * 32 ≤ o → slice o w b ≡ slice o w (put_fields (name_fields n k us) c)

abbrev chunk_at : ℕ → List ℕ → List ℕ
chunk_at k us = take 15 (drop (k * 15) us)

abbrev chunk_fields : ℕ → List ℕ → List Field
chunk_fields k us = unit_fields ((2 + k) * 32 + 2) (chunk_at k us)

abbrev typed : ℕ → Bytes → Bytes
typed k c = overwrite ((2 + k) * 32) (le_bytes 1 193) c

put_entry :
    (n k : ℕ) (us : List ℕ) (c : Bytes)
    → put_fields (name_fields (suc n) k us) c
      ≡ put_fields (name_fields n (k + 1) us) (put_fields (chunk_fields k us) (typed k c))
unfolding name_fields put_fields put_field field_off field_bytes
put_entry n k us c = put_fields-append (chunk_fields k us) (name_fields n (k + 1) us) (typed k c)

short_chunk : (k : ℕ) (us : List ℕ) → length (chunk_at k us) ≡ min 15 (length us - k * 15)
short_chunk k us = length-take 15 (drop (k * 15) us) ∙ ap (min 15) (length-drop (k * 15) us)

entry_type :
    (n k : ℕ) (us : List ℕ) (c b : Bytes)
    → (2 + k + suc n) * 32 ≤ length c
    → Shown (suc n) k us c b
    → get_le 1 ((2 + k) * 32) b ≡ 193
entry_type n k us c b room h =
    let ne = (2 + k) * 32 in
    ap le_value (
      h ne 1 (omega arith)
      ∙ ap (slice ne 1) (put_entry n k us c)
      ∙ slice-put_fields ne 1 (name_fields n (k + 1) us) _
          (avoids-name_fields ne 1 n (k + 1) us (omega arith))
      ∙ slice-put_fields ne 1 (chunk_fields k us) (typed k c)
          (avoids-unit_fields ne 1 (ne + 2) (chunk_at k us) (omega arith)))
    ∙ le_read_back 1 ne 193 c (omega arith) (omega arith)

entry_chunk :
    (n k : ℕ) (us : List ℕ) (c b : Bytes)
    → Units us
    → (2 + k + suc n) * 32 ≤ length c
    → Shown (suc n) k us c b
    → take_units (min 15 (length us - k * 15)) ((2 + k) * 32 + 2) b ≡ chunk_at k us
entry_chunk n k us c b small room h =
    let ne = (2 + k) * 32 in
    let wide = short_chunk k us in
    let short : length (chunk_at k us) ≤ 15 = omega (arith, length-take 15 (drop (k * 15) us)) in
    let len = length-overwrite ne (le_bytes 1 193) c in
    ap (λ (m : ℕ). take_units m (ne + 2) b) (sym wide)
    ∙ take_units-unit_fields (chunk_at k us) (ne + 2) (typed k c) b
        (Units-take 15 (drop (k * 15) us) (All-drop (λ u. u < 65536) (k * 15) us small))
        (omega arith)
        (λ o w lo hi.
          h o w (omega arith)
          ∙ ap (slice o w) (put_entry n k us c)
          ∙ slice-put_fields o w (name_fields n (k + 1) us) _
              (avoids-name_fields o w n (k + 1) us (omega arith)))

later_entries :
    (n k : ℕ) (us : List ℕ) (c b : Bytes)
    → Shown (suc n) k us c b
    → Shown n (k + 1) us (put_fields (chunk_fields k us) (typed k c)) b
later_entries n k us c b h o w lo = h o w (omega arith) ∙ ap (slice o w) (put_entry n k us c)

-- The loop over the entries, in a buffer that shows them.
pub name_loop-name_fields :
    (n k : ℕ) (us : List ℕ) (c b : Bytes)
    → Units us
    → length us ≤ (k + n) * 15
    → (2 + k + n) * 32 ≤ length c
    → Shown n k us c b
    → name_loop n k (length us - k * 15) b ≡ drop (k * 15) us
unfolding name_loop
name_loop-name_fields zero k us c b small short room h = sym (drop-short (k * 15) us (omega arith))
name_loop-name_fields (suc n) k us c b small short room h =
    elim (Bool-cases (length us - k * 15 == 0)) [
      | inl e ↦
          let none_left : length us ≤ k * 15 = ground arith in
          rw e (sym (drop-short (k * 15) us none_left))
      | inr e ↦
          let t : get_le 1 ((2 + k) * 32) b == 193 ≡ true =
            rw (entry_type n k us c b room h) refl in
          let step : length us - k * 15 - 15 ≡ length us - (k + 1) * 15 = omega arith in
          let len =
            length-put_fields (chunk_fields k us) (typed k c)
            ∙ length-overwrite ((2 + k) * 32) (le_bytes 1 193) c in
          let rest =
            name_loop-name_fields n (k + 1) us (put_fields (chunk_fields k us) (typed k c)) b small
              (omega arith) (omega arith) (later_entries n k us c b h) in
          rw (e, t, entry_chunk n k us c b small room h, step, rest) (chunk_append k us)
    ]
