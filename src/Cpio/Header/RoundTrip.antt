-- ===== src/Cpio/Header/RoundTrip.antt =====
-- Parsing what `marshal` of a newc header wrote.
mod Tests
use fsforge.Common.{
  same_bytes, append-nil, append_assoc, ℕ, zero, suc, ◌+◌, ◌-◌, ◌*◌, ◌/◌, ◌%◌, ◌^◌, ◌≤◌, ◌<◌, ◌≡◌,
  refl, sym, ap, ◌∙◌, Bool, true, false, not, ◌&&◌, ltb, leb, ◌==◌, if◌then◌else◌, Option, none,
  some, List, [], ◌∷◌, ◌++◌, length, get_or, take, drop, Bytes, slice, overwrite, replicate,
  length-append, length-replicate, length-overwrite, u32, arith, Bool-cases, Option-cases, All, inl,
  inr, ltb→lt, le→leb,
}
use native.Mathlib.Nat.{pow-suc}
use fsforge.Cpio.Header.{
  Hdr, Result, parsed, header_size, magic_newc, magic_crc, hex_digit, format_uint, append_hex8,
  append_all, values, marshal, digit_value, parse_uint, parse_fields, hdr_of, parse_header,
}
use fsforge.Cpio.Header.Hex.{hex8, length-hex8, parse_uint-hex8}

append_hex8_split : (b : Bytes) (v : ℕ) → append_hex8 b v ≡ b ++ hex8 v
unfolding append_hex8
append_hex8_split b v = refl

drop-append : (xs ys : Bytes) → drop (length xs) (xs ++ ys) ≡ ys
drop-append [] ys = refl
drop-append (x ∷ xs) ys = drop-append xs ys

take-append : (xs ys : Bytes) → take (length xs) (xs ++ ys) ≡ xs
take-append [] ys = refl
take-append (x ∷ xs) ys = ap (◌∷◌ x) (take-append xs ys)

-- Text that is appended to stays in front.
append_all_front : (b : Bytes) (vs : List ℕ) → (t : Bytes) × (append_all b vs ≡ b ++ t)
unfolding append_all
append_all_front b [] = ([], sym (append-nil b))
append_all_front b (v ∷ vs) =
    let r = append_all_front (append_hex8 b v) vs in
    (
      hex8 v ++ r.0,
      r.1 ∙ ap (λ (c : Bytes). c ++ r.0) (append_hex8_split b v) ∙ append_assoc b (hex8 v) r.0,
    )

slice_middle : (b x t : Bytes) → slice (length b) (length x) (b ++ (x ++ t)) ≡ x
slice_middle b x t = ap (take (length x)) (drop-append b (x ++ t)) ∙ take-append x t

parse_fields_step :
    (n off v : ℕ) (vs : List ℕ) (b : Bytes)
    → parse_uint 0 (slice off 8 b) ≡ some v
    → parse_fields n (off + 8) b ≡ some vs
    → parse_fields (suc n) off b ≡ some (v ∷ vs)
unfolding parse_fields
parse_fields_step n off v vs b e f = rw (parse_fields, e, f)

parse_fields-append_all :
    (b : Bytes) (vs : List ℕ)
    → All (λ v. v < u32) vs
    → parse_fields (length vs) (length b) (append_all b vs) ≡ some vs
unfolding parse_fields append_all
parse_fields-append_all b [] h = refl
parse_fields-append_all b (v ∷ vs) h =
    let r = append_all_front (append_hex8 b v) vs in
    let shape : append_all (append_hex8 b v) vs ≡ b ++ (hex8 v ++ r.0) =
      r.1 ∙ ap (λ (c : Bytes). c ++ r.0) (append_hex8_split b v) ∙ append_assoc b (hex8 v) r.0 in
    let first : slice (length b) 8 (append_all (append_hex8 b v) vs) ≡ hex8 v =
      ap (slice (length b) 8) shape
      ∙ ap (λ (k : ℕ). slice (length b) k (b ++ (hex8 v ++ r.0))) (sym (length-hex8 v))
      ∙ slice_middle b (hex8 v) r.0 in
    let value : parse_uint 0 (slice (length b) 8 (append_all (append_hex8 b v) vs)) ≡ some v =
      ap (parse_uint 0) first ∙ parse_uint-hex8 v h.0 in
    let len : length b + 8 ≡ length (append_hex8 b v) =
      omega (arith, length-append b (hex8 v), length-hex8 v, ap length (append_hex8_split b v)) in
    let rest : parse_fields (length vs) (length b + 8) (append_all (append_hex8 b v) vs) ≡ some vs =
      ap (λ (o : ℕ). parse_fields (length vs) o (append_all (append_hex8 b v) vs)) len
      ∙ parse_fields-append_all (append_hex8 b v) vs h.1 in
    parse_fields_step (length vs) (length b) v vs _ value rest

-- Each field fits a uint32, and the time is from 1970 to 2106.
pub record IsFit (h : Hdr) : Type 0 where
  pub ino_fits : h.ino < u32
  pub mode_fits : h.mode < u32
  pub uid_fits : h.uid < u32
  pub gid_fits : h.gid < u32
  pub nlink_fits : h.nlink < u32
  pub mtime_fits : h.mtime < u32
  pub filesize_fits : h.filesize < u32
  pub devmajor_fits : h.devmajor < u32
  pub devminor_fits : h.devminor < u32
  pub rdevmajor_fits : h.rdevmajor < u32
  pub rdevminor_fits : h.rdevminor < u32
  pub namesize_fits : h.namesize < u32

values_below : (h : Hdr) → IsFit h → All (λ v. v < u32) (values h)
values_below h f = (
  f.ino_fits,
  (
    f.mode_fits,
    (
      f.uid_fits,
      (
        f.gid_fits,
        (
          f.nlink_fits,
          (
            omega arith,
            (
              f.filesize_fits,
              (
                f.devmajor_fits,
                (
                  f.devminor_fits,
                  (f.rdevmajor_fits, (f.rdevminor_fits, (f.namesize_fits, (omega arith, tt)))),
                ),
              ),
            ),
          ),
        ),
      ),
    ),
  ),
)

length-append_all : (b : Bytes) (vs : List ℕ) → length (append_all b vs) ≡ length b + 8 * length vs
unfolding append_all
length-append_all b [] = omega arith
length-append_all b (v ∷ vs) = omega (
  arith,
  length-append_all (append_hex8 b v) vs,
  length-append b (hex8 v),
  length-hex8 v,
  ap length (append_hex8_split b v),
)

magic_first : (vs : List ℕ) → slice 0 6 (append_all magic_newc vs) ≡ magic_newc
magic_first vs =
    let r = append_all_front magic_newc vs in ap (slice 0 6) r.1 ∙ take-append magic_newc r.0

-- A header whose fields fit is written in 110 bytes, and parsed back from them as it was.
pub parse_header-marshal_newc :
    (h : Hdr) → IsFit h → (length (marshal h) ≡ header_size) × (parse_header (marshal h) ≡ parsed h)
unfolding marshal parse_header same_bytes
parse_header-marshal_newc h f =
    let size : length (append_all magic_newc (values h)) ≡ header_size =
      length-append_all magic_newc (values h) in
    let long : ltb (length (append_all magic_newc (values h))) header_size ≡ false =
      ground (arith, size) in
    let time : h.mtime % u32 ≡ h.mtime = omega arith in
    (
      size,
      rw (
        long,
        magic_first (values h),
        parse_fields-append_all magic_newc (values h) (values_below h f),
        time,
      ),
    )
