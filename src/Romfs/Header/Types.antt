-- ===== src/Romfs/Header/Types.antt =====
-- What a reader finds in a header, and the types of nodes.
use fsforge.Common.{
  u32, ℕ, ◌+◌, ◌*◌, ◌/◌, ◌%◌, ◌^◌, ◌≤◌, ◌<◌, ◌≡◌, refl, sym, ap, ◌∙◌, inl, inr, Bool, true, false,
  not, ◌==◌, if◌then◌else◌, List, [], ◌∷◌, length, Bytes, arith, Bool-cases, Field, be, put_fields,
  get_be, get_be-put_fields, safe, some,
}
use fsforge.Modes.{FileMode}
use fsforge.Romfs.Header.{masked, header_fields, put_header, type_of, mode_of}

-- The word of the next offset and the flags.
split_word :
    (next flags : ℕ)
    → flags < 16
    → (masked (masked next + flags) ≡ masked next)
      × ((masked next + flags) % 8 ≡ flags % 8)
      × ((masked next + flags) / 8 % 2 ≡ flags / 8)
unfolding masked
split_word next flags h = (omega arith, omega arith, omega arith)

masked_small : (next flags : ℕ) → flags < 16 → next < 256 ^ 4 → masked next + flags < 256 ^ 4
unfolding masked
masked_small next flags h n = omega arith

-- PutHeader: the reader finds the next offset without its low bits, the type and the exec flag in the
-- first word, then the spec and the size; flags are below 16 and numbers have 32 bits.
pub put_header-read_back :
    (dst : Bytes) (next flags spec size : ℕ)
    → 16 ≤ length dst
    → flags < 16
    → next < 256 ^ 4
    → spec < 256 ^ 4
    → size < 256 ^ 4
    → let b = put_header dst next flags spec size in
      (masked (get_be 4 0 b) ≡ masked next)
      × (get_be 4 0 b % 8 ≡ flags % 8)
      × (get_be 4 0 b / 8 % 2 ≡ flags / 8)
      × (get_be 4 4 b ≡ spec)
      × (get_be 4 8 b ≡ size)
unfolding put_header header_fields safe fsforge.Common.field_off fsforge.Common.field_width
    fsforge.Common.avoids
put_header-read_back dst next flags spec size room small n s z =
    let fs = header_fields next flags spec size in
    let w = masked_small next flags small n in
    let r0 = get_be-put_fields 16 0 0 4 (masked next + flags) fs dst room refl refl w in
    let r1 = get_be-put_fields 16 1 4 4 spec fs dst room refl refl s in
    let r2 = get_be-put_fields 16 2 8 4 size fs dst room refl refl z in
    let p = split_word next flags small in
    (ap masked r0 ∙ p.0, ap (λ k. k % 8) r0 ∙ p.1, ap (λ k. k / 8 % 2) r0 ∙ p.2, r1, r2)

plain_type : (b : Bool) → type_of (mode_of 2 b) ≡ (2, b)
unfolding type_of mode_of
plain_type true = refl
plain_type false = refl

-- The type of a node comes back, whatever its permissions.
pub type_of-mode_of : (m : FileMode) → type_of (mode_of (type_of m).0 (type_of m).1) ≡ type_of m
unfolding type_of mode_of
type_of-mode_of m = elim (Bool-cases m.dir) [
  | inl e ↦ rw e refl
  | inr e ↦ elim (Bool-cases m.symlink) [
    | inl f ↦ rw (e, f) refl
    | inr f ↦ elim (Bool-cases m.char_device) [
      | inl g ↦ rw (e, f, g) refl
      | inr g ↦ elim (Bool-cases m.device) [
        | inl h ↦ rw (e, f, g, h) refl
        | inr h ↦ elim (Bool-cases m.named_pipe) [
          | inl i ↦ rw (e, f, g, h, i) refl
          | inr i ↦ elim (Bool-cases m.socket) [
            | inl j ↦ rw (e, f, g, h, i, j) refl
            | inr j ↦
                rw (e, f, g, h, i, j)
                  (plain_type (not (m.perm / 64 % 2 + m.perm / 8 % 2 + m.perm % 2 == 0)))
          ]
        ]
      ]
    ]
  ]
]
