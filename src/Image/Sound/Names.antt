-- ===== src/Image/Sound/Names.antt =====
-- Entries stay inside the store and keep good names when one is appended or cut.
use fsforge.Common.{
  ◌≡◌, refl, sym, inl, inr, true, false, none, some, List, [], ◌∷◌, ◌++◌, All, Bytes, same_bytes,
  arith, Bool-cases, same_bytes_refl, same_bytes_eq,
}
use fsforge.Image.{Entry, valid_name, find, cut}
use fsforge.Image.Sound.{GoodNames}

pub append-All :
    (P : Entry → Type 0) (es : List Entry) (e : Entry) → All P es → P e → All P (es ++ e ∷ [])
append-All P [] e h p = (p, tt)
append-All P (x ∷ es) e h p = (h.0, append-All P es e h.1 p)

pub cut-All : (P : Entry → Type 0) (name : Bytes) (es : List Entry) → All P es → All P (cut name es)
unfolding cut
cut-All P name [] h = h
cut-All P name (x ∷ es) h = elim (Bool-cases (same_bytes x.name name)) [
  | inl t ↦ rw t h.1
  | inr t ↦ rw t (h.0, cut-All P name es h.1)
]

same_bytes_flip : (a b : Bytes) → same_bytes a b ≡ false → same_bytes b a ≡ false
same_bytes_flip a b h = elim (Bool-cases (same_bytes b a)) [
  | inl t ↦
      let k : b ≡ a = same_bytes_eq b a t in
      let c : true ≡ false = rw (k, same_bytes_refl a) at h in absurd (ground arith)
  | inr t ↦ t
]

none_after_append :
    (name : Bytes) (es : List Entry) (e : Entry)
    → find name es ≡ none
    → same_bytes e.name name ≡ false
    → find name (es ++ e ∷ []) ≡ none
unfolding find
none_after_append name [] e h ne = rw ne refl
none_after_append name (x ∷ es) e h ne = elim (Bool-cases (same_bytes x.name name)) [
  | inl t ↦ let c : some x ≡ none = rw t at h in absurd (ground arith)
  | inr t ↦ rw t (none_after_append name es e (rw t at h) ne)
]

none_after_cut :
    (name other : Bytes) (es : List Entry) → find name es ≡ none → find name (cut other es) ≡ none
unfolding find cut
none_after_cut name other [] h = refl
none_after_cut name other (x ∷ es) h = elim (Bool-cases (same_bytes x.name name)) [
  | inl t ↦ let c : some x ≡ none = rw t at h in absurd (ground arith)
  | inr t ↦ elim (Bool-cases (same_bytes x.name other)) [
    | inl u ↦ rw u (rw t at h)
    | inr u ↦ rw (u, t) (none_after_cut name other es (rw t at h))
  ]
]

pub append-GoodNames :
    (es : List Entry) (e : Entry)
    → GoodNames es
    → valid_name e.name ≡ true
    → find e.name es ≡ none
    → GoodNames (es ++ e ∷ [])
unfolding find
append-GoodNames [] e g valid fresh = (valid, refl, tt)
append-GoodNames (x ∷ es) e g valid fresh = elim (Bool-cases (same_bytes x.name e.name)) [
  | inl t ↦ let c : some x ≡ none = rw t at fresh in absurd (ground arith)
  | inr t ↦ (
    g.0,
    none_after_append x.name es e g.1 (same_bytes_flip x.name e.name t),
    append-GoodNames es e g.2 valid (rw t at fresh),
  )
]

pub cut-GoodNames : (name : Bytes) (es : List Entry) → GoodNames es → GoodNames (cut name es)
unfolding cut
cut-GoodNames name [] g = g
cut-GoodNames name (x ∷ es) g = elim (Bool-cases (same_bytes x.name name)) [
  | inl t ↦ rw t g.2
  | inr t ↦ rw t (g.0, none_after_cut x.name name es g.1, cut-GoodNames name es g.2)
]

-- After the cut, the name finds nothing.
pub find-cut_self : (name : Bytes) (es : List Entry) → GoodNames es → find name (cut name es) ≡ none
unfolding find cut
find-cut_self name [] g = refl
find-cut_self name (x ∷ es) g = elim (Bool-cases (same_bytes x.name name)) [
  | inl t ↦ rw (t, sym (same_bytes_eq x.name name t)) g.1
  | inr t ↦ rw (t, t) (find-cut_self name es g.2)
]

-- A new entry is what its name finds.
pub find-append_self :
    (es : List Entry) (e : Entry) → find e.name es ≡ none → find e.name (es ++ e ∷ []) ≡ some e
unfolding find
find-append_self [] e fresh = rw (same_bytes_refl e.name) refl
find-append_self (x ∷ es) e fresh = elim (Bool-cases (same_bytes x.name e.name)) [
  | inl t ↦ let c : some x ≡ none = rw t at fresh in absurd (ground arith)
  | inr t ↦ rw t (find-append_self es e (rw t at fresh))
]
