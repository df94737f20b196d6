-- ===== src/Device/Windows.antt =====
-- pkg/device/section.go: writes through a section of an in-memory device are writes to its window, and reads are
-- clamped to it.
use fsforge.Common.{
  ℕ, ◌+◌, ◌-◌, ◌≤◌, ◌<◌, ◌≡◌, ◌⊎◌, inl, inr, refl, ap, true, false, none, some, length, Bytes,
  overwrite, slice, arith, ltb, leb, slice-overwrite_window, slice-overwrite_apart, Bool-cases,
  drop, length-take, length-drop, ltb→lt, ltb-false,
}
use fsforge.Device.{
  at, short_write, out_of_range, read, WriteResult, wrote, Mem, mem_read_at, mem_write_at,
  mem_device, i63, exceeds, Section, section_read_at, section_write_at,
}

-- The window of a section as a device of its own.
abbrev pub window : Section → Mem → Mem
window s m = record { buffer = slice s.off s.size m.buffer }

-- The section lies inside the device, and the device inside the int64 range.
abbrev pub IsInside : Section → Mem → Type 0
IsInside s m = (s.off + s.size ≤ length m.buffer) × (length m.buffer < i63)

pub length-window : (s : Section) (m : Mem) → IsInside s m → length (window s m).buffer ≡ s.size
length-window s m h =
    omega (arith, length-take s.size (drop s.off m.buffer), length-drop s.off m.buffer)

-- What a write through the section leaves, against the same write into the window alone.
abbrev pub WindowPost : Section → Mem → WriteResult Mem → WriteResult Mem → Type 0
WindowPost s m (wrote m' n none) (wrote w k none) =
    (window s m' ≡ w)
    × (n ≡ k)
    × ((o k : ℕ)
        → (o + k ≤ s.off) ⊎ (s.off + s.size ≤ o)
        → slice o k m'.buffer ≡ slice o k m.buffer)
WindowPost s m (wrote m' n (some out_of_range)) (wrote w k (some short_write)) =
    (m' ≡ m) × (w ≡ window s m) × (n ≡ 0) × (k ≡ 0)
WindowPost s m _ _ = ⊥

same_test : (a n size : ℕ) → a + n < i63 → size < i63 → exceeds a n size ≡ ltb size (a + n)
same_test a n size h k = let e : leb i63 (a + n) ≡ false = ground arith in rw e

mem_fits :
    (m : Mem) (p : Bytes) (off : ℕ)
    → off + length p ≤ length m.buffer
    → length m.buffer < i63
    → mem_write_at m p (at off)
      ≡ wrote (record { buffer = overwrite off p m.buffer }) (length p) none
unfolding mem_write_at
mem_fits m p off h k =
    let a : leb i63 (off + length p) ≡ false = ground arith in
    let b : ltb (length m.buffer) (off + length p) ≡ false = ground arith in
    let c : ltb (length m.buffer) off ≡ false = ground arith in rw (a, b, c)

mem_refuses :
    (m : Mem) (p : Bytes) (off : ℕ)
    → length m.buffer < off + length p
    → off + length p < i63
    → mem_write_at m p (at off) ≡ wrote m 0 (some short_write)
unfolding mem_write_at
mem_refuses m p off h k =
    let a : leb i63 (off + length p) ≡ false = ground arith in
    let b : ltb (length m.buffer) (off + length p) ≡ true = ground arith in rw (a, b)

fits_window :
    (s : Section) (m : Mem) (p : Bytes) (off : ℕ)
    → IsInside s m
    → off + length p ≤ s.size
    → WindowPost s m (mem_write_at m p (at (s.off + off))) (mem_write_at (window s m) p (at off))
fits_window s m p off h fits =
    rw
      (
        mem_fits m p (s.off + off) (omega arith) h.1,
        mem_fits (window s m) p off (omega (arith, length-window s m h))
            (omega (arith, length-window s m h)),
      )
      (
        ap (λ (b : Bytes). let r : Mem = record { buffer = b } in r)
            (slice-overwrite_window s.off s.size off p m.buffer fits),
        refl,
        λ o k apart. slice-overwrite_apart o k (s.off + off) p m.buffer (omega arith),
      )

-- A write through a section of an in-memory device, at an offset that is not negative and with an end
-- that fits an int64, does to the window what the same write does to a device that is just the window:
-- it stores or is rejected in the same cases. Nothing outside the window ever changes.
pub section_write_at-WindowPost :
    (s : Section) (m : Mem) (p : Bytes) (off : ℕ)
    → IsInside s m
    → off + length p < i63
    → WindowPost s m
        (section_write_at mem_device s m p (at off))
        (mem_write_at (window s m) p (at off))
unfolding section_write_at
section_write_at-WindowPost s m p off h small =
    rw (same_test off (length p) s.size small (omega arith))
      (elim (Bool-cases (ltb s.size (off + length p))) [
        | inl e ↦
            rw
              (
                e,
                mem_refuses (window s m) p off (omega (arith, length-window s m h, ltb→lt _ _ e))
                    small,
              )
              (refl, refl, refl, refl)
        | inr e ↦
            let fits : off + length p ≤ s.size = ltb-false _ _ e in
            let shift : leb i63 (s.off + off) ≡ false = ground arith in
            rw (e, shift) (fits_window s m p off h fits)
      ])

-- A read through a section that crosses the end of the window is clamped to it, and succeeds: it
-- returns fewer bytes than were asked for, with no error.
pub section_read_at_short :
    (s : Section) (m : Mem) (n off : ℕ)
    → IsInside s m
    → off < s.size
    → s.size < off + n
    → off + n < i63
    → (section_read_at mem_device s m n (at off)
        ≡ read (slice (s.off + off) (s.size - off) m.buffer) none)
      × (length (slice (s.off + off) (s.size - off) m.buffer) < n)
unfolding section_read_at mem_read_at
section_read_at_short s m n off h lt cross small =
    let size : length (slice (s.off + off) (s.size - off) m.buffer) ≡ s.size - off = omega (
      arith,
      length-take (s.size - off) (drop (s.off + off) m.buffer),
      length-drop (s.off + off) m.buffer,
    ) in
    let a : ltb s.size off ≡ false = ground arith in
    let b : exceeds off n s.size ≡ true =
      let e : leb i63 (off + n) ≡ false = ground arith in rw e (ground arith) in
    let c : leb i63 (s.off + off) ≡ false = ground arith in
    let d : leb (length m.buffer) (s.off + off) ≡ false = ground arith in
    let f : ltb (length (slice (s.off + off) (s.size - off) m.buffer)) (s.size - off) ≡ false =
      ground (arith, size) in
    (rw (a, b, c) (rw (d, f)), omega (arith, size))
