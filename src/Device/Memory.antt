-- ===== src/Device/Memory.antt =====
-- The in-memory device.
use fsforge.Common.{
  ℕ, ◌+◌, ◌-◌, ◌≤◌, ◌<◌, ◌≡◌, ◌⊎◌, inl, inr, refl, false, none, some, length, get_or, Bytes, slice,
  overwrite, arith, ltb, leb, length-overwrite, get_or-overwrite_inside, get_or-overwrite_outside,
  Bool-cases, [], drop, length-take, length-drop, min, ltb→lt, ltb-false, leb→le, leb-false,
}
use fsforge.Device.{
  at, eof, short_write, ReadResult, read, WriteResult, wrote, Mem, mem_read_at, mem_write_at, i63,
}

-- The bytes of `p` stand at `off`, and all others are as before.
pub record Stored (off : ℕ) (p : Bytes) (m m' : Mem) : Type 0 where
  pub same_size : length m'.buffer ≡ length m.buffer
  pub stored : (i : ℕ) → off ≤ i → i < off + length p → get_or m'.buffer i 0 ≡ get_or p (i - off) 0
  pub kept : (i : ℕ) → (i < off) ⊎ (off + length p ≤ i) → get_or m'.buffer i 0 ≡ get_or m.buffer i 0

abbrev pub WritePost : Mem → Bytes → ℕ → WriteResult Mem → Type 0
WritePost m p off (wrote m' n none) =
    (n ≡ length p) × (off + length p ≤ length m.buffer) × Stored off p m m'
WritePost m p off (wrote m' n (some short_write)) =
    (n ≡ 0) × (m' ≡ m) × (length m.buffer < off + length p)
WritePost m p off _ = ⊥

-- `Mem.WriteAt` at an offset that is not negative, with an end that fits an int64, stores all of the
-- bytes at the offset and changes no other, or rejects the whole write as short, changing nothing,
-- exactly where the end lies behind the device.
pub mem_write_at-WritePost :
    (m : Mem) (p : Bytes) (off : ℕ)
    → off + length p < i63
    → WritePost m p off (mem_write_at m p (at off))
unfolding mem_write_at
mem_write_at-WritePost m p off small =
    let whole : leb i63 (off + length p) ≡ false = ground arith in
    elim (Bool-cases (ltb (length m.buffer) (off + length p))) [
      | inl e ↦ rw (whole, e) (refl, refl, ltb→lt _ _ e)
      | inr e ↦
          let fits : off + length p ≤ length m.buffer = ltb-false _ _ e in
          let inside : ltb (length m.buffer) off ≡ false = ground arith in
          rw (whole, e, inside)
            (
              refl,
              fits,
              record {
                same_size = length-overwrite off p m.buffer;
                stored = λ i lo hi. get_or-overwrite_inside off p m.buffer i lo hi (omega arith);
                kept = λ i h. get_or-overwrite_outside off p m.buffer i h;
              },
            )
    ]

-- A write that ends inside the device.
pub mem_write_at-inside :
    (m : Mem) (p : Bytes) (off : ℕ)
    → off + length p ≤ length m.buffer
    → length m.buffer < i63
    → mem_write_at m p (at off)
      ≡ wrote (record { buffer = overwrite off p m.buffer }) (length p) none
unfolding mem_write_at
mem_write_at-inside m p off room small =
    let whole : leb i63 (off + length p) ≡ false = ground arith in
    let fits : ltb (length m.buffer) (off + length p) ≡ false = ground arith in
    let inside : ltb (length m.buffer) off ≡ false = ground arith in rw (whole, fits, inside) refl

abbrev pub ReadPost : Mem → ℕ → ℕ → ReadResult → Type 0
ReadPost m n off (read got none) =
    (got ≡ slice off n m.buffer) × (length got ≡ n) × (off < length m.buffer)
ReadPost m n off (read got (some eof)) =
    (got ≡ slice off n m.buffer) × (length m.buffer < off + n)
    ⊎ (got ≡ []) × (length m.buffer ≤ off)
ReadPost m n off _ = ⊥

-- `Mem.ReadAt` at an offset that is not negative returns the bytes of the device from there on: all
-- that were asked for with no error, and otherwise those before the end of the device, none where the
-- offset lies behind it, with EOF.
pub mem_read_at-ReadPost : (m : Mem) (n off : ℕ) → ReadPost m n off (mem_read_at m n (at off))
unfolding mem_read_at
mem_read_at-ReadPost m n off = elim (Bool-cases (leb (length m.buffer) off)) [
  | inl e ↦ rw e (inr (refl, leb→le _ _ e))
  | inr e ↦
      let size : length (slice off n m.buffer) ≡ min n (length m.buffer - off) =
        omega (arith, length-take n (drop off m.buffer), length-drop off m.buffer) in
      elim (Bool-cases (ltb (length (slice off n m.buffer)) n)) [
        | inl short ↦ rw (e, short) (inl (refl, omega (arith, ltb→lt _ _ short, leb-false _ _ e)))
        | inr full ↦ rw (e, full) (refl, omega (arith, ltb-false _ _ full), leb-false _ _ e)
      ]
]
