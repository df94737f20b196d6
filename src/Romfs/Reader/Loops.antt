-- ===== src/Romfs/Reader/Loops.antt =====
-- An image on which the reader does not end.
use fsforge.Common.{
  u32, ℕ, zero, suc, ◌+◌, ◌%◌, ◌≡◌, ◌≢◌, refl, ap, ◌∙◌, true, false, ◌==◌, some, [], Bytes, arith,
}
use fsforge.Device.{Device}
use fsforge.Image.{Store}
use fsforge.Romfs.Header.{header_size, type_hardlink, masked}
use fsforge.Romfs.Reader.{fail, stuck, Rhdr, is_dots, mem, header, name_at, resolve, read_dir}

module _ {D : Type 0} (d : Device D) (x : D) where
  -- A hard link to itself is never resolved.
  resolve_loops :
      (h : Rhdr)
      → h.dtype ≡ type_hardlink
      → header d x (masked h.spec) ≡ some h
      → (fuel : ℕ) → resolve d x fuel h ≡ fail stuck
  unfolding resolve
  resolve_loops h link self zero = refl
  resolve_loops h link self (suc fuel) =
      let e : h.dtype == type_hardlink ≡ true = ground arith in
      rw (e, self) (resolve_loops h link self fuel)

  -- A directory's list that begins with a hard link to itself, whose name is neither empty nor "." or "..":
  -- no amount of fuel is enough to read the directory.
  pub read_dir_loops :
      (h : Rhdr) (name : Bytes) (off : ℕ)
      → off ≢ 0
      → header d x off ≡ some h
      → name_at d x ((off + header_size) % u32) ≡ some name
      → is_dots name ≡ false
      → h.dtype ≡ type_hardlink
      → masked h.spec ≡ off
      → (fuel : ℕ) (s : Store) (dir : ℕ) → read_dir d x fuel s dir off [] ≡ fail stuck
  unfolding read_dir mem
  read_dir_loops h name off far at_off named real link self zero s dir = refl
  read_dir_loops h name off far at_off named real link self (suc fuel) s dir =
      let z : off == 0 ≡ false = ground arith in
      let r = resolve_loops h link (ap (header d x) self ∙ at_off) fuel in
      rw (z, at_off, named, real, r) refl
