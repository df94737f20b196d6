-- ===== src/Device.antt =====
-- pkg/device: the device interface, the in-memory device and the window onto a device.
-- An int64 offset is a natural number below 2^63 or negative; the end of a request is compared as Go
-- compares it, a sum past 2^63 being negative. A read returns the bytes that it put into the buffer.
pub mod Memory
pub mod Windows
mod Tests
use fsforge.Common.{
  ℕ, zero, suc, ◌+◌, ◌-◌, ◌^◌, Bool, true, false, ◌||◌, ltb, leb, if◌then◌else◌, Option, none, some,
  length, Bytes, overwrite, slice, drop, take, replicate, [], ◌++◌,
}

-- An offset: `at n`, or a negative one.
pub data Offset : Type 0 where
  at : ℕ → Offset
  negative : Offset

pub data Error : Type 0 where
  negative_offset eof short_write out_of_range : Error

-- What `ReadAt` leaves: the bytes read and its error; or a panic.
pub data ReadResult : Type 0 where
  read : Bytes → Option Error → ReadResult
  read_panic : ReadResult

-- What `WriteAt` and `Discard` leave: the new state, the count and the error; or a panic.
pub data WriteResult (D : Type 0) : Type 0 where
  wrote : D → ℕ → Option Error → WriteResult D
  write_panic : WriteResult D

-- `Device`, over the state `D` that writing changes. A read is asked for a number of bytes.
pub record Device (D : Type 0) : Type 0 where
  pub size : D → ℕ
  pub read_at : D → ℕ → Offset → ReadResult
  pub write_at : D → Bytes → Offset → WriteResult D

abbrev pub i63 : ℕ
i63 = 2 ^ 63

-- `off + n > size` on int64 values: a sum that wraps is negative.
abbrev pub exceeds : ℕ → ℕ → ℕ → Bool
exceeds off n size = if leb i63 (off + n) then false else ltb size (off + n)

-- `Mem`: the backing buffer.
pub record Mem : Type 0 where
  pub buffer : Bytes

unfoldable pub new_mem : ℕ → Mem
new_mem size = record { buffer = replicate size 0 }

unfoldable pub mem_size : Mem → ℕ
mem_size m = length m.buffer

unfoldable pub mem_read_at : Mem → ℕ → Offset → ReadResult
mem_read_at m n negative = read [] (some negative_offset)
mem_read_at m n (at off) =
    let got = slice off n m.buffer in
    if leb (length m.buffer) off
    then read [] (some eof)
    else if ltb (length got) n
    then read got (some eof)
    else read got none

-- `m.data[off:]` panics behind the end of the buffer.
unfoldable pub mem_write_at : Mem → Bytes → Offset → WriteResult Mem
mem_write_at m p negative = wrote m 0 (some negative_offset)
mem_write_at m p (at off) =
    if exceeds off (length p) (length m.buffer)
    then wrote m 0 (some short_write)
    else if ltb (length m.buffer) off
    then write_panic
    else wrote (record { buffer = overwrite off p m.buffer }) (length p) none

unfoldable pub mem_discard : Mem → Offset → ℕ → WriteResult Mem
mem_discard m negative n = wrote m 0 (some out_of_range)
mem_discard m (at off) n =
    if exceeds off n (length m.buffer)
    then wrote m 0 (some out_of_range)
    else if ltb (length m.buffer) off
    then write_panic
    else wrote (record { buffer = overwrite off (replicate n 0) m.buffer }) 0 none

abbrev pub mem_device : Device Mem
mem_device = record { size = mem_size; read_at = mem_read_at; write_at = mem_write_at }

-- `Section`: where the window begins, and its size. The device under it is a parameter.
pub record Section : Type 0 where
  pub off : ℕ
  pub size : ℕ

unfoldable pub new_section : ℕ → ℕ → Section
new_section off size = record { off = off; size = size }

-- `s.off + off` as an int64.
abbrev pub shifted : Section → ℕ → Offset
shifted s off = if leb i63 (s.off + off) then negative else at (s.off + off)

-- The zeroed buffer of `n` bytes after a read into it. Errors other than EOF are passed on.
unfoldable pub filled : ℕ → ReadResult → Option Bytes
filled n (read b none) = some (take n (b ++ replicate n 0))
filled n (read b (some eof)) = some (take n (b ++ replicate n 0))
filled n (read b (some e)) = none
filled n read_panic = none

module _ {D : Type 0} (d : Device D) (s : Section) where
  unfoldable pub section_read_at : D → ℕ → Offset → ReadResult
  section_read_at x n negative = read [] (some out_of_range)
  section_read_at x n (at off) =
      if ltb s.size off
      then read [] (some out_of_range)
      else d.read_at x (if exceeds off n s.size then s.size - off else n) (shifted s off)

  unfoldable pub section_write_at : D → Bytes → Offset → WriteResult D
  section_write_at x p negative = wrote x 0 (some out_of_range)
  section_write_at x p (at off) =
      if exceeds off (length p) s.size
      then wrote x 0 (some out_of_range)
      else d.write_at x p (shifted s off)

  -- A section is a device over the state of the device under it.
  abbrev pub section_device : Device D
  section_device = record {
    size = λ x. s.size;
    read_at = section_read_at;
    write_at = section_write_at;
  }
