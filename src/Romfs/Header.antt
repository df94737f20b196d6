-- ===== src/Romfs/Header.antt =====
-- pkg/romfs/const.go and header.go: the header of a file, its checksum and the types of nodes. Numbers are
-- uint32 values.
pub mod Sums
pub mod Types
mod Tests
use fsforge.Common.{
  u32, ℕ, zero, suc, ◌+◌, ◌-◌, ◌*◌, ◌/◌, ◌%◌, Bool, true, false, not, ltb, ◌==◌, if◌then◌else◌,
  List, [], ◌∷◌, length, take, drop, Bytes, overwrite, be_bytes, be_value, Field, be, put_fields,
}
use fsforge.Modes.{FileMode, plain}

abbrev pub header_size : ℕ
header_size = 16

abbrev pub magic_w0 : ℕ
magic_w0 = 0x2d726f6d

abbrev pub magic_w1 : ℕ
magic_w1 = 0x3166732d

abbrev pub type_hardlink : ℕ
type_hardlink = 0

abbrev pub type_dir : ℕ
type_dir = 1

abbrev pub type_reg : ℕ
type_reg = 2

abbrev pub type_symlink : ℕ
type_symlink = 3

abbrev pub type_block : ℕ
type_block = 4

abbrev pub type_char : ℕ
type_char = 5

abbrev pub type_socket : ℕ
type_socket = 6

abbrev pub type_fifo : ℕ
type_fifo = 7

-- `v & alignMask`
unfoldable pub masked : ℕ → ℕ
masked v = v / 16 * 16

unfoldable pub align_up : ℕ → ℕ
align_up v = (v + 15) % u32 / 16 * 16

unfoldable pub padded_name : Bytes → ℕ
padded_name name = align_up ((length name + 1) % u32)

-- The sum of the big-endian words, as far as there are four bytes; the fuel is a word for each byte.
unfoldable pub word_sum : ℕ → Bytes → ℕ
word_sum zero b = 0
word_sum (suc fuel) b =
    let rest = word_sum fuel (drop 4 b) in
    if ltb (length b) 4 then 0 else be_value (take 4 b) + rest

unfoldable pub checksum : Bytes → ℕ
checksum b = (u32 - word_sum (length b) b % u32) % u32

unfoldable pub fix_checksum : Bytes → ℕ → ℕ → Bytes
fix_checksum b csum_off n =
    let zeroed = overwrite csum_off (be_bytes 4 0) b in
    overwrite csum_off (be_bytes 4 (checksum (take n zeroed))) zeroed

-- `(nextOff&alignMask)|flags`, for flags below 16.
unfoldable pub header_fields : ℕ → ℕ → ℕ → ℕ → List Field
header_fields next flags spec size =
    be 0 4 (masked next + flags) ∷ be 4 4 spec ∷ be 8 4 size ∷ be 12 4 0 ∷ []

unfoldable pub put_header : Bytes → ℕ → ℕ → ℕ → ℕ → Bytes
put_header dst next flags spec size = put_fields (header_fields next flags spec size) dst

-- The type, and whether the exec flag is set. `0o111` are the bits 64, 8 and 1.
unfoldable pub type_of : FileMode → ℕ × Bool
type_of m =
    if m.dir
    then (type_dir, true)
    else if m.symlink
    then (type_symlink, false)
    else if m.char_device
    then (type_char, false)
    else if m.device
    then (type_block, false)
    else if m.named_pipe
    then (type_fifo, false)
    else if m.socket
    then (type_socket, false)
    else (type_reg, not (m.perm / 64 % 2 + m.perm / 8 % 2 + m.perm % 2 == 0))

unfoldable pub mode_of : ℕ → Bool → FileMode
mode_of typ exec =
    if typ == type_dir
    then record plain { dir = true; perm = 493 }
    else if typ == type_symlink
    then record plain { symlink = true; perm = 511 }
    else if typ == type_char
    then record plain { char_device = true; device = true; perm = 420 }
    else if typ == type_block
    then record plain { device = true; perm = 420 }
    else if typ == type_fifo
    then record plain { named_pipe = true; perm = 420 }
    else if typ == type_socket
    then record plain { socket = true; perm = 420 }
    else record plain { perm = if exec then 493 else 420 }
