-- ===== src/Cpio/Mode.antt =====
-- pkg/cpio/header.go, and the same code in pkg/cramfs/inode.go and pkg/erofs/inode.go: Go's file modes
-- and Unix's. An `|=` of a bit that is not set yet is a sum.
pub mod RoundTrip
use fsforge.Common.{ℕ, ◌+◌, ◌*◌, ◌/◌, ◌%◌, Bool, true, false, ◌||◌, ◌==◌, if◌then◌else◌}
use fsforge.Modes.{FileMode}

abbrev pub bit : Bool → ℕ → ℕ
bit b n = if b then n else 0

-- The file type, in units of 0o10000.
unfoldable pub type_of : FileMode → ℕ
type_of m =
    if m.dir
    then 4
    else if m.symlink
    then 10
    else if m.char_device
    then 2
    else if m.device
    then 6
    else if m.named_pipe
    then 1
    else if m.socket
    then 12
    else 8

unfoldable pub mode_to_unix : FileMode → ℕ
mode_to_unix m =
    m.perm % 512 + bit m.setuid 2048 + bit m.setgid 1024 + bit m.sticky 512 + type_of m * 4096

unfoldable pub mode_from_unix : ℕ → FileMode
mode_from_unix v =
    let t = v / 4096 % 16 in
    record {
      perm = v % 512;
      setuid = v / 2048 % 2 == 1;
      setgid = v / 1024 % 2 == 1;
      sticky = v / 512 % 2 == 1;
      dir = t == 4;
      symlink = t == 10;
      device = t == 2 || t == 6;
      char_device = t == 2;
      named_pipe = t == 1;
      socket = t == 12;
    }
