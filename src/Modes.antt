-- ===== src/Modes.antt =====
-- Go's io/fs.FileMode. Its bits are Booleans; those that the code never looks at (append, exclusive,
-- temporary, irregular) are left out.
use fsforge.Common.{ℕ, Bool, false}

pub record FileMode : Type 0 where
  pub perm : ℕ
  pub setuid : Bool
  pub setgid : Bool
  pub sticky : Bool
  pub dir : Bool
  pub symlink : Bool
  pub device : Bool
  pub char_device : Bool
  pub named_pipe : Bool
  pub socket : Bool

-- The type bits: `m &^ fs.ModeType | bits` keeps the rest of `m`.
abbrev pub with_type : FileMode → FileMode → FileMode
with_type m bits = record m {
  dir = bits.dir;
  symlink = bits.symlink;
  device = bits.device;
  char_device = bits.char_device;
  named_pipe = bits.named_pipe;
  socket = bits.socket;
}

-- No type bit, of a regular file.
abbrev pub plain : FileMode
plain = record {
  perm = 0;
  setuid = false;
  setgid = false;
  sticky = false;
  dir = false;
  symlink = false;
  device = false;
  char_device = false;
  named_pipe = false;
  socket = false;
}
