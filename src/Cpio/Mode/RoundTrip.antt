-- ===== src/Cpio/Mode/RoundTrip.antt =====
-- A mode converted there and back.
mod Tests
use fsforge.Common.{
  ℕ, ◌+◌, ◌*◌, ◌/◌, ◌%◌, ◌<◌, ◌≡◌, refl, Bool, true, false, ◌||◌, ◌==◌, if◌then◌else◌, arith,
}
use fsforge.Modes.{FileMode}
use fsforge.Cpio.Mode.{bit, type_of, mode_to_unix, mode_from_unix}

-- The types of files: a character device is a device as well.
pub data Kind : Type 0 where
  regular directory symlink block_device char_device named_pipe socket : Kind

abbrev pub is : Kind → Kind → Bool
is regular regular = true
is directory directory = true
is symlink symlink = true
is block_device block_device = true
is char_device char_device = true
is named_pipe named_pipe = true
is socket socket = true
is _ _ = false

-- The mode of a file of a kind.
abbrev pub mode_of : Kind → ℕ → Bool → Bool → Bool → FileMode
mode_of k perm setuid setgid sticky = record {
  perm = perm;
  setuid = setuid;
  setgid = setgid;
  sticky = sticky;
  dir = is k directory;
  symlink = is k symlink;
  device = is k block_device || is k char_device;
  char_device = is k char_device;
  named_pipe = is k named_pipe;
  socket = is k socket;
}

abbrev value : ℕ → Bool → Bool → Bool → ℕ → ℕ
value p a b c t = p % 512 + bit a 2048 + bit b 1024 + bit c 512 + t * 4096

-- The parts of a value, read back.
abbrev Parts : ℕ → Bool → Bool → Bool → ℕ → ℕ → Type 0
Parts p a b c t v =
    (v % 512 ≡ p % 512)
    × ((v / 2048 % 2 == 1) ≡ a)
    × ((v / 1024 % 2 == 1) ≡ b)
    × ((v / 512 % 2 == 1) ≡ c)
    × (v / 4096 % 16 ≡ t % 16)

parts : (p : ℕ) (a b c : Bool) (t : ℕ) → Parts p a b c t (value p a b c t)
parts p true true true t = (omega arith, ground arith, ground arith, ground arith, omega arith)
parts p true true false t = (omega arith, ground arith, ground arith, ground arith, omega arith)
parts p true false true t = (omega arith, ground arith, ground arith, ground arith, omega arith)
parts p true false false t = (omega arith, ground arith, ground arith, ground arith, omega arith)
parts p false true true t = (omega arith, ground arith, ground arith, ground arith, omega arith)
parts p false true false t = (omega arith, ground arith, ground arith, ground arith, omega arith)
parts p false false true t = (omega arith, ground arith, ground arith, ground arith, omega arith)
parts p false false false t = (omega arith, ground arith, ground arith, ground arith, omega arith)

code : Kind → ℕ
code regular = 8
code directory = 4
code symlink = 10
code block_device = 6
code char_device = 2
code named_pipe = 1
code socket = 12

type_of-mode_of : (k : Kind) (p : ℕ) (a b c : Bool) → type_of (mode_of k p a b c) ≡ code k
unfolding type_of code
type_of-mode_of regular p a b c = refl
type_of-mode_of directory p a b c = refl
type_of-mode_of symlink p a b c = refl
type_of-mode_of block_device p a b c = refl
type_of-mode_of char_device p a b c = refl
type_of-mode_of named_pipe p a b c = refl
type_of-mode_of socket p a b c = refl

-- What the parts give, for a kind's code.
of_parts :
    (k : Kind) (p : ℕ) (a b c : Bool) (v : ℕ)
    → p < 512
    → Parts p a b c (code k) v
    → mode_from_unix v ≡ mode_of k p a b c
unfolding mode_from_unix code
of_parts regular p a b c v h q =
    let e : p % 512 ≡ p = omega arith in rw (q.0, q.1, q.2, q.3, q.4, e)
of_parts directory p a b c v h q =
    let e : p % 512 ≡ p = omega arith in rw (q.0, q.1, q.2, q.3, q.4, e)
of_parts symlink p a b c v h q =
    let e : p % 512 ≡ p = omega arith in rw (q.0, q.1, q.2, q.3, q.4, e)
of_parts block_device p a b c v h q =
    let e : p % 512 ≡ p = omega arith in rw (q.0, q.1, q.2, q.3, q.4, e)
of_parts char_device p a b c v h q =
    let e : p % 512 ≡ p = omega arith in rw (q.0, q.1, q.2, q.3, q.4, e)
of_parts named_pipe p a b c v h q =
    let e : p % 512 ≡ p = omega arith in rw (q.0, q.1, q.2, q.3, q.4, e)
of_parts socket p a b c v h q = let e : p % 512 ≡ p = omega arith in rw (q.0, q.1, q.2, q.3, q.4, e)

-- The mode of a file of each kind, with any nine permission bits and any of the setuid, setgid and sticky
-- bits, comes back from its Unix form as it was.
pub mode_from_unix-mode_to_unix :
    (k : Kind) (p : ℕ) (setuid setgid sticky : Bool)
    → p < 512
    → mode_from_unix (mode_to_unix (mode_of k p setuid setgid sticky))
      ≡ mode_of k p setuid setgid sticky
unfolding mode_to_unix
mode_from_unix-mode_to_unix k p a b c h =
    rw (type_of-mode_of k p a b c)
      (of_parts k p a b c (value p a b c (code k)) h (parts p a b c (code k)))
