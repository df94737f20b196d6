-- ===== src/Qcow2/Writer.antt =====
-- pkg/qcow2/writer.go: `NewWriter`, `WriteAt` and `ReadAt` of the writer. The host file is an argument:
-- its state `F` and its two operations. Offsets and sizes are below 2^63; the end of a write that passes
-- 2^63 is compared as the negative number that it is, and is then let through, and the loop goes on with
-- offsets above 2^63 where Go's turn negative. A negative offset is
-- `none`. The cluster map is an association list, with the last entry in front.
pub mod Stored
pub mod ClusterMap
pub mod Flat
pub mod Reading
mod Tests
use fsforge.Common.{
  ℕ, zero, suc, ◌+◌, ◌-◌, ◌*◌, ◌/◌, ◌%◌, min, Bool, true, false, ◌&&◌, ltb, leb, ◌==◌,
  if◌then◌else◌, Option, none, some, List, [], ◌∷◌, ◌++◌, length, take, drop, Bytes, overwrite,
  replicate,
}
use fsforge.Device.{exceeds}
use fsforge.Qcow2.Header.{cluster_size}

pub data Error : Type 0 where
  bad_size out_of_range negative_offset eof host_error : Error

abbrev pub l2_entries : ℕ
l2_entries = 8192

-- The host file: what `WriteAt` leaves, and the bytes that `ReadAt` gives, fewer at the file's end. An
-- error but the end of the file is `none`.
pub record HostFile (F : Type 0) : Type 0 where
  pub write : F → Bytes → ℕ → F × Bool
  pub read : F → ℕ → ℕ → Option Bytes

pub record Writer : Type 0 where
  pub size : ℕ
  pub l1_size : ℕ
  pub l2map : List (ℕ × ℕ)
  pub next_host : ℕ
  pub finalized : Bool

unfoldable pub ceil_div : ℕ → ℕ → ℕ
ceil_div a b = (a + b - 1) / b

unfoldable pub new_writer : ℕ → Option Writer
new_writer virtual_size =
    if virtual_size == 0
    then none
    else some (record {
      size = virtual_size;
      l1_size = ceil_div virtual_size (cluster_size * l2_entries);
      l2map = [];
      next_host = 1;
      finalized = false;
    })

-- `w.l2map[gc]`
unfoldable pub lookup : ℕ → List (ℕ × ℕ) → Option ℕ
lookup gc [] = none
lookup gc (e ∷ es) = let rest = lookup gc es in if e.0 == gc then some e.1 else rest

unfoldable pub all_zero : Bytes → Bool
all_zero [] = true
all_zero (c ∷ b) = c == 0 && all_zero b

-- The writer that maps `gc` to the next host cluster.
unfoldable pub map_cluster : ℕ → Writer → Writer
map_cluster gc w = record w { l2map = (gc, w.next_host) ∷ w.l2map; next_host = w.next_host + 1 }

-- A count and whether there was an error, with the two states.
pub record Wrote (F : Type 0) : Type 0 where
  pub writer : Writer
  pub host : F
  pub count : ℕ
  pub failed : Option Error

module _ {F : Type 0} (h : HostFile F) where
  -- Writing a chunk into a mapped cluster; `more` is the rest of the loop.
  abbrev pub put_chunk : (F → ℕ → Wrote F) → Writer → F → Bytes → ℕ → ℕ → Wrote F
  put_chunk more w f chunk at written =
      let r = h.write f chunk at in
      if r.1
      then more r.0 (written + length chunk)
      else record { writer = w; host = r.0; count = written; failed = some host_error }

  -- The loop over the clusters; each round takes a byte at least.
  unfoldable pub write_loop : ℕ → Writer → F → Bytes → ℕ → ℕ → Wrote F
  write_loop fuel w f [] off written = record {
    writer = w;
    host = f;
    count = written;
    failed = none;
  }
  write_loop zero w f (x ∷ p) off written = record {
    writer = w;
    host = f;
    count = written;
    failed = none;
  }
  write_loop (suc fuel) w f (x ∷ p) off written =
      let gc = off / cluster_size in
      let in_cl = off % cluster_size in
      let n = min (cluster_size - in_cl) (length (x ∷ p)) in
      let chunk = take n (x ∷ p) in
      let more = λ (w : Writer) (f : F) (k : ℕ). write_loop fuel w f (drop n (x ∷ p)) (off + n) k in
      elim (lookup gc w.l2map) [
        | some host ↦ put_chunk (more w) w f chunk (host * cluster_size + in_cl) written
        | none ↦
            if all_zero chunk
            then more w f (written + length chunk)
            else put_chunk (more (map_cluster gc w)) (map_cluster gc w) f chunk
                (w.next_host * cluster_size + in_cl) written
      ]

  unfoldable pub write_at : Writer → F → Bytes → Option ℕ → Wrote F
  write_at w f p none = record { writer = w; host = f; count = 0; failed = some out_of_range }
  write_at w f p (some off) =
      if exceeds off (length p) w.size
      then record { writer = w; host = f; count = 0; failed = some out_of_range }
      else write_loop (length p) w f p off 0

  -- The bytes that are read of a cluster: zeros where it is not mapped or the host file ends.
  unfoldable pub read_span : Writer → F → ℕ → ℕ → Option Bytes
  read_span w f off span = elim (lookup (off / cluster_size) w.l2map) [
    | none ↦ some (replicate span 0)
    | some host ↦ elim (h.read f span (host * cluster_size + off % cluster_size)) [
      | none ↦ none
      | some b ↦ some (overwrite 0 b (replicate span 0))
    ]
  ]

  -- The loop for `total - n` more bytes at `at`: the bytes put into the buffer, and the error.
  unfoldable pub read_loop : ℕ → Writer → F → ℕ → ℕ → Bytes × Option Error
  read_loop fuel w f at zero = ([], none)
  read_loop zero w f at (suc left) = ([], none)
  read_loop (suc fuel) w f at (suc left) =
      let span = min (cluster_size - at % cluster_size) (suc left) in
      let rest = read_loop fuel w f (at + span) (suc left - span) in
      if leb w.size at then ([], some eof) else elim (read_span w f at span) [
        | none ↦ ([], some host_error)
        | some b ↦ (b ++ rest.0, rest.1)
      ]

  unfoldable pub read_at : Writer → F → ℕ → Option ℕ → Bytes × Option Error
  read_at w f total none = ([], some negative_offset)
  read_at w f total (some off) =
      if leb w.size off then ([], some eof) else read_loop total w f off total
