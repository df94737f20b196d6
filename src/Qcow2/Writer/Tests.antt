-- ===== src/Qcow2/Writer/Tests.antt =====
-- Runs of the writer over a host file that is a function from offsets to bytes.
use fsforge.Common.{
  ℕ, zero, suc, ◌+◌, ◌%◌, ◌≡◌, ◌≤◌, ◌<◌, refl, true, false, none, some, [], ◌∷◌, Bytes, arith,
  length, get_or,
}
use fsforge.Qcow2.Writer.Reading.{Shows, read_at-Shows}
use fsforge.Qcow2.Writer.{read_at, HostFile, Writer, write_at, lookup}
use fsforge.Qcow2.Writer.Stored.{stored}
use fsforge.Qcow2.Writer.Flat.{IsValid, WritePost, write_at-WritePost}

abbrev bytes_at : (ℕ → ℕ) → ℕ → ℕ → Bytes
bytes_at f zero at = []
bytes_at f (suc n) at = f at ∷ bytes_at f n (at + 1)

abbrev function_file : HostFile (ℕ → ℕ)
function_file = record {
  write = λ f p at. (stored p at f, true);
  read = λ f n at. some (bytes_at f n at);
}

abbrev peek : (ℕ → ℕ) → ℕ → ℕ
peek f x = f x

abbrev blank : ℕ → ℕ
blank x = 0

abbrev fresh : Writer
fresh = record { size = 200000; l1_size = 1; l2map = []; next_host = 1; finalized = false }

nothing : (host : ℕ) → none ≡ some host → ⊥
nothing host r = ground arith

fresh-IsValid : IsValid function_file peek fresh blank
unfolding lookup
fresh-IsValid = record {
  below = λ gc host r. absurd (nothing host r);
  distinct = λ gc gc' host r r'. absurd (nothing host r);
  empty = λ x far. refl;
}

-- Two bytes on both sides of a cluster's end.
write_at-WritePost_example :
    WritePost function_file peek fresh blank
      (7 ∷ 8 ∷ [])
      65535
      (write_at function_file fresh blank (7 ∷ 8 ∷ []) (some 65535))
write_at-WritePost_example =
    write_at-WritePost function_file peek fresh blank (7 ∷ 8 ∷ []) 65535
      (record { succeeds = λ f p at. refl; stores = λ f p at x. refl }) fresh-IsValid (omega arith)

length-bytes_at : (f : ℕ → ℕ) (n at : ℕ) → length (bytes_at f n at) ≤ n
length-bytes_at f zero at = omega arith
length-bytes_at f (suc n) at = omega (arith, length-bytes_at f n (at + 1))

get_or-bytes_at : (f : ℕ → ℕ) (n at k : ℕ) → k < n → get_or (bytes_at f n at) k 0 ≡ f (at + k)
get_or-bytes_at f zero at k lt = absurd (omega arith)
get_or-bytes_at f (suc n) at zero lt = let e : at + 0 ≡ at = omega arith in rw e
get_or-bytes_at f (suc n) at (suc k) lt =
    let e : at + suc k ≡ at + 1 + k = omega arith in
    rw e (get_or-bytes_at f n (at + 1) k (omega arith))

-- One mapped cluster, with the bytes 0, 1, 2, ... of the host file in it.
abbrev mapped : Writer
mapped = record {
  size = 200000;
  l1_size = 1;
  l2map = (0, 1) ∷ [];
  next_host = 2;
  finalized = false;
}

abbrev counting : ℕ → ℕ
counting x = x % 256

read_at-Shows_example :
    (b : Bytes) × (read_at function_file mapped counting 4 (some 65534) ≡ (b, none))
    × Shows function_file peek mapped counting 65534 4 b
read_at-Shows_example =
    read_at-Shows function_file peek mapped counting 4 65534
      (record {
        gives = λ f n at.
            (bytes_at f n at, refl, length-bytes_at f n at, λ k lt. get_or-bytes_at f n at k lt);
      })
      (omega arith) (omega arith)
