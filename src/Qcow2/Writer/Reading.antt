-- ===== src/Qcow2/Writer/Reading.antt =====
-- Reading through the writer gives the bytes of the flat virtual disk.
use fsforge.Common.{
  ℕ, zero, suc, ◌+◌, ◌-◌, ◌*◌, ◌/◌, ◌%◌, ◌≤◌, ◌<◌, ◌≡◌, inl, inr, refl, sym, ap, ◌∙◌, min, false,
  leb, Option, none, some, [], ◌∷◌, ◌++◌, length, get_or, Bytes, overwrite, replicate, arith,
  Bool-cases, Option-cases, ltb, ltb→lt, ltb-false, length-replicate, length-overwrite,
  length-append, get_or-replicate, get_or-out, get_or-overwrite_inside, get_or-overwrite_outside,
}
use mathlib.Core.Path.{subst}
use fsforge.Qcow2.Header.{cluster_size}
use fsforge.Qcow2.Writer.{HostFile, Writer, lookup, read_span, read_loop, read_at}
use fsforge.Qcow2.Writer.Flat.{view, byte_of}

get_or-append_left : (xs ys : Bytes) (k : ℕ) → k < length xs → get_or (xs ++ ys) k 0 ≡ get_or xs k 0
get_or-append_left [] ys k lt = absurd (omega arith)
get_or-append_left (x ∷ xs) ys zero lt = refl
get_or-append_left (x ∷ xs) ys (suc k) lt = get_or-append_left xs ys k (omega arith)

get_or-append_right :
    (xs ys : Bytes) (k : ℕ) → length xs ≤ k → get_or (xs ++ ys) k 0 ≡ get_or ys (k - length xs) 0
get_or-append_right [] ys k le = let e : k - 0 ≡ k = omega arith in rw e
get_or-append_right (x ∷ xs) ys zero le = absurd (omega arith)
get_or-append_right (x ∷ xs) ys (suc k) le =
    let e : suc k - suc (length xs) ≡ k - length xs = omega arith in
    rw e (get_or-append_right xs ys k (omega arith))

module _ {F : Type 0} (h : HostFile F) (peek : F → ℕ → ℕ) where
  -- A host file whose reads give its bytes, at most as many as asked; `peek` is 0 behind its end.
  pub record GivesBytes : Type 0 where
    pub gives :
        (f : F) (n at : ℕ)
        → (b : Bytes) × (h.read f n at ≡ some b)
          × (length b ≤ n)
          × ((k : ℕ) → k < n → get_or b k 0 ≡ peek f (at + k))

  -- `n` bytes of the virtual disk from `off` on.
  abbrev pub Shows : Writer → F → ℕ → ℕ → Bytes → Type 0
  Shows w f off n b = (length b ≡ n) × ((k : ℕ) → k < n → get_or b k 0 ≡ view h peek w f (off + k))

  padded :
      (b : Bytes) (n k : ℕ)
      → length b ≤ n
      → k < n
      → get_or (overwrite 0 b (replicate n 0)) k 0 ≡ get_or b k 0
  padded b n k short lt = elim (Bool-cases (ltb k (length b))) [
    | inl inside ↦
        let e : k - 0 ≡ k = omega arith in
        get_or-overwrite_inside 0 b (replicate n 0) k (omega arith)
          (omega (arith, ltb→lt _ _ inside)) (omega (arith, length-replicate {A = ℕ} n 0))
        ∙ ap (λ (j : ℕ). get_or b j 0) e
    | inr behind ↦
        let le : length b ≤ k = ltb-false _ _ behind in
        get_or-overwrite_outside 0 b (replicate n 0) k (inr (omega arith))
        ∙ get_or-replicate n k 0 0 lt
        ∙ sym (get_or-out b k 0 le)
  ]

  place :
      (off n host k : ℕ)
      → off % cluster_size + n ≤ cluster_size
      → k < n
      → host * cluster_size + off % cluster_size + k
        ≡ host * cluster_size + (off + k) % cluster_size
  place off n host k fits lt = omega arith

  -- A byte of the cluster of `off`.
  at_cluster :
      (w : Writer) (f : F) (off n k : ℕ) (o : Option ℕ)
      → lookup (off / cluster_size) w.l2map ≡ o
      → off % cluster_size + n ≤ cluster_size
      → k < n
      → view h peek w f (off + k) ≡ byte_of h peek f (off + k) o
  at_cluster w f off n k o e fits lt =
      let q : (off + k) / cluster_size ≡ off / cluster_size = omega arith in
      ap (λ (gc : ℕ). byte_of h peek f (off + k) (lookup gc w.l2map)) q
      ∙ ap (byte_of h peek f (off + k)) e

  read_span-Shows :
      (w : Writer) (f : F) (off n : ℕ)
      → GivesBytes
      → off % cluster_size + n ≤ cluster_size
      → (b : Bytes) × (read_span h w f off n ≡ some b) × Shows w f off n b
  unfolding read_span
  read_span-Shows w f off n g fits = elim (Option-cases (lookup (off / cluster_size) w.l2map)) [
    | inl e ↦ (
      replicate n 0,
      rw (read_span, e),
      (
        length-replicate {A = ℕ} n 0,
        λ k lt. get_or-replicate n k 0 0 lt ∙ sym (at_cluster w f off n k none e fits lt),
      ),
    )
    | inr (host, e) ↦
        let r = g.gives f n (host * cluster_size + off % cluster_size) in
        let there : h.read f n (host * cluster_size + off % cluster_size) ≡ some r.0 = r.1 in
        (
          overwrite 0 r.0 (replicate n 0),
          rw (read_span, e, there),
          (
            length-overwrite 0 r.0 (replicate n 0) ∙ length-replicate {A = ℕ} n 0,
            λ k lt.
                padded r.0 n k r.2 lt
                ∙ r.3 k lt
                ∙ ap (peek f) (place off n host k fits lt)
                ∙ sym (at_cluster w f off n k (some host) e fits lt),
          ),
        )
  ]

  append-Shows :
      (w : Writer) (f : F) (off n m : ℕ) (b c : Bytes)
      → Shows w f off n b
      → Shows w f (off + n) m c
      → Shows w f off (n + m) (b ++ c)
  append-Shows w f off n m b c first rest = (
    omega (arith, length-append b c, first.0, rest.0),
    λ k lt. elim (Bool-cases (ltb k n)) [
      | inl inside ↦
          let i : k < n = ltb→lt _ _ inside in
          get_or-append_left b c k (omega (arith, first.0)) ∙ first.1 k i
      | inr behind ↦
          let i : n ≤ k = ltb-false _ _ behind in
          let e : k - length b ≡ k - n = omega (arith, first.0) in
          let d : off + n + (k - n) ≡ off + k = omega arith in
          get_or-append_right b c k (omega (arith, first.0))
          ∙ ap (λ (j : ℕ). get_or c j 0) e
          ∙ rest.1 (k - n) (omega arith)
          ∙ ap (view h peek w f) d
    ],
  )

  read_loop-Shows :
      (fuel : ℕ) (w : Writer) (f : F) (off left : ℕ)
      → GivesBytes
      → left ≤ fuel
      → off + left ≤ w.size
      → (b : Bytes) × (read_loop h fuel w f off left ≡ (b, none)) × Shows w f off left b
  unfolding read_loop
  read_loop-Shows fuel w f off zero g enough inside =
      ([], refl, (refl, λ k lt. absurd (omega arith)))
  read_loop-Shows zero w f off (suc left) g enough inside = absurd (omega arith)
  read_loop-Shows (suc fuel) w f off (suc left) g enough inside =
      let n : ℕ = min (cluster_size - off % cluster_size) (suc left) in
      let first = read_span-Shows w f off n g (omega arith) in
      let rest = read_loop-Shows fuel w f (off + n) (suc left - n) g (omega arith) (omega arith) in
      let room : leb w.size off ≡ false = ground arith in
      let a : read_span h w f off n ≡ some first.0 = first.1 in
      let r : read_loop h fuel w f (off + n) (suc left - n) ≡ (rest.0, none) = rest.1 in
      let whole : n + (suc left - n) ≡ suc left = omega arith in
      (
        first.0 ++ rest.0,
        rw (read_loop, room, a, r),
        subst (λ (m : ℕ). Shows w f off m (first.0 ++ rest.0)) whole
            (append-Shows w f off n (suc left - n) first.0 rest.0 first.2 rest.2),
      )

  -- A read that lies on the virtual disk, over a host file that gives its bytes, succeeds and returns the
  -- bytes of the virtual disk: those that were written, and zeros where no cluster is mapped or the host
  -- file ends.
  pub read_at-Shows :
      (w : Writer) (f : F) (total off : ℕ)
      → GivesBytes
      → off < w.size
      → off + total ≤ w.size
      → (b : Bytes) × (read_at h w f total (some off) ≡ (b, none)) × Shows w f off total b
  unfolding read_at
  read_at-Shows w f total off g lt inside =
      let room : leb w.size off ≡ false = ground arith in
      let r = read_loop-Shows total w f off total g (omega arith) inside in
      (r.0, rw (room) (r.1), r.2)
