-- ===== src/Qcow2/Writer/Flat.antt =====
-- The writer is a flat device: what a write stores is what the virtual bytes become.
use fsforge.Common.{
  ℕ, zero, suc, ◌+◌, ◌-◌, ◌*◌, ◌/◌, ◌%◌, ◌≤◌, ◌<◌, ◌≡◌, ◌≢◌, ◌⊎◌, inl, inr, refl, sym, ap, ◌∙◌, min,
  true, false, ltb, leb, ◌==◌, Option, none, some, List, [], ◌∷◌, length, take, drop, Bytes, arith,
  Bool-cases, Option-cases, length-take, length-drop, ltb→lt, ltb-false,
}
use mathlib.Core.Path.{subst}
use fsforge.Device.{i63}
use fsforge.Qcow2.Header.{cluster_size}
use fsforge.Qcow2.Writer.{
  HostFile, Writer, Wrote, lookup, all_zero, map_cluster, put_chunk, write_loop, write_at,
  out_of_range, new_writer, out_of_range,
}
use fsforge.Qcow2.Writer.ClusterMap.{lookup_new, lookup_old, new_cases}
use fsforge.Qcow2.Writer.Stored.{
  stored, stored_inside, stored_outside, where_is, same_place, other_cluster, get_or-all_zero,
  nowhere, stored_split,
}

module _ {F : Type 0} (h : HostFile F) (peek : F → ℕ → ℕ) where
  -- A host file whose writes succeed and store their bytes; `peek` is a byte of the file.
  pub record StoresBytes : Type 0 where
    pub succeeds : (f : F) (p : Bytes) (at : ℕ) → (h.write f p at).1 ≡ true
    pub stores : (f : F) (p : Bytes) (at x : ℕ) → peek (h.write f p at).0 x ≡ stored p at (peek f) x

  -- Distinct host clusters below the next one, which is still empty like all behind it.
  pub record IsValid (w : Writer) (f : F) : Type 0 where
    pub below : (gc host : ℕ) → lookup gc w.l2map ≡ some host → host < w.next_host
    pub distinct :
        (gc gc' host : ℕ)
        → lookup gc w.l2map ≡ some host
        → lookup gc' w.l2map ≡ some host
        → gc ≡ gc'
    pub empty : (x : ℕ) → w.next_host * cluster_size ≤ x → peek f x ≡ 0

  abbrev pub byte_of : F → ℕ → Option ℕ → ℕ
  byte_of f v none = 0
  byte_of f v (some host) = peek f (host * cluster_size + v % cluster_size)

  -- A byte of the virtual disk.
  abbrev pub view : Writer → F → ℕ → ℕ
  view w f v = byte_of f v (lookup (v / cluster_size) w.l2map)

  -- The bytes of another host cluster.
  untouched :
      (o : Option ℕ) (f : F) (chunk : Bytes) (off host v : ℕ)
      → StoresBytes
      → off % cluster_size + length chunk ≤ cluster_size
      → o ≢ some host
      → byte_of (h.write f chunk (host * cluster_size + off % cluster_size)).0 v o ≡ byte_of f v o
  untouched none f chunk off host v s fits other = refl
  untouched (some host') f chunk off host v s fits other =
      let differ : host' ≢ host = λ q. other (ap some q) in
      s.stores f chunk (host * cluster_size + off % cluster_size)
        (host' * cluster_size + v % cluster_size)
      ∙ stored_outside chunk (host * cluster_size + off % cluster_size) (peek f)
          (host' * cluster_size + v % cluster_size) (omega arith)

  -- A chunk written into the cluster `host`, under the map `m`, in which `host` is the cluster of `off` and
  -- of no other; `old` is the disk before.
  chunk_stored :
      (m : List (ℕ × ℕ)) (f : F) (chunk : Bytes) (off host v : ℕ) (old : ℕ → ℕ)
      → StoresBytes
      → lookup (off / cluster_size) m ≡ some host
      → ((gc : ℕ) → lookup gc m ≡ some host → gc ≡ off / cluster_size)
      → off % cluster_size + length chunk ≤ cluster_size
      → byte_of f v (lookup (v / cluster_size) m) ≡ old v
      → byte_of
          (h.write f chunk (host * cluster_size + off % cluster_size)).0
          v
          (lookup (v / cluster_size) m)
        ≡ stored chunk off old v
  chunk_stored m f chunk off host v old s e only fits before =
      elim (Bool-cases (v / cluster_size == off / cluster_size)) [
        | inl same ↦
            let q : v / cluster_size ≡ off / cluster_size = ground arith in
            let e' : lookup (v / cluster_size) m ≡ some host = ap (λ (gc : ℕ). lookup gc m) q ∙ e in
            let b : peek f (host * cluster_size + v % cluster_size) ≡ old v =
              sym (ap (byte_of f v) e') ∙ before in
            ap (byte_of (h.write f chunk (host * cluster_size + off % cluster_size)).0 v) e'
            ∙ s.stores f chunk (host * cluster_size + off % cluster_size)
                (host * cluster_size + v % cluster_size)
            ∙ same_place chunk (peek f) old off host v q b
        | inr differ ↦
            let other : v / cluster_size ≢ off / cluster_size = λ q. ground arith in
            untouched (lookup (v / cluster_size) m) f chunk off host v s fits
              (λ q. other (only (v / cluster_size) q))
            ∙ before
            ∙ sym (stored_outside chunk off old v (other_cluster off (length chunk) v other fits))
      ]

  -- What one round of the loop does.
  abbrev pub StepPost : Writer → F → Bytes → ℕ → Writer → F → Type 0
  StepPost w f chunk off w' f' =
      IsValid w' f' × ((v : ℕ) → view w' f' v ≡ stored chunk off (view w f) v)

  mapped_step :
      (w : Writer) (f : F) (chunk : Bytes) (off host : ℕ)
      → StoresBytes
      → IsValid w f
      → lookup (off / cluster_size) w.l2map ≡ some host
      → off % cluster_size + length chunk ≤ cluster_size
      → StepPost w f chunk off w (h.write f chunk (host * cluster_size + off % cluster_size)).0
  mapped_step w f chunk off host s i e fits = (
    record {
      below = i.below;
      distinct = i.distinct;
      empty = λ x far.
          s.stores f chunk (host * cluster_size + off % cluster_size) x
          ∙ stored_outside chunk (host * cluster_size + off % cluster_size) (peek f) x
              (inr (omega (arith, i.below (off / cluster_size) host e)))
          ∙ i.empty x far;
    },
    λ v.
        chunk_stored w.l2map f chunk off host v (view w f) s e
          (λ gc q. i.distinct gc (off / cluster_size) host q e) fits refl,
  )

  -- Before the write, the new cluster reads as the unmapped one did.
  new_before :
      (w : Writer) (f : F) (gc v : ℕ)
      → IsValid w f
      → lookup gc w.l2map ≡ none
      → byte_of f v (lookup (v / cluster_size) ((gc, w.next_host) ∷ w.l2map)) ≡ view w f v
  new_before w f gc v i e = elim (Bool-cases (v / cluster_size == gc)) [
    | inl same ↦
        let q : v / cluster_size ≡ gc = ground arith in
        ap (λ (k : ℕ). byte_of f v (lookup k ((gc, w.next_host) ∷ w.l2map))) q
        ∙ ap (byte_of f v) (lookup_new gc w.next_host w.l2map)
        ∙ i.empty (w.next_host * cluster_size + v % cluster_size) (omega arith)
        ∙ sym (ap (byte_of f v) e)
        ∙ ap (λ (k : ℕ). byte_of f v (lookup k w.l2map)) (sym q)
    | inr differ ↦
        let other : v / cluster_size ≢ gc = λ q. ground arith in
        ap (byte_of f v) (lookup_old gc (v / cluster_size) w.next_host w.l2map other)
  ]

  new_IsValid :
      (w : Writer) (f : F) (chunk : Bytes) (gc in_cl : ℕ)
      → StoresBytes
      → IsValid w f
      → in_cl + length chunk ≤ cluster_size
      → IsValid (map_cluster gc w) (h.write f chunk (w.next_host * cluster_size + in_cl)).0
  unfolding map_cluster
  new_IsValid w f chunk gc in_cl s i fits = record {
    below = λ gc' host q. elim (new_cases gc gc' w.next_host host w.l2map q) [
      | inl (e, e') ↦ omega arith
      | inr q' ↦ omega (arith, i.below gc' host q')
    ];
    distinct = λ a b host q r. elim (new_cases gc a w.next_host host w.l2map q) [
      | inl (e, e') ↦ elim (new_cases gc b w.next_host host w.l2map r) [
        | inl (d, d') ↦ e ∙ sym d
        | inr r' ↦ absurd (omega (arith, i.below b host r'))
      ]
      | inr q' ↦ elim (new_cases gc b w.next_host host w.l2map r) [
        | inl (d, d') ↦ absurd (omega (arith, i.below a host q'))
        | inr r' ↦ i.distinct a b host q' r'
      ]
    ];
    empty = λ x far.
        s.stores f chunk (w.next_host * cluster_size + in_cl) x
        ∙ stored_outside chunk (w.next_host * cluster_size + in_cl) (peek f) x (inr (omega arith))
        ∙ i.empty x (omega arith);
  }

  new_step :
      (w : Writer) (f : F) (chunk : Bytes) (off : ℕ)
      → StoresBytes
      → IsValid w f
      → lookup (off / cluster_size) w.l2map ≡ none
      → off % cluster_size + length chunk ≤ cluster_size
      → StepPost w f chunk off
          (map_cluster (off / cluster_size) w)
          (h.write f chunk (w.next_host * cluster_size + off % cluster_size)).0
  unfolding map_cluster
  new_step w f chunk off s i e fits = (
    new_IsValid w f chunk (off / cluster_size) (off % cluster_size) s i fits,
    λ v.
        chunk_stored ((off / cluster_size, w.next_host) ∷ w.l2map) f chunk off w.next_host v
          (view w f) s (lookup_new (off / cluster_size) w.next_host w.l2map)
          (λ gc' q. elim (new_cases (off / cluster_size) gc' w.next_host w.next_host w.l2map q) [
            | inl (q', _) ↦ q'
            | inr q' ↦ absurd (omega (arith, i.below gc' w.next_host q'))
          ])
          fits (new_before w f (off / cluster_size) v i e),
  )

  -- A chunk of zeros for a cluster that is not mapped.
  zero_step :
      (w : Writer) (f : F) (chunk : Bytes) (off v : ℕ)
      → lookup (off / cluster_size) w.l2map ≡ none
      → all_zero chunk ≡ true
      → off % cluster_size + length chunk ≤ cluster_size
      → view w f v ≡ stored chunk off (view w f) v
  zero_step w f chunk off v e zeros fits = elim (where_is off (length chunk) v) [
    | inl (lo, hi) ↦
        let q : v / cluster_size ≡ off / cluster_size = omega arith in
        ap (λ (k : ℕ). byte_of f v (lookup k w.l2map)) q
        ∙ ap (byte_of f v) e
        ∙ sym (get_or-all_zero chunk (v - off) zeros)
        ∙ sym (stored_inside chunk off (view w f) v lo hi)
    | inr out ↦ sym (stored_outside chunk off (view w f) v out)
  ]

  -- What a write of `p` at `off` leaves, with `written` bytes before it.
  abbrev pub LoopPost : Writer → F → Bytes → ℕ → ℕ → Wrote F → Type 0
  LoopPost w f p off written r =
      (r.failed ≡ none)
      × (r.count ≡ written + length p)
      × IsValid r.writer r.host
      × ((v : ℕ) → view r.writer r.host v ≡ stored p off (view w f) v)

  after_step :
      (n : ℕ) (w w' : Writer) (f f' : F) (p : Bytes) (off written : ℕ) (r : Wrote F)
      → n ≤ length p
      → StepPost w f (take n p) off w' f'
      → LoopPost w' f' (drop n p) (off + n) (written + length (take n p)) r
      → LoopPost w f p off written r
  after_step n w w' f f' p off written r le step rest = (
    rest.0,
    rest.1 ∙ omega (arith, length-take n p, length-drop n p),
    rest.2,
    λ v. rest.3 v ∙ stored_split n p off (view w f) (view w' f') v le (step.1 v),
  )

  -- A chunk is written, and the loop goes on.
  after_put :
      (more : F → ℕ → Wrote F) (w w' : Writer) (f : F) (n : ℕ) (p : Bytes) (off at written : ℕ)
      → StoresBytes
      → n ≤ length p
      → StepPost w f (take n p) off w' (h.write f (take n p) at).0
      → ((f' : F) (k : ℕ) → IsValid w' f' → LoopPost w' f' (drop n p) (off + n) k (more f' k))
      → LoopPost w f p off written (put_chunk h more w' f (take n p) at written)
  after_put more w w' f n p off at written s le step go =
      let fine : (h.write f (take n p) at).1 ≡ true = s.succeeds f (take n p) at in
      rw fine (
        after_step n w w' f (h.write f (take n p) at).0 p off written _ le step
          (go (h.write f (take n p) at).0 (written + length (take n p)) step.0))

  write_loop-LoopPost :
      (fuel : ℕ) (w : Writer) (f : F) (p : Bytes) (off written : ℕ)
      → StoresBytes
      → IsValid w f
      → length p ≤ fuel
      → LoopPost w f p off written (write_loop h fuel w f p off written)
  unfolding write_loop
  write_loop-LoopPost fuel w f [] off written s i enough =
      (refl, omega arith, i, λ v. sym (stored_outside [] off (view w f) v (nowhere off v)))
  write_loop-LoopPost zero w f (x ∷ p) off written s i enough = absurd (omega arith)
  write_loop-LoopPost (suc fuel) w f (x ∷ p) off written s i enough =
      let n : ℕ = min (cluster_size - off % cluster_size) (length (x ∷ p)) in
      let le : n ≤ length (x ∷ p) = omega arith in
      let fits : off % cluster_size + length (take n (x ∷ p)) ≤ cluster_size =
        omega (arith, length-take n (x ∷ p)) in
      let short : length (drop n (x ∷ p)) ≤ fuel = omega (arith, length-drop n (x ∷ p)) in
      elim (Option-cases (lookup (off / cluster_size) w.l2map)) [
        | inr (host, e) ↦
            rw (write_loop, e)
              (after_put (λ f' k. write_loop h fuel w f' (drop n (x ∷ p)) (off + n) k) w w f n
                (x ∷ p) off (host * cluster_size + off % cluster_size) written s le
                (mapped_step w f (take n (x ∷ p)) off host s i e fits)
                (λ f' k i'. write_loop-LoopPost fuel w f' (drop n (x ∷ p)) (off + n) k s i' short))
        | inl e ↦ elim (Bool-cases (all_zero (take n (x ∷ p)))) [
          | inl z ↦
              rw (write_loop, e, z)
                (after_step n w w f f (x ∷ p) off written _ le
                  (i, λ v. zero_step w f (take n (x ∷ p)) off v e z fits)
                  (write_loop-LoopPost fuel w f (drop n (x ∷ p)) (off + n)
                    (written + length (take n (x ∷ p))) s i short))
          | inr z ↦
              let w' : Writer = map_cluster (off / cluster_size) w in
              rw (write_loop, e, z)
                (after_put (λ f' k. write_loop h fuel w' f' (drop n (x ∷ p)) (off + n) k) w w' f n
                  (x ∷ p) off (w.next_host * cluster_size + off % cluster_size) written s le
                  (new_step w f (take n (x ∷ p)) off s i e fits)
                  (λ f' k i'.
                    write_loop-LoopPost fuel w' f' (drop n (x ∷ p)) (off + n) k s i' short))
        ]
      ]

  -- What `WriteAt` leaves at an offset that is not negative.
  abbrev pub WritePost : Writer → F → Bytes → ℕ → Wrote F → Type 0
  WritePost w f p off r =
      ((off + length p ≤ w.size) × LoopPost w f p off 0 r)
      ⊎ ((w.size < off + length p)
          × (r ≡ record { writer = w; host = f; count = 0; failed = some out_of_range }))

  -- A write whose end is below 2^63, through a valid writer, over a host file whose writes succeed and store their bytes, stores
  -- all of its bytes and no other: a byte of the virtual disk is the one written to its place, or the one
  -- that was there; unmapped clusters read as zeros, also where a chunk of zeros was not stored. The
  -- writer stays valid. A write that ends past the virtual size is refused and changes nothing.
  pub write_at-WritePost :
      (w : Writer) (f : F) (p : Bytes) (off : ℕ)
      → StoresBytes
      → IsValid w f
      → off + length p < i63
      → WritePost w f p off (write_at h w f p (some off))
  unfolding write_at
  write_at-WritePost w f p off s i small =
      let whole : leb i63 (off + length p) ≡ false = ground arith in
      elim (Bool-cases (ltb w.size (off + length p))) [
        | inl over ↦ rw (whole, over) (inr (ltb→lt _ _ over, refl))
        | inr fits ↦
            rw (whole, fits)
              (inl
                (ltb-false _ _ fits, write_loop-LoopPost (length p) w f p off 0 s i (omega arith)))
      ]

  nothing : (host : ℕ) → none ≡ some host → ⊥
  nothing host r = subst (λ (o : Option ℕ). elim o [ none ↦ Unit {0} | some x ↦ ⊥ ]) r tt

  -- A new writer over a host file that is empty behind the header's cluster is valid.
  pub new_writer-IsValid :
      (size : ℕ) (f : F) (w : Writer)
      → new_writer size ≡ some w
      → ((x : ℕ) → cluster_size ≤ x → peek f x ≡ 0)
      → IsValid w f
  unfolding new_writer lookup
  new_writer-IsValid size f w made fresh = elim (Bool-cases (size == 0)) [
    | inl z ↦
        let q : none ≡ some w = rw z at made in
        absurd (subst (λ (o : Option Writer). elim o [ none ↦ Unit {0} | some x ↦ ⊥ ]) q tt)
    | inr nz ↦
        let q = rw nz at made in
        subst (λ (o : Option Writer). elim o [ none ↦ Unit {0} | some x ↦ IsValid x f ]) q
          (record {
            below = λ gc host r. absurd (nothing host r);
            distinct = λ gc gc' host r r'. absurd (nothing host r);
            empty = λ x far. fresh x (omega arith);
          })
  ]
