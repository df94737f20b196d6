-- ===== src/Cpio/Reader/Ends.antt =====
-- Reading an archive comes to an end.
use Prim.Native.Nat.{bit_or}
use mathlib.Core.Path.{subst}
use fsforge.Common.{
  ℕ, zero, suc, ◌+◌, ◌-◌, ◌*◌, ◌/◌, ◌%◌, ◌≤◌, ◌<◌, ◌≡◌, refl, sym, ap, ◌∙◌, inl, inr, ◌⊎◌, Bool,
  true, false, not, ◌&&◌, ◌||◌, ltb, leb, ◌==◌, if◌then◌else◌, Option, none, some, List, [], ◌∷◌,
  ◌++◌, length, take, replicate, Bytes, same_bytes, arith, Bool-cases, Option-cases, ltb→lt,
  ltb-false,
}
use fsforge.Device
use fsforge.Device.{
  filled, Device, ReadResult, read, read_panic, at, eof, Offset, Mem, mem_device, mem_read_at,
  mem_size,
}
use fsforge.Image.{Node, Store, node_at, is_dir, find, valid_name, place}
use fsforge.Cpio.Header
use fsforge.Cpio.Header.{Hdr, header_size, parse_header, parsed, unknown, err, n_align, align4}
use fsforge.Cpio.Mode.{mode_from_unix}
use fsforge.Cpio.Reader.{
  Result, ok, fail, stuck, Reading, dir_node, descend, link_leaf, link, link_path, all_valid,
  last_apart, read_failed, bad_header, bad_magic, with_tree, link_new, node_of, add_new, add_entry,
  map_get, buffer, is_regular, then_read, read_entry, read_round, read_from, read_archive,
  split_path, trim_nul, trailer_name,
}

-- The result of a loop that ran out of fuel.
unfoldable pub is_stuck : {A : Type 0} → Result A → Bool
is_stuck (ok a) = false
is_stuck (fail stuck) = true
is_stuck (fail e) = false

-- A read at the end of a device or behind it puts no byte into the buffer.
abbrev pub IsBounded : {D : Type 0} → Device D → D → Type 0
IsBounded d x =
    (n off : ℕ) → d.size x ≤ off → (e : Option Device.Error) × (d.read_at x n (at off) ≡ read [] e)

-- The in-memory device is one.
pub mem_device-IsBounded : (m : Mem) → IsBounded mem_device m
unfolding mem_read_at mem_size
mem_device-IsBounded m n off h =
    let k : leb (length m.buffer) off ≡ true = ground arith in (some eof, rw k refl)

either :
    {A : Type 0}
    → (b : Bool) (u v : Result A) → is_stuck u ≡ false
    → is_stuck v ≡ false
    → is_stuck (if b then u else v) ≡ false
either true u v h k = h
either false u v h k = k

link_leaf-ends :
    (s : Store) (dir : ℕ) (leaf : Bytes) (p : ℕ) → is_stuck (link_leaf s dir leaf p) ≡ false
unfolding link_leaf is_stuck
link_leaf-ends s dir leaf p = elim (Option-cases (find leaf (node_at s dir).children)) [
  | inr (e, k) ↦ rw (link_leaf, k) (either (is_dir s p && is_dir s e.node) _ _ refl refl)
  | inl k ↦ rw (link_leaf, k) (either (valid_name leaf) _ _ refl refl)
]

link_path-ends : (s : Store) (comps : List Bytes) (p : ℕ) → is_stuck (link_path s comps p) ≡ false
unfolding link is_stuck
link_path-ends s [] p = refl
link_path-ends s (c ∷ cs) p =
    let before = (last_apart c cs).0 in
    let leaf = (last_apart c cs).1 in
    let d = descend s 0 before in
    either (not (all_valid before && valid_name leaf)) _ _ refl (link_leaf-ends d.1 d.0 leaf p)

with_tree-ends :
    (r : Reading) (q : Result Store) → is_stuck q ≡ false → is_stuck (with_tree r q) ≡ false
unfolding is_stuck
with_tree-ends r (ok s) h = refl
with_tree-ends r (fail e) h = h

link_new-ends :
    (r : Reading) (comps : List Bytes) (n : Node) → is_stuck (link_new r comps n) ≡ false
link_new-ends r comps n =
    with_tree-ends r (link_path (place n r.tree) comps (length r.tree))
      (link_path-ends (place n r.tree) comps (length r.tree))

symlink_ends :
    (o : Option Bytes) (r : Reading) (comps : List Bytes) (n : Node)
    → is_stuck (elim o as (λ o. Result Reading) [
      | none ↦ fail read_failed
      | some target ↦ link_new r comps (record n { link = target })
    ])
      ≡ false
unfolding is_stuck
symlink_ends none r comps n = refl
symlink_ends (some target) r comps n = link_new-ends r comps (record n { link = target })

abbrev Later : (Reading → ℕ → Result Reading) → ℕ → Type 0
Later go pos = (r : Reading) (next : ℕ) → pos < next → is_stuck (go r next) ≡ false

after_entry :
    (go : Reading → ℕ → Result Reading) (pos next : ℕ) (q : Result Reading)
    → Later go pos
    → pos < next
    → is_stuck q ≡ false
    → is_stuck (then_read go next q) ≡ false
unfolding is_stuck
after_entry go pos next (ok r) each l h = each r next l
after_entry go pos next (fail e) each l h = h

filled_nothing :
    (e : Option Device.Error)
    → (filled header_size (read [] e) ≡ none)
      ⊎ (filled header_size (read [] e) ≡ some (replicate header_size 0))
unfolding filled
filled_nothing none = inr refl
filled_nothing (some Device.eof) = inr refl
filled_nothing (some Device.negative_offset) = inl refl
filled_nothing (some Device.short_write) = inl refl
filled_nothing (some Device.out_of_range) = inl refl

no_header : parse_header (replicate header_size 0) ≡ unknown
unfolding parse_header fsforge.Common.same_bytes
no_header = refl

module _ {D : Type 0} (d : Device D) (x : D) where
  add_new-ends :
      (r : Reading) (h : Hdr) (comps : List Bytes) (body : ℕ)
      → is_stuck (add_new d x r h comps body) ≡ false
  add_new-ends r h comps body =
      let m = mode_from_unix h.mode in
      let n = node_of d x h in
      either m.dir _ _ (link_new-ends r comps n) (
        either m.symlink _ _ (symlink_ends (buffer d x h.filesize body) r comps n) (
          either (m.device || m.char_device) _ _
            (link_new-ends r comps (record n { rdev = bit_or (h.rdevmajor * 256) h.rdevminor }))
            (link_new-ends _ comps _)))

  add_entry-ends :
      (r : Reading) (h : Hdr) (name : Bytes) (body : ℕ)
      → is_stuck (add_entry d x r h name body) ≡ false
  unfolding add_entry is_stuck
  add_entry-ends r h name body =
      let comps = split_path name in
      let m = mode_from_unix h.mode in
      either (length comps == 0) _ _ refl (
        either (is_regular m && leb 2 h.nlink) _ _
          (elim (Option-cases (map_get h.ino r.ino_map)) [
            | inl k ↦ rw k (add_new-ends r h comps body)
            | inr (p, k) ↦ rw k (with_tree-ends r (link_path _ comps p) (link_path-ends _ comps p))
          ])
          (add_new-ends r h comps body))

  entry_stops :
      (go : Reading → ℕ → Result Reading) (r : Reading) (pos : ℕ) (h : Hdr) (o : Option Bytes)
      → Later go pos
      → is_stuck (elim o as (λ o. Result Reading) [
        | none ↦ fail read_failed
        | some b ↦
            let name = trim_nul b in
            let body = pos + header_size + n_align h.namesize in
            if same_bytes name trailer_name
            then ok r
            else then_read go (align4 (body + h.filesize)) (add_entry d x r h name body)
      ])
        ≡ false
  unfolding is_stuck align4
  entry_stops go r pos h none each = refl
  entry_stops go r pos h (some b) each =
      let body = pos + header_size + n_align h.namesize in
      either (same_bytes (trim_nul b) trailer_name) _ _ refl (
        after_entry go pos ((body + h.filesize + 3) / 4 * 4) (add_entry d x r h (trim_nul b) body)
          each (omega arith) (add_entry-ends r h (trim_nul b) body))

  header_stops :
      (go : Reading → ℕ → Result Reading) (r : Reading) (pos : ℕ) (q : Header.Result)
      → Later go pos
      → is_stuck (elim q as (λ q. Result Reading) [
        | err e ↦ fail bad_header
        | unknown ↦ fail bad_magic
        | parsed h ↦ read_entry d x go r pos h
      ])
        ≡ false
  unfolding is_stuck
  header_stops go r pos (err e) each = refl
  header_stops go r pos unknown each = refl
  header_stops go r pos (parsed h) each =
      entry_stops go r pos h (buffer d x h.namesize (pos + header_size)) each

  round_stops :
      (go : Reading → ℕ → Result Reading) (r : Reading) (pos : ℕ) (o : Option Bytes)
      → Later go pos
      → is_stuck (elim o as (λ o. Result Reading) [
        | none ↦ fail read_failed
        | some head ↦ elim (parse_header head) as (λ q. Result Reading) [
          | err e ↦ fail bad_header
          | unknown ↦ fail bad_magic
          | parsed h ↦ read_entry d x go r pos h
        ]
      ])
        ≡ false
  unfolding is_stuck
  round_stops go r pos none each = refl
  round_stops go r pos (some head) each = header_stops go r pos (parse_header head) each

  -- A header of zeros, as behind the end, is no header.
  zeros_end :
      (go : Reading → ℕ → Result Reading) (r : Reading) (pos : ℕ)
      → is_stuck (elim (parse_header (replicate header_size 0)) as (λ q. Result Reading) [
        | err e ↦ fail bad_header
        | unknown ↦ fail bad_magic
        | parsed h ↦ read_entry d x go r pos h
      ])
        ≡ false
  unfolding is_stuck
  zeros_end go r pos =
      subst
        (λ q.
          is_stuck (elim q as (λ q. Result Reading) [
            | err e ↦ fail bad_header
            | unknown ↦ fail bad_magic
            | parsed h ↦ read_entry d x go r pos h
          ])
          ≡ false)
        (sym no_header) refl

  behind_end :
      (go : Reading → ℕ → Result Reading) (r : Reading) (pos : ℕ)
      → IsBounded d x
      → d.size x ≤ pos
      → is_stuck (read_round d x go r pos) ≡ false
  unfolding is_stuck buffer
  behind_end go r pos bounded l =
      let (e, q) = bounded header_size pos l in
      let f = ap (filled header_size) q in
      let P : Option Bytes → Type 0 = λ o.
        is_stuck (elim o as (λ o. Result Reading) [
          | none ↦ fail read_failed
          | some head ↦ elim (parse_header head) as (λ q. Result Reading) [
            | err e ↦ fail bad_header
            | unknown ↦ fail bad_magic
            | parsed h ↦ read_entry d x go r pos h
          ]
        ])
        ≡ false in
      elim (filled_nothing e) [
        | inl k ↦ subst P (sym (f ∙ k)) refl
        | inr k ↦ subst P (sym (f ∙ k)) (zeros_end go r pos)
      ]

  read_from-ends :
      (fuel : ℕ) (r : Reading) (pos : ℕ)
      → IsBounded d x
      → 0 < fuel
      → d.size x < fuel + pos
      → is_stuck (read_from d x fuel r pos) ≡ false
  unfolding read_from
  read_from-ends zero r pos bounded some_fuel l = absurd (omega arith)
  read_from-ends (suc fuel) r pos bounded some_fuel l = elim (Bool-cases (ltb pos (d.size x))) [
    | inr t ↦ behind_end (read_from d x fuel) r pos bounded (ltb-false pos (d.size x) t)
    | inl t ↦
        let k = ltb→lt pos (d.size x) t in
        round_stops (read_from d x fuel) r pos (buffer d x header_size pos)
          (λ r next m. read_from-ends fuel r next bounded (omega arith) (omega arith))
  ]

  -- Reading an archive ends, with a tree or an error, on every device that has no bytes behind its end,
  -- whatever the bytes before it say: as many rounds as the device has bytes, and one more, are enough.
  pub read_archive-ends : IsBounded d x → is_stuck (read_archive d x) ≡ false
  unfolding read_archive
  read_archive-ends bounded =
      read_from-ends (d.size x + 1) (record { tree = dir_node ∷ []; ino_map = [] }) 0 bounded
        (omega arith) (omega arith)
