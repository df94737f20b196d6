-- ===== src/Image/Sessions/Grows.antt =====
-- What operations on a tree leave of it: no node goes away, and no node becomes or stops being a directory.
use fsforge.Common.{
  ℕ, ◌≤◌, ◌<◌, ◌≡◌, refl, ap, ◌∙◌, inl, inr, Option, some, length, Bytes, arith, Bool-cases,
  Option-cases,
}
use fsforge.Image.{
  Node, Entry, Store, Result, ok, err, node_at, is_dir, valid_name, find, raise, lower, add, place,
  cut_entry, attach, attach_dir, link, remove, is_empty,
}
use fsforge.Image.Counts.{length-place}
use fsforge.Image.Sound.Place.{is_dir-place}
use fsforge.Image.Sound.Frame.{
  is_dir-raise, is_dir-lower, is_dir-cut, is_dir-add, length-raise, length-lower, length-add,
  length-cut_entry,
}

pub record Grows (s t : Store) : Type 0 where
  pub longer : length s ≤ length t
  pub same_kind : (q : ℕ) → q < length s → is_dir t q ≡ is_dir s q

pub same-Grows : (s : Store) → Grows s s
same-Grows s = record { longer = omega arith; same_kind = λ q l. refl }

pub then-Grows : (s t u : Store) → Grows s t → Grows t u → Grows s u
then-Grows s t u g h =
    let l1 = g.longer in
    let l2 = h.longer in
    record {
      longer = omega arith;
      same_kind = λ q l. h.same_kind q (omega arith) ∙ g.same_kind q l;
    }

kept : (s t : Store) → length t ≡ length s → is_dir t ≡ is_dir s → Grows s t
kept s t len same = record { longer = omega arith; same_kind = λ q l. ap (λ f. f q) same }

raise-Grows : (s : Store) (d : ℕ) → d < length s → Grows s (raise d s)
raise-Grows s d l = kept s (raise d s) (length-raise s d) (is_dir-raise s d l)

lower-Grows : (s : Store) (d : ℕ) → d < length s → Grows s (lower d s)
lower-Grows s d l = kept s (lower d s) (length-lower s d) (is_dir-lower s d l)

add-Grows : (s : Store) (d p : ℕ) (name : Bytes) → d < length s → Grows s (add d name p s)
add-Grows s d p name l = kept s (add d name p s) (length-add s d p name) (is_dir-add s d p name l)

cut-Grows : (s : Store) (d : ℕ) (name : Bytes) → d < length s → Grows s (cut_entry d name s)
cut-Grows s d name l =
    kept s (cut_entry d name s) (length-cut_entry s d name) (is_dir-cut s d name l)

place-Grows : (s : Store) (n : Node) → Grows s (place n s)
place-Grows s n =
    let len = length-place s n in record { longer = omega arith; same_kind = is_dir-place s n }

pub attach-Grows :
    (s : Store) (d : ℕ) (name : Bytes) (r : Result Node)
    → d < length s
    → Grows s (attach s d name r).1
attach-Grows s d name (err e) l = same-Grows s
attach-Grows s d name (ok n) l =
    let len = length-place s n in
    then-Grows s (place n s) (add d name (length s) (place n s)) (place-Grows s n)
      (add-Grows (place n s) d (length s) name (omega arith))

pub attach_dir-Grows :
    (s : Store) (d : ℕ) (name : Bytes) (r : Result Node)
    → d < length s
    → Grows s (attach_dir s d name r).1
attach_dir-Grows s d name (err e) l = same-Grows s
attach_dir-Grows s d name (ok n) l =
    let m : Node = record n { nlink = 2 } in
    let len = length-place s m in
    let s2 = place m s in
    let len2 = length-raise s2 d in
    then-Grows s s2 (add d name (length s) (raise d s2)) (place-Grows s m) (
      then-Grows s2 (raise d s2) (add d name (length s) (raise d s2))
        (raise-Grows s2 d (omega arith)) (add-Grows (raise d s2) d (length s) name (omega arith)))

pub link-Grows :
    (s : Store) (d : ℕ) (name : Bytes) (target : Option ℕ)
    → d < length s
    → ((p : ℕ) → target ≡ some p → p < length s)
    → Grows s (link s d name target).1
unfolding link
link-Grows s d name target l f = elim (Bool-cases (valid_name name)) [
  | inr e ↦ rw e (same-Grows s)
  | inl e ↦ elim (Option-cases target) [
    | inl n ↦ rw (e, n) (same-Grows s)
    | inr (p, j) ↦ elim (Option-cases (find name (node_at s d).children)) [
      | inr (x, k) ↦ rw (e, j, k) (same-Grows s)
      | inl k ↦
          let len = length-raise s p in
          rw (e, j, k)
            (then-Grows s (raise p s) (add d name p (raise p s)) (raise-Grows s p (f p j))
              (add-Grows (raise p s) d p name (omega arith)))
    ]
  ]
]

pub remove-Grows :
    (s : Store) (d : ℕ) (name : Bytes)
    → d < length s
    → ((e : Entry) → find name (node_at s d).children ≡ some e → e.node < length s)
    → Grows s (remove s d name).1
unfolding remove
remove-Grows s d name l f = elim (Option-cases (find name (node_at s d).children)) [
  | inl k ↦ rw (remove, k) (same-Grows s)
  | inr (e, k) ↦
      let p = e.node in
      let lp = f e k in
      let len = length-lower s p in
      let s1 = lower d s in
      let len1 = length-lower s d in
      let len2 = length-lower s1 p in
      elim (Bool-cases (is_dir s p)) [
        | inr t ↦
            rw (remove, k, t)
              (then-Grows s (lower p s) (cut_entry d name (lower p s)) (lower-Grows s p lp)
                (cut-Grows (lower p s) d name (omega arith)))
        | inl t ↦ elim (Bool-cases (is_empty (node_at s p).children)) [
          | inr u ↦ rw (remove, k, t, u) (same-Grows s)
          | inl u ↦
              rw (remove, k, t, u)
                (then-Grows s s1 (cut_entry d name (lower p s1)) (lower-Grows s d l) (
                  then-Grows s1 (lower p s1) (cut_entry d name (lower p s1))
                    (lower-Grows s1 p (omega arith)) (cut-Grows (lower p s1) d name (omega arith))))
        ]
      ]
]
