-- ===== src/Qcow2/Writer/ClusterMap.antt =====
-- The cluster map with one more entry.
use fsforge.Common.{
  ℕ, ◌≡◌, ◌≢◌, ◌⊎◌, inl, inr, sym, ap, ◌∙◌, true, false, ◌==◌, some, List, ◌∷◌, arith, Bool-cases,
  some_value,
}
use fsforge.Qcow2.Writer.{lookup}

-- The map with one more cluster.
pub lookup_new : (gc host : ℕ) (m : List (ℕ × ℕ)) → lookup gc ((gc, host) ∷ m) ≡ some host
unfolding lookup
lookup_new gc host m = let e : gc == gc ≡ true = ground arith in rw e

pub lookup_old :
    (gc gc' host : ℕ) (m : List (ℕ × ℕ)) → gc' ≢ gc → lookup gc' ((gc, host) ∷ m) ≡ lookup gc' m
unfolding lookup
lookup_old gc gc' host m other = let e : gc == gc' ≡ false = ground arith in rw e

pub new_cases :
    (gc gc' next host : ℕ) (m : List (ℕ × ℕ))
    → lookup gc' ((gc, next) ∷ m) ≡ some host
    → ((gc' ≡ gc) × (next ≡ host)) ⊎ (lookup gc' m ≡ some host)
new_cases gc gc' next host m q = elim (Bool-cases (gc' == gc)) [
  | inl same ↦
      let e : gc' ≡ gc = ground arith in
      inl (
        e,
        some_value next host
            (sym (lookup_new gc next m) ∙ ap (λ (k : ℕ). lookup k ((gc, next) ∷ m)) (sym e) ∙ q),
      )
  | inr differ ↦
      let other : gc' ≢ gc = λ e. ground arith in inr (sym (lookup_old gc gc' next m other) ∙ q)
]
