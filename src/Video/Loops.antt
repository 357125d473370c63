-- ===== src/Video/Loops.antt =====
-- `for` loops and writes at an index, where a panic is `none`.
use p2p_common.Common.{
  ◌%◌, ◌^◌, ℕ, zero, suc, ◌≡◌, ◌≤◌, ◌<◌, ◌+◌, refl, ap, ◌∙◌, Option, none, some, List, [], ◌∷◌,
  ◌++◌, length, All, arith, subst,
}

-- Arithmetic on `usize` wraps in a release build.
abbrev pub wrap : ℕ → ℕ
wrap i = i % 2 ^ 64

-- `for i in first..first + n`
unfoldable pub for_range {ℓ} : {S : Type ℓ} → (ℕ → S → Option S) → ℕ → ℕ → S → Option S
for_range body i zero s = some s
for_range body i (suc n) s = elim (body i s) [ none ↦ none | some t ↦ for_range body (suc i) n t ]

-- `xs[i] = a`
unfoldable pub set_elem? {ℓ} : {A : Type ℓ} → List A → ℕ → A → Option (List A)
set_elem? [] i a = none
set_elem? (x ∷ xs) zero a = some (a ∷ xs)
set_elem? (x ∷ xs) (suc i) a = elim (set_elem? xs i a) [ none ↦ none | some ys ↦ some (x ∷ ys) ]

for_range-suc {ℓ} :
    {S : Type ℓ} (body : ℕ → S → Option S) (i n : ℕ) (s t : S)
    → body i s ≡ some t
    → for_range body i (suc n) s ≡ for_range body (suc i) n t
unfolding for_range
for_range-suc body i n s t went = rw (went, for_range) refl

-- A loop whose rounds succeed and take the invariant on succeeds, and takes it to its end.
pub for_range-Keeps {ℓ κ} :
    {S : Type ℓ} (I : ℕ → S → Type κ) (body : ℕ → S → Option S) (n i end : ℕ) (s : S)
    → i + n ≡ end
    → ((j : ℕ) (t : S) → i ≤ j → j < end → I j t → (u : S) × (body j t ≡ some u) × I (suc j) u)
    → I i s
    → (t : S) × (for_range body i n s ≡ some t) × I end t
unfolding for_range
for_range-Keeps I body zero i end s here round start =
    (s, refl, subst (λ k. I k s) (omega arith) start)
for_range-Keeps I body (suc n) i end s here round start =
    let (t, went, kept) = round i s (omega arith) (omega arith) start in
    let (u, rest, done) =
      for_range-Keeps I body n (suc i) end t (omega arith)
        (λ j r above below inv. round j r (omega arith) below inv) kept in
    (u, for_range-suc body i n s t went ∙ rest, done)

module _ {ℓ} {A : Type ℓ} where
  -- A write in range keeps the length, and what holds of each member.
  pub set_elem?-All {κ} :
      (P : A → Type κ) (xs : List A) (i : ℕ) (a : A)
      → i < length xs
      → All P xs
      → P a
      → (ys : List A) × (set_elem? xs i a ≡ some ys) × (length ys ≡ length xs) × All P ys
  unfolding set_elem?
  set_elem?-All P [] i a below all it = absurd (omega arith)
  set_elem?-All P (x ∷ xs) zero a below all it = (a ∷ xs, refl, refl, (it, all.1))
  set_elem?-All P (x ∷ xs) (suc i) a below all it =
      let (ys, wrote, same, kept) = set_elem?-All P xs i a (omega arith) all.1 it in
      (x ∷ ys, rw wrote refl, ap suc same, (all.0, kept))

  -- A write just behind a prefix
  pub set_elem?-append :
      (xs zs : List A) (z a : A) → set_elem? (xs ++ z ∷ zs) (length xs) a ≡ some (xs ++ a ∷ zs)
  unfolding set_elem?
  set_elem?-append [] zs z a = refl
  set_elem?-append (x ∷ xs) zs z a = rw (set_elem?-append xs zs z a) refl
