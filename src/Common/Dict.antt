-- ===== src/Common/Dict.antt =====
-- `HashMap<String, V>` as a list of entries. A client sees the laws below; the order of the
-- entries stands for the order of iteration, which Rust leaves open.
use Prim.Native.String.{String}
use mathlib.Core.Path.{◌≡◌, refl}
use mathlib.Core.Logic.{◌≢◌, inl, inr}
use mathlib.Core.Bool.{Bool, true, false}
use mathlib.Core.List.{List, [], ◌∷◌, map}
use mathlib.Core.Option.{Option, none, some}
use native.Mathlib.Omega.{arith}
use text.Mathlib.TextEquality.{eq_iff}
use Prim.Native.Nat.{ℕ, ◌+◌, ◌≤◌}
use p2p_common.Common.Lists.{length, keep, any}
use p2p_common.Common.Tests.{
  one_if, Bool-cases, Option-cases, str_eq, str_eq_refl, str_eq_ne, if◌then◌else◌,
}

pub record Dict {ℓ} (V : Type ℓ) : Type ℓ where
  entries : List (String × V)

module _ {ℓ} {V : Type ℓ} where
  lookup : String → List (String × V) → Option V
  lookup k [] = none
  lookup k ((j, v) ∷ m) = if str_eq j k then some v else lookup k m

  store : String → V → List (String × V) → List (String × V)
  store k v [] = (k, v) ∷ []
  store k v ((j, w) ∷ m) = if str_eq j k then (k, v) ∷ m else (j, w) ∷ store k v m

  without : String → List (String × V) → List (String × V)
  without k [] = []
  without k ((j, w) ∷ m) = let rest = without k m in if str_eq j k then rest else (j, w) ∷ rest

  lookup-store :
      (k j : String) (v : V) (m : List (String × V))
      → lookup j (store k v m) ≡ (if str_eq k j then some v else lookup j m)
  unfolding lookup store
  lookup-store k j v [] = refl
  lookup-store k j v ((i, w) ∷ m) =
      ground (arith, eq_iff k j, eq_iff i k, eq_iff i j, lookup-store k j v m)

  lookup-without :
      (k j : String) (m : List (String × V))
      → lookup j (without k m) ≡ (if str_eq k j then none else lookup j m)
  unfolding lookup without
  lookup-without k j [] = ground arith
  lookup-without k j ((i, w) ∷ m) =
      ground (arith, eq_iff k j, eq_iff i k, eq_iff i j, lookup-without k j m)

  unfoldable pub empty : Dict V
  empty = record { entries = [] }

  unfoldable pub get : Dict V → String → Option V
  unfolding lookup
  get d k = lookup k d.entries

  unfoldable pub insert : Dict V → String → V → Dict V
  unfolding store
  insert d k v = record { entries = store k v d.entries }

  unfoldable pub remove : Dict V → String → Dict V
  unfolding without
  remove d k = record { entries = without k d.entries }

  pub get-empty : (k : String) → get empty k ≡ none
  unfolding get empty
  get-empty k = refl

  pub get-insert :
      (d : Dict V) (k j : String) (v : V)
      → get (insert d k v) j ≡ (if str_eq k j then some v else get d j)
  unfolding get insert
  get-insert d k j v = lookup-store k j v d.entries

  pub get-insert_self : (d : Dict V) (k : String) (v : V) → get (insert d k v) k ≡ some v
  get-insert_self d k v = rw (get-insert d k k v, str_eq_refl k)

  pub get-insert_ne : (d : Dict V) (k j : String) (v : V) → k ≢ j → get (insert d k v) j ≡ get d j
  get-insert_ne d k j v h = rw (get-insert d k j v, str_eq_ne k j h)

  pub get-remove :
      (d : Dict V) (k j : String) → get (remove d k) j ≡ (if str_eq k j then none else get d j)
  unfolding get remove
  get-remove d k j = lookup-without k j d.entries

-- The iterations over keys and values, and `retain`, whose closure may change the value that it keeps.
module _ {ℓ} {V : Type ℓ} where
  unfoldable pub keys : Dict V → List String
  keys d = map (λ e. e.0) d.entries

  unfoldable pub values : Dict V → List V
  values d = map (λ e. e.1) d.entries

  -- `for (k, v) in map`
  unfoldable pub entries_of : Dict V → List (String × V)
  entries_of d = d.entries

  retained : (String → V → Option V) → List (String × V) → List (String × V)
  retained f [] = []
  retained f ((k, v) ∷ m) =
      let rest = retained f m in elim (f k v) [ none ↦ rest | some w ↦ (k, w) ∷ rest ]

  unfoldable pub retain : (String → V → Option V) → Dict V → Dict V
  unfolding retained
  retain f d = record { entries = retained f d.entries }

abbrev pub map_values {ℓ κ} : {V : Type ℓ} {W : Type κ} → (V → W) → Dict V → Dict W
map_values f d = record { entries = map (λ e. (e.0, f (e.1))) d.entries }

abbrev pub contains_key {ℓ} : {V : Type ℓ} → Dict V → String → Bool
contains_key d k = elim (get d k) [ none ↦ false | some v ↦ true ]

module _ {ℓ} {V : Type ℓ} where
  lookup-retained :
      (f : String → V → Option V) (k : String) (m : List (String × V))
      → ((v : V) → f k v ≡ none)
      → lookup k (retained f m) ≡ none
  unfolding lookup retained
  lookup-retained f k [] h = refl
  lookup-retained f k ((j, v) ∷ m) h = elim (Option-cases (f j v)) [
    | inl gone ↦ rw (gone, lookup) (lookup-retained f k m h)
    | inr (w, kept) ↦
        rw
          (
            kept,
            lookup,
            str_eq_ne j k (λ (same : j ≡ k).
                let gone : f j v ≡ none = rw (← same) at (h v) in cc (gone, kept)),
            lookup-retained f k m h,
          )
          refl
  ]

  pub get-retain-none :
      (f : String → V → Option V) (d : Dict V) (k : String)
      → ((v : V) → f k v ≡ none)
      → get (retain f d) k ≡ none
  unfolding get retain
  get-retain-none f d k h = lookup-retained f k d.entries h

  lookup-key :
      (k : String) (v : V) (m : List (String × V))
      → lookup k m ≡ some v
      → any (λ j. str_eq j k) (map (λ e. e.0) m) ≡ true
  unfolding lookup
  lookup-key k v [] h = cc h
  lookup-key k v ((j, w) ∷ m) h = elim (Bool-cases (str_eq j k)) [
    | inl same ↦ rw same refl
    | inr other ↦ rw other (lookup-key k v m (rw other at h))
  ]

  pub get-keys :
      (d : Dict V) (k : String) (v : V) → get d k ≡ some v → any (λ j. str_eq j k) (keys d) ≡ true
  unfolding get keys
  get-keys d k v h = lookup-key k v d.entries h

-- How many values pass a test.
module _ {ℓ} {V : Type ℓ} where
  abbrev pub count : (V → Bool) → Dict V → ℕ
  count p d = length (keep p (values d))

  counted : (V → Bool) → List (String × V) → ℕ
  counted p m = length (keep p (map (λ e. e.1) m))

  counted-nil : (p : V → Bool) → counted p [] ≡ 0
  unfolding counted
  counted-nil p = refl

  counted-cons :
      (p : V → Bool) (e : String × V) (m : List (String × V))
      → counted p (e ∷ m) ≡ one_if (p (e.1)) + counted p m
  unfolding counted
  counted-cons p e m = ground arith

  counted-store :
      (p : V → Bool) (k : String) (v : V) (m : List (String × V))
      → lookup k m ≡ none
      → counted p (store k v m) ≡ counted p m + one_if (p v)
  unfolding lookup store
  counted-store p k v [] h = rw (counted-cons p (k, v) []) (ground (arith, counted-nil p))
  counted-store p k v ((j, w) ∷ m) h = elim (Bool-cases (str_eq j k)) [
    | inl same ↦ cc (rw same at h)
    | inr other ↦
        let rest = counted-store p k v m (rw other at h) in
        rw (other, counted-cons p (j, w) (store k v m), counted-cons p (j, w) m) (omega arith)
  ]

  counted-without :
      (p : V → Bool) (k : String) (m : List (String × V)) → counted p (without k m) ≤ counted p m
  unfolding without
  counted-without p k [] = omega arith
  counted-without p k ((j, w) ∷ m) =
      let rest = counted-without p k m in
      elim (Bool-cases (str_eq j k)) [
        | inl same ↦ rw (same, counted-cons p (j, w) m) (omega arith)
        | inr other ↦
            rw (other, counted-cons p (j, w) (without k m), counted-cons p (j, w) m) (omega arith)
      ]

  counted-replace :
      (p : V → Bool) (k : String) (v w : V) (m : List (String × V))
      → lookup k m ≡ some w
      → p w ≡ p v
      → counted p (store k v m) ≡ counted p m
  unfolding lookup store
  counted-replace p k v w [] h e = cc h
  counted-replace p k v w ((j, u) ∷ m) h e = elim (Bool-cases (str_eq j k)) [
    | inl same ↦
        let is : some u ≡ some w = rw same at h in
        rw (same, counted-cons p (k, v) m, counted-cons p (j, u) m) (cc (is, e))
    | inr other ↦
        let rest = counted-replace p k v w m (rw other at h) e in
        rw (other, counted-cons p (j, u) (store k v m), counted-cons p (j, u) m) (omega arith)
  ]

  counted-less :
      (p : V → Bool) (k : String) (v : V) (m : List (String × V))
      → lookup k m ≡ some v
      → p v ≡ true
      → counted p (without k m) + 1 ≤ counted p m
  unfolding lookup without
  counted-less p k v [] h e = cc h
  counted-less p k v ((j, u) ∷ m) h e = elim (Bool-cases (str_eq j k)) [
    | inl same ↦
        let is : some u ≡ some v = rw same at h in
        let one : p u ≡ true = cc (is, e) in
        let fewer = counted-without p k m in rw (same, counted-cons p (j, u) m, one) (omega arith)
    | inr other ↦
        let rest = counted-less p k v m (rw other at h) e in
        rw (other, counted-cons p (j, u) (without k m), counted-cons p (j, u) m) (omega arith)
  ]

  counted-store_out :
      (p : V → Bool) (k : String) (v : V) (m : List (String × V))
      → p v ≡ false
      → counted p (store k v m) ≤ counted p m
  unfolding store
  counted-store_out p k v [] out = rw (counted-cons p (k, v) [], out) (omega arith)
  counted-store_out p k v ((j, u) ∷ m) out = elim (Bool-cases (str_eq j k)) [
    | inl same ↦ rw (same, counted-cons p (k, v) m, counted-cons p (j, u) m, out) (omega arith)
    | inr other ↦
        let rest = counted-store_out p k v m out in
        rw (other, counted-cons p (j, u) (store k v m), counted-cons p (j, u) m) (omega arith)
  ]

  pub count-insert_out :
      (p : V → Bool) (d : Dict V) (k : String) (v : V)
      → p v ≡ false
      → count p (insert d k v) ≤ count p d
  unfolding insert counted values
  count-insert_out p d k v out = counted-store_out p k v d.entries out

  pub count-replace :
      (p : V → Bool) (d : Dict V) (k : String) (v w : V)
      → get d k ≡ some w
      → p w ≡ p v
      → count p (insert d k v) ≡ count p d
  unfolding get insert counted values
  count-replace p d k v w h e = counted-replace p k v w d.entries h e

  pub count-remove_one :
      (p : V → Bool) (d : Dict V) (k : String) (v : V)
      → get d k ≡ some v
      → p v ≡ true
      → count p (remove d k) + 1 ≤ count p d
  unfolding get remove counted values
  count-remove_one p d k v h e = counted-less p k v d.entries h e

  pub count-insert :
      (p : V → Bool) (d : Dict V) (k : String) (v : V)
      → get d k ≡ none
      → count p (insert d k v) ≡ count p d + one_if (p v)
  unfolding get insert counted values
  count-insert p d k v h = counted-store p k v d.entries h

  pub count-remove : (p : V → Bool) (d : Dict V) (k : String) → count p (remove d k) ≤ count p d
  unfolding remove counted values
  count-remove p d k = counted-without p k d.entries

pub ruleset dict_laws = (get-empty, get-insert, get-remove)
