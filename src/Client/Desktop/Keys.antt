-- ===== src/Client/Desktop/Keys.antt =====
-- `HashMap<StreamKey, _>`: what is found after a write and after a removal.
use p2p_common.Common.{
  ◌≡◌, refl, sym, ap, ◌∙◌, Bool, true, false, Option, none, some, [], ◌∷◌, ==_iff, eq_iff,
  str_eq_refl, if◌then◌else◌, arith, Bool-cases, inl, inr,
}
use p2p_common.Client.Desktop.{StreamKey, key_eq, KeyMap, stream_at, put_key, drop_key}

pub key_eq→eq : (j k : StreamKey) → key_eq j k ≡ true → j ≡ k
unfolding key_eq
key_eq→eq j k h = ground (arith, ==_iff j.connection k.connection, eq_iff j.resource k.resource)

key_eq_refl : (k : StreamKey) → key_eq k k ≡ true
unfolding key_eq
key_eq_refl k = ground (arith, str_eq_refl k.resource)

apart : (i j k : StreamKey) → key_eq i j ≡ false → key_eq i k ≡ true → key_eq j k ≡ false
apart i j k other here = elim (Bool-cases (key_eq j k)) [
  | inr differ ↦ differ
  | inl same ↦
      let e : i ≡ j = key_eq→eq i k here ∙ sym (key_eq→eq j k same) in
      absurd (cc (sym (ap (λ x. key_eq x j) e) ∙ other, key_eq_refl j))
]

once :
    {V : Type 0} (b : Bool) (x y : V) (o : Option V)
    → (if b then some x else o) ≡ (if b then some x else (if b then some y else o))
once true x y o = refl
once false x y o = refl

none_once :
    {V : Type 0} (b : Bool) (y : V) (o : Option V)
    → (if b then none else o) ≡ (if b then none else (if b then some y else o))
none_once true y o = refl
none_once false y o = refl

pub stream_at-put_key :
    {V : Type 0} (j k : StreamKey) (v : V) (m : KeyMap V)
    → stream_at k (put_key j v m) ≡ (if key_eq j k then some v else stream_at k m)
unfolding stream_at put_key
stream_at-put_key j k v [] = refl
stream_at-put_key j k v ((i, w) ∷ m) = elim (Bool-cases (key_eq i j)) [
  | inl same ↦ rw (same, key_eq→eq i j same) (once (key_eq j k) v w (stream_at k m))
  | inr other ↦ rw other (elim (Bool-cases (key_eq i k)) [
    | inl here ↦ rw (here, apart i j k other here) refl
    | inr more ↦ rw more (stream_at-put_key j k v m)
  ])
]

pub stream_at-drop_key :
    {V : Type 0} (j k : StreamKey) (m : KeyMap V)
    → stream_at k (drop_key j m) ≡ (if key_eq j k then none else stream_at k m)
unfolding stream_at drop_key
stream_at-drop_key j k [] = elim (Bool-cases (key_eq j k)) [
  | inl here ↦ rw here refl
  | inr other ↦ rw other refl
]
stream_at-drop_key j k ((i, w) ∷ m) = elim (Bool-cases (key_eq i j)) [
  | inl same ↦
      rw (same, key_eq→eq i j same)
        (stream_at-drop_key j k m ∙ none_once (key_eq j k) w (stream_at k m))
  | inr other ↦ rw other (elim (Bool-cases (key_eq i k)) [
    | inl here ↦ rw (here, apart i j k other here) refl
    | inr more ↦ rw more (stream_at-drop_key j k m)
  ])
]
