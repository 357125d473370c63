-- ===== src/Client/KeepAlive/Tick.antt =====
-- One tick of the ping task.
use p2p_common.Common.{
  ℕ, zero, suc, ◌≡◌, ◌≤◌, ◌<◌, ◌+◌, ◌-◌, ◌*◌, ◌^◌, refl, ap, true, false, List, arith, ◌∙◌,
  Bool-cases, inl, inr, lt→ltb, ltb-false,
}
use p2p_common.Common.Result.{Result, Result-cases}
use p2p_common.Protocol.Message.{P2pMessage, ping}
use p2p_common.Client.KeepAlive.{Link, sub_u64, tick, write_ping}

pub sub_u64-le : (a b : ℕ) → b ≤ a → a < 2 ^ 64 → sub_u64 a b ≡ a - b
sub_u64-le a b h k = omega arith

pub sub_u64-lt : (a b : ℕ) → a < b → b < 2 ^ 64 → sub_u64 a b ≡ a + 2 ^ 64 - b
sub_u64-lt a b h k = omega arith

pub at_most_three : (missed period : ℕ) → missed ≤ 2 → (missed + 1) * period ≤ period * 3
at_most_three zero period h = omega arith
at_most_three (suc zero) period h = omega arith
at_most_three (suc (suc zero)) period h = omega arith
at_most_three (suc (suc (suc missed))) period h = absurd (omega arith)

pub in_time :
    (now last missed period timeout : ℕ)
    → period * 3 ≤ timeout
    → missed ≤ 2
    → last ≤ now
    → now ≤ last + (missed + 1) * period
    → now < 2 ^ 64
    → sub_u64 now last ≤ timeout
in_time now last missed period timeout wide few past near small =
    omega (arith, sub_u64-le now last past small, at_most_three missed period few)

module _ (to_bson : P2pMessage → Result (List ℕ)) (timeout : ℕ) where
  pub write_ping-is_open : (now : ℕ) (l : Link) → (write_ping to_bson now l).is_open ≡ l.is_open
  write_ping-is_open now l = elim (Result-cases (to_bson (ping now))) [
    | inl (e, bad) ↦ rw (bad, write_ping) refl
    | inr (b, good) ↦ rw (good, write_ping) refl
  ]

  pub write_ping-is_watched :
      (now : ℕ) (l : Link) → (write_ping to_bson now l).is_watched ≡ l.is_watched
  write_ping-is_watched now l = elim (Result-cases (to_bson (ping now))) [
    | inl (e, bad) ↦ rw (bad, write_ping) refl
    | inr (b, good) ↦ rw (good, write_ping) refl
  ]

  pub write_ping-last_pong :
      (now : ℕ) (l : Link) → (write_ping to_bson now l).last_pong ≡ l.last_pong
  write_ping-last_pong now l = elim (Result-cases (to_bson (ping now))) [
    | inl (e, bad) ↦ rw (bad, write_ping) refl
    | inr (b, good) ↦ rw (good, write_ping) refl
  ]

  pub tick-closed :
      (now : ℕ) (l : Link) → l.is_open ≡ false → (tick to_bson timeout now l).is_open ≡ false
  unfolding tick
  tick-closed now l shut = elim (Bool-cases l.is_watched) [
    | inl on ↦ simp (on, shut)
    | inr off ↦ simp (off, shut)
  ]

  pub tick-late :
      (now : ℕ) (l : Link)
      → timeout < sub_u64 now l.last_pong
      → l.is_watched ≡ true
      → (tick to_bson timeout now l).is_open ≡ false
  unfolding tick
  tick-late now l late on = elim (Bool-cases l.is_open) [
    | inl up ↦ simp (on, up, lt→ltb timeout (sub_u64 now l.last_pong) late)
    | inr down ↦ simp (on, down)
  ]

  pub tick-early :
      (now : ℕ) (l : Link)
      → sub_u64 now l.last_pong ≤ timeout
      → l.is_watched ≡ true
      → l.is_open ≡ true
      → tick to_bson timeout now l ≡ write_ping to_bson now l
  unfolding tick
  tick-early now l early on up = simp (on, up, ltb-false timeout (sub_u64 now l.last_pong) early)

  -- A tick in time leaves the channel open, the task on watch and the pong as it was.
  pub tick-keeps :
      (now : ℕ) (l : Link)
      → sub_u64 now l.last_pong ≤ timeout
      → l.is_watched ≡ true
      → l.is_open ≡ true
      → let after = tick to_bson timeout now l in
        (after.is_open ≡ true) × (after.is_watched ≡ true) × (after.last_pong ≡ l.last_pong)
  tick-keeps now l early on up =
      let same = tick-early now l early on up in
      (
        ap (λ k. k.is_open) same ∙ write_ping-is_open now l ∙ up,
        ap (λ k. k.is_watched) same ∙ write_ping-is_watched now l ∙ on,
        ap (λ k. k.last_pong) same ∙ write_ping-last_pong now l,
      )
