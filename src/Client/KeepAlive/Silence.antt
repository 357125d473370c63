-- ===== src/Client/KeepAlive/Silence.antt =====
-- When the ping task closes a channel.
use p2p_common.Common.{
  ℕ, zero, suc, ◌≡◌, ◌≤◌, ◌<◌, ◌+◌, ◌*◌, ◌^◌, refl, true, false, List, [], ◌∷◌, ltb, arith, sym,
  subst, ◌⊎◌, Bool-cases, inl, inr, lt→ltb,
}
use p2p_common.Common.Result.{Result}
use p2p_common.Protocol.Message.{P2pMessage}
use p2p_common.Client.KeepAlive.{
  Link, LinkEvent, ticked, pong_received, lost, opened, sub_u64, tick, link_step, watch,
}
use p2p_common.Client.KeepAlive.Tick.{sub_u64-le, tick-closed, tick-late, tick-keeps}

-- Ticks at a fixed distance
abbrev pub ticks : ℕ → ℕ → ℕ → List LinkEvent
ticks zero period start = []
ticks (suc n) period start = ticked start ∷ ticks n period (start + period)

module _ (to_bson : P2pMessage → Result (List ℕ)) (timeout period : ℕ) where
  ticks-closed :
      (n start : ℕ) (l : Link)
      → l.is_open ≡ false
      → (watch to_bson timeout l (ticks n period start)).is_open ≡ false
  unfolding watch link_step
  ticks-closed zero start l shut = shut
  ticks-closed (suc n) start l shut =
      ticks-closed n (start + period) (tick to_bson timeout start l)
        (tick-closed to_bson timeout start l shut)

  -- A peer that sends no pong is given up: once the interval has ticked past the timeout, the channel
  -- is closed.
  pub ticks-is_open :
      (n start : ℕ) (l : Link)
      → l.is_watched ≡ true
      → l.last_pong ≤ start
      → l.last_pong + timeout < start + n * period
      → start + n * period < 2 ^ 64
      → (watch to_bson timeout l (ticks (suc n) period start)).is_open ≡ false
  unfolding watch link_step
  ticks-is_open zero start l on past late small =
      let e = sub_u64-le start l.last_pong past (omega arith) in
      tick-late to_bson timeout start l (omega (arith, e)) on
  ticks-is_open (suc n) start l on past late small =
      let e = sub_u64-le start l.last_pong past (grind arith) in
      elim (Bool-cases (ltb timeout (sub_u64 start l.last_pong))) [
        | inl over ↦
            ticks-closed (suc n) (start + period) (tick to_bson timeout start l)
              (tick-late to_bson timeout start l (ground arith) on)
        | inr under ↦ elim (Bool-cases l.is_open) [
          | inr down ↦
              ticks-closed (suc n) (start + period) (tick to_bson timeout start l)
                (tick-closed to_bson timeout start l down)
          | inl up ↦
              let (_, on', pong) = tick-keeps to_bson timeout start l (ground arith) on up in
              ticks-is_open n (start + period) (tick to_bson timeout start l) on'
                (omega (arith, pong)) (grind (arith, pong)) (grind arith)
        ]
      ]

  tick-off : (now : ℕ) (l : Link) → l.is_watched ≡ false → tick to_bson timeout now l ≡ l
  unfolding tick
  tick-off now l off = simp off

  unwatched :
      (events : List LinkEvent) (l : Link)
      → l.is_watched ≡ false
      → l.is_open ≡ false
      → ((watch to_bson timeout l events).is_open ≡ false)
        × ((watch to_bson timeout l events).pings ≡ l.pings)
  unfolding watch link_step
  unwatched [] l off shut = (shut, refl)
  unwatched (ticked now ∷ events) l off shut =
      let same = sym (tick-off now l off) in
      subst
        (λ k.
          ((watch to_bson timeout k events).is_open ≡ false)
          × ((watch to_bson timeout k events).pings ≡ l.pings))
        same (unwatched events l off shut)
  unwatched (pong_received t ∷ events) l off shut =
      unwatched events (record l { last_pong = t }) off shut
  unwatched (lost ∷ events) l off shut = unwatched events (record l { is_open = false }) off refl

  tick-opened :
      (made now : ℕ)
      → timeout < sub_u64 now made
      → tick to_bson timeout now (opened made)
        ≡ record (opened made) { is_open = false; is_watched = false }
  unfolding tick
  tick-opened made now late = simp (lt→ltb timeout (sub_u64 now made) late)

  -- The watch counts from the time that was stored last, which is the making of the client or what a
  -- pong of the peer says. A channel that opens later than the timeout after it, or before it, is closed
  -- at the first tick, and no ping is ever written, whatever happens then.
  pub watch-late :
      (stored now : ℕ) (events : List LinkEvent)
      → timeout < 2 ^ 63
      → stored < 2 ^ 63
      → now < 2 ^ 63
      → (stored + timeout < now) ⊎ (now < stored)
      → let after = watch to_bson timeout (opened stored) (ticked now ∷ events) in
        (after.is_open ≡ false) × (after.pings ≡ [])
  unfolding watch link_step
  watch-late stored now events short old new late =
      let far : timeout < sub_u64 now stored = elim late [
        | inl h ↦ omega arith
        | inr h ↦ omega arith
      ] in
      subst
        (λ k.
          ((watch to_bson timeout k events).is_open ≡ false)
          × ((watch to_bson timeout k events).pings ≡ []))
        (sym (tick-opened stored now far))
        (unwatched events (record (opened stored) { is_open = false; is_watched = false }) refl
          refl)
