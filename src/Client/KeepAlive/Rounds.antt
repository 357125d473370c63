-- ===== src/Client/KeepAlive/Rounds.antt =====
-- When the ping task keeps a channel.
use p2p_common.Common.{
  ℕ, ◌≡◌, ◌≤◌, ◌<◌, ◌+◌, ◌*◌, ◌^◌, refl, Bool, true, false, List, [], ◌∷◌, arith, length,
}
use p2p_common.Common.Result.{Result}
use p2p_common.Protocol.Message.{P2pMessage}
use p2p_common.Limits.{Timeouts, sanitised}
use p2p_common.Limits.Bounds.{sanitised-IsSane}
use p2p_common.Client.KeepAlive.{
  Link, LinkEvent, ticked, pong_received, opened, tick, link_step, watch,
}
use p2p_common.Client.KeepAlive.Tick.{in_time, tick-keeps}

-- Pings at a fixed distance, each answered before the next or not at all; an answer holds the time of its ping
abbrev pub rounds : List Bool → ℕ → ℕ → List LinkEvent
rounds [] period now = []
rounds (true ∷ answers) period now =
    ticked now ∷ pong_received now ∷ rounds answers period (now + period)
rounds (false ∷ answers) period now = ticked now ∷ rounds answers period (now + period)

-- No three pings in a row stay without an answer; so many did already.
abbrev pub Answers : ℕ → List Bool → Type 0
Answers missed [] = Unit
Answers missed (true ∷ answers) = Answers 0 answers
Answers missed (false ∷ answers) = (missed < 2) × Answers (missed + 1) answers

module _ (to_bson : P2pMessage → Result (List ℕ)) (timeout period : ℕ) where
  rounds-is_open :
      (answers : List Bool) (missed now : ℕ) (l : Link)
      → period * 3 ≤ timeout
      → Answers missed answers
      → missed ≤ 2
      → l.is_watched ≡ true
      → l.is_open ≡ true
      → l.last_pong ≤ now
      → now ≤ l.last_pong + (missed + 1) * period
      → now + length answers * period < 2 ^ 64
      → (watch to_bson timeout l (rounds answers period now)).is_open ≡ true
  unfolding watch link_step
  rounds-is_open [] missed now l wide answered few on up past near small = up
  rounds-is_open (true ∷ answers) missed now l wide answered few on up past near small =
      let early = in_time now l.last_pong missed period timeout wide few past near (grind arith) in
      let (up', on', _) = tick-keeps to_bson timeout now l early on up in
      let after = tick to_bson timeout now l in
      rounds-is_open answers 0 (now + period) (record after { last_pong = now }) wide answered
        (omega arith) on' up' (omega arith) (omega arith) (grind arith)
  rounds-is_open (false ∷ answers) missed now l wide answered few on up past near small =
      let early = in_time now l.last_pong missed period timeout wide few past near (grind arith) in
      let (up', on', pong) = tick-keeps to_bson timeout now l early on up in
      rounds-is_open answers (missed + 1) (now + period) (tick to_bson timeout now l) wide
        (answered.1) (omega (arith, answered.0)) on' up' (omega (arith, pong)) (grind (arith, pong))
        (grind arith)

-- With timeouts as `set_timeouts` stores them, whatever it was given, a peer keeps its channel, however long
-- it lasts, where the first tick comes at most one period after the making of the client, the ticks come a
-- period apart, no three pings in a row go without an answer, and each answer arrives before the next
-- ping.
pub rounds-sanitised :
    (to_bson : P2pMessage → Result (List ℕ)) (given : Timeouts) (answers : List Bool) (made now : ℕ)
    → let t = sanitised given in
      let period = t.ping_interval_secs * 1000 in
      Answers 0 answers
      → made ≤ now
      → now ≤ made + period
      → now + length answers * period < 2 ^ 64
      → (watch to_bson t.pong_timeout_ms (opened made) (rounds answers period now)).is_open ≡ true
rounds-sanitised to_bson given answers made now answered past near small =
    let t = sanitised given in
    let floor = (sanitised-IsSane given).1 in
    let wide : t.ping_interval_secs * 1000 * 3 ≤ t.pong_timeout_ms = omega arith in
    let near' : now ≤ made + (0 + 1) * (t.ping_interval_secs * 1000) = omega arith in
    rounds-is_open to_bson t.pong_timeout_ms (t.ping_interval_secs * 1000) answers 0 now
      (opened made) wide answered (omega arith) refl refl past near' small
