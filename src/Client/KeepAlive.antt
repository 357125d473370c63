-- ===== src/Client/KeepAlive.antt =====
-- The task of client-core/src/rtc/mod.rs that pings the peer over an open data channel (it stands twice
-- there, in `new` and in `create_offer`), beside the pongs that `handle_incoming_p2p_message` stores.
-- Times are u64 milliseconds; the subtraction wraps, as in a release build.
pub mod Tick
pub mod Silence
pub mod Rounds
use p2p_common.Common.{
  ℕ, ◌+◌, ◌-◌, ◌*◌, ◌%◌, ◌^◌, Bool, true, false, not, ◌||◌, List, [], ◌∷◌, ◌++◌, ltb, if◌then◌else◌,
}
use p2p_common.Common.Result.{Result, ok, err}
use p2p_common.Protocol.Message.{P2pMessage, ping}

pub record Link : Type 0 where
  -- `ready_state()` of the data channel is `Open`
  pub is_open : Bool
  -- the task runs
  pub is_watched : Bool
  pub last_pong : ℕ
  -- the times of the pings that were written
  pub pings : List ℕ

-- The `AtomicU64` is made with the client (`new`, `create_offer`); the task starts when the channel opens.
abbrev pub opened : ℕ → Link
opened made = record { is_open = true; is_watched = true; last_pong = made; pings = [] }

abbrev pub sub_u64 : ℕ → ℕ → ℕ
sub_u64 a b = (a + 2 ^ 64 - b) % 2 ^ 64

abbrev pub write_ping : (P2pMessage → Result (List ℕ)) → ℕ → Link → Link
write_ping to_bson now l = elim (to_bson (ping now)) [
  | err e ↦ l
  | ok bytes ↦ record l { pings = l.pings ++ now ∷ [] }
]

-- One round of the loop, at a tick of the interval
unfoldable pub tick : (P2pMessage → Result (List ℕ)) → ℕ → ℕ → Link → Link
tick to_bson pong_timeout_ms now l =
    if not l.is_watched
    then l
    else if not l.is_open
    then record l { is_watched = false }
    else if ltb pong_timeout_ms (sub_u64 now l.last_pong)
    then record l { is_open = false; is_watched = false }
    else write_ping to_bson now l

pub data LinkEvent : Type 0 where
  ticked : (now : ℕ) → LinkEvent
  -- a `Pong` of the peer, with the time that it holds
  pong_received : (timestamp_ms : ℕ) → LinkEvent
  -- the library closes the channel
  lost : LinkEvent

unfoldable pub link_step : (P2pMessage → Result (List ℕ)) → ℕ → Link → LinkEvent → Link
unfolding tick
link_step to_bson pong_timeout_ms l (ticked now) = tick to_bson pong_timeout_ms now l
link_step to_bson pong_timeout_ms l (pong_received t) = record l { last_pong = t }
link_step to_bson pong_timeout_ms l lost = record l { is_open = false }

unfoldable pub watch : (P2pMessage → Result (List ℕ)) → ℕ → Link → List LinkEvent → Link
watch to_bson pong_timeout_ms l [] = l
watch to_bson pong_timeout_ms l (e ∷ events) =
    watch to_bson pong_timeout_ms (link_step to_bson pong_timeout_ms l e) events
