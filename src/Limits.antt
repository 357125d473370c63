-- ===== src/Limits.antt =====
-- client-core/src/limits.rs: the limits of the client and its timeouts. The atomics and the lock are
-- fields of `Limits`; the token bucket, which counts in floating point, is not modelled.
pub mod Bounds
mod Examples
use p2p_common.Common.{
  ℕ, ◌+◌, ◌-◌, ◌*◌, ◌/◌, ◌^◌, min, max, Bool, true, false, Option, List, [], ◌∷◌, map, ◌==◌,
  if◌then◌else◌, length, get_elem?,
}
use p2p_common.Protocol.Message.{P2pMessage, file_chunk, http_response_chunk}

abbrev pub min_kbps : ℕ
min_kbps = 16

abbrev pub queue_seconds : ℕ
queue_seconds = 2

abbrev pub default_queue_slots : ℕ
default_queue_slots = 1024

abbrev pub min_queue_slots : ℕ
min_queue_slots = 8

-- `Ord::clamp`. It panics where the bounds are crossed: `sanitised-IsSane` shows that they are not.
abbrev pub clamp : ℕ → ℕ → ℕ → ℕ
clamp n lo hi = min (max n lo) hi

abbrev pub saturating_mul : ℕ → ℕ → ℕ
saturating_mul a b = min (a * b) (2 ^ 64 - 1)

unfoldable pub effective_kbps : ℕ → ℕ
effective_kbps requested = if requested == 0 then 0 else max requested min_kbps

-- The argument `kbps` is a u32, so the product with 1024 does not overflow a u64.
unfoldable pub queue_slots_for : ℕ → ℕ → ℕ
queue_slots_for kbps item_bytes =
    if kbps == 0
    then default_queue_slots
    else clamp (saturating_mul (kbps * 1024) queue_seconds / max item_bytes 1) min_queue_slots
        default_queue_slots

unfoldable pub is_bulk_stream : P2pMessage → Bool
is_bulk_stream (file_chunk _ _ _) = true
is_bulk_stream (http_response_chunk _ _ _) = true
is_bulk_stream _ = false

pub record Timeouts : Type 0 where
  pub ping_interval_secs : ℕ
  pub pong_timeout_ms : ℕ
  pub ws_connect_secs : ℕ
  -- arrays of 6 and of 7
  pub dial_stuck_secs : List ℕ
  pub redial_backoff_secs : List ℕ
  pub ice_recovery_grace_secs : ℕ
  pub ice_signaling_stable_secs : ℕ
  pub ice_teardown_secs : ℕ

abbrev pub default : Timeouts
default = record {
  ping_interval_secs = 15;
  pong_timeout_ms = 45000;
  ws_connect_secs = 5;
  dial_stuck_secs = 3 ∷ 3 ∷ 5 ∷ 15 ∷ 30 ∷ 60 ∷ [];
  redial_backoff_secs = 0 ∷ 5 ∷ 10 ∷ 15 ∷ 30 ∷ 60 ∷ 120 ∷ [];
  ice_recovery_grace_secs = 3;
  ice_signaling_stable_secs = 5;
  ice_teardown_secs = 12;
}

unfoldable pub sanitised : Timeouts → Timeouts
sanitised t =
    let ping = clamp t.ping_interval_secs 1 3600 in
    record {
      ping_interval_secs = ping;
      pong_timeout_ms = clamp t.pong_timeout_ms (saturating_mul ping 3000) (24 * 3600 * 1000);
      ws_connect_secs = clamp t.ws_connect_secs 1 3600;
      dial_stuck_secs = map (λ v. clamp v 1 3600) t.dial_stuck_secs;
      redial_backoff_secs = map (λ v. min v 3600) t.redial_backoff_secs;
      ice_recovery_grace_secs = clamp t.ice_recovery_grace_secs 1 600;
      ice_signaling_stable_secs = clamp t.ice_signaling_stable_secs 1 600;
      ice_teardown_secs = clamp t.ice_teardown_secs 1 3600;
    }

-- The index of a ladder: out of range, the source panics.
unfoldable pub redial_backoff : Timeouts → ℕ → Option ℕ
redial_backoff t attempt =
    get_elem? t.redial_backoff_secs (min attempt (length t.redial_backoff_secs - 1))

unfoldable pub dial_stuck : Timeouts → ℕ → Option ℕ
dial_stuck t attempt = get_elem? t.dial_stuck_secs (min attempt (length t.dial_stuck_secs - 1))

pub record Limits : Type 0 where
  pub max_peers : ℕ
  pub bandwidth_kbps : ℕ
  pub timeouts : Timeouts

abbrev pub initial : Limits
initial = record { max_peers = 0; bandwidth_kbps = 0; timeouts = default }

abbrev pub set_max_peers : Limits → ℕ → Limits
set_max_peers l n = record l { max_peers = n }

unfoldable pub set_bandwidth_limit_kbps : Limits → ℕ → Limits
unfolding effective_kbps
set_bandwidth_limit_kbps l kbps = record l { bandwidth_kbps = effective_kbps kbps }

unfoldable pub outbound_queue_slots : Limits → ℕ → ℕ
unfolding queue_slots_for
outbound_queue_slots l item_bytes = queue_slots_for l.bandwidth_kbps item_bytes

unfoldable pub set_timeouts : Limits → Timeouts → Limits
unfolding sanitised
set_timeouts l t = record l { timeouts = sanitised t }
