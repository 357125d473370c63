-- ===== src/Limits/Examples.antt =====
-- The tests of limits.rs, and its theorems at concrete inputs.
use p2p_common.Common.{◌≡◌, refl, some, arith}
use p2p_common.Limits.{
  Timeouts, default, sanitised, effective_kbps, queue_slots_for, redial_backoff, dial_stuck,
}
use p2p_common.Limits.Bounds.{IsSane}

rates :
    (effective_kbps 0 ≡ 0)
    × (effective_kbps 1 ≡ 16)
    × (effective_kbps 15 ≡ 16)
    × (effective_kbps 512 ≡ 512)
unfolding effective_kbps
rates = (refl, refl, refl, refl)

slots :
    (queue_slots_for 0 16384 ≡ 1024)
    × (queue_slots_for 1024 16384 ≡ 128)
    × (queue_slots_for 2048 16384 ≡ 256)
    × (queue_slots_for 65536 16384 ≡ 1024)
    × (queue_slots_for 16 16384 ≡ 8)
unfolding queue_slots_for
slots = (refl, refl, refl, refl, refl)

ladder :
    (redial_backoff default 0 ≡ some 0)
    × (redial_backoff default 6 ≡ some 120)
    × (redial_backoff default 99 ≡ some 120)
    × (dial_stuck default 3 ≡ some 15)
    × (dial_stuck default 99 ≡ some 60)
unfolding redial_backoff dial_stuck
ladder = (refl, refl, refl, refl, refl)

abbrev bad : Timeouts
bad = record default { ping_interval_secs = 20; pong_timeout_ms = 5000 }

raised : (sanitised bad).pong_timeout_ms ≡ 60000
unfolding sanitised
raised = refl

default-IsSane : IsSane default
default-IsSane = (
  (omega arith, omega arith),
  omega arith,
  omega arith,
  (omega arith, omega arith),
  (
    (omega arith, omega arith),
    (
      (omega arith, omega arith),
      (
        (omega arith, omega arith),
        (
          (omega arith, omega arith),
          ((omega arith, omega arith), ((omega arith, omega arith), tt)),
        ),
      ),
    ),
  ),
  (
    (omega arith, omega arith),
    (
      (omega arith, omega arith),
      (
        (omega arith, omega arith),
        (
          (omega arith, omega arith),
          (
            (omega arith, omega arith),
            ((omega arith, omega arith), ((omega arith, omega arith), tt)),
          ),
        ),
      ),
    ),
  ),
  (omega arith, omega arith),
  (omega arith, omega arith),
  (omega arith, omega arith),
)
