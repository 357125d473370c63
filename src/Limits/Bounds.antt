-- ===== src/Limits/Bounds.antt =====
-- The bounds that the limits of client-core/src/limits.rs keep.
use p2p_common.Common.{
  ℕ, ◌≡◌, refl, ap, ◌*◌, ◌^◌, ◌≤◌, ◌<◌, min, max, some, List, [], ◌∷◌, map, length, get_elem?, All,
  arith, suc, zero, ◌∙◌, ◌==◌, ◌⊎◌, inl, inr, false, Bool-cases, ltb, ◌-◌,
}
use native.Mathlib.Nat.{div-mul-le_self, le_trans, mul-le-mul_right}
use p2p_common.Limits.{Timeouts, sanitised, redial_backoff, dial_stuck, queue_slots_for}

abbrev pub In : ℕ → ℕ → ℕ → Type 0
In lo hi n = (lo ≤ n) × (n ≤ hi)

-- What the rest of the client relies on: no wait is 0 or unbounded, a connection survives two lost
-- pongs, and the ladders have the lengths of their arrays.
abbrev pub IsSane : Timeouts → Type 0
IsSane t =
    In 1 3600 t.ping_interval_secs
    × (t.ping_interval_secs * 3000 ≤ t.pong_timeout_ms)
    × (t.pong_timeout_ms ≤ 86400000)
    × In 1 3600 t.ws_connect_secs
    × All (In 1 3600) t.dial_stuck_secs
    × All (In 0 3600) t.redial_backoff_secs
    × In 1 600 t.ice_recovery_grace_secs
    × In 1 600 t.ice_signaling_stable_secs
    × In 1 3600 t.ice_teardown_secs

abbrev pub HasLadders : Timeouts → Type 0
HasLadders t = (length t.dial_stuck_secs ≡ 6) × (length t.redial_backoff_secs ≡ 7)

All-map_clamp : (xs : List ℕ) → All (In 1 3600) (map (λ v. min (max v 1) 3600) xs)
All-map_clamp [] = tt
All-map_clamp (x ∷ xs) = ((omega arith, omega arith), All-map_clamp xs)

All-map-min : (xs : List ℕ) → All (In 0 3600) (map (λ v. min v 3600) xs)
All-map-min [] = tt
All-map-min (x ∷ xs) = ((omega arith, omega arith), All-map-min xs)

-- Whatever timeouts the client is given, those that it stores are sane: in particular the pong
-- timeout is at least three ping intervals.
pub sanitised-IsSane : (t : Timeouts) → IsSane (sanitised t)
unfolding sanitised
sanitised-IsSane t = (
  (omega arith, omega arith),
  omega arith,
  omega arith,
  (omega arith, omega arith),
  All-map_clamp t.dial_stuck_secs,
  All-map-min t.redial_backoff_secs,
  (omega arith, omega arith),
  (omega arith, omega arith),
  (omega arith, omega arith),
)

map_clamp-same : (xs : List ℕ) → All (In 1 3600) xs → map (λ v. min (max v 1) 3600) xs ≡ xs
map_clamp-same [] h = refl
map_clamp-same (x ∷ xs) h =
    let e : min (max x 1) 3600 ≡ x = omega arith in rw (e, map_clamp-same xs h.1)

map-min-same : (xs : List ℕ) → All (In 0 3600) xs → map (λ v. min v 3600) xs ≡ xs
map-min-same [] h = refl
map-min-same (x ∷ xs) h = let e : min x 3600 ≡ x = omega arith in rw (e, map-min-same xs h.1)

-- Timeouts that are sane already are stored as they are given. The default ones are sane, and so is
-- every result of `sanitised`, so that storing twice is storing once.
pub sanitised-IsSane_same : (t : Timeouts) → IsSane t → sanitised t ≡ t
unfolding sanitised
sanitised-IsSane_same t (ping, floor, roof, ws, dial, redial, grace, stable, teardown) =
    let e1 : min (max t.ping_interval_secs 1) 3600 ≡ t.ping_interval_secs = omega arith in
    let e2 : min (max t.pong_timeout_ms (min (t.ping_interval_secs * 3000) (2 ^ 64 - 1)))
          (24 * 3600 * 1000)
        ≡ t.pong_timeout_ms =
      omega arith in
    let e3 : min (max t.ws_connect_secs 1) 3600 ≡ t.ws_connect_secs = omega arith in
    let e4 : min (max t.ice_recovery_grace_secs 1) 600 ≡ t.ice_recovery_grace_secs = omega arith in
    let e5 : min (max t.ice_signaling_stable_secs 1) 600 ≡ t.ice_signaling_stable_secs =
      omega arith in
    let e6 : min (max t.ice_teardown_secs 1) 3600 ≡ t.ice_teardown_secs = omega arith in
    rw (
      e1,
      e2,
      e3,
      e4,
      e5,
      e6,
      map_clamp-same t.dial_stuck_secs dial,
      map-min-same t.redial_backoff_secs redial,
    )

length-map {ℓ κ} :
    {A : Type ℓ} {B : Type κ} (f : A → B) (xs : List A) → length (map f xs) ≡ length xs
length-map f [] = refl
length-map f (x ∷ xs) = ap suc (length-map f xs)

get_elem-In :
    (xs : List ℕ) (lo hi i : ℕ)
    → All (In lo hi) xs
    → i < length xs
    → (n : ℕ) × (get_elem? xs i ≡ some n) × In lo hi n
get_elem-In [] lo hi i h k = elim k [ ]
get_elem-In (x ∷ xs) lo hi zero h k = (x, refl, h.0)
get_elem-In (x ∷ xs) lo hi (suc i) h k = get_elem-In xs lo hi i h.1 (omega arith)

-- No attempt runs off a ladder: with the timeouts that the client stores, the wait before a redial
-- and the time after which a dial counts as stuck are there for every number of attempts, and both
-- are at most an hour.
pub ladders-total :
    (t : Timeouts) (attempt : ℕ)
    → HasLadders t
    → ((wait : ℕ) × (redial_backoff (sanitised t) attempt ≡ some wait) × In 0 3600 wait)
      × ((limit : ℕ) × (dial_stuck (sanitised t) attempt ≡ some limit) × In 1 3600 limit)
unfolding redial_backoff dial_stuck sanitised
ladders-total t attempt (six, seven) =
    let e6 : length (sanitised t).dial_stuck_secs ≡ 6 = length-map _ t.dial_stuck_secs ∙ six in
    let e7 : length (sanitised t).redial_backoff_secs ≡ 7 =
      length-map _ t.redial_backoff_secs ∙ seven in
    (
      get_elem-In (sanitised t).redial_backoff_secs 0 3600 _ (All-map-min t.redial_backoff_secs)
          (omega arith),
      get_elem-In (sanitised t).dial_stuck_secs 1 3600 _ (All-map_clamp t.dial_stuck_secs)
          (omega arith),
    )

clamped-bytes :
    (q n total : ℕ) → q * n ≤ total → (min (max q 8) 1024 ≡ 8) ⊎ (min (max q 8) 1024 * n ≤ total)
clamped-bytes q n total h = elim (Bool-cases (ltb q 8)) [
  | inl few ↦ inl (ground arith)
  | inr many ↦
      let c : min (max q 8) 1024 ≤ q = ground arith in inr (le_trans (mul-le-mul_right n c) h)
]

-- A queue has between 8 and 1024 slots at every rate that is not 0; and it has the least number, or
-- the bytes of a full queue are sent within two seconds at the rate (a KiB has 1024 bytes).
pub queue_slots-seconds :
    (kbps item_bytes : ℕ)
    → 0 < kbps
    → 0 < item_bytes
    → In 8 1024 (queue_slots_for kbps item_bytes)
      × ((queue_slots_for kbps item_bytes ≡ 8)
          ⊎ (queue_slots_for kbps item_bytes * item_bytes ≤ kbps * 1024 * 2))
unfolding queue_slots_for
queue_slots-seconds kbps item_bytes pos_rate pos_size =
    let rate : (kbps == 0) ≡ false = ground arith in
    let size : max item_bytes 1 ≡ item_bytes = omega arith in
    rw (rate, size)
      (
        (omega arith, omega arith),
        clamped-bytes _ item_bytes (kbps * 1024 * 2) (
            le_trans (div-mul-le_self (min (kbps * 1024 * 2) (2 ^ 64 - 1)) item_bytes)
              (omega arith)),
      )
