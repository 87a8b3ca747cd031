-- ===== src/Security/Replay.antt =====
-- src/security_runtime.rs: the replay cache of `PolicyInner`, the nonces seen of each peer with the
-- seconds at which they came. `checked` and `now` are the clock's first and second reading.
pub mod Sound
pub mod Window
pub mod Trace
pub mod Bounds
use ess_p2p_rs.Shared.{
  ℕ, ◌+◌, ◌-◌, Bool, not, ◌||◌, Option, List, [], ◌∷◌, Text, ltb, leb, length, is_empty, unwrap_or,
  if◌then◌else◌,
}
use ess_p2p_rs.Shared.Order.{text_ord}
use ess_p2p_rs.Shared.Dict.{Dict, lookup, insert, retain, contains_key}
use ess_p2p_rs.Security.{Result, ok, err, timestamp_out_of_window, replay_detected}

abbrev pub max_nonces_per_peer : ℕ
max_nonces_per_peer = 1000

abbrev pub max_tracked_peers : ℕ
max_tracked_peers = 10000

abbrev pub Seen : Type 0
Seen = Dict Text (Dict Text ℕ)

abbrev pub abs_diff : ℕ → ℕ → ℕ
abs_diff a b = (a - b) + (b - a)

abbrev pub recent : ℕ → ℕ → Text → ℕ → Bool
recent window now nonce t = leb (abs_diff now t) window

-- `bucket.retain(|_, t| now.abs_diff(*t) <= window)`
abbrev pub refresh : ℕ → ℕ → Dict Text ℕ → Dict Text ℕ
refresh window now bucket = retain (recent window now) bucket

-- What the closure of the outer `retain` does to the buckets.
unfoldable pub refresh_all : ℕ → ℕ → Seen → Seen
refresh_all window now [] = []
refresh_all window now ((peer, bucket) ∷ rest) =
    (peer, refresh window now bucket) ∷ refresh_all window now rest

-- The cleanup of stale entries.
unfoldable pub cleanup : ℕ → ℕ → Seen → Seen
unfolding refresh_all
cleanup window now seen =
    if ltb max_tracked_peers (length seen)
    then retain (λ _ bucket. not (is_empty bucket)) (refresh_all window now seen)
    else seen

unfoldable pub check_common : ℕ → Seen → Text → ℕ → Text → ℕ → ℕ → Seen × Result (Unit {0})
unfolding cleanup
check_common window seen peer ts nonce checked now =
    let kept = cleanup window now seen in
    let bucket = refresh window now (unwrap_or (lookup peer kept) []) in
    if ltb window (abs_diff checked ts)
    then (seen, err timestamp_out_of_window)
    else if contains_key nonce bucket || leb max_nonces_per_peer (length bucket)
    then (insert peer bucket kept, err replay_detected)
    else (insert peer (insert nonce now bucket) kept, ok tt)

-- `verify_nonce_uniqueness`: without a bound on the bucket.
unfoldable pub verify_nonce_uniqueness : ℕ → Seen → Text → Text → ℕ → Seen × Result (Unit {0})
verify_nonce_uniqueness window seen peer nonce now =
    let bucket = refresh window now (unwrap_or (lookup peer seen) []) in
    if contains_key nonce bucket
    then (insert peer bucket seen, err replay_detected)
    else (insert peer (insert nonce now bucket) seen, ok tt)

abbrev pub verify_timestamp : ℕ → ℕ → ℕ → Result (Unit {0})
verify_timestamp window ts now =
    if ltb window (abs_diff now ts) then err timestamp_out_of_window else ok tt
