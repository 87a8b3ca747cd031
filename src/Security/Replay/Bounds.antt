-- ===== src/Security/Replay/Bounds.antt =====
-- src/security_runtime.rs: how many nonces the replay cache keeps of a peer.
use ess_p2p_rs.Shared.{
  ℕ, ◌≤◌, Bool, not, List, [], ◌∷◌, Text, suc, length, is_empty, unwrap_or, arith,
}
use ess_p2p_rs.Shared.Order.{text_ord}
use ess_p2p_rs.Shared.Dict.{Dict, lookup, insert, retain}
use ess_p2p_rs.Security.Replay.{
  Seen, recent, refresh, refresh_all, cleanup, check_common, max_nonces_per_peer,
}
use ess_p2p_rs.Security.Replay.Trace.{Message, check_message, check_all}

module _ {ℓ} {V : Type ℓ} where
  length-retain : (p : Text → V → Bool) (m : Dict Text V) → length (retain p m) ≤ length m
  unfolding retain
  length-retain p [] = ground arith
  length-retain p ((k, v) ∷ m) = ground (arith, length-retain p m)

  length-insert : (k : Text) (v : V) (m : Dict Text V) → length (insert k v m) ≤ suc (length m)
  unfolding insert
  length-insert k v [] = ground arith
  length-insert k v ((j, w) ∷ m) = ground (arith, length-insert k v m)

-- No bucket is above the cap.
abbrev pub IsBounded : Seen → Type 0
IsBounded [] = Unit
IsBounded ((peer, bucket) ∷ rest) = (length bucket ≤ max_nonces_per_peer) × IsBounded rest

lookup-IsBounded :
    (peer : Text) (seen : Seen)
    → IsBounded seen
    → length (unwrap_or (lookup peer seen) []) ≤ max_nonces_per_peer
unfolding lookup
lookup-IsBounded peer [] b = ground arith
lookup-IsBounded peer ((q, bucket) ∷ rest) b = ground (arith, b.0, lookup-IsBounded peer rest b.1)

insert-IsBounded :
    (peer : Text) (bucket : Dict Text ℕ) (seen : Seen)
    → length bucket ≤ max_nonces_per_peer
    → IsBounded seen
    → IsBounded (insert peer bucket seen)
unfolding insert
insert-IsBounded peer bucket [] h b = (h, tt)
insert-IsBounded peer bucket ((q, c) ∷ rest) h b =
    ground (arith, h, b.0, b.1, insert-IsBounded peer bucket rest h b.1)

refresh_all-IsBounded :
    (window now : ℕ) (seen : Seen) → IsBounded seen → IsBounded (refresh_all window now seen)
unfolding refresh_all
refresh_all-IsBounded window now [] b = tt
refresh_all-IsBounded window now ((peer, bucket) ∷ rest) b = (
  ground (arith, b.0, length-retain (recent window now) bucket),
  refresh_all-IsBounded window now rest b.1,
)

retain-IsBounded :
    (p : Text → Dict Text ℕ → Bool) (seen : Seen) → IsBounded seen → IsBounded (retain p seen)
unfolding retain
retain-IsBounded p [] b = tt
retain-IsBounded p ((peer, bucket) ∷ rest) b = ground (arith, b.0, retain-IsBounded p rest b.1)

cleanup-IsBounded :
    (window now : ℕ) (seen : Seen) → IsBounded seen → IsBounded (cleanup window now seen)
unfolding cleanup
cleanup-IsBounded window now seen b = ground (
  arith,
  b,
  retain-IsBounded (λ _ bucket. not (is_empty bucket)) (refresh_all window now seen)
      (refresh_all-IsBounded window now seen b),
)

check_common-IsBounded :
    (window : ℕ) (seen : Seen) (peer : Text) (ts : ℕ) (nonce : Text) (checked now : ℕ)
    → IsBounded seen
    → IsBounded (check_common window seen peer ts nonce checked now).0
unfolding check_common
check_common-IsBounded window seen peer ts nonce checked now b =
    let kept = cleanup window now seen in
    let kept-IsBounded = cleanup-IsBounded window now seen b in
    let old = unwrap_or (lookup peer kept) [] in
    let bucket = refresh window now old in
    let small = lookup-IsBounded peer kept kept-IsBounded in
    let shorter = length-retain (recent window now) old in
    let longer = length-insert nonce now bucket in
    ground (
      arith,
      b,
      (λ (h : length bucket ≤ max_nonces_per_peer).
          insert-IsBounded peer bucket kept h kept-IsBounded),
      (λ (h : length (insert nonce now bucket) ≤ max_nonces_per_peer).
          insert-IsBounded peer (insert nonce now bucket) kept h kept-IsBounded),
      small,
      shorter,
      longer,
    )

run-IsBounded :
    (window : ℕ) (seen : Seen) (ms : List Message)
    → IsBounded seen
    → IsBounded (check_all window seen ms)
run-IsBounded window seen [] b = b
run-IsBounded window seen (m ∷ ms) b =
    run-IsBounded window (check_message window seen m).0 ms
      (check_common-IsBounded window seen m.peer m.ts m.nonce m.checked m.now b)

-- Whatever messages come, the replay cache keeps at most 1,000 nonces of a peer.
pub nonces_bounded :
    (window : ℕ) (ms : List Message) (peer : Text)
    → length (unwrap_or (lookup peer (check_all window [] ms)) []) ≤ max_nonces_per_peer
nonces_bounded window ms peer =
    lookup-IsBounded peer (check_all window [] ms) (run-IsBounded window [] ms tt)
