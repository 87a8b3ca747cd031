-- ===== src/World/Log.antt =====
-- src/world_state.rs: the event log keeps the newest signals.
use ess_p2p_rs.Shared.{
  ℕ, suc, ◌-◌, ◌≡◌, ◌≤◌, refl, sym, ap, ◌∙◌, List, [], ◌∷◌, ◌++◌, Text, bytes, length,
  length-append, length-drop, drop, last_of, last_of-append, last_of_all, length-map, map-drop,
  map-snoc, map, ltb, arith, Bool-cases, inl, inr,
}
use mathlib.Core.List.{append_assoc, append-nil}
use ess_p2p_rs.Authority.Manager.{Crypto}
use ess_p2p_rs.World.{
  WorldEvent, WorldState, bump, pop_front, set_authority, register_peer_pubkey, observe_signal,
  set_ghost_state, set_health_level, update_peers,
}
use ess_p2p_rs.World.Peers.{
  with_registry, sync_ghost_from_registry, upsert_peer_state, set_peer_connected, set_peer_role,
  set_peer_trusted, add_route, remove_route, set_local_profile, mark_peer_activated, activate,
  on_activation_notify,
}
use ess_p2p_rs.World.Snapshot.{apply_snapshot}
use ess_p2p_rs.World.Run.{
  Op, signal, authority, ghost_state, health_level, counts, upsert, connected, trusted, role, route,
  no_route, profile, mark, notified, approved, pubkey, restore, apply, run,
}

-- The texts of a log.
abbrev pub texts : List WorldEvent → List Text
texts log = map (λ (e : WorldEvent). e.signal) log

pop_front_last : (log : List WorldEvent) → length log ≤ 257 → pop_front log ≡ last_of 256 log
pop_front_last log le = elim (Bool-cases (ltb 256 (length log))) [
  | inl over ↦ let e : length log - 256 ≡ 1 = ground (arith, over, le) in rw (over, e) refl
  | inr within ↦ let e : length log - 256 ≡ 0 = ground (arith, within) in rw (within, e) refl
]

-- A log within its bound, whose texts are these.
abbrev pub IsLog : List WorldEvent → List Text → Type 0
IsLog log ts = (length log ≤ 256) × (texts log ≡ ts)

observed-IsLog :
    (log : List WorldEvent) (e : WorldEvent)
    → length log ≤ 256
    → IsLog (pop_front (log ++ e ∷ [])) (last_of 256 (texts log ++ e.signal ∷ []))
observed-IsLog log e le =
    let n : length (log ++ e ∷ []) ≡ suc (length log) = omega (arith, length-append log (e ∷ [])) in
    let cut = pop_front_last (log ++ e ∷ []) (omega (arith, n, le)) in
    let len = length-drop (length (log ++ e ∷ []) - 256) (log ++ e ∷ []) in
    let m = length-map (λ (x : WorldEvent). x.signal) (log ++ e ∷ []) in
    rw cut (
      omega (arith, len, n, le),
      map-drop (λ (x : WorldEvent). x.signal) (length (log ++ e ∷ []) - 256) (log ++ e ∷ [])
          ∙ (ap (λ k. drop (k - 256) (texts (log ++ e ∷ []))) (sym m)
              ∙ ap (last_of 256) (map-snoc (λ (x : WorldEvent). x.signal) log e)),
    )

kept-IsLog : (log : List WorldEvent) → length log ≤ 256 → IsLog log (last_of 256 (texts log ++ []))
kept-IsLog log le =
    let m = length-map (λ (x : WorldEvent). x.signal) log in
    (
      le,
      sym (
          ap (last_of 256) (append-nil (texts log))
          ∙ last_of_all 256 (texts log) (omega (arith, m, le))),
    )

abbrev pub signal_of : Op → List Text
signal_of (signal s ts) = s ∷ []
signal_of o = []

-- The signals of a run, in order.
abbrev pub signals : List (Op × ℕ) → List Text
signals [] = []
signals (o ∷ ops) = signal_of o.0 ++ signals ops

apply-IsLog :
    {Key : Type 0} (crypto : Crypto Key) (w : WorldState) (o : Op) (now : ℕ)
    → length w.event_log ≤ 256
    → IsLog (apply crypto w o now).event_log (last_of 256 (texts w.event_log ++ signal_of o))
unfolding apply bump set_authority register_peer_pubkey observe_signal set_ghost_state
    set_health_level update_peers with_registry sync_ghost_from_registry upsert_peer_state
    set_peer_connected set_peer_role set_peer_trusted add_route remove_route set_local_profile
    mark_peer_activated activate on_activation_notify apply_snapshot
apply-IsLog crypto w (signal s ts) now le =
    observed-IsLog w.event_log
      (record { ts = ts; source = bytes "system"; signal = s; revision = w.revision }) le
apply-IsLog crypto w (authority auth) now le = kept-IsLog w.event_log le
apply-IsLog crypto w (ghost_state s) now le = kept-IsLog w.event_log le
apply-IsLog crypto w (health_level level) now le = kept-IsLog w.event_log le
apply-IsLog crypto w (counts c) now le = kept-IsLog w.event_log le
apply-IsLog crypto w (upsert p r c t) now le = kept-IsLog w.event_log le
apply-IsLog crypto w (connected p c) now le = kept-IsLog w.event_log le
apply-IsLog crypto w (trusted p t) now le = kept-IsLog w.event_log le
apply-IsLog crypto w (role p r) now le = kept-IsLog w.event_log le
apply-IsLog crypto w (route p via) now le = kept-IsLog w.event_log le
apply-IsLog crypto w (no_route p via) now le = kept-IsLog w.event_log le
apply-IsLog crypto w (profile p) now le = kept-IsLog w.event_log le
apply-IsLog crypto w (mark p) now le = kept-IsLog w.event_log le
apply-IsLog crypto w (notified p) now le = kept-IsLog w.event_log le
apply-IsLog crypto w (approved p cert) now le = kept-IsLog w.event_log le
apply-IsLog crypto w (pubkey p k) now le = kept-IsLog w.event_log le
apply-IsLog crypto w (restore snap) now le = kept-IsLog w.event_log le

run_from-IsLog :
    {Key : Type 0} (crypto : Crypto Key) (w : WorldState) (ops : List (Op × ℕ))
    (history : List Text)
    → IsLog w.event_log (last_of 256 history)
    → IsLog (run crypto w ops).event_log (last_of 256 (history ++ signals ops))
unfolding run
run_from-IsLog crypto w [] history h = rw (append-nil history) h
run_from-IsLog crypto w (o ∷ ops) history h =
    let one = apply-IsLog crypto w o.0 o.1 h.0 in
    let grown : last_of 256 (texts w.event_log ++ signal_of o.0)
        ≡ last_of 256 (history ++ signal_of o.0) =
      ap (λ l. last_of 256 (l ++ signal_of o.0)) h.1 ∙ last_of-append 256 history (signal_of o.0) in
    let rest =
      run_from-IsLog crypto (apply crypto w o.0 o.1) ops (history ++ signal_of o.0)
        (one.0, one.1 ∙ grown) in
    (rest.0, rest.1 ∙ ap (last_of 256) (append_assoc history (signal_of o.0) (signals ops)))

-- After any run from an empty event log, the log holds at most 256 events, and their texts are the
-- last 256 signals of the run, in order.
pub run-IsLog :
    {Key : Type 0} (crypto : Crypto Key) (w : WorldState) (ops : List (Op × ℕ))
    → w.event_log ≡ []
    → IsLog (run crypto w ops).event_log (last_of 256 (signals ops))
run-IsLog crypto w ops empty = run_from-IsLog crypto w ops [] (rw empty (ground arith, refl))
