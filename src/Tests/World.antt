-- ===== src/Tests/World.antt =====
-- src/world_state.rs over a short run.
use ess_p2p_rs.Shared.{ℕ, ◌≡◌, refl, true, false, none, some, List, [], ◌∷◌, bytes, last_of, inl}
use ess_p2p_rs.Shared.Order.{text_ord}
use ess_p2p_rs.Shared.Dict.{lookup, insert}
use ess_p2p_rs.Authority.{default_state}
use ess_p2p_rs.World.{WorldState, new, observe_signal, bump}
use ess_p2p_rs.World.Peers.{
  set_peer_connected, is_peer_activated, change_peer, mark_peer_activated, activate,
  upsert_peer_state, with_registry, sync_ghost_from_registry,
}
use ess_p2p_rs.World.Run.{Op, signal, upsert, connected, approved, run, apply}
use ess_p2p_rs.World.Counts.{IsCounted, run-IsCounted}
use ess_p2p_rs.World.Log.{IsLog, signals, run-IsLog}
use ess_p2p_rs.World.Activation.{any_approval, activated_by_vote}
use ess_p2p_rs.Tests.Node.{crypto}

abbrev booted : WorldState
booted = new crypto default_state none 5

booted_log : booted.event_log ≡ []
unfolding new
booted_log = refl

booted_registry : booted.peer_registry ≡ []
unfolding new
booted_registry = refl

-- A peer comes, is approved by a vote and goes.
abbrev ops : List (Op × ℕ)
ops =
    (upsert (bytes "a") none true (some true), 6)
    ∷ (signal (bytes "hello") (bytes "t"), 7)
    ∷ (approved (bytes "a") (1 ∷ []), 8)
    ∷ (connected (bytes "a") false, 9)
    ∷ []

run-IsCounted_example : IsCounted (run crypto booted ops)
run-IsCounted_example =
    run-IsCounted crypto booted ops (tt, (tt, (tt, (tt, tt)))) (inl booted_registry)

run-IsLog_example : IsLog (run crypto booted ops).event_log (last_of 256 (signals ops))
run-IsLog_example = run-IsLog crypto booted ops booted_log

a_activated : is_peer_activated (run crypto booted ops) (bytes "a") ≡ true
unfolding is_peer_activated run apply lookup insert new upsert_peer_state with_registry
    sync_ghost_from_registry activate mark_peer_activated change_peer set_peer_connected
    observe_signal bump
a_activated = refl

activated_by_vote_example : any_approval (bytes "a") ops ≡ true
activated_by_vote_example =
    activated_by_vote crypto default_state none 5 ops (bytes "a") a_activated
