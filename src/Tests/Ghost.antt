-- ===== src/Tests/Ghost.antt =====
-- src/ghost.rs on short runs.
use ess_p2p_rs.Shared.{ℕ, ◌≡◌, ◌⊎◌, inl, refl, true, false, [], ◌∷◌, List, bytes, arith}
use ess_p2p_rs.Ghost.{
  GhostConfig, GhostEngine, default_config, spawn, zeroized, same, enqueue_sync, trigger_panic,
  cmd_wake,
}
use ess_p2p_rs.Ghost.Loop.{Arrival, Input, command, sync_interval_tick, obey, run}
use ess_p2p_rs.Ghost.Invariant.{IsSafe}
use ess_p2p_rs.Ghost.Invariant.Run.{run-IsSafe}
use ess_p2p_rs.Ghost.Panic.{panic_wipes}
use ess_p2p_rs.Ghost.Delivery.{handed_in}
use ess_p2p_rs.Ghost.Delivery.Run.{queued_by, run-delivers}

abbrev config : GhostConfig
config = default_config 10

abbrev at : Input → ℕ → Arrival
at input now = record { input = input; now = now; now_ms = 1000 }

abbrev arrivals : List Arrival
arrivals =
    at (command cmd_wake) 1
    ∷ at (command (enqueue_sync (bytes "x"))) 2
    ∷ at (command (enqueue_sync (bytes "y"))) 3
    ∷ at sync_interval_tick 4
    ∷ at (command (enqueue_sync (bytes "z"))) 5
    ∷ []

abbrev engine : GhostEngine
engine = record (spawn (bytes "n") (bytes "client") config false) { pending_sync = bytes "x" ∷ [] }

engine-IsSafe : IsSafe config engine
engine-IsSafe = record { configured = refl; wiped = inl refl; counted = ground arith }

run-IsSafe_example :
    IsSafe config (run (spawn (bytes "n") (bytes "client") config false) 0 arrivals)
run-IsSafe_example = run-IsSafe config (bytes "n") (bytes "client") false 0 arrivals

run-delivers_example :
    (same (run (spawn (bytes "n") (bytes "client") config false) 0 arrivals).state zeroized ≡ true)
    ⊎ (handed_in (run (spawn (bytes "n") (bytes "client") config false) 0 arrivals)
        ≡ queued_by arrivals)
run-delivers_example = run-delivers (bytes "n") (bytes "client") config false 0 arrivals

panic_wipes_example :
    (same (obey engine (trigger_panic (bytes "p")) 7 7000).state zeroized ≡ true)
    × ((obey engine (trigger_panic (bytes "p")) 7 7000).pending_sync ≡ [])
panic_wipes_example = panic_wipes config refl engine (bytes "p") 7 7000 engine-IsSafe
