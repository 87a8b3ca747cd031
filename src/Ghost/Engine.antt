-- ===== src/Ghost/Engine.antt =====
-- src/ghost.rs: `GhostEngine`, what it sends, how it moves, what it observes and decides. The
-- source ignores a send that fails. `observe` copies the fields that are read here directly.
use ess_p2p_rs.Shared.{
  ℕ, Bool, true, false, ◌&&◌, ◌||◌, Option, none, some, List, [], ◌∷◌, ◌++◌, Text, bytes, ltb, ◌==◌,
  length, if◌then◌else◌,
}
use ess_p2p_rs.Ghost.{
  GhostState, init, sleep, wake, beacon, sync, panic, zeroized, same, to_string, state_changed, log,
  Output, event, world, GhostHealthBand, init_band, ready, active, degraded, critical, offline,
  GhostAssessment, GhostDecision, do_beacon, do_sync, do_panic, do_sleep, do_idle, CycleTrigger,
  pulse, sync_tick, wake_up, force_sync, force_beacon, panic_now, GhostEngine,
}
use ess_p2p_rs.Ghost.Render.{starts_with}

abbrev pub send : GhostEngine → List Output → GhostEngine
send e outputs = record e { sent = e.sent ++ outputs }

unfoldable pub health_label : GhostState → Text
health_label zeroized = bytes "offline"
health_label panic = bytes "active"
health_label wake = bytes "active"
health_label beacon = bytes "active"
health_label sync = bytes "active"
health_label sleep = bytes "sleeping"
health_label _ = bytes "ready"

-- `sync_world_state`: what it writes.
unfoldable pub world_writes : GhostEngine → Option Text → List Output
world_writes e signal =
    if e.world_state then world (to_string e.state) (health_label e.state) signal ∷ [] else []

-- The signals that `publish` does not write to the world state.
unfoldable pub is_quiet : Text → Bool
is_quiet message =
    starts_with (bytes "ghost_stay_awake_with_peers") message
    || (starts_with (bytes "ghost_observe:") message
        || starts_with (bytes "ghost_metrics_update") message)

unfoldable pub published : GhostEngine → ℕ → Text → List Output
published e now message =
    event (log e.node_id message now)
    ∷ (if is_quiet message then [] else world_writes e (some message))

abbrev pub publish : GhostEngine → ℕ → Text → GhostEngine
publish e now message = send e (published e now message)

-- The moves that the guard of `transition` refuses.
abbrev pub refused : GhostState → GhostState → Bool
refused from to = same from zeroized || (same from panic && same to beacon)

unfoldable pub transition : GhostEngine → GhostState → GhostEngine
transition e to =
    if refused e.state to || same e.state to
    then e
    else send (record e { state = to }) (event (state_changed e.node_id e.state to) ∷ [])

-- The health that `assess` finds, and the reason that goes with it.
unfoldable pub health_of : GhostEngine → GhostHealthBand × List Text
health_of e =
    if same e.state zeroized
    then (offline, [])
    else if same e.state init
    then (init_band, bytes "booting" ∷ [])
    else if same e.state panic || e.tamper_detected
    then (critical, bytes "tamper_or_panic" ∷ [])
    else if e.metrics.connected_peers == 0 && e.config.auto_sleep_when_idle
    then (degraded, bytes "no_connected_peers" ∷ [])
    else if ltb 0 (length e.pending_sync)
    then (active, bytes "pending_sync_items" ∷ [])
    else if same e.state sleep
    then (ready, [])
    else (active, [])

abbrev pub note : Bool → Text → List Text
note b reason = if b then reason ∷ [] else []

abbrev pub is_none {ℓ} : {A : Type ℓ} → Option A → Bool
is_none none = true
is_none (some a) = false

unfoldable pub assess : GhostEngine → GhostAssessment
assess e =
    let (health, reasons) = health_of e in
    record {
      health = health;
      reasons =
          reasons
          ++ (note (e.metrics.known_peers == 0) (bytes "no_known_peers")
              ++ (note (e.metrics.route_peers == 0) (bytes "no_route_peers")
                  ++ (note (is_none e.metrics.last_pulse_ts) (bytes "pulse_not_started")
                      ++ (note (is_none e.metrics.last_beacon_ts) (bytes "no_beacon_yet")
                          ++ note (is_none e.metrics.last_sync_ts) (bytes "no_sync_yet")))));
    }

abbrev pub is_critical : GhostHealthBand → Bool
is_critical critical = true
is_critical _ = false

abbrev pub is_pulse : CycleTrigger → Bool
is_pulse pulse = true
is_pulse _ = false

abbrev pub is_sync_tick : CycleTrigger → Bool
is_sync_tick sync_tick = true
is_sync_tick _ = false

-- `decide` on a trigger that forces nothing.
unfoldable pub decide_calm : GhostEngine → GhostHealthBand → CycleTrigger → List GhostDecision
decide_calm e health trigger =
    if e.tamper_detected || is_critical health
    then do_panic (bytes "tamper_detected") ∷ []
    else if same e.state sleep
    then do_sleep ∷ []
    else if ltb 0 (length e.pending_sync) || is_sync_tick trigger
    then do_sync (ltb 0 (length e.pending_sync)) ∷ []
    else if is_pulse trigger
    then do_beacon ∷ []
    else if e.config.auto_sleep_when_idle && e.wake_cycles_left == 0
    then (if e.metrics.connected_peers == 0 then do_sleep ∷ [] else do_idle ∷ [])
    else do_idle ∷ []

-- The match on the trigger.
unfoldable pub decide_trigger : GhostEngine → GhostHealthBand → CycleTrigger → List GhostDecision
unfolding decide_calm
decide_trigger e health (panic_now reason) = do_panic reason ∷ []
decide_trigger e health force_beacon = do_beacon ∷ []
decide_trigger e health force_sync = do_sync true ∷ []
decide_trigger e health wake_up = do_beacon ∷ []
decide_trigger e health trigger = decide_calm e health trigger

unfoldable pub decide : GhostEngine → GhostHealthBand → CycleTrigger → List GhostDecision
unfolding decide_trigger
decide e health trigger = if same e.state zeroized then [] else decide_trigger e health trigger
