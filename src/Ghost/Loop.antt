-- ===== src/Ghost/Loop.antt =====
-- src/ghost.rs: the loop of `GhostEngine::run`, over the inputs that its `select!` chose.
use ess_p2p_rs.Shared.{
  ℕ, Bool, true, false, not, ◌&&◌, ◌||◌, some, List, [], ◌∷◌, ◌++◌, Text, bytes, length,
  if◌then◌else◌,
}
use ess_p2p_rs.Ghost.{
  sleep, wake, panic, zeroized, same, GhostCommand, cmd_wake, cmd_sleep, enqueue_sync, trigger_sync,
  trigger_beacon, trigger_panic, zeroize, update_metrics, set_tamper, observe_signal, event, log,
  CycleTrigger, pulse, sync_tick, wake_up, force_sync, force_beacon, panic_now, manual, GhostEngine,
}
use ess_p2p_rs.Ghost.Render.{decimal}
use ess_p2p_rs.Ghost.Engine.{send, publish, transition}
use ess_p2p_rs.Ghost.Actions.{perform_zeroize, run_cycle}

-- A branch of the `select!`; `closed` is the end of the command channel.
pub data Input : Type 0 where
  beacon_tick sync_interval_tick : Input
  command : GhostCommand → Input
  closed : Input

-- An input with the clock that stood when it was handled.
pub record Arrival : Type 0 where
  pub input : Input
  pub now : ℕ
  pub now_ms : ℕ

abbrev pub dormant : GhostEngine → Bool
dormant e = same e.state sleep || same e.state zeroized

-- Runs a cycle, but not once zeroized.
abbrev pub cycle_alive : GhostEngine → CycleTrigger → ℕ → ℕ → GhostEngine
cycle_alive e trigger now now_ms =
    let cycled = run_cycle e trigger now now_ms in if same e.state zeroized then e else cycled

abbrev pub bool_text : Bool → Text
bool_text true = bytes "true"
bool_text false = bytes "false"

-- The arm of a command.
unfoldable pub obey : GhostEngine → GhostCommand → ℕ → ℕ → GhostEngine
obey e cmd_wake now now_ms =
    let woken =
      transition (record e { wake_cycles_left = e.config.idle_to_sleep_after_cycles }) wake in
    let cycled = run_cycle woken wake_up now now_ms in
    if same e.state zeroized || same e.state panic then e else cycled
obey e cmd_sleep now now_ms =
    let slept = transition (record e { wake_cycles_left = 0 }) sleep in
    if same e.state zeroized then e else publish slept now (bytes "ghost_cmd_sleep")
obey e (enqueue_sync item) now now_ms =
    let queued = record e { pending_sync = e.pending_sync ++ item ∷ [] } in
    let message = bytes "sync item queued; pending=" ++ decimal (length queued.pending_sync) in
    let told =
      publish (send queued (event (log e.node_id message now) ∷ [])) now
        (bytes "ghost_enqueue_sync") in
    let cycled = run_cycle told manual now now_ms in if same e.state zeroized then e else cycled
obey e trigger_sync now now_ms = cycle_alive e force_sync now now_ms
obey e trigger_beacon now now_ms = cycle_alive e force_beacon now now_ms
obey e (trigger_panic reason) now now_ms = cycle_alive e (panic_now reason) now now_ms
obey e zeroize now now_ms = publish (perform_zeroize e now) now (bytes "ghost_cmd_zeroize")
obey e (update_metrics connected known route) now now_ms =
    let measured = record e {
      metrics = record e.metrics {
        connected_peers = connected;
        known_peers = known;
        route_peers = route;
      };
    } in
    run_cycle (publish measured now (bytes "ghost_metrics_update")) manual now now_ms
obey e (set_tamper tamper) now now_ms =
    let flagged =
      publish (record e { tamper_detected = tamper }) now
        (bytes "ghost_tamper:" ++ bool_text tamper) in
    let cycled = run_cycle flagged (panic_now (bytes "tamper_flag_set")) now now_ms in
    if tamper && not (same e.state zeroized) then cycled else flagged
obey e (observe_signal signal) now now_ms =
    run_cycle (publish e now (bytes "ghost_observe:" ++ signal)) manual now now_ms

unfoldable pub on_beacon_tick : GhostEngine → ℕ → ℕ → GhostEngine
on_beacon_tick e now now_ms =
    let pulsed = record e { metrics = record e.metrics { last_pulse_ts = some now } } in
    let cycled = run_cycle pulsed pulse now now_ms in
    if dormant e then publish pulsed now (bytes "ghost_beacon_tick_sleep") else cycled

unfoldable pub on_sync_tick : GhostEngine → ℕ → ℕ → GhostEngine
on_sync_tick e now now_ms =
    let cycled = run_cycle e sync_tick now now_ms in
    if dormant e then publish e now (bytes "ghost_sync_tick_sleep") else cycled

unfoldable pub handle : GhostEngine → Arrival → GhostEngine
handle e a = elim a.input [
  | beacon_tick ↦ on_beacon_tick e a.now a.now_ms
  | sync_interval_tick ↦ on_sync_tick e a.now a.now_ms
  | command c ↦ obey e c a.now a.now_ms
  | closed ↦ e
]

-- The inputs after which the loop breaks.
abbrev pub breaks : Input → Bool
breaks (command zeroize) = true
breaks closed = true
breaks _ = false

unfoldable pub run_loop : GhostEngine → List Arrival → GhostEngine
run_loop e [] = e
run_loop e (a ∷ rest) =
    let next = handle e a in
    let onward = run_loop next rest in if breaks a.input then next else onward

-- `run`, from the boot on.
unfoldable pub run : GhostEngine → ℕ → List Arrival → GhostEngine
run e now arrivals = run_loop (publish (transition e sleep) now (bytes "ghost_boot")) arrivals
