-- ===== src/Ghost/Actions.antt =====
-- src/ghost.rs: what `GhostEngine` does on a decision, and one cycle. `now` and `now_ms` are the clock
-- while one input is handled.
use ess_p2p_rs.Shared.{
  ℕ, ◌-◌, Bool, false, not, ◌&&◌, ◌||◌, some, List, [], ◌∷◌, ◌++◌, Text, bytes, ltb, ◌==◌, length,
  is_empty, take, drop, if◌then◌else◌,
}
use ess_p2p_rs.Ghost.{
  sleep, beacon, sync, idle, panic, zeroized, same, to_string, default_metrics, GhostEvent,
  beacon_sent, sync_batch, panicked, wiped, event, GhostDecision, do_beacon, do_sync, do_panic,
  do_sleep, do_idle, CycleTrigger, GhostEngine,
}
use ess_p2p_rs.Ghost.Render.{decimal, simple_fingerprint, decision_message}
use ess_p2p_rs.Ghost.Engine.{send, world_writes, publish, transition, assess, decide}

unfoldable pub beacon_of : GhostEngine → ℕ → ℕ → GhostEvent
beacon_of e now now_ms = beacon_sent (record {
  node_id = e.node_id;
  role = e.role;
  state = e.state;
  fingerprint = simple_fingerprint (
      e.node_id
      ∷ e.role
      ∷ to_string e.state
      ∷ decimal e.metrics.connected_peers
      ∷ decimal e.metrics.known_peers
      ∷ decimal e.metrics.route_peers
      ∷ decimal (length e.pending_sync)
      ∷ decimal now_ms
      ∷ []);
  connected_peers = e.metrics.connected_peers;
  known_peers = e.metrics.known_peers;
  route_peers = e.metrics.route_peers;
  ts = now;
})

unfoldable pub perform_beacon : GhostEngine → ℕ → ℕ → GhostEngine
perform_beacon e now now_ms =
    let moved = transition e beacon in
    if same e.state zeroized
    then e
    else send (record moved { metrics = record moved.metrics { last_beacon_ts = some now } })
        (event (beacon_of moved now now_ms) ∷ [])

-- The loop that moves at most `limit` items from the queue to a batch: what it takes, and leaves.
unfoldable pub pop_batch : ℕ → List Text → List Text × List Text
pop_batch limit pending = (take limit pending, drop limit pending)

unfoldable pub perform_sync_if_needed : GhostEngine → Bool → ℕ → GhostEngine
unfolding pop_batch
perform_sync_if_needed e force now =
    if same e.state zeroized || same e.state panic
    then e
    else if is_empty e.pending_sync && not force
    then e
    else let syncing = transition e sync in
      let (batch, left) = pop_batch e.config.sync_batch_limit e.pending_sync in
      let popped = record syncing {
        pending_sync = left;
        metrics = record syncing.metrics { last_sync_ts = some now };
      } in
      let told = send popped (
        if not (is_empty batch) || force
        then event (sync_batch e.node_id batch now) ∷ []
        else []) in
      transition told idle

unfoldable pub perform_zeroize : GhostEngine → ℕ → GhostEngine
perform_zeroize e now =
    let wiped_engine = record e {
      pending_sync = [];
      metrics = default_metrics;
      wake_cycles_left = 0;
      tamper_detected = false;
    } in
    let moved = transition wiped_engine zeroized in
    send moved (event (wiped e.node_id now) ∷ world_writes moved (some (bytes "ghost_zeroized")))

unfoldable pub perform_panic : GhostEngine → Text → ℕ → GhostEngine
perform_panic e reason now =
    let moved = transition e panic in
    let told = send moved (
      event (panicked e.node_id reason now)
      ∷ world_writes moved (some (bytes "ghost_panic:" ++ reason))) in
    if same e.state zeroized
    then e
    else if e.config.zeroize_on_panic
    then perform_zeroize told now
    else told

unfoldable pub act : GhostEngine → GhostDecision → ℕ → ℕ → GhostEngine
act e do_beacon now now_ms = perform_beacon e now now_ms
act e (do_sync force) now now_ms = perform_sync_if_needed e force now
act e (do_panic reason) now now_ms = perform_panic e reason now
act e do_sleep now now_ms = if same e.state zeroized then e else transition e sleep
act e do_idle now now_ms =
    if same e.state zeroized || same e.state sleep then e else transition e idle

unfoldable pub act_all : GhostEngine → List GhostDecision → ℕ → ℕ → GhostEngine
act_all e [] now now_ms = e
act_all e (d ∷ ds) now now_ms =
    act_all (act (publish e now (decision_message d)) d now now_ms) ds now now_ms

unfoldable pub after_active_pulse : GhostEngine → ℕ → GhostEngine
after_active_pulse e now =
    let counted = record e { wake_cycles_left = e.wake_cycles_left - 1 } in
    let renewed = record e { wake_cycles_left = e.config.idle_to_sleep_after_cycles } in
    let awake =
      if same e.state idle || same e.state beacon then renewed else transition renewed idle in
    if same e.state zeroized || same e.state panic
    then e
    else if ltb 0 e.metrics.connected_peers
    then publish awake now (bytes "ghost_stay_awake_with_peers")
    else if counted.wake_cycles_left == 0 && e.config.auto_sleep_when_idle
    then publish (transition counted sleep) now (bytes "ghost_auto_sleep")
    else counted

unfoldable pub publish_reasons : GhostEngine → ℕ → List Text → GhostEngine
publish_reasons e now [] = e
publish_reasons e now (r ∷ rs) = publish_reasons (publish e now (bytes "ghost_assess:" ++ r)) now rs

unfoldable pub run_cycle : GhostEngine → CycleTrigger → ℕ → ℕ → GhostEngine
run_cycle e trigger now now_ms =
    let assessment = assess e in
    let assessed = publish_reasons e now assessment.reasons in
    let decisions = decide e assessment.health trigger in
    let idled = publish assessed now (bytes "ghost_decision:none") in
    let acted = after_active_pulse (act_all assessed decisions now now_ms) now in
    if same e.state zeroized
    then e
    else if is_empty decisions
    then send idled (world_writes idled (some (bytes "ghost_decision:none")))
    else send acted (world_writes acted (some (bytes "ghost_cycle_complete")))
