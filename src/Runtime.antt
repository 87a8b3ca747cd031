-- ===== src/Runtime.antt =====
-- src/ghost_runtime.rs: the runtime that watches the world and commands the Ghost engine. What it sends to
-- the engine and to the action sink is a list, the newest last; it spawns a task for most of its commands,
-- so that the engine may get them in another order. Nothing panics while it holds the policy's or the
-- scheduler's lock, so that these are sound; the world's lock may be poisoned by others.
pub mod Ticks
pub mod Run
pub mod Tame
pub mod Calmness
pub mod Calm
pub mod Sleeps
pub mod Idle
pub mod Rest
pub mod Streak
pub mod Poisoned
use ess_p2p_rs.Shared.{
  ℕ, suc, ◌+◌, ◌%◌, ◌^◌, ◌==◌, Bool, true, false, not, ◌&&◌, Option, none, some, List, [], ◌∷◌,
  ◌++◌, Text, bytes, ltb, leb, unwrap_or, if◌then◌else◌,
}
use ess_p2p_rs.Shared.Dict.{Dict}
use ess_p2p_rs.Ghost.Render.{decimal}
use ess_p2p_rs.Ghost.{
  idle, GhostCommand, cmd_wake, cmd_sleep, enqueue_sync, trigger_sync, trigger_beacon,
  trigger_panic, zeroize, update_metrics, set_tamper, observe_signal,
}
use ess_p2p_rs.World.{PeerState, WorldState, set_ghost_state, update_peers}
use ess_p2p_rs.World.Peers.{sync_ghost_from_registry}
use ess_p2p_rs.World.Snapshot.{WorldStateSnapshot, snapshot}
use ess_p2p_rs.Health.{GhostHealthSnapshot, GhostHealthAssessment, default_snapshot, assess}
use ess_p2p_rs.Health.Policy.{
  Floats, GhostPolicy, default_policy, GhostDecision, noop, wake_up, go_to_sleep, send_beacon,
  start_sync, do_panic, degrade, drop_peer, throttle, isolate_peer, retry, reroute,
  adjust_reputation, SystemEventKind, peer_connected, evaluate_event, decide_health,
  evaluate_reputation, evaluate_load,
}

-- The clock in seconds, and as text.
pub record Clock : Type 0 where
  pub now : ℕ
  pub ts : Text

-- `str::trim`, `f64` with the value of its bits, and the `Debug` text of an event.
pub record Env : Type 1 where
  pub trim : Text → Text
  pub floats : Floats
  pub of_bits : ℕ → floats.F
  pub debug : SystemEventKind floats → Text

pub record SchedulerState : Type 0 where
  pub tick_count : ℕ
  pub idle_ticks : ℕ
  pub last_event : Option Text
  pub last_assessment : Option GhostHealthAssessment

abbrev pub default_scheduler : SchedulerState
default_scheduler = record {
  tick_count = 0;
  idle_ticks = 0;
  last_event = none;
  last_assessment = none;
}

-- The counts of a tick: it saturates the first and wraps the second.
abbrev pub count_tick : SchedulerState → ℕ → SchedulerState
count_tick s peers = record s {
  tick_count = if ltb (s.tick_count + 1) (2 ^ 64) then s.tick_count + 1 else s.tick_count;
  idle_ticks = if peers == 0 then (s.idle_ticks + 1) % 2 ^ 64 else 0;
}

module _ (env : Env) where
  pub data SinkAction : Type 0 where
    sink_drop limit_peer quarantine_peer : Text → SinkAction
    reroute_traffic : Text → List Text → SinkAction
    adjust_score : Text → env.floats.F → SinkAction

  pub record GhostRuntimeConfig : Type 0 where
    pub policy : GhostPolicy env.floats
    pub scheduler_tick_secs : ℕ
    pub sync_every_ticks : ℕ
    pub sleep_after_idle_ticks : ℕ
    pub wake_on_activity : Bool
    pub enable_scheduler : Bool

  abbrev pub default_runtime_config : GhostRuntimeConfig
  default_runtime_config = record {
    policy = default_policy env.floats;
    scheduler_tick_secs = 10;
    sync_every_ticks = 6;
    sleep_after_idle_ticks = 6;
    wake_on_activity = true;
    enable_scheduler = true;
  }

  pub record GhostRuntime : Type 0 where
    pub node_id : Text
    pub role : Text
    pub world : WorldState
    pub poisoned : Bool
    pub policy : GhostPolicy env.floats
    pub has_sink : Bool
    pub scheduler : SchedulerState
    pub config : GhostRuntimeConfig
    pub commands : List GhostCommand
    pub actions : List SinkAction

  abbrev pub spawn_ghost_runtime : Text → Text → GhostRuntimeConfig → WorldState → GhostRuntime
  spawn_ghost_runtime node_id role config world = record {
    node_id = node_id;
    role = role;
    world = world;
    poisoned = false;
    policy = config.policy;
    has_sink = false;
    scheduler = default_scheduler;
    config = config;
    commands = [];
    actions = [];
  }

  abbrev pub command : GhostRuntime → List GhostCommand → GhostRuntime
  command r cs = record r { commands = r.commands ++ cs }

  abbrev pub to_sink : GhostRuntime → List SinkAction → GhostRuntime
  to_sink r told = if r.has_sink then record r { actions = r.actions ++ told } else r

  abbrev pub set_world_state : GhostRuntime → Text → ℕ → GhostRuntime
  set_world_state r state now =
      if r.poisoned then r else record r { world = set_ghost_state r.world state now }

  unfoldable pub apply_decision : GhostRuntime → GhostDecision env.floats → ℕ → GhostRuntime
  unfolding set_ghost_state
  apply_decision r noop now = r
  apply_decision r wake_up now = command (set_world_state r (bytes "waking") now) (cmd_wake ∷ [])
  apply_decision r go_to_sleep now =
      command (set_world_state r (bytes "sleeping") now) (cmd_sleep ∷ [])
  apply_decision r send_beacon now = command r (trigger_beacon ∷ [])
  apply_decision r start_sync now = command r (trigger_sync ∷ [])
  apply_decision r do_panic now =
      command (set_world_state r (bytes "panic") now)
        (trigger_panic (bytes "autonomous_panic") ∷ [])
  apply_decision r degrade now = set_world_state r (bytes "degraded") now
  apply_decision r (drop_peer peer_id) now = to_sink r (sink_drop peer_id ∷ [])
  apply_decision r (throttle peer_id) now = to_sink r (limit_peer peer_id ∷ [])
  apply_decision r (isolate_peer peer_id) now = to_sink r (quarantine_peer peer_id ∷ [])
  apply_decision r (retry peer_id) now = command r (enqueue_sync (bytes "retry:" ++ peer_id) ∷ [])
  apply_decision r (reroute peer_id) now =
      command (to_sink r (reroute_traffic peer_id [] ∷ []))
        (enqueue_sync (bytes "reroute:" ++ peer_id) ∷ trigger_beacon ∷ [])
  apply_decision r (adjust_reputation peer_id delta) now =
      to_sink r (adjust_score peer_id delta ∷ [])

  abbrev pub is_connection : SystemEventKind env.floats → Bool
  is_connection (peer_connected peer_id) = true
  is_connection kind = false

  unfoldable pub publish_event : GhostRuntime → SystemEventKind env.floats → ℕ → GhostRuntime
  unfolding apply_decision evaluate_event
  publish_event r kind now =
      let decided = apply_decision r (evaluate_event env.floats r.policy kind) now in
      let woken =
        if r.config.wake_on_activity && is_connection kind
        then apply_decision decided wake_up now
        else decided in
      command woken (observe_signal (env.debug kind) ∷ [])

  abbrev pub real_snapshot : GhostRuntime → WorldStateSnapshot → GhostHealthSnapshot
  real_snapshot r s = record {
    node_id = r.node_id;
    role = r.role;
    connected_peers = s.connected_peers;
    known_peers = s.known_peers;
    route_peers = s.route_peers;
    trusted_peers = s.trusted_peers;
    bootstrap_ok = ltb 0 s.trusted_peers;
    gateway_ok = true;
    web_ok = true;
    config_ok = true;
    tamper_detected = false;
    last_failure_reason = s.last_signal;
  }

  unfoldable pub build_real_snapshot : GhostRuntime → Text → GhostHealthSnapshot
  unfolding snapshot
  build_real_snapshot r ts =
      if r.poisoned then default_snapshot else real_snapshot r (snapshot r.world ts)

  -- The loop over the registry, by the scores of its peers.
  unfoldable pub judge_peers : GhostRuntime → Dict Text PeerState → ℕ → GhostRuntime
  unfolding apply_decision evaluate_reputation
  judge_peers r [] now = r
  judge_peers r ((peer_id, p) ∷ m) now =
      judge_peers
        (apply_decision r
          (evaluate_reputation env.floats r.policy peer_id (env.of_bits p.reputation.score)) now)
        m now

  abbrev pub note_assessment : GhostRuntime → GhostHealthAssessment → GhostRuntime
  note_assessment r a =
      record (command r (observe_signal (bytes "ghost:assess:" ++ a.reason) ∷ [])) {
        scheduler = record r.scheduler { last_event = some a.reason; last_assessment = some a };
      }

  unfoldable pub assess_runtime : GhostRuntime → Clock → GhostRuntime
  unfolding judge_peers build_real_snapshot assess
  assess_runtime r clock =
      let marked = set_world_state r (bytes "assessing") clock.now in
      let seen = build_real_snapshot marked clock.ts in
      let judged =
        if marked.poisoned
        then marked
        else judge_peers marked marked.world.peer_registry clock.now in
      note_assessment judged (assess env.trim seen idle)
