-- ===== src/Ghost.antt =====
-- src/ghost.rs: the data of the Ghost engine. What it sends on its event channel and writes to the
-- shared world state is a list, the newest last.
pub mod Render
pub mod Engine
pub mod Actions
pub mod Loop
pub mod Invariant
pub mod Delivery
pub mod Panic
use ess_p2p_rs.Shared.{ℕ, Bool, true, false, Option, none, some, List, [], Text, bytes, ◌==◌}

pub data GhostState : Type 0 where
  init sleep wake beacon sync idle panic zeroized : GhostState

abbrev pub number : GhostState → ℕ
number init = 0
number sleep = 1
number wake = 2
number beacon = 3
number sync = 4
number idle = 5
number panic = 6
number zeroized = 7

-- `==` of the derived `PartialEq`.
abbrev pub same : GhostState → GhostState → Bool
same a b = number a == number b

-- `fmt::Display`
unfoldable pub to_string : GhostState → Text
to_string init = bytes "init"
to_string sleep = bytes "sleep"
to_string wake = bytes "wake"
to_string beacon = bytes "beacon"
to_string sync = bytes "sync"
to_string idle = bytes "idle"
to_string panic = bytes "panic"
to_string zeroized = bytes "zeroized"

-- The intervals are in seconds.
pub record GhostConfig : Type 0 where
  pub beacon_interval : ℕ
  pub sync_interval : ℕ
  pub idle_to_sleep_after_cycles : ℕ
  pub sync_batch_limit : ℕ
  pub zeroize_on_panic : Bool
  pub auto_sleep_when_idle : Bool

-- `cycles` is what the environment variable parses to, or 10.
abbrev pub default_config : ℕ → GhostConfig
default_config cycles = record {
  beacon_interval = 30;
  sync_interval = 120;
  idle_to_sleep_after_cycles = cycles;
  sync_batch_limit = 32;
  zeroize_on_panic = true;
  auto_sleep_when_idle = true;
}

pub record GhostMetrics : Type 0 where
  pub connected_peers : ℕ
  pub known_peers : ℕ
  pub route_peers : ℕ
  pub last_beacon_ts : Option ℕ
  pub last_sync_ts : Option ℕ
  pub last_pulse_ts : Option ℕ

abbrev pub default_metrics : GhostMetrics
default_metrics = record {
  connected_peers = 0;
  known_peers = 0;
  route_peers = 0;
  last_beacon_ts = none;
  last_sync_ts = none;
  last_pulse_ts = none;
}

pub data GhostCommand : Type 0 where
  cmd_wake cmd_sleep : GhostCommand
  enqueue_sync : Text → GhostCommand
  trigger_sync trigger_beacon : GhostCommand
  trigger_panic : Text → GhostCommand
  zeroize : GhostCommand
  update_metrics : ℕ → ℕ → ℕ → GhostCommand
  set_tamper : Bool → GhostCommand
  observe_signal : Text → GhostCommand

pub record Beacon : Type 0 where
  pub node_id : Text
  pub role : Text
  pub state : GhostState
  pub fingerprint : Text
  pub connected_peers : ℕ
  pub known_peers : ℕ
  pub route_peers : ℕ
  pub ts : ℕ

pub data GhostEvent : Type 0 where
  state_changed : Text → GhostState → GhostState → GhostEvent
  beacon_sent : Beacon → GhostEvent
  sync_batch : Text → List Text → ℕ → GhostEvent
  panicked : Text → Text → ℕ → GhostEvent
  wiped : Text → ℕ → GhostEvent
  log : Text → Text → ℕ → GhostEvent

-- An event on the channel, or a write of the ghost state, the health level and a signal.
pub data Output : Type 0 where
  event : GhostEvent → Output
  world : Text → Text → Option Text → Output

pub data GhostHealthBand : Type 0 where
  init_band ready active degraded critical offline : GhostHealthBand

pub record GhostAssessment : Type 0 where
  pub health : GhostHealthBand
  pub reasons : List Text

pub data GhostDecision : Type 0 where
  do_beacon : GhostDecision
  do_sync : Bool → GhostDecision
  do_panic : Text → GhostDecision
  do_sleep do_idle : GhostDecision

pub data CycleTrigger : Type 0 where
  pulse sync_tick wake_up force_sync force_beacon : CycleTrigger
  panic_now : Text → CycleTrigger
  manual : CycleTrigger

-- `world_state` says that the engine has a shared world state and can lock it.
pub record GhostEngine : Type 0 where
  pub node_id : Text
  pub role : Text
  pub config : GhostConfig
  pub state : GhostState
  pub metrics : GhostMetrics
  pub pending_sync : List Text
  pub wake_cycles_left : ℕ
  pub tamper_detected : Bool
  pub world_state : Bool
  pub sent : List Output

-- The engine that `spawn_inner` runs.
abbrev pub spawn : Text → Text → GhostConfig → Bool → GhostEngine
spawn node_id role config world_state = record {
  node_id = node_id;
  role = role;
  config = config;
  state = init;
  metrics = default_metrics;
  pending_sync = [];
  wake_cycles_left = config.idle_to_sleep_after_cycles;
  tamper_detected = false;
  world_state = world_state;
  sent = [];
}
