-- ===== src/Ghost/Delivery/Run.antt =====
-- src/ghost.rs: what becomes of the queued items over a whole run.
use ess_p2p_rs.Shared.{
  ℕ, ◌≡◌, refl, Bool, true, ◌⊎◌, some, List, [], ◌∷◌, ◌++◌, Text, bytes, length, if◌then◌else◌,
  arith,
}
use mathlib.Core.List.{append_assoc, append-nil}
use ess_p2p_rs.Ghost.{
  sleep, wake, zeroized, same, GhostConfig, GhostEngine, CycleTrigger, spawn, log, Output, event,
  GhostCommand, cmd_wake, cmd_sleep, enqueue_sync, trigger_sync, trigger_beacon, trigger_panic,
  zeroize, update_metrics, set_tamper, observe_signal, wake_up, force_sync, force_beacon, panic_now,
  manual, pulse, sync_tick,
}
use ess_p2p_rs.Ghost.Render.{decimal}
use ess_p2p_rs.Ghost.Engine.{send, transition, publish}
use ess_p2p_rs.Ghost.Actions.{perform_zeroize, run_cycle}
use ess_p2p_rs.Ghost.Loop.{
  bool_text, breaks, Arrival, Input, beacon_tick, sync_interval_tick, command, closed, obey,
  on_beacon_tick, on_sync_tick, handle, run_loop, run,
}
use ess_p2p_rs.Ghost.Delivery.{
  batched, handed_in, batched-append, Follows, Follows-trans, Follows-refl, same-Follows,
  publish-Follows, transition-Follows,
}
use ess_p2p_rs.Ghost.Delivery.Cycle.{perform_zeroize-Follows, run_cycle-Follows}

-- The items that an input queues.
unfoldable pub item_of : Input → List Text
item_of (command (enqueue_sync item)) = item ∷ []
item_of _ = []

-- The items that the inputs queue which the loop reads before it breaks.
unfoldable pub queued_by : List Arrival → List Text
queued_by [] = []
queued_by (a ∷ rest) =
    let onward = queued_by rest in item_of a.input ++ (if breaks a.input then [] else onward)

pub told_cycle-Follows :
    (e mid : GhostEngine) (m : Text) (trigger : CycleTrigger) (now now_ms : ℕ)
    → Follows e [] mid
    → Follows e [] (run_cycle (publish mid now m) trigger now now_ms)
told_cycle-Follows e mid m trigger now now_ms f =
    let told = publish mid now m in
    Follows-trans e told (run_cycle told trigger now now_ms) [] []
      (Follows-trans e mid told [] [] f (publish-Follows mid now m))
      (run_cycle-Follows told trigger now now_ms)

-- An engine that runs on a queue that is one item longer.
pub queued-Follows :
    (e : GhostEngine) (item : Text) (outputs : List Output)
    → batched outputs ≡ []
    → Follows e (item ∷ []) (send (record e { pending_sync = e.pending_sync ++ item ∷ [] }) outputs)
unfolding handed_in
queued-Follows e item outputs h = grind (
  arith,
  batched-append e.sent outputs,
  append-nil (batched e.sent),
  h,
  append_assoc (batched e.sent) e.pending_sync (item ∷ []),
)

obey-Follows :
    (e : GhostEngine) (order : GhostCommand) (now now_ms : ℕ)
    → Follows e (item_of (command order)) (obey e order now now_ms)
unfolding obey item_of batched
obey-Follows e cmd_wake now now_ms =
    let renewed = record e { wake_cycles_left = e.config.idle_to_sleep_after_cycles } in
    let woken = transition renewed wake in
    let woken-Follows =
      Follows-trans e renewed woken [] [] (same-Follows e renewed refl refl refl)
        (transition-Follows renewed wake) in
    ground (
      arith,
      Follows-refl e,
      Follows-trans e woken (run_cycle woken wake_up now now_ms) [] [] woken-Follows
          (run_cycle-Follows woken wake_up now now_ms),
    )
obey-Follows e cmd_sleep now now_ms =
    let stopped = record e { wake_cycles_left = 0 } in
    let slept = transition stopped sleep in
    let slept-Follows =
      Follows-trans e stopped slept [] [] (same-Follows e stopped refl refl refl)
        (transition-Follows stopped sleep) in
    ground (
      arith,
      Follows-refl e,
      Follows-trans e slept (publish slept now (bytes "ghost_cmd_sleep")) [] [] slept-Follows
          (publish-Follows slept now (bytes "ghost_cmd_sleep")),
    )
obey-Follows e (enqueue_sync item) now now_ms =
    let queued = record e { pending_sync = e.pending_sync ++ item ∷ [] } in
    let message = bytes "sync item queued; pending=" ++ decimal (length queued.pending_sync) in
    let logged = send queued (event (log e.node_id message now) ∷ []) in
    let told = publish logged now (bytes "ghost_enqueue_sync") in
    let logged-Follows = queued-Follows e item (event (log e.node_id message now) ∷ []) refl in
    ground (
      arith,
      Follows-trans e logged (run_cycle told manual now now_ms) (item ∷ []) [] logged-Follows (
          told_cycle-Follows logged logged (bytes "ghost_enqueue_sync") manual now now_ms
            (Follows-refl logged)),
    )
obey-Follows e trigger_sync now now_ms =
    ground (arith, Follows-refl e, run_cycle-Follows e force_sync now now_ms)
obey-Follows e trigger_beacon now now_ms =
    ground (arith, Follows-refl e, run_cycle-Follows e force_beacon now now_ms)
obey-Follows e (trigger_panic reason) now now_ms =
    ground (arith, Follows-refl e, run_cycle-Follows e (panic_now reason) now now_ms)
obey-Follows e zeroize now now_ms =
    let gone = perform_zeroize e now in
    Follows-trans e gone (publish gone now (bytes "ghost_cmd_zeroize")) [] []
      (perform_zeroize-Follows e now) (publish-Follows gone now (bytes "ghost_cmd_zeroize"))
obey-Follows e (update_metrics connected known route) now now_ms =
    let metrics = record e.metrics {
      connected_peers = connected;
      known_peers = known;
      route_peers = route;
    } in
    let measured = record e { metrics = metrics } in
    told_cycle-Follows e measured (bytes "ghost_metrics_update") manual now now_ms
      (same-Follows e measured refl refl refl)
obey-Follows e (set_tamper tamper) now now_ms =
    let flagged = record e { tamper_detected = tamper } in
    let message = bytes "ghost_tamper:" ++ bool_text tamper in
    let flagged-Follows = same-Follows e flagged refl refl refl in
    ground (
      arith,
      Follows-trans e flagged (publish flagged now message) [] [] flagged-Follows
          (publish-Follows flagged now message),
      told_cycle-Follows e flagged message (panic_now (bytes "tamper_flag_set")) now now_ms
          flagged-Follows,
    )
obey-Follows e (observe_signal signal) now now_ms =
    told_cycle-Follows e e (bytes "ghost_observe:" ++ signal) manual now now_ms (Follows-refl e)

pub on_beacon_tick-Follows :
    (e : GhostEngine) (now now_ms : ℕ) → Follows e [] (on_beacon_tick e now now_ms)
unfolding on_beacon_tick
on_beacon_tick-Follows e now now_ms =
    let pulsed = record e { metrics = record e.metrics { last_pulse_ts = some now } } in
    let pulsed-Follows = same-Follows e pulsed refl refl refl in
    ground (
      arith,
      Follows-trans e pulsed (publish pulsed now (bytes "ghost_beacon_tick_sleep")) [] []
          pulsed-Follows (publish-Follows pulsed now (bytes "ghost_beacon_tick_sleep")),
      Follows-trans e pulsed (run_cycle pulsed pulse now now_ms) [] [] pulsed-Follows
          (run_cycle-Follows pulsed pulse now now_ms),
    )

pub on_sync_tick-Follows :
    (e : GhostEngine) (now now_ms : ℕ) → Follows e [] (on_sync_tick e now now_ms)
unfolding on_sync_tick
on_sync_tick-Follows e now now_ms = ground (
  arith,
  publish-Follows e now (bytes "ghost_sync_tick_sleep"),
  run_cycle-Follows e sync_tick now now_ms,
)

pub handle-Follows : (e : GhostEngine) (a : Arrival) → Follows e (item_of a.input) (handle e a)
unfolding handle item_of
handle-Follows e a =
    elim a.input
      as (λ i.
        Follows e (item_of i) (handle e (record { input = i; now = a.now; now_ms = a.now_ms }))) [
          | beacon_tick ↦ on_beacon_tick-Follows e a.now a.now_ms
          | sync_interval_tick ↦ on_sync_tick-Follows e a.now a.now_ms
          | command order ↦ obey-Follows e order a.now a.now_ms
          | closed ↦ Follows-refl e
        ]

pub run_loop-Follows :
    (e : GhostEngine) (arrivals : List Arrival)
    → Follows e (queued_by arrivals) (run_loop e arrivals)
unfolding run_loop queued_by
run_loop-Follows e [] = Follows-refl e
run_loop-Follows e (a ∷ rest) =
    let first = handle-Follows e a in
    let onward =
      Follows-trans e (handle e a) (run_loop (handle e a) rest) (item_of a.input) (queued_by rest)
        first (run_loop-Follows (handle e a) rest) in
    grind (arith, first, onward, append-nil (item_of a.input))

-- A run from the boot ends zeroized, or the items of the batches that it sent, followed by the
-- items that still wait, are the items that were queued, in the order they came in: none is lost,
-- doubled or reordered.
pub run-delivers :
    (node_id role : Text) (c : GhostConfig) (world_state : Bool) (now : ℕ) (arrivals : List Arrival)
    → (same (run (spawn node_id role c world_state) now arrivals).state zeroized ≡ true)
      ⊎ (handed_in (run (spawn node_id role c world_state) now arrivals) ≡ queued_by arrivals)
unfolding run handed_in batched
run-delivers node_id role c world_state now arrivals =
    let e = spawn node_id role c world_state in
    let slept = transition e sleep in
    let booted = publish slept now (bytes "ghost_boot") in
    let booted-Follows =
      Follows-trans e slept booted [] [] (transition-Follows e sleep)
        (publish-Follows slept now (bytes "ghost_boot")) in
    (Follows-trans e booted (run_loop booted arrivals) [] (queued_by arrivals) booted-Follows
      (run_loop-Follows booted arrivals)).kept

-- An engine that is zeroized stays so, whatever arrives.
pub run_loop-zeroized :
    (e : GhostEngine) (arrivals : List Arrival)
    → same e.state zeroized ≡ true
    → same (run_loop e arrivals).state zeroized ≡ true
run_loop-zeroized e arrivals gone = ground (arith, (run_loop-Follows e arrivals).stays)
