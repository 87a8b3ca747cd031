-- ===== src/Ghost/Delivery.antt =====
-- src/ghost.rs: where the items go that are queued to be synced: out in a batch, or they still wait, or
-- the engine was zeroized.
pub mod Cycle
pub mod Run
use ess_p2p_rs.Shared.{
  ℕ, suc, zero, ◌-◌, ◌≤◌, ◌≡◌, refl, Bool, true, false, not, ◌&&◌, ◌||◌, ◌⊎◌, inl, inr, Option,
  none, some, List, [], ◌∷◌, ◌++◌, Text, bytes, length, is_empty, take, drop, take-append-drop,
  Bool-cases, if◌then◌else◌, arith,
}
use mathlib.Core.List.{append_assoc, append-nil}
use ess_p2p_rs.Ghost.{
  GhostState, init, sleep, wake, beacon, sync, idle, panic, zeroized, same, GhostConfig,
  GhostEngine, GhostDecision, do_beacon, do_sync, do_panic, do_sleep, do_idle, CycleTrigger, spawn,
  GhostEvent, state_changed, beacon_sent, sync_batch, panicked, wiped, log, Output, event, world,
  to_string, GhostCommand, cmd_wake, cmd_sleep, enqueue_sync, trigger_sync, trigger_beacon,
  trigger_panic, zeroize, update_metrics, set_tamper, observe_signal, wake_up, force_sync,
  force_beacon, panic_now, manual, pulse, sync_tick,
}
use ess_p2p_rs.Ghost.Render.{decimal, decision_message}
use ess_p2p_rs.Ghost.Engine.{
  send, world_writes, published, is_quiet, refused, health_label, transition, publish, assess,
  decide,
}
use ess_p2p_rs.Ghost.Actions.{
  beacon_of, pop_batch, perform_beacon, perform_sync_if_needed, perform_zeroize, perform_panic, act,
  act_all, after_active_pulse, publish_reasons, run_cycle,
}
use ess_p2p_rs.Ghost.Loop.{
  bool_text, breaks, Arrival, Input, beacon_tick, sync_interval_tick, command, closed, obey,
  on_beacon_tick, on_sync_tick, handle, run_loop, run,
}

-- The items of the batches among some outputs, in order.
unfoldable pub items_of : Output → List Text
items_of (event (sync_batch n items ts)) = items
items_of (event (state_changed n a b)) = []
items_of (event (beacon_sent b)) = []
items_of (event (panicked n r ts)) = []
items_of (event (wiped n ts)) = []
items_of (event (log n m ts)) = []
items_of (world s h g) = []

unfoldable pub batched : List Output → List Text
unfolding items_of
batched [] = []
batched (o ∷ os) = items_of o ++ batched os

-- The items that were sent, and then those that wait.
unfoldable pub handed_in : GhostEngine → List Text
handed_in e = batched e.sent ++ e.pending_sync

pub batched-append : (xs ys : List Output) → batched (xs ++ ys) ≡ batched xs ++ batched ys
unfolding batched
batched-append [] ys = refl
batched-append (o ∷ xs) ys =
    rw (batched-append xs ys, append_assoc (items_of o) (batched xs) (batched ys))

-- The later engine stays zeroized if the earlier one is, and else has these items more.
pub record Follows (e : GhostEngine) (items : List Text) (after : GhostEngine) : Type 0 where
  pub stays : (same e.state zeroized ≡ false) ⊎ (same after.state zeroized ≡ true)
  pub kept : (same after.state zeroized ≡ true) ⊎ (handed_in after ≡ handed_in e ++ items)

pub Follows-trans :
    (e mid after : GhostEngine) (xs ys : List Text)
    → Follows e xs mid
    → Follows mid ys after
    → Follows e (xs ++ ys) after
Follows-trans e mid after xs ys p q = grind (arith, append_assoc (handed_in e) xs ys)

pub Follows-refl : (e : GhostEngine) → Follows e [] e
Follows-refl e = ground (arith, append-nil (handed_in e))

pub same-Follows :
    (e after : GhostEngine)
    → after.state ≡ e.state
    → after.pending_sync ≡ e.pending_sync
    → after.sent ≡ e.sent
    → Follows e [] after
unfolding handed_in
same-Follows e after state pending sent =
    grind (arith, state, pending, sent, append-nil (batched e.sent ++ e.pending_sync))

pub send-Follows :
    (e : GhostEngine) (outputs : List Output) → batched outputs ≡ [] → Follows e [] (send e outputs)
unfolding handed_in
send-Follows e outputs none_sent = grind (
  arith,
  batched-append e.sent outputs,
  append-nil (batched e.sent),
  append-nil (batched e.sent ++ e.pending_sync),
)

pub world_writes-batched :
    (e : GhostEngine) (signal : Option Text) → batched (world_writes e signal) ≡ []
unfolding batched world_writes
world_writes-batched e signal = ground arith

pub publish-Follows : (e : GhostEngine) (now : ℕ) (m : Text) → Follows e [] (publish e now m)
unfolding published batched world_writes
publish-Follows e now m = send-Follows e (published e now m) (ground arith)

pub transition-Follows : (e : GhostEngine) (to : GhostState) → Follows e [] (transition e to)
unfolding transition batched handed_in
transition-Follows e to =
    let told = event (state_changed e.node_id e.state to) ∷ [] in
    ground (arith, Follows-refl e, send-Follows e told refl)
