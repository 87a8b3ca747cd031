-- ===== src/Ghost/Delivery/Cycle.antt =====
-- src/ghost.rs: a cycle loses no item that waits to be synced.
use ess_p2p_rs.Shared.{
  ℕ, ◌-◌, ◌≡◌, refl, Bool, true, not, ◌||◌, some, List, [], ◌∷◌, ◌++◌, Text, bytes, is_empty, take,
  drop, take-append-drop, if◌then◌else◌, arith,
}
use mathlib.Core.List.{append_assoc, append-nil}
use ess_p2p_rs.Ghost.{
  GhostState, sleep, beacon, sync, idle, panic, zeroized, same, GhostEngine, GhostDecision,
  do_beacon, do_sync, do_panic, do_sleep, do_idle, CycleTrigger, sync_batch, panicked, Output,
  event,
}
use ess_p2p_rs.Ghost.Render.{decision_message}
use ess_p2p_rs.Ghost.Engine.{send, world_writes, transition, publish, assess, decide}
use ess_p2p_rs.Ghost.Actions.{
  beacon_of, pop_batch, perform_beacon, perform_sync_if_needed, perform_zeroize, perform_panic, act,
  act_all, after_active_pulse, publish_reasons, run_cycle,
}
use ess_p2p_rs.Ghost.Delivery.{
  batched, handed_in, batched-append, Follows, Follows-trans, Follows-refl, same-Follows,
  send-Follows, world_writes-batched, publish-Follows, transition-Follows,
}

pub perform_beacon-Follows :
    (e : GhostEngine) (now now_ms : ℕ) → Follows e [] (perform_beacon e now now_ms)
unfolding perform_beacon batched handed_in beacon_of
perform_beacon-Follows e now now_ms =
    let moved = transition e beacon in
    let marked = record moved { metrics = record moved.metrics { last_beacon_ts = some now } } in
    let told = event (beacon_of moved now now_ms) ∷ [] in
    let moved-Follows : Follows e [] marked = ground (arith, transition-Follows e beacon) in
    ground (
      arith,
      Follows-refl e,
      Follows-trans e marked (send marked told) [] [] moved-Follows (send-Follows marked told refl),
    )

pub perform_zeroize-zeroized :
    (e : GhostEngine) (now : ℕ) → same (perform_zeroize e now).state zeroized ≡ true
unfolding perform_zeroize transition
perform_zeroize-zeroized e now = ground arith

pub perform_zeroize-Follows : (e : GhostEngine) (now : ℕ) → Follows e [] (perform_zeroize e now)
perform_zeroize-Follows e now = ground (arith, perform_zeroize-zeroized e now)

pub perform_panic-Follows :
    (e : GhostEngine) (reason : Text) (now : ℕ) → Follows e [] (perform_panic e reason now)
unfolding perform_panic batched
perform_panic-Follows e reason now =
    let moved = transition e panic in
    let writes = world_writes moved (some (bytes "ghost_panic:" ++ reason)) in
    let outputs = event (panicked e.node_id reason now) ∷ writes in
    let told-Follows =
      Follows-trans e moved (send moved outputs) [] [] (transition-Follows e panic) (
        send-Follows moved outputs
          (world_writes-batched moved (some (bytes "ghost_panic:" ++ reason)))) in
    let gone = perform_zeroize-Follows (send moved outputs) now in
    ground (
      arith,
      Follows-refl e,
      told-Follows,
      Follows-trans e (send moved outputs) (perform_zeroize (send moved outputs) now) [] []
          told-Follows gone,
    )

-- The outputs of a batch that is left out when it is empty.
pub batch_outputs-batched :
    (e : GhostEngine) (batch : List Text) (force : Bool) (now : ℕ)
    → batched
        (if not (is_empty batch) || force then event (sync_batch e.node_id batch now) ∷ [] else [])
      ≡ batch
unfolding batched
batch_outputs-batched e [] force now = ground arith
batch_outputs-batched e (x ∷ batch) force now = append-nil (x ∷ batch)

pub transition-pending :
    (e : GhostEngine) (to : GhostState) → (transition e to).pending_sync ≡ e.pending_sync
unfolding transition
transition-pending e to = ground arith

pub popped-handed_in :
    (sent outputs : List Output) (batch left pending : List Text)
    → batched outputs ≡ batch
    → batch ++ left ≡ pending
    → batched (sent ++ outputs) ++ left ≡ batched sent ++ pending
popped-handed_in sent outputs batch left pending h whole =
    rw (batched-append sent outputs, h, append_assoc (batched sent) batch left, whole)

pub perform_sync-Follows :
    (e : GhostEngine) (force : Bool) (now : ℕ) → Follows e [] (perform_sync_if_needed e force now)
unfolding perform_sync_if_needed pop_batch batched handed_in
perform_sync-Follows e force now =
    let syncing = transition e sync in
    let limit = e.config.sync_batch_limit in
    let batch = take limit e.pending_sync in
    let left = drop limit e.pending_sync in
    let outputs =
      if not (is_empty batch) || force then event (sync_batch e.node_id batch now) ∷ [] else [] in
    let popped = record syncing {
      pending_sync = left;
      metrics = record syncing.metrics { last_sync_ts = some now };
    } in
    let told = send popped outputs in
    let all_in =
      popped-handed_in syncing.sent outputs batch left e.pending_sync
        (batch_outputs-batched e batch force now) (take-append-drop limit e.pending_sync) in
    let syncing-Follows = transition-Follows e sync in
    let told-Follows : Follows e [] told =
      grind
        (arith, all_in, transition-pending e sync, syncing-Follows.stays, syncing-Follows.kept) in
    ground (
      arith,
      Follows-refl e,
      Follows-trans e told (transition told idle) [] [] told-Follows (transition-Follows told idle),
    )

pub act-Follows :
    (e : GhostEngine) (d : GhostDecision) (now now_ms : ℕ) → Follows e [] (act e d now now_ms)
unfolding act
act-Follows e do_beacon now now_ms = perform_beacon-Follows e now now_ms
act-Follows e (do_sync force) now now_ms = perform_sync-Follows e force now
act-Follows e (do_panic reason) now now_ms = perform_panic-Follows e reason now
act-Follows e do_sleep now now_ms = ground (arith, Follows-refl e, transition-Follows e sleep)
act-Follows e do_idle now now_ms = ground (arith, Follows-refl e, transition-Follows e idle)

pub act_all-Follows :
    (e : GhostEngine) (ds : List GhostDecision) (now now_ms : ℕ)
    → Follows e [] (act_all e ds now now_ms)
unfolding act_all
act_all-Follows e [] now now_ms = Follows-refl e
act_all-Follows e (d ∷ ds) now now_ms =
    let told = publish e now (decision_message d) in
    let acted = act told d now now_ms in
    Follows-trans e acted (act_all acted ds now now_ms) [] []
      (Follows-trans e told acted [] [] (publish-Follows e now (decision_message d))
        (act-Follows told d now now_ms))
      (act_all-Follows acted ds now now_ms)

pub publish_reasons-Follows :
    (e : GhostEngine) (now : ℕ) (reasons : List Text) → Follows e [] (publish_reasons e now reasons)
unfolding publish_reasons
publish_reasons-Follows e now [] = Follows-refl e
publish_reasons-Follows e now (r ∷ rs) =
    let told = publish e now (bytes "ghost_assess:" ++ r) in
    Follows-trans e told (publish_reasons told now rs) [] []
      (publish-Follows e now (bytes "ghost_assess:" ++ r)) (publish_reasons-Follows told now rs)

pub after_active_pulse-Follows :
    (e : GhostEngine) (now : ℕ) → Follows e [] (after_active_pulse e now)
unfolding after_active_pulse
after_active_pulse-Follows e now =
    let counted = record e { wake_cycles_left = e.wake_cycles_left - 1 } in
    let counted-Follows : Follows e [] counted = same-Follows e counted refl refl refl in
    let renewed = record e { wake_cycles_left = e.config.idle_to_sleep_after_cycles } in
    let renewed-Follows : Follows e [] renewed = same-Follows e renewed refl refl refl in
    let idled-Follows =
      Follows-trans e renewed (transition renewed idle) [] [] renewed-Follows
        (transition-Follows renewed idle) in
    let slept-Follows =
      Follows-trans e counted (transition counted sleep) [] [] counted-Follows
        (transition-Follows counted sleep) in
    let told = λ (after : GhostEngine) (m : Text) (f : Follows e [] after).
      Follows-trans e after (publish after now m) [] [] f (publish-Follows after now m) in
    ground (
      arith,
      Follows-refl e,
      counted-Follows,
      told renewed (bytes "ghost_stay_awake_with_peers") renewed-Follows,
      told (transition renewed idle) (bytes "ghost_stay_awake_with_peers") idled-Follows,
      told (transition counted sleep) (bytes "ghost_auto_sleep") slept-Follows,
    )

pub run_cycle-Follows :
    (e : GhostEngine) (trigger : CycleTrigger) (now now_ms : ℕ)
    → Follows e [] (run_cycle e trigger now now_ms)
unfolding run_cycle
run_cycle-Follows e trigger now now_ms =
    let assessed = publish_reasons e now (assess e).reasons in
    let assessed-Follows = publish_reasons-Follows e now (assess e).reasons in
    let decisions = decide e (assess e).health trigger in
    let acted = act_all assessed decisions now now_ms in
    let pulsed = after_active_pulse acted now in
    let idled = publish assessed now (bytes "ghost_decision:none") in
    let acted-Follows =
      Follows-trans e acted pulsed [] []
        (Follows-trans e assessed acted [] [] assessed-Follows
          (act_all-Follows assessed decisions now now_ms))
        (after_active_pulse-Follows acted now) in
    let idled-Follows =
      Follows-trans e assessed idled [] [] assessed-Follows
        (publish-Follows assessed now (bytes "ghost_decision:none")) in
    let ends = λ (after : GhostEngine) (m : Text) (f : Follows e [] after).
      let writes = world_writes after (some m) in
      Follows-trans e after (send after writes) [] [] f
        (send-Follows after writes (world_writes-batched after (some m))) in
    ground (
      arith,
      Follows-refl e,
      ends idled (bytes "ghost_decision:none") idled-Follows,
      ends pulsed (bytes "ghost_cycle_complete") acted-Follows,
    )
