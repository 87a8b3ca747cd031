-- ===== src/Compute/Stall.antt =====
-- src/compute/scheduler.rs: what a cancellation does to the loop.
use ess_p2p_rs.Shared.{
  ◌≡◌, ◌≤◌, ◌<◌, refl, ap, ◌∙◌, true, false, none, some, List, [], ◌∷◌, Text, length, ltb, leb, All,
  arith,
}
use ess_p2p_rs.Shared.Order.{text_ord}
use ess_p2p_rs.Shared.Dict.{KeySet, lookup, remove, contains}
use ess_p2p_rs.Compute.{ComputeJobSpec, ComputeResult, JobCrypto}
use ess_p2p_rs.Compute.Store.{Codec}
use ess_p2p_rs.Compute.Queue.{Represents, dequeue_next-Represents}
use ess_p2p_rs.Compute.Keys.{Waiting}
use ess_p2p_rs.Compute.Scheduler.{
  Scheduler, Input, submitted, cancelled, tick, finished, on_submitted, on_cancelled, acquire,
  on_tick, when_free, step, run,
}

-- Not the end of a task.
abbrev pub IsOutside : Input → Type 0
IsOutside (submitted spec now) = Unit
IsOutside (cancelled job_id) = Unit
IsOutside tick = Unit
IsOutside (finished job_id outcome) = ⊥

blocked_run :
    (codec : Codec ComputeJobSpec) (results : Codec ComputeResult) (crypto : JobCrypto)
    (s : Scheduler) (spec : ComputeJobSpec) (is : List Input)
    → s.waiting ≡ some spec
    → All IsOutside is
    → run codec results crypto s is ≡ s
unfolding run step
blocked_run codec results crypto s spec [] w out = refl
blocked_run codec results crypto s spec (submitted sp now ∷ is) w out =
    ap (λ o. run codec results crypto (when_free o s (on_submitted codec crypto s sp now)) is) w
    ∙ blocked_run codec results crypto s spec is w out.1
blocked_run codec results crypto s spec (cancelled job_id ∷ is) w out =
    ap (λ o. run codec results crypto (when_free o s (on_cancelled s job_id)) is) w
    ∙ blocked_run codec results crypto s spec is w out.1
blocked_run codec results crypto s spec (tick ∷ is) w out =
    ap (λ o. run codec results crypto (when_free o s (on_tick codec s)) is) w
    ∙ blocked_run codec results crypto s spec is w out.1
blocked_run codec results crypto s spec (finished job_id outcome ∷ is) w out = absurd out.0

length-remove_le : (k : Text) (m : KeySet Text) → length (remove k m) ≤ length m
unfolding remove
length-remove_le k [] = ground arith
length-remove_le k ((j, v) ∷ m) = ground (arith, length-remove_le k m)

length-remove : (k : Text) (m : KeySet Text) → contains k m ≡ true → length (remove k m) < length m
unfolding remove lookup
length-remove k [] h = ground (arith, h)
length-remove k ((j, v) ∷ m) h = ground (arith, h, length-remove_le k m, length-remove k m)

-- If every permit is held and a job waits in the queue, then after a running job is cancelled and
-- the next tick has come, no submission, cancellation or tick changes the scheduler any more before
-- a task ends.
pub cancel_stalls :
    (codec : Codec ComputeJobSpec) (results : Codec ComputeResult) (crypto : JobCrypto)
    (s : Scheduler) (job_id : Text) (e : Waiting) (q : List Waiting) (is : List Input)
    → s.waiting ≡ none
    → length s.executing ≡ s.config.max_concurrent_jobs
    → length s.running_jobs ≤ s.config.max_concurrent_jobs
    → contains job_id s.running_jobs ≡ true
    → Represents codec s.store (e ∷ q)
    → All IsOutside is
    → run codec results crypto s (cancelled job_id ∷ tick ∷ is)
      ≡ run codec results crypto s (cancelled job_id ∷ tick ∷ [])
unfolding run step on_cancelled on_tick acquire
cancel_stalls codec results crypto s job_id e q is free full running here r out =
    let (spec, given, named, rest) = dequeue_next-Represents codec s.store e q r in
    let s1 = on_cancelled s job_id in
    let fewer = length-remove job_id s.running_jobs here in
    let room : leb s.config.max_concurrent_jobs (length (remove job_id s.running_jobs)) ≡ false =
      ground (arith, fewer, running) in
    let no_permit : ltb (length s.executing) s.config.max_concurrent_jobs ≡ false =
      ground (arith, full) in
    let waits : (step codec results crypto (step codec results crypto s (cancelled job_id))
          tick).waiting
        ≡ some spec =
      rw (free, here, room, given, no_permit) refl in
    blocked_run codec results crypto
      (step codec results crypto (step codec results crypto s (cancelled job_id)) tick) spec is
      waits out
