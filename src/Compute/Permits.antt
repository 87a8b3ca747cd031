-- ===== src/Compute/Permits.antt =====
-- src/compute/scheduler.rs: how many jobs execute at a time.
use ess_p2p_rs.Shared.{
  suc, ◌≡◌, ◌≤◌, refl, true, Option, none, some, List, [], ◌∷◌, Text, length, length-append, leb,
  arith, Bool-cases, inl, inr, ◌⊎◌,
}
use ess_p2p_rs.Shared.Order.{text_ord}
use ess_p2p_rs.Shared.Dict.{remove}
use ess_p2p_rs.Compute.{Result, ok, err, ComputeJobSpec, ComputeResult, JobCrypto, validate}
use ess_p2p_rs.Compute.Store.{Codec, ComputeStore, enqueue, dequeue_next}
use ess_p2p_rs.Compute.Scheduler.{
  SchedulerConfig, Scheduler, spawn_scheduler, Input, submitted, cancelled, tick, finished,
  on_enqueued, on_validated, on_submitted, on_cancelled, acquire, on_dequeued, on_tick, leave,
  executes, report, resume, on_finished, when_free, step, run,
}

-- No more jobs execute than there are permits, and a job waits only while every permit is held.
abbrev pub IsWithin : Scheduler → Type 0
IsWithin s =
    (length s.executing ≤ s.config.max_concurrent_jobs)
    × ((s.waiting ≡ none) ⊎ (length s.executing ≡ s.config.max_concurrent_jobs))

-- The handler touches neither the configuration nor the tasks.
abbrev KeepsTasks : Scheduler → Scheduler → Type 0
KeepsTasks s t = (t.config ≡ s.config) × (t.executing ≡ s.executing) × (t.waiting ≡ s.waiting)

KeepsTasks-IsWithin : (s t : Scheduler) → KeepsTasks s t → IsWithin s → IsWithin t
KeepsTasks-IsWithin s t (c, e, w) h = rw (c, e, w) h

enqueued-KeepsTasks :
    (s : Scheduler) (spec : ComputeJobSpec) (r : Result ComputeStore)
    → KeepsTasks s (on_enqueued s spec r)
enqueued-KeepsTasks s spec (err e) = (refl, refl, refl)
enqueued-KeepsTasks s spec (ok store) = (refl, refl, refl)

validated-KeepsTasks :
    (codec : Codec ComputeJobSpec) (s : Scheduler) (spec : ComputeJobSpec) (r : Result Unit)
    → KeepsTasks s (on_validated codec s spec r)
validated-KeepsTasks codec s spec (err e) = (refl, refl, refl)
validated-KeepsTasks codec s spec (ok u) = enqueued-KeepsTasks s spec (enqueue codec s.store spec)

report-KeepsTasks :
    (results : Codec ComputeResult) (s : Scheduler) (job_id : Text) (outcome : Result ComputeResult)
    → KeepsTasks s (report results s job_id outcome)
unfolding report
report-KeepsTasks results s job_id (err e) = (refl, refl, refl)
report-KeepsTasks results s job_id (ok res) = (refl, refl, refl)

on_cancelled-KeepsTasks : (s : Scheduler) (job_id : Text) → KeepsTasks s (on_cancelled s job_id)
unfolding on_cancelled
on_cancelled-KeepsTasks s job_id = ground arith

acquire-IsWithin :
    (s : Scheduler) (spec : ComputeJobSpec)
    → length s.executing ≤ s.config.max_concurrent_jobs
    → IsWithin (acquire s spec)
unfolding acquire
acquire-IsWithin s spec le = ground (arith, le, length-append s.executing (spec.job_id ∷ []))

dequeued-IsWithin :
    (s : Scheduler) (r : Result (Option ComputeJobSpec)) → IsWithin s → IsWithin (on_dequeued s r)
dequeued-IsWithin s (err e) h = h
dequeued-IsWithin s (ok none) h = h
dequeued-IsWithin s (ok (some spec)) h = acquire-IsWithin s spec h.0

tick-IsWithin :
    (codec : Codec ComputeJobSpec) (s : Scheduler) → IsWithin s → IsWithin (on_tick codec s)
unfolding on_tick
tick-IsWithin codec s h =
    elim (Bool-cases (leb s.config.max_concurrent_jobs (length s.running_jobs))) [
      | inl full ↦ rw full h
      | inr room ↦
          let next = dequeue_next codec s.store in
          rw room (dequeued-IsWithin (record s { store = next.1 }) next.0 h)
    ]

length-leave :
    (job_id : Text) (js : List Text)
    → executes job_id js ≡ true
    → suc (length (leave job_id js)) ≡ length js
unfolding leave executes
length-leave job_id [] h = ground (arith, h)
length-leave job_id (j ∷ js) h = ground (arith, h, length-leave job_id js)

resume-IsWithin :
    (s : Scheduler) (waiting : Option ComputeJobSpec)
    → s.waiting ≡ waiting
    → length s.executing ≤ s.config.max_concurrent_jobs
    → IsWithin (resume s waiting)
resume-IsWithin s none w le = (le, inl w)
resume-IsWithin s (some spec) w le = acquire-IsWithin s spec le

finished-IsWithin :
    (results : Codec ComputeResult) (s : Scheduler) (job_id : Text) (outcome : Result ComputeResult)
    → IsWithin s
    → IsWithin (on_finished results s job_id outcome)
unfolding on_finished
finished-IsWithin results s job_id outcome h = elim (Bool-cases (executes job_id s.executing)) [
  | inr absent ↦ rw absent h
  | inl there ↦
      let cleared = record s { running_jobs = remove job_id s.running_jobs } in
      let told = report results cleared job_id outcome in
      let keeps = report-KeepsTasks results cleared job_id outcome in
      let freed = record told { executing = leave job_id told.executing } in
      let le : length (leave job_id told.executing) ≤ told.config.max_concurrent_jobs =
        rw (keeps.0, keeps.1) (omega (arith, length-leave job_id s.executing there, h.0)) in
      rw there (resume-IsWithin freed freed.waiting refl le)
]

free-IsWithin :
    (waiting : Option ComputeJobSpec) (s t : Scheduler)
    → IsWithin s
    → IsWithin t
    → IsWithin (when_free waiting s t)
free-IsWithin none s t hs ht = ht
free-IsWithin (some spec) s t hs ht = hs

step-IsWithin :
    (codec : Codec ComputeJobSpec) (results : Codec ComputeResult) (crypto : JobCrypto)
    (s : Scheduler) (i : Input)
    → IsWithin s
    → IsWithin (step codec results crypto s i)
unfolding step on_submitted
step-IsWithin codec results crypto s (submitted spec now) h =
    free-IsWithin s.waiting s (on_submitted codec crypto s spec now) h (
      KeepsTasks-IsWithin s (on_submitted codec crypto s spec now)
        (validated-KeepsTasks codec s spec (validate crypto spec now)) h)
step-IsWithin codec results crypto s (cancelled job_id) h =
    free-IsWithin s.waiting s (on_cancelled s job_id) h
      (KeepsTasks-IsWithin s (on_cancelled s job_id) (on_cancelled-KeepsTasks s job_id) h)
step-IsWithin codec results crypto s tick h =
    free-IsWithin s.waiting s (on_tick codec s) h (tick-IsWithin codec s h)
step-IsWithin codec results crypto s (finished job_id outcome) h =
    finished-IsWithin results s job_id outcome h

run_from-IsWithin :
    (codec : Codec ComputeJobSpec) (results : Codec ComputeResult) (crypto : JobCrypto)
    (s : Scheduler) (is : List Input)
    → IsWithin s
    → IsWithin (run codec results crypto s is)
unfolding run
run_from-IsWithin codec results crypto s [] h = h
run_from-IsWithin codec results crypto s (i ∷ is) h =
    run_from-IsWithin codec results crypto (step codec results crypto s i) is
      (step-IsWithin codec results crypto s i h)

-- Whatever inputs a new scheduler gets, no more jobs execute than it may run at a time, and a job
-- that is off the queue waits only while as many execute.
pub run-IsWithin :
    (codec : Codec ComputeJobSpec) (results : Codec ComputeResult) (crypto : JobCrypto)
    (config : SchedulerConfig) (store : ComputeStore) (is : List Input)
    → IsWithin (run codec results crypto (spawn_scheduler config store) is)
run-IsWithin codec results crypto config store is =
    run_from-IsWithin codec results crypto (spawn_scheduler config store) is
      (ground arith, inl refl)
