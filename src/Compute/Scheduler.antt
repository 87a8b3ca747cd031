-- ===== src/Compute/Scheduler.antt =====
-- src/compute/scheduler.rs: what a handle submits, and the loop of the scheduler with the tasks that it
-- spawns. A permit of the semaphore is a place among `executing`. While the loop waits for a permit it
-- takes no other input.
use ess_p2p_rs.Shared.{
  ℕ, Bool, true, false, not, Option, none, some, List, [], ◌∷◌, ◌++◌, Text, bytes, length, ltb, leb,
  if◌then◌else◌,
}
use ess_p2p_rs.Shared.Order.{text_ord, text_eq}
use ess_p2p_rs.Shared.Dict.{KeySet, add, remove, contains}
use ess_p2p_rs.Authority.{compute_submit}
use ess_p2p_rs.Authority.Manager.{AuthorityManager, is_allowed}
use ess_p2p_rs.Compute.{
  Result, ok, err, invalid_spec, authority_denied, error_text, ComputeJobSpec, ComputeResult,
  JobCrypto, validate,
}
use ess_p2p_rs.Compute.Store.{Codec, ComputeStore, enqueue, dequeue_next, save_result}

pub record SchedulerConfig : Type 0 where
  pub max_concurrent_jobs : ℕ
  pub poll_interval_ms : ℕ
  pub accept_remote_jobs : Bool

abbrev pub default_config : SchedulerConfig
default_config = record {
  max_concurrent_jobs = 4;
  poll_interval_ms = 500;
  accept_remote_jobs = true;
}

pub data ComputeEvent : Type 0 where
  job_queued job_started job_cancelled : Text → ComputeEvent
  job_completed : Text → ComputeResult → ComputeEvent
  job_failed : Text → Text → ComputeEvent

abbrev pub checked : ComputeJobSpec → Result Unit → Result ComputeJobSpec
checked spec (err e) = err (invalid_spec (error_text e))
checked spec (ok u) = ok spec

-- The rest of `submit_job` once the submitter's peer is parsed.
unfoldable pub submit_as :
    JobCrypto → AuthorityManager → ComputeJobSpec → ℕ → Option Text → Result ComputeJobSpec
unfolding is_allowed validate error_text
submit_as crypto authority spec now none = err (invalid_spec (bytes "invalid submitter_peer_id"))
submit_as crypto authority spec now (some peer) =
    if not (is_allowed authority peer compute_submit now)
    then err (authority_denied (bytes "peer tidak diizinkan submit job komputasi"))
    else checked spec (validate crypto spec now)

-- What the handle passes to the loop; `parse_peer` is `parse::<PeerId>`.
unfoldable pub submit_job :
    (Text → Option Text) → JobCrypto → AuthorityManager → ComputeJobSpec → ℕ → Result ComputeJobSpec
unfolding submit_as
submit_job parse_peer crypto authority spec now =
    submit_as crypto authority spec now (parse_peer spec.submitter_peer_id)

-- The loop, the jobs whose tasks hold a permit, and the job that waits for one.
pub record Scheduler : Type 0 where
  pub config : SchedulerConfig
  pub store : ComputeStore
  pub running_jobs : KeySet Text
  pub executing : List Text
  pub waiting : Option ComputeJobSpec
  pub events : List ComputeEvent

abbrev pub spawn_scheduler : SchedulerConfig → ComputeStore → Scheduler
spawn_scheduler config store = record {
  config = config;
  store = store;
  running_jobs = [];
  executing = [];
  waiting = none;
  events = [];
}

abbrev pub tell : Scheduler → ComputeEvent → Scheduler
tell s e = record s { events = s.events ++ e ∷ [] }

-- `finished` is the end of a task with what the engine gave.
pub data Input : Type 0 where
  submitted : ComputeJobSpec → ℕ → Input
  cancelled : Text → Input
  tick : Input
  finished : Text → Result ComputeResult → Input

-- The match on what `enqueue` gives.
abbrev pub on_enqueued : Scheduler → ComputeJobSpec → Result ComputeStore → Scheduler
on_enqueued s spec (err e) = s
on_enqueued s spec (ok store) = tell (record s { store = store }) (job_queued spec.job_id)

-- The match on what `validate` gives.
abbrev pub on_validated :
    Codec ComputeJobSpec → Scheduler → ComputeJobSpec → Result Unit → Scheduler
on_validated codec s spec (err e) =
    tell s (job_failed spec.job_id (bytes "invalid signature: " ++ error_text e))
on_validated codec s spec (ok u) = on_enqueued s spec (enqueue codec s.store spec)

unfoldable pub on_submitted :
    Codec ComputeJobSpec → JobCrypto → Scheduler → ComputeJobSpec → ℕ → Scheduler
unfolding validate error_text enqueue
on_submitted codec crypto s spec now = on_validated codec s spec (validate crypto spec now)

unfoldable pub on_cancelled : Scheduler → Text → Scheduler
unfolding remove
on_cancelled s job_id =
    if contains job_id s.running_jobs
    then tell (record s { running_jobs = remove job_id s.running_jobs }) (job_cancelled job_id)
    else s

-- The rest of the tick once a job is off the queue: it starts when there is a permit.
unfoldable pub acquire : Scheduler → ComputeJobSpec → Scheduler
acquire s spec =
    if ltb (length s.executing) s.config.max_concurrent_jobs
    then record s {
      running_jobs = add spec.job_id s.running_jobs;
      executing = s.executing ++ spec.job_id ∷ [];
      waiting = none;
      events = s.events ++ job_started spec.job_id ∷ [];
    }
    else record s { waiting = some spec }

abbrev pub on_dequeued : Scheduler → Result (Option ComputeJobSpec) → Scheduler
on_dequeued s (err e) = s
on_dequeued s (ok none) = s
on_dequeued s (ok (some spec)) = acquire s spec

unfoldable pub on_tick : Codec ComputeJobSpec → Scheduler → Scheduler
unfolding dequeue_next acquire
on_tick codec s =
    if leb s.config.max_concurrent_jobs (length s.running_jobs)
    then s
    else let next = dequeue_next codec s.store in on_dequeued (record s { store = next.1 }) next.0

-- The first task of this job ends.
unfoldable pub leave : Text → List Text → List Text
leave job_id [] = []
leave job_id (j ∷ js) = let rest = j ∷ leave job_id js in if text_eq j job_id then js else rest

unfoldable pub executes : Text → List Text → Bool
executes job_id [] = false
executes job_id (j ∷ js) = let rest = executes job_id js in if text_eq j job_id then true else rest

abbrev pub saved_or : ComputeStore → Result ComputeStore → ComputeStore
saved_or store (err e) = store
saved_or store (ok after) = after

-- What the task does with the engine's answer; a result that cannot be saved is still told.
unfoldable pub report : Codec ComputeResult → Scheduler → Text → Result ComputeResult → Scheduler
unfolding save_result error_text
report results s job_id (err e) = tell s (job_failed job_id (error_text e))
report results s job_id (ok res) =
    tell (record s { store = saved_or s.store (save_result results s.store res) })
      (job_completed job_id res)

-- The permit of a task that has ended goes to the loop if it waits for one.
abbrev pub resume : Scheduler → Option ComputeJobSpec → Scheduler
resume s none = s
resume s (some spec) = acquire s spec

unfoldable pub on_finished :
    Codec ComputeResult → Scheduler → Text → Result ComputeResult → Scheduler
unfolding remove leave executes report acquire
on_finished results s job_id outcome =
    let cleared = record s { running_jobs = remove job_id s.running_jobs } in
    let told = report results cleared job_id outcome in
    let freed = record told { executing = leave job_id told.executing } in
    if executes job_id s.executing then resume freed freed.waiting else s

abbrev pub when_free : Option ComputeJobSpec → Scheduler → Scheduler → Scheduler
when_free none s next = next
when_free (some spec) s next = s

unfoldable pub step :
    Codec ComputeJobSpec → Codec ComputeResult → JobCrypto → Scheduler → Input → Scheduler
unfolding on_submitted on_cancelled on_tick on_finished
step codec results crypto s (submitted spec now) =
    when_free s.waiting s (on_submitted codec crypto s spec now)
step codec results crypto s (cancelled job_id) = when_free s.waiting s (on_cancelled s job_id)
step codec results crypto s tick = when_free s.waiting s (on_tick codec s)
step codec results crypto s (finished job_id outcome) = on_finished results s job_id outcome

unfoldable pub run :
    Codec ComputeJobSpec → Codec ComputeResult → JobCrypto → Scheduler → List Input → Scheduler
unfolding step
run codec results crypto s [] = s
run codec results crypto s (i ∷ is) = run codec results crypto (step codec results crypto s i) is
