-- ===== src/Compute/Drain.antt =====
-- src/compute/scheduler.rs and store.rs together: jobs that wait are started, in the order of their dates.
use ess_p2p_rs.Shared.{
  ℕ, ◌≡◌, ◌<◌, refl, sym, ap, ◌∙◌, true, false, none, List, [], ◌∷◌, ◌++◌, Text, ltb, leb, arith,
}
use mathlib.Core.List.{append_assoc, append-nil}
use ess_p2p_rs.Shared.Order.{text_ord, text_eq, text_eq_iff}
use ess_p2p_rs.Shared.Dict.{add, insert, remove}
use ess_p2p_rs.Compute.{Result, ok, err, and_then, ComputeJobSpec, ComputeResult, JobCrypto}
use ess_p2p_rs.Compute.Store.{
  Codec, ComputeStore, dequeue_next, save_result, gc_results_if_needed, result_key,
}
use ess_p2p_rs.Compute.Queue.{Represents, dequeue_next-Represents}
use ess_p2p_rs.Compute.Keys.{Waiting}
use ess_p2p_rs.Compute.Scheduler.{
  SchedulerConfig, Scheduler, ComputeEvent, job_queued, job_started, job_cancelled, job_completed,
  job_failed, Input, tick, finished, acquire, on_tick, leave, executes, report, on_finished,
  saved_or, step, run,
}

-- A scheduler whose tasks have all ended.
abbrev pub idle : SchedulerConfig → ComputeStore → List ComputeEvent → Scheduler
idle config store events = record {
  config = config;
  store = store;
  running_jobs = [];
  executing = [];
  waiting = none;
  events = events;
}

-- The jobs that were started, in order.
unfoldable pub started : List ComputeEvent → List Text
started [] = []
started (job_queued id ∷ es) = started es
started (job_started id ∷ es) = id ∷ started es
started (job_cancelled id ∷ es) = started es
started (job_completed id r ∷ es) = started es
started (job_failed id e ∷ es) = started es

abbrev pub ids : List Waiting → List Text
ids [] = []
ids (e ∷ q) = e.1 ∷ ids q

-- For each job a tick, and then the end of the job.
abbrev pub rounds : (Text → Result ComputeResult) → List Waiting → List Input
rounds outcome [] = []
rounds outcome (e ∷ q) = tick ∷ finished e.1 (outcome e.1) ∷ rounds outcome q

started-append : (es fs : List ComputeEvent) → started (es ++ fs) ≡ started es ++ started fs
unfolding started
started-append [] fs = refl
started-append (job_queued id ∷ es) fs = started-append es fs
started-append (job_started id ∷ es) fs = ap (λ l. id ∷ l) (started-append es fs)
started-append (job_cancelled id ∷ es) fs = started-append es fs
started-append (job_completed id r ∷ es) fs = started-append es fs
started-append (job_failed id e ∷ es) fs = started-append es fs

started_one :
    (es : List ComputeEvent) (id : Text)
    → started (es ++ job_started id ∷ []) ≡ started es ++ id ∷ []
unfolding started
started_one es id = started-append es (job_started id ∷ [])

-- The store of results does not touch the queue.
abbrev SameQueue : ComputeStore → ComputeStore → Type 0
SameQueue s t = (t.queue ≡ s.queue) × (t.jobs ≡ s.jobs)

SameQueue-Represents :
    (codec : Codec ComputeJobSpec) (s t : ComputeStore) (q : List Waiting)
    → SameQueue s t
    → Represents codec s q
    → Represents codec t q
SameQueue-Represents codec s t q (eq, ej) r = record {
  queue_is = eq ∙ r.queue_is;
  sorted = rw eq r.sorted;
  dates = r.dates;
  stored = rw ej r.stored;
}

gc_same : (s : ComputeStore) → SameQueue s (gc_results_if_needed s)
unfolding gc_results_if_needed
gc_same s = ground arith

saved_same :
    (s : ComputeStore) (key : Text) (r : Result (List ℕ))
    → SameQueue s (
        saved_or s (
          and_then r (λ value.
            ok (gc_results_if_needed (record s { results = insert key value s.results })))))
saved_same s key (err e) = (refl, refl)
saved_same s key (ok value) = gc_same (record s { results = insert key value s.results })

-- What ends a task: the new store, and what it tells.
told_after :
    (results : Codec ComputeResult) (s : Scheduler) (job_id : Text) (outcome : Result ComputeResult)
    → (store : ComputeStore) × (e : ComputeEvent) × SameQueue s.store store
      × (started (e ∷ []) ≡ [])
      × (report results s job_id outcome ≡ record s { store = store; events = s.events ++ e ∷ [] })
unfolding report started save_result
told_after results s job_id (err e) = (s.store, _, (refl, refl), refl, refl)
told_after results s job_id (ok res) = (
  saved_or s.store (save_result results s.store res),
  _,
  saved_same s.store (result_key res.job_id) (results.serialize res),
  refl,
  refl,
)

-- A tick takes the first job of the queue and starts it.
tick_starts :
    (codec : Codec ComputeJobSpec) (config : SchedulerConfig) (store : ComputeStore)
    (events : List ComputeEvent) (e : Waiting) (q : List Waiting)
    → 0 < config.max_concurrent_jobs
    → Represents codec store (e ∷ q)
    → (after : ComputeStore) × Represents codec after q
      × (on_tick codec (idle config store events) ≡ record {
        config = config;
        store = after;
        running_jobs = add e.1 [];
        executing = e.1 ∷ [];
        waiting = none;
        events = events ++ job_started e.1 ∷ [];
      })
unfolding on_tick acquire
tick_starts codec config store events e q pos r =
    let (spec, given, named, rest) = dequeue_next-Represents codec store e q r in
    let after = (dequeue_next codec store).1 in
    let room : leb config.max_concurrent_jobs 0 ≡ false = ground (arith, pos) in
    let permit : ltb 0 config.max_concurrent_jobs ≡ true = ground (arith, pos) in
    (after, rest, rw (room, given, permit, named) refl)

-- The end of the only job leaves the scheduler idle.
end_idles :
    (results : Codec ComputeResult) (config : SchedulerConfig) (store : ComputeStore)
    (events : List ComputeEvent) (id : Text) (outcome : Result ComputeResult)
    → (after : ComputeStore) × (e : ComputeEvent) × SameQueue store after
      × (started (e ∷ []) ≡ [])
      × (on_finished results
            (record {
              config = config;
              store = store;
              running_jobs = add id [];
              executing = id ∷ [];
              waiting = none;
              events = events;
            })
            id
            outcome
          ≡ idle config after (events ++ e ∷ []))
unfolding on_finished leave executes remove insert
end_idles results config store events id outcome =
    let busy : Scheduler = record {
      config = config;
      store = store;
      running_jobs = [];
      executing = id ∷ [];
      waiting = none;
      events = events;
    } in
    let (after, e, same, silent, told) = told_after results busy id outcome in
    let own : text_eq id id ≡ true = ground (arith, text_eq_iff id id) in
    (after, e, same, silent, rw (own, told) (rw own refl))

-- An idle scheduler with a permit at least, whose store's queue stands for a list of jobs, starts
-- all of them in the order of the list and has an empty queue at the end, if it gets a tick for
-- each job followed by the end of the job, however the jobs end.
pub run-rounds :
    (codec : Codec ComputeJobSpec) (results : Codec ComputeResult) (crypto : JobCrypto)
    (outcome : Text → Result ComputeResult) (config : SchedulerConfig) (store : ComputeStore)
    (events : List ComputeEvent) (q : List Waiting)
    → 0 < config.max_concurrent_jobs
    → Represents codec store q
    → (after : ComputeStore) × (told : List ComputeEvent) × (run codec results crypto
          (idle config store events)
          (rounds outcome q)
        ≡ idle config after told)
      × (after.queue ≡ [])
      × (started told ≡ started events ++ ids q)
unfolding run step
run-rounds codec results crypto outcome config store events [] pos r =
    (store, events, refl, r.queue_is, sym (append-nil (started events)))
run-rounds codec results crypto outcome config store events (e ∷ q) pos r =
    let (taken, rest, ticked) = tick_starts codec config store events e q pos r in
    let begun = events ++ job_started e.1 ∷ [] in
    let (ended, last, same, silent, closed) =
      end_idles results config taken begun e.1 (outcome e.1) in
    let (after, told, ran, empty, order) =
      run-rounds codec results crypto outcome config ended (begun ++ last ∷ []) q pos
        (SameQueue-Represents codec taken ended q same rest) in
    let first : started (begun ++ last ∷ []) ≡ started events ++ e.1 ∷ [] =
      started-append begun (last ∷ [])
      ∙ (ap (λ l. started begun ++ l) silent
          ∙ (append-nil (started begun) ∙ started_one events e.1)) in
    (
      after,
      told,
      ap
            (λ s.
              run codec results crypto (on_finished results s e.1 (outcome e.1)) (rounds outcome q))
            ticked
          ∙ (ap (λ s. run codec results crypto s (rounds outcome q)) closed ∙ ran),
      empty,
      order ∙ (ap (λ l. l ++ ids q) first ∙ append_assoc (started events) (e.1 ∷ []) (ids q)),
    )
