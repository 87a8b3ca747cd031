-- ===== src/Tests/Compute.antt =====
-- src/compute on two jobs.
use ess_p2p_rs.Shared.{
  ℕ, ◌≡◌, ◌≤◌, ◌↔◌, ◌++◌, refl, true, none, some, sym, ap, List, [], ◌∷◌, Text, bytes, length,
  arith, if◌then◌else◌,
}
use ess_p2p_rs.Shared.Order.{text_ord, text_eq}
use ess_p2p_rs.Shared.Sort.{has}
use ess_p2p_rs.Shared.Dict.{lookup, insert, contains}
use ess_p2p_rs.Authority.{
  default_state, client, evaluate_action, get_role, decide_role, check_role_permission,
}
use ess_p2p_rs.Authority.Manager.{AuthorityManager, new, is_allowed, le_bytes}
use ess_p2p_rs.Compute.{
  Result, ok, err, store_error, default_limits, max_wasm_bytecode_size, max_exec_timeout_ms,
  ComputeJobSpec, ComputeResult, completed, JobCrypto, signing_bytes, validate_limits,
  validate_submitter, validate,
}
use ess_p2p_rs.Compute.Store.{
  Codec, ComputeStore, empty_store, enqueue, be_bytes, queue_key, dequeue_next, save_result,
  get_result, gc_results_if_needed,
}
use ess_p2p_rs.Compute.Spec.{IsSigned, validate_iff}
use ess_p2p_rs.Compute.Queue.{Represents, enqueue-Represents, dequeue_next-Represents}
use ess_p2p_rs.Compute.Keys.{Waiting, place_job}
use ess_p2p_rs.Compute.Scheduler.{
  Scheduler, ComputeEvent, default_config, spawn_scheduler, submitted, cancelled, tick, finished,
  submit_as, submit_job, run,
}
use ess_p2p_rs.Compute.Permits.{IsWithin, run-IsWithin}
use ess_p2p_rs.Compute.Drain.{idle, rounds, started, ids, run-rounds}
use ess_p2p_rs.Compute.Results.{get_result-save_result}
use ess_p2p_rs.Compute.Stall.{cancel_stalls}
use ess_p2p_rs.Compute.Network.{submit, handle_message, handle_incoming_compute_message}
use ess_p2p_rs.Compute.Incoming.{IsAuthorized, handle_incoming_compute_message-IsAuthorized}

abbrev crypto : JobCrypto
crypto = record {
  hex_sha256 = λ b. b;
  is_key = λ b. true;
  is_signature = λ b. true;
  verify = λ key message signature. text_eq signature key;
}

abbrev job : Text → ℕ → ComputeJobSpec
job id created_at = record {
  job_id = id;
  wasm_hash = 0 ∷ 97 ∷ [];
  wasm_bytecode = 0 ∷ 97 ∷ [];
  input_data = [];
  env_vars = [];
  limits = default_limits;
  submitter_peer_id = bytes "p";
  signature = 7 ∷ [];
  submitter_pubkey = 7 ∷ [];
  created_at = created_at;
  api_version = 1;
}

abbrev early : ComputeJobSpec
early = job (bytes "e") 100

abbrev late : ComputeJobSpec
late = job (bytes "l") 300

abbrev jobs : Codec ComputeJobSpec
jobs = record {
  serialize = λ spec. ok spec.job_id;
  deserialize = λ value. if text_eq value (bytes "e") then ok early else ok late;
}

abbrev done : ComputeResult
done = record {
  job_id = bytes "e";
  status = completed 5;
  output = [];
  stderr = [];
  exit_code = 0;
  fuel_consumed = 9;
  exec_time_ms = 2;
  memory_used_bytes = 0;
  executor_peer_id = bytes "n";
  submitter_peer_id = bytes "p";
  finished_at = 5;
}

abbrev results : Codec ComputeResult
results = record { serialize = λ r. ok r.job_id; deserialize = λ value. ok done }

nothing : Represents jobs empty_store []
nothing = record { queue_is = refl; sorted = tt; dates = tt; stored = tt }

-- The store once the late job has come in.
abbrev with_late : ComputeStore
with_late = record {
  jobs = (bytes "job:l", bytes "l") ∷ [];
  results = [];
  queue = (queue_key 300 (bytes "l"), bytes "l") ∷ [];
}

abbrev read_job : Result (List ℕ) → Result ComputeJobSpec
read_job (ok value) = jobs.deserialize value
read_job (err e) = err e

late_law : (value : List ℕ) → jobs.serialize late ≡ ok value → jobs.deserialize value ≡ ok late
late_law value e = sym (ap read_job e)

early_law : (value : List ℕ) → jobs.serialize early ≡ ok value → jobs.deserialize value ≡ ok early
early_law value e = sym (ap read_job e)

late_waits : Represents jobs with_late ((300, bytes "l") ∷ [])
unfolding enqueue insert place_job
late_waits =
    enqueue-Represents jobs empty_store with_late late [] late_law (ground arith) nothing refl

-- The store once the early job has come in too, before the late one.
abbrev with_both : ComputeStore
with_both = record {
  jobs = (bytes "job:e", bytes "e") ∷ (bytes "job:l", bytes "l") ∷ [];
  results = [];
  queue = (queue_key 100 (bytes "e"), bytes "e") ∷ (queue_key 300 (bytes "l"), bytes "l") ∷ [];
}

abbrev both : List Waiting
both = (100, bytes "e") ∷ (300, bytes "l") ∷ []

early_enqueued : enqueue jobs with_late early ≡ ok with_both
unfolding enqueue insert be_bytes
early_enqueued = refl

early_placed : place_job (100, bytes "e") ((300, bytes "l") ∷ []) ≡ both
unfolding place_job
early_placed = refl

enqueue-Represents_example :
    Represents jobs with_both (place_job (100, bytes "e") ((300, bytes "l") ∷ []))
enqueue-Represents_example =
    enqueue-Represents jobs with_late with_both early ((300, bytes "l") ∷ []) early_law
      (ground arith) late_waits early_enqueued

both_wait : Represents jobs with_both both
both_wait = rw early_placed at (
    enqueue-Represents jobs with_late with_both early ((300, bytes "l") ∷ []) early_law
      (ground arith) late_waits early_enqueued)

dequeue_next-Represents_example :
    (spec : ComputeJobSpec) × ((dequeue_next jobs with_both).0 ≡ ok (some spec))
    × (spec.job_id ≡ bytes "e")
    × Represents jobs (dequeue_next jobs with_both).1 ((300, bytes "l") ∷ [])
dequeue_next-Represents_example =
    dequeue_next-Represents jobs with_both (100, bytes "e") ((300, bytes "l") ∷ []) both_wait

abbrev outcome : Text → Result ComputeResult
outcome id = if text_eq id (bytes "e") then ok done else err (store_error (bytes "x"))

run-rounds_example :
    (after : ComputeStore) × (told : List ComputeEvent) × (run jobs results crypto
        (idle default_config with_both [])
        (rounds outcome both)
      ≡ idle default_config after told)
    × (after.queue ≡ [])
    × (started told ≡ started [] ++ ids both)
run-rounds_example =
    run-rounds jobs results crypto outcome default_config with_both [] both (ground arith) both_wait

run-IsWithin_example : IsWithin (
    run jobs results crypto
      (spawn_scheduler default_config with_both)
      (tick ∷ tick ∷ cancelled (bytes "e") ∷ finished (bytes "l") (ok done) ∷ []))
run-IsWithin_example =
    run-IsWithin jobs results crypto default_config with_both
      (tick ∷ tick ∷ cancelled (bytes "e") ∷ finished (bytes "l") (ok done) ∷ [])

-- One job runs, on the only permit.
abbrev one_runs : Scheduler
one_runs = record {
  config = record { max_concurrent_jobs = 1; poll_interval_ms = 500; accept_remote_jobs = true };
  store = with_both;
  running_jobs = (bytes "x", tt) ∷ [];
  executing = bytes "x" ∷ [];
  waiting = none;
  events = [];
}

x_runs : contains (bytes "x") one_runs.running_jobs ≡ true
unfolding lookup
x_runs = refl

cancel_stalls_example :
    run jobs results crypto one_runs (cancelled (bytes "x") ∷ tick ∷ submitted late 301 ∷ tick ∷ [])
    ≡ run jobs results crypto one_runs (cancelled (bytes "x") ∷ tick ∷ [])
cancel_stalls_example =
    cancel_stalls jobs results crypto one_runs (bytes "x") (100, bytes "e") ((300, bytes "l") ∷ [])
      (submitted late 301 ∷ tick ∷ []) refl refl (ground arith) x_runs both_wait (tt, (tt, tt))

abbrev with_done : ComputeStore
with_done = record { jobs = []; results = (bytes "result:e", bytes "e") ∷ []; queue = [] }

done_saved : save_result results empty_store done ≡ ok with_done
unfolding save_result insert gc_results_if_needed
done_saved = refl

abbrev read_done : Result (List ℕ) → Result ComputeResult
read_done (ok value) = results.deserialize value
read_done (err e) = err e

get_result-save_result_example : get_result results with_done (bytes "e") ≡ (
    if text_eq (bytes "e") (bytes "e")
    then ok (some done)
    else get_result results empty_store (bytes "e"))
get_result-save_result_example =
    get_result-save_result results empty_store with_done done (bytes "e")
      (λ value e. sym (ap read_done e)) (ground arith) done_saved

validate_iff_example : (validate crypto late 900 ≡ ok tt) ↔ (
    (length late.wasm_bytecode ≤ max_wasm_bytecode_size)
    × (crypto.hex_sha256 late.wasm_bytecode ≡ late.wasm_hash)
    × (late.limits.timeout_ms ≤ max_exec_timeout_ms)
    × (late.limits.memory_mb ≤ 512)
    × IsSigned crypto late 900)
validate_iff_example = validate_iff crypto late 900

abbrev authority : AuthorityManager
authority = new (record default_state { allowed_peers = (bytes "p", client) ∷ [] })

late_comes :
    (handle_incoming_compute_message
      (λ raw. some (submit late))
      (λ t. some t)
      results
      crypto
      authority
      none
      []
      900
      901).1
    ≡ submitted late 901 ∷ []
unfolding handle_incoming_compute_message handle_message submit_job submit_as validate
    validate_limits validate_submitter signing_bytes le_bytes is_allowed evaluate_action get_role
    decide_role check_role_permission lookup has
late_comes = refl

handle_incoming_compute_message-IsAuthorized_example :
    IsAuthorized (λ t. some t) crypto authority late 900
handle_incoming_compute_message-IsAuthorized_example =
    handle_incoming_compute_message-IsAuthorized (λ raw. some (submit late)) (λ t. some t) results
      crypto authority none [] 900 901 901 late late_comes
