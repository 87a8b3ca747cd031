-- ===== src/Compute/Network.antt =====
-- src/compute/network.rs: the messages about jobs, and what the handler of a message replies and passes
-- to the scheduler's loop.
use ess_p2p_rs.Shared.{
  ℕ, ◌-◌, ◌%◌, ◌^◌, Bool, Option, none, some, List, [], ◌∷◌, ◌++◌, Text, bytes, length, ltb,
}
use ess_p2p_rs.Authority.Manager.{AuthorityManager}
use ess_p2p_rs.Compute.{
  Result, ok, err, error_text, ComputeJobSpec, ComputeResult, JobCrypto, status_text,
}
use ess_p2p_rs.Compute.Store.{Codec, ComputeStore, get_result}
use ess_p2p_rs.Compute.Scheduler.{Scheduler, Input, submitted, cancelled, submit_job}

pub record NodeCapacity : Type 0 where
  pub peer_id : Text
  pub available_cores : ℕ
  pub available_memory_mb : ℕ
  pub queue_depth : ℕ
  pub accepting_jobs : Bool
  pub updated_at : ℕ

-- `NodeCapacity::current` on a machine with so many cores.
abbrev pub current : ℕ → Text → Scheduler → ℕ → NodeCapacity
current cpus peer_id s now =
    let cores = cpus % 2 ^ 32 in
    let running_count = length s.running_jobs in
    record {
      peer_id = peer_id;
      available_cores = cores - running_count % 2 ^ 32;
      available_memory_mb = 256;
      queue_depth = running_count;
      accepting_jobs = ltb running_count cores;
      updated_at = now;
    }

pub data ComputeMessage : Type 0 where
  submit : ComputeJobSpec → ComputeMessage
  result : ComputeResult → ComputeMessage
  cancel status_query : Text → ComputeMessage
  status_reply : Text → Text → Option ℕ → ComputeMessage
  capacity : NodeCapacity → ComputeMessage

abbrev pub status_of : Text → Result (Option ComputeResult) → ComputeMessage
status_of job_id (ok (some res)) =
    status_reply job_id (status_text res.status) (some res.exec_time_ms)
status_of job_id (ok none) = status_reply job_id (bytes "not_found") none
status_of job_id (err e) = status_reply job_id (bytes "error: " ++ error_text e) none

unfoldable pub handle_status_query : Codec ComputeResult → ComputeStore → Text → ComputeMessage
unfolding get_result status_text error_text
handle_status_query results store job_id = status_of job_id (get_result results store job_id)

-- The reply to a submission, and what the loop receives of it.
abbrev pub submission :
    ComputeJobSpec → ℕ → Result ComputeJobSpec → Option ComputeMessage × List Input
submission spec now (ok passed) =
    (some (status_reply passed.job_id (bytes "queued") none), submitted passed now ∷ [])
submission spec now (err e) =
    (some (status_reply spec.job_id (bytes "failed: " ++ error_text e) none), [])

abbrev pub answer_status : Codec ComputeResult → Option ComputeStore → Text → Option ComputeMessage
answer_status results none job_id = none
answer_status results (some store) job_id = some (handle_status_query results store job_id)

-- `parse_message` is `serde_json::from_slice`, and `later` the clock of the loop.
module _ (parse_message : List ℕ → Option ComputeMessage) (parse_peer : Text → Option Text)
    (results : Codec ComputeResult) (crypto : JobCrypto) where
  unfoldable pub handle_message :
      AuthorityManager
      → Option ComputeStore
      → ComputeMessage
      → ℕ
      → ℕ
      → Option ComputeMessage × List Input
  unfolding submit_job handle_status_query
  handle_message authority store (submit spec) now later =
      submission spec later (submit_job parse_peer crypto authority spec now)
  handle_message authority store (cancel job_id) now later = (none, cancelled job_id ∷ [])
  handle_message authority store (status_query job_id) now later =
      (answer_status results store job_id, [])
  handle_message authority store (result res) now later = (none, [])
  handle_message authority store (status_reply job_id status time) now later = (none, [])
  handle_message authority store (capacity c) now later = (none, [])

  abbrev pub on_parsed :
      AuthorityManager
      → Option ComputeStore
      → Option ComputeMessage
      → ℕ
      → ℕ
      → Option ComputeMessage × List Input
  on_parsed authority store none now later = (none, [])
  on_parsed authority store (some msg) now later = handle_message authority store msg now later

  unfoldable pub handle_incoming_compute_message :
      AuthorityManager → Option ComputeStore → List ℕ → ℕ → ℕ → Option ComputeMessage × List Input
  unfolding handle_message
  handle_incoming_compute_message authority store raw_payload now later =
      on_parsed authority store (parse_message raw_payload) now later
