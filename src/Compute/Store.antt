-- ===== src/Compute/Store.antt =====
-- src/compute/store.rs: the queue of jobs and the table of results, three sled trees that keep their
-- keys in the order of their bytes. bincode is the argument `codec`.
use ess_p2p_rs.Shared.{
  ℕ, zero, suc, ◌/◌, ◌%◌, Option, none, some, List, [], ◌∷◌, ◌++◌, Text, bytes, length, drop, leb,
  if◌then◌else◌,
}
use ess_p2p_rs.Shared.Order.{text_ord}
use ess_p2p_rs.Shared.Dict.{Dict, lookup, insert, remove}
use ess_p2p_rs.Compute.{Result, ok, err, and_then, ComputeJobSpec, ComputeResult}

-- `bincode::serialize` and `bincode::deserialize`, with the text of the error where they fail.
pub record Codec (A : Type 0) : Type 0 where
  pub serialize : A → Result (List ℕ)
  pub deserialize : List ℕ → Result A

abbrev pub max_stored_results : ℕ
max_stored_results = 10000

pub record ComputeStore : Type 0 where
  pub jobs : Dict Text (List ℕ)
  pub results : Dict Text (List ℕ)
  pub queue : Dict Text Text

abbrev pub empty_store : ComputeStore
empty_store = record { jobs = []; results = []; queue = [] }

-- `to_be_bytes`
unfoldable pub be_bytes : ℕ → ℕ → List ℕ
be_bytes zero v = []
be_bytes (suc n) v = be_bytes n (v / 256) ++ (v % 256) ∷ []

abbrev pub job_key : Text → Text
job_key job_id = bytes "job:" ++ job_id

abbrev pub result_key : Text → Text
result_key job_id = bytes "result:" ++ job_id

abbrev pub queue_key : ℕ → Text → Text
queue_key created_at job_id = be_bytes 8 created_at ++ job_id

unfoldable pub enqueue : Codec ComputeJobSpec → ComputeStore → ComputeJobSpec → Result ComputeStore
unfolding insert be_bytes
enqueue codec store spec = and_then (codec.serialize spec) (λ value. ok (record store {
  jobs = insert (job_key spec.job_id) value store.jobs;
  queue = insert (queue_key spec.created_at spec.job_id) spec.job_id store.queue;
}))

-- A job that the trees hold is taken off the queue; one that cannot be read stays.
unfoldable pub take_job :
    Codec ComputeJobSpec
    → ComputeStore
    → Text
    → Option (List ℕ)
    → Result (Option ComputeJobSpec) × ComputeStore
unfolding remove
take_job codec store q_key none = (ok none, record store { queue = remove q_key store.queue })
take_job codec store q_key (some value) = elim (codec.deserialize value) [
  | err e ↦ (err e, store)
  | ok spec ↦ (ok (some spec), record store { queue = remove q_key store.queue })
]

-- The job at the front of these entries of the queue.
unfoldable pub dequeue_first :
    Codec ComputeJobSpec
    → ComputeStore
    → Dict Text Text
    → Result (Option ComputeJobSpec) × ComputeStore
unfolding lookup take_job
dequeue_first codec store [] = (ok none, store)
dequeue_first codec store ((q_key, job_id) ∷ rest) =
    take_job codec store q_key (lookup (job_key job_id) store.jobs)

-- The job that is found, if any, and the store after it.
unfoldable pub dequeue_next :
    Codec ComputeJobSpec → ComputeStore → Result (Option ComputeJobSpec) × ComputeStore
unfolding dequeue_first
dequeue_next codec store = dequeue_first codec store store.queue

-- Deletes from the front of the tree.
unfoldable pub gc_results_if_needed : ComputeStore → ComputeStore
gc_results_if_needed store =
    let count = length store.results in
    if leb count max_stored_results
    then store
    else record store { results = drop (count / 10) store.results }

unfoldable pub save_result :
    Codec ComputeResult → ComputeStore → ComputeResult → Result ComputeStore
unfolding insert gc_results_if_needed
save_result codec store result = and_then (codec.serialize result) (λ value. ok (
    gc_results_if_needed
      (record store { results = insert (result_key result.job_id) value store.results })))

abbrev pub read_result : Codec ComputeResult → Option (List ℕ) → Result (Option ComputeResult)
read_result codec none = ok none
read_result codec (some value) = and_then (codec.deserialize value) (λ result. ok (some result))

unfoldable pub get_result :
    Codec ComputeResult → ComputeStore → Text → Result (Option ComputeResult)
unfolding lookup
get_result codec store job_id = read_result codec (lookup (result_key job_id) store.results)

abbrev pub get_result_bytes : ComputeStore → Text → Option (List ℕ)
get_result_bytes store job_id = lookup (result_key job_id) store.results

abbrev pub queue_depth : ComputeStore → ℕ
queue_depth store = length store.queue

abbrev pub result_count : ComputeStore → ℕ
result_count store = length store.results
