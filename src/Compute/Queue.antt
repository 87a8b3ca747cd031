-- ===== src/Compute/Queue.antt =====
-- src/compute/store.rs: the queue, which is the list of the jobs that wait in the order of their dates.
use ess_p2p_rs.Shared.{
  ℕ, ◌^◌, ◌≡◌, ◌<◌, refl, ap, ◌∙◌, false, Option, some, List, [], ◌∷◌, Text, All, All-map, arith,
  Bool-cases, inl, inr,
}
use ess_p2p_rs.Shared.Order.{text_ord, text_eq, text_eq_iff, text_irrefl}
use ess_p2p_rs.Shared.Dict.{
  Dict, lookup, lookup-insert, lookup-insert_self, insert-IsSorted, insert, remove, IsSorted, Above,
}
use ess_p2p_rs.Compute.{Result, ok, err, ComputeJobSpec}
use ess_p2p_rs.Compute.Spec.{and_then_ok}
use ess_p2p_rs.Compute.Store.{
  Codec, ComputeStore, job_key, queue_key, enqueue, dequeue_next, dequeue_first, take_job,
}
use ess_p2p_rs.Compute.Keys.{Waiting, IsDate, place_job, entries, insert-entries, place_job-All}

-- The job can be read back from the store.
abbrev pub IsStored : Codec ComputeJobSpec → Dict Text (List ℕ) → Text → Type 0
IsStored codec jobs job_id =
    (value : List ℕ) × (spec : ComputeJobSpec) × (lookup (job_key job_id) jobs ≡ some value)
    × (codec.deserialize value ≡ ok spec)
    × (spec.job_id ≡ job_id)

-- The store's queue stands for this list, and all its jobs can be read back.
pub record Represents (codec : Codec ComputeJobSpec) (store : ComputeStore) (q : List Waiting)
    : Type 0 where
  pub queue_is : store.queue ≡ entries q
  pub sorted : IsSorted store.queue
  pub dates : All IsDate q
  pub stored : All (λ e. IsStored codec store.jobs e.1) q

remove-Above : (k : Text) (m : Dict Text Text) → Above k m → remove k m ≡ m
unfolding remove
remove-Above k [] a = refl
remove-Above k ((j, v) ∷ m) a =
    let apart : text_eq j k ≡ false = ground (arith, text_eq_iff j k, text_irrefl k, a.0) in
    rw apart (ap (λ r. (j, v) ∷ r) (remove-Above k m a.1))

remove_first : (k v : Text) (m : Dict Text Text) → Above k m → remove k ((k, v) ∷ m) ≡ m
unfolding remove
remove_first k v m a = ground (arith, text_eq_iff k k, remove-Above k m a)

take_read :
    (codec : Codec ComputeJobSpec) (store : ComputeStore) (q_key : Text) (value : List ℕ)
    (spec : ComputeJobSpec)
    → codec.deserialize value ≡ ok spec
    → take_job codec store q_key (some value)
      ≡ (ok (some spec), record store { queue = remove q_key store.queue })
unfolding take_job
take_read codec store q_key value spec read =
    ap
      (λ r. elim r as (λ _. Result (Option ComputeJobSpec) × ComputeStore) [
        | err e ↦ (err e, store)
        | ok s ↦ (ok (some s), record store { queue = remove q_key store.queue })
      ])
      read

insert-IsStored :
    (codec : Codec ComputeJobSpec) (jobs : Dict Text (List ℕ)) (spec : ComputeJobSpec)
    (value : List ℕ)
    → codec.deserialize value ≡ ok spec
    → (job_id : Text) → IsStored codec jobs job_id
    → IsStored codec (insert (job_key spec.job_id) value jobs) job_id
insert-IsStored codec jobs spec value back job_id (old, old_spec, found, read, named) =
    elim (Bool-cases (text_eq spec.job_id job_id)) [
      | inl same ↦ (
        value,
        spec,
        lookup-insert (job_key spec.job_id) (job_key job_id) value jobs ∙ rw same refl,
        back,
        (text_eq_iff spec.job_id job_id).0 same,
      )
      | inr apart ↦ (
        old,
        old_spec,
        lookup-insert (job_key spec.job_id) (job_key job_id) value jobs ∙ rw apart found,
        read,
        named,
      )
    ]

-- If the store's queue stands for a list of jobs with their dates, then after a job is enqueued it
-- stands for the list with the job put behind those of older dates, and all its jobs can be read
-- back, if bincode reads this job back as it was written and its date is a u64.
pub enqueue-Represents :
    (codec : Codec ComputeJobSpec) (store after : ComputeStore) (spec : ComputeJobSpec)
    (q : List Waiting)
    → ((value : List ℕ) → codec.serialize spec ≡ ok value → codec.deserialize value ≡ ok spec)
    → spec.created_at < 2 ^ 64
    → Represents codec store q
    → enqueue codec store spec ≡ ok after
    → Represents codec after (place_job (spec.created_at, spec.job_id) q)
unfolding enqueue
enqueue-Represents codec store after spec q inverse date r e =
    let (value, written, is_after) = and_then_ok (codec.serialize spec) _ after e in
    let back = inverse value written in
    let entry : Waiting = (spec.created_at, spec.job_id) in
    let made : record store {
      jobs = insert (job_key spec.job_id) value store.jobs;
      queue = insert (queue_key spec.created_at spec.job_id) spec.job_id store.queue;
    }
        ≡ after =
      ground (arith, is_after) in
    rw (← made) (record {
      queue_is =
          ap (insert (queue_key spec.created_at spec.job_id) spec.job_id) r.queue_is
          ∙ insert-entries entry q date r.dates;
      sorted =
          insert-IsSorted (queue_key spec.created_at spec.job_id) spec.job_id store.queue r.sorted;
      dates = place_job-All IsDate entry q date r.dates;
      stored =
          place_job-All (λ e. IsStored codec (insert (job_key spec.job_id) value store.jobs) e.1)
            entry q
            (value, spec, lookup-insert_self (job_key spec.job_id) value store.jobs, back, refl)
            (All-map (λ e. IsStored codec store.jobs e.1)
              (λ e. IsStored codec (insert (job_key spec.job_id) value store.jobs) e.1) q
              (λ e h. insert-IsStored codec store.jobs spec value back e.1 h) r.stored);
    })

-- If the store's queue stands for a list of jobs that is not empty, the first of them is found, and
-- the queue then stands for the rest of the list.
pub dequeue_next-Represents :
    (codec : Codec ComputeJobSpec) (store : ComputeStore) (e : Waiting) (q : List Waiting)
    → Represents codec store (e ∷ q)
    → (spec : ComputeJobSpec) × ((dequeue_next codec store).0 ≡ ok (some spec))
      × (spec.job_id ≡ e.1)
      × Represents codec (dequeue_next codec store).1 q
unfolding dequeue_next dequeue_first
dequeue_next-Represents codec store e q r =
    let (value, spec, found, read, named) = r.stored.0 in
    let sorted : IsSorted (entries (e ∷ q)) = rw r.queue_is at r.sorted in
    let cut : remove (queue_key e.0 e.1) store.queue ≡ entries q =
      ap (remove (queue_key e.0 e.1)) r.queue_is
      ∙ remove_first (queue_key e.0 e.1) e.1 (entries q) sorted.0 in
    let first : dequeue_next codec store
        ≡ (ok (some spec), record store { queue = remove (queue_key e.0 e.1) store.queue }) =
      ap (dequeue_first codec store) r.queue_is
      ∙ (ap (take_job codec store (queue_key e.0 e.1)) found
          ∙ take_read codec store (queue_key e.0 e.1) value spec read) in
    (
      spec,
      ap (λ p. p.0) first,
      named,
      rw first (record {
        queue_is = cut;
        sorted = rw cut sorted.1;
        dates = r.dates.1;
        stored = r.stored.1;
      }),
    )
