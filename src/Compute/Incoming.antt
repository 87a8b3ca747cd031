-- ===== src/Compute/Incoming.antt =====
-- src/compute/network.rs: what a message from the network makes the scheduler do.
use ess_p2p_rs.Shared.{ℕ, ◌≡◌, ap, ◌∙◌, true, Option, none, some, List, [], ◌∷◌, Text, arith}
use ess_p2p_rs.Authority.{compute_submit}
use ess_p2p_rs.Authority.Manager.{AuthorityManager, is_allowed}
use ess_p2p_rs.Compute.{Result, ok, err, ComputeJobSpec, ComputeResult, JobCrypto, validate}
use ess_p2p_rs.Compute.Store.{Codec, ComputeStore}
use ess_p2p_rs.Compute.Scheduler.{Input, submitted, checked, submit_as, submit_job}
use ess_p2p_rs.Compute.Spec.{submit_job_iff}
use ess_p2p_rs.Compute.Network.{
  ComputeMessage, submit, result, cancel, status_query, status_reply, capacity, submission,
  handle_message, on_parsed, handle_incoming_compute_message,
}

-- The job's submitter may submit, and the job is valid.
abbrev pub IsAuthorized :
    (Text → Option Text) → JobCrypto → AuthorityManager → ComputeJobSpec → ℕ → Type 0
IsAuthorized parse_peer crypto authority spec now =
    (peer : Text) × (parse_peer spec.submitter_peer_id ≡ some peer)
    × (is_allowed authority peer compute_submit now ≡ true)
    × (validate crypto spec now ≡ ok tt)

-- A handle passes on the job that it was given.
checked_same :
    (spec passed : ComputeJobSpec) (r : Result Unit) → checked spec r ≡ ok passed → passed ≡ spec
checked_same spec passed (ok u) e = ground (arith, e)
checked_same spec passed (err x) e = ground (arith, e)

passes_same :
    (crypto : JobCrypto) (authority : AuthorityManager) (spec passed : ComputeJobSpec) (now : ℕ)
    (o : Option Text)
    → submit_as crypto authority spec now o ≡ ok passed
    → passed ≡ spec
unfolding submit_as
passes_same crypto authority spec passed now none e = ground (arith, e)
passes_same crypto authority spec passed now (some peer) e =
    ground (arith, e, checked_same spec passed (validate crypto spec now))

-- The job of the first input, where it is one.
abbrev first_job : ComputeJobSpec → List Input → ComputeJobSpec
first_job d (submitted spec t ∷ is) = spec
first_job d is = d

submission_passed :
    (spec given : ComputeJobSpec) (now t : ℕ) (r : Result ComputeJobSpec)
    → (submission spec now r).1 ≡ submitted given t ∷ []
    → r ≡ ok given
submission_passed spec given now t (ok p) e = ap (λ l. ok (first_job p l)) e
submission_passed spec given now t (err x) e = ground (arith, e)

handled-IsAuthorized :
    (parse_message : List ℕ → Option ComputeMessage) (parse_peer : Text → Option Text)
    (results : Codec ComputeResult) (crypto : JobCrypto) (authority : AuthorityManager)
    (store : Option ComputeStore) (msg : ComputeMessage) (now later t : ℕ) (given : ComputeJobSpec)
    → (handle_message parse_message parse_peer results crypto authority store msg now later).1
      ≡ submitted given t ∷ []
    → IsAuthorized parse_peer crypto authority given now
unfolding handle_message submit_job
handled-IsAuthorized parse_message parse_peer results crypto authority store (submit spec) now later
      t given e =
    let passed =
      submission_passed spec given later t (submit_job parse_peer crypto authority spec now) e in
    let same =
      passes_same crypto authority spec given now (parse_peer spec.submitter_peer_id) passed in
    (submit_job_iff parse_peer crypto authority given now).0
      (ap (λ s. submit_job parse_peer crypto authority s now) same ∙ passed)
handled-IsAuthorized parse_message parse_peer results crypto authority store (cancel id) now later t
      given e =
    ground (arith, e)
handled-IsAuthorized parse_message parse_peer results crypto authority store (status_query id) now
      later t given e =
    ground (arith, e)
handled-IsAuthorized parse_message parse_peer results crypto authority store (result r) now later t
      given e =
    ground (arith, e)
handled-IsAuthorized parse_message parse_peer results crypto authority store
      (status_reply id st time) now later t given e =
    ground (arith, e)
handled-IsAuthorized parse_message parse_peer results crypto authority store (capacity c) now later
      t given e =
    ground (arith, e)

parsed-IsAuthorized :
    (parse_message : List ℕ → Option ComputeMessage) (parse_peer : Text → Option Text)
    (results : Codec ComputeResult) (crypto : JobCrypto) (authority : AuthorityManager)
    (store : Option ComputeStore) (msg : Option ComputeMessage) (now later t : ℕ)
    (given : ComputeJobSpec)
    → (on_parsed parse_message parse_peer results crypto authority store msg now later).1
      ≡ submitted given t ∷ []
    → IsAuthorized parse_peer crypto authority given now
parsed-IsAuthorized parse_message parse_peer results crypto authority store none now later t given
      e =
    ground (arith, e)
parsed-IsAuthorized parse_message parse_peer results crypto authority store (some msg) now later t
      given e =
    handled-IsAuthorized parse_message parse_peer results crypto authority store msg now later t
      given e

-- If a message from the network makes the scheduler's loop receive a job, then the peer that the
-- job names as its submitter may submit jobs, and the job is valid.
pub handle_incoming_compute_message-IsAuthorized :
    (parse_message : List ℕ → Option ComputeMessage) (parse_peer : Text → Option Text)
    (results : Codec ComputeResult) (crypto : JobCrypto) (authority : AuthorityManager)
    (store : Option ComputeStore) (raw_payload : List ℕ) (now later t : ℕ) (given : ComputeJobSpec)
    → (handle_incoming_compute_message parse_message parse_peer results crypto authority store
        raw_payload now later).1
      ≡ submitted given t ∷ []
    → IsAuthorized parse_peer crypto authority given now
unfolding handle_incoming_compute_message
handle_incoming_compute_message-IsAuthorized parse_message parse_peer results crypto authority store
      raw_payload now later t given e =
    parsed-IsAuthorized parse_message parse_peer results crypto authority store
      (parse_message raw_payload) now later t given e
