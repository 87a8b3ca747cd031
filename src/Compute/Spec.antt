-- ===== src/Compute/Spec.antt =====
-- src/compute/types.rs and scheduler.rs: which jobs are valid, and who may submit them.
use ess_p2p_rs.Shared.{
  ℕ, ◌+◌, ◌≡◌, ◌≤◌, ◌↔◌, refl, ap, ◌∙◌, true, false, Option, none, some, Text, length, is_empty,
  arith,
}
use ess_p2p_rs.Shared.Order.{text_eq_iff}
use ess_p2p_rs.Shared.Dict.{Dict}
use ess_p2p_rs.Authority.{compute_submit}
use ess_p2p_rs.Authority.Manager.{AuthorityManager, is_allowed}
use ess_p2p_rs.Compute.{
  Result, ok, err, and_then, max_wasm_bytecode_size, max_exec_timeout_ms, ResourceLimits,
  validate_limits, ComputeJobSpec, signing_bytes, JobCrypto, validate_submitter, validate,
}
use ess_p2p_rs.Compute.Scheduler.{checked, submit_as, submit_job}

pub and_then_ok :
    {A B : Type 0} (o : Result A) (next : A → Result B) (b : B)
    → and_then o next ≡ ok b
    → (a : A) × (o ≡ ok a) × (next a ≡ ok b)
and_then_ok (ok a) next b e = (a, refl, e)
and_then_ok (err x) next b e = ground (arith, e)

limits_iff :
    (limits : ResourceLimits)
    → (validate_limits limits ≡ ok tt)
      ↔ ((limits.timeout_ms ≤ max_exec_timeout_ms) × (limits.memory_mb ≤ 512))
unfolding validate_limits
limits_iff limits = ground arith

-- What a valid job is, besides its size, its hash and its limits.
abbrev pub IsSigned : JobCrypto → ComputeJobSpec → ℕ → Type 0
IsSigned crypto spec now =
    (is_empty spec.submitter_peer_id ≡ false)
    × (is_empty spec.signature ≡ false)
    × (is_empty spec.submitter_pubkey ≡ false)
    × (crypto.is_key spec.submitter_pubkey ≡ true)
    × (crypto.is_signature spec.signature ≡ true)
    × (crypto.verify spec.submitter_pubkey (signing_bytes spec) spec.signature ≡ true)
    × (now ≤ spec.created_at + 900)

submitter_iff :
    (crypto : JobCrypto) (spec : ComputeJobSpec) (now : ℕ)
    → (validate_submitter crypto spec now ≡ ok tt) ↔ IsSigned crypto spec now
unfolding validate_submitter
submitter_iff crypto spec now = ground arith

-- A job is valid exactly if its bytecode has at most 4 MB and the digest that the job names, its
-- limits are within the bounds, its submitter, key and signature are there and readable, the key
-- accepts the signature, and it is at most 900 seconds old.
pub validate_iff :
    (crypto : JobCrypto) (spec : ComputeJobSpec) (now : ℕ)
    → (validate crypto spec now ≡ ok tt) ↔ (
        (length spec.wasm_bytecode ≤ max_wasm_bytecode_size)
        × (crypto.hex_sha256 spec.wasm_bytecode ≡ spec.wasm_hash)
        × (spec.limits.timeout_ms ≤ max_exec_timeout_ms)
        × (spec.limits.memory_mb ≤ 512)
        × IsSigned crypto spec now)
unfolding validate
validate_iff crypto spec now = ground (
  arith,
  limits_iff spec.limits,
  submitter_iff crypto spec now,
  text_eq_iff (crypto.hex_sha256 spec.wasm_bytecode) spec.wasm_hash,
)

pub validate_unsigned :
    (crypto : JobCrypto) (spec : ComputeJobSpec) (env_vars : Dict Text Text)
    (limits : ResourceLimits) (now : ℕ)
    → validate crypto spec now ≡ ok tt
    → limits.timeout_ms ≤ max_exec_timeout_ms
    → limits.memory_mb ≤ 512
    → validate crypto (record spec { env_vars = env_vars; limits = limits }) now ≡ ok tt
unfolding signing_bytes
validate_unsigned crypto spec env_vars limits now valid time memory =
    let h = (validate_iff crypto spec now).0 valid in
    (validate_iff crypto (record spec { env_vars = env_vars; limits = limits }) now).1
      (h.0, h.1, time, memory, h.4)

checked_iff : (spec : ComputeJobSpec) (r : Result Unit) → (checked spec r ≡ ok spec) ↔ (r ≡ ok tt)
checked_iff spec (ok u) = ((λ e. refl), (λ e. refl))
checked_iff spec (err e) = ground arith

submit_as_iff :
    (crypto : JobCrypto) (authority : AuthorityManager) (spec : ComputeJobSpec) (now : ℕ)
    (o : Option Text)
    → (submit_as crypto authority spec now o ≡ ok spec) ↔ (
        (peer : Text) × (o ≡ some peer)
        × (is_allowed authority peer compute_submit now ≡ true)
        × (validate crypto spec now ≡ ok tt))
unfolding submit_as
submit_as_iff crypto authority spec now none =
    ((λ e. ground (arith, e)), (λ h. ground (arith, h.1)))
submit_as_iff crypto authority spec now (some p) =
    let valid = checked_iff spec (validate crypto spec now) in
    (
      (λ e. (p, refl, ground (arith, e), ground (arith, e, valid))),
      (λ h.
          let same : p ≡ h.0 = ground (arith, h.1) in
          let allowed : is_allowed authority p compute_submit now ≡ true =
            ap (λ q. is_allowed authority q compute_submit now) same ∙ h.2 in
          rw allowed (valid.1 h.3)),
    )

pub submit_job_iff :
    (parse_peer : Text → Option Text) (crypto : JobCrypto) (authority : AuthorityManager)
    (spec : ComputeJobSpec) (now : ℕ)
    → (submit_job parse_peer crypto authority spec now ≡ ok spec) ↔ (
        (peer : Text) × (parse_peer spec.submitter_peer_id ≡ some peer)
        × (is_allowed authority peer compute_submit now ≡ true)
        × (validate crypto spec now ≡ ok tt))
unfolding submit_job
submit_job_iff parse_peer crypto authority spec now =
    submit_as_iff crypto authority spec now (parse_peer spec.submitter_peer_id)
