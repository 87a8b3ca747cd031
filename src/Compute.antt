-- ===== src/Compute.antt =====
-- src/compute/types.rs: jobs, their limits and their validation. SHA-256 in hexadecimal and Ed25519 are
-- the argument `crypto`, and `now` is the clock.
pub mod Store
pub mod Scheduler
pub mod Spec
pub mod Keys
pub mod Queue
pub mod Permits
pub mod Drain
pub mod Results
pub mod Stall
pub mod Network
pub mod Incoming
use ess_p2p_rs.Shared.{
  ℕ, zero, suc, ◌+◌, ◌-◌, ◌*◌, ◌/◌, ◌%◌, Bool, true, false, not, ◌||◌, Option, none, some, List, [],
  ◌∷◌, ◌++◌, Text, bytes, length, is_empty, ltb, leb, if◌then◌else◌,
}
use ess_p2p_rs.Shared.Order.{text_eq}
use ess_p2p_rs.Shared.Dict.{Dict}
use ess_p2p_rs.Ghost.Render.{decimal}
use ess_p2p_rs.Authority.Manager.{le_bytes}

abbrev pub max_wasm_bytecode_size : ℕ
max_wasm_bytecode_size = 4 * 1024 * 1024

abbrev pub default_memory_limit_mb : ℕ
default_memory_limit_mb = 64

abbrev pub default_exec_timeout_ms : ℕ
default_exec_timeout_ms = 30000

abbrev pub max_exec_timeout_ms : ℕ
max_exec_timeout_ms = 10 * 60 * 1000

abbrev pub max_output_size_bytes : ℕ
max_output_size_bytes = 1024 * 1024

pub data ComputeError : Type 0 where
  compilation_error execution_error resource_limit_exceeded integrity_failed invalid_spec :
      Text → ComputeError
  timeout fuel_exhausted : ℕ → ComputeError
  serde_error store_error authority_denied : Text → ComputeError
  not_initialized : ComputeError

-- `to_string`, from the attributes of the errors.
unfoldable pub error_text : ComputeError → Text
error_text (compilation_error e) = bytes "WASM compilation error: " ++ e
error_text (execution_error e) = bytes "WASM execution error: " ++ e
error_text (resource_limit_exceeded e) = bytes "Resource limit exceeded: " ++ e
error_text (integrity_failed e) = bytes "Integrity check failed: " ++ e
error_text (invalid_spec e) = bytes "Invalid job spec: " ++ e
error_text (timeout ms) = bytes "Execution timed out after " ++ (decimal ms ++ bytes "ms")
error_text (fuel_exhausted n) =
    bytes "Fuel exhausted after " ++ (decimal n ++ bytes " instructions")
error_text (serde_error e) = bytes "Serialization error: " ++ e
error_text (store_error e) = bytes "Store error: " ++ e
error_text (authority_denied e) = bytes "Authority denied: " ++ e
error_text not_initialized = bytes "Executor not initialized"

pub data Result (A : Type 0) : Type 0 where
  ok : A → Result A
  err : ComputeError → Result A

pub record ResourceLimits : Type 0 where
  pub memory_mb : ℕ
  pub timeout_ms : ℕ
  pub fuel_limit : ℕ
  pub max_output_bytes : ℕ

abbrev pub default_limits : ResourceLimits
default_limits = record {
  memory_mb = default_memory_limit_mb;
  timeout_ms = default_exec_timeout_ms;
  fuel_limit = 1000000000;
  max_output_bytes = max_output_size_bytes;
}

unfoldable pub validate_limits : ResourceLimits → Result Unit
validate_limits limits =
    if ltb max_exec_timeout_ms limits.timeout_ms
    then err (
        resource_limit_exceeded (
          bytes "timeout_ms "
          ++ (decimal limits.timeout_ms
              ++ (bytes " melebihi maksimum " ++ decimal max_exec_timeout_ms))))
    else if ltb 512 limits.memory_mb
    then err (resource_limit_exceeded (bytes "memory_mb tidak boleh melebihi 512 MB per job"))
    else ok tt

pub record ComputeJobSpec : Type 0 where
  pub job_id : Text
  pub wasm_hash : Text
  pub wasm_bytecode : List ℕ
  pub input_data : List ℕ
  pub env_vars : Dict Text Text
  pub limits : ResourceLimits
  pub submitter_peer_id : Text
  pub signature : List ℕ
  pub submitter_pubkey : List ℕ
  pub created_at : ℕ
  pub api_version : ℕ

unfoldable pub signing_bytes : ComputeJobSpec → List ℕ
unfolding le_bytes
signing_bytes spec =
    spec.job_id
    ++ (bytes "|"
        ++ (spec.wasm_hash
            ++ (bytes "|"
                ++ (spec.input_data
                    ++ (bytes "|"
                        ++ (spec.submitter_peer_id
                            ++ (bytes "|" ++ le_bytes 8 spec.created_at)))))))

pub record JobCrypto : Type 0 where
  pub hex_sha256 : List ℕ → Text
  pub is_key : List ℕ → Bool
  pub is_signature : List ℕ → Bool
  pub verify : List ℕ → List ℕ → List ℕ → Bool

abbrev pub verify_bytecode_integrity : JobCrypto → ComputeJobSpec → Bool
verify_bytecode_integrity crypto spec =
    text_eq (crypto.hex_sha256 spec.wasm_bytecode) spec.wasm_hash

-- The checks of `validate` from the submitter on.
unfoldable pub validate_submitter : JobCrypto → ComputeJobSpec → ℕ → Result Unit
unfolding signing_bytes
validate_submitter crypto spec now =
    if is_empty spec.submitter_peer_id
    then err (invalid_spec (bytes "submitter_peer_id kosong"))
    else if is_empty spec.signature || is_empty spec.submitter_pubkey
    then err (invalid_spec (bytes "signature atau submitter_pubkey kosong"))
    else if not (crypto.is_key spec.submitter_pubkey)
    then err (invalid_spec (bytes "format submitter_pubkey tidak valid"))
    else if not (crypto.is_signature spec.signature)
    then err (invalid_spec (bytes "format signature tidak valid"))
    else if not (crypto.verify spec.submitter_pubkey (signing_bytes spec) spec.signature)
    then err (invalid_spec (bytes "verifikasi signature gagal (job ditempa atau korup)"))
    else if ltb 900 (now - spec.created_at)
    then err (invalid_spec (bytes "job terlalu lama (>15 menit)"))
    else ok tt

abbrev pub and_then : {A B : Type 0} → Result A → (A → Result B) → Result B
and_then (ok a) next = next a
and_then (err e) next = err e

unfoldable pub validate : JobCrypto → ComputeJobSpec → ℕ → Result Unit
unfolding validate_limits validate_submitter
validate crypto spec now =
    if ltb max_wasm_bytecode_size (length spec.wasm_bytecode)
    then err (
        invalid_spec (
          bytes "WASM bytecode terlalu besar: "
          ++ (decimal (length spec.wasm_bytecode)
              ++ (bytes " bytes (maks " ++ (decimal max_wasm_bytecode_size ++ bytes ")")))))
    else if not (verify_bytecode_integrity crypto spec)
    then err (integrity_failed (bytes "wasm_hash tidak cocok dengan bytecode"))
    else and_then (validate_limits spec.limits) (λ u. validate_submitter crypto spec now)

pub data JobStatus : Type 0 where
  queued : JobStatus
  running completed timed_out : ℕ → JobStatus
  failed : Text → ℕ → JobStatus
  cancelled : Text → JobStatus

unfoldable pub is_terminal : JobStatus → Bool
is_terminal queued = false
is_terminal (running started_at) = false
is_terminal (completed finished_at) = true
is_terminal (timed_out finished_at) = true
is_terminal (failed reason finished_at) = true
is_terminal (cancelled reason) = true

unfoldable pub status_text : JobStatus → Text
status_text queued = bytes "queued"
status_text (running started_at) = bytes "running"
status_text (completed finished_at) = bytes "completed"
status_text (timed_out finished_at) = bytes "timed_out"
status_text (failed reason finished_at) = bytes "failed"
status_text (cancelled reason) = bytes "cancelled"

-- `JobId::new` at a time in nanoseconds, a `u128`.
abbrev pub new_job_id : (List ℕ → Text) → Text → Text → Text → ℕ → Text
new_job_id hex_sha256 wasm_hash input_hash submitter nanos =
    hex_sha256
      (wasm_hash ++ (bytes "|" ++ (input_hash ++ (bytes "|" ++ (submitter ++ le_bytes 16 nanos)))))

-- The `i32` of the exit code is the number of its 32 bits.
pub record ComputeResult : Type 0 where
  pub job_id : Text
  pub status : JobStatus
  pub output : List ℕ
  pub stderr : List ℕ
  pub exit_code : ℕ
  pub fuel_consumed : ℕ
  pub exec_time_ms : ℕ
  pub memory_used_bytes : ℕ
  pub executor_peer_id : Text
  pub submitter_peer_id : Text
  pub finished_at : ℕ
