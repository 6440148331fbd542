-- ===== src/Verification.antt =====
-- packages/shared/src/verification.ts: the contract of one verification attempt, a run of a hunt
-- recipe in a sandbox.
pub mod Validate
pub mod Refine
pub mod Checked
pub mod Laws
mod Tests
use verglos_cli.Prelude.{ℕ, Bool, Option, List}
use verglos_cli.Text.{Text}
use verglos_cli.Formats.{ContentDigest}
use verglos_cli.Contracts.{Time}

pub data SignatureStatus : Type 0 where
  verified : SignatureStatus
  invalid_signature : SignatureStatus
  unverified : SignatureStatus

pub record Recipe : Type 0 where
  pub id : Text
  pub version : Text
  pub digest : ContentDigest
  pub signature_status : SignatureStatus
  pub signer : Option Text
  pub trust_policy_digest : Option ContentDigest

pub data ApprovalStatus : Type 0 where
  not_required : ApprovalStatus
  approved : ApprovalStatus
  denied : ApprovalStatus
  not_requested : ApprovalStatus

pub record Approval : Type 0 where
  pub required : Bool
  pub status : ApprovalStatus
  pub request_digest : Option ContentDigest
  pub actor : Option Text
  pub approved_at : Option Time

pub data Isolation : Type 0 where
  no_isolation : Isolation
  restricted_process : Isolation
  container : Isolation
  gvisor : Isolation
  microvm : Isolation

pub data Filesystem : Type 0 where
  read_only : Filesystem
  ephemeral_write : Filesystem

pub data NetworkMode : Type 0 where
  denied_network : NetworkMode
  allowlist : NetworkMode

pub record Network : Type 0 where
  pub mode : NetworkMode
  pub destinations : List Text

pub data Cleanup : Type 0 where
  not_started : Cleanup
  succeeded : Cleanup
  failed_cleanup : Cleanup

pub record Sandbox : Type 0 where
  pub isolation : Isolation
  pub runtime : Text
  pub runtime_digest : Option ContentDigest
  pub filesystem : Filesystem
  pub network : Network
  pub non_root : Bool
  pub cleanup : Cleanup

pub record VerificationLimits : Type 0 where
  pub timeout_ms : ℕ
  pub cpu_ms : ℕ
  pub memory_bytes : ℕ
  pub disk_bytes : ℕ
  pub max_processes : ℕ
  pub max_output_bytes : ℕ
  pub max_network_requests : ℕ

pub record ResourceUsage : Type 0 where
  pub duration_ms : ℕ
  pub cpu_ms : ℕ
  pub peak_memory_bytes : ℕ
  pub disk_bytes : ℕ
  pub processes : ℕ
  pub output_bytes : ℕ
  pub network_requests : ℕ

pub data Redaction : Type 0 where
  not_needed : Redaction
  applied : Redaction

pub record OutputStream : Type 0 where
  pub digest : ContentDigest
  pub size : ℕ
  pub truncated : Bool
  pub redaction : Redaction

pub record Artifact : Type 0 where
  pub name : Text
  pub digest : ContentDigest
  pub size : ℕ
  pub media_type : Text
  pub redaction : Redaction

pub record Output : Type 0 where
  pub evidence_digest : Option ContentDigest
  pub stdout : Option OutputStream
  pub stderr : Option OutputStream
  pub artifacts : List Artifact

pub data SecretInputs : Type 0 where
  no_secrets : SecretInputs
  ephemeral : SecretInputs

pub data Verdict : Type 0 where
  confirmed : Verdict
  not_reproduced : Verdict
  inconclusive : Verdict
  not_supported : Verdict
  environment_error : Verdict
  policy_denied : Verdict

-- VerificationAttemptDocument. Its `schemaId` is the literal that each of them has.
pub record VerificationAttempt : Type 0 where
  pub schema_version : Text
  pub attempt_id : Text
  pub subject_id : Text
  pub observation_id : Text
  pub finding_id : Option Text
  pub rule_id : Option Text
  pub recipe : Recipe
  pub approval : Approval
  pub sandbox : Sandbox
  pub input_digest : ContentDigest
  pub parameter_digest : ContentDigest
  pub secret_inputs : SecretInputs
  pub limits : VerificationLimits
  pub executed : Bool
  pub started_at : Option Time
  pub completed_at : Time
  pub usage : ResourceUsage
  pub output : Output
  pub verdict : Verdict
  pub reason : Text
  pub limitations : List Text

-- What the code reads of a URL object of the platform.
pub record Url : Type 0 where
  pub protocol : Text
  pub username : Text
  pub password : Text
  pub pathname : Text
  pub search : Text
  pub hash : Text
