-- ===== src/PolicyEvaluation.antt =====
-- packages/shared/src/policy-evaluation.ts: the contract of a policy evaluation.
pub mod Derive
pub mod Validate
pub mod Parse
pub mod Facts
pub mod Outcome
pub mod Reasons
pub mod Equality
pub mod Accepted
pub mod Create
pub mod Tests
use verglos_cli.Prelude.{ℕ, Option, List}
use verglos_cli.Text.{Text}
use verglos_cli.Contracts.{Time}
use verglos_cli.Formats.{ContentDigest}

pub data MatchStatus : Type 0 where
  matched mismatched unresolved : MatchStatus

-- SubjectMatchSchema
pub record SubjectMatch : Type 0 where
  pub status : MatchStatus
  pub observed_subject_id : Option Text
  pub reason : Option Text

pub data FreshnessStatus : Type 0 where
  current stale unknown : FreshnessStatus

-- FreshnessSchema
pub record Freshness : Type 0 where
  pub status : FreshnessStatus
  pub checked_at : Time
  pub source_updated_at : Option Time
  pub valid_until : Option Time

pub data Requirement : Type 0 where
  required advisory : Requirement

pub data OnFailure : Type 0 where
  block review : OnFailure

pub data CheckStatus : Type 0 where
  satisfied failed missing stale unsupported error : CheckStatus

-- PolicyCheckSchema
pub record PolicyCheck : Type 0 where
  pub id : Text
  pub requirement : Requirement
  pub on_failure : OnFailure
  pub status : CheckStatus
  pub evidence_digests : List ContentDigest
  pub observation_ids : List Text
  pub freshness : Freshness
  pub owner : Text
  pub reason : Text
  pub next_action : Text

pub data ReasonCode : Type 0 where
  identity_mismatch identity_unresolved required_check_missing required_check_stale
        required_check_unsupported required_check_error check_failed_block check_failed_review
        advisory_check_unavailable requirements_satisfied :
      ReasonCode

-- EvaluationReasonSchema
pub record EvaluationReason : Type 0 where
  pub code : ReasonCode
  pub check_id : Option Text
  pub detail : Text
  pub owner : Text
  pub next_action : Text

pub record PolicyReference : Type 0 where
  pub id : Text
  pub version : Text
  pub digest : ContentDigest

-- PolicyEvaluationInputBaseSchema; the literal `schemaId` is left out.
pub record PolicyEvaluationInput : Type 0 where
  pub schema_version : Text
  pub evaluation_id : Text
  pub policy : PolicyReference
  pub subject_id : Text
  pub subject_match : SubjectMatch
  pub evaluated_at : Time
  pub checks : List PolicyCheck
  pub limitations : List Text

pub data Decision : Type 0 where
  pass review block incomplete : Decision

-- PolicyEvaluationBaseSchema
pub record PolicyEvaluationDocument : Type 0 where
  pub input : PolicyEvaluationInput
  pub decision : Decision
  pub exit_code : ℕ
  pub reasons : List EvaluationReason
