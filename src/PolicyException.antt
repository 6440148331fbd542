-- ===== src/PolicyException.antt =====
-- packages/shared/src/exception.ts: policy exceptions, their approvals, and when one applies.
pub mod Validate
pub mod Evaluate
pub mod Applies
mod Tests
use verglos_cli.Prelude.{Option, List}
use verglos_cli.Text.{Text}
use verglos_cli.Contracts.{Time}
use verglos_cli.Formats.{ContentDigest}

pub data ActorKind : Type 0 where
  person service agent : ActorKind

-- ActorSchema
pub record Actor : Type 0 where
  pub kind : ActorKind
  pub id : Text

pub data OwnerKind : Type 0 where
  person team : OwnerKind

-- OwnerSchema
pub record Owner : Type 0 where
  pub kind : OwnerKind
  pub id : Text

-- HumanApproverSchema; the literal kind "person" is left out.
pub record HumanApprover : Type 0 where
  pub id : Text
  pub authority : Text

-- AuditReferenceSchema
pub record AuditReference : Type 0 where
  pub system : Text
  pub record_id : Text
  pub digest : ContentDigest

-- ExceptionScopeSchema
pub record ExceptionScope : Type 0 where
  pub subject_id : Text
  pub observation_ids : List Text

-- CompensatingControlSchema
pub record CompensatingControl : Type 0 where
  pub description : Text
  pub owner : Owner
  pub evidence : AuditReference

-- PolicyExceptionBaseSchema; the literal `schemaId` is left out.
pub record PolicyException : Type 0 where
  pub schema_version : Text
  pub exception_id : Text
  pub scope : ExceptionScope
  pub owner : Owner
  pub requested_by : Actor
  pub reason : Text
  pub compensating_controls : List CompensatingControl
  pub reversal_triggers : List Text
  pub requested_at : Time
  pub effective_from : Time
  pub expires_at : Time
  pub limitations : List Text

pub data ApprovalDecision : Type 0 where
  approved denied : ApprovalDecision

-- `target` of ExceptionApprovalBaseSchema
pub record ApprovalTarget : Type 0 where
  pub exception_id : Text
  pub request_digest : ContentDigest

-- ExceptionApprovalBaseSchema; the literal `schemaId` is left out.
pub record ExceptionApproval : Type 0 where
  pub schema_version : Text
  pub approval_id : Text
  pub target : ApprovalTarget
  pub decision : ApprovalDecision
  pub approver : HumanApprover
  pub rationale : Text
  pub decided_at : Time
  pub valid_until : Option Time
  pub audit_reference : AuditReference
