-- ===== src/ReleaseDecision.antt =====
-- packages/shared/src/release-decision.ts: the release decision that binds a policy evaluation.
pub mod Validate
pub mod Laws
mod Tests
use verglos_cli.Prelude.{Option, List}
use verglos_cli.Text.{Text}
use verglos_cli.Formats.{ContentDigest}
use verglos_cli.Contracts.{Time}
use verglos_cli.PolicyEvaluation.{PolicyReference, Decision, PolicyEvaluationDocument}

pub data SubjectRole : Type 0 where
  primary source artifact image sbom supporting : SubjectRole

-- SubjectBindingSchema
pub record SubjectBinding : Type 0 where
  pub subject_id : Text
  pub role : SubjectRole

pub data ApprovalKind : Type 0 where
  exception release : ApprovalKind

-- ApprovalReferenceSchema
pub record ApprovalReference : Type 0 where
  pub kind : ApprovalKind
  pub approval_id : Text
  pub digest : ContentDigest
  pub approver_id : Text
  pub authority : Text
  pub decided_at : Time
  pub valid_until : Option Time

-- `evaluation` of ReleaseDecisionBaseSchema; the literal `schemaId` is left out.
pub record EvaluationReference : Type 0 where
  pub evaluation_id : Text
  pub digest : ContentDigest
  pub subject_id : Text
  pub decision : Decision
  pub policy : PolicyReference
  pub evaluated_at : Time

pub data IssuerKind : Type 0 where
  person service : IssuerKind

-- `issuedBy` of ReleaseDecisionBaseSchema
pub record Issuer : Type 0 where
  pub kind : IssuerKind
  pub id : Text
  pub authority : Text

-- ReleaseDecisionBaseSchema; the literal `schemaId` is left out.
pub record ReleaseDecisionDocument : Type 0 where
  pub schema_version : Text
  pub decision_id : Text
  pub decision : Decision
  pub subjects : List SubjectBinding
  pub policy : PolicyReference
  pub evaluation : EvaluationReference
  pub approvals : List ApprovalReference
  pub issued_by : Issuer
  pub generated_at : Time
  pub limitations : List Text

-- CreateReleaseDecisionInput
pub record CreateReleaseDecisionInput : Type 0 where
  pub decision_id : Text
  pub evaluation : PolicyEvaluationDocument
  pub subjects : List SubjectBinding
  pub approvals : Option (List ApprovalReference)
  pub issued_by : Issuer
  pub generated_at : Time
  pub limitations : List Text
