-- ===== src/PolicyException/Validate.antt =====
-- packages/shared/src/exception.ts: validation and parsing.
use verglos_cli.Prelude.{ℕ, Bool, true, false, not, ◌&&◌, List, [], ◌∷◌, ◌++◌, all}
use verglos_cli.Text.{Text, codes}
use verglos_cli.Text.Sets.{repeats}
use verglos_cli.Formats.{uuid_urn, short_text, long_text, content_digest, subject_id}
use verglos_cli.Contracts.{
  earlier, no_later, is_some, if_present, size_in, raise, flat_map_from, Parsed, ◌>>=◌,
  accept_if_clean, assert_compatible, is_version,
}
use verglos_cli.PolicyException.{
  AuditReference, CompensatingControl, PolicyException, ApprovalDecision, approved, denied,
  ExceptionApproval,
}

-- The issues, one constructor for each `addIssue` call.
pub data ExceptionIssue : Type 0 where
  bad_field : Text → ExceptionIssue
  bad_control : ℕ → ExceptionIssue
  repeated_observation : ExceptionIssue
  effective_before_request : ExceptionIssue
  expires_before_effective : ExceptionIssue
  approval_needs_expiry : ExceptionIssue
  denial_cannot_grant : ExceptionIssue
  valid_before_decision : ExceptionIssue
  bad_input : ExceptionIssue

abbrev audit_ok : AuditReference → Bool
audit_ok a = short_text a.system && short_text a.record_id && content_digest a.digest

abbrev pub control_issues_rows : ℕ → CompensatingControl → List (Bool × ExceptionIssue)
control_issues_rows n c =
    (not (long_text c.description && short_text c.owner.id && audit_ok c.evidence), bad_control n)
    ∷ []

unfoldable pub control_issues : ℕ → CompensatingControl → List ExceptionIssue
control_issues n c = raise (control_issues_rows n c)

-- The formats of PolicyExceptionBaseSchema, and the refinements of the scope and of the document.
abbrev pub exception_rows : PolicyException → List (Bool × ExceptionIssue)
exception_rows e =
    (not (is_version e.schema_version), bad_field (codes "schemaVersion"))
    ∷ (not (uuid_urn e.exception_id), bad_field (codes "exceptionId"))
    ∷ (
      not (
          subject_id e.scope.subject_id
          && size_in 1 100 e.scope.observation_ids
          && all uuid_urn e.scope.observation_ids),
      bad_field (codes "scope"),
    )
    ∷ (repeats e.scope.observation_ids, repeated_observation)
    ∷ (not (short_text e.owner.id), bad_field (codes "owner"))
    ∷ (not (short_text e.requested_by.id), bad_field (codes "requestedBy"))
    ∷ (not (long_text e.reason), bad_field (codes "reason"))
    ∷ (not (size_in 1 16 e.compensating_controls), bad_field (codes "compensatingControls"))
    ∷ (
      not (size_in 1 16 e.reversal_triggers && all long_text e.reversal_triggers),
      bad_field (codes "reversalTriggers"),
    )
    ∷ (
      not (size_in 1 32 e.limitations && all long_text e.limitations),
      bad_field (codes "limitations"),
    )
    ∷ (earlier e.effective_from e.requested_at, effective_before_request)
    ∷ (no_later e.expires_at e.effective_from, expires_before_effective)
    ∷ []

unfoldable pub exception_issues : PolicyException → List ExceptionIssue
exception_issues e =
    flat_map_from control_issues 0 e.compensating_controls ++ raise (exception_rows e)

-- `parsePolicyException`, by `parseContract`
unfoldable pub parse_policy_exception : PolicyException → Parsed ExceptionIssue PolicyException
parse_policy_exception e = do
  parsed ← accept_if_clean (exception_issues e) e
  assert_compatible parsed.schema_version parsed

abbrev pub is_approved : ApprovalDecision → Bool
is_approved approved = true
is_approved denied = false

-- The formats of ExceptionApprovalBaseSchema, and its refinement.
abbrev pub approval_rows : ExceptionApproval → List (Bool × ExceptionIssue)
approval_rows a =
    (not (is_version a.schema_version), bad_field (codes "schemaVersion"))
    ∷ (not (uuid_urn a.approval_id), bad_field (codes "approvalId"))
    ∷ (
      not (uuid_urn a.target.exception_id && content_digest a.target.request_digest),
      bad_field (codes "target"),
    )
    ∷ (
      not (short_text a.approver.id && short_text a.approver.authority),
      bad_field (codes "approver"),
    )
    ∷ (not (long_text a.rationale), bad_field (codes "rationale"))
    ∷ (not (audit_ok a.audit_reference), bad_field (codes "auditReference"))
    ∷ (is_approved a.decision && not (is_some a.valid_until), approval_needs_expiry)
    ∷ (not (is_approved a.decision) && is_some a.valid_until, denial_cannot_grant)
    ∷ (
      not (if_present (λ until. not (no_later until a.decided_at)) a.valid_until),
      valid_before_decision,
    )
    ∷ []

unfoldable pub approval_issues : ExceptionApproval → List ExceptionIssue
approval_issues a = raise (approval_rows a)

-- `parseExceptionApproval`, by `parseContract`
unfoldable pub parse_exception_approval :
    ExceptionApproval → Parsed ExceptionIssue ExceptionApproval
parse_exception_approval a = do
  parsed ← accept_if_clean (approval_issues a) a
  assert_compatible parsed.schema_version parsed
