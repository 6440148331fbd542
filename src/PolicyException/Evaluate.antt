-- ===== src/PolicyException/Evaluate.antt =====
-- packages/shared/src/exception.ts: `evaluatePolicyException`.
use verglos_cli.Prelude.{Bool, true, false, not, ◌&&◌, Option, none, some, [], ◌∷◌, if◌then◌else◌}
use verglos_cli.Text.{Text, text_eq}
use verglos_cli.Text.Sets.{has}
use verglos_cli.Formats.{sha256, algorithm_eq, uuid_urn, subject_id}
use verglos_cli.Contracts.{Time, earlier, no_later, Parsed, ok, invalid, ◌>>=◌}
use verglos_cli.PolicyException.{PolicyException, ApprovalTarget, ExceptionApproval}
use verglos_cli.PolicyException.Validate.{
  ExceptionIssue, bad_input, parse_policy_exception, is_approved, parse_exception_approval,
}

-- PolicyExceptionApplicabilityReason
pub data ApplicabilityReason : Type 0 where
  applicable approval_denied target_mismatch decision_before_request decision_after_exception_expiry
        approval_outlives_exception not_yet_effective expired approval_expired subject_mismatch
        observation_out_of_scope :
      ApplicabilityReason

-- PolicyExceptionApplicability
pub record Applicability : Type 0 where
  pub is_applicable : Bool
  pub reason : ApplicabilityReason

-- The third argument of `evaluatePolicyException`.
pub record ExceptionQuery : Type 0 where
  pub subject_id : Text
  pub observation_id : Text
  pub at : Time

abbrev refused : ApplicabilityReason → Applicability
refused why = record { is_applicable = false; reason = why }

-- `Date.parse(validUntil!) > limit`; of an absent time `Date.parse` makes NaN, which is above and
-- below nothing.
abbrev pub later_than : Option Time → Time → Bool
later_than none limit = false
later_than (some until) limit = earlier limit until

-- `at >= Date.parse(validUntil!)`
abbrev pub reached : Time → Option Time → Bool
reached at none = false
reached at (some until) = no_later until at

abbrev pub targets : ApprovalTarget → Text → Text → Bool
targets t exception_id digest =
    text_eq t.exception_id exception_id
    && algorithm_eq t.request_digest.algorithm sha256
    && text_eq t.request_digest.value digest

-- The sequence of tests, over two validated documents. `digest` is the SHA-256 of the exception's
-- canonical JSON, in hexadecimal.
unfoldable pub applicability :
    Text → PolicyException → ExceptionApproval → ExceptionQuery → Applicability
applicability digest e a q =
    if not (targets a.target e.exception_id digest)
    then refused target_mismatch
    else if earlier a.decided_at e.requested_at
    then refused decision_before_request
    else if no_later e.expires_at a.decided_at
    then refused decision_after_exception_expiry
    else if not (is_approved a.decision)
    then refused approval_denied
    else if later_than a.valid_until e.expires_at
    then refused approval_outlives_exception
    else if earlier q.at e.effective_from
    then refused not_yet_effective
    else if no_later e.expires_at q.at
    then refused expired
    else if reached q.at a.valid_until
    then refused approval_expired
    else if not (text_eq q.subject_id e.scope.subject_id)
    then refused subject_mismatch
    else if not (has q.observation_id e.scope.observation_ids)
    then refused observation_out_of_scope
    else record { is_applicable = true; reason = applicable }

abbrev pub check_query : ExceptionQuery → Parsed ExceptionIssue ExceptionQuery
check_query q =
    if subject_id q.subject_id && uuid_urn q.observation_id then ok q else invalid (bad_input ∷ [])

-- Hashing is node:crypto's: the digest of an exception is a parameter.
module _ (digest_policy_exception : PolicyException → Text) where
  unfoldable pub evaluate_policy_exception :
      PolicyException → ExceptionApproval → ExceptionQuery → Parsed ExceptionIssue Applicability
  evaluate_policy_exception exception_value approval_value input = do
    exception ← parse_policy_exception exception_value
    approval ← parse_exception_approval approval_value
    query ← check_query input
    ok (applicability (digest_policy_exception exception) exception approval query)
