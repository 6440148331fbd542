-- ===== src/Approval/Authorize.antt =====
-- packages/shared/src/agent-authorization.ts and remediation-approval.ts: what a receipt permits.
pub mod Usable
pub mod Laws
pub mod Remediation
use verglos_cli.Prelude.{
  Bool, true, false, not, ◌&&◌, ◌||◌, Option, none, some, List, if◌then◌else◌, all,
}
use verglos_cli.Text.{Text, text_eq}
use verglos_cli.Text.Sets.{has}
use verglos_cli.Contracts.{Parsed, ok, ◌>>=◌, is_some, is_empty}
use verglos_cli.Approval.{
  AgentAction, mutate, matrix, parse_agent_action, action_eq, Platform, ApprovalReceipt,
  ApprovalError, parse_approval_receipt, approval_request_digest, before, not_before, is_approved,
  is_approval_usable,
}

pub data AuthorizationReason : Type 0 where
  approval_not_required approval_missing action_mismatch receipt_invalid : AuthorizationReason
  denied_by_human expired usable : AuthorizationReason

pub record AgentAuthorization : Type 0 where
  pub allowed : Bool
  pub reason : AuthorizationReason

abbrev pub refuse : AuthorizationReason → AgentAuthorization
refuse r = record { allowed = false; reason = r }

abbrev pub allow : AuthorizationReason → AgentAuthorization
allow r = record { allowed = true; reason = r }

-- An error of the receipt's parse is caught.
abbrev pub or_invalid :
    Parsed ApprovalError ApprovalReceipt
    → (ApprovalReceipt → Parsed ApprovalError AgentAuthorization)
    → Parsed ApprovalError AgentAuthorization
or_invalid (ok r) f = f r
or_invalid _ f = ok (refuse receipt_invalid)

module _ (p : Platform) where
  -- The test of the time: it asks for the refusals, and NaN refuses nothing but the instant itself.
  abbrev pub is_outside : ApprovalReceipt → Text → Bool
  is_outside r at =
      let now = p.parse_date at in
      not (is_some now)
      || (before now (p.parse_date r.request.requested_at)
          || (not_before now (p.parse_date r.request.expires_at)
              || before now (p.parse_date r.decided_at)))

  -- The tests on a receipt whose digest has been recomputed.
  abbrev pub judge : ApprovalReceipt → Text → Text → AgentAuthorization
  judge r digest at =
      if not (text_eq r.request_digest digest)
      then refuse receipt_invalid
      else if is_outside r at
      then refuse expired
      else if not (is_approved r.decision)
      then refuse denied_by_human
      else allow usable

  -- The tests on a receipt that has been parsed; the digest's error is not caught.
  abbrev pub check_receipt :
      AgentAction → ApprovalReceipt → Text → Parsed ApprovalError AgentAuthorization
  check_receipt a r at =
      if not (action_eq r.request.action a)
      then ok (refuse action_mismatch)
      else approval_request_digest p r.request >>= λ digest. ok (judge r digest at)

  abbrev with_receipt :
      AgentAction → Option ApprovalReceipt → Text → Parsed ApprovalError AgentAuthorization
  with_receipt a none at = ok (refuse approval_missing)
  with_receipt a (some r) at =
      or_invalid (parse_approval_receipt p r) λ receipt. check_receipt a receipt at

  abbrev with_action :
      Option AgentAction → Option ApprovalReceipt → Text → Parsed ApprovalError AgentAuthorization
  with_action none r at = ok (refuse receipt_invalid)
  with_action (some a) r at =
      if not (matrix a).approval_required
      then ok (allow approval_not_required)
      else with_receipt a r at

  -- `authorizeAgentAction`
  unfoldable pub authorize_agent_action :
      Text → Option ApprovalReceipt → Text → Parsed ApprovalError AgentAuthorization
  authorize_agent_action action_value receipt_value at =
      with_action (parse_agent_action action_value) receipt_value at

-- The fields of a RemediationProposal that the check reads.
pub record RemediationProposal : Type 0 where
  pub target_subject_id : Text
  pub files : List Text
  pub policy_effect : Text

-- `canApplyRemediation`
unfoldable pub can_apply_remediation :
    Platform → RemediationProposal → ApprovalReceipt → Text → Parsed ApprovalError Bool
can_apply_remediation p proposal receipt at = do
  usable_now ← is_approval_usable p receipt at
  ok (
      usable_now
      && (action_eq receipt.request.action mutate
          && (text_eq receipt.request.target proposal.target_subject_id
              && (text_eq receipt.request.policy_effect proposal.policy_effect
                  && (is_empty receipt.request.network
                      && all (λ file. has file receipt.request.files) proposal.files)))))
