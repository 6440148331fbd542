-- ===== src/Hunt/Gate.antt =====
-- packages/shared/src/hunt-execution-gate.ts: `canExecuteHunt`.
pub mod Laws
pub mod Complete
use verglos_cli.Prelude.{Bool, true, false, ◌&&◌, ◌==◌, length, all}
use verglos_cli.Text.{Text, codes, text_eq}
use verglos_cli.Text.Sets.{has}
use verglos_cli.Contracts.{Parsed, ok}
use verglos_cli.Approval.{
  execute, action_eq, Platform, ApprovalReceipt, ApprovalError, is_approval_usable,
}
use verglos_cli.Hunt.{HuntRecipe}
use verglos_cli.Hunt.Trust.{
  TrustStore, Verification, trusted, untrusted, TrustTools, verify_hunt_recipe,
}

-- The input of `canExecuteHunt`
pub record HuntRequest : Type 0 where
  pub rule_id : Text
  pub subject_id : Text
  pub at : Text
  pub approval : ApprovalReceipt

-- `isExecutableHuntRecipe`, of the verification.
abbrev pub is_trusted : Verification → Bool
is_trusted (trusted f e d) = true
is_trusted (untrusted r) = false

-- An error that is thrown is caught, and refuses.
abbrev pub or_false : Parsed ApprovalError Bool → Bool
or_false (ok b) = b
or_false _ = false

abbrev pub network_matches : HuntRecipe → ApprovalReceipt → Bool
network_matches r a =
    (length a.request.network == length r.destinations)
    && all (λ d. has d a.request.network) r.destinations

module _ (p : Platform) (w : TrustTools) where
  -- `canExecuteHunt`
  unfoldable pub can_execute_hunt : HuntRecipe → HuntRequest → TrustStore → Bool
  can_execute_hunt r i t =
      text_eq r.rule_id i.rule_id
      && (text_eq r.target_subject_id i.subject_id
          && (is_trusted (verify_hunt_recipe w r t (p.parse_date i.at))
              && (action_eq i.approval.request.action execute
                  && (text_eq i.approval.request.policy_effect (codes "hunt")
                      && (text_eq i.approval.request.target i.subject_id
                          && (network_matches r i.approval
                              && or_false (is_approval_usable p i.approval i.at)))))))
