-- ===== src/Approval/Authorize/Remediation.antt =====
-- When a remediation may be applied (packages/shared/src/remediation-approval.ts).
use verglos_cli.Prelude.{◌≡◌, refl, ◌↔◌, Bool, true, ◌&&◌, List, [], ◌∷◌, arith, all, In, All}
use verglos_cli.Text.{Text, text_eq}
use verglos_cli.Text.Order.{text_eq_iff}
use verglos_cli.Text.Sets.{has, has_iff}
use verglos_cli.Contracts.{Parsed, ok, invalid, unreadable, ◌>>=◌, is_empty}
use verglos_cli.Approval.{
  mutate, action_eq, Platform, ApprovalReceipt, ApprovalError, is_approval_usable,
}
use verglos_cli.Approval.Authorize.{RemediationProposal, can_apply_remediation}
use verglos_cli.Approval.Authorize.Usable.{
  action_eq_iff, Usable, is_approval_usable-eq, is_approval_usable-of,
}

module _ (p : Platform) (proposal : RemediationProposal) (r : ApprovalReceipt) (at : Text) where
  -- What a receipt must say to let a proposal be applied.
  pub record Covers : Type 0 where
    pub mutates : r.request.action ≡ mutate
    pub same_target : r.request.target ≡ proposal.target_subject_id
    pub same_effect : r.request.policy_effect ≡ proposal.policy_effect
    pub no_network : r.request.network ≡ []
    pub files_approved : All (λ file. In file r.request.files) proposal.files

  all_in_iff :
      (files : List Text)
      → (all (λ file. has file r.request.files) files ≡ true)
        ↔ All (λ file. In file r.request.files) files
  all_in_iff [] = ((λ h. tt), λ h. refl)
  all_in_iff (f ∷ fs) = ground (arith, has_iff f r.request.files, all_in_iff fs)

  conditions : Bool
  conditions =
      action_eq r.request.action mutate
      && (text_eq r.request.target proposal.target_subject_id
          && (text_eq r.request.policy_effect proposal.policy_effect
              && (is_empty r.request.network
                  && all (λ file. has file r.request.files) proposal.files)))

  is_empty_iff : (ts : List Text) → (is_empty ts ≡ true) ↔ (ts ≡ [])
  is_empty_iff ts = ground arith

  conditions_iff : (conditions ≡ true) ↔ (
      (r.request.action ≡ mutate)
      × (r.request.target ≡ proposal.target_subject_id)
      × (r.request.policy_effect ≡ proposal.policy_effect)
      × (r.request.network ≡ [])
      × All (λ file. In file r.request.files) proposal.files)
  unfolding conditions
  conditions_iff = ground (
    arith,
    action_eq_iff r.request.action mutate,
    text_eq_iff r.request.target proposal.target_subject_id,
    text_eq_iff r.request.policy_effect proposal.policy_effect,
    is_empty_iff r.request.network,
    all_in_iff proposal.files,
  )

  Covers-of : conditions ≡ true → Covers
  Covers-of h =
      let (a, b, c, d, e) = conditions_iff.0 h in
      record { mutates = a; same_target = b; same_effect = c; no_network = d; files_approved = e }

  conditions_hold : Covers → conditions ≡ true
  conditions_hold c =
      conditions_iff.1 (c.mutates, c.same_target, c.same_effect, c.no_network, c.files_approved)

  and-ok :
      (m : Parsed ApprovalError Bool) (b : Bool)
      → (m >>= (λ u. ok (u && b))) ≡ ok true
      → (m ≡ ok true) × (b ≡ true)
  and-ok (ok u) b h = ground (arith, h)
  and-ok (invalid is) b h = cc
  and-ok (unreadable c) b h = cc

  -- A remediation may be applied exactly where the receipt is usable at the instant, is for a
  -- mutation of this very subject with this policy effect and without network access, and lists
  -- every file that the proposal touches.
  pub can_apply_remediation-Covers_iff :
      (can_apply_remediation p proposal r at ≡ ok true) ↔ (Usable p r at × Covers)
  unfolding can_apply_remediation conditions
  can_apply_remediation-Covers_iff = (
    (λ h.
        let (now, rest) = and-ok (is_approval_usable p r at) conditions h in
        (is_approval_usable-eq p r at now, Covers-of rest)),
    (λ (u, c). rw (is_approval_usable-of p r at u, conditions_hold c) refl),
  )
