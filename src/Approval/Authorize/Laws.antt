-- ===== src/Approval/Authorize/Laws.antt =====
-- What `authorizeAgentAction` permits (packages/shared/src/agent-authorization.ts).
use verglos_cli.Prelude.{
  ◌≡◌, refl, sym, ap, ◌∙◌, ◌↔◌, Bool, true, false, not, ◌||◌, Option, none, some, List, [], ◌∷◌,
  arith, if◌then◌else◌,
}
use verglos_cli.Text.{Text}
use verglos_cli.Text.Order.{text_eq_iff}
use verglos_cli.Contracts.{
  Instant, Parsed, ok, invalid, unreadable, ◌>>=◌, is_some, accept_if_clean,
}
use verglos_cli.Contracts.Laws.{ok_injective}
use verglos_cli.Approval.{
  AgentAction, matrix, parse_agent_action, action_eq, Platform, ApprovalReceipt, ApprovalError,
  parse_approval_receipt, receipt_issues, approval_request_digest, before, not_before, is_approved,
  in_window, is_approval_usable,
}
use verglos_cli.Approval.Authorize.{
  AgentAuthorization, AuthorizationReason, or_invalid, allow, refuse, action_mismatch, usable,
  judge, check_receipt, authorize_agent_action,
}
use verglos_cli.Approval.Authorize.Usable.{
  action_eq_iff, Usable, window, Usable-window, is_approval_usable-eq, is_approval_usable-of,
  is_approval_usable-true,
}

-- Where the receipt's own times are read, the refusals are those that the window makes.
outside-window :
    (n s e d : Option Instant)
    → is_some s ≡ true
    → is_some e ≡ true
    → is_some d ≡ true
    → (not (is_some n) || (before n s || (not_before n e || before n d))) ≡ not (window n s e d)
outside-window none (some s) (some e) (some d) hs he hd = refl
outside-window (some n) (some s) (some e) (some d) hs he hd = ground arith
outside-window n none e d hs he hd = cc
outside-window n (some s) none d hs he hd = cc
outside-window n (some s) (some e) none hs he hd = cc

refused-is_allowed :
    {x : AuthorizationReason}
    → ◌≡◌ {A = Parsed ApprovalError AgentAuthorization} (ok (refuse x)) (ok (allow usable))
    → ⊥
refused-is_allowed e = ground (arith, ap permits e)
  where
    permits : Parsed ApprovalError AgentAuthorization → Bool
    permits (ok a) = a.allowed
    permits _ = false

or_invalid-eq :
    (is : List ApprovalError) (r : ApprovalReceipt)
    (f : ApprovalReceipt → Parsed ApprovalError AgentAuthorization)
    → or_invalid (accept_if_clean is r) f ≡ ok (allow usable)
    → (is ≡ []) × (f r ≡ ok (allow usable))
or_invalid-eq [] r f h = (refl, h)
or_invalid-eq (i ∷ is) r f h = absurd (refused-is_allowed h)

unless-eq :
    (b : Bool) (x : AuthorizationReason) (m : Parsed ApprovalError AgentAuthorization)
    → (if not b then ok (refuse x) else m) ≡ ok (allow usable)
    → (b ≡ true) × (m ≡ ok (allow usable))
unless-eq true x m h = (refl, h)
unless-eq false x m h = absurd (refused-is_allowed h)

module _ (p : Platform) (r : ApprovalReceipt) (at : Text) where
  -- `Date.parse` reads the receipt's three times.
  pub record TimesRead : Type 0 where
    pub requested : is_some (p.parse_date r.request.requested_at) ≡ true
    pub expires : is_some (p.parse_date r.request.expires_at) ≡ true
    pub decided : is_some (p.parse_date r.decided_at) ≡ true

  judge_lem :
      (digest : Text)
      → TimesRead
      → (judge p r digest at ≡ allow usable) ↔ (
          (r.request_digest ≡ digest) × (in_window p r at ≡ true) × (is_approved r.decision ≡ true))
  judge_lem digest t = ground (
    arith,
    text_eq_iff r.request_digest digest,
    outside-window (p.parse_date at) (p.parse_date r.request.requested_at)
        (p.parse_date r.request.expires_at) (p.parse_date r.decided_at) t.requested t.expires
        t.decided,
  )

  judged :
      (m : Parsed ApprovalError Text)
      → (m >>= (λ digest. ok (judge p r digest at))) ≡ ok (allow usable)
      → (digest : Text) × (m ≡ ok digest) × (judge p r digest at ≡ allow usable)
  judged (ok d) h = (d, refl, ok_injective h)
  judged (invalid is) h = cc
  judged (unreadable c) h = cc

  check_receipt-eq :
      (a : AgentAction)
      → check_receipt p a r at ≡ ok (allow usable)
      → (r.request.action ≡ a)
        × ((approval_request_digest p r.request >>= (λ digest. ok (judge p r digest at)))
            ≡ ok (allow usable))
  check_receipt-eq a h =
      let (same, rest) = unless-eq (action_eq r.request.action a) action_mismatch _ h in
      ((action_eq_iff r.request.action a).0 same, rest)

  module _ (t : Text) (a : AgentAction) where
    authorize_lem :
        parse_agent_action t ≡ some a
        → (matrix a).approval_required ≡ true
        → authorize_agent_action p t (some r) at
          ≡ or_invalid (parse_approval_receipt p r) (λ receipt. check_receipt p a receipt at)
    unfolding authorize_agent_action
    authorize_lem ha hm = rw (ha, hm) refl

    grants :
        parse_agent_action t ≡ some a
        → (matrix a).approval_required ≡ true
        → TimesRead
        → authorize_agent_action p t (some r) at ≡ ok (allow usable)
        → (r.request.action ≡ a) × Usable p r at
    grants ha hm ht h =
        let (clean, checked) =
          or_invalid-eq (receipt_issues p r) r (λ receipt. check_receipt p a receipt at)
            (sym (authorize_lem ha hm) ∙ h) in
        let (same, rest) = check_receipt-eq a checked in
        let (digest, computed, so) = judged (approval_request_digest p r.request) rest in
        let (equal, inside, approves) = (judge_lem digest ht).0 so in
        (
          same,
          is_approval_usable-eq p r at (
              is_approval_usable-true p r at clean (ground (arith, approves)) (cc (computed, equal))
                inside),
        )

    granted :
        parse_agent_action t ≡ some a
        → (matrix a).approval_required ≡ true
        → TimesRead
        → (r.request.action ≡ a) × Usable p r at
        → authorize_agent_action p t (some r) at ≡ ok (allow usable)
    unfolding authorize_agent_action
    granted ha hm ht (same, u) =
        let judged_so =
          (judge_lem r.request_digest ht).1
            (refl, Usable-window p r at u, ap is_approved u.approves) in
        let eq = (action_eq_iff r.request.action a).1 same in
        rw (ha, hm, u.well_formed, eq, u.same_digest, judged_so) refl

    -- For an action that requires approval, and a receipt whose times `Date.parse` reads, the
    -- authorization says "usable" exactly where the receipt is for this action and is usable:
    -- `authorizeAgentAction` and `isApprovalUsable` agree.
    pub authorize_agent_action-Usable_iff :
        parse_agent_action t ≡ some a
        → (matrix a).approval_required ≡ true
        → TimesRead
        → (authorize_agent_action p t (some r) at ≡ ok (allow usable))
          ↔ ((r.request.action ≡ a) × (is_approval_usable p r at ≡ ok true) × Usable p r at)
    authorize_agent_action-Usable_iff ha hm ht = (
      (λ h. let (same, u) = grants ha hm ht h in (same, is_approval_usable-of p r at u, u)),
      (λ (same, _, u). granted ha hm ht (same, u)),
    )
