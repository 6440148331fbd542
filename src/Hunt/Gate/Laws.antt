-- ===== src/Hunt/Gate/Laws.antt =====
-- What a hunt that may run rests on (`canExecuteHunt` of packages/shared/src/hunt-execution-gate.ts).
use verglos_cli.Prelude.{both, ◌≡◌, ap, Bool, true, [], ◌==◌, ==_iff, length, In, All}
use verglos_cli.Text.{codes, text_eq}
use verglos_cli.Text.Order.{text_eq_iff}
use verglos_cli.Text.Sets.{all-has_iff}
use verglos_cli.Contracts.{Parsed, ok, invalid, unreadable}
use verglos_cli.Approval.{execute, action_eq, Platform, ApprovalError, is_approval_usable}
use verglos_cli.Approval.Authorize.Usable.{action_eq_iff, Usable, is_approval_usable-Usable_iff}
use verglos_cli.Hunt.{HuntRecipe, recipe_issues}
use verglos_cli.Hunt.Trust.{
  TrustStore, Verification, trusted, untrusted, TrustTools, verify_hunt_recipe,
}
use verglos_cli.Hunt.Trust.Laws.{TimesRead, IsTrusted, Rests, verify_hunt_recipe-Rests}
use verglos_cli.Hunt.Gate.{HuntRequest, is_trusted, or_false, network_matches, can_execute_hunt}

IsTrusted-of : (v : Verification) → is_trusted v ≡ true → IsTrusted v
IsTrusted-of (trusted f e d) h = tt
IsTrusted-of (untrusted r) h = cc

or_false-ok : (m : Parsed ApprovalError Bool) → or_false m ≡ true → m ≡ ok true
or_false-ok (ok b) h = ap (λ x. ok x) h
or_false-ok (invalid is) h = cc
or_false-ok (unreadable c) h = cc

module _ (p : Platform) (w : TrustTools) (r : HuntRecipe) (i : HuntRequest) (t : TrustStore) where
  -- The recipe is for the rule and the subject and rests on a feed that stands at the instant; the
  -- approval is usable there, is for executing a hunt on this subject, and names the destinations of
  -- the recipe and no more of them.
  pub record MayExecute : Type 0 where
    pub same_rule : r.rule_id ≡ i.rule_id
    pub same_subject : r.target_subject_id ≡ i.subject_id
    pub valid : recipe_issues w.parse_url r ≡ []
    pub rests : Rests w r t (p.parse_date i.at)
    pub usable : Usable p i.approval i.at
    pub executes : i.approval.request.action ≡ execute
    pub for_hunt : i.approval.request.policy_effect ≡ codes "hunt"
    pub for_subject : i.approval.request.target ≡ i.subject_id
    pub destinations_approved : All (λ d. In d i.approval.request.network) r.destinations
    pub no_more : length i.approval.request.network ≡ length r.destinations

  -- With a store whose feeds and keys have timestamps that `Date.parse` reads, a hunt may run only
  -- where its recipe is valid, is for this rule and subject, and is vouched for by a current feed under
  -- a valid key and neither revoked nor changed, and where a usable approval for executing a hunt on
  -- this subject lists each destination of the recipe, and as many as it has.
  pub can_execute_hunt-MayExecute : TimesRead t → can_execute_hunt p w r i t ≡ true → MayExecute
  unfolding can_execute_hunt
  can_execute_hunt-MayExecute read h =
      let (rule, h1) = both (text_eq r.rule_id i.rule_id) _ h in
      let (subject, h2) = both (text_eq r.target_subject_id i.subject_id) _ h1 in
      let (trust, h3) = both (is_trusted (verify_hunt_recipe w r t (p.parse_date i.at))) _ h2 in
      let (action, h4) = both (action_eq i.approval.request.action execute) _ h3 in
      let (effect, h5) = both (text_eq i.approval.request.policy_effect (codes "hunt")) _ h4 in
      let (target, h6) = both (text_eq i.approval.request.target i.subject_id) _ h5 in
      let (network, usable) = both (network_matches r i.approval) _ h6 in
      let (count, listed) =
        both (length i.approval.request.network == length r.destinations) _ network in
      let (valid, rests) =
        verify_hunt_recipe-Rests w r t (p.parse_date i.at) read
          (IsTrusted-of (verify_hunt_recipe w r t (p.parse_date i.at)) trust) in
      record {
        same_rule = (text_eq_iff r.rule_id i.rule_id).0 rule;
        same_subject = (text_eq_iff r.target_subject_id i.subject_id).0 subject;
        valid = valid;
        rests = rests;
        usable =
            (is_approval_usable-Usable_iff p i.approval i.at).0
              (or_false-ok (is_approval_usable p i.approval i.at) usable);
        executes = (action_eq_iff i.approval.request.action execute).0 action;
        for_hunt = (text_eq_iff i.approval.request.policy_effect (codes "hunt")).0 effect;
        for_subject = (text_eq_iff i.approval.request.target i.subject_id).0 target;
        destinations_approved = (all-has_iff r.destinations i.approval.request.network).0 listed;
        no_more = (==_iff (length i.approval.request.network) (length r.destinations)).0 count;
      }
