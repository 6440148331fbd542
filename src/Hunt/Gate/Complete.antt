-- ===== src/Hunt/Gate/Complete.antt =====
-- When `canExecuteHunt` of packages/shared/src/hunt-execution-gate.ts lets a hunt run.
use verglos_cli.Prelude.{any-In, and_true, ◌≡◌, ap, ◌∙◌, true, ==_iff, length, In}
use verglos_cli.Text.{codes, text_eq}
use verglos_cli.Text.Order.{text_eq_iff}
use verglos_cli.Text.Sets.{all-has_iff}
use verglos_cli.Contracts.{is_some}
use verglos_cli.Approval.{Platform, execute}
use verglos_cli.Approval.Authorize.Usable.{action_eq_iff, is_approval_usable-Usable_iff}
use verglos_cli.Hunt.{HuntRecipe}
use verglos_cli.Hunt.Trust.{Feed, TrustStore, TrustTools, trust_policy, verify_hunt_recipe}
use verglos_cli.Hunt.Trust.Complete.{lists, verify_hunt_recipe_trusts}
use verglos_cli.Hunt.Gate.{HuntRequest, is_trusted, or_false, can_execute_hunt}
use verglos_cli.Hunt.Gate.Laws.{MayExecute}

module _ (p : Platform) (w : TrustTools) (r : HuntRecipe) (i : HuntRequest) (t : TrustStore) where
  -- A valid store whose feeds all have digests, and of which one at most lists the recipe.
  pub record IsClearStore : Type 0 where
    pub policy : trust_policy w.parse_url t ≡ true
    pub digests : (f : Feed) → In f t.signed_feeds → is_some (w.feed_digest f) ≡ true
    pub one_feed :
        (f g : Feed)
        → In f t.signed_feeds
        → In g t.signed_feeds
        → lists w r t f ≡ true
        → lists w r t g ≡ true
        → g ≡ f

  -- Over such a store, a hunt for which all the conditions hold is not refused: its recipe is valid,
  -- for this rule and subject, and vouched for by a feed that stands (its timestamps and its key's are
  -- read, and are those of a current feed and a valid key), and a usable approval for executing a hunt
  -- on the subject lists each destination of the recipe, and as many as it has.
  pub can_execute_hunt_if : IsClearStore → MayExecute p w r i t → can_execute_hunt p w r i t ≡ true
  unfolding can_execute_hunt
  can_execute_hunt_if c m =
      let (at, f, e, read, stands, vouches) = m.rests in
      let listed =
        any-In (λ x. text_eq x.recipe.recipe_id r.recipe_id) f.entries e vouches.listed
          ((text_eq_iff e.recipe.recipe_id r.recipe_id).1 vouches.same_recipe) in
      let trust =
        ap (verify_hunt_recipe w r t) read
        ∙ verify_hunt_recipe_trusts w r t f e vouches at stands m.valid c.policy
            (λ g n k. c.one_feed f g stands.known_feed n listed k)
            (c.digests f stands.known_feed) in
      and_true _ _ ((text_eq_iff r.rule_id i.rule_id).1 m.same_rule) (
        and_true _ _ ((text_eq_iff r.target_subject_id i.subject_id).1 m.same_subject) (
          and_true _ _ (ap is_trusted trust) (
            and_true _ _ ((action_eq_iff i.approval.request.action execute).1 m.executes) (
              and_true _ _
                ((text_eq_iff i.approval.request.policy_effect (codes "hunt")).1 m.for_hunt)
                (and_true _ _ ((text_eq_iff i.approval.request.target i.subject_id).1 m.for_subject)
                  (and_true _ _
                    (and_true _ _
                      ((==_iff (length i.approval.request.network) (length r.destinations)).1
                        m.no_more)
                      ((all-has_iff r.destinations i.approval.request.network).1
                        m.destinations_approved))
                    (ap or_false
                      ((is_approval_usable-Usable_iff p i.approval i.at).1 m.usable))))))))
