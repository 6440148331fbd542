-- ===== src/PolicyException/Applies.antt =====
-- When a policy exception applies.
use verglos_cli.Prelude.{◌≡◌, refl, ◌↔◌, true, false, Option, none, some, [], arith, In}
use mathlib.Core.Path.{subst}
use verglos_cli.Text.{Text, text_eq}
use verglos_cli.Text.Order.{text_eq_iff}
use verglos_cli.Text.Sets.{has, has_iff}
use verglos_cli.Formats.{Algorithm, sha256, algorithm_eq}
use verglos_cli.Contracts.{Time, earlier, no_later, ok, is_some}
use verglos_cli.Contracts.Laws.{
  Before, AtMost, IsRead, IsReadIfPresent, no_later-eq-false_iff, earlier-eq-false_iff,
  Before-AtMost, IsClear, raise-eq-nil, >>=-same, parse-eq-ok,
}
use verglos_cli.PolicyException.{PolicyException, approved, ApprovalTarget, ExceptionApproval}
use verglos_cli.PolicyException.Validate.{
  exception_issues, approval_issues, approval_rows, parse_policy_exception, is_approved,
  parse_exception_approval,
}
use verglos_cli.PolicyException.Evaluate.{
  Applicability, ExceptionQuery, later_than, reached, targets, applicability, check_query,
  evaluate_policy_exception,
}

-- An approval covers an instant: it ends no later than the exception does, and after the instant.
pub record Covers (a : ExceptionApproval) (e : PolicyException) (at : Time) : Type 0 where
  pub until : Time
  pub bounded : a.valid_until ≡ some until
  pub within : AtMost until e.expires_at
  pub ahead : Before at until

-- `Date.parse` reads the timestamps of the exception, of the approval and of the query.
pub record TimesRead (e : PolicyException) (a : ExceptionApproval) (q : ExceptionQuery)
    : Type 0 where
  pub requested : IsRead e.requested_at
  pub effective : IsRead e.effective_from
  pub expiry : IsRead e.expires_at
  pub decided : IsRead a.decided_at
  pub until : IsReadIfPresent a.valid_until
  pub now : IsRead q.at

-- The approval is for this very request, it was decided between the request and its expiry, it
-- approves, and the query lies in the time, the subject and the observations of the exception.
pub record Applies (digest : Text) (e : PolicyException) (a : ExceptionApproval)
    (q : ExceptionQuery) : Type 0 where
  pub same_exception : a.target.exception_id ≡ e.exception_id
  pub same_algorithm : a.target.request_digest.algorithm ≡ sha256
  pub same_digest : a.target.request_digest.value ≡ digest
  pub after_request : AtMost e.requested_at a.decided_at
  pub before_expiry : Before a.decided_at e.expires_at
  pub approves : a.decision ≡ approved
  pub effective : AtMost e.effective_from q.at
  pub covered : Covers a e q.at
  pub same_subject : q.subject_id ≡ e.scope.subject_id
  pub in_scope : In q.observation_id e.scope.observation_ids

algorithm_eq_iff : (a b : Algorithm) → (algorithm_eq a b ≡ true) ↔ (a ≡ b)
algorithm_eq_iff a b = ground arith

targets_iff :
    (t : ApprovalTarget) (id digest : Text)
    → (targets t id digest ≡ true) ↔ (
        (t.exception_id ≡ id)
        × (t.request_digest.algorithm ≡ sha256)
        × (t.request_digest.value ≡ digest))
targets_iff t id digest = ground (
  arith,
  text_eq_iff t.exception_id id,
  algorithm_eq_iff t.request_digest.algorithm sha256,
  text_eq_iff t.request_digest.value digest,
)

-- The tests that lead to the last branch.
passes :
    (digest : Text) (e : PolicyException) (a : ExceptionApproval) (q : ExceptionQuery)
    → ((applicability digest e a q).is_applicable ≡ true) ↔ (
        (targets a.target e.exception_id digest ≡ true)
        × (earlier a.decided_at e.requested_at ≡ false)
        × (no_later e.expires_at a.decided_at ≡ false)
        × (is_approved a.decision ≡ true)
        × (later_than a.valid_until e.expires_at ≡ false)
        × (earlier q.at e.effective_from ≡ false)
        × (no_later e.expires_at q.at ≡ false)
        × (reached q.at a.valid_until ≡ false)
        × (text_eq q.subject_id e.scope.subject_id ≡ true)
        × (has q.observation_id e.scope.observation_ids ≡ true))
unfolding applicability
passes digest e a q = ground arith

Covers-of :
    (a : ExceptionApproval) (e : PolicyException) (at : Time)
    → IsRead e.expires_at
    → IsReadIfPresent a.valid_until
    → IsRead at
    → is_some a.valid_until ≡ true
    → later_than a.valid_until e.expires_at ≡ false
    → reached at a.valid_until ≡ false
    → Covers a e at
Covers-of a e at x r now h k l = go a.valid_until refl r h k l
  where
    go :
        (o : Option Time)
        → a.valid_until ≡ o
        → IsReadIfPresent o
        → is_some o ≡ true
        → later_than o e.expires_at ≡ false
        → reached at o ≡ false
        → Covers a e at
    go none p r h k l = cc
    go (some u) p r h k l = record {
      until = u;
      bounded = p;
      within = (earlier-eq-false_iff u e.expires_at r x).0 k;
      ahead = (no_later-eq-false_iff at u now r).0 l;
    }

Covers-tests :
    (a : ExceptionApproval) (e : PolicyException) (at : Time)
    → IsRead e.expires_at
    → IsReadIfPresent a.valid_until
    → IsRead at
    → Covers a e at
    → (later_than a.valid_until e.expires_at ≡ false)
      × (no_later e.expires_at at ≡ false)
      × (reached at a.valid_until ≡ false)
Covers-tests a e at x r now c =
    let read : IsRead c.until = subst IsReadIfPresent c.bounded r in
    rw c.bounded (
      (earlier-eq-false_iff c.until e.expires_at read x).1 c.within,
      (no_later-eq-false_iff at e.expires_at now x).1
          (Before-AtMost at c.until e.expires_at c.ahead c.within),
      (no_later-eq-false_iff at c.until now read).1 c.ahead,
    )

passes-Applies :
    (digest : Text) (e : PolicyException) (a : ExceptionApproval) (q : ExceptionQuery)
    → approval_issues a ≡ []
    → TimesRead e a q
    → (applicability digest e a q).is_applicable ≡ true
    → Applies digest e a q
unfolding approval_issues
passes-Applies digest e a q clean r h =
    let (target, requested, expiry, approves, outlives, effective, before, over, subject, scope) =
      (passes digest e a q).0 h in
    let (exception, algorithm, value) = (targets_iff a.target e.exception_id digest).0 target in
    let rows : IsClear (approval_rows a) = raise-eq-nil (approval_rows a) clean in
    record {
      same_exception = exception;
      same_algorithm = algorithm;
      same_digest = value;
      after_request =
          (earlier-eq-false_iff e.requested_at a.decided_at r.requested r.decided).0 requested;
      before_expiry = (no_later-eq-false_iff a.decided_at e.expires_at r.decided r.expiry).0 expiry;
      approves = ground (arith, approves);
      effective = (earlier-eq-false_iff e.effective_from q.at r.effective r.now).0 effective;
      covered =
          Covers-of a e q.at r.expiry r.until r.now (ground (arith, approves, rows.1.1.1.1.1.1.0))
            outlives over;
      same_subject = (text_eq_iff q.subject_id e.scope.subject_id).0 subject;
      in_scope = (has_iff q.observation_id e.scope.observation_ids).0 scope;
    }

Applies-passes :
    (digest : Text) (e : PolicyException) (a : ExceptionApproval) (q : ExceptionQuery)
    → TimesRead e a q
    → Applies digest e a q
    → (applicability digest e a q).is_applicable ≡ true
Applies-passes digest e a q r p =
    let (outlives, before, over) = Covers-tests a e q.at r.expiry r.until r.now p.covered in
    (passes digest e a q).1 (
      (targets_iff a.target e.exception_id digest).1
          (p.same_exception, p.same_algorithm, p.same_digest),
      (earlier-eq-false_iff e.requested_at a.decided_at r.requested r.decided).1 p.after_request,
      (no_later-eq-false_iff a.decided_at e.expires_at r.decided r.expiry).1 p.before_expiry,
      ground (arith, p.approves),
      outlives,
      (earlier-eq-false_iff e.effective_from q.at r.effective r.now).1 p.effective,
      before,
      over,
      (text_eq_iff q.subject_id e.scope.subject_id).1 p.same_subject,
      (has_iff q.observation_id e.scope.observation_ids).1 p.in_scope,
    )

exception-eq-ok :
    (e f : PolicyException) → parse_policy_exception e ≡ ok f → (exception_issues e ≡ []) × (e ≡ f)
unfolding parse_policy_exception
exception-eq-ok e f h =
    let (clean, same, _) =
      parse-eq-ok (λ (p : PolicyException). p.schema_version) (exception_issues e) e h in
    (clean, same)

approval-eq-ok :
    (a b : ExceptionApproval)
    → parse_exception_approval a ≡ ok b
    → (approval_issues a ≡ []) × (a ≡ b)
unfolding parse_exception_approval
approval-eq-ok a b h =
    let (clean, same, _) =
      parse-eq-ok (λ (p : ExceptionApproval). p.schema_version) (approval_issues a) a h in
    (clean, same)

query-eq-ok : (p q : ExceptionQuery) → check_query p ≡ ok q → p ≡ q
query-eq-ok p q h = ground arith

module _ (digest_policy_exception : PolicyException → Text) where
  -- What a result of `evaluatePolicyException` is the result of.
  evaluate_inversion :
      (e : PolicyException) (a : ExceptionApproval) (q : ExceptionQuery) (r : Applicability)
      → evaluate_policy_exception digest_policy_exception e a q ≡ ok r
      → (approval_issues a ≡ []) × (applicability (digest_policy_exception e) e a q ≡ r)
  unfolding evaluate_policy_exception
  evaluate_inversion e a q r h =
      let (he, h1) = >>=-same (parse_policy_exception e) e _ (λ f k. (exception-eq-ok e f k).1) h in
      let (ha, h2) =
        >>=-same (parse_exception_approval a) a _ (λ b k. (approval-eq-ok a b k).1) h1 in
      let (hq, h3) = >>=-same (check_query q) q _ (query-eq-ok q) h2 in
      ((approval-eq-ok a a ha).0, cc h3)

  -- Whenever `evaluatePolicyException` returns, and `Date.parse` reads the timestamps of the
  -- exception, of the approval and of the query, it says that the exception applies exactly where
  -- the approval is for this very request and approves it, was decided between the request and the
  -- exception's expiry, and covers an instant that lies between the start of the exception and the
  -- end of the approval, and the subject and the observation are those of the scope.
  pub evaluate-Applies_iff :
      (e : PolicyException) (a : ExceptionApproval) (q : ExceptionQuery) (r : Applicability)
      → evaluate_policy_exception digest_policy_exception e a q ≡ ok r
      → TimesRead e a q
      → (r.is_applicable ≡ true) ↔ Applies (digest_policy_exception e) e a q
  evaluate-Applies_iff e a q r h times =
      let (clean, same) = evaluate_inversion e a q r h in
      rw (← same) (
        (λ k. passes-Applies (digest_policy_exception e) e a q clean times k),
        λ p. Applies-passes (digest_policy_exception e) e a q times p,
      )
