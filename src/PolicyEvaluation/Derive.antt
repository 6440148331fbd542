-- ===== src/PolicyEvaluation/Derive.antt =====
-- packages/shared/src/policy-evaluation.ts: the decision that the recorded facts imply.
use verglos_cli.Prelude.{
  ℕ, Bool, true, false, Option, none, some, List, [], ◌∷◌, ◌++◌, if◌then◌else◌,
}
use verglos_cli.Text.{Text, codes}
use verglos_cli.Text.Sorting.{sort_by}
use verglos_cli.PolicyEvaluation.{
  matched, mismatched, unresolved, SubjectMatch, Requirement, required, advisory, OnFailure,
  CheckStatus, satisfied, failed, missing, unsupported, error, PolicyCheck, ReasonCode,
  identity_mismatch, identity_unresolved, required_check_missing, required_check_stale,
  required_check_unsupported, required_check_error, check_failed_block, check_failed_review,
  advisory_check_unavailable, requirements_satisfied, EvaluationReason, PolicyEvaluationInput,
  Decision, pass, incomplete,
}

-- POLICY_DECISION_EXIT_CODES
abbrev pub policy_decision_exit_code : Decision → ℕ
policy_decision_exit_code pass = 0
policy_decision_exit_code Decision.block = 1
policy_decision_exit_code Decision.review = 2
policy_decision_exit_code incomplete = 3

-- The local variables of `deriveDecision`.
pub record Tally : Type 0 where
  pub incomplete : Bool
  pub block : Bool
  pub review : Bool
  pub reasons : List EvaluationReason

abbrev pub text_or_empty : Option Text → Text
text_or_empty none = []
text_or_empty (some t) = t

abbrev pub identity_reason : ReasonCode → Text → EvaluationReason
identity_reason code detail = record {
  code = code;
  check_id = none;
  detail = detail;
  owner = codes "target-owner";
  next_action =
      codes "Resolve and evaluate the exact immutable subject before making a release decision.";
}

abbrev pub check_reason : ReasonCode → PolicyCheck → EvaluationReason
check_reason code check = record {
  code = code;
  check_id = some check.id;
  detail = check.reason;
  owner = check.owner;
  next_action = check.next_action;
}

abbrev pub satisfied_reason : EvaluationReason
satisfied_reason = record {
  code = requirements_satisfied;
  check_id = none;
  detail =
      codes "All recorded policy checks are satisfied with current evidence for the exact subject.";
  owner = codes "policy-owner";
  next_action = codes "Preserve the evaluation and its evidence bindings.";
}

abbrev push_reason : Tally → EvaluationReason → List EvaluationReason
push_reason t r = t.reasons ++ r ∷ []

-- The two identity branches. `reason!` is present in a validated document.
unfoldable pub identity_tally : SubjectMatch → Tally
identity_tally m =
    let start : Tally = record {
      incomplete = false;
      block = false;
      review = false;
      reasons = [];
    } in
    elim m.status [
      | matched ↦ start
      | mismatched ↦ record start {
        incomplete = true;
        reasons = identity_reason identity_mismatch (text_or_empty m.reason) ∷ [];
      }
      | unresolved ↦ record start {
        incomplete = true;
        reasons = identity_reason identity_unresolved (text_or_empty m.reason) ∷ [];
      }
    ]

unfoldable pub tally_failed : OnFailure → PolicyCheck → Tally → Tally
tally_failed OnFailure.block c t = record t {
  block = true;
  reasons = push_reason t (check_reason check_failed_block c);
}
tally_failed OnFailure.review c t = record t {
  review = true;
  reasons = push_reason t (check_reason check_failed_review c);
}

unfoldable pub tally_unavailable : Requirement → ReasonCode → PolicyCheck → Tally → Tally
tally_unavailable required code c t = record t {
  incomplete = true;
  reasons = push_reason t (check_reason code c);
}
tally_unavailable advisory code c t = record t {
  review = true;
  reasons = push_reason t (check_reason advisory_check_unavailable c);
}

-- One round of the loop over the checks.
unfoldable pub tally_check : CheckStatus → PolicyCheck → Tally → Tally
unfolding tally_failed tally_unavailable
tally_check satisfied c t = t
tally_check failed c t = tally_failed c.on_failure c t
tally_check missing c t = tally_unavailable c.requirement required_check_missing c t
tally_check CheckStatus.stale c t = tally_unavailable c.requirement required_check_stale c t
tally_check unsupported c t = tally_unavailable c.requirement required_check_unsupported c t
tally_check error c t = tally_unavailable c.requirement required_check_error c t

unfoldable pub tally_checks : List PolicyCheck → Tally → Tally
tally_checks [] t = t
tally_checks (c ∷ cs) t = tally_checks cs (tally_check c.status c t)

abbrev pub decision_of : Tally → Decision
decision_of t =
    if t.incomplete
    then incomplete
    else if t.block
    then Decision.block
    else if t.review
    then Decision.review
    else pass

abbrev pub reasons_or_satisfied : List EvaluationReason → List EvaluationReason
reasons_or_satisfied [] = satisfied_reason ∷ []
reasons_or_satisfied (r ∷ rs) = r ∷ rs

pub record Derived : Type 0 where
  pub decision : Decision
  pub exit_code : ℕ
  pub reasons : List EvaluationReason

unfoldable pub derive_decision : PolicyEvaluationInput → Derived
derive_decision v =
    let t = tally_checks (sort_by PolicyCheck.id v.checks) (identity_tally v.subject_match) in
    record {
      decision = decision_of t;
      exit_code = policy_decision_exit_code (decision_of t);
      reasons = reasons_or_satisfied t.reasons;
    }
