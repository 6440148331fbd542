-- ===== src/PolicyEvaluation/Tests.antt =====
-- Runs of the policy evaluation, and its theorems at them.
use verglos_cli.Prelude.{◌≡◌, refl, ◌↔◌, none, some, List, [], ◌∷◌, arith, In, All}
use verglos_cli.Text.{Text, codes}
use verglos_cli.Samples.{some_digest, some_subject, some_uuid, formats}
use verglos_cli.Contracts.{ok}
use verglos_cli.PolicyEvaluation.{
  PolicyEvaluationDocument, matched, current, unknown, Freshness, required, OnFailure, satisfied,
  missing, PolicyCheck, PolicyEvaluationInput, pass, incomplete,
}
use verglos_cli.PolicyEvaluation.Derive.{
  derive_decision, reasons_or_satisfied, tally_checks, tally_check, identity_tally,
}
use verglos_cli.PolicyEvaluation.Validate.{
  check_issues, input_fields, refine_evaluation_input, input_issues,
}
use verglos_cli.PolicyEvaluation.Parse.{
  parse_input, reason_fields, document_fields, refine_derived, document_issues,
  parse_policy_evaluation, with_derived, create_policy_evaluation,
}
use verglos_cli.PolicyEvaluation.Outcome.{IsDecided, derive-decision_iff}
use verglos_cli.PolicyEvaluation.Reasons.{derive-order_free, derive-reasons, expected_reasons}
use verglos_cli.PolicyEvaluation.Accepted.{IsCurrentlySatisfied, parse_policy_evaluation-derived}
use verglos_cli.PolicyEvaluation.Create.{parse-pass, create_policy_evaluation-total}

abbrev fresh : Freshness
fresh = record {
  status = current;
  checked_at = some 90;
  source_updated_at = some (some 80);
  valid_until = some (some 200);
}

abbrev absent : Freshness
absent = record {
  status = unknown;
  checked_at = some 90;
  source_updated_at = none;
  valid_until = none;
}

abbrev clean_check : Text → PolicyCheck
clean_check id = record {
  id = id;
  requirement = required;
  on_failure = OnFailure.block;
  status = satisfied;
  evidence_digests = some_digest ∷ [];
  observation_ids = some_uuid ∷ [];
  freshness = fresh;
  owner = codes "release-owner";
  reason = codes "No critical finding.";
  next_action = codes "None.";
}

abbrev missing_check : Text → PolicyCheck
missing_check id = record (clean_check id) {
  status = missing;
  evidence_digests = [];
  observation_ids = [];
  freshness = absent;
}

abbrev input_with : List PolicyCheck → PolicyEvaluationInput
input_with checks = record {
  schema_version = codes "1.0.0";
  evaluation_id = some_uuid;
  policy = record { id = codes "policy-free"; version = codes "1.0.0"; digest = some_digest };
  subject_id = some_subject;
  subject_match = record {
    status = matched;
    observed_subject_id = some some_subject;
    reason = none;
  };
  evaluated_at = some 100;
  checks = checks;
  limitations = codes "Static evidence only." ∷ [];
}

abbrev pub two_clean : List PolicyCheck
two_clean = clean_check (codes "b-check") ∷ clean_check (codes "a-check") ∷ []

-- The document that creation makes of the clean input.
abbrev pub evaluated : PolicyEvaluationDocument
evaluated = with_derived (input_with two_clean)

abbrev one_missing : List PolicyCheck
one_missing = clean_check (codes "b-check") ∷ missing_check (codes "a-check") ∷ []

deriving_code : Unit {0}
unfolding derive_decision tally_checks tally_check identity_tally
deriving_code = tt

unfoldable pub parsing : Unit {0}
unfolding formats deriving_code input_issues input_fields check_issues refine_evaluation_input
    document_issues document_fields reason_fields refine_derived parse_input parse_policy_evaluation
    create_policy_evaluation
parsing = tt

parse_input_test : parse_input (input_with two_clean) ≡ ok (input_with two_clean)
unfolding parsing
parse_input_test = refl

decision_tests :
    ((derive_decision (input_with two_clean)).decision ≡ pass)
    × ((derive_decision (input_with one_missing)).decision ≡ incomplete)
unfolding deriving_code
decision_tests = (refl, refl)

create_policy_evaluation-total_example :
    create_policy_evaluation (input_with two_clean) ≡ ok (with_derived (input_with two_clean))
create_policy_evaluation-total_example =
    create_policy_evaluation-total (input_with two_clean) (input_with two_clean) parse_input_test

accepted_test :
    parse_policy_evaluation (with_derived (input_with two_clean))
    ≡ ok (with_derived (input_with two_clean))
unfolding parsing
accepted_test = refl

parse_policy_evaluation-derived_example :
    (with_derived (input_with two_clean) ≡ with_derived (input_with two_clean))
    × (with_derived (input_with two_clean) ≡ with_derived (input_with two_clean))
parse_policy_evaluation-derived_example =
    parse_policy_evaluation-derived (with_derived (input_with two_clean))
      (with_derived (input_with two_clean)) accepted_test

parse-pass_example :
    (some some_subject ≡ some some_subject) × All (IsCurrentlySatisfied (some 100)) two_clean
parse-pass_example =
    parse-pass (with_derived (input_with two_clean)) (with_derived (input_with two_clean))
      accepted_test decision_tests.0 refl ((refl, refl), ((refl, refl), tt))

-- A validity that `Date.parse` cannot read does not elapse.
abbrev unread : PolicyEvaluationInput
unread = input_with (
    record (clean_check (codes "a-check")) { freshness = record fresh { valid_until = some none } }
    ∷ [])

unread_test : parse_policy_evaluation (with_derived unread) ≡ ok (with_derived unread)
unfolding parsing
unread_test = refl

derive-decision_iff_example :
    ((derive_decision (input_with one_missing)).decision ≡ incomplete)
    ↔ IsDecided (input_with one_missing) incomplete
derive-decision_iff_example = derive-decision_iff (input_with one_missing) incomplete

abbrev swapped : List PolicyCheck
swapped = missing_check (codes "a-check") ∷ clean_check (codes "b-check") ∷ []

same_members : (c : PolicyCheck) → In c one_missing ↔ In c swapped
same_members c = ground arith

derive-order_free_example :
    derive_decision (input_with one_missing) ≡ derive_decision (input_with swapped)
derive-order_free_example =
    derive-order_free (input_with one_missing) (input_with swapped) refl same_members
      (refl, (refl, tt)) (refl, (refl, tt))

derive-reasons_example :
    (derive_decision (input_with one_missing)).reasons
    ≡ reasons_or_satisfied (expected_reasons (input_with one_missing))
derive-reasons_example = derive-reasons (input_with one_missing)
