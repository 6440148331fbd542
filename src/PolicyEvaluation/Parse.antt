-- ===== src/PolicyEvaluation/Parse.antt =====
-- packages/shared/src/policy-evaluation.ts: parsing and creation of a document.
use verglos_cli.Prelude.{
  ℕ, Bool, true, false, not, ◌&&◌, Option, none, some, List, [], ◌∷◌, ◌++◌, leb, ◌==◌,
}
use verglos_cli.Text.{Text, codes, text_eq}
use verglos_cli.Formats.{stable_id, short_text, long_text}
use verglos_cli.Contracts.{
  if_present, size_in, raise, flat_map_from, Parsed, ◌>>=◌, accept_if_clean, assert_compatible,
}
use verglos_cli.PolicyEvaluation.{
  ReasonCode, identity_mismatch, identity_unresolved, required_check_missing, required_check_stale,
  required_check_unsupported, required_check_error, check_failed_block, check_failed_review,
  advisory_check_unavailable, requirements_satisfied, EvaluationReason, PolicyEvaluationInput,
  Decision, PolicyEvaluationDocument,
}
use verglos_cli.PolicyEvaluation.Derive.{derive_decision, policy_decision_exit_code}
use verglos_cli.PolicyEvaluation.Validate.{
  EvaluationIssue, bad_field, bad_reason_field, wrong_decision, wrong_exit_code, wrong_reasons,
  input_issues,
}

-- `parseInput`
unfoldable pub parse_input : PolicyEvaluationInput → Parsed EvaluationIssue PolicyEvaluationInput
parse_input v = do
  parsed ← accept_if_clean (input_issues v) v
  assert_compatible parsed.schema_version parsed

-- Comparison of decisions, through the codes that tell them apart.
abbrev pub decision_eq : Decision → Decision → Bool
decision_eq a b = policy_decision_exit_code a == policy_decision_exit_code b

abbrev pub reason_fields_rows : ℕ → EvaluationReason → List (Bool × EvaluationIssue)
reason_fields_rows n r =
    (not (if_present stable_id r.check_id), bad_reason_field n (codes "checkId"))
    ∷ (not (long_text r.detail), bad_reason_field n (codes "detail"))
    ∷ (not (short_text r.owner), bad_reason_field n (codes "owner"))
    ∷ (not (long_text r.next_action), bad_reason_field n (codes "nextAction"))
    ∷ []

unfoldable pub reason_fields : ℕ → EvaluationReason → List EvaluationIssue
reason_fields n r = raise (reason_fields_rows n r)

abbrev pub code_rank : ReasonCode → ℕ
code_rank identity_mismatch = 0
code_rank identity_unresolved = 1
code_rank required_check_missing = 2
code_rank required_check_stale = 3
code_rank required_check_unsupported = 4
code_rank required_check_error = 5
code_rank check_failed_block = 6
code_rank check_failed_review = 7
code_rank advisory_check_unavailable = 8
code_rank requirements_satisfied = 9

abbrev pub same_optional : Option Text → Option Text → Bool
same_optional none none = true
same_optional (some s) (some t) = text_eq s t
same_optional _ _ = false

abbrev pub same_reason : EvaluationReason → EvaluationReason → Bool
same_reason r s =
    code_rank r.code == code_rank s.code
    && same_optional r.check_id s.check_id
    && text_eq r.detail s.detail
    && text_eq r.owner s.owner
    && text_eq r.next_action s.next_action

-- `JSON.stringify(reasons) === JSON.stringify(expected)`: both sides have the keys of a reason in
-- the order of EvaluationReasonSchema, so the texts are the same where the reasons are.
abbrev pub same_reasons : List EvaluationReason → List EvaluationReason → Bool
same_reasons [] [] = true
same_reasons (r ∷ rs) (s ∷ ss) = same_reason r s && same_reasons rs ss
same_reasons _ _ = false

-- The fields that PolicyEvaluationBaseSchema adds.
abbrev pub document_fields_rows : PolicyEvaluationDocument → List (Bool × EvaluationIssue)
document_fields_rows d =
    (not (leb d.exit_code 3), bad_field (codes "exitCode"))
    ∷ (not (size_in 1 257 d.reasons), bad_field (codes "reasons"))
    ∷ []

unfoldable pub document_fields : PolicyEvaluationDocument → List EvaluationIssue
document_fields d = raise (document_fields_rows d) ++ flat_map_from reason_fields 0 d.reasons

-- The comparison with the derived decision in the `superRefine` of PolicyEvaluationDocumentSchema.
abbrev pub refine_derived_rows : PolicyEvaluationDocument → List (Bool × EvaluationIssue)
refine_derived_rows d =
    let expected = derive_decision d.input in
    (not (decision_eq d.decision expected.decision), wrong_decision)
    ∷ (not (d.exit_code == expected.exit_code), wrong_exit_code)
    ∷ (not (same_reasons d.reasons expected.reasons), wrong_reasons)
    ∷ []

unfoldable pub refine_derived : PolicyEvaluationDocument → List EvaluationIssue
refine_derived d = raise (refine_derived_rows d)

unfoldable pub document_issues : PolicyEvaluationDocument → List EvaluationIssue
document_issues d = input_issues d.input ++ (document_fields d ++ refine_derived d)

-- `parsePolicyEvaluation`
unfoldable pub parse_policy_evaluation :
    PolicyEvaluationDocument → Parsed EvaluationIssue PolicyEvaluationDocument
parse_policy_evaluation d = do
  parsed ← accept_if_clean (document_issues d) d
  assert_compatible parsed.input.schema_version parsed

-- `{ ...parsed, ...derived }`
abbrev pub with_derived : PolicyEvaluationInput → PolicyEvaluationDocument
with_derived v = record {
  input = v;
  decision = (derive_decision v).decision;
  exit_code = (derive_decision v).exit_code;
  reasons = (derive_decision v).reasons;
}

-- `createPolicyEvaluation`
unfoldable pub create_policy_evaluation :
    PolicyEvaluationInput → Parsed EvaluationIssue PolicyEvaluationDocument
create_policy_evaluation v = do
  parsed ← parse_input v
  parse_policy_evaluation (with_derived parsed)
