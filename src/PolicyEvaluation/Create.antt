-- ===== src/PolicyEvaluation/Create.antt =====
-- What `createPolicyEvaluation` builds, and documents that say PASS
-- (packages/shared/src/policy-evaluation.ts).
use verglos_cli.Prelude.{
  ℕ, ◌≡◌, sym, ap, ◌∙◌, ◌≢◌, true, Option, none, some, [], arith, In, All, All-of_In, All-map,
  All-In,
}
use verglos_cli.Text.{Text}
use verglos_cli.Text.Order.{text_eq_iff}
use verglos_cli.Formats.{long_text}
use verglos_cli.Contracts.{
  truthy, is_text, if_present, raise, flat_map_from, ok, ◌>>=◌, assert_compatible,
}
use verglos_cli.Contracts.Laws.{
  IsRead, raise_clear, flat_map_from_clear, parse-eq-ok, parse_clean, assert_compatible_any,
}
use verglos_cli.PolicyEvaluation.{
  matched, PolicyCheck, EvaluationReason, PolicyEvaluationInput, pass, PolicyEvaluationDocument,
}
use verglos_cli.PolicyEvaluation.Derive.{derive_decision, text_or_empty}
use verglos_cli.PolicyEvaluation.Validate.{EvaluationIssue, input_issues}
use verglos_cli.PolicyEvaluation.Parse.{
  parse_input, reason_fields, document_fields, refine_derived, refine_derived_rows,
  document_fields_rows, reason_fields_rows, document_issues, parse_policy_evaluation, with_derived,
  create_policy_evaluation,
}
use verglos_cli.PolicyEvaluation.Equality.{decision_eq_refl, same_reasons_refl}
use verglos_cli.PolicyEvaluation.Outcome.{derive-decision_iff, derive-exit_code, unmatched_iff}
use verglos_cli.PolicyEvaluation.Reasons.{
  IsWellFormed, HasFormats, derive-reasons_size, derive-reasons_IsWellFormed,
}
use verglos_cli.PolicyEvaluation.Accepted.{
  parse-IsAccepted, IsCurrentlySatisfied, HasReadTimes, check-IsClear, identity-IsClear,
  fields-IsClear, satisfied-IsCurrentlySatisfied,
}

-- An accepted document whose decision is PASS, and of whose timestamps `Date.parse` reads the
-- evaluation's and those of each check's `checkedAt` and `validUntil`, names its own subject as the
-- one observed, and each of its checks is satisfied, with evidence, checked no later than the
-- evaluation, and valid beyond the instant of the evaluation.
pub parse-pass :
    (d e : PolicyEvaluationDocument)
    → parse_policy_evaluation d ≡ ok e
    → e.decision ≡ pass
    → IsRead e.input.evaluated_at
    → All HasReadTimes e.input.checks
    → (e.input.subject_match.observed_subject_id ≡ some e.input.subject_id)
      × All (IsCurrentlySatisfied e.input.evaluated_at) e.input.checks
parse-pass d e h p at times =
    let (same, a) = parse-IsAccepted d e h in
    let passed : (derive_decision d.input).decision ≡ pass =
      ap PolicyEvaluationDocument.decision (sym a.derived ∙ same) ∙ p in
    let (named, clean) = (derive-decision_iff d.input pass).0 passed in
    rw (← same) (
      observed d.input.subject_match.observed_subject_id d.input.subject_id
          (ground (arith, (identity-IsClear d.input a.clean).0, named)),
      All-of_In d.input.checks λ c m.
          satisfied-IsCurrentlySatisfied d.input a.clean c m (All-In _ d.input.checks clean m)
            (rw same at) (All-In HasReadTimes d.input.checks (rw same times) m),
    )
  where
    observed : (o : Option Text) (s : Text) → is_text o s ≡ true → o ≡ some s
    observed none s q = cc
    observed (some t) s q = ap some ((text_eq_iff t s).0 q)

module _ (v : PolicyEvaluationInput) (clean : input_issues v ≡ []) where
  check-HasFormats : (c : PolicyCheck) → In c v.checks → HasFormats c
  check-HasFormats c m =
      let (n, fields, refined) = check-IsClear v clean c m in
      ground (arith, fields.0, fields.1.1.1.0, fields.1.1.1.1.0, fields.1.1.1.1.1.0)

  identity_format :
      v.subject_match.status ≢ matched → long_text (text_or_empty v.subject_match.reason) ≡ true
  identity_format n =
      present v.subject_match.reason
        (ground (arith, (identity-IsClear v clean).1.1.1.0, unmatched_iff v.subject_match.status))
        (ground (arith, (fields-IsClear v clean).1.1.1.1.0))
    where
      present :
          (o : Option Text)
          → truthy o ≡ true
          → if_present long_text o ≡ true
          → long_text (text_or_empty o) ≡ true
      present none p q = cc
      present (some t) p q = q

  reason_clear : (n : ℕ) (r : EvaluationReason) → IsWellFormed r → reason_fields n r ≡ []
  unfolding reason_fields
  reason_clear n r (id, detail, owner, action) = raise_clear (reason_fields_rows n r) (
    ground (arith, id),
    (ground (arith, detail), (ground (arith, owner), (ground (arith, action), tt))),
  )

  derived-fields : document_fields (with_derived v) ≡ []
  unfolding document_fields
  derived-fields =
      let size = derive-reasons_size v in
      let rows : raise (document_fields_rows (with_derived v)) ≡ [] =
        raise_clear (document_fields_rows (with_derived v)) (
          ground (arith, derive-exit_code v),
          (ground (arith, size, (fields-IsClear v clean).1.1.1.1.1.0), tt),
        ) in
      let reasons : flat_map_from reason_fields 0 (derive_decision v).reasons ≡ [] =
        flat_map_from_clear reason_fields 0 (derive_decision v).reasons λ n.
          All-map (reason_clear n) (derive_decision v).reasons
            (derive-reasons_IsWellFormed v (All-of_In v.checks check-HasFormats) identity_format) in
      rw (rows, reasons)

  derived-refined : refine_derived (with_derived v) ≡ []
  unfolding refine_derived
  derived-refined =
      let d = derive_decision v in
      raise_clear (refine_derived_rows (with_derived v)) (
        ground (arith, decision_eq_refl d.decision),
        (ground arith, (ground (arith, same_reasons_refl d.reasons), tt)),
      )

parse-with_derived :
    (v : PolicyEvaluationInput)
    → input_issues v ≡ []
    → assert_compatible {I = EvaluationIssue} v.schema_version v ≡ ok v
    → parse_policy_evaluation (with_derived v) ≡ ok (with_derived v)
unfolding parse_policy_evaluation document_issues
parse-with_derived v clean version =
    parse_clean (λ (p : PolicyEvaluationDocument). p.input.schema_version)
      (document_issues (with_derived v)) (with_derived v)
      (rw (clean, derived-fields v clean, derived-refined v clean))
      (assert_compatible_any v.schema_version v (with_derived v) version)

-- `createPolicyEvaluation` returns the input with its derived decision, for each input that
-- `parseInput` accepts: the document that it builds is never refused.
pub create_policy_evaluation-total :
    (v w : PolicyEvaluationInput)
    → parse_input v ≡ ok w
    → create_policy_evaluation v ≡ ok (with_derived v)
unfolding parse_input create_policy_evaluation
create_policy_evaluation-total v w h =
    let (clean, same, version) =
      parse-eq-ok (λ (p : PolicyEvaluationInput). p.schema_version) (input_issues v) v h in
    let accepted : parse_input v ≡ ok v = h ∙ ap ok (sym same) in
    ap (λ m. m >>= (λ (p : PolicyEvaluationInput). parse_policy_evaluation (with_derived p)))
      accepted
    ∙ parse-with_derived v clean version
