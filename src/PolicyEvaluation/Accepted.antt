-- ===== src/PolicyEvaluation/Accepted.antt =====
-- What an accepted policy evaluation has passed.
use verglos_cli.Prelude.{ℕ, ◌≡◌, refl, sym, ◌∙◌, ◌≢◌, false, Option, none, some, [], arith, In}
use verglos_cli.Contracts.{Time, flat_map_from, ok, assert_compatible}
use verglos_cli.Contracts.Laws.{
  Before, AtMost, IsRead, IsReadIfPresent, no_later-eq-false_iff, earlier-eq-false_iff, IsClear,
  append-eq-nil, raise-eq-nil, flat_map_from-eq-nil, parse-eq-ok,
}
use verglos_cli.PolicyEvaluation.{
  current, satisfied, PolicyCheck, PolicyEvaluationInput, PolicyEvaluationDocument,
}
use verglos_cli.PolicyEvaluation.Derive.{derive_decision}
use verglos_cli.PolicyEvaluation.Validate.{
  EvaluationIssue, check_fields, check_fields_rows, refine_check_rows, input_fields_rows,
  refine_identity_rows, refine_freshness_rows, elapsed_or_absent, check_issues, input_fields,
  refine_identity, refine_freshness, refine_evaluation_input, input_issues,
}
use verglos_cli.PolicyEvaluation.Parse.{
  document_fields, refine_derived, refine_derived_rows, document_issues, parse_policy_evaluation,
  with_derived,
}
use verglos_cli.PolicyEvaluation.Equality.{eq_of_decision_eq, eq_of_same_reasons}

-- An accepted document has no issue, is returned as it is, and carries the derived decision.
pub record IsAccepted (d : PolicyEvaluationDocument) : Type 0 where
  pub clean : input_issues d.input ≡ []
  pub fields : document_fields d ≡ []
  pub derived : d ≡ with_derived d.input
  pub compatible : assert_compatible {I = EvaluationIssue} d.input.schema_version d ≡ ok d

refined-derived : (d : PolicyEvaluationDocument) → refine_derived d ≡ [] → d ≡ with_derived d.input
unfolding refine_derived
refined-derived d h =
    let (decision, (code, (reasons, done))) = raise-eq-nil (refine_derived_rows d) h in
    ground (
      arith,
      decision,
      code,
      reasons,
      eq_of_decision_eq d.decision (derive_decision d.input).decision,
      eq_of_same_reasons d.reasons (derive_decision d.input).reasons,
    )

pub parse-IsAccepted :
    (d e : PolicyEvaluationDocument) → parse_policy_evaluation d ≡ ok e → (d ≡ e) × IsAccepted d
unfolding parse_policy_evaluation document_issues
parse-IsAccepted d e h =
    let (clear, same, version) =
      parse-eq-ok (λ (p : PolicyEvaluationDocument). p.input.schema_version) (document_issues d) d
        h in
    let (clean, rest) = append-eq-nil (input_issues d.input) _ clear in
    let (fields, refined) = append-eq-nil (document_fields d) _ rest in
    (
      same,
      record {
        clean = clean;
        fields = fields;
        derived = refined-derived d refined;
        compatible = version;
      },
    )

-- `parsePolicyEvaluation` returns what it is given, and accepts no decision, exit code or reasons
-- but those that `deriveDecision` computes from the recorded facts.
pub parse_policy_evaluation-derived :
    (d e : PolicyEvaluationDocument)
    → parse_policy_evaluation d ≡ ok e
    → (e ≡ d) × (e ≡ with_derived d.input)
parse_policy_evaluation-derived d e h =
    let (same, a) = parse-IsAccepted d e h in (sym same, sym same ∙ a.derived)

-- What stands in the facts about one check of a passing evaluation.
abbrev pub IsCurrentlySatisfied : Time → PolicyCheck → Type 0
IsCurrentlySatisfied at c =
    (c.status ≡ satisfied)
    × (c.evidence_digests ≢ [])
    × (c.freshness.status ≡ current)
    × AtMost c.freshness.checked_at at
    × ((until : Time) × (c.freshness.valid_until ≡ some until) × Before at until)

-- The timestamps that a check's freshness rests on are read.
abbrev pub HasReadTimes : PolicyCheck → Type 0
HasReadTimes c = IsRead c.freshness.checked_at × IsReadIfPresent c.freshness.valid_until

until_ahead :
    (at : Time) (valid_until : Option Time)
    → IsRead at
    → IsReadIfPresent valid_until
    → elapsed_or_absent at valid_until ≡ false
    → (until : Time) × (valid_until ≡ some until) × Before at until
until_ahead at none r s h = cc
until_ahead at (some until) r s h = (until, refl, (no_later-eq-false_iff at until r s).0 h)

module _ (v : PolicyEvaluationInput) (clean : input_issues v ≡ []) where
  parts :
      (input_fields v ≡ [])
      × (flat_map_from check_issues 0 v.checks ≡ [])
      × (refine_identity v ≡ [])
      × (flat_map_from (refine_freshness v.evaluated_at) 0 v.checks ≡ [])
  unfolding input_issues refine_evaluation_input
  parts =
      let (fields, rest) = append-eq-nil (input_fields v) _ clean in
      let (checks, refined) = append-eq-nil (flat_map_from check_issues 0 v.checks) _ rest in
      let (identity, freshness) = append-eq-nil (refine_identity v) _ refined in
      (fields, checks, identity, freshness)

  pub check-IsClear :
      (c : PolicyCheck)
      → In c v.checks
      → (n : ℕ) × IsClear (check_fields_rows n c) × IsClear (refine_check_rows n c)
  unfolding check_issues
  check-IsClear c m =
      let (n, quiet) = flat_map_from-eq-nil check_issues 0 v.checks parts.1 m in
      let (fields, refined) = append-eq-nil (check_fields n c) _ quiet in
      (n, raise-eq-nil (check_fields_rows n c) fields, raise-eq-nil (refine_check_rows n c) refined)

  pub freshness-IsClear :
      (c : PolicyCheck)
      → In c v.checks
      → (n : ℕ) × IsClear (refine_freshness_rows v.evaluated_at n c)
  unfolding refine_freshness
  freshness-IsClear c m =
      let (n, quiet) =
        flat_map_from-eq-nil (refine_freshness v.evaluated_at) 0 v.checks parts.3 m in
      (n, raise-eq-nil (refine_freshness_rows v.evaluated_at n c) quiet)

  pub identity-IsClear : IsClear (refine_identity_rows v)
  unfolding refine_identity
  identity-IsClear = raise-eq-nil (refine_identity_rows v) parts.2

  pub fields-IsClear : IsClear (input_fields_rows v)
  unfolding input_fields
  fields-IsClear = raise-eq-nil (input_fields_rows v) parts.0

  pub satisfied-IsCurrentlySatisfied :
      (c : PolicyCheck)
      → In c v.checks
      → c.status ≡ satisfied
      → IsRead v.evaluated_at
      → HasReadTimes c
      → IsCurrentlySatisfied v.evaluated_at c
  satisfied-IsCurrentlySatisfied c m s at (checked, until) =
      let (n, fields, refined) = check-IsClear c m in
      let (k, fresh) = freshness-IsClear c m in
      (
        s,
        ground (arith, refined.1.1.0),
        ground (arith, refined.1.1.1.1.0),
        (earlier-eq-false_iff c.freshness.checked_at v.evaluated_at checked at).0 fresh.0,
        until_ahead v.evaluated_at c.freshness.valid_until at until
            (ground (arith, fresh.1.1.0, refined.1.1.1.1.0)),
      )
