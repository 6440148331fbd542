-- ===== src/PolicyEvaluation/Validate.antt =====
-- packages/shared/src/policy-evaluation.ts: the issues of a validation.
use verglos_cli.Prelude.{
  ℕ, Bool, true, false, not, ◌&&◌, ◌||◌, Option, none, some, List, [], ◌∷◌, ◌++◌, map, leb, length,
  all,
}
use verglos_cli.Text.{Text, codes}
use verglos_cli.Text.Sets.{repeats}
use verglos_cli.Formats.{stable_id, uuid_urn, short_text, long_text, content_digest, subject_id}
use verglos_cli.Contracts.{
  Time, earlier, no_later, truthy, is_text, is_some, if_present, is_empty, size_in, raise,
  flat_map_from, is_version,
}
use verglos_cli.PolicyEvaluation.{
  MatchStatus, matched, mismatched, unresolved, FreshnessStatus, current, unknown, Requirement,
  required, advisory, OnFailure, CheckStatus, satisfied, failed, missing, unsupported, error,
  PolicyCheck, PolicyEvaluationInput,
}

-- The issues, one constructor for each `issue` call; a number is the position of the check.
pub data EvaluationIssue : Type 0 where
  bad_field : Text → EvaluationIssue
  bad_check_field : ℕ → Text → EvaluationIssue
  bad_reason_field : ℕ → Text → EvaluationIssue
  advisory_cannot_block : ℕ → EvaluationIssue
  repeated_observation : ℕ → EvaluationIssue
  requires_evidence : ℕ → EvaluationIssue
  cannot_claim_evidence : ℕ → EvaluationIssue
  requires_current : ℕ → EvaluationIssue
  requires_stale : ℕ → EvaluationIssue
  requires_unknown : ℕ → EvaluationIssue
  matched_must_equal : EvaluationIssue
  mismatched_needs_other : EvaluationIssue
  unresolved_cannot_observe : EvaluationIssue
  mismatch_needs_reason : EvaluationIssue
  repeated_check : EvaluationIssue
  checked_after_evaluation : ℕ → EvaluationIssue
  updated_after_check : ℕ → EvaluationIssue
  current_needs_future : ℕ → EvaluationIssue
  stale_needs_elapsed : ℕ → EvaluationIssue
  unknown_cannot_bound : ℕ → EvaluationIssue
  wrong_decision : EvaluationIssue
  wrong_exit_code : EvaluationIssue
  wrong_reasons : EvaluationIssue

abbrev pub is_matched : MatchStatus → Bool
is_matched matched = true
is_matched _ = false

abbrev pub is_mismatched : MatchStatus → Bool
is_mismatched mismatched = true
is_mismatched _ = false

abbrev pub is_unresolved : MatchStatus → Bool
is_unresolved unresolved = true
is_unresolved _ = false

abbrev pub is_current : FreshnessStatus → Bool
is_current current = true
is_current _ = false

abbrev pub is_stale : FreshnessStatus → Bool
is_stale FreshnessStatus.stale = true
is_stale _ = false

abbrev pub is_unknown : FreshnessStatus → Bool
is_unknown unknown = true
is_unknown _ = false

abbrev pub is_advisory : Requirement → Bool
is_advisory advisory = true
is_advisory required = false

abbrev pub is_review : OnFailure → Bool
is_review OnFailure.review = true
is_review OnFailure.block = false

-- ["satisfied", "failed", "stale"].includes(status)
abbrev pub wants_evidence : CheckStatus → Bool
wants_evidence satisfied = true
wants_evidence failed = true
wants_evidence CheckStatus.stale = true
wants_evidence _ = false

-- ["missing", "unsupported"].includes(status)
abbrev pub bars_evidence : CheckStatus → Bool
bars_evidence missing = true
bars_evidence unsupported = true
bars_evidence _ = false

-- ["satisfied", "failed"].includes(status)
abbrev pub wants_current : CheckStatus → Bool
wants_current satisfied = true
wants_current failed = true
wants_current _ = false

abbrev pub is_stale_check : CheckStatus → Bool
is_stale_check CheckStatus.stale = true
is_stale_check _ = false

-- ["missing", "unsupported", "error"].includes(status)
abbrev pub wants_unknown : CheckStatus → Bool
wants_unknown missing = true
wants_unknown unsupported = true
wants_unknown error = true
wants_unknown _ = false

-- The formats and sizes of PolicyCheckSchema.
abbrev pub check_fields_rows : ℕ → PolicyCheck → List (Bool × EvaluationIssue)
check_fields_rows n c =
    (not (stable_id c.id), bad_check_field n (codes "id"))
    ∷ (
      not (leb (length c.evidence_digests) 64 && all content_digest c.evidence_digests),
      bad_check_field n (codes "evidenceDigests"),
    )
    ∷ (
      not (leb (length c.observation_ids) 100 && all uuid_urn c.observation_ids),
      bad_check_field n (codes "observationIds"),
    )
    ∷ (not (short_text c.owner), bad_check_field n (codes "owner"))
    ∷ (not (long_text c.reason), bad_check_field n (codes "reason"))
    ∷ (not (long_text c.next_action), bad_check_field n (codes "nextAction"))
    ∷ []

unfoldable pub check_fields : ℕ → PolicyCheck → List EvaluationIssue
check_fields n c = raise (check_fields_rows n c)

-- The `superRefine` of PolicyCheckSchema.
abbrev pub refine_check_rows : ℕ → PolicyCheck → List (Bool × EvaluationIssue)
refine_check_rows n c =
    let has_evidence = not (is_empty c.evidence_digests) in
    let fresh = c.freshness.status in
    (is_advisory c.requirement && not (is_review c.on_failure), advisory_cannot_block n)
    ∷ (repeats c.observation_ids, repeated_observation n)
    ∷ (wants_evidence c.status && not has_evidence, requires_evidence n)
    ∷ (bars_evidence c.status && has_evidence, cannot_claim_evidence n)
    ∷ (wants_current c.status && not (is_current fresh), requires_current n)
    ∷ (is_stale_check c.status && not (is_stale fresh), requires_stale n)
    ∷ (wants_unknown c.status && not (is_unknown fresh), requires_unknown n)
    ∷ []

unfoldable pub refine_check : ℕ → PolicyCheck → List EvaluationIssue
refine_check n c = raise (refine_check_rows n c)

unfoldable pub check_issues : ℕ → PolicyCheck → List EvaluationIssue
unfolding check_fields refine_check
check_issues n c = check_fields n c ++ refine_check n c

-- The formats and sizes of PolicyEvaluationInputBaseSchema outside its checks.
abbrev pub input_fields_rows : PolicyEvaluationInput → List (Bool × EvaluationIssue)
input_fields_rows v =
    (not (is_version v.schema_version), bad_field (codes "schemaVersion"))
    ∷ (not (uuid_urn v.evaluation_id), bad_field (codes "evaluationId"))
    ∷ (
      not (stable_id v.policy.id && is_version v.policy.version && content_digest v.policy.digest),
      bad_field (codes "policy"),
    )
    ∷ (not (subject_id v.subject_id), bad_field (codes "subjectId"))
    ∷ (
      not (
          if_present subject_id v.subject_match.observed_subject_id
          && if_present long_text v.subject_match.reason),
      bad_field (codes "subjectMatch"),
    )
    ∷ (not (size_in 1 256 v.checks), bad_field (codes "checks"))
    ∷ (
      not (size_in 1 32 v.limitations && all long_text v.limitations),
      bad_field (codes "limitations"),
    )
    ∷ []

unfoldable pub input_fields : PolicyEvaluationInput → List EvaluationIssue
input_fields v = raise (input_fields_rows v)

-- The refinements of the identity and of the check ids in `refineEvaluationInput`.
abbrev pub refine_identity_rows : PolicyEvaluationInput → List (Bool × EvaluationIssue)
refine_identity_rows v =
    let status = v.subject_match.status in
    let observed = v.subject_match.observed_subject_id in
    (is_matched status && not (is_text observed v.subject_id), matched_must_equal)
    ∷ (
      is_mismatched status && (not (truthy observed) || is_text observed v.subject_id),
      mismatched_needs_other,
    )
    ∷ (is_unresolved status && truthy observed, unresolved_cannot_observe)
    ∷ (not (is_matched status) && not (truthy v.subject_match.reason), mismatch_needs_reason)
    ∷ (repeats (map PolicyCheck.id v.checks), repeated_check)
    ∷ []

unfoldable pub refine_identity : PolicyEvaluationInput → List EvaluationIssue
refine_identity v = raise (refine_identity_rows v)

-- `validUntil === undefined || validUntil <= evaluatedAt`
abbrev pub elapsed_or_absent : Time → Option Time → Bool
elapsed_or_absent at none = true
elapsed_or_absent at (some until) = no_later until at

-- `validUntil === undefined || validUntil > evaluatedAt`
abbrev pub ahead_or_absent : Time → Option Time → Bool
ahead_or_absent at none = true
ahead_or_absent at (some until) = earlier at until

-- The refinements of one check's freshness, at the instant of the evaluation.
abbrev pub refine_freshness_rows : Time → ℕ → PolicyCheck → List (Bool × EvaluationIssue)
refine_freshness_rows evaluated_at n c =
    let f = c.freshness in
    (earlier evaluated_at f.checked_at, checked_after_evaluation n)
    ∷ (
      not (if_present (λ updated. not (earlier f.checked_at updated)) f.source_updated_at),
      updated_after_check n,
    )
    ∷ (is_current f.status && elapsed_or_absent evaluated_at f.valid_until, current_needs_future n)
    ∷ (is_stale f.status && ahead_or_absent evaluated_at f.valid_until, stale_needs_elapsed n)
    ∷ (is_unknown f.status && is_some f.valid_until, unknown_cannot_bound n)
    ∷ []

unfoldable pub refine_freshness : Time → ℕ → PolicyCheck → List EvaluationIssue
refine_freshness evaluated_at n c = raise (refine_freshness_rows evaluated_at n c)

unfoldable pub refine_evaluation_input : PolicyEvaluationInput → List EvaluationIssue
unfolding refine_identity refine_freshness
refine_evaluation_input v =
    refine_identity v ++ flat_map_from (refine_freshness v.evaluated_at) 0 v.checks

-- What zod reports of an input: the fields, the checks, and the refinement of the whole.
unfoldable pub input_issues : PolicyEvaluationInput → List EvaluationIssue
input_issues v =
    input_fields v ++ (flat_map_from check_issues 0 v.checks ++ refine_evaluation_input v)
