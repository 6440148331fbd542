-- ===== src/ReleaseDecision/Validate.antt =====
-- packages/shared/src/release-decision.ts: validation, parsing and creation.
use verglos_cli.Prelude.{
  ℕ, Bool, true, false, not, ◌&&◌, Option, none, some, List, [], ◌∷◌, ◌++◌, map, leb, ◌==◌, length,
  all, filter,
}
use verglos_cli.Text.{Text, codes, text_eq}
use verglos_cli.Text.Sets.{repeats}
use verglos_cli.Formats.{
  sha256, algorithm_eq, stable_id, uuid_urn, short_text, long_text, content_digest, subject_id,
}
use verglos_cli.Contracts.{
  Time, earlier, no_later, if_present, size_in, raise, flat_map_from, Parsed, invalid, ok,
  unreadable, ◌>>=◌, accept_if_clean, assert_compatible, is_version, reader_version,
}
use verglos_cli.PolicyEvaluation.{PolicyReference, PolicyEvaluationDocument}
use verglos_cli.PolicyEvaluation.Validate.{EvaluationIssue}
use verglos_cli.PolicyEvaluation.Parse.{decision_eq, parse_policy_evaluation}
use verglos_cli.ReleaseDecision.{
  primary, SubjectBinding, ApprovalReference, ReleaseDecisionDocument, CreateReleaseDecisionInput,
}

pub data ReleaseIssue : Type 0 where
  bad_field : Text → ReleaseIssue
  bad_approval : ℕ → ReleaseIssue
  needs_one_primary : ReleaseIssue
  primary_must_be_evaluated : ReleaseIssue
  repeated_subject : ReleaseIssue
  repeated_approval : ReleaseIssue
  decision_must_be_kept : ReleaseIssue
  policy_must_be_kept : ReleaseIssue
  precedes_evaluation : ReleaseIssue
  approval_after_generation : ℕ → ReleaseIssue
  approval_expired : ℕ → ReleaseIssue
  invalid_evaluation : List EvaluationIssue → ReleaseIssue

abbrev policy_ok : PolicyReference → Bool
policy_ok p = stable_id p.id && is_version p.version && content_digest p.digest

-- `JSON.stringify(a) === JSON.stringify(b)`: both have the keys of the schema in its order.
abbrev pub policy_eq : PolicyReference → PolicyReference → Bool
policy_eq p q =
    text_eq p.id q.id
    && text_eq p.version q.version
    && algorithm_eq p.digest.algorithm q.digest.algorithm
    && text_eq p.digest.value q.digest.value

abbrev pub is_primary : SubjectBinding → Bool
is_primary s = elim s.role [ primary ↦ true | _ ↦ false ]

abbrev pub primaries : ReleaseDecisionDocument → List SubjectBinding
primaries d = filter is_primary d.subjects

-- Exactly one primary subject that is not the one given.
abbrev pub only_other : List SubjectBinding → Text → Bool
only_other (s ∷ []) id = not (text_eq s.subject_id id)
only_other _ id = false

abbrev pub approval_rows : Time → ℕ → ApprovalReference → List (Bool × ReleaseIssue)
approval_rows generated_at n a =
    (
      not (
          uuid_urn a.approval_id
          && content_digest a.digest
          && short_text a.approver_id
          && short_text a.authority),
      bad_approval n,
    )
    ∷ (earlier generated_at a.decided_at, approval_after_generation n)
    ∷ (
      not (if_present (λ until. not (no_later until generated_at)) a.valid_until),
      approval_expired n,
    )
    ∷ []

unfoldable pub approval_issues : Time → ℕ → ApprovalReference → List ReleaseIssue
approval_issues generated_at n a = raise (approval_rows generated_at n a)

-- The formats of ReleaseDecisionBaseSchema.
abbrev pub release_field_rows : ReleaseDecisionDocument → List (Bool × ReleaseIssue)
release_field_rows d =
    (not (is_version d.schema_version), bad_field (codes "schemaVersion"))
    ∷ (not (uuid_urn d.decision_id), bad_field (codes "decisionId"))
    ∷ (
      not (size_in 1 64 d.subjects && all (λ s. subject_id s.subject_id) d.subjects),
      bad_field (codes "subjects"),
    )
    ∷ (not (policy_ok d.policy), bad_field (codes "policy"))
    ∷ (
      not (
          uuid_urn d.evaluation.evaluation_id
          && content_digest d.evaluation.digest
          && subject_id d.evaluation.subject_id
          && policy_ok d.evaluation.policy),
      bad_field (codes "evaluation"),
    )
    ∷ (not (leb (length d.approvals) 64), bad_field (codes "approvals"))
    ∷ (
      not (short_text d.issued_by.id && short_text d.issued_by.authority),
      bad_field (codes "issuedBy"),
    )
    ∷ (
      not (size_in 1 32 d.limitations && all long_text d.limitations),
      bad_field (codes "limitations"),
    )
    ∷ []

-- `refineReleaseDecision`, up to its loop over the approvals.
abbrev pub refine_release_rows : ReleaseDecisionDocument → List (Bool × ReleaseIssue)
refine_release_rows d =
    (not (length (primaries d) == 1), needs_one_primary)
    ∷ (only_other (primaries d) d.evaluation.subject_id, primary_must_be_evaluated)
    ∷ (repeats (map SubjectBinding.subject_id d.subjects), repeated_subject)
    ∷ (repeats (map ApprovalReference.approval_id d.approvals), repeated_approval)
    ∷ (not (decision_eq d.decision d.evaluation.decision), decision_must_be_kept)
    ∷ (not (policy_eq d.policy d.evaluation.policy), policy_must_be_kept)
    ∷ (earlier d.generated_at d.evaluation.evaluated_at, precedes_evaluation)
    ∷ []

unfoldable pub release_issues : ReleaseDecisionDocument → List ReleaseIssue
release_issues d =
    raise (release_field_rows d)
    ++ (raise (refine_release_rows d)
        ++ flat_map_from (approval_issues d.generated_at) 0 d.approvals)

-- `parseReleaseDecision`
unfoldable pub parse_release_decision :
    ReleaseDecisionDocument → Parsed ReleaseIssue ReleaseDecisionDocument
parse_release_decision d = do
  parsed ← accept_if_clean (release_issues d) d
  assert_compatible parsed.schema_version parsed

abbrev or_empty : Option (List ApprovalReference) → List ApprovalReference
or_empty none = []
or_empty (some as') = as'

-- The evaluation's own error, thrown through `createReleaseDecision`.
abbrev pub rethrow : {A : Type 0} → Parsed EvaluationIssue A → Parsed ReleaseIssue A
rethrow (ok a) = ok a
rethrow (invalid is) = invalid (invalid_evaluation is ∷ [])
rethrow (unreadable c) = unreadable c

-- Hashing is node:crypto's: the SHA-256 of an evaluation's canonical JSON is a parameter.
module _ (digest_evaluation : PolicyEvaluationDocument → Text) where
  -- The document that `createReleaseDecision` hands to `parseReleaseDecision`.
  abbrev pub release_of :
      CreateReleaseDecisionInput → PolicyEvaluationDocument → ReleaseDecisionDocument
  release_of i e = record {
    schema_version = reader_version;
    decision_id = i.decision_id;
    decision = e.decision;
    subjects = i.subjects;
    policy = e.input.policy;
    evaluation = record {
      evaluation_id = e.input.evaluation_id;
      digest = record { algorithm = sha256; value = digest_evaluation e };
      subject_id = e.input.subject_id;
      decision = e.decision;
      policy = e.input.policy;
      evaluated_at = e.input.evaluated_at;
    };
    approvals = or_empty i.approvals;
    issued_by = i.issued_by;
    generated_at = i.generated_at;
    limitations = i.limitations;
  }

  -- `createReleaseDecision`
  unfoldable pub create_release_decision :
      CreateReleaseDecisionInput → Parsed ReleaseIssue ReleaseDecisionDocument
  create_release_decision i = do
    evaluation ← rethrow (parse_policy_evaluation i.evaluation)
    parse_release_decision (release_of i evaluation)
