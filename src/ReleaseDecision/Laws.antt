-- ===== src/ReleaseDecision/Laws.antt =====
-- What an accepted release decision binds.
use verglos_cli.Prelude.{
  ◌≡◌, refl, sym, ap, ◌∙◌, true, false, some, List, [], ◌∷◌, map, arith, ◌==◌, length, All,
  All-of_In, All-In,
}
use verglos_cli.Text.{Text}
use verglos_cli.Text.Order.{text_eq_iff}
use verglos_cli.Text.Sets.{NoRepeat, repeats-eq-false_iff}
use verglos_cli.Formats.{Algorithm, algorithm_eq}
use verglos_cli.Contracts.{Time, raise, flat_map_from, Parsed, invalid, ok, unreadable}
use verglos_cli.Contracts.Laws.{
  Before, AtMost, IsRead, IsReadIfPresent, present-Before, earlier-eq-false_iff, append-eq-nil,
  IsClear, raise-eq-nil, flat_map_from-eq-nil, >>=-same, parse-eq-ok,
}
use verglos_cli.PolicyEvaluation.{PolicyReference, pass, PolicyEvaluationDocument}
use verglos_cli.PolicyEvaluation.Validate.{EvaluationIssue}
use verglos_cli.PolicyEvaluation.Parse.{parse_policy_evaluation}
use verglos_cli.PolicyEvaluation.Equality.{eq_of_decision_eq}
use verglos_cli.PolicyEvaluation.Accepted.{
  parse_policy_evaluation-derived, IsCurrentlySatisfied, HasReadTimes,
}
use verglos_cli.PolicyEvaluation.Create.{parse-pass}
use verglos_cli.ReleaseDecision.{
  SubjectBinding, ApprovalReference, ReleaseDecisionDocument, CreateReleaseDecisionInput,
}
use verglos_cli.ReleaseDecision.Validate.{
  policy_eq, primaries, only_other, approval_rows, approval_issues, refine_release_rows,
  release_field_rows, release_issues, parse_release_decision, rethrow, release_of,
  create_release_decision,
}

-- An approval that was decided by the instant, and has not expired at it.
abbrev pub IsLive : Time → ApprovalReference → Type 0
IsLive at a =
    AtMost a.decided_at at × ((until : Time) → a.valid_until ≡ some until → Before at until)

abbrev pub ApprovalIsRead : ApprovalReference → Type 0
ApprovalIsRead a = IsRead a.decided_at × IsReadIfPresent a.valid_until

-- `Date.parse` reads the timestamps of a release decision.
pub record TimesRead (d : ReleaseDecisionDocument) : Type 0 where
  pub evaluated : IsRead d.evaluation.evaluated_at
  pub generated : IsRead d.generated_at
  pub approvals : All ApprovalIsRead d.approvals

-- One primary subject, the evaluated one, and the decision and the policy of the evaluation.
pub record IsBound (d : ReleaseDecisionDocument) : Type 0 where
  pub subject :
      (s : SubjectBinding) × (primaries d ≡ s ∷ []) × (s.subject_id ≡ d.evaluation.subject_id)
  pub subjects_differ : NoRepeat (map SubjectBinding.subject_id d.subjects)
  pub approvals_differ : NoRepeat (map ApprovalReference.approval_id d.approvals)
  pub decision_kept : d.decision ≡ d.evaluation.decision
  pub policy_kept : d.policy ≡ d.evaluation.policy

-- The decision does not precede its evaluation, and its approvals are live.
pub record IsTimely (d : ReleaseDecisionDocument) : Type 0 where
  pub in_order : AtMost d.evaluation.evaluated_at d.generated_at
  pub approvals_live : All (IsLive d.generated_at) d.approvals

eq_of_policy_eq : (p q : PolicyReference) → policy_eq p q ≡ true → p ≡ q
eq_of_policy_eq p q h = ground (
  arith,
  text_eq_iff p.id q.id,
  text_eq_iff p.version q.version,
  same_algorithm p.digest.algorithm q.digest.algorithm,
  text_eq_iff p.digest.value q.digest.value,
)
  where
    same_algorithm : (a b : Algorithm) → algorithm_eq a b ≡ true → a ≡ b
    same_algorithm a b k = ground arith

one_primary :
    (l : List SubjectBinding) (id : Text)
    → (length l == 1) ≡ true
    → only_other l id ≡ false
    → (s : SubjectBinding) × (l ≡ s ∷ []) × (s.subject_id ≡ id)
one_primary [] id h k = cc
one_primary (s ∷ []) id h k = (s, refl, (text_eq_iff s.subject_id id).0 (ground (arith, k)))
one_primary (s ∷ t ∷ l) id h k = absurd (ground arith)

approvals-IsLive :
    (at : Time) (l : List ApprovalReference)
    → IsRead at
    → All ApprovalIsRead l
    → flat_map_from (approval_issues at) 0 l ≡ []
    → All (IsLive at) l
unfolding approval_issues
approvals-IsLive at l r times h = All-of_In l λ a m.
    let (decided, until) = All-In ApprovalIsRead l times m in
    let (n, quiet) = flat_map_from-eq-nil (approval_issues at) 0 l h m in
    let rows = raise-eq-nil (approval_rows at n a) quiet in
    (
      (earlier-eq-false_iff a.decided_at at decided r).0 rows.1.0,
      present-Before at a.valid_until r until (ground (arith, rows.1.1.0)),
    )

module _ (d : ReleaseDecisionDocument) (h : release_issues d ≡ []) where
  refined-IsClear :
      IsClear (refine_release_rows d)
      × (flat_map_from (approval_issues d.generated_at) 0 d.approvals ≡ [])
  unfolding release_issues
  refined-IsClear =
      let (fields, rest) = append-eq-nil (raise (release_field_rows d)) _ h in
      let (refined, approvals) = append-eq-nil (raise (refine_release_rows d)) _ rest in
      (raise-eq-nil (refine_release_rows d) refined, approvals)

  issues-IsBound : IsBound d
  issues-IsBound =
      let rows = refined-IsClear.0 in
      record {
        subject =
            one_primary (primaries d) d.evaluation.subject_id (ground (arith, rows.0)) rows.1.0;
        subjects_differ =
            (repeats-eq-false_iff (map SubjectBinding.subject_id d.subjects)).0 rows.1.1.0;
        approvals_differ =
            (repeats-eq-false_iff (map ApprovalReference.approval_id d.approvals)).0 rows.1.1.1.0;
        decision_kept =
            eq_of_decision_eq d.decision d.evaluation.decision (ground (arith, rows.1.1.1.1.0));
        policy_kept =
            eq_of_policy_eq d.policy d.evaluation.policy (ground (arith, rows.1.1.1.1.1.0));
      }

  issues-IsTimely : TimesRead d → IsTimely d
  issues-IsTimely times = record {
    in_order =
        (earlier-eq-false_iff d.evaluation.evaluated_at d.generated_at times.evaluated
            times.generated).0
          refined-IsClear.0.1.1.1.1.1.1.0;
    approvals_live =
        approvals-IsLive d.generated_at d.approvals times.generated times.approvals
          refined-IsClear.1;
  }

parse_release_decision_clean :
    (d e : ReleaseDecisionDocument)
    → parse_release_decision d ≡ ok e
    → (d ≡ e) × (release_issues d ≡ [])
unfolding parse_release_decision
parse_release_decision_clean d e h =
    let (clean, same, version) =
      parse-eq-ok (λ (p : ReleaseDecisionDocument). p.schema_version) (release_issues d) d h in
    (same, clean)

-- An accepted release decision whose timestamps `Date.parse` reads is returned as it is. It has
-- exactly one primary subject, the one that was evaluated; it keeps the decision and the policy of
-- its evaluation, and does not precede it; its subject ids and approval ids are unique; each approval
-- was decided by its instant, and none has expired at it.
pub parse_release_decision-IsBound :
    (d e : ReleaseDecisionDocument)
    → parse_release_decision d ≡ ok e
    → TimesRead d
    → (e ≡ d) × IsBound e × IsTimely e
parse_release_decision-IsBound d e h times =
    let (same, clean) = parse_release_decision_clean d e h in
    (sym same, rw (← same) (issues-IsBound d clean), rw (← same) (issues-IsTimely d clean times))

rethrow-eq-ok : {A : Type 0} (m : Parsed EvaluationIssue A) {a : A} → rethrow m ≡ ok a → m ≡ ok a
rethrow-eq-ok (ok a) h = cc
rethrow-eq-ok (invalid is) h = cc
rethrow-eq-ok (unreadable c) h = cc

module _ (digest_evaluation : PolicyEvaluationDocument → Text) where
  create_inversion :
      (i : CreateReleaseDecisionInput) (d : ReleaseDecisionDocument)
      → create_release_decision digest_evaluation i ≡ ok d
      → (parse_policy_evaluation i.evaluation ≡ ok i.evaluation)
        × (parse_release_decision (release_of digest_evaluation i i.evaluation) ≡ ok d)
  unfolding create_release_decision
  create_inversion i d h =
      let (parsed, rest) =
        >>=-same (rethrow (parse_policy_evaluation i.evaluation)) i.evaluation _
          (λ c k.
            sym
              (parse_policy_evaluation-derived i.evaluation c
                (rethrow-eq-ok (parse_policy_evaluation i.evaluation) k)).0)
          h in
      (rethrow-eq-ok (parse_policy_evaluation i.evaluation) parsed, rest)

  -- A release decision that says PASS is issued only for a primary subject that was itself observed
  -- by the evaluation, with each check satisfied by evidence that is valid beyond the evaluation,
  -- if `Date.parse` reads the timestamp of the evaluation and the `checkedAt` and `validUntil` of
  -- each check.
  pub create_release_decision-pass :
      (i : CreateReleaseDecisionInput) (d : ReleaseDecisionDocument)
      → create_release_decision digest_evaluation i ≡ ok d
      → d.decision ≡ pass
      → IsRead i.evaluation.input.evaluated_at
      → All HasReadTimes i.evaluation.input.checks
      → ((s : SubjectBinding) × (primaries d ≡ s ∷ [])
          × (i.evaluation.input.subject_match.observed_subject_id ≡ some s.subject_id))
        × All (IsCurrentlySatisfied i.evaluation.input.evaluated_at) i.evaluation.input.checks
  create_release_decision-pass i d h p at times =
      let (evaluated, released) = create_inversion i d h in
      let (equal, clean) =
        parse_release_decision_clean (release_of digest_evaluation i i.evaluation) d released in
      let same = sym equal in
      let (s, only, named) =
        (issues-IsBound (release_of digest_evaluation i i.evaluation) clean).subject in
      let (observed, checks) =
        parse-pass i.evaluation i.evaluation evaluated
          (sym (ap ReleaseDecisionDocument.decision same) ∙ p) at times in
      ((s, ap primaries same ∙ only, observed ∙ ap some (sym named)), checks)
