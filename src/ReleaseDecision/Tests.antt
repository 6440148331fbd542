-- ===== src/ReleaseDecision/Tests.antt =====
-- A release decision on the clean sample evaluation, and the theorems at it.
use verglos_cli.Prelude.{◌≡◌, refl, some, [], ◌∷◌, All}
use verglos_cli.Text.{Text, codes}
use verglos_cli.Contracts.{ok}
use verglos_cli.Samples.{hex64, some_digest, some_subject, some_uuid}
use verglos_cli.PolicyEvaluation.{PolicyEvaluationDocument, pass}
use verglos_cli.PolicyEvaluation.Accepted.{IsCurrentlySatisfied}
use verglos_cli.PolicyEvaluation.Tests.{two_clean, evaluated, parsing}
use verglos_cli.ReleaseDecision.{
  primary, SubjectBinding, ApprovalKind, IssuerKind, ReleaseDecisionDocument,
  CreateReleaseDecisionInput,
}
use verglos_cli.ReleaseDecision.Validate.{
  primaries, approval_issues, release_issues, parse_release_decision, release_of,
  create_release_decision,
}
use verglos_cli.ReleaseDecision.Laws.{
  TimesRead, IsBound, IsTimely, parse_release_decision-IsBound, create_release_decision-pass,
}

abbrev constant_hash : PolicyEvaluationDocument → Text
constant_hash e = hex64

abbrev main_subject : SubjectBinding
main_subject = record { subject_id = some_subject; role = primary }

abbrev request : CreateReleaseDecisionInput
request = record {
  decision_id = some_uuid;
  evaluation = evaluated;
  subjects = main_subject ∷ [];
  approvals = some (
      record {
        kind = ApprovalKind.release;
        approval_id = some_uuid;
        digest = some_digest;
        approver_id = codes "bob";
        authority = codes "release-owner";
        decided_at = some 110;
        valid_until = some (some 300);
      }
      ∷ []);
  issued_by = record { kind = IssuerKind.service; id = codes "ci"; authority = codes "pipeline" };
  generated_at = some 120;
  limitations = codes "Static evidence only." ∷ [];
}

abbrev released : ReleaseDecisionDocument
released = release_of constant_hash request evaluated

releasing : Unit {0}
unfolding parsing approval_issues release_issues parse_release_decision create_release_decision
releasing = tt

create_test : create_release_decision constant_hash request ≡ ok released
unfolding releasing
create_test = refl

parse_test : parse_release_decision released ≡ ok released
unfolding releasing
parse_test = refl

times : TimesRead released
times = record { evaluated = refl; generated = refl; approvals = ((refl, refl), tt) }

parse_release_decision-IsBound_example :
    (released ≡ released) × IsBound released × IsTimely released
parse_release_decision-IsBound_example =
    parse_release_decision-IsBound released released parse_test times

passed : released.decision ≡ pass
unfolding releasing
passed = refl

create_release_decision-pass_example :
    ((s : SubjectBinding) × (primaries released ≡ s ∷ []) × (some some_subject ≡ some s.subject_id))
    × All (IsCurrentlySatisfied (some 100)) two_clean
create_release_decision-pass_example =
    create_release_decision-pass constant_hash request released create_test passed refl
      ((refl, refl), ((refl, refl), tt))
