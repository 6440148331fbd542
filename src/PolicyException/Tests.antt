-- ===== src/PolicyException/Tests.antt =====
-- Runs of the evaluation of an exception, and its theorems at them.
use verglos_cli.Prelude.{◌≡◌, refl, ◌↔◌, true, false, none, some, [], ◌∷◌}
use verglos_cli.Text.{Text, codes}
use verglos_cli.Contracts.{Instant, ok}
use verglos_cli.Samples.{hex64, some_digest, some_subject, some_uuid, formats}
use verglos_cli.PolicyException.{
  ActorKind, OwnerKind, Owner, AuditReference, PolicyException, approved, ExceptionApproval,
}
use verglos_cli.PolicyException.Validate.{
  control_issues, exception_issues, parse_policy_exception, approval_issues,
  parse_exception_approval,
}
use verglos_cli.PolicyException.Evaluate.{
  applicable, expired, Applicability, ExceptionQuery, applicability, evaluate_policy_exception,
}
use verglos_cli.PolicyException.Applies.{TimesRead, Applies, evaluate-Applies_iff}

abbrev audit : AuditReference
audit = record { system = codes "tickets"; record_id = codes "T-1"; digest = some_digest }

abbrev team : Owner
team = record { kind = OwnerKind.team; id = codes "security" }

abbrev exception : PolicyException
exception = record {
  schema_version = codes "1.0.0";
  exception_id = some_uuid;
  scope = record { subject_id = some_subject; observation_ids = some_uuid ∷ [] };
  owner = team;
  requested_by = record { kind = ActorKind.person; id = codes "ann" };
  reason = codes "A fix is scheduled.";
  compensating_controls =
      record { description = codes "A gateway rule."; owner = team; evidence = audit } ∷ [];
  reversal_triggers = codes "An exploit is published." ∷ [];
  requested_at = some 10;
  effective_from = some 20;
  expires_at = some 100;
  limitations = codes "One service only." ∷ [];
}

abbrev approval : ExceptionApproval
approval = record {
  schema_version = codes "1.0.0";
  approval_id = some_uuid;
  target = record { exception_id = some_uuid; request_digest = some_digest };
  decision = approved;
  approver = record { id = codes "bob"; authority = codes "release-owner" };
  rationale = codes "The risk is contained.";
  decided_at = some 15;
  valid_until = some (some 90);
  audit_reference = audit;
}

abbrev at_time : Instant → ExceptionQuery
at_time t = record { subject_id = some_subject; observation_id = some_uuid; at = some t }

-- A hash that gives one digest to everything.
abbrev constant_hash : PolicyException → Text
constant_hash e = hex64

abbrev yes_result : Applicability
yes_result = record { is_applicable = true; reason = applicable }

evaluating : Unit {0}
unfolding formats control_issues exception_issues parse_policy_exception approval_issues
    parse_exception_approval applicability evaluate_policy_exception
evaluating = tt

evaluate_tests :
    (evaluate_policy_exception constant_hash exception approval (at_time 20) ≡ ok yes_result)
    × (evaluate_policy_exception constant_hash exception approval (at_time 50) ≡ ok yes_result)
    × (evaluate_policy_exception constant_hash exception approval (at_time 89) ≡ ok yes_result)
    × (evaluate_policy_exception constant_hash exception approval (at_time 100)
        ≡ ok (record { is_applicable = false; reason = expired }))
unfolding evaluating
evaluate_tests = (refl, refl, refl, refl)

-- An approval whose end `Date.parse` cannot read does not expire before the exception.
unread_test :
    evaluate_policy_exception constant_hash exception
      (record approval { valid_until = some none })
      (at_time 99)
    ≡ ok yes_result
unfolding evaluating
unread_test = refl

sample_times : TimesRead exception approval (at_time 50)
sample_times = record {
  requested = refl;
  effective = refl;
  expiry = refl;
  decided = refl;
  until = refl;
  now = refl;
}

evaluate-Applies_iff_example :
    (yes_result.is_applicable ≡ true) ↔ Applies hex64 exception approval (at_time 50)
evaluate-Applies_iff_example =
    evaluate-Applies_iff constant_hash exception approval (at_time 50) yes_result evaluate_tests.1
      sample_times
