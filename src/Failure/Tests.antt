-- ===== src/Failure/Tests.antt =====
-- Runs of the failure documents, and their theorems at them.
use verglos_cli.Prelude.{◌≡◌, refl, ◌≢◌, ◌↔◌, none}
use verglos_cli.Text.{codes}
use verglos_cli.Contracts.{ok}
use verglos_cli.Samples.{some_uuid, formats}
use verglos_cli.Failure.{
  policy_block, safe, after_action, failure_code, failure_issues, parse_failure, FailureInput,
  with_exit_code, create_failure,
}
use verglos_cli.Failure.Laws.{IsProvided, create_failure-ok_iff}

abbrev blocked : FailureInput
blocked = record {
  failure_id = some_uuid;
  category = policy_block;
  code = codes "verglos.failure.policy-block.critical-finding";
  retry = after_action;
  operation = codes "policy check";
  target = none;
  message = codes "A critical finding blocks the release.";
  limitation = codes "Only the recorded checks are considered.";
  action = codes "Fix the finding.";
  occurred_at = 5;
}

parsing : Unit {0}
unfolding formats failure_code failure_issues parse_failure create_failure
parsing = tt

parse_test : parse_failure (with_exit_code blocked) ≡ ok (with_exit_code blocked)
unfolding parsing
parse_test = refl

blind_retry_test :
    create_failure (record blocked { retry = safe })
    ≢ ok (with_exit_code (record blocked { retry = safe }))
unfolding parsing
blind_retry_test = cc

create_failure-ok_iff_example :
    (create_failure blocked ≡ ok (with_exit_code blocked)) ↔ IsProvided blocked
create_failure-ok_iff_example = create_failure-ok_iff blocked
