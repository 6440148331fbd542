-- ===== src/Verification/Tests.antt =====
-- Runs of the verification attempts, and their theorems at them.
use verglos_cli.Prelude.{◌≡◌, refl, ◌⊎◌, true, false, Option, none, some, [], ◌∷◌, if◌then◌else◌}
use verglos_cli.Text.{Text, codes, text_eq}
use verglos_cli.Formats.{ContentDigest}
use verglos_cli.Contracts.{ok, invalid}
use verglos_cli.Samples.{some_uuid, some_digest, some_subject, formats}
use verglos_cli.Verification.{
  verified, approved, denied, not_requested, container, read_only, allowlist, succeeded,
  not_started, no_secrets, confirmed, not_reproduced, not_supported, policy_denied,
  VerificationAttempt, Url,
}
use verglos_cli.Verification.Validate.{is_rule_id, verdict_requires}
use verglos_cli.Verification.Refine.{
  refine_attempt, is_safe_network_origin, attempt_issues, parse_verification_attempt,
}
use verglos_cli.Verification.Checked.{IsWithin, IsAuthorised, no_usage, no_output, IsIdle}
use verglos_cli.Verification.Laws.{
  parse_verification_attempt-executed, parse_verification_attempt-verdict,
}

-- A reader that knows one URL.
abbrev read_one : Text → Option Url
read_one t =
    if text_eq t (codes "https://registry.test")
    then some (record {
      protocol = codes "https:";
      username = [];
      password = [];
      pathname = codes "/";
      search = [];
      hash = [];
    })
    else none

abbrev reproduced : VerificationAttempt
reproduced = record {
  schema_version = codes "1.0.0";
  attempt_id = some_uuid;
  subject_id = some_subject;
  observation_id = some_uuid;
  finding_id = none;
  rule_id = some (codes "js/sql-injection");
  recipe = record {
    id = codes "recipe.sql";
    version = codes "1.2.0";
    digest = some_digest;
    signature_status = verified;
    signer = some (codes "security-team");
    trust_policy_digest = some some_digest;
  };
  approval = record {
    required = true;
    status = approved;
    request_digest = some some_digest;
    actor = some (codes "maintainer");
    approved_at = some (some 90);
  };
  sandbox = record {
    isolation = container;
    runtime = codes "runc";
    runtime_digest = some some_digest;
    filesystem = read_only;
    network = record { mode = allowlist; destinations = codes "https://registry.test" ∷ [] };
    non_root = true;
    cleanup = succeeded;
  };
  input_digest = some_digest;
  parameter_digest = some_digest;
  secret_inputs = no_secrets;
  limits = record {
    timeout_ms = 1000;
    cpu_ms = 1000;
    memory_bytes = 4096;
    disk_bytes = 0;
    max_processes = 4;
    max_output_bytes = 512;
    max_network_requests = 2;
  };
  executed = true;
  started_at = some (some 100);
  completed_at = some 200;
  usage = record {
    duration_ms = 100;
    cpu_ms = 50;
    peak_memory_bytes = 4096;
    disk_bytes = 0;
    processes = 1;
    output_bytes = 10;
    network_requests = 1;
  };
  output = record {
    evidence_digest = some some_digest;
    stdout = none;
    stderr = none;
    artifacts = [];
  };
  verdict = confirmed;
  reason = codes "The injected query returned the canary.";
  limitations = codes "One payload." ∷ [];
}

abbrev refused : VerificationAttempt
refused = record reproduced {
  approval = record {
    required = true;
    status = denied;
    request_digest = none;
    actor = none;
    approved_at = none;
  };
  sandbox = record reproduced.sandbox { cleanup = not_started };
  executed = false;
  started_at = none;
  usage = no_usage;
  output = no_output;
  verdict = policy_denied;
}

running : Unit {0}
unfolding formats is_rule_id refine_attempt is_safe_network_origin attempt_issues
    parse_verification_attempt
running = tt

reproduced_test : parse_verification_attempt read_one reproduced ≡ ok reproduced
unfolding running
reproduced_test = refl

refused_test : parse_verification_attempt read_one refused ≡ ok refused
unfolding running
refused_test = refl

unexecuted_confirmation_test :
    parse_verification_attempt read_one (record refused { verdict = confirmed })
    ≡ invalid (
        verdict_requires (codes "executed") ∷ verdict_requires (codes "output.evidenceDigest") ∷ [])
unfolding running
unexecuted_confirmation_test = refl

parse_verification_attempt-executed_example :
    (reproduced ≡ reproduced)
    × IsAuthorised reproduced
    × IsWithin reproduced.usage reproduced.limits
parse_verification_attempt-executed_example =
    parse_verification_attempt-executed read_one reproduced reproduced reproduced_test refl
      (record { start = refl; completion = refl })

parse_verification_attempt-verdict_example :
    ((policy_denied ≡ confirmed) ⊎ (policy_denied ≡ not_reproduced)
      → IsAuthorised refused × ((d : ContentDigest) × (none ≡ some d)))
    × ((policy_denied ≡ not_supported) ⊎ (policy_denied ≡ policy_denied) → IsIdle refused)
    × (policy_denied ≡ policy_denied
        → (true ≡ true) × ((denied ≡ denied) ⊎ (denied ≡ not_requested)))
parse_verification_attempt-verdict_example =
    parse_verification_attempt-verdict read_one refused refused refused_test
      (record { start = tt; completion = refl })
