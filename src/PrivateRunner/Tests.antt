-- ===== src/PrivateRunner/Tests.antt =====
-- A private runner at concrete inputs.
use verglos_cli.Prelude.{
  ◌≡◌, refl, Bool, true, Option, none, some, List, [], ◌∷◌, ◌++◌, map, arith, if◌then◌else◌, length,
}
use verglos_cli.Text.{Text, codes, text_eq}
use verglos_cli.Text.Sets.{NoRepeat}
use verglos_cli.Samples.{hex64}
use verglos_cli.Contracts.{Instant}
use verglos_cli.Schema.Canonical.{canonicalize_json}
use verglos_cli.PrivateRunner.{
  denied, PrivateRunnerJob, Admitting, admitted, rejected, job_replayed, job_expired,
  runner_id_text, nonce_text, signature_text, signing_text, valid_shape, verify_job_signature,
  admit_private_runner_job,
}
use verglos_cli.PrivateRunner.Laws.{Admissible, admit_private_runner_job-Admissible}
use verglos_cli.PrivateRunner.Client.{
  absent, read_replay, a_job, poll_error, invalid_input, Poll, poll_private_runner_job,
}
use verglos_cli.PrivateRunner.Replay.{ready_jobs, ready_jobs-NoRepeat}

-- To unfold the checks of jobs.
unfoldable runner : Unit {0}
unfolding runner_id_text nonce_text signature_text signing_text valid_shape verify_job_signature
    admit_private_runner_job read_replay poll_private_runner_job canonicalize_json
runner = tt

abbrev clock : Text → Option Instant
clock s =
    if text_eq s (codes "start")
    then some 1000
    else if text_eq s (codes "end")
    then some 9000
    else some 2000

abbrev trusting : Text → Text → Text → Bool
trusting key text signature = true

abbrev job_named : Text → Text → PrivateRunnerJob
job_named id nonce = record {
  protocol_version = codes "1.0.0";
  job_id = id;
  tenant_id = codes "tenant";
  runner_id = codes "runner";
  recipe_id = codes "recipe";
  target_subject_id = codes "target";
  target_digest = codes "sha256:" ++ hex64;
  issued_at = codes "start";
  expires_at = codes "end";
  nonce = nonce;
  network_mode = denied;
  destinations = [];
  limits = record { timeout_ms = 1000; output_bytes = 1024; memory_mb = 64; processes = 1 };
  signature = codes "abc=";
}

abbrev job_one : PrivateRunnerJob
job_one = job_named (codes "job-1") (codes "0123456789abcdef")

abbrev asking : Text → Option (List Text) → Admitting
asking now replayed = record {
  tenant_id = codes "tenant";
  runner_id = codes "runner";
  now = now;
  replayed_job_ids = replayed;
  allowed_targets = codes "target" ∷ [];
  trusted_public_key_pem = some (codes "key");
}

admissions :
    (admit_private_runner_job clock trusting job_one (asking (codes "now") none) ≡ admitted job_one)
    × (admit_private_runner_job clock trusting job_one (asking (codes "end") none)
        ≡ rejected job_expired)
    × (admit_private_runner_job clock trusting job_one
          (asking (codes "now") (some (codes "job-1" ∷ [])))
        ≡ rejected job_replayed)
unfolding runner
admissions = (refl, refl, refl)

admit_private_runner_job-Admissible_example :
    (job_one ≡ job_one) × Admissible clock trusting job_one (asking (codes "now") none)
unfolding runner
admit_private_runner_job-Admissible_example =
    admit_private_runner_job-Admissible clock trusting job_one job_one (asking (codes "now") none)
      refl

abbrev poll_of : PrivateRunnerJob → Poll
poll_of j = record {
  tenant_id = codes "tenant";
  runner_id = codes "runner";
  allowed_targets = codes "target" ∷ [];
  now = codes "now";
  has_credential = true;
  has_origin = true;
  trusted_key = some (codes "key");
  response = a_job j;
  can_write = true;
}

abbrev three_polls : List Poll
three_polls =
    poll_of job_one
    ∷ poll_of job_one
    ∷ poll_of (job_named (codes "job-2") (codes "abcdef0123456789"))
    ∷ []

three_ready : length (ready_jobs clock trusting absent three_polls) ≡ 2
unfolding runner
three_ready = refl

ready_jobs-NoRepeat_example :
    NoRepeat (map PrivateRunnerJob.job_id (ready_jobs clock trusting absent three_polls))
    × NoRepeat (map PrivateRunnerJob.nonce (ready_jobs clock trusting absent three_polls))
ready_jobs-NoRepeat_example = ready_jobs-NoRepeat clock trusting three_polls (omega arith)

-- A nonce may begin with "_", but the replay cache that holds it is refused: each later poll ends as
-- an invalid input.
stuck :
    let odd = poll_of (job_named (codes "job-1") (codes "_123456789abcdef")) in
    let later = poll_of (job_named (codes "job-2") (codes "abcdef0123456789")) in
    let after_odd = (poll_private_runner_job clock trusting odd absent).1 in
    (length (ready_jobs clock trusting absent (odd ∷ [])) ≡ 1)
    × (poll_private_runner_job clock trusting later after_odd
        ≡ (poll_error invalid_input, after_odd))
unfolding runner
stuck = (refl, refl)
