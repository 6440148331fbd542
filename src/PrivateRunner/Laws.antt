-- ===== src/PrivateRunner/Laws.antt =====
-- What an admitted job satisfies (`admitPrivateRunnerJob` of packages/shared/src/private-runner.ts).
use verglos_cli.Prelude.{
  both, neither, true_of, le_of_leb, ◌+◌, ◌≤◌, ◌<◌, ◌≡◌, refl, sym, ap, ◌∙◌, Bool, true, false, not,
  ◌&&◌, ◌||◌, Option, none, some, arith, leb, if◌then◌else◌, length, all, In,
}
use verglos_cli.Text.{Text, codes, text_eq, starts_with}
use verglos_cli.Text.Order.{text_eq_iff}
use verglos_cli.Text.Sets.{has, has_iff}
use verglos_cli.Contracts.{Instant, is_some}
use verglos_cli.PrivateRunner.{
  PrivateRunnerJob, JobLimits, AdmissionFailure, invalid_job, invalid_signature, tenant_mismatch,
  runner_mismatch, job_expired, job_not_yet_valid, job_replayed, target_not_allowlisted,
  network_not_bounded, Admission, admitted, rejected, runner_id_text, nonce_text, signature_text,
  valid_limits, has_in, Admitting, lives_at_most, valid_shape, verify_job_signature, untrusted,
  not_yet, at_most, unbounded_network, admit_private_runner_job,
}
use verglos_cli.Formats.{is_sha256_ref}

not_rejected :
    (b : Bool) (r : AdmissionFailure) (m : Admission) {k : PrivateRunnerJob}
    → (if b then rejected r else m) ≡ admitted k
    → (b ≡ false) × (m ≡ admitted k)
not_rejected true r m h = cc
not_rejected false r m h = (refl, h)

window_lem :
    (now issued expires : Option Instant)
    → not_yet now issued ≡ false
    → at_most expires now ≡ false
    → lives_at_most 1800000 issued expires ≡ true
    → (n : Instant) × (a : Instant) × (b : Instant) × (now ≡ some n)
      × (issued ≡ some a)
      × (expires ≡ some b)
      × (a ≤ n)
      × (n < b)
      × (b ≤ a + 1800000)
window_lem none issued expires h k l = cc
window_lem (some n) none expires h k l = cc
window_lem (some n) (some a) none h k l = cc
window_lem (some n) (some a) (some b) h k l =
    (n, a, b, refl, refl, refl, ground (arith, h), ground (arith, k), ground (arith, l))

module _ (parse_date : Text → Option Instant) (verify : Text → Text → Text → Bool) where
  -- The tests of an admission, in their order.
  pub Passes : PrivateRunnerJob → Admitting → Type 0
  Passes j i =
      (valid_shape parse_date verify j ≡ true)
      × (untrusted parse_date verify j i.trusted_public_key_pem ≡ false)
      × (text_eq j.tenant_id i.tenant_id ≡ true)
      × (text_eq j.runner_id i.runner_id ≡ true)
      × (not_yet (parse_date i.now) (parse_date j.issued_at) ≡ false)
      × (at_most (parse_date j.expires_at) (parse_date i.now) ≡ false)
      × (at_most (parse_date j.expires_at) (parse_date j.issued_at) ≡ false)
      × (has_in i.replayed_job_ids j.job_id ≡ false)
      × (has j.target_subject_id i.allowed_targets ≡ true)
      × (unbounded_network j.network_mode j.destinations ≡ false)

  pub admit-Passes :
      (j k : PrivateRunnerJob) (i : Admitting)
      → admit_private_runner_job parse_date verify j i ≡ admitted k
      → (j ≡ k) × Passes j i
  unfolding admit_private_runner_job Passes
  admit-Passes j k i h =
      let (a, h1) = not_rejected (not (valid_shape parse_date verify j)) invalid_job _ h in
      let (b, h2) =
        not_rejected (untrusted parse_date verify j i.trusted_public_key_pem) invalid_signature _
          h1 in
      let (c, h3) = not_rejected (not (text_eq j.tenant_id i.tenant_id)) tenant_mismatch _ h2 in
      let (d, h4) = not_rejected (not (text_eq j.runner_id i.runner_id)) runner_mismatch _ h3 in
      let (e, h5) =
        not_rejected (not_yet (parse_date i.now) (parse_date j.issued_at)) job_not_yet_valid _ h4 in
      let (f, h6) =
        not_rejected
          (at_most (parse_date j.expires_at) (parse_date i.now)
            || at_most (parse_date j.expires_at) (parse_date j.issued_at))
          job_expired _ h5 in
      let (g, h7) = not_rejected (has_in i.replayed_job_ids j.job_id) job_replayed _ h6 in
      let (t, h8) =
        not_rejected (not (has j.target_subject_id i.allowed_targets)) target_not_allowlisted _
          h7 in
      let (n, h9) =
        not_rejected (unbounded_network j.network_mode j.destinations) network_not_bounded _ h8 in
      let (f1, f2) = neither (at_most (parse_date j.expires_at) (parse_date i.now)) _ f in
      (admitted_injective h9, (true_of a, b, true_of c, true_of d, e, f1, f2, g, true_of t, n))
    where
      admitted_injective : {x y : PrivateRunnerJob} → admitted x ≡ admitted y → x ≡ y
      admitted_injective e = cc

  -- Why a job may run: it is this runner's, in its window, which is half an hour at most, for a
  -- target that is allowed, and neither used before nor without limits.
  pub record Admissible (j : PrivateRunnerJob) (i : Admitting) : Type 0 where
    pub well_formed : valid_shape parse_date verify j ≡ true
    pub signed :
        (key : Text)
        → i.trusted_public_key_pem ≡ some key
        → verify_job_signature parse_date verify j key ≡ true
    pub same_tenant : j.tenant_id ≡ i.tenant_id
    pub same_runner : j.runner_id ≡ i.runner_id
    pub now : Instant
    pub issued : Instant
    pub expires : Instant
    pub now_read : parse_date i.now ≡ some now
    pub issued_read : parse_date j.issued_at ≡ some issued
    pub expires_read : parse_date j.expires_at ≡ some expires
    pub after_issue : issued ≤ now
    pub before_expiry : now < expires
    pub short_lived : expires ≤ issued + 1800000
    pub fresh : has_in i.replayed_job_ids j.job_id ≡ false
    pub allowed : In j.target_subject_id i.allowed_targets
    pub bounded_network : unbounded_network j.network_mode j.destinations ≡ false
    pub few_destinations : length j.destinations ≤ 16
    pub short_timeout : j.limits.timeout_ms ≤ 900000
    pub small_output : j.limits.output_bytes ≤ 1048576
    pub small_memory : j.limits.memory_mb ≤ 4096
    pub few_processes : j.limits.processes ≤ 256

  limits_lem :
      (l : JobLimits)
      → valid_limits l ≡ true
      → (l.timeout_ms ≤ 900000)
        × (l.output_bytes ≤ 1048576)
        × (l.memory_mb ≤ 4096)
        × (l.processes ≤ 256)
  limits_lem l h = (ground (arith, h), ground (arith, h), ground (arith, h), ground (arith, h))

  shape_bounds :
      (j : PrivateRunnerJob)
      → valid_shape parse_date verify j ≡ true
      → (lives_at_most 1800000 (parse_date j.issued_at) (parse_date j.expires_at) ≡ true)
        × (leb (length j.destinations) 16 ≡ true)
        × (valid_limits j.limits ≡ true)
  unfolding valid_shape
  shape_bounds j h =
      let (_, h1) = both (text_eq j.protocol_version (codes "1.0.0")) _ h in
      let (_, h2) = both (runner_id_text j.job_id) _ h1 in
      let (_, h3) = both (runner_id_text j.tenant_id) _ h2 in
      let (_, h4) = both (runner_id_text j.runner_id) _ h3 in
      let (_, h5) = both (runner_id_text j.recipe_id) _ h4 in
      let (_, h6) = both (runner_id_text j.target_subject_id) _ h5 in
      let (_, h7) = both (is_sha256_ref j.target_digest) _ h6 in
      let (_, h8) = both (is_some (parse_date j.issued_at)) _ h7 in
      let (_, h9) = both (is_some (parse_date j.expires_at)) _ h8 in
      let (_, h10) = both (nonce_text j.nonce) _ h9 in
      let (lives, h11) =
        both (lives_at_most 1800000 (parse_date j.issued_at) (parse_date j.expires_at)) _ h10 in
      let (few, h12) = both (leb (length j.destinations) 16) _ h11 in
      let (_, h13) =
        both (all (λ d. starts_with (codes "https://") d && leb (length d) 512) j.destinations) _
          h12 in
      (lives, few, (both (signature_text j.signature) _ h13).1)

  trusted_lem :
      (j : PrivateRunnerJob) (o : Option Text)
      → untrusted parse_date verify j o ≡ false
      → (key : Text) → o ≡ some key
      → verify_job_signature parse_date verify j key ≡ true
  trusted_lem j o h key e = true_of (ap (untrusted parse_date verify j) (sym e) ∙ h)

  -- An admitted job is the job that was handed in, signed where a key is trusted, for this tenant and
  -- this runner, at an instant of its window, which is at most half an hour, for an allowed target,
  -- not replayed, and with its network, time, output, memory and processes in their bounds.
  pub admit_private_runner_job-Admissible :
      (j k : PrivateRunnerJob) (i : Admitting)
      → admit_private_runner_job parse_date verify j i ≡ admitted k
      → (j ≡ k) × Admissible j i
  unfolding Passes
  admit_private_runner_job-Admissible j k i h =
      let (same, (shape, trusted, tenant, runner, began, running, _, fresh, target, network)) =
        admit-Passes j k i h in
      let (lives, few, limits) = shape_bounds j shape in
      let (n, a, b, hn, ha, hb, x, y, z) =
        window_lem (parse_date i.now) (parse_date j.issued_at) (parse_date j.expires_at) began
          running lives in
      let (time, output, memory, processes) = limits_lem j.limits limits in
      (
        same,
        record {
          well_formed = shape;
          signed = trusted_lem j i.trusted_public_key_pem trusted;
          same_tenant = (text_eq_iff j.tenant_id i.tenant_id).0 tenant;
          same_runner = (text_eq_iff j.runner_id i.runner_id).0 runner;
          now = n;
          issued = a;
          expires = b;
          now_read = hn;
          issued_read = ha;
          expires_read = hb;
          after_issue = x;
          before_expiry = y;
          short_lived = z;
          fresh = fresh;
          allowed = (has_iff j.target_subject_id i.allowed_targets).0 target;
          bounded_network = network;
          few_destinations = le_of_leb (length j.destinations) 16 few;
          short_timeout = time;
          small_output = output;
          small_memory = memory;
          few_processes = processes;
        },
      )
