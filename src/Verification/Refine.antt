-- ===== src/Verification/Refine.antt =====
-- packages/shared/src/verification.ts: `SandboxSchema`, `refineAttempt` and
-- `parseVerificationAttempt`.
use verglos_cli.Prelude.{
  Bool, true, false, not, ◌&&◌, ◌||◌, Option, none, some, List, [], ◌∷◌, ◌++◌, ltb, leb, ◌==◌,
  length, all,
}
use verglos_cli.Text.{Text, codes}
use verglos_cli.Formats.{short_text, content_digest}
use verglos_cli.Contracts.{
  earlier, is_some, if_present, is_empty, raise, Parsed, ◌>>=◌, accept_if_clean, assert_compatible,
}
use verglos_cli.Verification.{
  Sandbox, VerificationLimits, ResourceUsage, Output, VerificationAttempt, Url,
}
use verglos_cli.Verification.Validate.{
  AttemptIssue, bad_field, denied_has_destinations, allowlist_requires_destinations,
  executed_requires, not_executed_bars, verdict_requires, verdict_must_not_execute,
  denial_requires_status, unverified_must_not_execute, denied_network_was_used, exceeds_limit,
  completed_before_start, is_verified, is_approved, is_not_required, is_withheld, is_isolated,
  is_managed, is_denied, is_not_started, has_secrets, is_conclusive, bars_execution,
  is_policy_denied, recipe_rows, approval_rows, attempt_field_rows, is_origin,
}

-- `Object.values(value.usage).every((item) => item === 0)`
abbrev pub zero_usage : ResourceUsage → Bool
zero_usage u =
    all (λ n. n == 0)
      (u.duration_ms ∷ u.cpu_ms ∷ u.peak_memory_bytes ∷ u.disk_bytes ∷ u.processes ∷ u.output_bytes
        ∷ u.network_requests ∷ [])

abbrev pub has_output : Output → Bool
has_output o =
    is_some o.evidence_digest
    || (is_some o.stdout || (is_some o.stderr || not (is_empty o.artifacts)))

abbrev pub executed_rows : VerificationAttempt → List (Bool × AttemptIssue)
executed_rows v =
    (not (is_some v.started_at), executed_requires (codes "startedAt"))
    ∷ (
      not (is_approved v.approval.status || is_not_required v.approval.status),
      executed_requires (codes "approval.status"),
    )
    ∷ (not (is_isolated v.sandbox.isolation), executed_requires (codes "sandbox.isolation"))
    ∷ (not v.sandbox.non_root, executed_requires (codes "sandbox.nonRoot"))
    ∷ (is_not_started v.sandbox.cleanup, executed_requires (codes "sandbox.cleanup"))
    ∷ (
      is_managed v.sandbox.isolation && not (is_some v.sandbox.runtime_digest),
      executed_requires (codes "sandbox.runtimeDigest"),
    )
    ∷ []

abbrev pub not_executed_rows : VerificationAttempt → List (Bool × AttemptIssue)
not_executed_rows v =
    (is_some v.started_at, not_executed_bars (codes "startedAt"))
    ∷ (not (zero_usage v.usage), not_executed_bars (codes "usage"))
    ∷ (has_output v.output, not_executed_bars (codes "output"))
    ∷ (not (is_not_started v.sandbox.cleanup), not_executed_bars (codes "sandbox.cleanup"))
    ∷ (has_secrets v.secret_inputs, not_executed_bars (codes "secretInputs"))
    ∷ []

-- The two branches on `value.executed`.
abbrev pub execution_rows : Bool → VerificationAttempt → List (Bool × AttemptIssue)
execution_rows true v = executed_rows v
execution_rows false v = not_executed_rows v

abbrev pub verdict_rows : VerificationAttempt → List (Bool × AttemptIssue)
verdict_rows v =
    (is_conclusive v.verdict && not v.executed, verdict_requires (codes "executed"))
    ∷ (
      is_conclusive v.verdict && not (is_some v.output.evidence_digest),
      verdict_requires (codes "output.evidenceDigest"),
    )
    ∷ (bars_execution v.verdict && v.executed, verdict_must_not_execute)
    ∷ (is_policy_denied v.verdict && not (is_withheld v.approval.status), denial_requires_status)
    ∷ (not (is_verified v.recipe.signature_status) && v.executed, unverified_must_not_execute)
    ∷ (
      is_denied v.sandbox.network.mode && not (v.usage.network_requests == 0),
      denied_network_was_used,
    )
    ∷ []

abbrev pub limit_rows : ResourceUsage → VerificationLimits → List (Bool × AttemptIssue)
limit_rows u l =
    (ltb l.timeout_ms u.duration_ms, exceeds_limit (codes "durationMs"))
    ∷ (ltb l.cpu_ms u.cpu_ms, exceeds_limit (codes "cpuMs"))
    ∷ (ltb l.memory_bytes u.peak_memory_bytes, exceeds_limit (codes "peakMemoryBytes"))
    ∷ (ltb l.disk_bytes u.disk_bytes, exceeds_limit (codes "diskBytes"))
    ∷ (ltb l.max_processes u.processes, exceeds_limit (codes "processes"))
    ∷ (ltb l.max_output_bytes u.output_bytes, exceeds_limit (codes "outputBytes"))
    ∷ (ltb l.max_network_requests u.network_requests, exceeds_limit (codes "networkRequests"))
    ∷ []

abbrev pub order_rows : VerificationAttempt → List (Bool × AttemptIssue)
order_rows v =
    (
      not (if_present (λ started. not (earlier v.completed_at started)) v.started_at),
      completed_before_start,
    )
    ∷ []

-- `refineAttempt`
unfoldable pub refine_attempt : VerificationAttempt → List AttemptIssue
refine_attempt v =
    raise (execution_rows v.executed v)
    ++ (raise (verdict_rows v) ++ (raise (limit_rows v.usage v.limits) ++ raise (order_rows v)))

-- The platform's `new URL` is a parameter, with none where it throws.
module _ (read_url : Text → Option Url) where
  -- `isSafeNetworkOrigin`
  unfoldable pub is_safe_network_origin : Text → Bool
  is_safe_network_origin t = elim (read_url t) [ none ↦ false | some u ↦ is_origin u ]

  -- NetworkDestinationSchema. `z.string().url()` accepts what `new URL` reads.
  abbrev pub destination_ok : Text → Bool
  destination_ok t = is_some (read_url t) && (leb (length t) 2048 && is_safe_network_origin t)

  -- SandboxSchema
  abbrev pub sandbox_rows : Sandbox → List (Bool × AttemptIssue)
  sandbox_rows s =
      (
        not (short_text s.runtime && if_present content_digest s.runtime_digest),
        bad_field (codes "sandbox"),
      )
      ∷ (
        not (leb (length s.network.destinations) 64 && all destination_ok s.network.destinations),
        bad_field (codes "sandbox.network"),
      )
      ∷ (is_denied s.network.mode && not (is_empty s.network.destinations), denied_has_destinations)
      ∷ (
        not (is_denied s.network.mode) && is_empty s.network.destinations,
        allowlist_requires_destinations,
      )
      ∷ []

  unfoldable pub attempt_issues : VerificationAttempt → List AttemptIssue
  attempt_issues v =
      raise (attempt_field_rows v)
      ++ (raise (recipe_rows v.recipe)
          ++ (raise (approval_rows v.approval)
              ++ (raise (sandbox_rows v.sandbox) ++ refine_attempt v)))

  -- `parseVerificationAttempt`
  unfoldable pub parse_verification_attempt :
      VerificationAttempt → Parsed AttemptIssue VerificationAttempt
  parse_verification_attempt v = do
    parsed ← accept_if_clean (attempt_issues v) v
    assert_compatible parsed.schema_version parsed
