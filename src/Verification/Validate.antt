-- ===== src/Verification/Validate.antt =====
-- packages/shared/src/verification.ts: the checks of each field of an attempt.
use verglos_cli.Prelude.{
  ℕ, Bool, true, false, not, ◌&&◌, ◌||◌, List, [], ◌∷◌, leb, ◌==◌, length, all,
}
use verglos_cli.Text.{Text, codes, text_eq}
use verglos_cli.Formats.{
  is_alnum, in_range, stable_id, uuid_urn, short_text, long_text, content_digest, subject_id,
}
use verglos_cli.Contracts.{truthy, is_some, if_present, is_empty, size_in, is_version}
use verglos_cli.Verification.{
  SignatureStatus, verified, Recipe, ApprovalStatus, not_required, approved, denied, not_requested,
  Approval, Isolation, no_isolation, container, gvisor, microvm, NetworkMode, denied_network,
  allowlist, Cleanup, not_started, VerificationLimits, ResourceUsage, OutputStream, Artifact,
  Output, SecretInputs, no_secrets, ephemeral, Verdict, confirmed, not_reproduced, not_supported,
  policy_denied, VerificationAttempt, Url,
}

pub data AttemptIssue : Type 0 where
  bad_field : Text → AttemptIssue
  verified_requires_signer : AttemptIssue
  approved_requires_actor : AttemptIssue
  status_must_be_not_required : AttemptIssue
  denied_has_destinations : AttemptIssue
  allowlist_requires_destinations : AttemptIssue
  executed_requires : Text → AttemptIssue
  not_executed_bars : Text → AttemptIssue
  verdict_requires : Text → AttemptIssue
  verdict_must_not_execute : AttemptIssue
  denial_requires_status : AttemptIssue
  unverified_must_not_execute : AttemptIssue
  denied_network_was_used : AttemptIssue
  exceeds_limit : Text → AttemptIssue
  completed_before_start : AttemptIssue

-- The members that a condition's array or comparison names.
abbrev pub is_verified : SignatureStatus → Bool
is_verified verified = true
is_verified _ = false

abbrev pub is_approved : ApprovalStatus → Bool
is_approved approved = true
is_approved _ = false

abbrev pub is_not_required : ApprovalStatus → Bool
is_not_required not_required = true
is_not_required _ = false

-- `["denied", "not-requested"]`
abbrev pub is_withheld : ApprovalStatus → Bool
is_withheld denied = true
is_withheld not_requested = true
is_withheld _ = false

abbrev pub is_isolated : Isolation → Bool
is_isolated no_isolation = false
is_isolated _ = true

-- `["container", "gvisor", "microvm"]`
abbrev pub is_managed : Isolation → Bool
is_managed container = true
is_managed gvisor = true
is_managed microvm = true
is_managed _ = false

abbrev pub is_denied : NetworkMode → Bool
is_denied denied_network = true
is_denied allowlist = false

abbrev pub is_not_started : Cleanup → Bool
is_not_started not_started = true
is_not_started _ = false

abbrev pub has_secrets : SecretInputs → Bool
has_secrets no_secrets = false
has_secrets ephemeral = true

-- `["confirmed", "not_reproduced"]`
abbrev pub is_conclusive : Verdict → Bool
is_conclusive confirmed = true
is_conclusive not_reproduced = true
is_conclusive _ = false

-- `["not_supported", "policy_denied"]`
abbrev pub bars_execution : Verdict → Bool
bars_execution not_supported = true
bars_execution policy_denied = true
bars_execution _ = false

abbrev pub is_policy_denied : Verdict → Bool
is_policy_denied policy_denied = true
is_policy_denied _ = false

-- `z.number().int().nonnegative().safe()`, and with `positive`.
abbrev pub safe_count : ℕ → Bool
safe_count n = leb n 9007199254740991

abbrev pub safe_positive : ℕ → Bool
safe_positive n = leb 1 n && safe_count n

-- RULE_ID
abbrev is_rule_start : ℕ → Bool
is_rule_start c = is_alnum c || in_range b'A' b'Z' c

abbrev is_rule_unit : ℕ → Bool
is_rule_unit c =
    is_rule_start c || (c == b'.' || (c == b'_' || (c == b':' || (c == b'/' || c == b'-'))))

unfoldable pub is_rule_id : Text → Bool
is_rule_id [] = false
is_rule_id (c ∷ s) = is_rule_start c && (leb (length s) 255 && all is_rule_unit s)

-- RecipeSchema
abbrev pub recipe_rows : Recipe → List (Bool × AttemptIssue)
recipe_rows r =
    (
      not (
          stable_id r.id
          && is_version r.version
          && content_digest r.digest
          && if_present short_text r.signer
          && if_present content_digest r.trust_policy_digest),
      bad_field (codes "recipe"),
    )
    ∷ (
      is_verified r.signature_status
          && (not (truthy r.signer) || not (is_some r.trust_policy_digest)),
      verified_requires_signer,
    )
    ∷ []

-- ApprovalSchema
abbrev pub approval_rows : Approval → List (Bool × AttemptIssue)
approval_rows a =
    (
      not (if_present content_digest a.request_digest && if_present short_text a.actor),
      bad_field (codes "approval"),
    )
    ∷ (
      is_approved a.status && (not (truthy a.actor) || not (is_some a.approved_at)),
      approved_requires_actor,
    )
    ∷ (not a.required && not (is_not_required a.status), status_must_be_not_required)
    ∷ []

-- The same condition as in `isSafeNetworkOrigin`, of a URL that could be read.
abbrev pub is_origin : Url → Bool
is_origin u =
    text_eq u.protocol (codes "https:")
    && (is_empty u.username
        && (is_empty u.password
            && (text_eq u.pathname (codes "/") && (is_empty u.search && is_empty u.hash))))

abbrev pub stream_ok : OutputStream → Bool
stream_ok s = content_digest s.digest && safe_count s.size

abbrev pub artifact_ok : Artifact → Bool
artifact_ok a =
    short_text a.name && (content_digest a.digest && (safe_count a.size && short_text a.media_type))

-- OutputSchema
abbrev pub output_ok : Output → Bool
output_ok o =
    if_present content_digest o.evidence_digest
    && (if_present stream_ok o.stdout
        && (if_present stream_ok o.stderr
            && (leb (length o.artifacts) 64 && all artifact_ok o.artifacts)))

-- VerificationLimitsSchema
abbrev pub limits_ok : VerificationLimits → Bool
limits_ok l =
    safe_positive l.timeout_ms
    && (safe_positive l.cpu_ms
        && (safe_positive l.memory_bytes
            && (safe_count l.disk_bytes
                && (safe_positive l.max_processes
                    && (safe_positive l.max_output_bytes && safe_count l.max_network_requests)))))

-- ResourceUsageSchema
abbrev pub usage_ok : ResourceUsage → Bool
usage_ok u =
    safe_count u.duration_ms
    && (safe_count u.cpu_ms
        && (safe_count u.peak_memory_bytes
            && (safe_count u.disk_bytes
                && (safe_count u.processes
                    && (safe_count u.output_bytes && safe_count u.network_requests)))))

-- AttemptBaseSchema: the fields that have no schema of their own.
abbrev pub attempt_field_rows : VerificationAttempt → List (Bool × AttemptIssue)
attempt_field_rows v =
    (not (is_version v.schema_version), bad_field (codes "schemaVersion"))
    ∷ (not (uuid_urn v.attempt_id), bad_field (codes "attemptId"))
    ∷ (not (subject_id v.subject_id), bad_field (codes "subjectId"))
    ∷ (not (uuid_urn v.observation_id), bad_field (codes "observationId"))
    ∷ (not (if_present short_text v.finding_id), bad_field (codes "findingId"))
    ∷ (not (if_present is_rule_id v.rule_id), bad_field (codes "ruleId"))
    ∷ (
      not (content_digest v.input_digest && content_digest v.parameter_digest),
      bad_field (codes "inputDigest"),
    )
    ∷ (not (limits_ok v.limits), bad_field (codes "limits"))
    ∷ (not (usage_ok v.usage), bad_field (codes "usage"))
    ∷ (not (output_ok v.output), bad_field (codes "output"))
    ∷ (not (long_text v.reason), bad_field (codes "reason"))
    ∷ (
      not (size_in 1 32 v.limitations && all long_text v.limitations),
      bad_field (codes "limitations"),
    )
    ∷ []
