-- ===== src/Verification/Laws.antt =====
-- Attempts that `parseVerificationAttempt` (packages/shared/src/verification.ts) accepts.
use verglos_cli.Prelude.{◌≡◌, ◌≢◌, ◌⊎◌, true, false, Option, some, [], arith, All}
use verglos_cli.Text.{Text}
use verglos_cli.Contracts.{ok}
use verglos_cli.Formats.{ContentDigest}
use verglos_cli.Verification.{
  denied, not_requested, allowlist, confirmed, not_reproduced, not_supported, policy_denied,
  VerificationAttempt, Url,
}
use verglos_cli.Verification.Validate.{is_withheld, is_denied, is_conclusive, bars_execution}
use verglos_cli.Verification.Refine.{parse_verification_attempt}
use verglos_cli.Verification.Checked.{
  TimesRead, IsWithin, IsAuthorised, IsIdle, some_of, nonempty, IsOrigin, parse-IsChecked,
  checked-IsWithin, all-IsOrigin, checked-IsAuthorised, checked-IsIdle,
}

module _ (read_url : Text → Option Url) where
  -- An accepted attempt that was executed, and whose start and completion `Date.parse` reads, is
  -- returned as it is, was authorised (started and completed in order, with an approval whose status
  -- is not_required, or approved with its actor and a timestamp, with a verified recipe, in an isolated
  -- and unprivileged sandbox whose cleanup is recorded), and stayed within its limits.
  pub parse_verification_attempt-executed :
      (v w : VerificationAttempt)
      → parse_verification_attempt read_url v ≡ ok w
      → v.executed ≡ true
      → TimesRead v
      → (w ≡ v) × IsAuthorised v × IsWithin v.usage v.limits
  parse_verification_attempt-executed v w h x times =
      let (same, c) = parse-IsChecked read_url v w h in
      (same, checked-IsAuthorised read_url v c x times, checked-IsWithin read_url v c)

  -- Of an accepted attempt whose start and completion `Date.parse` reads: a verdict of confirmed or not_reproduced comes from an authorised run and
  -- has a digest of its evidence; one of not_supported or policy_denied comes from no run at all (no
  -- start, use, output, cleanup or secret); and policy_denied says that approval was required, and
  -- was denied or never requested.
  pub parse_verification_attempt-verdict :
      (v w : VerificationAttempt)
      → parse_verification_attempt read_url v ≡ ok w
      → TimesRead v
      → ((v.verdict ≡ confirmed) ⊎ (v.verdict ≡ not_reproduced)
          → IsAuthorised v × ((d : ContentDigest) × (v.output.evidence_digest ≡ some d)))
        × ((v.verdict ≡ not_supported) ⊎ (v.verdict ≡ policy_denied) → IsIdle v)
        × (v.verdict ≡ policy_denied
            → (v.approval.required ≡ true)
              × ((v.approval.status ≡ denied) ⊎ (v.approval.status ≡ not_requested)))
  parse_verification_attempt-verdict v w h times =
      let (same, c) = parse-IsChecked read_url v w h in
      (
        λ conclusive.
            let ran : is_conclusive v.verdict ≡ true = ground (arith, conclusive) in
            (
              checked-IsAuthorised read_url v c (ground (arith, c.verdict.0, ran)) times,
              some_of v.output.evidence_digest (ground (arith, c.verdict.1.0, ran)),
            ),
        λ barred.
            let bars : bars_execution v.verdict ≡ true = ground (arith, barred) in
            checked-IsIdle read_url v c (ground (arith, c.verdict.1.1.0, bars)),
        λ refused.
            let withheld : is_withheld v.approval.status ≡ true =
              ground (arith, refused, c.verdict.1.1.1.0) in
            (ground (arith, withheld, c.approval.1.1.0), ground (arith, withheld)),
      )

  -- An accepted attempt that made a network request did so in allowlist mode, with an allowlist that
  -- is not empty and holds nothing but HTTPS origins without credentials, path, query or fragment.
  pub parse_verification_attempt-network :
      (v w : VerificationAttempt)
      → parse_verification_attempt read_url v ≡ ok w
      → v.usage.network_requests ≢ 0
      → (v.sandbox.network.mode ≡ allowlist)
        × (v.sandbox.network.destinations ≢ [])
        × All (IsOrigin read_url) v.sandbox.network.destinations
  parse_verification_attempt-network v w h used =
      let (same, c) = parse-IsChecked read_url v w h in
      let mode : is_denied v.sandbox.network.mode ≡ false =
        ground (arith, c.verdict.1.1.1.1.1.0, used) in
      (
        ground (arith, mode),
        λ e. nonempty v.sandbox.network.destinations (ground (arith, c.sandbox.1.1.1.0, mode)) e,
        all-IsOrigin read_url v.sandbox.network.destinations (ground (arith, c.sandbox.1.0)),
      )
